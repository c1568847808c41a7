-- ===== src/Config.antt =====
-- The settings of config.py that the modelled parts read. The source reads them from the
-- environment at each call; here they are one record, passed to each operation that reads one.
use whooshd.Base.{ℕ, String, Bool, Option}

-- `get_scheduler_policy` and `get_capacity_mode`, whose other values fall back to the first.
pub data SchedulerPolicy : Type 0 where
  fifo cache_aware_fifo : SchedulerPolicy

pub data CapacityMode : Type 0 where
  fixed adaptive : CapacityMode

pub record Config : Type 0 where
  -- the queue
  pub enable_queue : Bool
  pub max_queue_depth : ℕ
  pub queue_timeout : ℕ
  -- admission
  pub max_active_requests : ℕ
  pub max_prompt_chars : ℕ
  pub max_messages : ℕ
  pub max_request_max_tokens : ℕ
  pub default_max_tokens : ℕ
  -- capacity
  pub capacity_mode : CapacityMode
  pub capacity_memory_pressure_deny : Bool
  pub capacity_profile_path : Option String
  pub capacity_model_id : Option String
  pub capacity_runtime : Option String
  pub capacity_machine_class : Option String
  -- scheduling
  pub scheduler_policy : SchedulerPolicy
  pub scheduler_max_bypass : ℕ
