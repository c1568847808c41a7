-- ===== src/Capacity/Profile.antt =====
-- whooshd/capacity_profile.py: the parts of a profile that the controller reads, and the labels of
-- its decisions.
use whooshd.Base.{ℕ, String, Option}

pub data MemoryPressureClass : Type 0 where
  unknown normal elevated high critical : MemoryPressureClass

pub data CapacityDecisionReason : Type 0 where
  below_operator_ceiling calibrated_limit operator_ceiling : CapacityDecisionReason
  memory_pressure_high queue_full context_overflow : CapacityDecisionReason
  lane_capacity runtime_not_ready : CapacityDecisionReason

pub data ContextBudget : Type 0 where
  hard recommended interactive max_input max_output : ContextBudget

pub data ContextDecisionReason : Type 0 where
  within_interactive within_recommended above_recommended above_hard : ContextDecisionReason
  above_input_limit above_output_limit no_budget : ContextDecisionReason

pub record ContextBudgets : Type 0 where
  pub hard_max_tokens : Option ℕ
  pub recommended_max_tokens : Option ℕ
  pub interactive_max_tokens : Option ℕ
  pub max_output_tokens : Option ℕ
  pub max_input_tokens : Option ℕ
  pub multimodal_token_estimate : Option ℕ

pub record CapacityProfile : Type 0 where
  pub model_id : String
  pub runtime : String
  pub machine_class : String
  pub host_memory_bytes : Option ℕ
  pub recommended_active_concurrency : ℕ
  pub context_budgets : Option ContextBudgets
