-- ===== src/Capacity/Controller.antt =====
-- whooshd/capacity_controller.py: how many requests may execute now. The controller reads a
-- profile (loaded as Controller/Cache.antt says), the host's physical memory as `os.sysconf`
-- reports it, and the settings.
pub mod Cache
pub mod Limit
pub mod Decisions
use whooshd.Base.{
  ℕ, zero, suc, ◌+◌, ◌/◌, min, max, String, Bool, true, false, ◌&&◌, ◌||◌, Option, none, some, ltb,
  leb, ◌==◌, not, if◌then◌else◌, is_some, same,
}
use whooshd.Capacity.Budget.{ContextEvaluation, evaluate_context}
use whooshd.Capacity.Cost.{RequestCost, default}
use whooshd.Capacity.Identity.{model_identity_matches}
use whooshd.Capacity.Profile.{
  MemoryPressureClass, unknown, normal, elevated, high, critical, CapacityDecisionReason,
  below_operator_ceiling, calibrated_limit, operator_ceiling, memory_pressure_high, queue_full,
  context_overflow, lane_capacity, runtime_not_ready, ContextBudgets, CapacityProfile,
}
use whooshd.Config.{Config, CapacityMode, fixed, adaptive}

pub data CapacityAction : Type 0 where
  run queue reject : CapacityAction

pub data ProfileRejection : Type 0 where
  missing_profile identity_unavailable model_mismatch runtime_mismatch : ProfileRejection
  machine_mismatch host_memory_mismatch host_memory_unavailable : ProfileRejection

pub record CapacityContext : Type 0 where
  pub active_jobs : ℕ
  pub queue_depth : ℕ
  pub max_queue_depth : ℕ
  pub runtime_ready : Bool
  pub memory_pressure : MemoryPressureClass
  pub requested_estimated_tokens : Option ℕ
  pub request_cost : Option RequestCost
  pub context_budgets : Option ContextBudgets
  pub lane : Option String
  pub lane_max_concurrent : Option ℕ
  pub lane_active_jobs : ℕ

pub record CapacityEvaluation : Type 0 where
  pub action : CapacityAction
  pub effective_active_limit : ℕ
  pub operator_ceiling : ℕ
  pub mode : CapacityMode
  pub reason : CapacityDecisionReason
  pub calibrated_concurrency : Option ℕ
  pub memory_pressure : MemoryPressureClass
  pub profile_loaded : Bool
  pub profile_eligible : Bool
  pub profile_rejection_reason : Option ProfileRejection
  pub context : Option ContextEvaluation  -- of which the source copies four labels
  pub lane : Option String
  pub lane_max_concurrent : Option ℕ
  pub lane_active_jobs : ℕ
  pub lane_limited : Bool

-- What the process knows of its host: its physical memory, where that can be read.
abbrev pub Host : Type 0
Host = Option ℕ

abbrev memory_status : Option ℕ → Host → Option ProfileRejection
memory_status none host = none
memory_status (some m) none = some host_memory_unavailable
memory_status (some m) (some n) = if m == n then none else some host_memory_mismatch

-- `_host_status`: why the profile is not of this host, if it is not.
unfoldable pub host_status : Config → Host → CapacityProfile → Option ProfileRejection
host_status cfg host p = elim (cfg.capacity_runtime) [
  | none ↦ some identity_unavailable
  | some runtime ↦ elim (cfg.capacity_machine_class) [
    | none ↦ some identity_unavailable
    | some machine_class ↦
        if not (same p.runtime runtime)
        then some runtime_mismatch
        else if not (same p.machine_class machine_class)
        then some machine_mismatch
        else memory_status p.host_memory_bytes host
  ]
]

-- `_profile_status`: why a loaded profile may not be used, if it may not. The identity of the
-- model is compared literally.
unfoldable pub profile_rejection : Config → Host → CapacityProfile → Option ProfileRejection
unfolding host_status
profile_rejection cfg host p = elim (cfg.capacity_model_id) [
  | none ↦ some identity_unavailable
  | some model_id ↦
      if not (is_some cfg.capacity_runtime && is_some cfg.capacity_machine_class)
      then some identity_unavailable
      else if not (same p.model_id model_id)
      then some model_mismatch
      else host_status cfg host p
]

-- The profile that calibrates, if one is loaded and eligible.
abbrev eligible_if : Option ProfileRejection → CapacityProfile → Option CapacityProfile
eligible_if none p = some p
eligible_if (some why) p = none

unfoldable pub eligible_profile : Config → Host → Option CapacityProfile → Option CapacityProfile
unfolding profile_rejection
eligible_profile cfg host none = none
eligible_profile cfg host (some p) = eligible_if (profile_rejection cfg host p) p

unfoldable pub rejection_reason : Config → Host → Option CapacityProfile → Option ProfileRejection
unfolding profile_rejection
rejection_reason cfg host none = some missing_profile
rejection_reason cfg host (some p) = profile_rejection cfg host p

-- The budgets of the request's model, or of the configured model where the request names none.
abbrev if_matching :
    Config → Host → CapacityProfile → Option String → Option ContextBudgets → Option ContextBudgets
if_matching cfg host p none budgets = none
if_matching cfg host p (some model_id) budgets =
    if not (model_identity_matches p.model_id model_id)
    then none
    else if is_some (host_status cfg host p)
    then none
    else budgets

abbrev or_configured : Config → Option String → Option String
or_configured cfg none = cfg.capacity_model_id
or_configured cfg (some model_id) = some model_id

unfoldable pub context_budgets :
    Config → Host → Option CapacityProfile → Option String → Option ContextBudgets
unfolding host_status model_identity_matches
context_budgets cfg host none model_id = none
context_budgets cfg host (some p) model_id =
    if_matching cfg host p (or_configured cfg model_id) p.context_budgets

abbrev pub ceiling : Config → ℕ
ceiling cfg = max cfg.max_active_requests 1

abbrev is_severe : MemoryPressureClass → Bool
is_severe high = true
is_severe critical = true
is_severe _ = false

-- The calibrated limit under memory pressure, which may halve it and never raises it.
unfoldable pub pressed : Config → MemoryPressureClass → ℕ → ℕ
pressed cfg pressure limit =
    max
      (if cfg.capacity_memory_pressure_deny && (is_severe pressure && ltb 1 limit)
        then max (limit / 2) 1
        else limit)
      1

abbrev calibrate : Config → MemoryPressureClass → Option CapacityProfile → ℕ
calibrate cfg pressure none = ceiling cfg
calibrate cfg pressure (some p) =
    pressed cfg pressure (min (ceiling cfg) p.recommended_active_concurrency)

abbrev limit_in : CapacityMode → Config → MemoryPressureClass → Option CapacityProfile → ℕ
limit_in fixed cfg pressure p = ceiling cfg
limit_in adaptive cfg pressure p = calibrate cfg pressure p

unfoldable pub effective_active_limit :
    Config → Host → Option CapacityProfile → MemoryPressureClass → ℕ
unfolding eligible_profile pressed
effective_active_limit cfg host profile pressure =
    limit_in cfg.capacity_mode cfg pressure (eligible_profile cfg host profile)

-- `lane_active_jobs < max(int(lane_max_concurrent), 1)`, where the lane declares a ceiling.
abbrev pub lane_has_room : Option ℕ → ℕ → Bool
lane_has_room none active = true
lane_has_room (some limit) active = ltb active (max limit 1)

-- The cost that is compared: the request's own, or its estimated total alone.
abbrev total_only : ℕ → RequestCost
total_only n = record {
  input_tokens = 0;
  output_tokens = 0;
  multimodal_tokens = 0;
  total_tokens = n;
  input_is_exact = false;
  multimodal_is_exact = false;
  output_is_exact = false;
  has_unknown_cost = false;
  output_limit_source = default;
  structured_prompt_tokens = 0;
  media_parts = 0;
}

abbrev or_zero : Option ℕ → ℕ
or_zero none = 0
or_zero (some n) = n

abbrev cost_of : Option RequestCost → Option ℕ → RequestCost
cost_of (some c) estimated = c
cost_of none estimated = total_only (or_zero estimated)

-- The comparison with the budgets, where the request's model has some.
abbrev pub context_of : CapacityContext → Option ContextBudgets → Option ContextEvaluation
context_of ctx none = none
context_of ctx (some b) =
    some (evaluate_context (cost_of ctx.request_cost ctx.requested_estimated_tokens) (some b))

abbrev pub overflows : Option ContextEvaluation → Bool
overflows none = false
overflows (some e) = e.over_limit

abbrev calibration : CapacityMode → Option CapacityProfile → Option ℕ
calibration fixed p = none
calibration adaptive none = none
calibration adaptive (some p) = some p.recommended_active_concurrency

abbrev in_adaptive {ℓ} : {A : Type ℓ} → CapacityMode → A → A → A
in_adaptive fixed d a = d
in_adaptive adaptive d a = a

-- The fields that every verdict carries, under a provisional action and reason.
unfoldable pub evidence :
    Config → Host → Option CapacityProfile → CapacityContext → CapacityEvaluation
evidence cfg host profile ctx = record {
  action = reject;
  effective_active_limit = effective_active_limit cfg host profile ctx.memory_pressure;
  operator_ceiling = ceiling cfg;
  mode = cfg.capacity_mode;
  reason = context_overflow;
  calibrated_concurrency = calibration cfg.capacity_mode (eligible_profile cfg host profile);
  memory_pressure = ctx.memory_pressure;
  profile_loaded = in_adaptive cfg.capacity_mode false (is_some profile);
  profile_eligible =
      in_adaptive cfg.capacity_mode false (is_some (eligible_profile cfg host profile));
  profile_rejection_reason = in_adaptive cfg.capacity_mode none (rejection_reason cfg host profile);
  context = context_of ctx ctx.context_budgets;
  lane = ctx.lane;
  lane_max_concurrent = ctx.lane_max_concurrent;
  lane_active_jobs = ctx.lane_active_jobs;
  lane_limited = false;
}

abbrev verdict : CapacityEvaluation → CapacityAction → CapacityDecisionReason → CapacityEvaluation
verdict e action reason = record e { action = action; reason = reason }

abbrev is_high : MemoryPressureClass → Bool
is_high high = true
is_high _ = false

abbrev run_reason : Option ℕ → ℕ → CapacityDecisionReason
run_reason none ceiling = below_operator_ceiling
run_reason (some n) ceiling = if ltb n ceiling then calibrated_limit else operator_ceiling

abbrev queue_reason : Option ℕ → CapacityDecisionReason
queue_reason none = operator_ceiling
queue_reason (some n) = calibrated_limit

-- A slot is free: run, unless high memory pressure holds back the last slot.
with_room : Config → CapacityContext → CapacityEvaluation → CapacityEvaluation
with_room cfg ctx e =
    if cfg.capacity_memory_pressure_deny
      && (is_high ctx.memory_pressure && leb e.effective_active_limit (ctx.active_jobs + 1))
    then verdict e queue memory_pressure_high
    else verdict e run (run_reason e.calibrated_concurrency e.operator_ceiling)

-- No slot is free, in the lane or globally: queue while the queue has room.
without_room : CapacityContext → CapacityEvaluation → CapacityEvaluation
without_room ctx e =
    let queue_has_room = ltb ctx.queue_depth ctx.max_queue_depth in
    if not (lane_has_room ctx.lane_max_concurrent ctx.lane_active_jobs)
    then record e {
      action = if queue_has_room then queue else reject;
      reason = lane_capacity;
      lane_limited = true;
    }
    else if not queue_has_room
    then verdict e reject queue_full
    else verdict e queue (queue_reason e.calibrated_concurrency)

-- The decision, by what was gathered.
unfoldable pub decide : Config → CapacityContext → CapacityEvaluation → CapacityEvaluation
unfolding with_room without_room
decide cfg ctx e =
    if overflows e.context
    then verdict e reject context_overflow
    else if not ctx.runtime_ready
    then verdict e reject runtime_not_ready
    else if ltb ctx.active_jobs e.effective_active_limit
        && lane_has_room ctx.lane_max_concurrent ctx.lane_active_jobs
    then with_room cfg ctx e
    else without_room ctx e

unfoldable pub evaluate :
    Config → Host → Option CapacityProfile → CapacityContext → CapacityEvaluation
evaluate cfg host profile ctx = decide cfg ctx (evidence cfg host profile ctx)
