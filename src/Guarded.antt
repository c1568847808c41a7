-- ===== src/Guarded.antt =====
-- whooshd/guarded_adapter_batching.py: which groups an adapter may run as one batch, and the guarded
-- run of a group. A request is read for the attributes that the guard looks at; `tools` and
-- `tool_choice` are whether Python takes them for true. The adapter's batch call works on a state `W`
-- of its own and answers with responses `R`; a missing method and an exception are `none`. The
-- identifier and the time of an error response are left out, and so are the report's fields that
-- both ways of ending leave at one value. A request's `model` is `none` when it has no such attribute.
pub mod Groups
use whooshd.Base.{
  ℕ, String, Bool, true, false, ◌&&◌, ◌||◌, Option, none, some, List, [], ◌∷◌, ltb, ◌==◌, not,
  if◌then◌else◌, length, same, map,
}

pub data GuardedAdapterBatchStatus : Type 0 where
  disabled ineligible ready running completed failed : GuardedAdapterBatchStatus

pub data GuardedAdapterBatchIneligibilityReason : Type 0 where
  global_flag_disabled mlx_flag_disabled backend_not_mlx : GuardedAdapterBatchIneligibilityReason
  streaming_unsupported vlm_unsupported : GuardedAdapterBatchIneligibilityReason
  tool_calls_unsupported incompatible_sampling : GuardedAdapterBatchIneligibilityReason
  group_too_small group_too_large max_tokens_exceeded : GuardedAdapterBatchIneligibilityReason
  mixed_group_unsupported slot_claim_failed unknown : GuardedAdapterBatchIneligibilityReason

pub record GroupRequest : Type 0 where
  pub stream : Bool
  pub tools : Bool
  pub tool_choice : Bool
  pub max_tokens : Option ℕ
  pub model : Option String

-- The keyword arguments of `classify_guard_eligibility`.
pub record Guard : Type 0 where
  pub global_enabled : Bool
  pub mlx_enabled : Bool
  pub min_group : ℕ
  pub max_group : ℕ
  pub max_tokens : ℕ

abbrev pub asks_too_much : ℕ → Option ℕ → Bool
asks_too_much most none = false
asks_too_much most (some n) = ltb most n

-- The first request that the guard refuses, by its reason.
unfoldable pub refused_request :
    ℕ → List GroupRequest → Option GuardedAdapterBatchIneligibilityReason
refused_request most [] = none
refused_request most (r ∷ rs) =
    if r.stream
    then some streaming_unsupported
    else if r.tools || r.tool_choice
    then some tool_calls_unsupported
    else if asks_too_much most r.max_tokens
    then some max_tokens_exceeded
    else refused_request most rs

unfoldable pub classify_size : Guard → ℕ → Option GuardedAdapterBatchIneligibilityReason
classify_size g n =
    if ltb n g.min_group
    then some group_too_small
    else if ltb g.max_group n
    then some group_too_large
    else none

abbrev pub or_else_size :
    Guard
    → ℕ
    → Option GuardedAdapterBatchIneligibilityReason
    → Option GuardedAdapterBatchIneligibilityReason
or_else_size g n (some reason) = some reason
or_else_size g n none = classify_size g n

unfoldable pub classify_guard_eligibility :
    String → List GroupRequest → Guard → Option GuardedAdapterBatchIneligibilityReason
classify_guard_eligibility backend rs g =
    if not g.global_enabled
    then some global_flag_disabled
    else if not g.mlx_enabled
    then some mlx_flag_disabled
    else if not (same backend "mlx")
    then some backend_not_mlx
    else or_else_size g (length rs) (refused_request g.max_tokens rs)

pub record GuardedAdapterBatchReport : Type 0 where
  pub status : GuardedAdapterBatchStatus
  pub has_failure : Bool  -- `failure_reason` is ADAPTER_BATCH_FAILED, the only one that is given
  pub model : Option String
  pub request_count : ℕ
  pub virtual_slots_claimed : ℕ
  pub virtual_slots_tombstoned : ℕ
  pub terminal_events_observed : ℕ
  pub controlled_errors_emitted : ℕ
  pub cleanup_completed : Bool
  pub all_slots_tombstoned : Bool

-- A response of the adapter, or the guard's error response for a request of that model.
pub data GuardedResponse (R : Type 0) : Type 0 where
  answered : R → GuardedResponse R
  guard_error : String → GuardedResponse R

abbrev first_model : List GroupRequest → Option String
first_model [] = none
first_model (r ∷ rs) = r.model

unfoldable pub completed_report : List GroupRequest → GuardedAdapterBatchReport
completed_report rs = record {
  status = completed;
  has_failure = false;
  model = first_model rs;
  request_count = length rs;
  virtual_slots_claimed = length rs;
  virtual_slots_tombstoned = length rs;
  terminal_events_observed = length rs;
  controlled_errors_emitted = 0;
  cleanup_completed = true;
  all_slots_tombstoned = true;
}

unfoldable pub failed_report : List GroupRequest → GuardedAdapterBatchReport
failed_report rs = record {
  status = failed;
  has_failure = true;
  model = none;
  request_count = length rs;
  virtual_slots_claimed = length rs;
  virtual_slots_tombstoned = length rs;
  terminal_events_observed = 0;
  controlled_errors_emitted = length rs;
  cleanup_completed = true;
  all_slots_tombstoned = true;
}

-- `getattr(req, "model", "unknown")`.
abbrev pub model_name : Option String → String
model_name none = "unknown"
model_name (some x) = x

unfoldable pub error_responses : {R : Type 0} → List GroupRequest → List (GuardedResponse R)
error_responses [] = []
error_responses (r ∷ rs) = guard_error (model_name r.model) ∷ error_responses rs

unfoldable pub answers : {R : Type 0} → List R → List (GuardedResponse R)
answers [] = []
answers (x ∷ xs) = answered x ∷ answers xs

abbrev pub GroupOutcome : Type 0 → Type 0
GroupOutcome R = List (GuardedResponse R) × GuardedAdapterBatchReport

unfoldable pub batch_failed : {R : Type 0} → List GroupRequest → GroupOutcome R
batch_failed rs = (error_responses rs, failed_report rs)

-- The responses of the batch call, if it came to any.
unfoldable pub settle_batch : {R : Type 0} → List GroupRequest → Option (List R) → GroupOutcome R
settle_batch rs none = batch_failed rs
settle_batch rs (some xs) =
    if not (length xs == length rs) then batch_failed rs else (answers xs, completed_report rs)

unfoldable pub run_guarded_adapter_batch :
    {W R : Type 0}
    → Option (List GroupRequest → W → W × Option (List R))
    → List GroupRequest
    → W
    → W × GroupOutcome R
run_guarded_adapter_batch none rs w = (w, batch_failed rs)
run_guarded_adapter_batch (some batch_fn) rs w = let b = batch_fn rs w in (b.0, settle_batch rs b.1)
