-- ===== src/Admission.antt =====
-- whooshd/admission.py: whether a chat request is admitted, queued or rejected. The messages and
-- the `details` of a result are texts for the client and are left out; `profile` is what the
-- controller's cache returns, and `host` the machine's memory.
pub mod Contract
pub mod Capacity
use whooshd.Base.{
  ℕ, zero, suc, ◌+◌, ◌≤◌, max, String, Bool, true, false, ◌&&◌, Option, none, some, List, [], ◌∷◌,
  ltb, leb, not, if◌then◌else◌, length, same, truthy,
}
use whooshd.Capacity.Budget.{evaluate_context}
use whooshd.Capacity.Controller.{
  CapacityAction, CapacityContext, CapacityEvaluation, Host, run, queue, reject, context_budgets,
  effective_active_limit, evaluate,
}
use whooshd.Capacity.Cost.{
  Chars, ChatCompletionRequest, ChatMessage, Content, text, parts, Part, RequestCost,
  estimate_request_cost,
}
use whooshd.Capacity.Profile.{
  CapacityProfile, CapacityDecisionReason, ContextBudgets, MemoryPressureClass, context_overflow,
  runtime_not_ready,
}
use whooshd.Config.{Config}
use whooshd.Runtime.{MemoryPressure, RuntimeState, active_jobs, active_jobs_for_lane, queue_depth}

pub data AdmissionDecision : Type 0 where
  accepted queued rejected_overloaded rejected_queue_full : AdmissionDecision
  rejected_prompt_too_large rejected_too_many_messages : AdmissionDecision
  rejected_max_tokens_too_high rejected_model_not_ready : AdmissionDecision
  rejected_context_overflow : AdmissionDecision

-- The codes of control_plane.py that admission uses.
pub data ErrorCode : Type 0 where
  invalid_request context_too_large model_unavailable queue_is_full : ErrorCode
  runner_overloaded : ErrorCode

pub record AdmissionResult : Type 0 where
  pub accepts : Bool
  pub reason : AdmissionDecision
  pub error_code : Option ErrorCode
  pub http_status : ℕ

abbrev refuse : AdmissionDecision → ErrorCode → ℕ → AdmissionResult
refuse reason code status = record {
  accepts = false;
  reason = reason;
  error_code = some code;
  http_status = status;
}

-- `part.get("type") == "text"`, and the length of its text.
abbrev part_chars : Part → ℕ
part_chars p = elim (p.kind) [
  | none ↦ 0
  | some k ↦ if same k "text" then (elim (p.text) [ none ↦ 0 | some t ↦ length t ]) else 0
]

parts_chars : List Part → ℕ
parts_chars [] = 0
parts_chars (p ∷ ps) = part_chars p + parts_chars ps

abbrev content_chars : Content → ℕ
content_chars (text t) = length t
content_chars (parts ps) = parts_chars ps

unfoldable pub estimate_prompt_chars : {Json : Type 0} → List (ChatMessage Json) → ℕ
unfolding parts_chars
estimate_prompt_chars [] = 0
estimate_prompt_chars (m ∷ ms) = content_chars m.content + estimate_prompt_chars ms

abbrev pub memory_pressure_from_runtime : RuntimeState → MemoryPressureClass
memory_pressure_from_runtime rt = elim (rt.memory_pressure) [
  | MemoryPressure.unknown ↦ MemoryPressureClass.unknown
  | MemoryPressure.normal ↦ MemoryPressureClass.normal
  | MemoryPressure.elevated ↦ MemoryPressureClass.elevated
  | MemoryPressure.high ↦ MemoryPressureClass.high
  | MemoryPressure.critical ↦ MemoryPressureClass.critical
]

-- Readiness is checked elsewhere, so the controller is told that the runtime is ready.
abbrev pub capacity_context :
    Config
    → RuntimeState
    → RequestCost
    → Option ContextBudgets
    → Option String
    → Option ℕ
    → CapacityContext
capacity_context cfg rt cost budgets lane lane_max = record {
  active_jobs = active_jobs rt;
  queue_depth = queue_depth rt;
  max_queue_depth = cfg.max_queue_depth;
  runtime_ready = true;
  memory_pressure = memory_pressure_from_runtime rt;
  requested_estimated_tokens = some cost.total_tokens;
  request_cost = some cost;
  context_budgets = budgets;
  lane = lane;
  lane_max_concurrent = lane_max;
  lane_active_jobs = active_jobs_for_lane rt lane;
}

abbrev pub context_overflow_result : AdmissionResult
context_overflow_result = refuse rejected_context_overflow context_too_large 422

abbrev rejection : CapacityDecisionReason → AdmissionResult
rejection context_overflow = context_overflow_result
rejection runtime_not_ready = refuse rejected_model_not_ready model_unavailable 503
rejection _ = refuse rejected_queue_full queue_is_full 429

-- The controller's verdict as an admission result.
abbrev translate : Config → CapacityAction → CapacityDecisionReason → AdmissionResult
translate cfg run why = record {
  accepts = true;
  reason = accepted;
  error_code = none;
  http_status = 200;
}
translate cfg reject why = rejection why
translate cfg queue why =
    if not cfg.enable_queue
    then refuse rejected_overloaded runner_overloaded 429
    else record { accepts = false; reason = queued; error_code = none; http_status = 202 }

abbrev pub above : Option ℕ → ℕ → Bool
above none cap = false
above (some n) cap = ltb cap n

module _ (cfg : Config) (host : Host) (profile : Option CapacityProfile) {Json : Type 0}
    (dumps : Json → Chars) (request : ChatCompletionRequest Json) (rt : RuntimeState)
    (lane : Option String) (lane_max : Option ℕ) (model_id : Option String) where
  unfoldable pub request_budgets : Option ContextBudgets
  request_budgets = context_budgets cfg host profile model_id

  abbrev price : Option ContextBudgets → Option ℕ
  price none = none
  price (some b) = b.multimodal_token_estimate

  unfoldable pub request_cost : RequestCost
  unfolding request_budgets
  request_cost =
      estimate_request_cost dumps request none (price request_budgets) cfg.default_max_tokens

  unfoldable pub capacity_verdict : CapacityEvaluation
  capacity_verdict =
      evaluate cfg host profile (capacity_context cfg rt request_cost request_budgets lane lane_max)

  unfoldable pub evaluate_chat_request : AdmissionResult
  evaluate_chat_request =
      if ltb cfg.max_messages (length request.messages)
      then refuse rejected_too_many_messages invalid_request 400
      else if ltb cfg.max_prompt_chars (estimate_prompt_chars request.messages)
      then refuse rejected_prompt_too_large context_too_large 400
      else if above request.max_tokens cfg.max_request_max_tokens
      then refuse rejected_max_tokens_too_high invalid_request 400
      else translate cfg capacity_verdict.action capacity_verdict.reason

-- The lane's half of the test that releases a queued request.
abbrev lane_available : RuntimeState → Option String → Option ℕ → Bool
lane_available rt none lane_max = true
lane_available rt (some lane) none = true
lane_available rt (some lane) (some limit) =
    if truthy lane then not (leb (max limit 1) (active_jobs_for_lane rt (some lane))) else true

unfoldable pub active_capacity_available :
    Config → Host → Option CapacityProfile → RuntimeState → Option String → Option ℕ → Bool
active_capacity_available cfg host profile rt lane lane_max =
    if leb (effective_active_limit cfg host profile (memory_pressure_from_runtime rt))
      (active_jobs rt)
    then false
    else lane_available rt lane lane_max
