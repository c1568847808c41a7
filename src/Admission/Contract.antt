-- ===== src/Admission/Contract.antt =====
-- admission.py: the results that `evaluate_chat_request` can give.
use whooshd.Base.{
  ℕ, ◌<◌, ◌≡◌, refl, ◌≢◌, ◌⊎◌, inl, inr, String, Bool, true, false, Option, none, some, arith,
  length, if◌then◌else◌, Bool-cases,
}
use whooshd.Admission.{
  AdmissionDecision, AdmissionResult, ErrorCode, accepted, queued, rejected_overloaded,
  rejected_queue_full, rejected_prompt_too_large, rejected_too_many_messages,
  rejected_max_tokens_too_high, rejected_model_not_ready, rejected_context_overflow,
  invalid_request, context_too_large, model_unavailable, queue_is_full, runner_overloaded,
  translate, rejection, capacity_verdict, evaluate_chat_request, estimate_prompt_chars, above,
}
use whooshd.Capacity.Controller.{
  CapacityAction, CapacityContext, CapacityEvaluation, Host, run, queue, reject, decide, evaluate,
}
use whooshd.Capacity.Cost.{Chars, ChatCompletionRequest}
use whooshd.Capacity.Profile.{
  CapacityDecisionReason, CapacityProfile, context_overflow, runtime_not_ready,
}
use whooshd.Config.{Config}
use whooshd.Runtime.{RuntimeState}

-- The status and the code that each decision is reported with.
abbrev pub status_of : AdmissionDecision → ℕ
status_of accepted = 200
status_of queued = 202
status_of rejected_overloaded = 429
status_of rejected_queue_full = 429
status_of rejected_prompt_too_large = 400
status_of rejected_too_many_messages = 400
status_of rejected_max_tokens_too_high = 400
status_of rejected_model_not_ready = 503
status_of rejected_context_overflow = 422

abbrev pub code_of : AdmissionDecision → Option ErrorCode
code_of accepted = none
code_of queued = none
code_of rejected_overloaded = some runner_overloaded
code_of rejected_queue_full = some queue_is_full
code_of rejected_prompt_too_large = some context_too_large
code_of rejected_too_many_messages = some invalid_request
code_of rejected_max_tokens_too_high = some invalid_request
code_of rejected_model_not_ready = some model_unavailable
code_of rejected_context_overflow = some context_too_large

abbrev pub is_accepted : AdmissionDecision → Bool
is_accepted accepted = true
is_accepted _ = false

abbrev pub FollowsTable : AdmissionResult → Type 0
FollowsTable r =
    (r.http_status ≡ status_of r.reason)
    × (r.error_code ≡ code_of r.reason)
    × (r.accepts ≡ is_accepted r.reason)

rejection_table : (why : CapacityDecisionReason) → FollowsTable (rejection why)
rejection_table context_overflow = (refl, refl, refl)
rejection_table runtime_not_ready = (refl, refl, refl)
rejection_table _ = (refl, refl, refl)

translate_table :
    (cfg : Config) (action : CapacityAction) (why : CapacityDecisionReason)
    → FollowsTable (translate cfg action why)
translate_table cfg run why = (refl, refl, refl)
translate_table cfg reject why = rejection_table why
translate_table cfg queue why = elim (Bool-cases cfg.enable_queue) [
  | inl t ↦ rw t (refl, refl, refl)
  | inr f ↦ rw f (refl, refl, refl)
]

decide_ready :
    (cfg : Config) (ctx : CapacityContext) (e : CapacityEvaluation)
    → ctx.runtime_ready ≡ true
    → (decide cfg ctx e).reason ≢ runtime_not_ready
unfolding decide
decide_ready cfg ctx e r h = ground arith

translate_ready :
    (cfg : Config) (action : CapacityAction) (why : CapacityDecisionReason)
    → why ≢ runtime_not_ready
    → (translate cfg action why).reason ≢ rejected_model_not_ready
translate_ready cfg run why n h = cc
translate_ready cfg queue why n h = ground arith
translate_ready cfg reject runtime_not_ready n h = n refl
translate_ready cfg reject context_overflow n h = cc
translate_ready cfg reject _ n h = cc

-- What holds of each outcome of a ladder of three tests holds of the ladder.
three_tests {ℓ} :
    {A : Type ℓ} (P : A → Type 0) (a b c : Bool) (x y z w : A)
    → P x
    → P y
    → P z
    → P w
    → P (if a then x else if b then y else if c then z else w)
three_tests P true b c x y z w px py pz pw = px
three_tests P false true c x y z w px py pz pw = py
three_tests P false false true x y z w px py pz pw = pz
three_tests P false false false x y z w px py pz pw = pw

module _ (cfg : Config) (host : Host) (profile : Option CapacityProfile) {Json : Type 0}
    (dumps : Json → Chars) (request : ChatCompletionRequest Json) (rt : RuntimeState)
    (lane : Option String) (lane_max : Option ℕ) (model_id : Option String) where
  verdict_ready :
      (capacity_verdict cfg host profile dumps request rt lane lane_max model_id).reason
      ≢ runtime_not_ready
  unfolding capacity_verdict evaluate
  verdict_ready = decide_ready cfg _ _ refl

  -- Every result follows the table: the status and the error code are those of its decision, and
  -- it accepts exactly under the decision `accepted`. The runtime's readiness is never the
  -- decision, since admission does not look at it.
  pub evaluate_chat_request_contract :
      FollowsTable (evaluate_chat_request cfg host profile dumps request rt lane lane_max model_id)
      × ((evaluate_chat_request cfg host profile dumps request rt lane lane_max model_id).reason
          ≢ rejected_model_not_ready)
  unfolding evaluate_chat_request
  evaluate_chat_request_contract =
      let v = capacity_verdict cfg host profile dumps request rt lane lane_max model_id in
      three_tests (λ r. FollowsTable r × (r.reason ≢ rejected_model_not_ready)) _ _ _ _ _ _ _
        ((refl, refl, refl), λ (h : rejected_too_many_messages ≡ rejected_model_not_ready). cc)
        ((refl, refl, refl), λ (h : rejected_prompt_too_large ≡ rejected_model_not_ready). cc)
        ((refl, refl, refl), λ (h : rejected_max_tokens_too_high ≡ rejected_model_not_ready). cc)
        (translate_table cfg v.action v.reason, translate_ready cfg v.action v.reason verdict_ready)

  -- Requests that break a structural limit are refused whatever the state of the runtime.
  pub evaluate_chat_request-structural :
      (other : RuntimeState)
      → (cfg.max_messages < length request.messages)
        ⊎ ((cfg.max_prompt_chars < estimate_prompt_chars request.messages)
            ⊎ (above request.max_tokens cfg.max_request_max_tokens ≡ true))
      → (evaluate_chat_request cfg host profile dumps request rt lane lane_max model_id
          ≡ evaluate_chat_request cfg host profile dumps request other lane lane_max model_id)
        × ((evaluate_chat_request cfg host profile dumps request rt lane lane_max
              model_id).http_status
            ≡ 400)
  unfolding evaluate_chat_request
  evaluate_chat_request-structural other broken = (ground arith, ground arith)
