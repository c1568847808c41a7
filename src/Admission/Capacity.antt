-- ===== src/Admission/Capacity.antt =====
-- admission.py: what admission and the release of queued requests say of capacity.
use whooshd.Base.{
  ℕ, ◌≤◌, ◌<◌, ◌≡◌, refl, ◌↔◌, ◌⊎◌, inl, inr, String, true, false, Option, none, some, arith,
  length, Bool-cases,
}
use whooshd.Admission.{
  queue_depth, queued, translate, capacity_verdict, evaluate_chat_request, capacity_context,
  estimate_prompt_chars, above, active_capacity_available, lane_available,
  memory_pressure_from_runtime, request_cost, request_budgets,
}
use whooshd.Capacity.Controller.{
  CapacityAction, CapacityContext, Host, run, queue, reject, effective_active_limit, lane_has_room,
}
use whooshd.Capacity.Controller.Decisions.{
  HasRoom, IsHeldBack, fits_context, evaluate_run_iff, evaluate_queue,
}
use whooshd.Capacity.Cost.{Chars, ChatCompletionRequest}
use whooshd.Capacity.Profile.{
  CapacityDecisionReason, CapacityProfile, ContextBudgets, context_overflow, runtime_not_ready,
}
use whooshd.Capacity.Cost.{RequestCost}
use whooshd.Config.{Config}
use whooshd.Runtime.{RuntimeState, active_jobs_for_lane}

-- A lane without a name counts no jobs, so its test passes in both forms.
lane_tests_agree :
    (rt : RuntimeState) (lane : Option String) (lane_max : Option ℕ)
    → lane_has_room lane_max (active_jobs_for_lane rt lane) ≡ lane_available rt lane lane_max
unfolding active_jobs_for_lane
lane_tests_agree rt none none = refl
lane_tests_agree rt none (some n) = ground arith
lane_tests_agree rt (some l) none = refl
lane_tests_agree rt (some l) (some n) = ground arith

module _ (cfg : Config) (host : Host) (profile : Option CapacityProfile) (rt : RuntimeState)
    (lane : Option String) (lane_max : Option ℕ) (cost : RequestCost)
    (budgets : Option ContextBudgets) where
  available→HasRoom :
      active_capacity_available cfg host profile rt lane lane_max ≡ true
      → HasRoom
          (capacity_context cfg rt cost budgets lane lane_max)
          (effective_active_limit cfg host profile (memory_pressure_from_runtime rt))
  unfolding active_capacity_available
  available→HasRoom h = (ground arith, ground (arith, lane_tests_agree rt lane lane_max))

  HasRoom→available :
      HasRoom
        (capacity_context cfg rt cost budgets lane lane_max)
        (effective_active_limit cfg host profile (memory_pressure_from_runtime rt))
      → active_capacity_available cfg host profile rt lane lane_max ≡ true
  unfolding active_capacity_available
  HasRoom→available h = ground (arith, lane_tests_agree rt lane lane_max)

-- The three limits that the request keeps by its own shape.
abbrev pub IsWellFormed : {Json : Type 0} → Config → ChatCompletionRequest Json → Type 0
IsWellFormed cfg request =
    (length request.messages ≤ cfg.max_messages)
    × (estimate_prompt_chars request.messages ≤ cfg.max_prompt_chars)
    × (above request.max_tokens cfg.max_request_max_tokens ≡ false)

accepts_translate :
    (cfg : Config) (action : CapacityAction) (why : CapacityDecisionReason)
    → (translate cfg action why).accepts ≡ true
    → action ≡ run
accepts_translate cfg run why h = refl
accepts_translate cfg reject context_overflow h = cc
accepts_translate cfg reject runtime_not_ready h = cc
accepts_translate cfg reject _ h = cc
accepts_translate cfg queue why h = ground arith

queued_translate :
    (cfg : Config) (action : CapacityAction) (why : CapacityDecisionReason)
    → (translate cfg action why).reason ≡ queued
    → (action ≡ CapacityAction.queue) × (cfg.enable_queue ≡ true)
queued_translate cfg run why h = cc
queued_translate cfg reject context_overflow h = cc
queued_translate cfg reject runtime_not_ready h = cc
queued_translate cfg reject _ h = cc
queued_translate cfg queue why h = (refl, ground arith)

module _ (cfg : Config) (host : Host) (profile : Option CapacityProfile) {Json : Type 0}
    (dumps : Json → Chars) (request : ChatCompletionRequest Json) (rt : RuntimeState)
    (lane : Option String) (lane_max : Option ℕ) (model_id : Option String) where
  abbrev cost_now : RequestCost
  cost_now = request_cost cfg host profile dumps request rt lane lane_max model_id

  abbrev budgets_now : Option ContextBudgets
  budgets_now = request_budgets cfg host profile dumps request rt lane lane_max model_id

  -- The context that the request presents to the controller.
  abbrev pub request_context : CapacityContext
  request_context = capacity_context cfg rt cost_now budgets_now lane lane_max

  abbrev pub limit_now : ℕ
  limit_now = effective_active_limit cfg host profile (memory_pressure_from_runtime rt)

  verdict-run :
      (capacity_verdict cfg host profile dumps request rt lane lane_max model_id).action ≡ run
      → (fits_context request_context ≡ true)
        × (active_capacity_available cfg host profile rt lane lane_max ≡ true)
        × (¬ IsHeldBack cfg request_context limit_now)
  unfolding capacity_verdict
  verdict-run h =
      let (fit, ready, room, free) = (evaluate_run_iff cfg host profile request_context).0 h in
      (fit, HasRoom→available cfg host profile rt lane lane_max cost_now budgets_now room, free)

  run-verdict :
      (fits_context request_context ≡ true)
      → (active_capacity_available cfg host profile rt lane lane_max ≡ true)
      → (¬ IsHeldBack cfg request_context limit_now)
      → (capacity_verdict cfg host profile dumps request rt lane lane_max model_id).action ≡ run
  unfolding capacity_verdict
  run-verdict fit room free = (evaluate_run_iff cfg host profile request_context).1 (
    fit,
    refl,
    available→HasRoom cfg host profile rt lane lane_max cost_now budgets_now room,
    free,
  )

  verdict-queue :
      (capacity_verdict cfg host profile dumps request rt lane lane_max model_id).action
        ≡ CapacityAction.queue
      → (fits_context request_context ≡ true)
        × (((active_capacity_available cfg host profile rt lane lane_max ≡ false)
              × (queue_depth rt < cfg.max_queue_depth))
            ⊎ IsHeldBack cfg request_context limit_now)
  unfolding capacity_verdict
  verdict-queue h =
      let (fit, why) = evaluate_queue cfg host profile request_context h in
      (
        fit,
        elim why [
          | inr held ↦ inr held
          | inl (full, short) ↦ inl (
            elim (Bool-cases (active_capacity_available cfg host profile rt lane lane_max)) [
              | inr f ↦ f
              | inl t ↦ absurd (
                  full (available→HasRoom cfg host profile rt lane lane_max cost_now budgets_now t))
            ],
            short,
          )
        ],
      )

  -- A request is admitted at once exactly when it keeps the three limits on its shape, it fits its
  -- model's context budgets, the test that releases queued requests finds a free slot for it, and
  -- high memory pressure does not hold that slot back, which it does to the last free slot only.
  pub evaluate_chat_request_accepts_iff :
      ((evaluate_chat_request cfg host profile dumps request rt lane lane_max model_id).accepts
        ≡ true)
      ↔ (IsWellFormed cfg request
          × (fits_context request_context ≡ true)
          × (active_capacity_available cfg host profile rt lane lane_max ≡ true)
          × (¬ IsHeldBack cfg request_context limit_now))
  unfolding evaluate_chat_request
  evaluate_chat_request_accepts_iff =
      let v = capacity_verdict cfg host profile dumps request rt lane lane_max model_id in
      (
        λ h.
            let shape : IsWellFormed cfg request = (ground arith, ground arith, ground arith) in
            let (fit, room, free) =
              verdict-run (accepts_translate cfg v.action v.reason (ground arith)) in
            (shape, fit, room, free),
        λ (shape, fit, room, free). ground (arith, run-verdict fit room free),
      )

  -- A request that is told to wait keeps the limits on its shape and fits its budgets, the queue is
  -- enabled, and either no slot is free for it and the queue is not full, or high memory pressure
  -- holds the slot back.
  pub evaluate_chat_request-queued :
      (evaluate_chat_request cfg host profile dumps request rt lane lane_max model_id).reason
        ≡ queued
      → IsWellFormed cfg request
        × (cfg.enable_queue ≡ true)
        × (fits_context request_context ≡ true)
        × (((active_capacity_available cfg host profile rt lane lane_max ≡ false)
              × (queue_depth rt < cfg.max_queue_depth))
            ⊎ IsHeldBack cfg request_context limit_now)
  unfolding evaluate_chat_request
  evaluate_chat_request-queued h =
      let v = capacity_verdict cfg host profile dumps request rt lane lane_max model_id in
      let shape : IsWellFormed cfg request = (ground arith, ground arith, ground arith) in
      let (waits, enabled) = queued_translate cfg v.action v.reason (ground arith) in
      let (fit, why) = verdict-queue waits in (shape, enabled, fit, why)
