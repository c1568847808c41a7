-- ===== src/Guarded/Groups.antt =====
-- whooshd/guarded_adapter_batching.py: the groups that pass the guard, and what a group is answered.
use whooshd.Base.{
  ℕ, ◌+◌, ◌≤◌, ◌≡◌, ◌↔◌, ◌⊎◌, inl, inr, refl, sym, ◌∙◌, String, true, false, ◌||◌, Option, none,
  some, List, [], ◌∷◌, ltb, ◌==◌, not, length, All, same, arith, branches, none_ne_some,
  true_ne_false, map, ap,
}
use whooshd.Guarded.{
  GuardedAdapterBatchIneligibilityReason, GroupRequest, Guard, asks_too_much, refused_request,
  classify_size, or_else_size, classify_guard_eligibility, completed, failed, completed_report,
  failed_report, error_responses, answers, GroupOutcome, batch_failed, settle_batch,
  run_guarded_adapter_batch, GuardedResponse, answered, guard_error, model_name,
}

-- A request that may be batched: not streamed, without tools, and within the token limit.
abbrev pub IsPlain : ℕ → GroupRequest → Type 0
IsPlain most r =
    (r.stream ≡ false)
    × ((r.tools || r.tool_choice) ≡ false)
    × (asks_too_much most r.max_tokens ≡ false)

abbrev pub Passes : Type 0 → Option GuardedAdapterBatchIneligibilityReason → Type 0
Passes P o = (o ≡ none) ↔ P

refused_request-Passes :
    (most : ℕ) (rs : List GroupRequest) → Passes (All (IsPlain most) rs) (refused_request most rs)
unfolding refused_request
refused_request-Passes most [] = ((λ e. tt), (λ e. refl))
refused_request-Passes most (r ∷ rs) =
    branches P r.stream _ _ (λ t. stops _ (λ p. true_ne_false (sym t ∙ p.0)))
      (λ a.
        branches P (r.tools || r.tool_choice) _ _ (λ t. stops _ (λ p. true_ne_false (sym t ∙ p.1)))
          (λ b.
            branches P (asks_too_much most r.max_tokens) _ _
              (λ t. stops _ (λ p. true_ne_false (sym t ∙ p.2)))
              (λ c.
                let i = refused_request-Passes most rs in
                ((λ e. ((a, b, c), i.0 e)), (λ p. i.1 p.1)))))
  where
    P : Option GuardedAdapterBatchIneligibilityReason → Type 0
    P = Passes (IsPlain most r × All (IsPlain most) rs)

    stops :
        (reason : GuardedAdapterBatchIneligibilityReason) → (IsPlain most r → ⊥) → P (some reason)
    stops reason n = ((λ e. absurd (none_ne_some (sym e))), (λ p. absurd (n p.0)))

-- A group passes the guard exactly when both flags are on, the backend is mlx, every request of it is
-- neither streamed nor with tools and asks for no more than the most tokens allowed, and its size is
-- within the two limits.
pub classify_guard_eligibility_iff :
    (backend : String) (rs : List GroupRequest) (g : Guard)
    → (classify_guard_eligibility backend rs g ≡ none) ↔ (
        (g.global_enabled ≡ true)
        × (g.mlx_enabled ≡ true)
        × (same backend "mlx" ≡ true)
        × All (IsPlain g.max_tokens) rs
        × (g.min_group ≤ length rs)
        × (length rs ≤ g.max_group))
unfolding classify_guard_eligibility classify_size
classify_guard_eligibility_iff backend rs g =
    branches P (not g.global_enabled) _ _ (λ t. stops _ (λ p. ground (arith, t, p.0)))
      (λ a.
        branches P (not g.mlx_enabled) _ _ (λ t. stops _ (λ p. ground (arith, t, p.1)))
          (λ b.
            branches P (not (same backend "mlx")) _ _ (λ t. stops _ (λ p. ground (arith, t, p.2)))
              (λ c.
                sized (refused_request g.max_tokens rs) (refused_request-Passes g.max_tokens rs)
                  (ground (arith, a)) (ground (arith, b)) (ground (arith, c)))))
  where
    Q : Type 0
    Q =
        (g.global_enabled ≡ true)
        × (g.mlx_enabled ≡ true)
        × (same backend "mlx" ≡ true)
        × All (IsPlain g.max_tokens) rs
        × (g.min_group ≤ length rs)
        × (length rs ≤ g.max_group)

    P : Option GuardedAdapterBatchIneligibilityReason → Type 0
    P = Passes Q

    stops : (reason : GuardedAdapterBatchIneligibilityReason) → (Q → ⊥) → P (some reason)
    stops reason n = ((λ e. absurd (none_ne_some (sym e))), (λ p. absurd (n p)))

    sized :
        (o : Option GuardedAdapterBatchIneligibilityReason)
        → Passes (All (IsPlain g.max_tokens) rs) o
        → g.global_enabled ≡ true
        → g.mlx_enabled ≡ true
        → same backend "mlx" ≡ true
        → P (or_else_size g (length rs) o)
    sized (some reason) i a b c = stops reason (λ p. none_ne_some (sym (i.1 p.3)))
    sized none i a b c =
        branches P (ltb (length rs) g.min_group) _ _ (λ t. stops _ (λ p. ground (arith, t, p.4)))
          (λ d.
            branches P (ltb g.max_group (length rs)) _ _
              (λ t. stops _ (λ p. ground (arith, t, p.5)))
              (λ e.
                ((λ r. (a, b, c, i.0 refl, ground (arith, d), ground (arith, e))), (λ p. refl))))

length-error_responses :
    (R : Type 0) (rs : List GroupRequest) → length (error_responses {R = R} rs) ≡ length rs
unfolding error_responses
length-error_responses R [] = refl
length-error_responses R (r ∷ rs) = omega (arith, length-error_responses R rs)

length-answers : {R : Type 0} (xs : List R) → length (answers xs) ≡ length xs
unfolding answers
length-answers [] = refl
length-answers (x ∷ xs) = omega (arith, length-answers xs)

map-answers : {R : Type 0} (xs : List R) → answers xs ≡ map answered xs
unfolding answers
map-answers [] = refl
map-answers (x ∷ xs) = ap (λ ys. answered x ∷ ys) (map-answers xs)

abbrev error_for : {R : Type 0} → GroupRequest → GuardedResponse R
error_for r = guard_error (model_name r.model)

map-error_responses :
    (R : Type 0) (rs : List GroupRequest) → error_responses {R = R} rs ≡ map error_for rs
unfolding error_responses
map-error_responses R [] = refl
map-error_responses R (r ∷ rs) = ap (λ ys. error_for r ∷ ys) (map-error_responses R rs)

-- The batch call came to one response per request.
abbrev pub IsFull : {R : Type 0} → List GroupRequest → Option (List R) → Type 0
IsFull rs none = ⊥
IsFull rs (some xs) = length xs ≡ length rs

-- Every request is answered once, and the report agrees. If the outcome of the batch call is one
-- response per request, the answers are these responses in their order, under `completed`;
-- otherwise they are error responses, each for its request's model, under `failed`.
abbrev pub IsSettled : {R : Type 0} → List GroupRequest → Option (List R) → GroupOutcome R → Type 0
IsSettled {R} rs outcome v =
    (length v.0 ≡ length rs)
    × (v.1.request_count ≡ length rs)
    × (v.1.virtual_slots_tombstoned ≡ v.1.virtual_slots_claimed)
    × (v.1.terminal_events_observed + v.1.controlled_errors_emitted ≡ length rs)
    × ((IsFull rs outcome
          × (v.1.status ≡ completed)
          × (v.1.has_failure ≡ false)
          × (v.1.controlled_errors_emitted ≡ 0)
          × ((xs : List R) × (outcome ≡ some xs) × (v.0 ≡ map answered xs)))
        ⊎ ((¬ IsFull rs outcome)
            × (v.1.status ≡ failed)
            × (v.1.has_failure ≡ true)
            × (v.1.controlled_errors_emitted ≡ length rs)
            × (v.0 ≡ map error_for rs)))

batch_failed-IsSettled :
    (R : Type 0) (rs : List GroupRequest) (o : Option (List R))
    → ¬ IsFull rs o
    → IsSettled rs o (batch_failed rs)
unfolding batch_failed failed_report
batch_failed-IsSettled R rs o short = (
  length-error_responses R rs,
  refl,
  refl,
  omega arith,
  inr (short, refl, refl, refl, map-error_responses R rs),
)

settle_batch-IsSettled :
    {R : Type 0} (rs : List GroupRequest) (o : Option (List R)) → IsSettled rs o (settle_batch rs o)
unfolding settle_batch completed_report
settle_batch-IsSettled {R} rs none = batch_failed-IsSettled R rs none (λ b. b)
settle_batch-IsSettled {R} rs (some xs) =
    branches (IsSettled rs (some xs)) (not (length xs == length rs)) _ _
      (λ t. batch_failed-IsSettled R rs (some xs) (λ e. ground arith))
      (λ t.
        let e : length xs ≡ length rs = ground (arith, t) in
        (
          length-answers xs ∙ e,
          refl,
          refl,
          omega arith,
          inl (e, refl, refl, refl, (xs, refl, map-answers xs)),
        ))

-- The outcome of the batch call, and the adapter's state after it; no call is made without the method.
abbrev pub outcome_of :
    {W R : Type 0}
    → Option (List GroupRequest → W → W × Option (List R))
    → List GroupRequest
    → W
    → W × Option (List R)
outcome_of none rs w = (w, none)
outcome_of (some batch_fn) rs w = batch_fn rs w

-- Whatever the adapter does, the group is answered with one response per request. If the adapter has
-- a batch method and the call answers with one response per request, these are the group's answers, in
-- their order, and the report is `completed` without an error. With no batch method, an exception or
-- another number of responses, every request gets an error response for its own model, and the report
-- is `failed` with a reason. The report counts the requests, gives every claimed slot as tombstoned,
-- and every request as ended once. The batch method is called once, or not at all if there is none.
pub run_guarded_adapter_batch-IsSettled :
    {W R : Type 0} (batch_fn : Option (List GroupRequest → W → W × Option (List R)))
    (rs : List GroupRequest) (w : W)
    → ((run_guarded_adapter_batch batch_fn rs w).0 ≡ (outcome_of batch_fn rs w).0)
      × IsSettled rs (outcome_of batch_fn rs w).1 (run_guarded_adapter_batch batch_fn rs w).1
unfolding run_guarded_adapter_batch
run_guarded_adapter_batch-IsSettled {R = R} none rs w =
    (refl, batch_failed-IsSettled R rs none (λ b. b))
run_guarded_adapter_batch-IsSettled (some batch_fn) rs w =
    (refl, settle_batch-IsSettled rs (batch_fn rs w).1)
