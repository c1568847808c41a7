-- ===== src/Threadwake/Policy/Verdicts.antt =====
-- whooshd/runtime/threadwake/policy.py: when a prompt may be reused and a candidate kept.
use whooshd.Base.{
  ℕ, ◌+◌, ◌≤◌, ◌≡◌, ◌↔◌, refl, sym, ◌∙◌, String, Bool, true, false, ◌&&◌, Option, none, some, List,
  [], ◌∷◌, ltb, not, arith, branches, true_ne_false, one_if, count, length,
}
use whooshd.Threadwake.Policy.{
  ThreadWakeMode, PromptGraph, ThreadWakeRequestConfig, ThreadWakeObservation, Reason, mode_of,
  scope_of, min_tokens_of, is_on, is_off, is_supported, is_given, has_multimodal_prefix,
  without_graph, ineligible, eligible_with, evaluate_graph, evaluate_threadwake_policy,
  CandidateReplayRecord, SnapshotPolicyConfig, SnapshotEligibility, PolicyStats, reject_candidate,
  is_foreign, is_expired, judge, evaluate_candidate, evaluate_replay_summary,
}

-- A prompt that can be reused: with model and backend, no image or sound in its stable prefix, and
-- a prefix that is long enough.
abbrev pub IsReusable : ℕ → Option PromptGraph → Type 0
IsReusable min_tokens none = ⊥
IsReusable min_tokens (some g) =
    (is_given g.model_id ≡ true)
    × (is_given g.backend ≡ true)
    × (has_multimodal_prefix g.segments ≡ false)
    × (min_tokens ≤ g.stable_prefix_tokens)

abbrev pub prefix_of : Option PromptGraph → ℕ
prefix_of none = 0
prefix_of (some g) = g.stable_prefix_tokens

-- A verdict for a condition: reuse of the whole prefix where it holds, and elsewhere none, with a
-- reason.
abbrev pub Decides : Type 0 → Option PromptGraph → ThreadWakeObservation → Type 0
Decides P g v =
    ((v.eligible ≡ true) ↔ P)
    × (v.eligible ≡ true → (v.reason ≡ none) × (v.estimated_prefill_reuse_tokens ≡ prefix_of g))
    × (v.eligible ≡ false
        → ((r : Reason) × (v.reason ≡ some r)) × (v.estimated_prefill_reuse_tokens ≡ 0))

module _ (mode : ThreadWakeMode) (scope : String) (min_tokens : ℕ) where
  abbrev Condition : Option PromptGraph → Type 0
  Condition g = (is_supported mode ≡ true) × IsReusable min_tokens g

  evaluate_graph-Decides :
      (g : Option PromptGraph) → Decides (Condition g) g (evaluate_graph mode scope min_tokens g)
  unfolding evaluate_graph without_graph ineligible eligible_with
  evaluate_graph-Decides none = (
    ((λ t. absurd (true_ne_false (sym t))), λ c. absurd c.1),
    (λ t. absurd (true_ne_false (sym t))),
    λ f. ((_, refl), refl),
  )
  evaluate_graph-Decides (some g) =
      branches P (not (is_given g.model_id)) _ _ (λ t. no_reuse _ (λ c. ground (arith, t, c.1.0)))
        (λ a.
          branches P (not (is_given g.backend)) _ _
            (λ t. no_reuse _ (λ c. ground (arith, t, c.1.1)))
            (λ b.
              branches P (not (is_supported mode)) _ _
                (λ t. no_reuse _ (λ c. ground (arith, t, c.0)))
                (λ s.
                  branches P (has_multimodal_prefix g.segments) _ _
                    (λ t. no_reuse _ (λ c. true_ne_false (sym t ∙ c.1.2)))
                    (λ m.
                      branches P (ltb g.stable_prefix_tokens min_tokens) _ _
                        (λ t. no_reuse _ (λ c. ground (arith, t, c.1.3)))
                        (λ n. reuse (
                          ground (arith, s),
                          (ground (arith, a), ground (arith, b), m, ground (arith, n)),
                        ))))))
    where
      P : ThreadWakeObservation → Type 0
      P = Decides (Condition (some g)) (some g)

      no_reuse : (r : Reason) → (Condition (some g) → ⊥) → P (ineligible g mode scope r)
      no_reuse r n = (
        ((λ t. absurd (true_ne_false (sym t))), λ c. absurd (n c)),
        (λ t. absurd (true_ne_false (sym t))),
        λ f. ((r, refl), refl),
      )

      reuse : Condition (some g) → P (eligible_with g mode scope)
      reuse c = ((λ t. c, λ d. refl), (λ t. (refl, refl)), λ f. absurd (true_ne_false f))

-- A prompt is found eligible exactly when ThreadWake is switched on, in a mode that observes or
-- reuses, and the prompt has a model, a backend, nothing multimodal in its stable prefix and a
-- prefix of at least the minimum length; then its whole prefix is expected to be reused and no
-- reason is given, and otherwise none of it, with a reason.
pub evaluate_threadwake_policy_iff :
    (g : Option PromptGraph) (cfg : ThreadWakeRequestConfig)
    → Decides
        ((is_on cfg.enabled ≡ true)
          × (is_supported (mode_of cfg.mode) ≡ true)
          × IsReusable (min_tokens_of cfg.min_stable_prefix_tokens) g)
        g
        (evaluate_threadwake_policy g cfg)
unfolding evaluate_threadwake_policy without_graph
evaluate_threadwake_policy_iff g cfg =
    branches P (not (is_on cfg.enabled && not (is_off (mode_of cfg.mode)))) _ _
      (λ t. (
        (λ e. absurd (true_ne_false (sym e)), λ c. absurd (is_disabled t c.0 c.1)),
        (λ e. absurd (true_ne_false (sym e))),
        λ f. ((_, refl), refl),
      ))
      (λ f.
        let on : is_on cfg.enabled ≡ true = ground (arith, f) in
        let (i, yes_case, no_case) =
          evaluate_graph-Decides (mode_of cfg.mode) (scope_of cfg.scope)
            (min_tokens_of cfg.min_stable_prefix_tokens) g in
        ((λ e. let q = i.0 e in (on, q.0, q.1), λ c. i.1 (c.1, c.2)), yes_case, no_case))
  where
    P : ThreadWakeObservation → Type 0
    P =
        Decides
          ((is_on cfg.enabled ≡ true)
            × (is_supported (mode_of cfg.mode) ≡ true)
            × IsReusable (min_tokens_of cfg.min_stable_prefix_tokens) g)
          g

    supported_on : (m : ThreadWakeMode) → is_supported m ≡ true → is_off m ≡ false
    supported_on ThreadWakeMode.off h = absurd (true_ne_false (sym h))
    supported_on ThreadWakeMode.observing h = refl
    supported_on ThreadWakeMode.ephemeral h = refl
    supported_on ThreadWakeMode.session h = refl
    supported_on ThreadWakeMode.advanced h = refl

    is_disabled :
        not (is_on cfg.enabled && not (is_off (mode_of cfg.mode))) ≡ true
        → is_on cfg.enabled ≡ true
        → is_supported (mode_of cfg.mode) ≡ true
        → ⊥
    is_disabled t on s = ground (arith, t, on, supported_on (mode_of cfg.mode) s)

-- The snapshot policy.
module _ (age_days : String → Option ℕ) (cfg : SnapshotPolicyConfig) where
  -- What a candidate must show.
  abbrev pub IsWorthy : CandidateReplayRecord → Type 0
  IsWorthy r =
      (cfg.enabled ≡ true)
      × (is_foreign r.backend cfg.supported_backends ≡ false)
      × (cfg.minimum_seen_count ≤ r.seen_count)
      × (cfg.minimum_candidate_score ≤ r.average_candidate_score)
      × (cfg.minimum_saved_ratio ≤ r.average_potential_saved_ratio)
      × (is_expired age_days cfg r.last_seen_at ≡ false)

  abbrev Judges : CandidateReplayRecord → PolicyStats → PolicyStats × SnapshotEligibility → Type 0
  Judges r st v =
      ((v.1.eligible ≡ true) ↔ IsWorthy r)
      × (v.0.evaluations_total ≡ st.evaluations_total)
      × (v.0.eligible_total ≡ st.eligible_total + one_if v.1.eligible)
      × (v.0.rejected_total ≡ st.rejected_total + one_if (not v.1.eligible))

  judge-Judges :
      (r : CandidateReplayRecord) (st : PolicyStats) → Judges r st (judge age_days cfg r st)
  unfolding judge reject_candidate
  judge-Judges r st =
      branches P (not cfg.enabled) _ _
        (λ t. refuses "policy_disabled" 0 (λ w. ground (arith, t, w.0)))
        (λ a.
          branches P (is_foreign r.backend cfg.supported_backends) _ _
            (λ t. refuses "unsupported_backend" 0 (λ w. true_ne_false (sym t ∙ w.1)))
            (λ b.
              branches P (ltb r.seen_count cfg.minimum_seen_count) _ _
                (λ t.
                  refuses "insufficient_observations" r.average_candidate_score
                    (λ w. ground (arith, t, w.2)))
                (λ c.
                  branches P (ltb r.average_candidate_score cfg.minimum_candidate_score) _ _
                    (λ t.
                      refuses "low_value" r.average_candidate_score (λ w. ground (arith, t, w.3)))
                    (λ d.
                      branches P (ltb r.average_potential_saved_ratio cfg.minimum_saved_ratio) _ _
                        (λ t.
                          refuses "low_value" r.average_candidate_score
                            (λ w. ground (arith, t, w.4)))
                        (λ e.
                          branches P (is_expired age_days cfg r.last_seen_at) _ _
                            (λ t.
                              refuses "expired" r.average_candidate_score
                                (λ w. true_ne_false (sym t ∙ w.5)))
                            (λ f. (
                              (
                                λ x. (
                                  ground (arith, a),
                                  b,
                                  ground (arith, c),
                                  ground (arith, d),
                                  ground (arith, e),
                                  f,
                                ),
                                λ w. refl,
                              ),
                              refl,
                              omega arith,
                              omega arith,
                            )))))))
    where
      P : PolicyStats × SnapshotEligibility → Type 0
      P = Judges r st

      refuses :
          (reason : String) (score : ℕ) → (IsWorthy r → ⊥) → P (reject_candidate reason score st)
      refuses reason score n =
          ((λ t. absurd (true_ne_false (sym t)), λ w. absurd (n w)), refl, omega arith, omega arith)

  abbrev pub is_eligible : SnapshotEligibility → Bool
  is_eligible v = v.eligible

  abbrev pub Summed :
      List CandidateReplayRecord → PolicyStats → PolicyStats × List SnapshotEligibility → Type 0
  Summed rs st v =
      (length v.1 ≡ length rs)
      × (v.0.evaluations_total ≡ st.evaluations_total + length rs)
      × (v.0.eligible_total ≡ st.eligible_total + count is_eligible v.1)
      × (v.0.eligible_total + v.0.rejected_total
          ≡ (st.eligible_total + st.rejected_total) + length rs)

  -- A candidate is found eligible exactly when the policy is on, its backend is supported or not
  -- given, it has been seen often enough, its score and its ratio reach their minima and it is not
  -- too old. Over a summary every candidate gets one verdict and is counted once, as eligible or
  -- as rejected.
  pub evaluate_replay_summary_lem :
      ((r : CandidateReplayRecord) (st : PolicyStats)
        → ((evaluate_candidate age_days cfg r st).1.eligible ≡ true) ↔ IsWorthy r)
      × ((rs : List CandidateReplayRecord) (st : PolicyStats)
          → Summed rs st (evaluate_replay_summary age_days cfg rs st))
  unfolding evaluate_candidate evaluate_replay_summary count
  evaluate_replay_summary_lem = (λ r st. (judge-Judges r _).0, sums)
    where
      sums :
          (rs : List CandidateReplayRecord) (st : PolicyStats)
          → Summed rs st (evaluate_replay_summary age_days cfg rs st)
      sums [] st = (refl, omega arith, omega arith, omega arith)
      sums (r ∷ rs) st =
          let st1 : PolicyStats = record st { evaluations_total = st.evaluations_total + 1 } in
          let (_, e1, e2, e3) = judge-Judges r st1 in
          let (h1, h2, h3, h4) = sums rs (judge age_days cfg r st1).0 in
          (
            omega (arith, h1),
            omega (arith, h2, e1),
            ground (arith, h3, e2),
            ground (arith, h4, e2, e3),
          )
