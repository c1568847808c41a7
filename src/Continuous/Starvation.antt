-- ===== src/Continuous/Starvation.antt =====
-- whooshd/continuous_scheduler.py: a slot that has been reserved once is never empty again.
use whooshd.Base.{
  ℕ, ◌≤◌, ◌≡◌, ◌∙◌, inl, inr, String, true, false, some, List, [], ◌∷◌, All, lookup, same, branches,
  arith, Option-cases,
}
use whooshd.Continuous.{ContinuousRequestState, ContinuousFinishReason, is_terminal}
use whooshd.Continuous.Scheduler.{
  FakeContinuousRequest, FakeContinuousSchedulerConfig, FakeTokenLevelScheduler, admit, cancel,
  timeout, fail_request, end_request, drain_outputs, new_request, is_admitted,
}
use whooshd.Continuous.Ticks.{empties, tick-empties, tick-waits, release_slot_for-empties}
use whooshd.Continuous.Lives.{
  Call, admits, cancels, times_out, fails, drains, ticks, is_about, call, run_calls, lookup-other,
}

end_request-empties :
    (st : ContinuousRequestState) (reason : ContinuousFinishReason) (k : String)
    (s : FakeTokenLevelScheduler)
    → empties (end_request st reason k s) ≤ empties s
unfolding end_request
end_request-empties st reason k s = elim (Option-cases (lookup k s.requests)) [
  | inl absent ↦ rw (absent, end_request) (omega arith)
  | inr (r, known) ↦
      rw (known, end_request)
        (branches (λ z. empties z ≤ empties s) (is_terminal r.state) _ _ (λ t. omega arith)
          (λ f. release_slot_for-empties k s.slots))
]

drain_outputs-empties :
    (k : String) (s : FakeTokenLevelScheduler) → empties (drain_outputs k s).0 ≤ empties s
unfolding drain_outputs
drain_outputs-empties k s = elim (Option-cases (lookup k s.requests)) [
  | inl absent ↦ rw (absent, drain_outputs) (omega arith)
  | inr (r, known) ↦ rw (known, drain_outputs) (omega arith)
]

-- A call that names another request.
module _ (rid k : String) (s : FakeTokenLevelScheduler) (r : FakeContinuousRequest)
    (at : lookup rid s.requests ≡ some r) (other : same k rid ≡ false) where
  end_request-other :
      (st : ContinuousRequestState) (reason : ContinuousFinishReason)
      → lookup rid (end_request st reason k s).requests ≡ some r
  unfolding end_request
  end_request-other st reason = elim (Option-cases (lookup k s.requests)) [
    | inl absent ↦ rw (absent, end_request) at
    | inr (u, known) ↦
        rw (known, end_request)
          (branches (λ (z : FakeTokenLevelScheduler). lookup rid z.requests ≡ some r)
            (is_terminal u.state) _ _ (λ t. at) (λ f. lookup-other k rid _ s.requests other ∙ at))
  ]

  drain_outputs-other : lookup rid (drain_outputs k s).0.requests ≡ some r
  unfolding drain_outputs
  drain_outputs-other = elim (Option-cases (lookup k s.requests)) [
    | inl absent ↦ rw (absent, drain_outputs) at
    | inr (u, known) ↦ rw (known, drain_outputs) (lookup-other k rid _ s.requests other ∙ at)
  ]

module _ (chunk_text : String → ℕ → String) (cfg : FakeContinuousSchedulerConfig) where
  call-empties :
      (c : Call) (s : FakeTokenLevelScheduler) → empties (call chunk_text cfg c s) ≤ empties s
  unfolding call admit cancel timeout fail_request
  call-empties (admits h) s = omega arith
  call-empties (cancels k) s = end_request-empties _ _ k s
  call-empties (times_out k) s = end_request-empties _ _ k s
  call-empties (fails k) s = end_request-empties _ _ k s
  call-empties (drains k) s = drain_outputs-empties k s
  call-empties ticks s = tick-empties chunk_text cfg s

  call-waits :
      (rid : String) (c : Call) (s : FakeTokenLevelScheduler) (r : FakeContinuousRequest)
      → empties s ≡ 0
      → lookup rid s.requests ≡ some r
      → is_admitted r.state ≡ true
      → is_about rid c ≡ false
      → lookup rid (call chunk_text cfg c s).requests ≡ some r
  unfolding call is_about admit cancel timeout fail_request
  call-waits rid (admits h) s r z at w n =
      lookup-other h.request_id rid (new_request h) s.requests n ∙ at
  call-waits rid (cancels k) s r z at w n = end_request-other rid k s r at n _ _
  call-waits rid (times_out k) s r z at w n = end_request-other rid k s r at n _ _
  call-waits rid (fails k) s r z at w n = end_request-other rid k s r at n _ _
  call-waits rid (drains k) s r z at w n = drain_outputs-other rid k s r at n
  call-waits rid ticks s r z at w n = tick-waits chunk_text cfg rid s {r = r} z at w

  -- No slot is empty, and a stored request is still in the state ADMITTED, where it waits for a slot.
  -- Then over any sequence of calls of which none names that request, whatever they do to others and
  -- however many ticks are among them, no slot is ever empty at the end, and the request is stored as
  -- it was: it has not been given one.
  pub run_calls-starved :
      (rid : String) (cs : List Call) (s : FakeTokenLevelScheduler) (r : FakeContinuousRequest)
      → empties s ≡ 0
      → lookup rid s.requests ≡ some r
      → is_admitted r.state ≡ true
      → All (λ c. is_about rid c ≡ false) cs
      → (empties (run_calls chunk_text cfg cs s) ≡ 0)
        × (lookup rid (run_calls chunk_text cfg cs s).requests ≡ some r)
  unfolding run_calls
  run_calls-starved rid [] s r z at w n = (z, at)
  run_calls-starved rid (c ∷ cs) s r z at w n =
      run_calls-starved rid cs (call chunk_text cfg c s) r (omega (arith, call-empties c s))
        (call-waits rid c s r z at w n.0) w n.1
