-- ===== src/Continuous/Traces.antt =====
-- whooshd/continuous_streaming.py: one request's stream over any sequence of calls.
use whooshd.Base.{
  append_nil, ◌≡◌, refl, sym, ◌∙◌, inl, inr, String, some, List, [], ◌∷◌, ◌++◌, if◌then◌else◌,
  lookup, insert, same, same_cases, Option-cases, branches, subst, eq→same, lookup-insert_self,
  true_ne_false,
}
use whooshd.Continuous.Streaming.{
  FakeStreamEvent, FakeRequestStream, Streams, complete, cancel, timeout, fail, drain_events,
}
use whooshd.Continuous.Channels.{
  Call, opens, routes, completes, cancels, times_out, fails, drains, subject, call, run_calls,
  IsWhole, IsChannel,
}
use whooshd.Continuous.Events.{
  IsChannel-insert, open_stream-IsChannel, stored_here, route_chunk-IsChannel,
  emit_terminal-IsChannel,
}

module _ (rid k : String) (seen : List FakeStreamEvent) (d : Streams)
    (h : IsChannel rid (lookup rid d) seen) where
  abbrev Drained : Streams × List FakeStreamEvent → Type 0
  Drained r = IsChannel rid (lookup rid r.0) (if same k rid then seen ++ r.1 else seen)

  Drained-known :
      (s : FakeRequestStream)
      → lookup k d ≡ some s
      → Drained (insert k (record s { events = [] }) d, s.events)
  Drained-known s known = elim (same_cases k rid) [
    | inl e ↦
        let s0 : FakeRequestStream = record s { events = [] } in
        let v : lookup rid (insert k s0 d) ≡ some s0 =
          subst (λ j. lookup j (insert k s0 d) ≡ some s0) e (lookup-insert_self k s0 d) in
        let w : IsWhole rid s0 ((seen ++ s.events) ++ []) =
          subst (IsWhole rid s0) (sym (append_nil (seen ++ s.events)))
            (stored_here rid seen k d s known e h) in
        subst
          (λ b. IsChannel rid (lookup rid (insert k s0 d)) (if b then seen ++ s.events else seen))
          (sym (eq→same k rid e)) (subst (λ o. IsChannel rid o (seen ++ s.events)) (sym v) w)
    | inr n ↦
        subst
          (λ b.
            IsChannel rid (lookup rid (insert k (record s { events = [] }) d))
              (if b then seen ++ s.events else seen))
          (sym n)
          (IsChannel-insert rid seen k (record s { events = [] }) d h
            (λ e. absurd (true_ne_false (sym (eq→same k rid e) ∙ n))))
  ]

  Drained-absent : Drained (d, [])
  Drained-absent =
      branches (IsChannel rid (lookup rid d)) (same k rid) _ _
        (λ t. subst (IsChannel rid (lookup rid d)) (sym (append_nil seen)) h) (λ f. h)

  drain_events-IsChannel : Drained (drain_events k d)
  unfolding drain_events
  drain_events-IsChannel = elim (Option-cases (lookup k d)) [
    | inl absent ↦
        let e : drain_events k d ≡ (d, []) = rw (absent, drain_events) refl in
        subst Drained (sym e) Drained-absent
    | inr (s, known) ↦
        let e : drain_events k d ≡ (insert k (record s { events = [] }) d, s.events) =
          rw (known, drain_events) refl in
        subst Drained (sym e) (Drained-known s known)
  ]

-- A call that hands out nothing.
unchanged :
    (rid k : String) (seen : List FakeStreamEvent) (d : Streams)
    → IsChannel rid (lookup rid d) seen
    → IsChannel rid (lookup rid d) (if same k rid then seen ++ [] else seen)
unchanged rid k seen d h =
    branches (IsChannel rid (lookup rid d)) (same k rid) _ _
      (λ t. subst (IsChannel rid (lookup rid d)) (sym (append_nil seen)) h) (λ f. h)

call-IsChannel :
    (rid : String) (c : Call) (d : Streams) (seen : List FakeStreamEvent)
    → IsChannel rid (lookup rid d) seen
    → IsChannel rid
        (lookup rid (call c d).0)
        (if same (subject c) rid then seen ++ (call c d).1 else seen)
unfolding call subject complete cancel timeout fail
call-IsChannel rid (opens k) d seen h =
    unchanged rid k seen _ (open_stream-IsChannel rid seen k d h)
call-IsChannel rid (routes c ids slots) d seen h =
    unchanged rid c.request_id seen _ (route_chunk-IsChannel rid seen c ids slots d h)
call-IsChannel rid (completes k) d seen h =
    unchanged rid k seen _ (emit_terminal-IsChannel rid seen k _ _ d refl h)
call-IsChannel rid (cancels k) d seen h =
    unchanged rid k seen _ (emit_terminal-IsChannel rid seen k _ _ d refl h)
call-IsChannel rid (times_out k) d seen h =
    unchanged rid k seen _ (emit_terminal-IsChannel rid seen k _ _ d refl h)
call-IsChannel rid (fails k) d seen h =
    unchanged rid k seen _ (emit_terminal-IsChannel rid seen k _ _ d refl h)
call-IsChannel rid (drains k) d seen h = drain_events-IsChannel rid k seen d h

run_calls-from :
    (rid : String) (cs : List Call) (d : Streams) (seen : List FakeStreamEvent)
    → IsChannel rid (lookup rid d) seen
    → IsChannel rid (lookup rid (run_calls rid cs d seen).0) (run_calls rid cs d seen).1
unfolding run_calls
run_calls-from rid [] d seen h = h
run_calls-from rid (c ∷ cs) d seen h = run_calls-from rid cs _ _ (call-IsChannel rid c d seen h)

-- After any sequence of calls on new streams, for this request or others, the events that a
-- request's stream has handed out, with those that it still holds, are numbered from zero without a
-- gap, are all the request's own, and their number is the stream's next index; while the stream is
-- open they are chunks only, and once it is closed they are chunks and then exactly one terminal
-- event, of the kind that closed it. A request without a stream has been handed nothing.
pub run_calls-IsChannel :
    (rid : String) (cs : List Call)
    → IsChannel rid (lookup rid (run_calls rid cs [] []).0) (run_calls rid cs [] []).1
unfolding lookup
run_calls-IsChannel rid cs = run_calls-from rid cs [] [] refl
