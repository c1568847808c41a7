-- ===== src/Continuous/Events.antt =====
-- whooshd/continuous_streaming.py: each operation keeps the stream of every request whole.
use whooshd.Base.{
  All-snoc, append_assoc, ℕ, suc, ◌+◌, ◌≡◌, refl, sym, ap, ◌∙◌, inl, inr, String, true, false, some,
  List, [], ◌∷◌, ◌++◌, ◌==◌, not, if◌then◌else◌, length, lookup, insert, lookup-insert, same,
  same_cases, same_refl, Option-cases, branches, subst, arith, length-append, true_ne_false,
}
use whooshd.Continuous.{
  ContinuousBatchInvariantViolation, ContinuousOutputChunk, ContinuousFinishReason,
}
use whooshd.Continuous.Streaming.{
  FakeStreamEvent, FakeStreamEventKind, FakeStreamState, FakeRequestStream, Streams, open_stream,
  route_chunk, emit_terminal, push, chunk_event, terminal_event, state_of, is_open,
}
use whooshd.Continuous.Channels.{is_chunk, Chunks, IsNumbered, Carries, IsWhole, IsChannel}

IsNumbered-snoc :
    (n : ℕ) (es : List FakeStreamEvent) (e : FakeStreamEvent)
    → IsNumbered n es
    → e.sequence_index ≡ n + length es
    → IsNumbered n (es ++ (e ∷ []))
IsNumbered-snoc n [] e h i = (omega arith, tt)
IsNumbered-snoc n (x ∷ es) e h i = (h.0, IsNumbered-snoc (suc n) es e h.1 (omega arith))

Carries-chunk :
    (st : FakeStreamState) (es : List FakeStreamEvent) (e : FakeStreamEvent)
    → is_open st ≡ true
    → Carries st es
    → is_chunk e.kind ≡ true
    → Carries st (es ++ (e ∷ []))
Carries-chunk FakeStreamState.open_now es e o c k = All-snoc (λ x. is_chunk x.kind ≡ true) es e c k
Carries-chunk FakeStreamState.completed es e o c k = absurd (true_ne_false (sym o))
Carries-chunk FakeStreamState.cancelled es e o c k = absurd (true_ne_false (sym o))
Carries-chunk FakeStreamState.timed_out es e o c k = absurd (true_ne_false (sym o))
Carries-chunk FakeStreamState.failed es e o c k = absurd (true_ne_false (sym o))

Carries→Chunks :
    (st : FakeStreamState) (es : List FakeStreamEvent)
    → is_open st ≡ true
    → Carries st es
    → Chunks es
Carries→Chunks FakeStreamState.open_now es o c = c
Carries→Chunks FakeStreamState.completed es o c = absurd (true_ne_false (sym o))
Carries→Chunks FakeStreamState.cancelled es o c = absurd (true_ne_false (sym o))
Carries→Chunks FakeStreamState.timed_out es o c = absurd (true_ne_false (sym o))
Carries→Chunks FakeStreamState.failed es o c = absurd (true_ne_false (sym o))

Carries-terminal :
    (kind : FakeStreamEventKind) (es : List FakeStreamEvent) (e : FakeStreamEvent)
    → is_chunk kind ≡ false
    → e.kind ≡ kind
    → Chunks es
    → Carries (state_of kind) (es ++ (e ∷ []))
Carries-terminal FakeStreamEventKind.chunk es e n k c = absurd (true_ne_false n)
Carries-terminal FakeStreamEventKind.completed es e n k c =
    (es, e, refl, c, ap is_chunk k, ap state_of k)
Carries-terminal FakeStreamEventKind.cancelled es e n k c =
    (es, e, refl, c, ap is_chunk k, ap state_of k)
Carries-terminal FakeStreamEventKind.timed_out es e n k c =
    (es, e, refl, c, ap is_chunk k, ap state_of k)
Carries-terminal FakeStreamEventKind.failed es e n k c =
    (es, e, refl, c, ap is_chunk k, ap state_of k)

module _ (rid : String) (seen : List FakeStreamEvent) where
  -- One more event on an open stream, with the next index.
  IsWhole-push :
      (s t : FakeRequestStream) (e : FakeStreamEvent)
      → IsWhole rid s (seen ++ s.events)
      → t.events ≡ s.events
      → t.next_sequence_index ≡ s.next_sequence_index
      → e.sequence_index ≡ s.next_sequence_index
      → e.request_id ≡ rid
      → Carries t.state ((seen ++ s.events) ++ (e ∷ []))
      → IsWhole rid (push e t) (seen ++ (push e t).events)
  unfolding push
  IsWhole-push s t e (num, len, car, own) same_events same_next index mine carries =
      let es = seen ++ s.events in
      let split : es ++ (e ∷ []) ≡ seen ++ (t.events ++ (e ∷ [])) =
        append_assoc seen s.events (e ∷ []) ∙ ap (λ r. seen ++ (r ++ (e ∷ []))) (sym same_events) in
      subst (λ r. IsWhole rid (push e t) r) split
        (
          IsNumbered-snoc 0 es e num (omega (arith, len)),
          omega (arith, length-append es (e ∷ []), len),
          carries,
          All-snoc (λ x. x.request_id ≡ rid) es e own mine,
        )

  pub IsChannel-insert :
      (k : String) (s : FakeRequestStream) (d : Streams)
      → IsChannel rid (lookup rid d) seen
      → (k ≡ rid → IsChannel rid (some s) seen)
      → IsChannel rid (lookup rid (insert k s d)) seen
  IsChannel-insert k s d old new_one = elim (same_cases k rid) [
    | inl e ↦
        let v : lookup rid (insert k s d) ≡ some s =
          lookup-insert k rid s d
          ∙ ap (λ b. if b then some s else lookup rid d) (ap (λ j. same j rid) e ∙ same_refl rid) in
        subst (λ o. IsChannel rid o seen) (sym v) (new_one e)
    | inr n ↦
        let v : lookup rid (insert k s d) ≡ lookup rid d =
          lookup-insert k rid s d ∙ ap (λ b. if b then some s else lookup rid d) n in
        subst (λ o. IsChannel rid o seen) (sym v) old
  ]

  pub open_stream-IsChannel :
      (k : String) (d : Streams)
      → IsChannel rid (lookup rid d) seen
      → IsChannel rid (lookup rid (open_stream k d)) seen
  unfolding open_stream
  open_stream-IsChannel k d h = elim (Option-cases (lookup k d)) [
    | inl absent ↦
        rw (absent, open_stream)
          (IsChannel-insert k _ d h (λ e.
            let z : seen ≡ [] =
              subst (λ o. IsChannel rid o seen) (ap (λ j. lookup j d) (sym e) ∙ absent) h in
            rw z (tt, refl, tt, tt)))
    | inr (s, known) ↦ rw (known, open_stream) h
  ]

  -- The request's own stream, from the channel of what is stored.
  pub stored_here :
      (k : String) (d : Streams) (s : FakeRequestStream)
      → lookup k d ≡ some s
      → k ≡ rid
      → IsChannel rid (lookup rid d) seen
      → IsWhole rid s (seen ++ s.events)
  stored_here k d s known e h =
      subst (λ o. IsChannel rid o seen) (ap (λ j. lookup j d) (sym e) ∙ known) h

  abbrev pub Result : Streams × List ContinuousBatchInvariantViolation → Type 0
  Result r = IsChannel rid (lookup rid r.0) seen

  pub route_chunk-IsChannel :
      (c : ContinuousOutputChunk) (ids slots : List String) (d : Streams)
      → IsChannel rid (lookup rid d) seen
      → Result (route_chunk c ids slots d)
  unfolding route_chunk
  route_chunk-IsChannel c ids slots d h = elim (Option-cases (lookup c.request_id d)) [
    | inl absent ↦ rw (absent, route_chunk) h
    | inr (s, known) ↦
        rw (known, route_chunk)
          (branches Result (not (is_open s.state)) _ _ (λ t. h)
            (λ o.
              branches Result (not (c.sequence_index == s.next_sequence_index)) _ _ (λ t. h)
                (λ i. IsChannel-insert c.request_id (push (chunk_event c) s) d h (λ e.
                  let w = stored_here c.request_id d s known e h in
                  IsWhole-push s s (chunk_event c) w refl refl (ground arith) e
                    (Carries-chunk s.state _ _ (ground (arith, o)) w.2 refl)))))
  ]

  pub emit_terminal-IsChannel :
      (k : String) (kind : FakeStreamEventKind) (reason : ContinuousFinishReason) (d : Streams)
      → is_chunk kind ≡ false
      → IsChannel rid (lookup rid d) seen
      → Result (emit_terminal k kind reason d)
  unfolding emit_terminal
  emit_terminal-IsChannel k kind reason d n h = elim (Option-cases (lookup k d)) [
    | inl absent ↦ rw (absent, emit_terminal) h
    | inr (s, known) ↦
        rw (known, emit_terminal)
          (branches Result (not (is_open s.state)) _ _ (λ t. h)
            (λ o. IsChannel-insert k _ d h (λ e.
              let w = stored_here k d s known e h in
              let chunks = Carries→Chunks s.state _ (ground (arith, o)) w.2 in
              IsWhole-push s _ (terminal_event k kind reason s.next_sequence_index) w refl refl refl
                e (Carries-terminal kind _ _ n refl chunks))))
  ]
