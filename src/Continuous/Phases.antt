-- ===== src/Continuous/Phases.antt =====
-- whooshd/continuous_scheduler.py: the phases of a tick move requests along the state machine, and
-- leave those alone that wait for admission.
use whooshd.Base.{
  All-snoc, ℕ, ◌+◌, ◌-◌, ◌≡◌, refl, sym, ap, ◌∙◌, String, true, false, List, [], ◌∷◌, not, leb,
  length-append, Dict, branches, subst, arith, true_ne_false,
}
use whooshd.Continuous.{
  ContinuousRequestState, ContinuousSlot, ContinuousOutputChunk, is_terminal, admitted,
  prefill_pending, prefill_running, decode_active, stream_draining, completed,
}
use whooshd.Continuous.Scheduler.{
  FakeContinuousRequest, FakeContinuousSchedulerConfig, is_admitted, is_pending, is_running,
  is_decoding, is_draining, prefill_requests, prefill_tick, decode_requests, emit_chunk,
  drain_requests, vacate,
}
use whooshd.Continuous.Moves.{
  Next, Reaches, here, there, started, prefilled, exhausted, drained, IsOrderly, IsNumbered-snoc,
  Goes, Goes-refl, Alike, Alike-refl,
}

-- What each test says of a state.
pub is_admitted→state : (s : ContinuousRequestState) → is_admitted s ≡ true → s ≡ admitted
is_admitted→state ContinuousRequestState.admitted h = refl
is_admitted→state ContinuousRequestState.prefill_pending h = absurd (true_ne_false (sym h))
is_admitted→state ContinuousRequestState.prefill_running h = absurd (true_ne_false (sym h))
is_admitted→state ContinuousRequestState.decode_active h = absurd (true_ne_false (sym h))
is_admitted→state ContinuousRequestState.stream_draining h = absurd (true_ne_false (sym h))
is_admitted→state ContinuousRequestState.completed h = absurd (true_ne_false (sym h))
is_admitted→state ContinuousRequestState.failed h = absurd (true_ne_false (sym h))
is_admitted→state ContinuousRequestState.cancelled h = absurd (true_ne_false (sym h))
is_admitted→state ContinuousRequestState.timed_out h = absurd (true_ne_false (sym h))

is_pending→state : (s : ContinuousRequestState) → is_pending s ≡ true → s ≡ prefill_pending
is_pending→state ContinuousRequestState.admitted h = absurd (true_ne_false (sym h))
is_pending→state ContinuousRequestState.prefill_pending h = refl
is_pending→state ContinuousRequestState.prefill_running h = absurd (true_ne_false (sym h))
is_pending→state ContinuousRequestState.decode_active h = absurd (true_ne_false (sym h))
is_pending→state ContinuousRequestState.stream_draining h = absurd (true_ne_false (sym h))
is_pending→state ContinuousRequestState.completed h = absurd (true_ne_false (sym h))
is_pending→state ContinuousRequestState.failed h = absurd (true_ne_false (sym h))
is_pending→state ContinuousRequestState.cancelled h = absurd (true_ne_false (sym h))
is_pending→state ContinuousRequestState.timed_out h = absurd (true_ne_false (sym h))

is_running→state : (s : ContinuousRequestState) → is_running s ≡ true → s ≡ prefill_running
is_running→state ContinuousRequestState.admitted h = absurd (true_ne_false (sym h))
is_running→state ContinuousRequestState.prefill_pending h = absurd (true_ne_false (sym h))
is_running→state ContinuousRequestState.prefill_running h = refl
is_running→state ContinuousRequestState.decode_active h = absurd (true_ne_false (sym h))
is_running→state ContinuousRequestState.stream_draining h = absurd (true_ne_false (sym h))
is_running→state ContinuousRequestState.completed h = absurd (true_ne_false (sym h))
is_running→state ContinuousRequestState.failed h = absurd (true_ne_false (sym h))
is_running→state ContinuousRequestState.cancelled h = absurd (true_ne_false (sym h))
is_running→state ContinuousRequestState.timed_out h = absurd (true_ne_false (sym h))

is_decoding→state : (s : ContinuousRequestState) → is_decoding s ≡ true → s ≡ decode_active
is_decoding→state ContinuousRequestState.admitted h = absurd (true_ne_false (sym h))
is_decoding→state ContinuousRequestState.prefill_pending h = absurd (true_ne_false (sym h))
is_decoding→state ContinuousRequestState.prefill_running h = absurd (true_ne_false (sym h))
is_decoding→state ContinuousRequestState.decode_active h = refl
is_decoding→state ContinuousRequestState.stream_draining h = absurd (true_ne_false (sym h))
is_decoding→state ContinuousRequestState.completed h = absurd (true_ne_false (sym h))
is_decoding→state ContinuousRequestState.failed h = absurd (true_ne_false (sym h))
is_decoding→state ContinuousRequestState.cancelled h = absurd (true_ne_false (sym h))
is_decoding→state ContinuousRequestState.timed_out h = absurd (true_ne_false (sym h))

is_draining→state : (s : ContinuousRequestState) → is_draining s ≡ true → s ≡ stream_draining
is_draining→state ContinuousRequestState.admitted h = absurd (true_ne_false (sym h))
is_draining→state ContinuousRequestState.prefill_pending h = absurd (true_ne_false (sym h))
is_draining→state ContinuousRequestState.prefill_running h = absurd (true_ne_false (sym h))
is_draining→state ContinuousRequestState.decode_active h = absurd (true_ne_false (sym h))
is_draining→state ContinuousRequestState.stream_draining h = refl
is_draining→state ContinuousRequestState.completed h = absurd (true_ne_false (sym h))
is_draining→state ContinuousRequestState.failed h = absurd (true_ne_false (sym h))
is_draining→state ContinuousRequestState.cancelled h = absurd (true_ne_false (sym h))
is_draining→state ContinuousRequestState.timed_out h = absurd (true_ne_false (sym h))

-- What a phase after the admission does to a request.
abbrev pub Works :
    FakeContinuousSchedulerConfig → FakeContinuousRequest → FakeContinuousRequest → Type 0
Works cfg r r' = Goes cfg r r' × (is_admitted r.state ≡ true → r' ≡ r)

module _ (cfg : FakeContinuousSchedulerConfig) where
  Works-refl : (r : FakeContinuousRequest) → Works cfg r r
  Works-refl r = (Goes-refl cfg r, λ a. refl)

  -- A request that is in one state moves to the next one.
  module _ (r r' : FakeContinuousRequest) (s t : ContinuousRequestState) (at_s : r.state ≡ s) where
    Works-move :
        Next s t
        → r'.state ≡ t
        → is_terminal s ≡ false
        → is_admitted s ≡ false
        → r'.handle ≡ r.handle
        → (IsOrderly cfg r → IsOrderly cfg r')
        → Works cfg r r'
    Works-move n at_t live given h o = (
      (
        subst (λ x. Reaches x r'.state) (sym at_s) (subst (Reaches s) (sym at_t) (there here n)),
        o,
        h,
        λ e. absurd (true_ne_false (sym e ∙ ap is_terminal at_s ∙ live)),
      ),
      λ a. absurd (true_ne_false (sym a ∙ ap is_admitted at_s ∙ given)),
    )

  prefill_tick-Works :
      (r : FakeContinuousRequest) → r.state ≡ prefill_running → Works cfg r (prefill_tick r)
  unfolding prefill_tick
  prefill_tick-Works r at_s =
      let left = r.prefill_ticks_remaining - 1 in
      branches (Works cfg r) (leb left 0) _ _
        (λ t.
          Works-move r _ prefill_running decode_active at_s prefilled refl refl refl refl (λ x. x))
        (λ f. (
          (here, λ x. x, refl, λ e. refl),
          λ a. absurd (true_ne_false (sym a ∙ ap is_admitted at_s)),
        ))

  pub prefill_requests-Works :
      (most n : ℕ) (d : Dict FakeContinuousRequest)
      → Alike (Works cfg) d (prefill_requests most n d)
  unfolding prefill_requests
  prefill_requests-Works most n [] = tt
  prefill_requests-Works most n ((k, r) ∷ d) =
      let next = prefill_requests-Works most (n + 1) d in
      let others = prefill_requests-Works most n d in
      branches (Alike (Works cfg) ((k, r) ∷ d)) (leb most n) _ _
        (λ t. Alike-refl (Works cfg) Works-refl ((k, r) ∷ d))
        (λ f.
          branches (Alike (Works cfg) ((k, r) ∷ d)) (is_pending r.state) _ _
            (λ t. (
              refl,
              Works-move r _ prefill_pending prefill_running (is_pending→state r.state t) started
                  refl refl refl refl (λ x. x),
              next,
            ))
            (λ g.
              branches (Alike (Works cfg) ((k, r) ∷ d)) (is_running r.state) _ _
                (λ t. (refl, prefill_tick-Works r (is_running→state r.state t), others))
                (λ h. (refl, Works-refl r, others))))

module _ (chunk_text : String → ℕ → String) (cfg : FakeContinuousSchedulerConfig) where
  emit_chunk-IsOrderly :
      (r : FakeContinuousRequest)
      → leb cfg.max_decode_steps_per_request r.decode_steps_completed ≡ false
      → IsOrderly cfg r
      → IsOrderly cfg (emit_chunk chunk_text cfg r)
  unfolding emit_chunk
  emit_chunk-IsOrderly r room (le, (first, num, sum), own) = (
    ground (arith, room),
    (
      first,
      IsNumbered-snoc first r.output_chunks _ num (sym sum),
      omega (arith, sum, length-append r.output_chunks),
    ),
    All-snoc (λ (c : ContinuousOutputChunk). c.request_id ≡ r.handle.request_id) r.output_chunks _
        own refl,
  )

  emit_chunk-Works :
      (r : FakeContinuousRequest)
      → r.state ≡ decode_active
      → leb cfg.max_decode_steps_per_request r.decode_steps_completed ≡ false
      → Works cfg r (emit_chunk chunk_text cfg r)
  unfolding emit_chunk
  emit_chunk-Works r at_s h = (
    (here, emit_chunk-IsOrderly r h, refl, λ e. refl),
    λ a. absurd (true_ne_false (sym a ∙ ap is_admitted at_s)),
  )

  pub decode_requests-Works :
      (n : ℕ) (d : Dict FakeContinuousRequest)
      → Alike (Works cfg) d (decode_requests chunk_text cfg n d)
  unfolding decode_requests
  decode_requests-Works n [] = tt
  decode_requests-Works n ((k, r) ∷ d) =
      let next = decode_requests-Works (n + 1) d in
      let others = decode_requests-Works n d in
      branches (Alike (Works cfg) ((k, r) ∷ d)) (not (is_decoding r.state)) _ _
        (λ t. (refl, Works-refl cfg r, others))
        (λ f.
          let at_s = is_decoding→state r.state (ground (arith, f)) in
          branches (Alike (Works cfg) ((k, r) ∷ d)) (leb cfg.max_decode_per_tick n) _ _
            (λ t. Alike-refl (Works cfg) (Works-refl cfg) ((k, r) ∷ d))
            (λ g.
              branches (Alike (Works cfg) ((k, r) ∷ d))
                (leb cfg.max_decode_steps_per_request r.decode_steps_completed) _ _
                (λ t. (
                  refl,
                  Works-move cfg r _ decode_active stream_draining at_s exhausted refl refl refl
                      refl (λ x. x),
                  others,
                ))
                (λ h. (refl, emit_chunk-Works r at_s h, next))))

module _ (cfg : FakeContinuousSchedulerConfig) where
  pub drain_requests-Works :
      (d : Dict FakeContinuousRequest) (ss : List ContinuousSlot)
      → Alike (Works cfg) d (drain_requests d ss).0
  unfolding drain_requests
  drain_requests-Works [] ss = tt
  drain_requests-Works ((k, r) ∷ d) ss =
      branches
        (λ (z : Dict FakeContinuousRequest × List ContinuousSlot).
          Alike (Works cfg) ((k, r) ∷ d) z.0)
        (is_draining r.state) _ _
        (λ t. (
          refl,
          Works-move cfg r _ stream_draining completed (is_draining→state r.state t) drained refl
              refl refl refl (λ x. x),
          drain_requests-Works d (vacate r.slot_id ss),
        ))
        (λ f. (refl, Works-refl cfg r, drain_requests-Works d ss))
