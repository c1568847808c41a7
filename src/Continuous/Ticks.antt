-- ===== src/Continuous/Ticks.antt =====
-- whooshd/continuous_scheduler.py: what a tick does to each request and to the empty slots.
use whooshd.Base.{
  ℕ, suc, ◌+◌, ◌≤◌, ◌≡◌, refl, sym, ap, ◌∙◌, inl, inr, String, true, false, Option, none, some,
  List, [], ◌∷◌, not, count, one_if, Dict, lookup, insert, branches, subst, arith, Option-cases,
}
use whooshd.Continuous.{ContinuousSlot, prefill_pending}
use whooshd.Continuous.Scheduler.{
  is_draining, FakeContinuousRequest, FakeContinuousSchedulerConfig, FakeTokenLevelScheduler, tick,
  process_admission, admit_pending, reserve_slot, remove_first, release_slot_for, vacate, holds,
  is_empty, is_admitted, prefill_requests, decode_requests, drain_requests,
}
use whooshd.Continuous.Moves.{
  Reaches, here, there, assigned, Goes, Goes-refl, Goes-trans, Alike, Alike-refl, Alike-insert,
  Alike-trans, lookup-Alike,
}
use whooshd.Continuous.Phases.{
  is_admitted→state, Works, prefill_requests-Works, decode_requests-Works, drain_requests-Works,
}

abbrev pub empties : FakeTokenLevelScheduler → ℕ
empties s = count is_empty s.slots

-- How the empty slots change.
pub release_slot_for-empties :
    (rid : String) (ss : List ContinuousSlot)
    → count is_empty (release_slot_for rid ss) ≤ count is_empty ss
unfolding release_slot_for count
release_slot_for-empties rid [] = omega arith
release_slot_for-empties rid (s ∷ ss) =
    branches (λ z. count is_empty z ≤ count is_empty (s ∷ ss)) (holds s.request_id rid) _ _
      (λ t. omega arith) (λ f. omega (arith, release_slot_for-empties rid ss))

vacate-empties :
    (id : Option String) (ss : List ContinuousSlot)
    → count is_empty (vacate id ss) ≡ count is_empty ss
unfolding vacate count
vacate-empties id [] = refl
vacate-empties id (s ∷ ss) =
    branches (λ z. count is_empty z ≡ count is_empty (s ∷ ss)) (holds id s.slot_id) _ _ (λ t. refl)
      (λ f. ap (λ n. one_if (is_empty s) + n) (vacate-empties id ss))

drain_requests-empties :
    (d : Dict FakeContinuousRequest) (ss : List ContinuousSlot)
    → count is_empty (drain_requests d ss).1 ≡ count is_empty ss
unfolding drain_requests
drain_requests-empties [] ss = refl
drain_requests-empties ((k, r) ∷ d) ss =
    branches
      (λ (z : Dict FakeContinuousRequest × List ContinuousSlot).
        count is_empty z.1 ≡ count is_empty ss)
      (is_draining r.state) _ _
      (λ t. drain_requests-empties d (vacate r.slot_id ss) ∙ vacate-empties r.slot_id ss)
      (λ f. drain_requests-empties d ss)

-- A reservation takes one empty slot, and fails only where there is none.
abbrev Reserves : List ContinuousSlot → Option (String × List ContinuousSlot) → Type 0
Reserves ss none = count is_empty ss ≡ 0
Reserves ss (some r) = count is_empty ss ≡ suc (count is_empty r.1)

reserve_slot-Reserves :
    (rid : String) (ss : List ContinuousSlot) → Reserves ss (reserve_slot rid ss)
unfolding reserve_slot count
reserve_slot-Reserves rid [] = refl
reserve_slot-Reserves rid (s ∷ ss) =
    branches (Reserves (s ∷ ss)) (is_empty s) _ _ (λ t. ground arith)
      (λ f. later (reserve_slot rid ss) (reserve_slot-Reserves rid ss) f)
  where
    later :
        (o : Option (String × List ContinuousSlot))
        → Reserves ss o
        → is_empty s ≡ false
        → Reserves (s ∷ ss) (elim o [ none ↦ none | some r ↦ some (r.0, s ∷ r.1) ])
    later none h f = ground arith
    later (some r) h f = ground arith

module _ (cfg : FakeContinuousSchedulerConfig) where
  -- The requests move along the state machine, and no slot becomes empty; with no empty slot the
  -- requests stay as they are.
  abbrev Admits : FakeTokenLevelScheduler → FakeTokenLevelScheduler → Type 0
  Admits s s' =
      Alike (Goes cfg) s.requests s'.requests
      × (empties s' ≤ empties s)
      × (empties s ≡ 0 → s'.requests ≡ s.requests)

  Admits-trans : (a b c : FakeTokenLevelScheduler) → Admits a b → Admits b c → Admits a c
  Admits-trans a b c (x, y, z) (x', y', z') = (
    Alike-trans (Goes cfg) (Goes-trans cfg) a.requests b.requests c.requests x x',
    omega (arith, y, y'),
    λ e. z' (omega (arith, y)) ∙ z e,
  )

  Admits-refl : (s : FakeTokenLevelScheduler) → Admits s s
  Admits-refl s = (Alike-refl (Goes cfg) (Goes-refl cfg) s.requests, omega arith, λ e. refl)

  admit_pending-Admits :
      (rids : List String) (s : FakeTokenLevelScheduler) → Admits s (admit_pending rids s)
  unfolding admit_pending
  admit_pending-Admits [] s = Admits-refl s
  admit_pending-Admits (rid ∷ rids) s =
      let dropped : FakeTokenLevelScheduler = record s {
        pending_admission = remove_first rid s.pending_admission;
      } in
      elim (Option-cases (lookup rid s.requests)) [
        | inl absent ↦ rw (absent, admit_pending) (admit_pending-Admits rids dropped)
        | inr (r, known) ↦
            rw (known, admit_pending)
              (branches (Admits s) (not (is_admitted r.state)) _ _
                (λ t. admit_pending-Admits rids dropped)
                (λ f. elim (Option-cases (reserve_slot rid s.slots)) [
                  | inl full ↦ rw full (Admits-refl s)
                  | inr (found, took) ↦
                      let s1 : FakeTokenLevelScheduler = record dropped {
                        slots = found.1;
                        requests =
                            insert rid
                              (record r { state = prefill_pending; slot_id = some found.0 })
                              s.requests;
                      } in
                      let one : count is_empty s.slots ≡ suc (count is_empty found.1) =
                        subst (Reserves s.slots) took (reserve_slot-Reserves rid s.slots) in
                      rw took (
                        Admits-trans s s1 (admit_pending rids s1)
                          (
                            Alike-insert (Goes cfg) (Goes-refl cfg) rid r _ s.requests known
                                (is_assigned r found.0 (ground (arith, f))),
                            omega (arith, one),
                            λ e. absurd (omega (arith, one)),
                          )
                          (admit_pending-Admits rids s1))
                ]))
      ]
    where
      is_assigned :
          (r : FakeContinuousRequest) (id : String)
          → is_admitted r.state ≡ true
          → Goes cfg r (record r { state = prefill_pending; slot_id = some id })
      is_assigned r id t = (
        subst (λ x. Reaches x prefill_pending) (sym (is_admitted→state r.state t))
            (there here assigned),
        λ x. x,
        refl,
        λ e. refl,
      )

module _ (chunk_text : String → ℕ → String) (cfg : FakeContinuousSchedulerConfig) where
  Works-trans : (a b c : FakeContinuousRequest) → Works cfg a b → Works cfg b c → Works cfg a c
  Works-trans a b c (g, k) (g', k') =
      (Goes-trans cfg a b c g g', λ t. k' (ap (λ x. is_admitted x.state) (k t) ∙ t) ∙ k t)

  -- The phases after the admission, one after the other.
  phases-Works :
      (d : Dict FakeContinuousRequest) (ss : List ContinuousSlot)
      → Alike
          (Works cfg)
          d
          (drain_requests
            (decode_requests chunk_text cfg 0 (prefill_requests cfg.max_prefill_per_tick 0 d))
            ss).0
  phases-Works d ss =
      let d2 = prefill_requests cfg.max_prefill_per_tick 0 d in
      let d3 = decode_requests chunk_text cfg 0 d2 in
      Alike-trans (Works cfg) Works-trans d d2 (drain_requests d3 ss).0
        (prefill_requests-Works cfg cfg.max_prefill_per_tick 0 d)
        (Alike-trans (Works cfg) Works-trans d2 d3 (drain_requests d3 ss).0
          (decode_requests-Works chunk_text cfg 0 d2) (drain_requests-Works cfg d3 ss))

  pub tick-Goes :
      (rid : String) (s : FakeTokenLevelScheduler) {r : FakeContinuousRequest}
      → lookup rid s.requests ≡ some r
      → (r' : FakeContinuousRequest) × (lookup rid (tick chunk_text cfg s).requests ≡ some r')
        × Goes cfg r r'
  unfolding tick process_admission
  tick-Goes rid s {r} at =
      let s0 : FakeTokenLevelScheduler = record s { tick_index = s.tick_index + 1 } in
      let s1 = admit_pending s.pending_admission s0 in
      let (a, _, _) = admit_pending-Admits cfg s.pending_admission s0 in
      let (r1, at1, g1) = lookup-Alike (Goes cfg) rid s.requests s1.requests {v = r} a at in
      let (r2, at2, (g2, _)) =
        lookup-Alike (Works cfg) rid s1.requests _ {v = r1} (phases-Works s1.requests s1.slots)
          at1 in
      (r2, at2, Goes-trans cfg r r1 r2 g1 g2)

  pub tick-empties : (s : FakeTokenLevelScheduler) → empties (tick chunk_text cfg s) ≤ empties s
  unfolding tick process_admission
  tick-empties s =
      let s0 : FakeTokenLevelScheduler = record s { tick_index = s.tick_index + 1 } in
      let s1 = admit_pending s.pending_admission s0 in
      let d2 = prefill_requests cfg.max_prefill_per_tick 0 s1.requests in
      let d3 = decode_requests chunk_text cfg 0 d2 in
      let (_, le, _) = admit_pending-Admits cfg s.pending_admission s0 in
      omega (arith, le, drain_requests-empties d3 s1.slots)

  pub tick-waits :
      (rid : String) (s : FakeTokenLevelScheduler) {r : FakeContinuousRequest}
      → empties s ≡ 0
      → lookup rid s.requests ≡ some r
      → is_admitted r.state ≡ true
      → lookup rid (tick chunk_text cfg s).requests ≡ some r
  unfolding tick process_admission
  tick-waits rid s {r} none_free at waiting =
      let s0 : FakeTokenLevelScheduler = record s { tick_index = s.tick_index + 1 } in
      let s1 = admit_pending s.pending_admission s0 in
      let (_, _, same_requests) = admit_pending-Admits cfg s.pending_admission s0 in
      let at1 : lookup rid s1.requests ≡ some r = ap (lookup rid) (same_requests none_free) ∙ at in
      let (r2, at2, (_, stays)) =
        lookup-Alike (Works cfg) rid s1.requests _ {v = r} (phases-Works s1.requests s1.slots)
          at1 in
      at2 ∙ ap (λ x. some x) (stays waiting)
