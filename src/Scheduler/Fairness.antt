-- ===== src/Scheduler/Fairness.antt =====
-- scheduler.py: how often `cache_aware_fifo` may pass over the oldest request. The counts of
-- `_bypass_counts` are followed over the rounds of selection that the queue makes.
use whooshd.Base.{
  ℕ, ◌+◌, ◌≤◌, ◌<◌, ◌≡◌, refl, ap, sym, subst, ◌⊎◌, inl, inr, String, true, false, Option, none,
  some, List, [], ◌∷◌, map, arith, leb, if◌then◌else◌, length, All, In, In-All, same, same_refl,
  same→eq, eq→same, Bool-cases, Option-cases, lookup-insert, lookup-erase_ne, Dict, insert, erase,
}
use whooshd.Config.{Config, SchedulerPolicy, fifo, cache_aware_fifo}
use whooshd.Scheduler.{
  Scheduler, SchedulerCandidate, SchedulerDecision, bump_one, oldest_from, first_ready, bump,
  choose_fifo, choose_ready, bypasses, choose_cache_aware, by_policy, choose_next, remove_request,
}
use whooshd.Scheduler.Choice.{oldest_from-In, oldest_from-le, first_ready-In}

-- The request `rid`, queued at time `at`, is a candidate, and every other candidate is younger.
pub record Waits (rid : String) (at : ℕ) (cs : List SchedulerCandidate) : Type 0 where
  pub present : (c : SchedulerCandidate) × In c cs × (c.request_id ≡ rid) × (c.queued_at ≡ at)
  pub eldest :
      All
        (λ d.
          ((d.request_id ≡ rid) × (d.queued_at ≡ at))
          ⊎ ((same d.request_id rid ≡ false) × (at < d.queued_at)))
        cs

bypasses-insert :
    (k j : String) (n : ℕ) (d : Dict ℕ)
    → bypasses (insert k n d) j ≡ (if same k j then n else bypasses d j)
unfolding bypasses
bypasses-insert k j n d = rw (bypasses, lookup-insert k j n d) (ground arith)

bypasses-erase_ne :
    (k j : String) (d : Dict ℕ) → same k j ≡ false → bypasses (erase k d) j ≡ bypasses d j
unfolding bypasses
bypasses-erase_ne k j d n = rw (bypasses, lookup-erase_ne k j d n)

bump_one-le :
    (at : ℕ) (c : SchedulerCandidate) (s : Scheduler) (rid : String)
    → bypasses s.bypass_counts rid ≤ bypasses (bump_one at c s).bypass_counts rid
unfolding bump_one
bump_one-le at c s rid = ground (
  arith,
  bypasses-insert c.request_id rid (bypasses s.bypass_counts c.request_id + 1) s.bypass_counts,
  same→eq c.request_id rid,
)

bump_one_counts :
    (at : ℕ) (c : SchedulerCandidate) (s : Scheduler)
    → c.queued_at < at
    → bypasses s.bypass_counts c.request_id < bypasses (bump_one at c s).bypass_counts c.request_id
unfolding bump_one
bump_one_counts at c s h = ground (
  arith,
  bypasses-insert c.request_id c.request_id (bypasses s.bypass_counts c.request_id + 1)
      s.bypass_counts,
  same_refl c.request_id,
)

bump-le :
    (at : ℕ) (cs : List SchedulerCandidate) (s : Scheduler) (rid : String)
    → bypasses s.bypass_counts rid ≤ bypasses (bump at cs s).bypass_counts rid
unfolding bump
bump-le at [] s rid = omega arith
bump-le at (c ∷ cs) s rid =
    omega (arith, bump_one-le at c s rid, bump-le at cs (bump_one at c s) rid)

-- An overtaken request is counted.
bump_counts :
    (at : ℕ) (c : SchedulerCandidate) (cs : List SchedulerCandidate) (s : Scheduler)
    → In c cs
    → c.queued_at < at
    → bypasses s.bypass_counts c.request_id < bypasses (bump at cs s).bypass_counts c.request_id
unfolding bump
bump_counts at c [] s m h = absurd m
bump_counts at c (d ∷ cs) s (inl e) h = omega (
  arith,
  subst
      (λ x.
        bypasses s.bypass_counts c.request_id
        < bypasses (bump_one at x s).bypass_counts c.request_id)
      e (bump_one_counts at c s h),
  bump-le at cs (bump_one at d s) c.request_id,
)
bump_counts at c (d ∷ cs) s (inr m) h =
    omega (arith, bump_one-le at d s c.request_id, bump_counts at c cs (bump_one at d s) m h)

-- The decision is for `rid`, or it passes `rid` over, which is allowed and counted.
abbrev Fair : Config → String → Scheduler → Scheduler × SchedulerDecision → Type 0
Fair cfg rid s r =
    (r.1.request_id ≡ some rid)
    ⊎ ((bypasses s.bypass_counts rid < cfg.scheduler_max_bypass)
        × ((other : String) × (r.1.request_id ≡ some other)
            × (same other rid ≡ false)
            × (bypasses s.bypass_counts rid < bypasses (r.0).bypass_counts rid)))

module _ {rid : String} {at : ℕ} (cfg : Config) (s : Scheduler) (c : SchedulerCandidate)
    (cs : List SchedulerCandidate) (w : Waits rid at (c ∷ cs)) where
  oldest_waits : ((oldest_from c cs).request_id ≡ rid) × ((oldest_from c cs).queued_at ≡ at)
  oldest_waits =
      let (v, m, id, q) = w.present in
      let le : (oldest_from c cs).queued_at ≤ v.queued_at =
        In-All (λ d. (oldest_from c cs).queued_at ≤ d.queued_at) (c ∷ cs) m (oldest_from-le c cs) in
      elim (In-All _ (c ∷ cs) (oldest_from-In c cs) w.eldest) [
        | inl here ↦ here
        | inr (n, lt) ↦ absurd (omega arith)
      ]

  overtaken :
      (r : SchedulerCandidate)
      → In r (c ∷ cs)
      → same r.request_id (oldest_from c cs).request_id ≡ false
      → (at < r.queued_at) × (same r.request_id rid ≡ false)
  overtaken r m n = elim (In-All _ (c ∷ cs) m w.eldest) [
    | inl (e, _) ↦
        absurd (ground (arith, oldest_waits, eq→same r.request_id (oldest_from c cs).request_id))
    | inr (f, lt) ↦ (lt, f)
  ]

  choose_ready-Fair :
      bypasses s.bypass_counts (oldest_from c cs).request_id < cfg.scheduler_max_bypass
      → Fair cfg rid s (choose_ready s (oldest_from c cs) (c ∷ cs) (first_ready (c ∷ cs)))
  unfolding choose_ready
  choose_ready-Fair h = elim (Option-cases (first_ready (c ∷ cs))) [
    | inl e ↦ rw e (inl (ap some oldest_waits.0))
    | inr (r, e) ↦ elim (Bool-cases (same r.request_id (oldest_from c cs).request_id)) [
      | inl t ↦ rw (e, choose_ready, t) (inl (ap some oldest_waits.0))
      | inr f ↦
          let late = overtaken r (first_ready-In (c ∷ cs) e).0 f in
          let counted =
            bump_counts r.queued_at (oldest_from c cs) (c ∷ cs) s (oldest_from-In c cs)
              (omega (arith, oldest_waits.1, late.0)) in
          rw (e, choose_ready, f)
            (inr (
              rw (oldest_waits.0) at h,
              (r.request_id, refl, late.1, rw (oldest_waits.0) at counted),
            ))
    ]
  ]

  choose_cache_aware-Fair : Fair cfg rid s (choose_cache_aware cfg s c cs)
  unfolding choose_cache_aware
  choose_cache_aware-Fair =
      elim (Bool-cases
        (leb cfg.scheduler_max_bypass (bypasses s.bypass_counts (oldest_from c cs).request_id))) [
          | inl t ↦ rw t (inl (ap some oldest_waits.0))
          | inr f ↦ rw f (choose_ready-Fair (ground arith))
        ]

  choose_fifo_waits : (choose_fifo s c cs).1.request_id ≡ some rid
  unfolding choose_fifo
  choose_fifo_waits = ap some oldest_waits.0

by_policy-Fair :
    {rid : String} {at : ℕ} (cfg : Config) (p : SchedulerPolicy) (s : Scheduler)
    (c : SchedulerCandidate) (cs : List SchedulerCandidate)
    → Waits rid at (c ∷ cs)
    → Fair cfg rid s (by_policy cfg p s c cs)
by_policy-Fair cfg fifo s c cs w = inl (choose_fifo_waits cfg s c cs w)
by_policy-Fair cfg cache_aware_fifo s c cs w = choose_cache_aware-Fair cfg s c cs w

choose_next-Fair :
    {rid : String} {at : ℕ} (cfg : Config) (s : Scheduler) (cs : List SchedulerCandidate)
    → Waits rid at cs
    → Fair cfg rid s (choose_next cfg s cs true)
unfolding choose_next
choose_next-Fair cfg s [] w = absurd w.present.1
choose_next-Fair cfg s (c ∷ cs) w = by_policy-Fair cfg cfg.scheduler_policy _ c cs w

-- One selection by the queue: the scheduler's choice, which then leaves the queue.
abbrev drop_chosen : Scheduler → Option String → Scheduler
drop_chosen s none = s
drop_chosen s (some rid) = remove_request s rid

round : Config → Scheduler → List SchedulerCandidate → Scheduler × Option String
round cfg s cs =
    let (s', d) = choose_next cfg s cs true in (drop_chosen s' d.request_id, d.request_id)

-- The identifiers that successive selections choose, from the candidates of each.
pub chosen : Config → Scheduler → List (List SchedulerCandidate) → List (Option String)
chosen cfg s [] = []
chosen cfg s (cs ∷ rounds) = (round cfg s cs).1 ∷ chosen cfg (round cfg s cs).0 rounds

round-Fair :
    {rid : String} {at : ℕ} (cfg : Config) (s : Scheduler) (cs : List SchedulerCandidate)
    → Waits rid at cs
    → ((round cfg s cs).1 ≡ some rid)
      ⊎ ((bypasses s.bypass_counts rid < cfg.scheduler_max_bypass)
          × (bypasses s.bypass_counts rid < bypasses (round cfg s cs).0.bypass_counts rid))
unfolding round remove_request
round-Fair {rid} cfg s cs w = elim (choose_next-Fair cfg s cs w) [
  | inl e ↦ inl e
  | inr (lt, (other, e, n, counted)) ↦
      inr (lt, rw (e, drop_chosen, bypasses-erase_ne other rid _ n) counted)
]

chosen_within :
    (rid : String) (at : ℕ) (cfg : Config) (s : Scheduler) (cs : List SchedulerCandidate)
    (rounds : List (List SchedulerCandidate))
    → Waits rid at cs
    → All (λ later. Waits rid at later) rounds
    → cfg.scheduler_max_bypass ≤ bypasses s.bypass_counts rid + length rounds
    → In (some rid) (chosen cfg s (cs ∷ rounds))
unfolding chosen
chosen_within rid at cfg s cs [] w h le = elim (round-Fair cfg s cs w) [
  | inl e ↦ inl (sym e)
  | inr (allowed, _) ↦ absurd (omega arith)
]
chosen_within rid at cfg s cs (next ∷ rounds) w h le = elim (round-Fair cfg s cs w) [
  | inl e ↦ inl (sym e)
  | inr (_, counted) ↦
      inr (chosen_within rid at cfg (round cfg s cs).0 next rounds h.0 h.1 (omega arith))
]

-- A request that waits through more than `max_bypass` selections, every other candidate being
-- strictly younger, is chosen by one of them, under either policy and from any counts.
pub chosen-max_bypass :
    (rid : String) (at : ℕ) (cfg : Config) (s : Scheduler) (rounds : List (List SchedulerCandidate))
    → All (λ cs. Waits rid at cs) rounds
    → cfg.scheduler_max_bypass < length rounds
    → In (some rid) (chosen cfg s rounds)
chosen-max_bypass rid at cfg s [] h lt = absurd (omega arith)
chosen-max_bypass rid at cfg s (cs ∷ rounds) h lt =
    chosen_within rid at cfg s cs rounds h.0 h.1 (omega arith)

-- A cache-ready candidate that arrived in the same instant as the one at the front.
abbrev pub Ties : SchedulerCandidate → SchedulerCandidate → Type 0
Ties o r =
    (r.queued_at ≡ o.queued_at)
    × (r.threadwake_cache_ready ≡ true)
    × (same r.request_id o.request_id ≡ false)

tie_round :
    (cfg : Config) (s : Scheduler) (o r : SchedulerCandidate)
    → cfg.scheduler_policy ≡ cache_aware_fifo
    → o.threadwake_cache_ready ≡ false
    → Ties o r
    → bypasses s.bypass_counts o.request_id < cfg.scheduler_max_bypass
    → ((round cfg s (o ∷ r ∷ [])).1 ≡ some r.request_id)
      × (bypasses (round cfg s (o ∷ r ∷ [])).0.bypass_counts o.request_id
          ≡ bypasses s.bypass_counts o.request_id)
unfolding round choose_next choose_cache_aware choose_ready oldest_from first_ready bump bump_one
    remove_request
tie_round cfg s o r p cold tie lt =
    ground (arith, bypasses-erase_ne r.request_id o.request_id s.bypass_counts)

-- Under the cache-aware policy, a request that is not cache-ready and still may be bypassed is
-- chosen in none of the selections in which it stands at the front beside a cache-ready request
-- that arrived in the same instant, however many they are.
pub chosen-Ties :
    (cfg : Config) (s : Scheduler) (o : SchedulerCandidate) (rs : List SchedulerCandidate)
    → cfg.scheduler_policy ≡ cache_aware_fifo
    → o.threadwake_cache_ready ≡ false
    → All (λ r. Ties o r) rs
    → bypasses s.bypass_counts o.request_id < cfg.scheduler_max_bypass
    → ¬ In (some o.request_id) (chosen cfg s (map (λ r. o ∷ r ∷ []) rs))
unfolding chosen
chosen-Ties cfg s o [] p cold ties lt m = m
chosen-Ties cfg s o (r ∷ rs) p cold ties lt (inl e) =
    ground (arith, tie_round cfg s o r p cold ties.0 lt, eq→same r.request_id o.request_id)
chosen-Ties cfg s o (r ∷ rs) p cold ties lt (inr m) =
    chosen-Ties cfg (round cfg s (o ∷ r ∷ [])).0 o rs p cold ties.1
      (omega (arith, (tie_round cfg s o r p cold ties.0 lt).1)) m
