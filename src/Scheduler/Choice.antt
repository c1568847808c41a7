-- ===== src/Scheduler/Choice.antt =====
-- scheduler.py: what a decision of `choose_next` selects.
use whooshd.Base.{
  ◌≤◌, ◌<◌, ◌≡◌, refl, sym, subst, ◌⊎◌, inl, inr, String, Bool, true, false, Option, none, some,
  List, [], ◌∷◌, arith, ltb, leb, ltb→lt, ltb→le, All, In, same, Bool-cases,
}
use whooshd.Config.{Config, SchedulerPolicy, fifo, cache_aware_fifo}
use whooshd.Scheduler.{
  Scheduler, SchedulerCandidate, oldest_from, first_ready, choose_fifo, choose_ready, bypasses,
  choose_cache_aware, by_policy, choose_next,
}

-- One step of the search: the later candidate takes over only if it is strictly older.
pub oldest_from-cons :
    (c d : SchedulerCandidate) (cs : List SchedulerCandidate)
    → ((oldest_from c (d ∷ cs) ≡ oldest_from d cs) × (d.queued_at < c.queued_at))
      ⊎ ((oldest_from c (d ∷ cs) ≡ oldest_from c cs) × (c.queued_at ≤ d.queued_at))
unfolding oldest_from
oldest_from-cons c d cs = elim (Bool-cases (ltb d.queued_at c.queued_at)) [
  | inl t ↦ inl (rw t, ltb→lt _ _ t)
  | inr f ↦ inr (rw f, ltb→le _ _ f)
]

pub oldest_from-nil : (c : SchedulerCandidate) → oldest_from c [] ≡ c
unfolding oldest_from
oldest_from-nil c = refl

pub oldest_from-In :
    (c : SchedulerCandidate) (cs : List SchedulerCandidate) → In (oldest_from c cs) (c ∷ cs)
oldest_from-In c [] = inl (oldest_from-nil c)
oldest_from-In c (d ∷ cs) = elim (oldest_from-cons c d cs) [
  | inl (e, _) ↦ subst (λ o. In o (c ∷ d ∷ cs)) (sym e) (inr (oldest_from-In d cs))
  | inr (e, _) ↦
      subst (λ o. In o (c ∷ d ∷ cs)) (sym e)
        (elim (oldest_from-In c cs) [ inl here ↦ inl here | inr m ↦ inr (inr m) ])
]

pub oldest_from-le :
    (c : SchedulerCandidate) (cs : List SchedulerCandidate)
    → All (λ d. (oldest_from c cs).queued_at ≤ d.queued_at) (c ∷ cs)
oldest_from-le c [] = rw (oldest_from-nil c) (omega arith, tt)
oldest_from-le c (d ∷ cs) = elim (oldest_from-cons c d cs) [
  | inl (e, lt) ↦
      let rest = oldest_from-le d cs in
      subst (λ o. All (λ x. o.queued_at ≤ x.queued_at) (c ∷ d ∷ cs)) (sym e)
        (omega (arith, rest.0), rest)
  | inr (e, le) ↦
      let rest = oldest_from-le c cs in
      subst (λ o. All (λ x. o.queued_at ≤ x.queued_at) (c ∷ d ∷ cs)) (sym e)
        (rest.0, (omega (arith, rest.0), rest.1))
]

pub first_ready-In :
    (cs : List SchedulerCandidate) {r : SchedulerCandidate}
    → first_ready cs ≡ some r
    → In r cs × (r.threadwake_cache_ready ≡ true)
unfolding first_ready
first_ready-In [] h = cc
first_ready-In (c ∷ cs) {r} h = elim (Bool-cases c.threadwake_cache_ready) [
  | inl t ↦ (inl (ground arith), ground arith)
  | inr f ↦ let rest = first_ready-In cs (rw f at h) in (inr rest.0, rest.1)
]

-- The text is the identifier of a queued candidate.
abbrev pub IsOf : List SchedulerCandidate → String → Type 0
IsOf cs rid = (c : SchedulerCandidate) × In c cs × (c.request_id ≡ rid)

-- A decision for one of the candidates.
abbrev pub Selects : List SchedulerCandidate → Option String → Type 0
Selects cs chosen = (rid : String) × (chosen ≡ some rid) × IsOf cs rid

oldest-Selects :
    (c : SchedulerCandidate) (cs : List SchedulerCandidate)
    → Selects (c ∷ cs) (some (oldest_from c cs).request_id)
oldest-Selects c cs =
    ((oldest_from c cs).request_id, refl, (oldest_from c cs, oldest_from-In c cs, refl))

choose_ready-Selects :
    (s : Scheduler) (c : SchedulerCandidate) (cs : List SchedulerCandidate)
    (ready : Option SchedulerCandidate)
    → ((r : SchedulerCandidate) → ready ≡ some r → In r (c ∷ cs))
    → Selects (c ∷ cs) (choose_ready s (oldest_from c cs) (c ∷ cs) ready).1.request_id
unfolding choose_ready
choose_ready-Selects s c cs none member = oldest-Selects c cs
choose_ready-Selects s c cs (some r) member =
    elim (Bool-cases (same r.request_id (oldest_from c cs).request_id)) [
      | inl t ↦ rw t (oldest-Selects c cs)
      | inr f ↦ rw f (r.request_id, refl, (r, member r refl, refl))
    ]

choose_cache_aware-Selects :
    (cfg : Config) (s : Scheduler) (c : SchedulerCandidate) (cs : List SchedulerCandidate)
    → Selects (c ∷ cs) (choose_cache_aware cfg s c cs).1.request_id
unfolding choose_cache_aware
choose_cache_aware-Selects cfg s c cs =
    elim (Bool-cases
      (leb cfg.scheduler_max_bypass (bypasses s.bypass_counts (oldest_from c cs).request_id))) [
        | inl t ↦ rw t (oldest-Selects c cs)
        | inr f ↦ rw f (
            choose_ready-Selects s c cs (first_ready (c ∷ cs))
              (λ r e. (first_ready-In (c ∷ cs) e).0))
      ]

by_policy-Selects :
    (cfg : Config) (p : SchedulerPolicy) (s : Scheduler) (c : SchedulerCandidate)
    (cs : List SchedulerCandidate)
    → Selects (c ∷ cs) (by_policy cfg p s c cs).1.request_id
unfolding choose_fifo
by_policy-Selects cfg fifo s c cs = oldest-Selects c cs
by_policy-Selects cfg cache_aware_fifo s c cs = choose_cache_aware-Selects cfg s c cs

-- The scheduler selects nothing exactly when no capacity is available or no candidate waits, and
-- otherwise selects one of the candidates, under either policy.
pub choose_next_cases :
    (cfg : Config) (s : Scheduler) (cs : List SchedulerCandidate) (available : Bool)
    → (((choose_next cfg s cs available).1.request_id ≡ none) × ((available ≡ false) ⊎ (cs ≡ [])))
      ⊎ ((available ≡ true) × Selects cs (choose_next cfg s cs available).1.request_id)
unfolding choose_next
choose_next_cases cfg s cs false = inl (refl, inl refl)
choose_next_cases cfg s [] true = inl (refl, inr refl)
choose_next_cases cfg s (c ∷ cs) true =
    inr (refl, by_policy-Selects cfg cfg.scheduler_policy _ c cs)

-- Arrival order: no candidate is older than one that stands before it.
abbrev pub InOrder : List SchedulerCandidate → Type 0
InOrder [] = Unit
InOrder (c ∷ cs) = All (λ d. c.queued_at ≤ d.queued_at) cs × InOrder cs

oldest_from_head :
    (c : SchedulerCandidate) (cs : List SchedulerCandidate)
    → All (λ d. c.queued_at ≤ d.queued_at) cs
    → oldest_from c cs ≡ c
unfolding oldest_from
oldest_from_head c [] h = refl
oldest_from_head c (d ∷ cs) h = ground (arith, oldest_from_head c cs)

-- Under the default policy, candidates in arrival order are served from the front.
pub choose_next-fifo_head :
    (cfg : Config) (s : Scheduler) (c : SchedulerCandidate) (cs : List SchedulerCandidate)
    → cfg.scheduler_policy ≡ fifo
    → InOrder (c ∷ cs)
    → (choose_next cfg s (c ∷ cs) true).1.request_id ≡ some c.request_id
unfolding choose_next choose_fifo
choose_next-fifo_head cfg s c cs p h = rw (p, by_policy, oldest_from_head c cs h.0)

-- A candidate that nobody is older than, under the default policy.
pub choose_next-fifo_oldest :
    (cfg : Config) (s : Scheduler) (c : SchedulerCandidate) (cs : List SchedulerCandidate)
    → cfg.scheduler_policy ≡ fifo
    → (o : SchedulerCandidate) × In o (c ∷ cs)
      × All (λ d. o.queued_at ≤ d.queued_at) (c ∷ cs)
      × ((choose_next cfg s (c ∷ cs) true).1.request_id ≡ some o.request_id)
unfolding choose_next choose_fifo
choose_next-fifo_oldest cfg s c cs p =
    (oldest_from c cs, oldest_from-In c cs, oldest_from-le c cs, rw (p, by_policy))

first_ready_cold :
    (cs : List SchedulerCandidate)
    → All (λ c. c.threadwake_cache_ready ≡ false) cs
    → first_ready cs ≡ none
unfolding first_ready
first_ready_cold [] h = refl
first_ready_cold (c ∷ cs) h = rw (h.0) (first_ready_cold cs h.1)

by_policy_cold :
    (cfg : Config) (p : SchedulerPolicy) (s : Scheduler) (c : SchedulerCandidate)
    (cs : List SchedulerCandidate)
    → All (λ d. d.threadwake_cache_ready ≡ false) (c ∷ cs)
    → (by_policy cfg p s c cs).1.request_id ≡ some (oldest_from c cs).request_id
unfolding choose_fifo choose_cache_aware choose_ready
by_policy_cold cfg fifo s c cs h = refl
by_policy_cold cfg cache_aware_fifo s c cs h = ground (arith, first_ready_cold (c ∷ cs) h)

-- Where no candidate is cache-ready, both policies choose the oldest.
pub choose_next_cold :
    (cfg : Config) (s : Scheduler) (c : SchedulerCandidate) (cs : List SchedulerCandidate)
    → All (λ d. d.threadwake_cache_ready ≡ false) (c ∷ cs)
    → (choose_next cfg s (c ∷ cs) true).1.request_id ≡ some (oldest_from c cs).request_id
unfolding choose_next
choose_next_cold cfg s c cs h = by_policy_cold cfg cfg.scheduler_policy _ c cs h
