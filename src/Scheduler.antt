-- ===== src/Scheduler.antt =====
-- whooshd/scheduler.py: which queued request runs next. A method returns the new scheduler beside
-- its decision; `queued_at` is a time in whole units, compared and never computed with.
pub mod Choice
pub mod Fairness
use whooshd.Base.{
  ℕ, suc, ◌+◌, String, Bool, true, false, Option, none, some, List, [], ◌∷◌, ltb, leb,
  if◌then◌else◌, not, length, count, same, Dict, lookup, insert, erase,
}
use whooshd.Config.{Config, SchedulerPolicy, fifo, cache_aware_fifo}

pub data SchedulerDecisionReason : Type 0 where
  fifo_oldest cache_affinity fairness_fifo no_eligible_request : SchedulerDecisionReason
  capacity_unavailable : SchedulerDecisionReason

pub record SchedulerCandidate : Type 0 where
  pub request_id : String
  pub queued_at : ℕ
  pub model : Option String
  pub stream : Bool
  pub threadwake_cache_ready : Bool
  pub bypass_count : ℕ

pub record SchedulerDecision : Type 0 where
  pub request_id : Option String
  pub policy : SchedulerPolicy
  pub reason : SchedulerDecisionReason
  pub eligible_count : ℕ

pub record Scheduler : Type 0 where
  pub last_decision : Option SchedulerDecision
  pub bypass_counts : Dict ℕ
  pub cache_affinity_candidates : ℕ
  pub fairness_bypasses : ℕ

unfoldable pub new : Scheduler
new = record {
  last_decision = none;
  bypass_counts = [];
  cache_affinity_candidates = 0;
  fairness_bypasses = 0;
}

-- `self._bypass_counts.get(request_id, 0)`.
unfoldable pub bypasses : Dict ℕ → String → ℕ
bypasses d rid = elim (lookup rid d) [ none ↦ 0 | some n ↦ n ]

-- `min(candidates, key=...)` of a list that begins with `best`: the first of the least.
unfoldable pub oldest_from : SchedulerCandidate → List SchedulerCandidate → SchedulerCandidate
oldest_from best [] = best
oldest_from best (c ∷ cs) = oldest_from (if ltb c.queued_at best.queued_at then c else best) cs

-- `next((c for c in candidates if c.threadwake_cache_ready), None)`.
unfoldable pub first_ready : List SchedulerCandidate → Option SchedulerCandidate
first_ready [] = none
first_ready (c ∷ cs) = if c.threadwake_cache_ready then some c else first_ready cs

-- Each decision is recorded as the last one.
abbrev pub decide :
    Scheduler
    → Option String
    → SchedulerPolicy
    → SchedulerDecisionReason
    → ℕ
    → Scheduler × SchedulerDecision
decide s rid policy reason n =
    let d : SchedulerDecision = record {
      request_id = rid;
      policy = policy;
      reason = reason;
      eligible_count = n;
    } in
    (record s { last_decision = some d }, d)

unfoldable pub choose_fifo :
    Scheduler → SchedulerCandidate → List SchedulerCandidate → Scheduler × SchedulerDecision
choose_fifo s c cs =
    decide s (some (oldest_from c cs).request_id) fifo fifo_oldest (length (c ∷ cs))

-- One round of the loop over the candidates that a cache-ready one overtakes.
unfoldable pub bump_one : ℕ → SchedulerCandidate → Scheduler → Scheduler
bump_one at c s =
    if ltb c.queued_at at
    then record s {
      bypass_counts =
          insert c.request_id (bypasses s.bypass_counts c.request_id + 1) s.bypass_counts;
      fairness_bypasses = s.fairness_bypasses + 1;
    }
    else s

unfoldable pub bump : ℕ → List SchedulerCandidate → Scheduler → Scheduler
bump at [] s = s
bump at (c ∷ cs) s = bump at cs (bump_one at c s)

-- The end of `_choose_cache_aware`, once the oldest may be passed over.
unfoldable pub choose_ready :
    Scheduler
    → SchedulerCandidate
    → List SchedulerCandidate
    → Option SchedulerCandidate
    → Scheduler × SchedulerDecision
choose_ready s oldest cs none =
    decide s (some oldest.request_id) cache_aware_fifo fifo_oldest (length cs)
choose_ready s oldest cs (some ready) =
    if same ready.request_id oldest.request_id
    then decide s (some oldest.request_id) cache_aware_fifo fifo_oldest (length cs)
    else decide (bump ready.queued_at cs s) (some ready.request_id) cache_aware_fifo cache_affinity
        (length cs)

unfoldable pub choose_cache_aware :
    Config
    → Scheduler
    → SchedulerCandidate
    → List SchedulerCandidate
    → Scheduler × SchedulerDecision
choose_cache_aware cfg s c cs =
    let oldest = oldest_from c cs in
    if leb cfg.scheduler_max_bypass (bypasses s.bypass_counts oldest.request_id)
    then decide s (some oldest.request_id) cache_aware_fifo fairness_fifo (length (c ∷ cs))
    else choose_ready s oldest (c ∷ cs) (first_ready (c ∷ cs))

abbrev by_policy :
    Config
    → SchedulerPolicy
    → Scheduler
    → SchedulerCandidate
    → List SchedulerCandidate
    → Scheduler × SchedulerDecision
by_policy cfg fifo s c cs = choose_fifo s c cs
by_policy cfg cache_aware_fifo s c cs = choose_cache_aware cfg s c cs

choose_available : Config → Scheduler → List SchedulerCandidate → Scheduler × SchedulerDecision
choose_available cfg s [] = decide s none cfg.scheduler_policy no_eligible_request 0
choose_available cfg s (c ∷ cs) =
    by_policy cfg cfg.scheduler_policy
      (record s { cache_affinity_candidates = count (λ d. d.threadwake_cache_ready) (c ∷ cs) }) c cs

unfoldable pub choose_next :
    Config → Scheduler → List SchedulerCandidate → Bool → Scheduler × SchedulerDecision
unfolding choose_available
choose_next cfg s cs capacity_available =
    if not capacity_available
    then decide s none cfg.scheduler_policy capacity_unavailable (length cs)
    else choose_available cfg s cs

unfoldable pub remove_request : Scheduler → String → Scheduler
remove_request s rid = record s { bypass_counts = erase rid s.bypass_counts }
