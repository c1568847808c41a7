-- ===== src/Queue/Grants.antt =====
-- queue.py: what `select_and_dequeue` selects, and what it leaves behind.
use whooshd.Base.{
  subst, ℕ, ◌≡◌, ◌≤◌, subst, refl, sym, ap, ◌⊎◌, inl, inr, true, false, none, some, List, [], ◌∷◌,
  arith, All, In, In-All, In-keep, keep-In, All-keep, keep, Bool-cases,
}
use whooshd.Config.{Config}
use whooshd.Queue.{
  QueueEntry, RequestQueue, Callbacks, Selection, candidate, candidates_of, build_candidates,
  is_expired, delete, remove, live, eligible, no_selection, mark_granted, grant, commit,
  select_eligible, select_live, select_waiting, select_and_dequeue,
}
use whooshd.Queue.Entries.{IsOnce, find_own, by_id_own, remove_found}
use whooshd.Scheduler.{Scheduler, SchedulerCandidate, choose_next, oldest_from}
use whooshd.Scheduler.Choice.{choose_next_cold, oldest_from-In, oldest_from-le}

candidates_of-In :
    (s : Scheduler) (es : List QueueEntry) {c : SchedulerCandidate}
    → In c (candidates_of s es)
    → (e : QueueEntry) × In e es × (c ≡ candidate s e)
unfolding candidates_of
candidates_of-In s [] h = absurd h
candidates_of-In s (e ∷ es) (inl h) = (e, inl refl, h)
candidates_of-In s (e ∷ es) (inr m) =
    let (d, there, h) = candidates_of-In s es m in (d, inr there, h)

In-candidates_of :
    (s : Scheduler) (es : List QueueEntry) (e : QueueEntry)
    → In e es
    → In (candidate s e) (candidates_of s es)
unfolding candidates_of
In-candidates_of s [] e m = absurd m
In-candidates_of s (d ∷ es) e (inl h) = inl (ap (candidate s) h)
In-candidates_of s (d ∷ es) e (inr m) = inr (In-candidates_of s es e m)

candidates_of-cold :
    (s : Scheduler) (es : List QueueEntry)
    → All (λ c. c.threadwake_cache_ready ≡ false) (candidates_of s es)
unfolding candidates_of
candidates_of-cold s [] = tt
candidates_of-cold s (e ∷ es) = (refl, candidates_of-cold s es)

module _ {W : Type 0} (cfg : Config) (cb : Callbacks W) (now : ℕ) (q : RequestQueue) (w : W) where
  -- The selection left the queue and the caller's state as they were.
  pub record IsIdle (r : Selection W) : Type 0 where
    pub selects_none : r.selected ≡ none
    pub entries_kept : r.queue.entries ≡ q.entries
    pub granted_kept : r.queue.granted ≡ q.granted
    pub world_kept : r.world ≡ w

  -- The entry may be granted a slot now.
  pub record MayRun (e : QueueEntry) : Type 0 where
    pub queued : In e q.entries
    pub unexpired : is_expired now e ≡ false
    pub lane_fits : cb.entry_eligible w e ≡ true

  -- The selection granted `e` a slot: it left the queue, it is marked, and its slot is reserved.
  pub record IsGrantOf (e : QueueEntry) (r : Selection W) : Type 0 where
    pub selects_it : r.selected ≡ some e
    pub may_run : MayRun e
    pub capacity : cb.capacity_available w ≡ true
    pub entries_less : r.queue.entries ≡ delete e.request_id q.entries
    pub granted_more : r.queue.granted ≡ e.request_id ∷ q.granted
    pub world_reserved : r.world ≡ cb.reserve w e

  no_selection-IsIdle : (cs : List SchedulerCandidate) → IsIdle (no_selection cfg cb q w cs)
  no_selection-IsIdle cs = record {
    selects_none = refl;
    entries_kept = refl;
    granted_kept = refl;
    world_kept = refl;
  }

  grant-remove :
      (s : Scheduler) (e : QueueEntry)
      → IsOnce q.entries
      → cb.capacity_available w ≡ true
      → MayRun e
      → IsGrantOf e (grant cfg cb w (remove (record q { scheduler = s }) e.request_id))
  unfolding grant mark_granted
  grant-remove s e u c m =
      subst (λ x. IsGrantOf e (grant cfg cb w x))
        (sym (
          remove_found (record q { scheduler = s }) e.request_id (find_own e q.entries u m.queued)))
        (record {
          selects_it = refl;
          may_run = m;
          capacity = c;
          entries_less = refl;
          granted_more = refl;
          world_reserved = refl;
        })

  abbrev ready_now : List SchedulerCandidate
  ready_now =
      keep (eligible (cb.entry_eligible w) q.entries)
        (keep (live now q.entries) (build_candidates q))

  -- The candidates that may be granted a slot are entries that may.
  candidate-MayRun :
      {c : SchedulerCandidate}
      → IsOnce q.entries
      → In c ready_now
      → (e : QueueEntry) × MayRun e × (c ≡ candidate q.scheduler e)
  unfolding build_candidates eligible live
  candidate-MayRun {c} u m =
      let (m', fits) = In-keep (eligible (cb.entry_eligible w) q.entries) _ m in
      let (m'', alive) = In-keep (live now q.entries) _ m' in
      let (e, there, h) = candidates_of-In q.scheduler q.entries m'' in
      let own = by_id_own e q.entries u there in
      let id : c.request_id ≡ e.request_id = ap (λ x. x.request_id) h in
      (
        e,
        record {
          queued = there;
          unexpired = ground (arith, rw (id, own) at alive);
          lane_fits = rw (id, own) at fits;
        },
        h,
      )

  MayRun-candidate :
      (e : QueueEntry) → IsOnce q.entries → MayRun e → In (candidate q.scheduler e) ready_now
  unfolding build_candidates eligible live
  MayRun-candidate e u m =
      let own = by_id_own e q.entries u m.queued in
      keep-In _ _
        (keep-In _ _ (In-candidates_of q.scheduler q.entries e m.queued)
          (rw own (rw (m.unexpired))))
        (rw own (m.lane_fits))

  cold : All (λ c. c.threadwake_cache_ready ≡ false) ready_now
  unfolding build_candidates
  cold = All-keep _ _ _ (All-keep _ _ _ (candidates_of-cold q.scheduler q.entries))

  -- The selection granted a slot to the oldest of the entries that may run.
  abbrev pub Granted : Selection W → Type 0
  Granted r =
      (e : QueueEntry) × IsGrantOf e r
      × ((d : QueueEntry) → MayRun d → e.enqueued_at ≤ d.enqueued_at)

  commit-Granted :
      (c : SchedulerCandidate) (cs : List SchedulerCandidate)
      → IsOnce q.entries
      → cb.capacity_available w ≡ true
      → ready_now ≡ c ∷ cs
      → Granted (commit cfg cb q w (choose_next cfg q.scheduler (c ∷ cs) true))
  unfolding commit
  commit-Granted c cs u room k =
      let o = oldest_from c cs in
      let (e, m, own) = candidate-MayRun u (subst (λ l. In o l) (sym k) (oldest_from-In c cs)) in
      let h =
        choose_next_cold cfg q.scheduler c cs
          (subst (λ l. All (λ d. d.threadwake_cache_ready ≡ false) l) k cold) in
      let id : o.request_id ≡ e.request_id = ap (λ x. x.request_id) own in
      (
        e,
        rw (h, commit, id) (grant-remove (choose_next cfg q.scheduler (c ∷ cs) true).0 e u room m),
        λ d may.
            let there : In (candidate q.scheduler d) (c ∷ cs) =
              subst (λ l. In (candidate q.scheduler d) l) k (MayRun-candidate d u may) in
            let le = In-All (λ x. o.queued_at ≤ x.queued_at) (c ∷ cs) there (oldest_from-le c cs) in
            let at : o.queued_at ≡ e.enqueued_at = ap (λ x. x.queued_at) own in
            omega (arith, le, at),
      )

  none_ready : IsOnce q.entries → ready_now ≡ [] → (d : QueueEntry) → ¬ MayRun d
  none_ready u h d may =
      let there : In (candidate q.scheduler d) [] =
        subst (λ l. In (candidate q.scheduler d) l) h (MayRun-candidate d u may) in
      absurd there

  select_eligible-cases :
      (waiting ks : List SchedulerCandidate)
      → IsOnce q.entries
      → cb.capacity_available w ≡ true
      → ks ≡ ready_now
      → (IsIdle (select_eligible cfg cb q w waiting ks) × (ready_now ≡ []))
        ⊎ Granted (select_eligible cfg cb q w waiting ks)
  unfolding select_eligible
  select_eligible-cases waiting [] u room h = inl (no_selection-IsIdle waiting, sym h)
  select_eligible-cases waiting (c ∷ cs) u room h = inr (commit-Granted c cs u room (sym h))

  select_live-cases :
      (waiting ls : List SchedulerCandidate)
      → IsOnce q.entries
      → cb.capacity_available w ≡ true
      → ls ≡ keep (live now q.entries) (build_candidates q)
      → (IsIdle (select_live cfg cb q w waiting ls) × (ready_now ≡ []))
        ⊎ Granted (select_live cfg cb q w waiting ls)
  unfolding select_live keep
  select_live-cases waiting [] u room h =
      inl
        (no_selection-IsIdle waiting, sym (ap (keep (eligible (cb.entry_eligible w) q.entries)) h))
  select_live-cases waiting (c ∷ cs) u room h =
      select_eligible-cases (c ∷ cs) (keep (eligible (cb.entry_eligible w) q.entries) (c ∷ cs)) u
        room (ap (keep (eligible (cb.entry_eligible w) q.entries)) h)

  IsIdle-entries : IsIdle (record { queue = q; world = w; selected = none })
  IsIdle-entries = record {
    selects_none = refl;
    entries_kept = refl;
    granted_kept = refl;
    world_kept = refl;
  }

  select_waiting-cases :
      (cs : List SchedulerCandidate)
      → IsOnce q.entries
      → cs ≡ build_candidates q
      → (IsIdle (select_waiting cfg cb now q w cs)
          × ((cb.capacity_available w ≡ false) ⊎ (ready_now ≡ [])))
        ⊎ Granted (select_waiting cfg cb now q w cs)
  unfolding select_waiting keep
  select_waiting-cases [] u h = inl (
    IsIdle-entries,
    inr (
        sym (
          ap (λ l. keep (eligible (cb.entry_eligible w) q.entries) (keep (live now q.entries) l))
            h)),
  )
  select_waiting-cases (c ∷ cs) u h = elim (Bool-cases (cb.capacity_available w)) [
    | inr f ↦ rw f (inl (no_selection-IsIdle (c ∷ cs), inl refl))
    | inl t ↦
        elim (select_live-cases (c ∷ cs) (keep (live now q.entries) (c ∷ cs)) u t
          (ap (keep (live now q.entries)) h)) [
            | inl (idle, e) ↦ rw t (inl (idle, inr e))
            | inr granted ↦ rw t (inr granted)
          ]
  ]

  -- In a queue that lists no request twice, a selection either grants a slot to the oldest of the
  -- unexpired entries whose own lane has room, under either policy, or it changes nothing; and it
  -- changes nothing only if no capacity is available or no entry may run. A granted entry has left
  -- the queue, is marked, and its slot is reserved.
  pub select_and_dequeue_cases :
      IsOnce q.entries
      → (IsIdle (select_and_dequeue cfg cb now q w)
          × ((cb.capacity_available w ≡ false) ⊎ ((d : QueueEntry) → ¬ MayRun d)))
        ⊎ Granted (select_and_dequeue cfg cb now q w)
  unfolding select_and_dequeue
  select_and_dequeue_cases u = elim (select_waiting-cases (build_candidates q) u refl) [
    | inr granted ↦ inr granted
    | inl (idle, inl f) ↦ inl (idle, inl f)
    | inl (idle, inr e) ↦ inl (idle, inr (none_ready u e))
  ]
