-- ===== src/Queue/Rounds.antt =====
-- queue.py: what a round of `wait_for_execution` may change for everybody.
use whooshd.Base.{
  same, ◌∙◌, ℕ, ◌≡◌, refl, sym, subst, ◌⊎◌, inl, inr, Bool, true, false, ◌∷◌, In, branches,
  if◌then◌else◌,
}
use whooshd.Config.{Config}
use whooshd.Queue.{
  QueueEntry, RequestQueue, Callbacks, Round, Poll, returned, deferred, waiting, is_expired, listed,
  is_granted, remove, select_and_dequeue, after_select, wait_round, selects, at_front,
}
use whooshd.Queue.Entries.{
  remove-In_ne, remove-find_ne, IsOnce, remove-IsOnce, remove-granted, remove-fewer, delete-fewer,
}
use whooshd.Queue.Grants.{select_and_dequeue_cases}
use whooshd.Queue.Waiting.{Stands, select_and_dequeue-Stands, select-IsOnce}

-- What any round does to the caller's state and to the grants: nothing, or one grant.
abbrev pub Effect : {W : Type 0} → Callbacks W → RequestQueue → W → Round W → Type 0
Effect cb q w r =
    ((r.world ≡ w) × (r.queue.granted ≡ q.granted))
    ⊎ ((g : QueueEntry) × In g q.entries
        × (cb.capacity_available w ≡ true)
        × (cb.entry_eligible w g ≡ true)
        × (r.world ≡ cb.reserve w g)
        × (r.queue.granted ≡ g.request_id ∷ q.granted))

-- No round adds an entry.
abbrev pub Shrinks : {W : Type 0} → RequestQueue → Round W → Type 0
Shrinks q r = IsOnce r.queue.entries × ((d : QueueEntry) → In d r.queue.entries → In d q.entries)

abbrev pub Acts : {W : Type 0} → Callbacks W → RequestQueue → W → Round W → Type 0
Acts cb q w r = Effect cb q w r × Shrinks q r

module _ {W : Type 0} (cfg : Config) (cb : Callbacks W) (now : ℕ) (e : QueueEntry)
    (q : RequestQueue) (w : W) (u : IsOnce q.entries) where
  nothing : (p : Poll) → Acts cb q w (record { queue = q; world = w; poll = p })
  nothing p = (inl (refl, refl), (u, λ d m. m))

  -- An entry that leaves takes no part in what else the round did.
  leaves :
      (p : Poll) (q' : RequestQueue) (w' : W)
      → Acts cb q w (record { queue = q'; world = w'; poll = p })
      → Acts cb q w
          (record { queue = (remove q' e.request_id).0; world = w'; poll = returned false })
  leaves p q' w' (did, (once, fewer)) = (
    subst
        (λ l.
          ((w' ≡ w) × (l ≡ q.granted))
          ⊎ ((g : QueueEntry) × In g q.entries
              × (cb.capacity_available w ≡ true)
              × (cb.entry_eligible w g ≡ true)
              × (w' ≡ cb.reserve w g)
              × (l ≡ g.request_id ∷ q.granted)))
        (sym (remove-granted q' e.request_id)) did,
    (remove-IsOnce q' e.request_id once, λ d m. fewer d (remove-fewer q' e.request_id d m)),
  )

  selects_one :
      (p : Poll)
      → Acts cb q w (record {
        queue = (select_and_dequeue cfg cb now q w).queue;
        world = (select_and_dequeue cfg cb now q w).world;
        poll = p;
      })
  selects_one p = (
    elim (select_and_dequeue_cases cfg cb now q w u) [
      | inl (idle, _) ↦ inl (idle.world_kept, idle.granted_kept)
      | inr (g, by, _) ↦ inr (
        g, by.may_run.queued, by.capacity, by.may_run.lane_fits, by.world_reserved, by.granted_more,
      )
    ],
    (
      select-IsOnce cfg cb now q w u,
      λ d m. elim (select_and_dequeue_cases cfg cb now q w u) [
        | inl (idle, _) ↦ rw (idle.entries_kept) at m
        | inr (g, by, _) ↦ delete-fewer g.request_id d q.entries (rw (by.entries_less) at m)
      ],
    ),
  )

  after_select-Acts : Acts cb q w (after_select cfg cb now e (select_and_dequeue cfg cb now q w))
  unfolding after_select
  after_select-Acts =
      let r = select_and_dequeue cfg cb now q w in
      branches (Acts cb q w) (selects e.request_id r.selected) _ _
        (λ t. selects_one (returned true))
        (λ f.
          branches (Acts cb q w) (is_expired now e) _ _
            (λ late. leaves (returned true) r.queue r.world (selects_one (returned true)))
            (λ early. selects_one deferred))

  left_alone : Acts cb q w (
      if is_expired now e
      then record { queue = (remove q e.request_id).0; world = w; poll = returned false }
      else record { queue = q; world = w; poll = waiting })
  left_alone =
      branches (Acts cb q w) (is_expired now e) _ _ (λ t. leaves waiting q w (nothing waiting))
        (λ f. nothing waiting)

  -- In a queue that lists no request twice, a round, for whichever request, leaves the caller's
  -- state and the grants as they were, or it grants a slot to one queued entry, with capacity to
  -- spare in general and for its lane. It adds no entry to the queue and lists none twice.
  pub wait_round-Acts : (cancelled : Bool) → Acts cb q w (wait_round cfg cb now e cancelled q w)
  unfolding wait_round
  wait_round-Acts cancelled =
      branches (Acts cb q w) cancelled _ _ (λ t. leaves waiting q w (nothing waiting))
        (λ f.
          branches (Acts cb q w) (is_granted q e.request_id) _ _
            (λ given.
              branches (Acts cb q w) (is_expired now e) _ _
                (λ late. leaves waiting q w (nothing waiting)) (λ early. nothing (returned true)))
            (λ not_yet.
              branches (Acts cb q w) (at_front e.request_id q) _ _
                (λ front.
                  branches (Acts cb q w) (cb.capacity_available w) _ _ (λ free. after_select-Acts)
                    (λ full. left_alone))
                (λ behind. left_alone)))

abbrev StandsAfter : {W : Type 0} → QueueEntry → Round W → Type 0
StandsAfter d r = Stands r.queue d

module _ {W : Type 0} (cfg : Config) (cb : Callbacks W) (now : ℕ) (e d : QueueEntry)
    (other : same d.request_id e.request_id ≡ false) where
  leave-Stands : (q : RequestQueue) → Stands q d → Stands (remove q e.request_id).0 d
  unfolding is_granted
  leave-Stands q (inl (m, n)) = inl (
    remove-In_ne q e.request_id d m other,
    subst (λ l. listed d.request_id l ≡ false) (sym (remove-granted q e.request_id)) n,
  )
  leave-Stands q (inr (gone, given)) = inr (
    remove-find_ne q d.request_id e.request_id other ∙ gone,
    subst (λ l. listed d.request_id l ≡ true) (sym (remove-granted q e.request_id)) given,
  )

  stays-Stands :
      (p : Poll) (q : RequestQueue) (w : W)
      → Stands q d
      → StandsAfter d (
          if is_expired now e
          then record { queue = (remove q e.request_id).0; world = w; poll = returned false }
          else record { queue = q; world = w; poll = p })
  stays-Stands p q w s =
      branches (StandsAfter d) (is_expired now e) _ _ (λ _. leave-Stands q s) (λ _. s)

  -- A round that is made for one request loses no other: in a queue that lists no request twice, a
  -- request that waits goes on waiting or is handed over, and one that has been handed over stays
  -- so.
  pub wait_round-Stands :
      (cancelled : Bool) (q : RequestQueue) (w : W)
      → IsOnce q.entries
      → Stands q d
      → Stands (wait_round cfg cb now e cancelled q w).queue d
  unfolding wait_round after_select
  wait_round-Stands cancelled q w u s =
      let chosen = select_and_dequeue cfg cb now q w in
      let after = select_and_dequeue-Stands cfg cb now q w d u s in
      branches (StandsAfter d) cancelled _ _ (λ _. leave-Stands q s)
        (λ _.
          branches (StandsAfter d) (is_granted q e.request_id) _ _
            (λ _. branches (StandsAfter d) (is_expired now e) _ _ (λ _. leave-Stands q s) (λ _. s))
            (λ _.
              branches (StandsAfter d) (at_front e.request_id q) _ _
                (λ _.
                  branches (StandsAfter d) (cb.capacity_available w) _ _
                    (λ _.
                      branches (StandsAfter d) (selects e.request_id chosen.selected) _ _
                        (λ _. after) (λ _. stays-Stands deferred chosen.queue chosen.world after))
                    (λ _. stays-Stands waiting q w s))
                (λ _. stays-Stands waiting q w s)))
