-- ===== src/Queue/Waiting.antt =====
-- queue.py: what a round of `wait_for_execution` does to the request that waits and to the others.
use whooshd.Base.{
  same_sym, ℕ, ◌≡◌, refl, subst, ◌⊎◌, inl, inr, Bool, true, false, none, arith, In, same, same→eq,
  Bool-cases, branches, if◌then◌else◌,
}
use whooshd.Config.{Config}
use whooshd.Queue.{
  QueueEntry, RequestQueue, Callbacks, Selection, Round, Poll, returned, deferred, waiting,
  is_expired, is_granted, listed, find, remove, select_and_dequeue, after_select, wait_round,
  selects, at_front,
}
use whooshd.Queue.Entries.{
  IsOnce, find-delete_self, find-delete_ne, In-delete_ne, same_entry, delete-IsOnce, remove_gone,
}
use whooshd.Queue.Grants.{IsGrantOf, select_and_dequeue_cases}

-- The request waits in the queue, and has not been granted a slot.
abbrev pub IsWaiting : RequestQueue → QueueEntry → Type 0
IsWaiting q e = In e q.entries × (is_granted q e.request_id ≡ false)

-- The request has been granted a slot, and has left the queue.
abbrev pub IsHandedOver : RequestQueue → QueueEntry → Type 0
IsHandedOver q e = (find e.request_id q.entries ≡ none) × (is_granted q e.request_id ≡ true)

abbrev pub Stands : RequestQueue → QueueEntry → Type 0
Stands q e = IsWaiting q e ⊎ IsHandedOver q e

module _ {W : Type 0} (cfg : Config) (cb : Callbacks W) (now : ℕ) (q : RequestQueue) (w : W) where
  pub select-IsOnce : IsOnce q.entries → IsOnce (select_and_dequeue cfg cb now q w).queue.entries
  select-IsOnce u = elim (select_and_dequeue_cases cfg cb now q w u) [
    | inl (idle, _) ↦ rw (idle.entries_kept) u
    | inr (g, by, _) ↦ rw (by.entries_less) (delete-IsOnce g.request_id q.entries u)
  ]

  module _ (e : QueueEntry) where
    granted_it :
        {g : QueueEntry} {r : Selection W}
        → IsOnce q.entries
        → IsGrantOf cfg cb now q w g r
        → same g.request_id e.request_id ≡ true
        → IsHandedOver r.queue e
    unfolding is_granted listed
    granted_it {g} u by t =
        let id = same→eq g.request_id e.request_id t in
        (
          rw (by.entries_less, id) (find-delete_self e.request_id q.entries u),
          rw (by.granted_more, listed, t),
        )

    granted_other :
        {g : QueueEntry} {r : Selection W}
        → IsGrantOf cfg cb now q w g r
        → same g.request_id e.request_id ≡ false
        → Stands q e
        → Stands r.queue e
    unfolding is_granted listed
    granted_other {g} by f (inl (m, not_yet)) = inl (
      rw (by.entries_less) (
          In-delete_ne g.request_id e q.entries m
            (ground (arith, same_sym e.request_id g.request_id))),
      rw (by.granted_more, listed, f) not_yet,
    )
    granted_other {g} by f (inr (gone, given)) = inr (
      rw
          (
            by.entries_less,
            find-delete_ne e.request_id g.request_id q.entries
                (ground (arith, same_sym e.request_id g.request_id)),
          )
          gone,
      rw (by.granted_more, listed, f) given,
    )

    -- A selection, whoever makes it, loses no request: one that waits goes on waiting or is handed
    -- over, and one that has been handed over stays so.
    pub select_and_dequeue-Stands :
        IsOnce q.entries → Stands q e → Stands (select_and_dequeue cfg cb now q w).queue e
    unfolding is_granted
    select_and_dequeue-Stands u s = elim (select_and_dequeue_cases cfg cb now q w u) [
      | inl (idle, _) ↦ rw (idle.entries_kept, idle.granted_kept) s
      | inr (g, by, _) ↦ elim (Bool-cases (same g.request_id e.request_id)) [
        | inl t ↦ inr (granted_it u by t)
        | inr f ↦ granted_other by f s
      ]
    ]

    -- The selection made for `e` selects it, or leaves it waiting.
    select-own :
        IsOnce q.entries
        → IsWaiting q e
        → ((selects e.request_id (select_and_dequeue cfg cb now q w).selected ≡ true)
            × IsHandedOver (select_and_dequeue cfg cb now q w).queue e
            × (is_expired now e ≡ false))
          ⊎ ((selects e.request_id (select_and_dequeue cfg cb now q w).selected ≡ false)
              × IsWaiting (select_and_dequeue cfg cb now q w).queue e)
    unfolding is_granted listed
    select-own u s = elim (select_and_dequeue_cases cfg cb now q w u) [
      | inl (idle, _) ↦ inr (rw (idle.selects_none), rw (idle.entries_kept, idle.granted_kept) s)
      | inr (g, by, _) ↦ elim (Bool-cases (same g.request_id e.request_id)) [
        | inl t ↦
            let own = same_entry q.entries g e u by.may_run.queued s.0 t in
            inl (
              rw (by.selects_it, selects, t),
              granted_it u by t,
              subst (λ x. is_expired now x ≡ false) own by.may_run.unexpired,
            )
        | inr f ↦ inr (
          rw (by.selects_it, selects, f),
          (
            rw (by.entries_less) (
                In-delete_ne g.request_id e q.entries s.0
                  (ground (arith, same_sym e.request_id g.request_id))),
            rw (by.granted_more, listed, f) (s.1),
          ),
        )
      ]
    ]

-- How a round can end for the request that it is made for.
abbrev pub IsStarted : {W : Type 0} → ℕ → Bool → QueueEntry → Round W → Type 0
IsStarted now cancelled e r =
    (r.poll ≡ returned true)
    × IsHandedOver r.queue e
    × (is_expired now e ≡ false)
    × (cancelled ≡ false)

abbrev pub IsGivenUp : {W : Type 0} → ℕ → Bool → QueueEntry → Round W → Type 0
IsGivenUp now cancelled e r =
    (r.poll ≡ returned false)
    × (find e.request_id r.queue.entries ≡ none)
    × ((cancelled ≡ true) ⊎ (is_expired now e ≡ true))

abbrev pub IsKept : {W : Type 0} → ℕ → Bool → QueueEntry → Round W → Type 0
IsKept now cancelled e r =
    ((r.poll ≡ deferred) ⊎ (r.poll ≡ waiting))
    × IsWaiting r.queue e
    × (is_expired now e ≡ false)
    × (cancelled ≡ false)

abbrev pub Ends : {W : Type 0} → ℕ → Bool → QueueEntry → Round W → Type 0
Ends now cancelled e r =
    IsStarted now cancelled e r ⊎ (IsGivenUp now cancelled e r ⊎ IsKept now cancelled e r)

module _ {W : Type 0} (cfg : Config) (cb : Callbacks W) (now : ℕ) (e : QueueEntry) where
  left :
      (cancelled : Bool) (q : RequestQueue) (w : W)
      → IsOnce q.entries
      → (cancelled ≡ true) ⊎ (is_expired now e ≡ true)
      → Ends now cancelled e
          (record { queue = (remove q e.request_id).0; world = w; poll = returned false })
  left cancelled q w u why = inr (inl (refl, remove_gone q e.request_id u, why))

  stays :
      (p : Poll) (q : RequestQueue) (w : W)
      → (p ≡ deferred) ⊎ (p ≡ waiting)
      → IsOnce q.entries
      → IsWaiting q e
      → Ends now false e (
          if is_expired now e
          then record { queue = (remove q e.request_id).0; world = w; poll = returned false }
          else record { queue = q; world = w; poll = p })
  stays p q w which u s =
      branches (Ends now false e) (is_expired now e) _ _ (λ t. left false q w u (inr t))
        (λ f. inr (inr (which, s, f, refl)))

  after_select-Ends :
      (q : RequestQueue) (w : W)
      → IsOnce q.entries
      → IsWaiting q e
      → Ends now false e (after_select cfg cb now e (select_and_dequeue cfg cb now q w))
  unfolding after_select
  after_select-Ends q w u s =
      let r = select_and_dequeue cfg cb now q w in
      let own = select-own cfg cb now q w e u s in
      branches (Ends now false e) (selects e.request_id r.selected) _ _
        (λ t. elim own [
          | inl (_, over, alive) ↦ inl (refl, over, alive, refl)
          | inr (f, _) ↦ absurd (ground arith)
        ])
        (λ f. elim own [
          | inl (t, _, _) ↦ absurd (ground arith)
          | inr (_, still) ↦
              stays deferred r.queue r.world (inl refl) (select-IsOnce cfg cb now q w u) still
        ])

  uncancelled-Ends :
      (q : RequestQueue) (w : W)
      → IsOnce q.entries
      → Stands q e
      → Ends now false e (wait_round cfg cb now e false q w)
  unfolding wait_round
  uncancelled-Ends q w u s =
      branches (Ends now false e) (is_granted q e.request_id) _ _
        (λ given.
          branches (Ends now false e) (is_expired now e) _ _ (λ t. left false q w u (inr t))
            (λ f. elim s [
              | inl (_, not_yet) ↦ absurd (ground arith)
              | inr over ↦ inl (refl, over, f, refl)
            ]))
        (λ not_given. elim s [
          | inr (_, given) ↦ absurd (ground arith)
          | inl still ↦
              branches (Ends now false e) (at_front e.request_id q) _ _
                (λ t.
                  branches (Ends now false e) (cb.capacity_available w) _ _
                    (λ free. after_select-Ends q w u still)
                    (λ full. stays waiting q w (inr refl) u still))
                (λ f. stays waiting q w (inr refl) u still)
        ])

  -- In a queue that lists no request twice, a round for a request that waits there or has been
  -- handed over ends in one of three ways: the caller executes, and the request has been granted a
  -- slot, has left the queue, and is neither expired nor cancelled; or it does not, and the
  -- request has left the queue, cancelled or past its deadline; or it waits on, and the request is
  -- still queued, unexpired and not cancelled.
  pub wait_round-Ends :
      (cancelled : Bool) (q : RequestQueue) (w : W)
      → IsOnce q.entries
      → Stands q e
      → Ends now cancelled e (wait_round cfg cb now e cancelled q w)
  unfolding wait_round
  wait_round-Ends true q w u s = left true q w u (inl refl)
  wait_round-Ends false q w u s = uncancelled-Ends q w u s
