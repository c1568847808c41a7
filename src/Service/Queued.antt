-- ===== src/Service/Queued.antt =====
-- app.py: two runs of a queued request, its start and its cancellation.
use whooshd.Admission.{active_capacity_available}
use whooshd.Base.{
  ℕ, ◌≡◌, ◌+◌, refl, sym, subst, inl, inr, String, true, false, Option, none, some, [], ◌∷◌, arith,
  In, lookup, lookup-insert_self, same_refl,
}
use whooshd.Capacity.Controller.{Host}
use whooshd.Capacity.Profile.{CapacityProfile}
use whooshd.Config.{Config}
use whooshd.Queue.{
  QueueEntry, RequestQueue, returned, is_expired, is_granted, wait_round, after_select,
  select_and_dequeue, at_front,
}
use whooshd.Queue.Entries.{IsOnce}
use whooshd.Queue.Grants.{select_and_dequeue_cases}
use whooshd.Runtime.{
  RuntimeState, RequestRecord, queued, cancelled, is_terminal, request_cancellation, cancel_request,
  record_queue_cancelled, update_record, count_known, release_capacity,
}
use whooshd.Service.{callbacks, cancel, refused, is_cancelled}

module _ (cfg : Config) (host : Host) (profile : Option CapacityProfile) (now : ℕ) (e : QueueEntry)
    (q : RequestQueue) (rt : RuntimeState) where
  lone_selected :
      q.entries ≡ e ∷ []
      → is_expired now e ≡ false
      → active_capacity_available cfg host profile rt none none ≡ true
      → active_capacity_available cfg host profile rt e.lane e.lane_max_concurrent ≡ true
      → (select_and_dequeue cfg (callbacks cfg host profile) now q rt).selected ≡ some e
  unfolding callbacks
  lone_selected alone alive free lane =
      let once : IsOnce q.entries = subst IsOnce (sym alone) (tt, tt) in
      let there : In e q.entries = subst (λ l. In e l) (sym alone) (inl refl) in
      elim (select_and_dequeue_cases cfg (callbacks cfg host profile) now q rt once) [
        | inl (_, inl full) ↦ absurd (cc)
        | inl (_, inr stuck) ↦
            absurd (stuck e (record { queued = there; unexpired = alive; lane_fits = lane }))
        | inr (g, by, _) ↦
            let m : In g (e ∷ []) = subst (λ l. In g l) alone by.may_run.queued in
            elim m [
              | inl h ↦
                  subst
                    (λ x.
                      (select_and_dequeue cfg (callbacks cfg host profile) now q rt).selected
                      ≡ some x)
                    h by.selects_it
              | inr no_more ↦ absurd no_more
            ]
      ]

  -- A request that waits alone, unexpired and not cancelled, starts in its first round if a slot is
  -- free in general and in its lane, whatever the memory pressure.
  pub lone_waiter_runs :
      q.entries ≡ e ∷ []
      → is_granted q e.request_id ≡ false
      → is_expired now e ≡ false
      → active_capacity_available cfg host profile rt none none ≡ true
      → active_capacity_available cfg host profile rt e.lane e.lane_max_concurrent ≡ true
      → (wait_round cfg (callbacks cfg host profile) now e false q rt).poll ≡ returned true
  unfolding wait_round after_select callbacks
  lone_waiter_runs alone not_yet alive free lane =
      let front : at_front e.request_id q ≡ true = rw (alone, same_refl e.request_id) in
      rw (
        wait_round,
        not_yet,
        front,
        free,
        after_select,
        lone_selected alone alive free lane,
        same_refl e.request_id,
      )

abbrev cancelled_record : RequestRecord → ℕ → RequestRecord
cancelled_record r now = record r { status = cancelled; ended_at = some now }

cancel_request_counts :
    (rt : RuntimeState) (rid : String) (now : ℕ) {r : RequestRecord}
    → lookup rid rt.requests ≡ some r
    → (lookup rid (cancel_request rt rid now).requests ≡ some (cancelled_record r now))
      × ((cancel_request rt rid now).totals.cancelled ≡ rt.totals.cancelled + 1)
unfolding cancel_request update_record count_known release_capacity
cancel_request_counts rt rid now {r} h =
    let own =
      lookup-insert_self rid (record r { status = cancelled; ended_at = some now }) rt.requests in
    (ground (arith, own), ground (arith, own))

signalled :
    (rt : RuntimeState) (rid : String) {r : RequestRecord}
    → lookup rid rt.requests ≡ some r
    → r.status ≡ queued
    → ((request_cancellation rt rid).1 ≡ true)
      × (lookup rid (request_cancellation rt rid).0.requests
          ≡ some (record r { cancel_requested = true; cancel_token = true }))
      × ((request_cancellation rt rid).0.totals.cancelled ≡ rt.totals.cancelled)
unfolding request_cancellation
signalled rt rid {r} h s =
    let own =
      lookup-insert_self rid (record r { cancel_requested = true; cancel_token = true })
        rt.requests in
    let runs : is_terminal r.status ≡ false = rw s refl in
    (
      rw (h, request_cancellation, runs),
      rw (h, request_cancellation, runs) own,
      rw (h, request_cancellation, runs),
    )

-- A queued request that the endpoint cancels is counted twice: once by the endpoint, and once more
-- when its own caller learns of it.
pub cancel_twice :
    (rt : RuntimeState) (rid : String) (now later : ℕ) {r : RequestRecord}
    → lookup rid rt.requests ≡ some r
    → r.status ≡ queued
    → (refused later rid (cancel now rid rt)).totals.cancelled ≡ rt.totals.cancelled + 2
unfolding cancel refused is_cancelled record_queue_cancelled
cancel_twice rt rid now later {r} h s =
    let (sent, own, total) = signalled rt rid h s in
    let rt' = (request_cancellation rt rid).0 in
    let (ended, first) = cancel_request_counts rt' rid now own in
    let rt'' = cancel_request rt' rid now in
    let runs : is_terminal r.status ≡ false = rw s refl in
    let cancelled_now : cancel now rid rt ≡ rt'' = rw (h, cancel, runs, sent) in
    let (_, second) = cancel_request_counts rt'' rid later ended in
    let token : is_cancelled rt'' rid ≡ true = rw (is_cancelled, ended) in
    rw (cancelled_now, refused, token) (omega (arith, total, first, second))
