-- ===== src/Runtime/Slots.antt =====
-- runtime/__init__.py: how each operation changes the number of execution slots in use.
use whooshd.Base.{
  ℕ, ◌+◌, ◌≡◌, refl, ap, ◌∙◌, inl, inr, String, true, false, Option, none, some, arith, not, one_if,
  Option-cases, lookup, has_key, lookup-insert_self, count-insert_old, length-insert, length-erase,
}
use whooshd.Runtime.{
  RuntimeState, RequestRecord, Counters, RequestLifecycleState, accepted, running, streaming,
  is_active, is_terminal, can_start, completes, record_active, active_jobs, reserve_capacity,
  release_capacity, update_record, count_known, mark_running, mark_streaming, mark_timed_out,
  complete_request, cancel_request, fail_request, request_cancellation,
}

-- The slots that one request holds: its active record's and its reservation's.
abbrev pub record_slot : Option RequestRecord → ℕ
record_slot none = 0
record_slot (some r) = one_if (is_active r.status)

unfoldable pub slots_held : RuntimeState → String → ℕ
slots_held rt rid = record_slot (lookup rid rt.requests) + one_if (has_key rid rt.reservations)

update_record-active :
    (f : RequestRecord → RequestRecord) (rid : String) (rt : RuntimeState)
    → active_jobs (update_record f rid rt) + record_slot (lookup rid rt.requests)
      ≡ active_jobs rt + record_slot (lookup rid (update_record f rid rt).requests)
unfolding active_jobs update_record
update_record-active f rid rt = elim (Option-cases (lookup rid rt.requests)) [
  | inl e ↦ ground arith
  | inr (r, e) ↦ ground (
    arith,
    count-insert_old record_active rid (f r) rt.requests e,
    lookup-insert_self rid (f r) rt.requests,
  )
]

release_capacity-active :
    (rt : RuntimeState) (rid : String)
    → active_jobs (release_capacity rt rid) + one_if (has_key rid rt.reservations) ≡ active_jobs rt
unfolding active_jobs release_capacity
release_capacity-active rt rid = omega (arith, length-erase rid rt.reservations)

-- A record that is written with an inactive status, and the release of its reservation.
module _ (f : RequestRecord → RequestRecord)
    (ends : (r : RequestRecord) → is_active (f r).status ≡ false) (rid : String) where
  update_record-inactive :
      (rt : RuntimeState)
      → active_jobs (update_record f rid rt) + record_slot (lookup rid rt.requests) ≡ active_jobs rt
  unfolding active_jobs update_record
  update_record-inactive rt = elim (Option-cases (lookup rid rt.requests)) [
    | inl e ↦ ground arith
    | inr (r, e) ↦ ground (arith, ends r, count-insert_old record_active rid (f r) rt.requests e)
  ]

  update_record-reservations :
      (rt : RuntimeState) → (update_record f rid rt).reservations ≡ rt.reservations
  unfolding update_record
  update_record-reservations rt = ground arith

  count_known-active :
      (g : Counters → Counters) (rt : RuntimeState)
      → (active_jobs (count_known g rid rt) ≡ active_jobs rt)
        × ((count_known g rid rt).reservations ≡ rt.reservations)
  unfolding count_known active_jobs
  count_known-active g rt = ground arith

  release-update :
      (rt : RuntimeState)
      → active_jobs (release_capacity (update_record f rid rt) rid) + slots_held rt rid
        ≡ active_jobs rt
  unfolding slots_held
  release-update rt = omega (
    arith,
    release_capacity-active (update_record f rid rt) rid,
    update_record-inactive rt,
    ap (λ d. one_if (has_key rid d)) (update_record-reservations rt),
  )

  release-count-update :
      (g : Counters → Counters) (rt : RuntimeState)
      → active_jobs (release_capacity (count_known g rid (update_record f rid rt)) rid)
          + slots_held rt rid
        ≡ active_jobs rt
  unfolding slots_held
  release-count-update g rt = omega (
    arith,
    release_capacity-active (count_known g rid (update_record f rid rt)) rid,
    count_known-active g (update_record f rid rt),
    update_record-inactive rt,
    ap (λ d. one_if (has_key rid d))
        ((count_known-active g (update_record f rid rt)).1 ∙ update_record-reservations rt),
  )

completes_inactive : (s : RequestLifecycleState) → completes s ≡ false → is_active s ≡ false
completes_inactive accepted h = cc
completes_inactive running h = cc
completes_inactive streaming h = cc
completes_inactive _ h = refl

-- Ending a request gives back exactly the slots that it held, whichever way it ends and whatever
-- its state.
pub finish_frees :
    (rt : RuntimeState) (rid : String) (code : Option String) (now : ℕ)
    → (active_jobs (complete_request rt rid now) + slots_held rt rid ≡ active_jobs rt)
      × (active_jobs (cancel_request rt rid now) + slots_held rt rid ≡ active_jobs rt)
      × (active_jobs (fail_request rt rid code now) + slots_held rt rid ≡ active_jobs rt)
      × (active_jobs (mark_timed_out rt rid now) + slots_held rt rid ≡ active_jobs rt)
unfolding complete_request cancel_request fail_request mark_timed_out
finish_frees rt rid code now = (
  release-update _ (λ r. ground (arith, completes_inactive r.status)) rid rt,
  release-count-update _ (λ r. refl) rid (λ t. record t { cancelled = t.cancelled + 1 }) rt,
  release-update _ (λ r. refl) rid rt,
  release-count-update _ (λ r. refl) rid (λ t. record t { queue_timeout = t.queue_timeout + 1 }) rt,
)

-- A known request that may start holds one slot when it has started, running or streaming, in
-- place of those that it held.
pub start_as-active :
    (rt : RuntimeState) (rid : String) {r : RequestRecord}
    → lookup rid rt.requests ≡ some r
    → can_start r.status ≡ true
    → (active_jobs (mark_running rt rid) + slots_held rt rid ≡ active_jobs rt + 1)
      × (active_jobs (mark_streaming rt rid) + slots_held rt rid ≡ active_jobs rt + 1)
unfolding mark_running mark_streaming active_jobs slots_held
start_as-active rt rid {r} e c = (
  ground (
    arith,
    count-insert_old record_active rid (record r { status = running }) rt.requests e,
    length-erase rid rt.reservations,
  ),
  ground (
    arith,
    count-insert_old record_active rid (record r { status = streaming }) rt.requests e,
    length-erase rid rt.reservations,
  ),
)

-- A reservation takes one slot, and is made once.
pub reserve_capacity-active :
    (rt : RuntimeState) (rid : String) (lane : Option String)
    → (active_jobs (reserve_capacity rt rid lane).0
        ≡ active_jobs rt + one_if (reserve_capacity rt rid lane).1)
      × ((reserve_capacity rt rid lane).1 ≡ not (has_key rid rt.reservations))
      × ((reserve_capacity (reserve_capacity rt rid lane).0 rid lane).1 ≡ false)
unfolding reserve_capacity active_jobs
reserve_capacity-active rt rid lane = (
  ground (arith, length-insert rid lane rt.reservations),
  ground arith,
  ground (arith, lookup-insert_self rid lane rt.reservations),
)

-- Signalling a cancellation succeeds exactly for a known request that has not ended, and leaves
-- every count of slots as it was.
pub request_cancellation-active :
    (rt : RuntimeState) (rid : String)
    → (active_jobs (request_cancellation rt rid).0 ≡ active_jobs rt)
      × ((request_cancellation rt rid).1
          ≡ (elim (lookup rid rt.requests) [ none ↦ false | some r ↦ not (is_terminal r.status) ]))
unfolding request_cancellation active_jobs
request_cancellation-active rt rid = elim (Option-cases (lookup rid rt.requests)) [
  | inl e ↦ ground arith
  | inr (r, e) ↦ (
    ground (
      arith,
      count-insert_old record_active rid (record r { cancel_requested = true; cancel_token = true })
          rt.requests e,
    ),
    ground arith,
  )
]
