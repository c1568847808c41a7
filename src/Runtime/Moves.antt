-- ===== src/Runtime/Moves.antt =====
-- runtime/__init__.py: a queued request takes a slot when it is granted one, and keeps that slot
-- when it starts to run.
use whooshd.Base.{
  ◌+◌, ◌≤◌, ◌≡◌, refl, ◌∙◌, inl, inr, String, Bool, true, false, ◌&&◌, Option, none, some, [], ◌∷◌,
  arith, not, count, one_if, same, same_sym, Bool-cases, Option-cases, Dict, IsDict, lookup, insert,
  erase, has_key, lookup-insert, count-insert_old, lookup-insert_self, count-erase, length-erase,
  count-le-length, count_at, count_absent, lookup-erase_self, lookup-erase_ne,
}
use whooshd.Runtime.{
  RuntimeState, RequestRecord, queued, running, is_queued, record_active_in, reserved_in,
  record_waiting, record_active, active_jobs, active_jobs_for_lane, queue_depth, reserve_capacity,
  mark_running, mark_streaming, streaming, start_as, is_active, RequestLifecycleState,
}

module _ (res : Dict (Option String)) (rid : String) where
  waiting-insert :
      (lane : Option String) (j : String) (r : RequestRecord)
      → same j rid ≡ false
      → record_waiting (insert rid lane res) (j, r) ≡ record_waiting res (j, r)
  waiting-insert lane j r n = rw (lookup-insert rid j lane res) (ground (arith, same_sym rid j))

  waiting-erase :
      (j : String) (r : RequestRecord)
      → same j rid ≡ false
      → record_waiting (erase rid res) (j, r) ≡ record_waiting res (j, r)
  waiting-erase j r n = rw (lookup-erase_ne rid j res (same_sym rid j ∙ n))

-- The queue's view of a request: whether it waits there without a slot.
abbrev pub waits : RuntimeState → String → Bool
waits rt rid = elim (lookup rid rt.requests) [
  | none ↦ false
  | some r ↦ is_queued r.status && not (has_key rid rt.reservations)
]

-- A reservation takes its request out of the count of those that wait, if it is one of them, and
-- changes the count in no other way.
pub reserve_capacity-queue_depth :
    (rt : RuntimeState) (rid : String) (lane : Option String)
    → IsDict rt.requests
    → queue_depth (reserve_capacity rt rid lane).0 + one_if (waits rt rid) ≡ queue_depth rt
unfolding queue_depth reserve_capacity
reserve_capacity-queue_depth rt rid lane h = elim (Bool-cases (has_key rid rt.reservations)) [
  | inl t ↦ ground arith
  | inr f ↦
      let p = record_waiting (insert rid lane rt.reservations) in
      let q = record_waiting rt.reservations in
      let agree = waiting-insert rt.reservations rid lane in
      elim (Option-cases (lookup rid rt.requests)) [
        | inl e ↦ ground (arith, count_absent p q rid agree rt.requests e)
        | inr (r, e) ↦ ground (
          arith,
          count_at p q rid agree rt.requests h e,
          lookup-insert_self rid lane rt.reservations,
        )
      ]
]

-- The request `rid` has been granted a slot of its own lane, and has not started.
pub record IsGranted (rt : RuntimeState) (rid : String) (r : RequestRecord) : Type 0 where
  pub known : lookup rid rt.requests ≡ some r
  pub queued_still : r.status ≡ queued
  pub reserved : lookup rid rt.reservations ≡ some r.lane
  pub requests_once : IsDict rt.requests
  pub reservations_once : IsDict rt.reservations

module _ (status : RequestLifecycleState) (starts : is_active status ≡ true)
    (leaves : is_queued status ≡ false) {rt : RuntimeState} {rid : String} {r : RequestRecord}
    (g : IsGranted rt rid r) where
  handover-active : active_jobs (start_as status rt rid) ≡ active_jobs rt
  unfolding start_as active_jobs
  handover-active = ground (
    arith,
    g,
    starts,
    leaves,
    count-insert_old record_active rid (record r { status = status }) rt.requests g.known,
    length-erase rid rt.reservations,
  )

  handover-queue_depth : queue_depth (start_as status rt rid) ≡ queue_depth rt
  unfolding start_as queue_depth
  handover-queue_depth = ground (
    arith,
    g,
    starts,
    leaves,
    count-insert_old (record_waiting (erase rid rt.reservations)) rid (record r { status = status })
        rt.requests g.known,
    count_at (record_waiting (erase rid rt.reservations)) (record_waiting rt.reservations) rid
        (waiting-erase rt.reservations rid) rt.requests g.requests_once g.known,
    lookup-erase_self rid rt.reservations g.reservations_once,
  )

  handover-lane :
      (lane : Option String)
      → active_jobs_for_lane (start_as status rt rid) lane ≡ active_jobs_for_lane rt lane
  unfolding start_as active_jobs_for_lane
  handover-lane none = refl
  handover-lane (some l) = ground (
    arith,
    g,
    starts,
    leaves,
    count-insert_old (record_active_in l) rid (record r { status = status }) rt.requests g.known,
    count-erase (reserved_in l) rid rt.reservations g.reserved,
  )

  handover-reservation : has_key rid (start_as status rt rid).reservations ≡ false
  unfolding start_as
  handover-reservation =
      ground (arith, g, lookup-erase_self rid rt.reservations g.reservations_once)

-- The slot of a granted request passes from its reservation to its record.
abbrev pub Hands : String → RuntimeState → RuntimeState → Type 0
Hands rid rt rt' =
    (active_jobs rt' ≡ active_jobs rt)
    × (queue_depth rt' ≡ queue_depth rt)
    × ((lane : Option String) → active_jobs_for_lane rt' lane ≡ active_jobs_for_lane rt lane)
    × (has_key rid rt.reservations ≡ true)
    × (has_key rid rt'.reservations ≡ false)

start_as-Hands :
    (status : RequestLifecycleState)
    → is_active status ≡ true
    → is_queued status ≡ false
    → {rt : RuntimeState} {rid : String} {r : RequestRecord} → IsGranted rt rid r
    → Hands rid rt (start_as status rt rid)
start_as-Hands status a q g = (
  handover-active status a q g,
  handover-queue_depth status a q g,
  handover-lane status a q g,
  ground (arith, g),
  handover-reservation status a q g,
)

start_as-record :
    (status : RequestLifecycleState) {rt : RuntimeState} {rid : String} {r : RequestRecord}
    → IsGranted rt rid r
    → lookup rid (start_as status rt rid).requests ≡ some (record r { status = status })
unfolding start_as
start_as-record status {rt} {rid} {r} g =
    ground (arith, g, lookup-insert_self rid (record r { status = status }) rt.requests)

-- When a granted request starts, running or streaming, its slot passes from the reservation to the
-- record: the slots in use, in total and in every lane, and the depth of the queue are as before,
-- the reservation is gone, and the record has the new status.
pub handover :
    {rt : RuntimeState} {rid : String} {r : RequestRecord}
    → IsGranted rt rid r
    → Hands rid rt (mark_running rt rid)
      × Hands rid rt (mark_streaming rt rid)
      × (lookup rid (mark_running rt rid).requests ≡ some (record r { status = running }))
      × (lookup rid (mark_streaming rt rid).requests ≡ some (record r { status = streaming }))
unfolding mark_running mark_streaming
handover {rt} {rid} {r} g = (
  start_as-Hands running refl refl g,
  start_as-Hands streaming refl refl g,
  start_as-record running g,
  start_as-record streaming g,
)

lane-count :
    (d : Dict RequestRecord) (l : String) → count (record_active_in l) d ≤ count record_active d
unfolding count
lane-count [] l = omega arith
lane-count ((rid, r) ∷ d) l = ground (arith, lane-count d l)

-- No lane uses more slots than are in use.
pub active_jobs_for_lane-le :
    (rt : RuntimeState) (lane : Option String) → active_jobs_for_lane rt lane ≤ active_jobs rt
unfolding active_jobs_for_lane active_jobs
active_jobs_for_lane-le rt none = omega arith
active_jobs_for_lane-le rt (some l) =
    ground (arith, lane-count rt.requests l, count-le-length (reserved_in l) rt.reservations)
