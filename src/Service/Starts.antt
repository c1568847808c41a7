-- ===== src/Service/Starts.antt =====
-- app.py: a request that starts, or that enters the queue, takes the slots that it may.
use whooshd.Base.{
  Dict, count-insert_new, branches, ℕ, ◌≡◌, ◌+◌, refl, sym, subst, inl, inr, String, true, false,
  Option, none, some, arith, same, same_cases, Bool-cases, Option-cases, lookup, insert, has_key,
  lookup-insert, lookup-insert_self, lookup-erase_ne, length-erase, length-insert, count-insert_old,
  not,
}
use whooshd.Service.{Job, begin, start_now}
use whooshd.Runtime.{
  mark_queued, begin_request, RuntimeState, RequestRecord, RequestLifecycleState, accepted, queued,
  running, streaming, is_active, can_start, record_active, active_jobs, release_capacity,
  update_record, mark_running, mark_streaming, reserve_capacity, start_as,
}
use whooshd.Service.Effects.{
  IsBacked, record_startable, IsWithin, IsMild, IsMild-refl, IsMild-trans, count_known-IsMild,
  release-IsMild, known-insert, startable-insert, write-IsMild,
}

module _ (status : RequestLifecycleState) (occupies : is_active status ≡ true)
    (begun : can_start status ≡ false) (rt : RuntimeState) (rid : String) where
  start_held :
      (r : RequestRecord)
      → lookup rid rt.requests ≡ some r
      → has_key rid rt.reservations ≡ true
      → IsMild rt (
          release_capacity
            (record rt { requests = insert rid (record r { status = status }) rt.requests })
            rid)
  unfolding release_capacity active_jobs
  start_held r e held = record {
    pressure_kept = refl;
    known_kept = known-insert rt rid (record r { status = status });
    backed_kept = λ k known h. elim (same_cases rid k) [
      | inl here ↦ inr (
          subst
            (λ x.
              record_startable (lookup x (insert rid (record r { status = status }) rt.requests))
              ≡ false)
            here (rw (lookup-insert_self rid (record r { status = status }) rt.requests) begun))
      | inr f ↦ elim h [
        | inl kept ↦ inl (rw (lookup-erase_ne rid k rt.reservations f) kept)
        | inr stuck ↦
            inr (startable-insert rt rid (record r { status = status }) r e (λ _. begun) k stuck)
      ]
    ];
    active_le = ground (
      arith,
      occupies,
      held,
      count-insert_old record_active rid (record r { status = status }) rt.requests e,
      length-erase rid rt.reservations,
    );
  }

  -- A granted request that starts takes the slot that was reserved for it.
  pub start_as-IsMild : IsBacked rt rid → IsMild rt (start_as status rt rid)
  unfolding start_as
  start_as-IsMild backed = elim (Option-cases (lookup rid rt.requests)) [
    | inl e ↦ rw (e, start_as) (IsMild-refl rt)
    | inr (r, e) ↦ elim (Bool-cases (can_start r.status)) [
      | inr n ↦ rw (e, start_as, n) (IsMild-refl rt)
      | inl t ↦
          rw (e, start_as, t)
            (elim backed [
              | inl held ↦ start_held r e held
              | inr stuck ↦ absurd (ground (arith, e))
            ])
    ]
  ]

pub mark_running-IsMild :
    (rt : RuntimeState) (rid : String) → IsBacked rt rid → IsMild rt (mark_running rt rid)
unfolding mark_running
mark_running-IsMild rt rid backed = start_as-IsMild running refl refl rt rid backed

pub mark_streaming-IsMild :
    (rt : RuntimeState) (rid : String) → IsBacked rt rid → IsMild rt (mark_streaming rt rid)
unfolding mark_streaming
mark_streaming-IsMild rt rid backed = start_as-IsMild streaming refl refl rt rid backed

-- A request that already holds a slot by its record keeps just that one.
start_accepted :
    (status : RequestLifecycleState)
    → is_active status ≡ true
    → can_start status ≡ false
    → (rt : RuntimeState) (rid : String) (r : RequestRecord) → lookup rid rt.requests ≡ some r
    → r.status ≡ accepted
    → IsMild rt (start_as status rt rid)
unfolding start_as
start_accepted status occupies begun rt rid r e h =
    let r' : RequestRecord = record r { status = status } in
    let startable_it : can_start r.status ≡ true = rw h refl in
    rw (e, start_as, startable_it)
      (IsMild-trans 0 (write-IsMild rt rid r' r e (λ _. begun) (rw (h, occupies) (omega arith))) (
        release-IsMild (record rt { requests = insert rid r' rt.requests }) rid
          (rw (lookup-insert_self rid r' rt.requests) begun)))

-- A new request: its record holds a slot at once.
module _ (now : ℕ) (job : Job) (rt : RuntimeState)
    (fresh : has_key job.request_id rt.requests ≡ false) where
  pub other_than : (k : String) → has_key k rt.requests ≡ true → same job.request_id k ≡ false
  other_than k known = elim (same_cases job.request_id k) [
    | inl e ↦ absurd (
        subst (λ x. has_key x rt.requests ≡ false → ⊥) (sym e)
          (λ (n : has_key k rt.requests ≡ false). cc) fresh)
    | inr f ↦ f
  ]

  unknown : lookup job.request_id rt.requests ≡ none
  unknown = elim (Option-cases (lookup job.request_id rt.requests)) [
    | inl e ↦ e
    | inr (r, e) ↦ absurd (ground (arith, e))
  ]

  begin-IsWithin : IsWithin 1 rt (begin now job rt)
  unfolding begin begin_request active_jobs
  begin-IsWithin = record {
    pressure_kept = refl;
    known_kept = λ k known. rw (lookup-insert job.request_id k _ rt.requests) (ground arith);
    backed_kept = λ k known h. elim h [
      | inl held ↦ inl held
      | inr stuck ↦
          inr (rw (lookup-insert job.request_id k _ rt.requests, other_than k known) stuck)
    ];
    active_le = omega (arith, count-insert_new record_active job.request_id _ rt.requests unknown);
  }

  start_begun :
      (status : RequestLifecycleState)
      → is_active status ≡ true
      → can_start status ≡ false
      → IsWithin 1 rt (start_as status (begin now job rt) job.request_id)
  unfolding begin begin_request
  start_begun status occupies begun = IsMild-trans 1 begin-IsWithin (
      start_accepted status occupies begun (begin now job rt) job.request_id _
        (lookup-insert_self job.request_id _ rt.requests) refl)

  pub start_now-IsWithin : IsWithin 1 rt (start_now now job rt)
  unfolding start_now mark_running mark_streaming
  start_now-IsWithin =
      branches (IsWithin 1 rt) (not job.stream) _ _ (λ h. start_begun running refl refl)
        (λ h.
          branches (IsWithin 1 rt) (not job.supports_streaming) _ _
            (λ n. record {
              pressure_kept = refl;
              known_kept = λ k known. known;
              backed_kept = λ k known b. b;
              active_le = omega arith;
            })
            (λ y. start_begun streaming refl refl))

  abbrev first_record : RequestRecord
  first_record = record {
    model = job.model;
    stream = job.stream;
    lane = job.lane;
    status = accepted;
    cancel_requested = false;
    cancel_token = false;
    started_at = now;
    ended_at = none;
    error_code = none;
  }

  abbrev waiting_record : RequestRecord
  waiting_record = record first_record { status = queued }

  abbrev begun : Dict RequestRecord
  begun = insert job.request_id first_record rt.requests

  abbrev written : RuntimeState
  written = record rt { requests = insert job.request_id waiting_record begun }

  own_record : lookup job.request_id begun ≡ some first_record
  own_record = lookup-insert_self job.request_id first_record rt.requests

  queue_record :
      update_record (λ r. record r { status = queued }) job.request_id (begin now job rt) ≡ written
  unfolding begin begin_request update_record
  queue_record = rw (own_record, update_record) refl

  known_later :
      (k : String)
      → has_key k rt.requests ≡ true
      → lookup k (insert job.request_id waiting_record begun) ≡ lookup k rt.requests
  known_later k known = rw (
    lookup-insert job.request_id k waiting_record begun,
    other_than k known,
    lookup-insert job.request_id k first_record rt.requests,
    other_than k known,
  )

  written-IsMild : IsMild rt written
  unfolding active_jobs
  written-IsMild = record {
    pressure_kept = refl;
    known_kept = λ k known. rw (known_later k known) known;
    backed_kept = λ k known h. elim h [
      | inl held ↦ inl held
      | inr stuck ↦ inr (rw (known_later k known) stuck)
    ];
    active_le = omega (
      arith,
      count-insert_new record_active job.request_id first_record rt.requests unknown,
      count-insert_old record_active job.request_id waiting_record begun own_record,
    );
  }

  -- A request that is put in the queue takes no slot.
  pub queue_request-IsMild : IsMild rt (mark_queued (begin now job rt) job.request_id)
  unfolding mark_queued
  queue_request-IsMild =
      IsMild-trans 0 (subst (IsMild rt) (sym queue_record) written-IsMild)
        (count_known-IsMild (λ t. record t { queued = t.queued + 1 }) job.request_id _)

  pub queue_request_known :
      has_key job.request_id (mark_queued (begin now job rt) job.request_id).requests ≡ true
  unfolding mark_queued
  queue_request_known =
      (count_known-IsMild (λ t. record t { queued = t.queued + 1 }) job.request_id _).known_kept
        job.request_id
        (subst (λ x. has_key job.request_id x.requests ≡ true) (sym queue_record)
          (rw (lookup-insert_self job.request_id waiting_record begun)))

-- A reservation takes one slot at most.
pub reserve-IsWithin :
    (rt : RuntimeState) (rid : String) (lane : Option String)
    → IsWithin 1 rt (reserve_capacity rt rid lane).0
unfolding reserve_capacity active_jobs
reserve-IsWithin rt rid lane = elim (Bool-cases (has_key rid rt.reservations)) [
  | inl t ↦
      rw (t, reserve_capacity)
        (record {
          pressure_kept = refl;
          known_kept = λ k known. known;
          backed_kept = λ k known h. h;
          active_le = omega arith;
        })
  | inr n ↦
      rw (n, reserve_capacity)
        (record {
          pressure_kept = refl;
          known_kept = λ k known. known;
          backed_kept = λ k known h. elim h [
            | inl held ↦ inl (rw (lookup-insert rid k lane rt.reservations) (ground arith))
            | inr stuck ↦ inr stuck
          ];
          active_le = ground (arith, length-insert rid lane rt.reservations);
        })
]

pub reserve-IsBacked :
    (rt : RuntimeState) (rid : String) (lane : Option String)
    → IsBacked (reserve_capacity rt rid lane).0 rid
unfolding reserve_capacity
reserve-IsBacked rt rid lane = elim (Bool-cases (has_key rid rt.reservations)) [
  | inl t ↦ inl (rw (t, reserve_capacity) t)
  | inr n ↦ inl (rw (n, reserve_capacity, lookup-insert_self rid lane rt.reservations))
]
