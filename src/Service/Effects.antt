-- ===== src/Service/Effects.antt =====
-- runtime/__init__.py as app.py uses it: operations that take no slot, and leave no granted request
-- without its slot.
use whooshd.Base.{
  branches, ℕ, ◌≡◌, ◌≤◌, ◌+◌, refl, ◌∙◌, subst, ◌⊎◌, inl, inr, String, Bool, true, false, Option,
  none, some, arith, same, same→eq, same_cases, Bool-cases, Option-cases, one_if, lookup, insert,
  has_key, lookup-insert, lookup-insert_self, lookup-erase_ne, length-erase, count-insert_old,
}
use whooshd.Runtime.{
  RuntimeState, RequestRecord, RequestLifecycleState, Counters, accepted, queued, running,
  streaming, is_terminal, is_active, can_start, completes, record_active, active_jobs,
  release_capacity, update_record, count_known, complete_request, cancel_request, fail_request,
  mark_timed_out, request_cancellation,
}

abbrev pub record_startable : Option RequestRecord → Bool
record_startable none = false
record_startable (some r) = can_start r.status

abbrev pub startable : RuntimeState → String → Bool
startable rt rid = record_startable (lookup rid rt.requests)

-- The request holds a reserved slot, or cannot start any more.
abbrev pub IsBacked : RuntimeState → String → Type 0
IsBacked rt rid = (has_key rid rt.reservations ≡ true) ⊎ (startable rt rid ≡ false)

-- A change that takes at most `n` slots, forgets no request and leaves every backed request backed.
pub record IsWithin (n : ℕ) (old new : RuntimeState) : Type 0 where
  pub pressure_kept : new.memory_pressure ≡ old.memory_pressure
  pub known_kept : (k : String) → has_key k old.requests ≡ true → has_key k new.requests ≡ true
  pub backed_kept : (k : String) → has_key k old.requests ≡ true → IsBacked old k → IsBacked new k
  pub active_le : active_jobs new ≤ active_jobs old + n

abbrev pub IsMild : RuntimeState → RuntimeState → Type 0
IsMild old new = IsWithin 0 old new

pub IsMild-refl : (rt : RuntimeState) → IsMild rt rt
IsMild-refl rt = record {
  pressure_kept = refl;
  known_kept = λ k h. h;
  backed_kept = λ k known h. h;
  active_le = omega arith;
}

pub IsMild-trans : {a b c : RuntimeState} (n : ℕ) → IsWithin n a b → IsMild b c → IsWithin n a c
IsMild-trans n f g = record {
  pressure_kept = g.pressure_kept ∙ f.pressure_kept;
  known_kept = λ k h. g.known_kept k (f.known_kept k h);
  backed_kept = λ k known h. g.backed_kept k (f.known_kept k known) (f.backed_kept k known h);
  active_le = omega (arith, f.active_le, g.active_le);
}

-- The counters play no part.
pub counted : (rt : RuntimeState) (t : Counters) → IsMild rt (record rt { totals = t })
unfolding active_jobs
counted rt t = record {
  pressure_kept = refl;
  known_kept = λ k h. h;
  backed_kept = λ k known h. h;
  active_le = omega arith;
}

pub count_known-IsMild :
    (f : Counters → Counters) (rid : String) (rt : RuntimeState) → IsMild rt (count_known f rid rt)
unfolding count_known
count_known-IsMild f rid rt =
    branches (IsMild rt) (has_key rid rt.requests) _ _ (λ t. counted rt (f rt.totals))
      (λ n. IsMild-refl rt)

module _ (rt : RuntimeState) (rid : String) (r' : RequestRecord) where
  pub known-insert :
      (k : String) → has_key k rt.requests ≡ true → has_key k (insert rid r' rt.requests) ≡ true
  known-insert k h = rw (lookup-insert rid k r' rt.requests) (ground arith)

  pub startable-insert :
      (r : RequestRecord)
      → lookup rid rt.requests ≡ some r
      → (can_start r.status ≡ false → can_start r'.status ≡ false)
      → (k : String) → startable rt k ≡ false
      → record_startable (lookup k (insert rid r' rt.requests)) ≡ false
  startable-insert r e f k h =
      rw (lookup-insert rid k r' rt.requests) (elim (Bool-cases (same rid k)) [
        | inl t ↦
            let e' : lookup k rt.requests ≡ some r =
              subst (λ x. lookup x rt.requests ≡ some r) (same→eq rid k t) e in
            rw t (f (rw e' at h))
        | inr n ↦ rw n h
      ])

  -- A record that is written over: it may not begin to hold a slot, nor become able to start.
  pub write-IsMild :
      (r : RequestRecord)
      → lookup rid rt.requests ≡ some r
      → (can_start r.status ≡ false → can_start r'.status ≡ false)
      → one_if (is_active r'.status) ≤ one_if (is_active r.status)
      → IsMild rt (record rt { requests = insert rid r' rt.requests })
  unfolding active_jobs
  write-IsMild r e f le = record {
    pressure_kept = refl;
    known_kept = known-insert;
    backed_kept = λ k known h. elim h [
      | inl held ↦ inl held
      | inr stuck ↦ inr (startable-insert r e f k stuck)
    ];
    active_le = omega (arith, count-insert_old record_active rid r' rt.requests e, le);
  }

-- A slot is given back by a request that cannot start.
pub release-IsMild :
    (rt : RuntimeState) (rid : String)
    → startable rt rid ≡ false
    → IsMild rt (release_capacity rt rid)
unfolding active_jobs release_capacity
release-IsMild rt rid n = record {
  pressure_kept = refl;
  known_kept = λ k h. h;
  backed_kept = λ k known h. elim h [
    | inr stuck ↦ inr stuck
    | inl held ↦ elim (same_cases rid k) [
      | inl e ↦ inr (subst (λ x. startable rt x ≡ false) e n)
      | inr f ↦ inl (rw (lookup-erase_ne rid k rt.reservations f) held)
    ]
  ];
  active_le = omega (arith, length-erase rid rt.reservations);
}

-- A record that is written with an ended status.
module _ (f : RequestRecord → RequestRecord)
    (idle : (r : RequestRecord) → is_active (f r).status ≡ false)
    (ended : (r : RequestRecord) → can_start (f r).status ≡ false) (rid : String) where
  update_record-IsMild : (rt : RuntimeState) → IsMild rt (update_record f rid rt)
  unfolding update_record
  update_record-IsMild rt = elim (Option-cases (lookup rid rt.requests)) [
    | inl e ↦ rw (e, update_record) (IsMild-refl rt)
    | inr (r, e) ↦
        rw (e, update_record)
          (write-IsMild rt rid (f r) r e (λ h. ended r) (ground (arith, idle r)))
  ]

  update_record-startable : (rt : RuntimeState) → startable (update_record f rid rt) rid ≡ false
  unfolding update_record
  update_record-startable rt = elim (Option-cases (lookup rid rt.requests)) [
    | inl e ↦ rw (e, update_record, e)
    | inr (r, e) ↦ rw (e, update_record, lookup-insert_self rid (f r) rt.requests) (ended r)
  ]

  end-IsMild : (rt : RuntimeState) → IsMild rt (release_capacity (update_record f rid rt) rid)
  end-IsMild rt =
      IsMild-trans 0 (update_record-IsMild rt)
        (release-IsMild (update_record f rid rt) rid (update_record-startable rt))

  end-count-IsMild :
      (g : Counters → Counters) (rt : RuntimeState)
      → IsMild rt (release_capacity (count_known g rid (update_record f rid rt)) rid)
  unfolding count_known
  end-count-IsMild g rt =
      let u = update_record f rid rt in
      IsMild-trans 0 (IsMild-trans 0 (update_record-IsMild rt) (count_known-IsMild g rid u)) (
        release-IsMild (count_known g rid u) rid (
          branches (λ x. startable x rid ≡ false) (has_key rid u.requests) _ _
            (λ t. update_record-startable rt) (λ n. update_record-startable rt)))

pub completes_idle :
    (s : RequestLifecycleState)
    → completes s ≡ false
    → (is_active s ≡ false) × (can_start s ≡ false)
completes_idle accepted h = cc
completes_idle queued h = cc
completes_idle running h = cc
completes_idle streaming h = cc
completes_idle _ h = (refl, refl)

pub complete_request-IsMild :
    (rt : RuntimeState) (rid : String) (now : ℕ) → IsMild rt (complete_request rt rid now)
unfolding complete_request
complete_request-IsMild rt rid now =
    end-IsMild _ (λ r. ground (arith, completes_idle r.status))
      (λ r. ground (arith, completes_idle r.status)) rid rt

pub cancel_request-IsMild :
    (rt : RuntimeState) (rid : String) (now : ℕ) → IsMild rt (cancel_request rt rid now)
unfolding cancel_request
cancel_request-IsMild rt rid now =
    end-count-IsMild _ (λ r. refl) (λ r. refl) rid (λ t. record t { cancelled = t.cancelled + 1 })
      rt

pub mark_timed_out-IsMild :
    (rt : RuntimeState) (rid : String) (now : ℕ) → IsMild rt (mark_timed_out rt rid now)
unfolding mark_timed_out
mark_timed_out-IsMild rt rid now =
    end-count-IsMild _ (λ r. refl) (λ r. refl) rid
      (λ t. record t { queue_timeout = t.queue_timeout + 1 }) rt

pub fail_request-IsMild :
    (rt : RuntimeState) (rid : String) (code : Option String) (now : ℕ)
    → IsMild rt (fail_request rt rid code now)
unfolding fail_request
fail_request-IsMild rt rid code now = end-IsMild _ (λ r. refl) (λ r. refl) rid rt

pub request_cancellation-IsMild :
    (rt : RuntimeState) (rid : String) → IsMild rt (request_cancellation rt rid).0
unfolding request_cancellation
request_cancellation-IsMild rt rid = elim (Option-cases (lookup rid rt.requests)) [
  | inl e ↦ rw (e, request_cancellation) (IsMild-refl rt)
  | inr (r, e) ↦ elim (Bool-cases (is_terminal r.status)) [
    | inl t ↦ rw (e, request_cancellation, t) (IsMild-refl rt)
    | inr n ↦
        rw (e, request_cancellation, n)
          (IsMild-trans 0
            (write-IsMild rt rid (record r { cancel_requested = true; cancel_token = true }) r e
              (λ h. h) (omega arith))
            (counted _ (record (rt.totals) { cancel_requested = rt.totals.cancel_requested + 1 })))
  ]
]
