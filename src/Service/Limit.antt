-- ===== src/Service/Limit.antt =====
-- app.py: what keeps the slots in use within the limit, operation by operation.
use whooshd.Admission.{
  evaluate_chat_request, AdmissionResult, active_capacity_available, memory_pressure_from_runtime,
}
use whooshd.Admission.Capacity.{evaluate_chat_request_accepts_iff}
use whooshd.Base.{
  In-append_one, All-tabulate, ℕ, ◌≡◌, ◌≤◌, ◌<◌, ◌+◌, sym, ap, subst, ◌⊎◌, inl, inr, String, Bool,
  ◌&&◌, true, false, Option, List, ◌∷◌, arith, In, same_cases, branches, not, has_key,
}
use whooshd.Capacity.Controller.{Host, effective_active_limit}
use whooshd.Capacity.Cost.{Chars, ChatCompletionRequest}
use whooshd.Capacity.Profile.{CapacityProfile}
use whooshd.Config.{Config}
use whooshd.Queue.{QueueEntry, RequestQueue, enqueue, listed}
use whooshd.Queue.Entries.{append-IsOnce, IsOnce}
use whooshd.Queue.Rounds.{wait_round-Acts}
use whooshd.Runtime.{
  record_accepted, record_queue_rejected, record_rejected, mark_queued, RuntimeState, active_jobs,
  reserve_capacity,
}
use whooshd.Service.{
  is_queued_decision, is_queue_full, Broker, Job, callbacks, begin, submit, proceed, wait_in_queue,
  round_of, is_cancelled,
}
use whooshd.Service.Effects.{IsBacked, IsWithin, IsMild, IsMild-refl, counted}
use whooshd.Service.Starts.{
  reserve-IsBacked, reserve-IsWithin, queue_request_known, other_than, start_now-IsWithin,
  queue_request-IsMild,
}

grant_kept :
    (granted : List String) (g : QueueEntry) (k : String) (rt : RuntimeState)
    → has_key g.request_id rt.requests ≡ true
    → IsBacked rt g.request_id
    → listed k (g.request_id ∷ granted) ≡ true
    → (listed k granted ≡ true) ⊎ ((has_key k rt.requests ≡ true) × IsBacked rt k)
unfolding listed
grant_kept granted g k rt known backed h = elim (same_cases g.request_id k) [
  | inl e ↦ inr (subst (λ x. (has_key x rt.requests ≡ true) × IsBacked rt x) e (known, backed))
  | inr f ↦ inl (rw (f, listed) at h)
]

module _ (cfg : Config) (host : Host) (profile : Option CapacityProfile) where
  abbrev pub limit_of : RuntimeState → ℕ
  limit_of rt = effective_active_limit cfg host profile (memory_pressure_from_runtime rt)

  -- No slot is in use beyond the limit; the queue lists no request twice; every queued or granted
  -- request has a record; and a granted one holds a reserved slot or cannot start any more.
  pub record IsSound (b : Broker) : Type 0 where
    pub once : IsOnce b.queue.entries
    pub queued_known :
        (e : QueueEntry) → In e b.queue.entries → has_key e.request_id b.runtime.requests ≡ true
    pub granted_known :
        (k : String) → listed k b.queue.granted ≡ true → has_key k b.runtime.requests ≡ true
    pub granted_backed : (k : String) → listed k b.queue.granted ≡ true → IsBacked b.runtime k
    pub within : active_jobs b.runtime ≤ limit_of b.runtime

  -- A change of the runtime that takes no more slots than are free.
  runtime-IsSound :
      {b : Broker} {rt : RuntimeState} (n : ℕ)
      → IsSound b
      → IsWithin n b.runtime rt
      → active_jobs b.runtime + n ≤ limit_of b.runtime
      → IsSound (record b { runtime = rt })
  runtime-IsSound {b} n s m room = record {
    once = s.once;
    queued_known = λ e h. m.known_kept e.request_id (s.queued_known e h);
    granted_known = λ k h. m.known_kept k (s.granted_known k h);
    granted_backed = λ k h. m.backed_kept k (s.granted_known k h) (s.granted_backed k h);
    within =
        let same_limit =
          ap
            (λ p.
              effective_active_limit cfg host profile
                (memory_pressure_from_runtime (record (b.runtime) { memory_pressure = p })))
            m.pressure_kept in
        omega (arith, m.active_le, room, same_limit);
  }

  pub mild-IsSound :
      {b : Broker} {rt : RuntimeState}
      → IsSound b
      → IsMild b.runtime rt
      → IsSound (record b { runtime = rt })
  mild-IsSound s m = runtime-IsSound 0 s m (omega (arith, s.within))

  queue-IsSound :
      {b : Broker} (now : ℕ) (job : Job)
      → IsSound b
      → has_key job.request_id b.runtime.requests ≡ false
      → IsSound (wait_in_queue cfg now job b)
  unfolding wait_in_queue enqueue
  queue-IsSound {b} now job s fresh =
      let rt = mark_queued (begin now job b.runtime) job.request_id in
      let m = queue_request-IsMild now job b.runtime fresh in
      let t = mild-IsSound s m in
      record {
        once = append-IsOnce b.queue.entries _ s.once (
            All-tabulate _ b.queue.entries
              (λ e h. other_than now job b.runtime fresh e.request_id (s.queued_known e h)));
        queued_known = λ e h. elim (In-append_one b.queue.entries h) [
          | inl old ↦ t.queued_known e old
          | inr last ↦
              subst (λ x. has_key x.request_id rt.requests ≡ true) (sym last)
                (queue_request_known now job b.runtime fresh)
        ];
        granted_known = t.granted_known;
        granted_backed = t.granted_backed;
        within = t.within;
      }

  proceed-IsSound :
      {b : Broker} (now : ℕ) (job : Job) (waits : Bool)
      → IsSound b
      → has_key job.request_id b.runtime.requests ≡ false
      → (waits ≡ false → active_jobs b.runtime < limit_of b.runtime)
      → IsSound (proceed cfg now job waits b)
  unfolding proceed record_rejected
  proceed-IsSound {b} now job waits s fresh free =
      branches IsSound (not job.takes_images) _ _ (λ _. mild-IsSound s (counted b.runtime _))
        (λ _.
          branches IsSound (not job.allowed_fields) _ _ (λ _. mild-IsSound s (counted b.runtime _))
            (λ _.
              branches IsSound waits _ _ (λ _. queue-IsSound now job s fresh)
                (λ n.
                  runtime-IsSound 1 s (start_now-IsWithin now job b.runtime fresh)
                    (omega (arith, free n)))))

  pub accepted_room :
      {Json : Type 0} (dumps : Json → Chars) (request : ChatCompletionRequest Json)
      (rt : RuntimeState) (lane : Option String) (lane_max : Option ℕ) (model_id : Option String)
      → (evaluate_chat_request cfg host profile dumps request rt lane lane_max model_id).accepts
        ≡ true
      → active_jobs rt < limit_of rt
  unfolding active_capacity_available
  accepted_room dumps request rt lane lane_max model_id h =
      let (_, _, free, _) =
        (evaluate_chat_request_accepts_iff cfg host profile dumps request rt lane lane_max
            model_id).0
          h in
      ground arith

  pub submit-IsSound :
      {b : Broker} (now : ℕ) (job : Job) (a : AdmissionResult)
      → IsSound b
      → has_key job.request_id b.runtime.requests ≡ false
      → (a.accepts ≡ true → active_jobs b.runtime < limit_of b.runtime)
      → IsSound (submit cfg now job a b)
  unfolding submit record_rejected record_queue_rejected record_accepted active_jobs
  submit-IsSound {b} now job a s fresh free =
      branches IsSound (is_queue_full a.reason) _ _ (λ _. mild-IsSound s (counted b.runtime _))
        (λ _.
          branches IsSound (not a.accepts && not (is_queued_decision a.reason)) _ _
            (λ _. mild-IsSound s (counted b.runtime _))
            (λ n.
              proceed-IsSound now job (is_queued_decision a.reason)
                (mild-IsSound s (counted b.runtime _)) fresh (λ w. free (ground arith))))

  -- Grants that keep what the invariant says of them, and a queue that has only shrunk.
  moved-IsSound :
      {b : Broker} (q' : RequestQueue) (rt' : RuntimeState) (n : ℕ)
      → IsSound b
      → IsOnce q'.entries × ((d : QueueEntry) → In d q'.entries → In d b.queue.entries)
      → IsWithin n b.runtime rt'
      → active_jobs b.runtime + n ≤ limit_of b.runtime
      → ((k : String)
          → listed k q'.granted ≡ true
          → (listed k b.queue.granted ≡ true) ⊎ ((has_key k rt'.requests ≡ true) × IsBacked rt' k))
      → IsSound (record { queue = q'; runtime = rt' })
  moved-IsSound {b} q' rt' n s (once, fewer) m room given =
      let t = runtime-IsSound n s m room in
      record {
        once = once;
        queued_known = λ e h. t.queued_known e (fewer e h);
        granted_known =
            λ k h. elim (given k h) [ inl old ↦ t.granted_known k old | inr (known, _) ↦ known ];
        granted_backed =
            λ k h. elim (given k h) [ inl old ↦ t.granted_backed k old | inr (_, backed) ↦ backed ];
        within = t.within;
      }

  pub round-IsSound :
      {b : Broker} (now : ℕ) (e : QueueEntry)
      → IsSound b
      → IsSound (record {
        queue = (round_of cfg host profile now e b).queue;
        runtime = (round_of cfg host profile now e b).world;
      })
  unfolding callbacks active_capacity_available listed
  round-IsSound {b} now e s =
      let r = round_of cfg host profile now e b in
      let (did, shrinks) =
        wait_round-Acts cfg (callbacks cfg host profile) now e b.queue b.runtime s.once
          (is_cancelled b.runtime e.request_id) in
      elim did [
        | inl (kept, grants) ↦
            moved-IsSound r.queue r.world 0 s shrinks
              (subst (IsMild b.runtime) (sym kept) (IsMild-refl b.runtime))
              (omega (arith, s.within)) (λ k h. inl (rw grants at h))
        | inr (g, there, free, _, reserved, grants) ↦
            let rt' = (reserve_capacity b.runtime g.request_id g.lane).0 in
            let m = reserve-IsWithin b.runtime g.request_id g.lane in
            subst (λ x. IsSound (record { queue = r.queue; runtime = x })) (sym reserved)
              (moved-IsSound r.queue rt' 1 s shrinks m (ground arith) (λ k h.
                grant_kept b.queue.granted g k rt'
                  (m.known_kept g.request_id (s.queued_known g there))
                  (reserve-IsBacked b.runtime g.request_id g.lane) (rw grants at h)))
      ]
