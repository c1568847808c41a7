-- ===== src/Service/Steps.antt =====
-- app.py: the broker under the steps of its callers, in any order.
use whooshd.Admission.{evaluate_chat_request}
use whooshd.Base.{
  Option-cases, ℕ, ◌≡◌, ◌+◌, refl, inl, inr, String, Bool, true, false, Option, none, Bool-cases,
  branches, not, has_key, lookup,
}
use whooshd.Capacity.Controller.{Host}
use whooshd.Capacity.Cost.{Chars, ChatCompletionRequest}
use whooshd.Capacity.Profile.{CapacityProfile}
use whooshd.Config.{Config}
use whooshd.Queue.{resume, QueueEntry, RequestQueue, Poll, returned, deferred, waiting, is_granted}
use whooshd.Queue.Waiting.{Stands, wait_round-Ends}
use whooshd.Runtime.{
  request_cancellation, is_terminal, fail_request, record_queue_cancelled, complete_request,
  mark_dequeued, RuntimeState,
}
use whooshd.Service.{
  Broker, Job, callbacks, submit, wait_step, round_of, settle, execute, refused, cancel,
  is_cancelled,
}
use whooshd.Service.Effects.{
  IsBacked, IsMild, IsMild-refl, IsMild-trans, counted, complete_request-IsMild,
  cancel_request-IsMild, fail_request-IsMild, mark_timed_out-IsMild, request_cancellation-IsMild,
}
use whooshd.Service.Starts.{mark_running-IsMild, mark_streaming-IsMild}
use whooshd.Service.Limit.{IsSound, mild-IsSound, submit-IsSound, round-IsSound, accepted_room}

execute-IsMild :
    (now : ℕ) (e : QueueEntry) (streams : Bool) (rt : RuntimeState)
    → IsBacked rt e.request_id
    → IsMild rt (execute now e streams rt)
unfolding execute mark_dequeued
execute-IsMild now e streams rt backed =
    let m = counted rt (record (rt.totals) { dequeued = rt.totals.dequeued + 1 }) in
    branches (IsMild rt) (not e.stream) _ _
      (λ _. IsMild-trans 0 m (mark_running-IsMild _ e.request_id backed))
      (λ _.
        branches (IsMild rt) (not streams) _ _
          (λ _. IsMild-trans 0 m (fail_request-IsMild _ e.request_id none now))
          (λ _. IsMild-trans 0 m (mark_streaming-IsMild _ e.request_id backed)))

refused-IsMild : (now : ℕ) (rid : String) (rt : RuntimeState) → IsMild rt (refused now rid rt)
unfolding refused record_queue_cancelled
refused-IsMild now rid rt =
    branches (IsMild rt) (is_cancelled rt rid) _ _
      (λ _. IsMild-trans 0 (cancel_request-IsMild rt rid now) (counted _ _))
      (λ _. mark_timed_out-IsMild rt rid now)

settle-IsMild :
    (now : ℕ) (e : QueueEntry) (streams : Bool) (q : RequestQueue) (rt : RuntimeState) (p : Poll)
    → (p ≡ returned true → IsBacked rt e.request_id)
    → IsMild rt (settle now e streams (record { queue = q; world = rt; poll = p }))
settle-IsMild now e streams q rt (returned true) backed =
    execute-IsMild now e streams rt (backed refl)
settle-IsMild now e streams q rt (returned false) backed = refused-IsMild now e.request_id rt
settle-IsMild now e streams q rt deferred backed = IsMild-refl rt
settle-IsMild now e streams q rt waiting backed = IsMild-refl rt

cancel-IsMild : (now : ℕ) (rid : String) (rt : RuntimeState) → IsMild rt (cancel now rid rt)
unfolding cancel
cancel-IsMild now rid rt = elim (Option-cases (lookup rid rt.requests)) [
  | inl e ↦ rw (e, cancel) (IsMild-refl rt)
  | inr (r, e) ↦ elim (Bool-cases (is_terminal r.status)) [
    | inl t ↦ rw (e, cancel, t) (IsMild-refl rt)
    | inr n ↦
        rw (e, cancel, n)
          (branches (IsMild rt) (request_cancellation rt rid).1 _ _
            (λ _.
              IsMild-trans 0 (request_cancellation-IsMild rt rid) (cancel_request-IsMild _ rid now))
            (λ _. request_cancellation-IsMild rt rid))
  ]
]

module _ (cfg : Config) (host : Host) (profile : Option CapacityProfile) where
  resume-IsSound :
      (q : RequestQueue) (rt : RuntimeState) (p : Poll)
      → IsSound cfg host profile (record { queue = q; runtime = rt })
      → IsSound cfg host profile (record { queue = resume p q; runtime = rt })
  resume-IsSound q rt (returned b) s = s
  resume-IsSound q rt deferred s = s
  resume-IsSound q rt waiting s = record {
    once = s.once;
    queued_known = s.queued_known;
    granted_known = s.granted_known;
    granted_backed = s.granted_backed;
    within = s.within;
  }

  wait_step-IsSound :
      {b : Broker} (now : ℕ) (e : QueueEntry) (streams : Bool)
      → IsSound cfg host profile b
      → Stands b.queue e
      → IsSound cfg host profile (wait_step cfg host profile now e streams b)
  unfolding wait_step is_granted
  wait_step-IsSound {b} now e streams s stands =
      let r = round_of cfg host profile now e b in
      let t = round-IsSound cfg host profile now e s in
      resume-IsSound r.queue (settle now e streams r) r.poll (
        mild-IsSound cfg host profile t (
          settle-IsMild now e streams r.queue r.world r.poll (λ started.
            elim (wait_round-Ends cfg (callbacks cfg host profile) now e
              (is_cancelled b.runtime e.request_id) b.queue b.runtime s.once stands) [
                | inl (_, over, _, _) ↦ t.granted_backed e.request_id over.1
                | inr (inl (h, _, _)) ↦ absurd (cc)
                | inr (inr (inl h, _, _, _)) ↦ absurd (cc)
                | inr (inr (inr h, _, _, _)) ↦ absurd (cc)
              ])))

  -- What happens to the broker, one step of one caller at a time. A request that is submitted gets
  -- an identifier that no record has.
  pub data Step {Json : Type 0} (dumps : Json → Chars) : Broker → Broker → Type 0 where
    submits :
        (b : Broker) (now : ℕ) (job : Job) (request : ChatCompletionRequest Json)
        (model_id : Option String)
        → has_key job.request_id b.runtime.requests ≡ false
        → Step dumps b (
            submit cfg now job
              (evaluate_chat_request cfg host profile dumps request b.runtime job.lane
                job.lane_max_concurrent model_id)
              b)
    polls :
        (b : Broker) (now : ℕ) (e : QueueEntry) (streams : Bool)
        → Stands b.queue e
        → Step dumps b (wait_step cfg host profile now e streams b)
    completes :
        (b : Broker) (now : ℕ) (rid : String)
        → Step dumps b (record b { runtime = complete_request b.runtime rid now })
    fails :
        (b : Broker) (now : ℕ) (rid : String) (code : Option String)
        → Step dumps b (record b { runtime = fail_request b.runtime rid code now })
    cancels :
        (b : Broker) (now : ℕ) (rid : String)
        → Step dumps b (record b { runtime = cancel now rid b.runtime })

  pub data Reaches {Json : Type 0} (dumps : Json → Chars) (start : Broker) : Broker → Type 0 where
    here : Reaches dumps start start
    later : {b b' : Broker} → Reaches dumps start b → Step dumps b b' → Reaches dumps start b'

  module _ {Json : Type 0} (dumps : Json → Chars) where
    Step-IsSound :
        {b b' : Broker} → Step dumps b b' → IsSound cfg host profile b → IsSound cfg host profile b'
    Step-IsSound (submits b now job request model_id fresh) s =
        submit-IsSound cfg host profile now job _ s fresh (
          accepted_room cfg host profile dumps request b.runtime job.lane job.lane_max_concurrent
            model_id)
    Step-IsSound (polls b now e streams stands) s = wait_step-IsSound now e streams s stands
    Step-IsSound (completes b now rid) s =
        mild-IsSound cfg host profile s (complete_request-IsMild b.runtime rid now)
    Step-IsSound (fails b now rid code) s =
        mild-IsSound cfg host profile s (fail_request-IsMild b.runtime rid code now)
    Step-IsSound (cancels b now rid) s =
        mild-IsSound cfg host profile s (cancel-IsMild now rid b.runtime)

    -- From a broker in which it holds, every order of submissions, rounds of waiting, completions,
    -- failures and cancellations keeps this: the slots in use, running or reserved, are within the
    -- effective limit; no request is queued twice; every queued or granted request has a record;
    -- and a granted request holds its reserved slot until it starts or ends.
    pub Reaches-IsSound :
        {start b : Broker}
        → IsSound cfg host profile start
        → Reaches dumps start b
        → IsSound cfg host profile b
    Reaches-IsSound s here = s
    Reaches-IsSound s (later path step) = Step-IsSound step (Reaches-IsSound s path)
