-- ===== src/Service.antt =====
-- whooshd/app.py: how a chat request passes through the broker. `chat_completions` is cut where it
-- waits: `submit` runs up to the wait or the start, `wait_step` is one round of the wait with what
-- follows its return. Routing, the adapters and the responses are left out: whether the adapter
-- takes images, the backend policy takes the request and the adapter streams are arguments, and so
-- is the admission result. Live batching has no step of its own: LiveBatch models it, and no request
-- that has waited starts one.
pub mod Effects
pub mod Starts
pub mod Limit
pub mod Steps
pub mod Queued
pub mod LiveBatch
use whooshd.Admission.{
  AdmissionDecision, AdmissionResult, accepted, queued, rejected_overloaded, rejected_queue_full,
  rejected_prompt_too_large, rejected_too_many_messages, rejected_max_tokens_too_high,
  rejected_model_not_ready, rejected_context_overflow, active_capacity_available,
}
use whooshd.Base.{
  ℕ, String, Bool, true, false, Option, none, some, if◌then◌else◌, lookup, not, ◌&&◌,
}
use whooshd.Capacity.Controller.{Host}
use whooshd.Capacity.Profile.{CapacityProfile}
use whooshd.Config.{Config}
use whooshd.Queue.{
  QueueEntry, RequestQueue, Callbacks, Round, Poll, returned, enqueue, wait_round, resume,
}
use whooshd.Runtime.{
  RuntimeState, begin_request, mark_queued, mark_dequeued, mark_timed_out, mark_running,
  mark_streaming, cancel_request, fail_request, complete_request, request_cancellation,
  record_accepted, record_rejected, record_queue_rejected, record_queue_cancelled, reserve_capacity,
  is_terminal,
}

pub record Broker : Type 0 where
  pub queue : RequestQueue
  pub runtime : RuntimeState

-- The texts of the decisions.
abbrev pub value : AdmissionDecision → String
value accepted = "accepted"
value queued = "queued"
value rejected_overloaded = "rejected_overloaded"
value rejected_queue_full = "rejected_queue_full"
value rejected_prompt_too_large = "rejected_prompt_too_large"
value rejected_too_many_messages = "rejected_too_many_messages"
value rejected_max_tokens_too_high = "rejected_max_tokens_too_high"
value rejected_model_not_ready = "rejected_model_not_ready"
value rejected_context_overflow = "rejected_context_overflow"

-- A request with its route and the identifier that it is given.
pub record Job : Type 0 where
  pub request_id : String
  pub model : String
  pub stream : Bool
  pub lane : Option String
  pub lane_max_concurrent : Option ℕ
  pub takes_images : Bool  -- or the request has none
  pub allowed_fields : Bool
  pub supports_streaming : Bool

-- The three callables that `chat_completions` gives the queue.
unfoldable pub callbacks : Config → Host → Option CapacityProfile → Callbacks RuntimeState
callbacks cfg host profile = record {
  capacity_available = λ rt. active_capacity_available cfg host profile rt none none;
  entry_eligible =
      λ rt e. active_capacity_available cfg host profile rt e.lane e.lane_max_concurrent;
  reserve = λ rt e. (reserve_capacity rt e.request_id e.lane).0;
}

abbrev pub entry_of : ℕ → Job → QueueEntry
entry_of now job = record {
  request_id = job.request_id;
  model = some job.model;
  stream = job.stream;
  enqueued_at = now;
  lane = job.lane;
  lane_max_concurrent = job.lane_max_concurrent;
  deadline_at = none;
}

unfoldable pub begin : ℕ → Job → RuntimeState → RuntimeState
begin now job rt = begin_request rt job.request_id job.model job.stream job.lane now

unfoldable pub wait_in_queue : Config → ℕ → Job → Broker → Broker
wait_in_queue cfg now job b = record {
  queue = enqueue cfg now b.queue (entry_of now job);
  runtime = mark_queued (begin now job b.runtime) job.request_id;
}

-- An immediate start; a stream that the adapter cannot serve raises before any record is made.
unfoldable pub start_now : ℕ → Job → RuntimeState → RuntimeState
start_now now job rt =
    if not job.stream
    then mark_running (begin now job rt) job.request_id
    else if not job.supports_streaming
    then rt
    else mark_streaming (begin now job rt) job.request_id

-- What follows the counting of an admitted or waiting request.
unfoldable pub proceed : Config → ℕ → Job → Bool → Broker → Broker
proceed cfg now job waits b =
    if not job.takes_images
    then record b { runtime = record_rejected b.runtime "rejected_model_not_ready" }
    else if not job.allowed_fields
    then record b { runtime = record_rejected b.runtime "rejected_unsupported_fields" }
    else if waits
    then wait_in_queue cfg now job b
    else record b { runtime = start_now now job b.runtime }

abbrev pub is_queued_decision : AdmissionDecision → Bool
is_queued_decision queued = true
is_queued_decision _ = false

abbrev pub is_queue_full : AdmissionDecision → Bool
is_queue_full rejected_queue_full = true
is_queue_full _ = false

unfoldable pub submit : Config → ℕ → Job → AdmissionResult → Broker → Broker
submit cfg now job a b =
    if is_queue_full a.reason
    then record b { runtime = record_rejected (record_queue_rejected b.runtime) (value a.reason) }
    else if not a.accepts && not (is_queued_decision a.reason)
    then record b { runtime = record_rejected b.runtime (value a.reason) }
    else proceed cfg now job (is_queued_decision a.reason)
        (record b { runtime = record_accepted b.runtime })

-- `token.is_cancelled()` for a request that has a record.
unfoldable pub is_cancelled : RuntimeState → String → Bool
is_cancelled rt rid = elim (lookup rid rt.requests) [ none ↦ false | some r ↦ r.cancel_token ]

-- The caller's own steps when the wait returns.
unfoldable pub refused : ℕ → String → RuntimeState → RuntimeState
refused now rid rt =
    if is_cancelled rt rid
    then record_queue_cancelled (cancel_request rt rid now)
    else mark_timed_out rt rid now

unfoldable pub execute : ℕ → QueueEntry → Bool → RuntimeState → RuntimeState
execute now e supports_streaming rt =
    if not e.stream
    then mark_running (mark_dequeued rt) e.request_id
    else if not supports_streaming
    then fail_request (mark_dequeued rt) e.request_id none now
    else mark_streaming (mark_dequeued rt) e.request_id

abbrev pub settle : ℕ → QueueEntry → Bool → Round RuntimeState → RuntimeState
settle now e supports_streaming r = elim (r.poll) [
  | returned true ↦ execute now e supports_streaming r.world
  | returned false ↦ refused now e.request_id r.world
  | _ ↦ r.world
]

module _ (cfg : Config) (host : Host) (profile : Option CapacityProfile) where
  abbrev pub round_of : ℕ → QueueEntry → Broker → Round RuntimeState
  round_of now e b =
      wait_round cfg (callbacks cfg host profile) now e (is_cancelled b.runtime e.request_id)
        b.queue b.runtime

  unfoldable pub wait_step : ℕ → QueueEntry → Bool → Broker → Broker
  wait_step now e supports_streaming b =
      let r = round_of now e b in
      record { queue = resume r.poll r.queue; runtime = settle now e supports_streaming r }

-- The endpoint that cancels a request: it signals the token, and ends the record.
unfoldable pub cancel : ℕ → String → RuntimeState → RuntimeState
cancel now rid rt = elim (lookup rid rt.requests) [
  | none ↦ rt
  | some r ↦
      if is_terminal r.status
      then rt
      else (if (request_cancellation rt rid).1
          then cancel_request (request_cancellation rt rid).0 rid now
          else (request_cancellation rt rid).0)
]
