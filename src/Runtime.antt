-- ===== src/Runtime.antt =====
-- whooshd/runtime/__init__.py: the lifecycle records of `RuntimeState`, the capacity reservations
-- and the admission, cancellation and queue counters. A method returns the new state; `time.time()`
-- is the argument `now`, and the fresh identifier of `begin_request` is an argument too.
pub mod Slots
pub mod Moves
use whooshd.Base.{
  ℕ, suc, ◌+◌, ◌-◌, String, Bool, true, false, ◌&&◌, ◌||◌, Option, none, some, List, [], ◌∷◌,
  if◌then◌else◌, not, length, count, keep, same, truthy, Dict, lookup, insert, erase, has_key,
}

-- contracts.py
pub data RequestLifecycleState : Type 0 where
  accepted queued running streaming : RequestLifecycleState
  completed cancelled failed timed_out : RequestLifecycleState

pub record RequestRecord : Type 0 where
  pub model : String
  pub stream : Bool
  pub lane : Option String
  pub status : RequestLifecycleState
  pub cancel_requested : Bool
  pub cancel_token : Bool  -- whether the request's `CancellationToken` has been set
  pub started_at : ℕ
  pub ended_at : Option ℕ
  pub error_code : Option String

pub record Counters : Type 0 where
  pub requests_accepted : ℕ
  pub requests_rejected : ℕ
  pub rejected_overloaded : ℕ
  pub rejected_prompt_too_large : ℕ
  pub rejected_too_many_messages : ℕ
  pub rejected_max_tokens : ℕ
  pub rejected_model_not_ready : ℕ
  pub cancel_requested : ℕ
  pub cancelled : ℕ
  pub stream_disconnects : ℕ
  pub queued : ℕ
  pub dequeued : ℕ
  pub queue_rejected : ℕ
  pub queue_timeout : ℕ
  pub queue_cancelled : ℕ

-- The host's memory pressure, as `runtime.memory` reports it.
pub data MemoryPressure : Type 0 where
  unknown normal elevated high critical : MemoryPressure

pub record RuntimeState : Type 0 where
  pub requests : Dict RequestRecord
  pub reservations : Dict (Option String)
  pub memory_pressure : MemoryPressure
  pub totals : Counters

abbrev pub zero_counters : Counters
zero_counters = record {
  requests_accepted = 0;
  requests_rejected = 0;
  rejected_overloaded = 0;
  rejected_prompt_too_large = 0;
  rejected_too_many_messages = 0;
  rejected_max_tokens = 0;
  rejected_model_not_ready = 0;
  cancel_requested = 0;
  cancelled = 0;
  stream_disconnects = 0;
  queued = 0;
  dequeued = 0;
  queue_rejected = 0;
  queue_timeout = 0;
  queue_cancelled = 0;
}

unfoldable pub new : RuntimeState
new = record { requests = []; reservations = []; memory_pressure = normal; totals = zero_counters }

-- The statuses that occupy an execution slot.
abbrev pub is_active : RequestLifecycleState → Bool
is_active accepted = true
is_active running = true
is_active streaming = true
is_active _ = false

abbrev pub is_queued : RequestLifecycleState → Bool
is_queued queued = true
is_queued _ = false

abbrev pub is_terminal : RequestLifecycleState → Bool
is_terminal completed = true
is_terminal cancelled = true
is_terminal failed = true
is_terminal timed_out = true
is_terminal _ = false

abbrev pub lane_is : String → Option String → Bool
lane_is lane none = false
lane_is lane (some l) = same l lane

abbrev pub record_active : String × RequestRecord → Bool
record_active (_, r) = is_active r.status

abbrev pub record_active_in : String → String × RequestRecord → Bool
record_active_in lane (_, r) = lane_is lane r.lane && is_active r.status

abbrev pub reserved_in : String → String × Option String → Bool
reserved_in lane (_, l) = lane_is lane l

unfoldable pub active_jobs : RuntimeState → ℕ
active_jobs rt = count record_active rt.requests + length rt.reservations

unfoldable pub reserved_slots : RuntimeState → ℕ
reserved_slots rt = length rt.reservations

-- For no lane, and for the lane with the empty name, the count is 0.
unfoldable pub active_jobs_for_lane : RuntimeState → Option String → ℕ
active_jobs_for_lane rt none = 0
active_jobs_for_lane rt (some lane) =
    if truthy lane
    then count (record_active_in lane) rt.requests + count (reserved_in lane) rt.reservations
    else 0

-- A record that waits in the queue and has not been granted a slot.
abbrev pub record_waiting : Dict (Option String) → String × RequestRecord → Bool
record_waiting reservations (rid, r) = is_queued r.status && not (has_key rid reservations)

unfoldable pub queue_depth : RuntimeState → ℕ
queue_depth rt = count (record_waiting rt.reservations) rt.requests

unfoldable pub reserve_capacity : RuntimeState → String → Option String → RuntimeState × Bool
reserve_capacity rt rid lane =
    if has_key rid rt.reservations
    then (rt, false)
    else (record rt { reservations = insert rid lane rt.reservations }, true)

unfoldable pub release_capacity : RuntimeState → String → RuntimeState
release_capacity rt rid = record rt { reservations = erase rid rt.reservations }

-- `rec = self._requests.get(rid)`, and a write to the record where there is one.
unfoldable pub update_record :
    (RequestRecord → RequestRecord) → String → RuntimeState → RuntimeState
update_record f rid rt = elim (lookup rid rt.requests) [
  | none ↦ rt
  | some r ↦ record rt { requests = insert rid (f r) rt.requests }
]

-- A change of the counters where the request has a record.
unfoldable pub count_known : (Counters → Counters) → String → RuntimeState → RuntimeState
count_known f rid rt = if has_key rid rt.requests then record rt { totals = f rt.totals } else rt

unfoldable pub begin_request :
    RuntimeState → String → String → Bool → Option String → ℕ → RuntimeState
begin_request rt rid model stream lane now = record rt {
  requests =
      insert rid
        (record {
          model = model;
          stream = stream;
          lane = lane;
          status = accepted;
          cancel_requested = false;
          cancel_token = false;
          started_at = now;
          ended_at = none;
          error_code = none;
        })
        rt.requests;
}

unfoldable pub mark_queued : RuntimeState → String → RuntimeState
unfolding update_record count_known
mark_queued rt rid =
    count_known (λ t. record t { queued = t.queued + 1 }) rid
      (update_record (λ r. record r { status = queued }) rid rt)

unfoldable pub mark_dequeued : RuntimeState → RuntimeState
mark_dequeued rt = record rt { totals = record (rt.totals) { dequeued = rt.totals.dequeued + 1 } }

unfoldable pub mark_timed_out : RuntimeState → String → ℕ → RuntimeState
unfolding update_record count_known release_capacity
mark_timed_out rt rid now =
    release_capacity
      (count_known (λ t. record t { queue_timeout = t.queue_timeout + 1 }) rid
        (update_record (λ r. record r { status = timed_out; ended_at = some now }) rid rt))
      rid

unfoldable pub record_queue_rejected : RuntimeState → RuntimeState
record_queue_rejected rt = record rt {
  totals = record (rt.totals) { queue_rejected = rt.totals.queue_rejected + 1 };
}

unfoldable pub record_queue_cancelled : RuntimeState → RuntimeState
record_queue_cancelled rt = record rt {
  totals = record (rt.totals) { queue_cancelled = rt.totals.queue_cancelled + 1 };
}

unfoldable pub record_accepted : RuntimeState → RuntimeState
record_accepted rt = record rt {
  totals = record (rt.totals) { requests_accepted = rt.totals.requests_accepted + 1 };
}

-- The counter of the rejection's own kind, by the reason's text.
reason_counter : String → Counters → Counters
reason_counter reason t =
    if same reason "rejected_overloaded"
    then record t { rejected_overloaded = t.rejected_overloaded + 1 }
    else if same reason "rejected_prompt_too_large"
    then record t { rejected_prompt_too_large = t.rejected_prompt_too_large + 1 }
    else if same reason "rejected_too_many_messages"
    then record t { rejected_too_many_messages = t.rejected_too_many_messages + 1 }
    else if same reason "rejected_max_tokens_too_high"
    then record t { rejected_max_tokens = t.rejected_max_tokens + 1 }
    else if same reason "rejected_model_not_ready"
    then record t { rejected_model_not_ready = t.rejected_model_not_ready + 1 }
    else t

unfoldable pub record_rejected : RuntimeState → String → RuntimeState
unfolding reason_counter
record_rejected rt reason = record rt {
  totals =
      reason_counter reason
        (record (rt.totals) { requests_rejected = rt.totals.requests_rejected + 1 });
}

-- Only a request that has not ended can be signalled.
unfoldable pub request_cancellation : RuntimeState → String → RuntimeState × Bool
request_cancellation rt rid = elim (lookup rid rt.requests) [
  | none ↦ (rt, false)
  | some r ↦ if is_terminal r.status then (rt, false) else (
    record rt {
      requests = insert rid (record r { cancel_requested = true; cancel_token = true }) rt.requests;
      totals = record (rt.totals) { cancel_requested = rt.totals.cancel_requested + 1 };
    },
    true,
  )
]

-- Only an accepted or queued request can begin to execute.
abbrev pub can_start : RequestLifecycleState → Bool
can_start accepted = true
can_start queued = true
can_start _ = false

-- The body that `mark_running` and `mark_streaming` share: the slot's reservation passes to the
-- record.
unfoldable pub start_as : RequestLifecycleState → RuntimeState → String → RuntimeState
unfolding release_capacity
start_as status rt rid = elim (lookup rid rt.requests) [
  | none ↦ rt
  | some r ↦
      if can_start r.status
      then release_capacity
          (record rt { requests = insert rid (record r { status = status }) rt.requests }) rid
      else rt
]

unfoldable pub mark_running : RuntimeState → String → RuntimeState
unfolding start_as
mark_running rt rid = start_as running rt rid

unfoldable pub mark_streaming : RuntimeState → String → RuntimeState
unfolding start_as
mark_streaming rt rid = start_as streaming rt rid

-- A request that was cancelled, failed or timed out stays so.
abbrev pub completes : RequestLifecycleState → Bool
completes cancelled = false
completes failed = false
completes timed_out = false
completes _ = true

unfoldable pub complete_request : RuntimeState → String → ℕ → RuntimeState
unfolding update_record release_capacity
complete_request rt rid now =
    release_capacity
      (update_record
        (λ r.
          if completes r.status then record r { status = completed; ended_at = some now } else r)
        rid rt)
      rid

unfoldable pub cancel_request : RuntimeState → String → ℕ → RuntimeState
unfolding update_record count_known release_capacity
cancel_request rt rid now =
    release_capacity
      (count_known (λ t. record t { cancelled = t.cancelled + 1 }) rid
        (update_record (λ r. record r { status = cancelled; ended_at = some now }) rid rt))
      rid

unfoldable pub fail_request : RuntimeState → String → Option String → ℕ → RuntimeState
unfolding update_record release_capacity
fail_request rt rid code now =
    release_capacity
      (update_record (λ r. record r { status = failed; ended_at = some now; error_code = code }) rid
        rt)
      rid
