-- ===== src/Examples.antt =====
-- Concrete runs: the theorems of the other modules at small inputs.
mod Policy
mod Reuse
mod Streams
mod Eligibility
mod Guards
mod Fields
mod Batches
mod Routes
mod Prompts
use whooshd.Admission.{
  estimate_prompt_chars, capacity_verdict, request_budgets, request_cost, AdmissionResult,
  rejected_model_not_ready, AdmissionDecision, evaluate_chat_request, capacity_context,
  active_capacity_available, memory_pressure_from_runtime,
}
use whooshd.Admission.Capacity.{
  evaluate_chat_request_accepts_iff, evaluate_chat_request-queued, IsWellFormed, request_context,
  limit_now,
}
use whooshd.Admission.Contract.{
  evaluate_chat_request_contract, evaluate_chat_request-structural, FollowsTable,
}
use whooshd.Base.{
  ℕ, ◌≡◌, ◌≤◌, ◌<◌, ◌+◌, ◌≢◌, ◌↔◌, refl, ◌⊎◌, inl, inr, String, Bool, true, false, Option, none,
  some, List, [], ◌∷◌, In, All, arith, lookup, has_key, count, same, length, not, is_some, one_if,
}
use whooshd.Capacity.Controller.{
  evidence, decide, context_budgets, CapacityContext, Host, evaluate, run, reject, queue,
  effective_active_limit,
}
use whooshd.Capacity.Controller.Decisions.{
  HasRoom, IsHeldBack, fits_context, evaluate_run_iff, evaluate_reject_iff, evaluate_held_back,
  evaluate_critical,
}
use whooshd.Capacity.Budget.{evaluate_context}
use whooshd.Capacity.Cost.{
  estimate_request_cost, Chars, ChatCompletionRequest, ChatMessage, Content, text,
}
use whooshd.Capacity.Profile.{CapacityProfile, MemoryPressureClass}
use whooshd.Config.{Config, fixed, adaptive, fifo, cache_aware_fifo}
use whooshd.Queue.{
  new as empty_queue, QueueEntry, RequestQueue, Callbacks, select_and_dequeue, wait_round,
  is_granted, listed, is_expired, find, returned,
}
use whooshd.Queue.Entries.{IsOnce}
use whooshd.Queue.Grants.{IsIdle, Granted, MayRun, select_and_dequeue_cases}
use whooshd.Queue.Rounds.{wait_round-Stands, Acts, wait_round-Acts}
use whooshd.Queue.Waiting.{Stands, Ends, wait_round-Ends}
use whooshd.Runtime.{
  mark_streaming, new as fresh, RequestRecord, RequestLifecycleState, running, streaming, queued,
  mark_running, queue_depth, active_jobs_for_lane, reserve_capacity, RuntimeState, active_jobs,
  complete_request, cancel_request, fail_request, mark_timed_out,
}
use whooshd.Runtime.Moves.{waits, IsGranted, Hands, handover, reserve_capacity-queue_depth}
use whooshd.Runtime.Slots.{start_as-active, slots_held, finish_frees}
use whooshd.Scheduler.{SchedulerCandidate, Scheduler, choose_next, oldest_from}
use whooshd.Scheduler.Choice.{Selects, choose_next_cases, choose_next-fifo_head, choose_next_cold}
use whooshd.Scheduler.Fairness.{Waits, chosen, chosen-max_bypass}
use whooshd.Service.{Broker, Job, callbacks, submit, cancel, refused}
use whooshd.Service.Limit.{IsSound}
use whooshd.Service.Queued.{lone_waiter_runs, cancel_twice}
use whooshd.Service.Steps.{Step, Reaches, here, later, submits, completes, cancels, Reaches-IsSound}

-- A broker with two slots and a short queue.
abbrev pub desk : Config
desk = record {
  enable_queue = true;
  max_queue_depth = 4;
  queue_timeout = 30;
  max_active_requests = 2;
  max_prompt_chars = 100;
  max_messages = 3;
  max_request_max_tokens = 64;
  default_max_tokens = 16;
  capacity_mode = fixed;
  capacity_memory_pressure_deny = true;
  capacity_profile_path = none;
  capacity_model_id = none;
  capacity_runtime = none;
  capacity_machine_class = none;
  scheduler_policy = cache_aware_fifo;
  scheduler_max_bypass = 1;
}

abbrev pub entry : String → ℕ → ℕ → QueueEntry
entry rid at deadline = record {
  request_id = rid;
  model = some "m";
  stream = false;
  enqueued_at = at;
  lane = some "text";
  lane_max_concurrent = some 2;
  deadline_at = some deadline;
}

abbrev pub first : QueueEntry
first = entry "a" 1 9

abbrev pub second : QueueEntry
second = entry "b" 2 12

abbrev two_waiting : RequestQueue
two_waiting = record empty_queue { entries = first ∷ second ∷ [] }

-- A caller whose state is the list of the slots that it has handed out.
abbrev pub slots : Callbacks (List String)
slots = record {
  capacity_available = λ w. true;
  entry_eligible = λ w e. true;
  reserve = λ w e. e.request_id ∷ w;
}

select_and_dequeue_cases_example :
    (IsIdle desk slots 3 two_waiting [] (select_and_dequeue desk slots 3 two_waiting [])
      × ((true ≡ false) ⊎ ((d : QueueEntry) → ¬ MayRun desk slots 3 two_waiting [] d)))
    ⊎ Granted desk slots 3 two_waiting [] (select_and_dequeue desk slots 3 two_waiting [])
unfolding same
select_and_dequeue_cases_example =
    select_and_dequeue_cases desk slots 3 two_waiting [] ((refl, tt), (tt, tt))

two_waiting_IsOnce : IsOnce two_waiting.entries
unfolding same
two_waiting_IsOnce = ((refl, tt), (tt, tt))

second_waits : Stands two_waiting second
unfolding is_granted listed empty_queue
second_waits = inl (inr (inl refl), refl)

wait_round-Ends_example : Ends 3 false second (wait_round desk slots 3 second false two_waiting [])
wait_round-Ends_example =
    wait_round-Ends desk slots 3 second false two_waiting [] two_waiting_IsOnce second_waits

wait_round-Acts_example :
    Acts slots two_waiting [] (wait_round desk slots 3 first false two_waiting [])
wait_round-Acts_example = wait_round-Acts desk slots 3 first two_waiting [] two_waiting_IsOnce false

wait_round-Stands_example : Stands (wait_round desk slots 3 first false two_waiting []).queue second
unfolding same
wait_round-Stands_example =
    wait_round-Stands desk slots 3 first second refl false two_waiting [] two_waiting_IsOnce
      second_waits

abbrev begun_job : String → RequestLifecycleState → RequestRecord
begun_job m status = record {
  model = m;
  stream = false;
  lane = some "text";
  status = status;
  cancel_requested = false;
  cancel_token = false;
  started_at = 0;
  ended_at = none;
  error_code = none;
}

-- One request runs, one is queued and has been granted a slot, and one is only queued.
abbrev office : RuntimeState
office = record fresh {
  requests =
      ("a", begun_job "m" running) ∷ ("b", begun_job "m" queued) ∷ ("c", begun_job "m" queued) ∷ [];
  reservations = ("b", some "text") ∷ [];
}

finish_frees_example :
    (active_jobs (complete_request office "b" 5) + slots_held office "b" ≡ active_jobs office)
    × (active_jobs (cancel_request office "b" 5) + slots_held office "b" ≡ active_jobs office)
    × (active_jobs (fail_request office "b" none 5) + slots_held office "b" ≡ active_jobs office)
    × (active_jobs (mark_timed_out office "b" 5) + slots_held office "b" ≡ active_jobs office)
finish_frees_example = finish_frees office "b" none 5

office-IsGranted : IsGranted office "b" (begun_job "m" queued)
unfolding lookup same
office-IsGranted = record {
  known = refl;
  queued_still = refl;
  reserved = refl;
  requests_once = ((refl, (refl, tt)), ((refl, tt), (tt, tt)));
  reservations_once = (tt, tt);
}

handover_example :
    Hands "b" office (mark_running office "b")
    × Hands "b" office (mark_streaming office "b")
    × (lookup "b" (mark_running office "b").requests ≡ some (begun_job "m" running))
    × (lookup "b" (mark_streaming office "b").requests ≡ some (begun_job "m" streaming))
handover_example = handover office-IsGranted

abbrev pub question : ChatCompletionRequest ℕ
question = record {
  model = "m";
  messages =
      record { content = text (72 ∷ 105 ∷ []); name = none; tool_calls = none; tool_call_id = none }
      ∷ [];
  max_tokens = some 8;
  max_completion_tokens = none;
  stop = none;
  tools = none;
  tool_choice = none;
  response_format = none;
}

abbrev long_question : ChatCompletionRequest ℕ
long_question = record question { max_tokens = some 65 }

abbrev pub digits : ℕ → Chars
digits n = n ∷ []

abbrev verdict : ChatCompletionRequest ℕ → RuntimeState → AdmissionResult
verdict request rt =
    evaluate_chat_request desk none none digits request rt (some "text") (some 1) none

evaluate_chat_request_accepts_iff_example : ((verdict question fresh).accepts ≡ true) ↔ (
    IsWellFormed desk question
    × (fits_context
          (request_context desk none none digits question fresh (some "text") (some 1) none)
        ≡ true)
    × (active_capacity_available desk none none fresh (some "text") (some 1) ≡ true)
    × (¬ IsHeldBack desk
        (request_context desk none none digits question fresh (some "text") (some 1) none)
        (limit_now desk none none digits question fresh (some "text") (some 1) none)))
evaluate_chat_request_accepts_iff_example =
    evaluate_chat_request_accepts_iff desk none none digits question fresh (some "text") (some 1)
      none

abbrev desk_job : String → Job
desk_job rid = record {
  request_id = rid;
  model = "m";
  stream = false;
  lane = some "text";
  lane_max_concurrent = some 1;
  takes_images = true;
  allowed_fields = true;
  supports_streaming = true;
}

abbrev opened : Broker
opened = record { queue = empty_queue; runtime = fresh }

abbrev one_in : Broker
one_in = submit desk 0 (desk_job "a") (verdict question fresh) opened

opened-IsSound : IsSound desk none none opened
unfolding active_jobs listed empty_queue count effective_active_limit fresh
opened-IsSound = record {
  once = tt;
  queued_known = λ e m. absurd m;
  granted_known = λ k h. cc;
  granted_backed = λ k h. cc;
  within = omega arith;
}

opened-Reaches :
    Reaches desk none none digits opened
      (record one_in { runtime = complete_request one_in.runtime "a" 4 })
unfolding lookup fresh
opened-Reaches =
    later (later here (submits opened 0 (desk_job "a") question none refl)) (completes one_in 4 "a")

Reaches-IsSound_example :
    IsSound desk none none (record one_in { runtime = complete_request one_in.runtime "a" 4 })
Reaches-IsSound_example = Reaches-IsSound desk none none digits opened-IsSound opened-Reaches

abbrev alone : RequestQueue
alone = record empty_queue { entries = first ∷ [] }

lone_waiter_runs_example :
    (wait_round desk (callbacks desk none none) 3 first false alone fresh).poll ≡ returned true
unfolding is_granted listed empty_queue is_expired active_capacity_available effective_active_limit
    active_jobs count fresh active_jobs_for_lane
lone_waiter_runs_example =
    lone_waiter_runs desk none none 3 first alone fresh refl refl refl refl refl

abbrev office_context : CapacityContext
office_context = request_context desk none none digits question office (some "text") (some 1) none

abbrev office_limit : ℕ
office_limit = limit_now desk none none digits question office (some "text") (some 1) none

office_queues : (verdict question office).reason ≡ AdmissionDecision.queued
unfolding evaluate_chat_request estimate_prompt_chars capacity_verdict request_budgets
    context_budgets request_cost estimate_request_cost evaluate evidence effective_active_limit
    decide evaluate_context active_jobs active_jobs_for_lane queue_depth count lookup same
office_queues = refl

evaluate_chat_request-queued_example :
    IsWellFormed desk question
    × (true ≡ true)
    × (fits_context office_context ≡ true)
    × (((active_capacity_available desk none none office (some "text") (some 1) ≡ false)
          × (queue_depth office < 4))
        ⊎ IsHeldBack desk office_context office_limit)
evaluate_chat_request-queued_example =
    evaluate_chat_request-queued desk none none digits question office (some "text") (some 1) none
      office_queues
