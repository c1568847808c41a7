-- ===== src/Examples/Streams.antt =====
-- Concrete runs of the streams and the scheduler of continuous batching.
use whooshd.Base.{ℕ, ◌≡◌, refl, String, true, none, some, List, [], ◌∷◌, lookup, same, count}
use whooshd.Continuous.{ContinuousRequestHandle, ContinuousOutputChunk, ContinuousSlotState}
use whooshd.Continuous.Channels.{Call, opens, routes, drains, completes, run_calls, IsChannel}
use whooshd.Continuous.Lives.{
  Call as SchedulerCall, admits, ticks, drains as drains_outputs, cancels,
  run_calls as run_scheduler, Lives, is_about,
}
use whooshd.Continuous.Scheduler.{
  FakeContinuousSchedulerConfig, FakeTokenLevelScheduler, new_request,
}
use whooshd.Continuous.Starvation.{run_calls-starved}
use whooshd.Continuous.Ticks.{empties}
use whooshd.Continuous.Traces.{run_calls-IsChannel}

abbrev piece : String → ℕ → ContinuousOutputChunk
piece rid n = record {
  request_id = rid;
  slot_id = "slot-0";
  sequence_index = n;
  text = some "x";
  finish_reason = none;
}

abbrev traffic : List Call
traffic =
    opens "a"
    ∷ opens "b"
    ∷ routes (piece "a" 0) ("a" ∷ []) ("slot-0" ∷ [])
    ∷ drains "a"
    ∷ routes (piece "b" 0) [] []
    ∷ routes (piece "a" 1) ("a" ∷ []) []
    ∷ completes "a"
    ∷ routes (piece "a" 2) [] []
    ∷ []

run_calls-IsChannel_example :
    IsChannel "a" (lookup "a" (run_calls "a" traffic [] []).0) (run_calls "a" traffic [] []).1
run_calls-IsChannel_example = run_calls-IsChannel "a" traffic

abbrev ask : String → ContinuousRequestHandle
ask rid = record {
  request_id = rid;
  model = "m";
  backend = "mlx";
  stream = true;
  admitted_at = 0;
  max_tokens = none;
  sampling_class = none;
}

abbrev two_steps : FakeContinuousSchedulerConfig
two_steps = record {
  max_slots = 1;
  max_prefill_per_tick = 2;
  max_decode_per_tick = 2;
  max_decode_steps_per_request = 2;
}

abbrev label : String → ℕ → String
label rid n = rid

-- One slot, and a request that waits for it.
abbrev one_free : FakeTokenLevelScheduler
one_free = record {
  requests = ("a", new_request (ask "a")) ∷ [];
  slots =
      record {
        slot_id = "slot-0";
        state = ContinuousSlotState.empty;
        request_id = none;
        decode_step_index = 0;
      }
      ∷ [];
  tick_index = 0;
  pending_admission = "a" ∷ [];
}

-- The slot has been released, and the request waits still.
abbrev none_free : FakeTokenLevelScheduler
none_free = record one_free {
  slots =
      record {
        slot_id = "slot-0";
        state = ContinuousSlotState.released;
        request_id = none;
        decode_step_index = 0;
      }
      ∷ [];
}

abbrev served_then_cancelled : List SchedulerCall
served_then_cancelled =
    ticks ∷ admits (ask "b") ∷ ticks ∷ drains_outputs "a" ∷ ticks ∷ cancels "a" ∷ []

run_calls-starved_example :
    (empties (run_scheduler label two_steps (ticks ∷ admits (ask "b") ∷ ticks ∷ []) none_free) ≡ 0)
    × (lookup "a"
          (run_scheduler label two_steps (ticks ∷ admits (ask "b") ∷ ticks ∷ []) none_free).requests
        ≡ some (new_request (ask "a")))
unfolding lookup same is_about count new_request
run_calls-starved_example =
    run_calls-starved label two_steps "a" (ticks ∷ admits (ask "b") ∷ ticks ∷ []) none_free
      (new_request (ask "a")) refl refl refl (refl, (refl, (refl, tt)))
