-- ===== src/Continuous.antt =====
-- whooshd/continuous_batching.py: the data of the contract of continuous batching, and its three
-- validators. The names of requests and slots that are active are lists.
pub mod Streaming
pub mod Channels
pub mod Events
pub mod Traces
pub mod Scheduler
pub mod Moves
pub mod Phases
pub mod Ticks
pub mod Lives
pub mod Starvation
use whooshd.Base.{
  ℕ, ◌+◌, String, Bool, true, false, ◌&&◌, Option, none, some, List, [], ◌∷◌, ◌++◌, leb,
  if◌then◌else◌, same, Dict, lookup, insert,
}

pub data ContinuousRequestState : Type 0 where
  admitted prefill_pending prefill_running decode_active : ContinuousRequestState
  stream_draining completed failed cancelled timed_out : ContinuousRequestState

pub record ContinuousRequestHandle : Type 0 where
  pub request_id : String
  pub model : String
  pub backend : String
  pub stream : Bool
  pub admitted_at : ℕ
  pub max_tokens : Option ℕ
  pub sampling_class : Option String

pub data ContinuousSlotState : Type 0 where
  empty reserved prefill decoding draining released failed : ContinuousSlotState

pub record ContinuousSlot : Type 0 where
  pub slot_id : String
  pub state : ContinuousSlotState
  pub request_id : Option String
  pub decode_step_index : ℕ

pub data ContinuousFinishReason : Type 0 where
  stop length cancelled timeout error : ContinuousFinishReason

pub record ContinuousOutputChunk : Type 0 where
  pub request_id : String
  pub slot_id : String
  pub sequence_index : ℕ
  pub text : Option String
  pub finish_reason : Option ContinuousFinishReason

pub data ContinuousBatchInvariantViolation : Type 0 where
  duplicate_slot_assignment unknown_request_id : ContinuousBatchInvariantViolation
  terminal_state_reentered output_demux_mismatch : ContinuousBatchInvariantViolation
  active_accounting_mismatch prompt_leak token_leak : ContinuousBatchInvariantViolation

-- `x in xs`.
unfoldable pub contains : String → List String → Bool
contains x [] = false
contains x (y ∷ ys) = if same y x then true else contains x ys

-- `violations.append(v)` under a test.
abbrev pub violation_if :
    Bool → ContinuousBatchInvariantViolation → List ContinuousBatchInvariantViolation
violation_if true v = v ∷ []
violation_if false v = []

abbrev pub is_terminal : ContinuousRequestState → Bool
is_terminal completed = true
is_terminal failed = true
is_terminal cancelled = true
is_terminal timed_out = true
is_terminal _ = false
