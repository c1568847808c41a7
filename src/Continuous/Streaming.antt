-- ===== src/Continuous/Streaming.antt =====
-- whooshd/continuous_streaming.py: the chunks of a shared decode loop, routed to one stream per
-- request. An operation returns the new streams and the violations that it reports.
use whooshd.Base.{
  ℕ, ◌+◌, String, Bool, true, false, Option, none, some, List, [], ◌∷◌, ◌++◌, ◌==◌, not,
  if◌then◌else◌, Dict, lookup, insert,
}
use whooshd.Continuous.{
  ContinuousBatchInvariantViolation, output_demux_mismatch, terminal_state_reentered,
  ContinuousFinishReason, ContinuousOutputChunk, contains, violation_if,
}

pub data FakeStreamEventKind : Type 0 where
  chunk completed cancelled timed_out failed : FakeStreamEventKind

pub data FakeStreamState : Type 0 where
  open_now completed cancelled timed_out failed : FakeStreamState

pub record FakeStreamEvent : Type 0 where
  pub request_id : String
  pub sequence_index : ℕ
  pub kind : FakeStreamEventKind
  pub text : Option String
  pub finish_reason : Option ContinuousFinishReason

pub record FakeRequestStream : Type 0 where
  pub request_id : String
  pub state : FakeStreamState
  pub next_sequence_index : ℕ
  pub events : List FakeStreamEvent
  pub terminal_emitted : Bool

abbrev pub Streams : Type 0
Streams = Dict FakeRequestStream

abbrev pub Violations : Type 0
Violations = List ContinuousBatchInvariantViolation

unfoldable pub open_stream : String → Streams → Streams
open_stream rid d = elim (lookup rid d) [
  | some s ↦ d
  | none ↦
      insert rid
        (record {
          request_id = rid;
          state = open_now;
          next_sequence_index = 0;
          events = [];
          terminal_emitted = false;
        })
        d
]

abbrev pub is_open : FakeStreamState → Bool
is_open open_now = true
is_open _ = false

-- A stream with one more event, which takes the next index.
unfoldable pub push : FakeStreamEvent → FakeRequestStream → FakeRequestStream
push e s = record s {
  events = s.events ++ (e ∷ []);
  next_sequence_index = s.next_sequence_index + 1;
}

abbrev pub chunk_event : ContinuousOutputChunk → FakeStreamEvent
chunk_event c = record {
  request_id = c.request_id;
  sequence_index = c.sequence_index;
  kind = chunk;
  text = c.text;
  finish_reason = none;
}

unfoldable pub route_chunk :
    ContinuousOutputChunk → List String → List String → Streams → Streams × Violations
route_chunk c active_request_ids active_slot_ids d =
    let vs =
      violation_if (not (contains c.request_id active_request_ids)) output_demux_mismatch
      ++ violation_if (not (contains c.slot_id active_slot_ids)) output_demux_mismatch in
    elim (lookup c.request_id d) [
      | none ↦ (d, vs ++ (output_demux_mismatch ∷ []))
      | some s ↦
          if not (is_open s.state)
          then (d, vs ++ (terminal_state_reentered ∷ []))
          else if not (c.sequence_index == s.next_sequence_index)
          then (d, vs ++ (output_demux_mismatch ∷ []))
          else (insert c.request_id (push (chunk_event c) s) d, vs)
    ]

-- `state_map.get(kind, COMPLETED)`.
abbrev pub state_of : FakeStreamEventKind → FakeStreamState
state_of completed = completed
state_of cancelled = cancelled
state_of timed_out = timed_out
state_of failed = failed
state_of chunk = completed

abbrev pub terminal_event :
    String → FakeStreamEventKind → ContinuousFinishReason → ℕ → FakeStreamEvent
terminal_event rid kind reason index = record {
  request_id = rid;
  sequence_index = index;
  kind = kind;
  text = none;
  finish_reason = some reason;
}

unfoldable pub emit_terminal :
    String → FakeStreamEventKind → ContinuousFinishReason → Streams → Streams × Violations
emit_terminal rid kind reason d = elim (lookup rid d) [
  | none ↦ (d, [])
  | some s ↦ if not (is_open s.state) then (d, terminal_state_reentered ∷ []) else (
    insert rid
        (push (terminal_event rid kind reason s.next_sequence_index)
          (record s { state = state_of kind; terminal_emitted = true }))
        d,
    [],
  )
]

unfoldable pub complete : String → Streams → Streams × Violations
complete rid = emit_terminal rid completed ContinuousFinishReason.stop

unfoldable pub cancel : String → Streams → Streams × Violations
cancel rid = emit_terminal rid cancelled ContinuousFinishReason.cancelled

unfoldable pub timeout : String → Streams → Streams × Violations
timeout rid = emit_terminal rid timed_out ContinuousFinishReason.timeout

unfoldable pub fail : String → Streams → Streams × Violations
fail rid = emit_terminal rid failed ContinuousFinishReason.error

unfoldable pub drain_events : String → Streams → Streams × List FakeStreamEvent
drain_events rid d = elim (lookup rid d) [
  | none ↦ (d, [])
  | some s ↦ (insert rid (record s { events = [] }) d, s.events)
]
