-- ===== src/Continuous/Scheduler.antt =====
-- whooshd/continuous_scheduler.py: the prototype of a scheduler that gives requests slots and
-- advances them tick by tick. `chunk_text` formats a chunk's request and index. A slot object is
-- changed in place, so the list of slots is the only copy of it. `_update_slot_state` does nothing
-- in the source, and its calls are left out.
use whooshd.Base.{
  ℕ, ◌+◌, ◌-◌, String, Bool, true, false, Option, none, some, List, [], ◌∷◌, ◌++◌, leb, not,
  if◌then◌else◌, same, Dict, lookup, insert,
}
use whooshd.Continuous.{
  ContinuousRequestHandle, ContinuousRequestState, ContinuousSlot, ContinuousSlotState,
  ContinuousFinishReason, ContinuousOutputChunk, is_terminal, admitted, prefill_pending,
  prefill_running, decode_active, stream_draining, completed, failed, cancelled, timed_out,
}

pub record FakeContinuousSchedulerConfig : Type 0 where
  pub max_slots : ℕ
  pub max_prefill_per_tick : ℕ
  pub max_decode_per_tick : ℕ
  pub max_decode_steps_per_request : ℕ

pub record FakeContinuousRequest : Type 0 where
  pub handle : ContinuousRequestHandle
  pub state : ContinuousRequestState
  pub slot_id : Option String
  pub prefill_ticks_remaining : ℕ
  pub decode_steps_completed : ℕ
  pub output_chunks : List ContinuousOutputChunk
  pub finish_reason : Option ContinuousFinishReason

pub record FakeTokenLevelScheduler : Type 0 where
  pub requests : Dict FakeContinuousRequest
  pub slots : List ContinuousSlot
  pub tick_index : ℕ
  pub pending_admission : List String

unfoldable pub new_request : ContinuousRequestHandle → FakeContinuousRequest
new_request h = record {
  handle = h;
  state = admitted;
  slot_id = none;
  prefill_ticks_remaining = 1;
  decode_steps_completed = 0;
  output_chunks = [];
  finish_reason = none;
}

unfoldable pub admit : ContinuousRequestHandle → FakeTokenLevelScheduler → FakeTokenLevelScheduler
admit h s = record s {
  requests = insert h.request_id (new_request h) s.requests;
  pending_admission = s.pending_admission ++ (h.request_id ∷ []);
}

abbrev pub holds : Option String → String → Bool
holds none rid = false
holds (some r) rid = same r rid

unfoldable pub release_slot_for : String → List ContinuousSlot → List ContinuousSlot
release_slot_for rid [] = []
release_slot_for rid (s ∷ ss) =
    if holds s.request_id rid
    then record s { state = ContinuousSlotState.released; request_id = none } ∷ ss
    else s ∷ release_slot_for rid ss

-- `cancel`, `timeout` and `fail_request`, which differ in the state and the reason alone.
unfoldable pub end_request :
    ContinuousRequestState
    → ContinuousFinishReason
    → String
    → FakeTokenLevelScheduler
    → FakeTokenLevelScheduler
end_request st reason rid s = elim (lookup rid s.requests) [
  | none ↦ s
  | some r ↦ if is_terminal r.state then s else record s {
    requests = insert rid (record r { state = st; finish_reason = some reason }) s.requests;
    slots = release_slot_for rid s.slots;
  }
]

unfoldable pub cancel : String → FakeTokenLevelScheduler → FakeTokenLevelScheduler
cancel = end_request cancelled ContinuousFinishReason.cancelled

unfoldable pub timeout : String → FakeTokenLevelScheduler → FakeTokenLevelScheduler
timeout = end_request timed_out ContinuousFinishReason.timeout

unfoldable pub fail_request : String → FakeTokenLevelScheduler → FakeTokenLevelScheduler
fail_request = end_request failed ContinuousFinishReason.error

abbrev pub is_empty : ContinuousSlot → Bool
is_empty s = elim s.state [ ContinuousSlotState.empty ↦ true | _ ↦ false ]

-- The first empty slot, reserved for a request, with its name.
unfoldable pub reserve_slot : String → List ContinuousSlot → Option (String × List ContinuousSlot)
reserve_slot rid [] = none
reserve_slot rid (s ∷ ss) =
    let rest = reserve_slot rid ss in
    if is_empty s
    then some
        (s.slot_id, record s { state = ContinuousSlotState.reserved; request_id = some rid } ∷ ss)
    else elim rest [ none ↦ none | some r ↦ some (r.0, s ∷ r.1) ]

-- `pending.remove(rid)`.
unfoldable pub remove_first : String → List String → List String
remove_first k [] = []
remove_first k (j ∷ js) = if same j k then js else j ∷ remove_first k js

abbrev pub is_admitted : ContinuousRequestState → Bool
is_admitted admitted = true
is_admitted _ = false

-- The loop of `_process_admission` over the copy of the pending names.
unfoldable pub admit_pending : List String → FakeTokenLevelScheduler → FakeTokenLevelScheduler
admit_pending [] s = s
admit_pending (rid ∷ rids) s =
    let dropped : FakeTokenLevelScheduler = record s {
      pending_admission = remove_first rid s.pending_admission;
    } in
    elim (lookup rid s.requests) [
      | none ↦ admit_pending rids dropped
      | some r ↦
          if not (is_admitted r.state)
          then admit_pending rids dropped
          else elim (reserve_slot rid s.slots) [
            | none ↦ s
            | some found ↦ admit_pending rids (record dropped {
              slots = found.1;
              requests =
                  insert rid (record r { state = prefill_pending; slot_id = some found.0 })
                    s.requests;
            })
          ]
    ]

unfoldable pub process_admission : FakeTokenLevelScheduler → FakeTokenLevelScheduler
process_admission s = admit_pending s.pending_admission s

unfoldable pub prefill_tick : FakeContinuousRequest → FakeContinuousRequest
prefill_tick r =
    let left = r.prefill_ticks_remaining - 1 in
    if leb left 0
    then record r { prefill_ticks_remaining = left; state = decode_active }
    else record r { prefill_ticks_remaining = left }

abbrev pub is_pending : ContinuousRequestState → Bool
is_pending prefill_pending = true
is_pending _ = false

abbrev pub is_running : ContinuousRequestState → Bool
is_running prefill_running = true
is_running _ = false

-- The loop of `_process_prefill`, with the number of requests started so far.
unfoldable pub prefill_requests : ℕ → ℕ → Dict FakeContinuousRequest → Dict FakeContinuousRequest
prefill_requests most n [] = []
prefill_requests most n ((k, r) ∷ d) =
    let started = prefill_requests most (n + 1) d in
    let others = prefill_requests most n d in
    if leb most n
    then (k, r) ∷ d
    else if is_pending r.state
    then (k, record r { state = prefill_running }) ∷ started
    else if is_running r.state
    then (k, prefill_tick r) ∷ others
    else (k, r) ∷ others

abbrev pub is_decoding : ContinuousRequestState → Bool
is_decoding decode_active = true
is_decoding _ = false

module _ (chunk_text : String → ℕ → String) (cfg : FakeContinuousSchedulerConfig) where
  abbrev name_or_blank : Option String → String
  name_or_blank none = ""
  name_or_blank (some x) = x

  unfoldable pub emit_chunk : FakeContinuousRequest → FakeContinuousRequest
  emit_chunk r =
      let c : ContinuousOutputChunk = record {
        request_id = r.handle.request_id;
        slot_id = name_or_blank r.slot_id;
        sequence_index = r.decode_steps_completed;
        text = some (chunk_text r.handle.request_id r.decode_steps_completed);
        finish_reason = none;
      } in
      record r {
        output_chunks = r.output_chunks ++ (c ∷ []);
        decode_steps_completed = r.decode_steps_completed + 1;
      }

  -- The loop of `_process_decode`, with the number of chunks emitted so far.
  unfoldable pub decode_requests : ℕ → Dict FakeContinuousRequest → Dict FakeContinuousRequest
  decode_requests n [] = []
  decode_requests n ((k, r) ∷ d) =
      let emitted = decode_requests (n + 1) d in
      let others = decode_requests n d in
      if not (is_decoding r.state)
      then (k, r) ∷ others
      else if leb cfg.max_decode_per_tick n
      then (k, r) ∷ d
      else if leb cfg.max_decode_steps_per_request r.decode_steps_completed
      then (
        k,
        record r { state = stream_draining; finish_reason = some ContinuousFinishReason.stop },
      )
        ∷ others
      else (k, emit_chunk r) ∷ emitted

-- The slot of that name loses its request, and keeps its state.
unfoldable pub vacate : Option String → List ContinuousSlot → List ContinuousSlot
vacate id [] = []
vacate id (s ∷ ss) =
    if holds id s.slot_id then record s { request_id = none } ∷ ss else s ∷ vacate id ss

abbrev pub is_draining : ContinuousRequestState → Bool
is_draining stream_draining = true
is_draining _ = false

-- The loop of `_process_drain`.
unfoldable pub drain_requests :
    Dict FakeContinuousRequest
    → List ContinuousSlot
    → Dict FakeContinuousRequest × List ContinuousSlot
drain_requests [] ss = ([], ss)
drain_requests ((k, r) ∷ d) ss =
    let drained = drain_requests d (vacate r.slot_id ss) in
    let others = drain_requests d ss in
    if is_draining r.state
    then ((k, record r { state = completed }) ∷ drained.0, drained.1)
    else ((k, r) ∷ others.0, others.1)

module _ (chunk_text : String → ℕ → String) (cfg : FakeContinuousSchedulerConfig) where
  unfoldable pub tick : FakeTokenLevelScheduler → FakeTokenLevelScheduler
  tick s =
      let s1 = process_admission (record s { tick_index = s.tick_index + 1 }) in
      let d2 = prefill_requests cfg.max_prefill_per_tick 0 s1.requests in
      let d3 = decode_requests chunk_text cfg 0 d2 in
      let r4 = drain_requests d3 s1.slots in record s1 { requests = r4.0; slots = r4.1 }

unfoldable pub drain_outputs :
    String → FakeTokenLevelScheduler → FakeTokenLevelScheduler × List ContinuousOutputChunk
drain_outputs rid s = elim (lookup rid s.requests) [
  | none ↦ (s, [])
  | some r ↦ (
    record s { requests = insert rid (record r { output_chunks = [] }) s.requests },
    r.output_chunks,
  )
]
