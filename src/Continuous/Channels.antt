-- ===== src/Continuous/Channels.antt =====
-- whooshd/continuous_streaming.py: what one request's stream carries, whatever the other requests do.
use whooshd.Base.{
  ℕ, suc, ◌≡◌, String, Bool, true, false, Option, none, some, List, [], ◌∷◌, ◌++◌, if◌then◌else◌,
  length, All, same,
}
use whooshd.Continuous.{ContinuousOutputChunk}
use whooshd.Continuous.Streaming.{
  FakeStreamEvent, FakeStreamEventKind, FakeStreamState, FakeRequestStream, Streams, open_stream,
  route_chunk, complete, cancel, timeout, fail, drain_events, state_of, open_now, chunk,
}

pub data Call : Type 0 where
  opens : String → Call
  routes : ContinuousOutputChunk → List String → List String → Call
  completes cancels times_out fails : String → Call
  drains : String → Call

-- The request that a call is about.
unfoldable pub subject : Call → String
subject (opens r) = r
subject (routes c _ _) = c.request_id
subject (completes r) = r
subject (cancels r) = r
subject (times_out r) = r
subject (fails r) = r
subject (drains r) = r

-- The streams after a call, and the events that it hands out.
unfoldable pub call : Call → Streams → Streams × List FakeStreamEvent
call (opens r) d = (open_stream r d, [])
call (routes c ids slots) d = ((route_chunk c ids slots d).0, [])
call (completes r) d = ((complete r d).0, [])
call (cancels r) d = ((cancel r d).0, [])
call (times_out r) d = ((timeout r d).0, [])
call (fails r) d = ((fail r d).0, [])
call (drains r) d = drain_events r d

-- The streams after some calls, and the events of one request that they have handed out, after
-- those that were handed out before.
unfoldable pub run_calls :
    String → List Call → Streams → List FakeStreamEvent → Streams × List FakeStreamEvent
run_calls rid [] d seen = (d, seen)
run_calls rid (c ∷ cs) d seen =
    run_calls rid cs (call c d).0 (if same (subject c) rid then seen ++ (call c d).1 else seen)

abbrev pub is_chunk : FakeStreamEventKind → Bool
is_chunk chunk = true
is_chunk _ = false

abbrev pub Chunks : List FakeStreamEvent → Type 0
Chunks es = All (λ e. is_chunk e.kind ≡ true) es

abbrev pub IsNumbered : ℕ → List FakeStreamEvent → Type 0
IsNumbered n [] = Unit
IsNumbered n (e ∷ es) = (e.sequence_index ≡ n) × IsNumbered (suc n) es

-- An open stream has carried chunks only, a closed one chunks and then the event that closed it.
abbrev pub IsClosedBy : FakeStreamState → List FakeStreamEvent → Type 0
IsClosedBy st es =
    (cs : List FakeStreamEvent) × (last : FakeStreamEvent) × (es ≡ cs ++ (last ∷ []))
    × Chunks cs
    × (is_chunk last.kind ≡ false)
    × (state_of last.kind ≡ st)

abbrev pub Carries : FakeStreamState → List FakeStreamEvent → Type 0
Carries open_now es = Chunks es
Carries st es = IsClosedBy st es

abbrev pub IsWhole : String → FakeRequestStream → List FakeStreamEvent → Type 0
IsWhole rid s es =
    IsNumbered 0 es
    × (length es ≡ s.next_sequence_index)
    × Carries s.state es
    × All (λ e. e.request_id ≡ rid) es

abbrev pub IsChannel : String → Option FakeRequestStream → List FakeStreamEvent → Type 0
IsChannel rid none seen = seen ≡ []
IsChannel rid (some s) seen = IsWhole rid s (seen ++ s.events)
