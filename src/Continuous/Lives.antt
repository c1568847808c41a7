-- ===== src/Continuous/Lives.antt =====
-- whooshd/continuous_scheduler.py: one request over any sequence of calls of the scheduler.
use whooshd.Base.{
  ℕ, ◌≡◌, ap, ◌∙◌, ◌⊎◌, String, Bool, true, false, Option, some, List, [], ◌∷◌, if◌then◌else◌, Dict,
  lookup, insert, lookup-insert, same,
}
use whooshd.Continuous.{
  ContinuousRequestState, ContinuousRequestHandle, ContinuousFinishReason, is_terminal, cancelled,
  timed_out, failed,
}
use whooshd.Continuous.Scheduler.{
  FakeContinuousRequest, FakeContinuousSchedulerConfig, FakeTokenLevelScheduler, admit, cancel,
  timeout, fail_request, tick, drain_outputs,
}
use whooshd.Continuous.Moves.{Reaches, IsOrderly}

pub data Call : Type 0 where
  admits : ContinuousRequestHandle → Call
  cancels times_out fails drains : String → Call
  ticks : Call

-- Whether a call admits the request, and whether it names it at all.
unfoldable pub is_admission_of : String → Call → Bool
is_admission_of rid (admits h) = same h.request_id rid
is_admission_of rid _ = false

unfoldable pub is_about : String → Call → Bool
is_about rid (admits h) = same h.request_id rid
is_about rid (cancels k) = same k rid
is_about rid (times_out k) = same k rid
is_about rid (fails k) = same k rid
is_about rid (drains k) = same k rid
is_about rid ticks = false

-- The call ends that request, in that state and with that reason.
abbrev pub IsEnd : String → Call → ContinuousRequestState → Option ContinuousFinishReason → Type 0
IsEnd rid (cancels k) st why =
    (same k rid ≡ true) × (st ≡ cancelled) × (why ≡ some ContinuousFinishReason.cancelled)
IsEnd rid (times_out k) st why =
    (same k rid ≡ true) × (st ≡ timed_out) × (why ≡ some ContinuousFinishReason.timeout)
IsEnd rid (fails k) st why =
    (same k rid ≡ true) × (st ≡ failed) × (why ≡ some ContinuousFinishReason.error)
IsEnd rid (admits h) st why = ⊥
IsEnd rid (drains k) st why = ⊥
IsEnd rid ticks st why = ⊥

-- One of the calls does.
abbrev pub IsEndedBy :
    String → List Call → ContinuousRequestState → Option ContinuousFinishReason → Type 0
IsEndedBy rid [] st why = ⊥
IsEndedBy rid (c ∷ cs) st why = IsEnd rid c st why ⊎ IsEndedBy rid cs st why

-- An entry under another key is not touched.
pub lookup-other :
    {V : Type 0} (k rid : String) (v : V) (d : Dict V)
    → same k rid ≡ false
    → lookup rid (insert k v d) ≡ lookup rid d
lookup-other k rid v d n = lookup-insert k rid v d ∙ ap (λ b. if b then some v else lookup rid d) n

module _ (chunk_text : String → ℕ → String) (cfg : FakeContinuousSchedulerConfig) where
  unfoldable pub call : Call → FakeTokenLevelScheduler → FakeTokenLevelScheduler
  call (admits h) s = admit h s
  call (cancels k) s = cancel k s
  call (times_out k) s = timeout k s
  call (fails k) s = fail_request k s
  call (drains k) s = (drain_outputs k s).0
  call ticks s = tick chunk_text cfg s

  unfoldable pub run_calls : List Call → FakeTokenLevelScheduler → FakeTokenLevelScheduler
  run_calls [] s = s
  run_calls (c ∷ cs) s = run_calls cs (call c s)

  -- How a request comes to its state: it goes along the machine, and there it stays, or if it is not
  -- terminal yet, one of the calls ends it.
  abbrev pub Course : String → List Call → ContinuousRequestState → FakeContinuousRequest → Type 0
  Course rid cs from r' =
      (m : ContinuousRequestState) × Reaches from m
      × ((r'.state ≡ m) ⊎ ((is_terminal m ≡ false) × IsEndedBy rid cs r'.state r'.finish_reason))

  -- What becomes of a stored request over some calls.
  abbrev pub Lived : String → List Call → FakeContinuousRequest → FakeContinuousRequest → Type 0
  Lived rid cs r r' =
      Course rid cs r.state r'
      × (IsOrderly cfg r → IsOrderly cfg r')
      × (r'.handle ≡ r.handle)
      × (is_terminal r.state ≡ true → (r'.state ≡ r.state) × (r'.finish_reason ≡ r.finish_reason))

  abbrev pub Lives : String → List Call → FakeContinuousRequest → FakeTokenLevelScheduler → Type 0
  Lives rid cs r s' =
      (r' : FakeContinuousRequest) × (lookup rid s'.requests ≡ some r') × Lived rid cs r r'
