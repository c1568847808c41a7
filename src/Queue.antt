-- ===== src/Queue.antt =====
-- whooshd/queue.py: the queue of requests that wait for a slot. An entry is identified by its
-- request. The entry object is shared by the queue and by the caller that waits for it, so its
-- `granted` flag, with the event that is set beside it, is kept as the list `granted` of request
-- identifiers. `now` is the monotonic clock; the three callables of a caller read and write a
-- state `W` of the caller's.
pub mod Entries
pub mod Grants
pub mod Waiting
pub mod Rounds
pub mod Batches
use whooshd.Base.{
  ℕ, ◌+◌, String, Bool, true, false, Option, none, some, List, [], ◌∷◌, ◌++◌, ltb, leb,
  if◌then◌else◌, not, length, keep, same,
}
use whooshd.Config.{Config}
use whooshd.Scheduler.{new as no_decisions}
use whooshd.Scheduler.{
  Scheduler, SchedulerCandidate, SchedulerDecision, bypasses, choose_next, remove_request,
}

pub record QueueEntry : Type 0 where
  pub request_id : String
  pub model : Option String
  pub stream : Bool
  pub enqueued_at : ℕ
  pub lane : Option String
  pub lane_max_concurrent : Option ℕ
  pub deadline_at : Option ℕ

pub record RequestQueue : Type 0 where
  pub entries : List QueueEntry
  pub capacity_event : Bool
  pub scheduler : Scheduler
  pub granted : List String

unfoldable pub new : RequestQueue
new = record { entries = []; capacity_event = false; scheduler = no_decisions; granted = [] }

unfoldable pub depth : RequestQueue → ℕ
depth q = length q.entries

abbrev pub is_full : Config → RequestQueue → Bool
is_full cfg q = leb cfg.max_queue_depth (length q.entries)

-- No entry has the attribute `cache_ready`, so the candidate's default is used.
abbrev pub candidate : Scheduler → QueueEntry → SchedulerCandidate
candidate s e = record {
  request_id = e.request_id;
  queued_at = e.enqueued_at;
  model = e.model;
  stream = e.stream;
  threadwake_cache_ready = false;
  bypass_count = bypasses s.bypass_counts e.request_id;
}

unfoldable pub candidates_of : Scheduler → List QueueEntry → List SchedulerCandidate
candidates_of s [] = []
candidates_of s (e ∷ es) = candidate s e ∷ candidates_of s es

unfoldable pub build_candidates : RequestQueue → List SchedulerCandidate
build_candidates q = candidates_of q.scheduler q.entries

-- An entry with no deadline does not expire.
unfoldable pub is_expired : ℕ → QueueEntry → Bool
is_expired now e = elim (e.deadline_at) [ none ↦ false | some t ↦ leb t now ]

abbrev pub stamp : ℕ → QueueEntry → QueueEntry
stamp deadline e = elim (e.deadline_at) [
  | none ↦ record e { deadline_at = some deadline }
  | some _ ↦ e
]

unfoldable pub enqueue : Config → ℕ → RequestQueue → QueueEntry → RequestQueue
enqueue cfg now q e = record q { entries = q.entries ++ (stamp (now + cfg.queue_timeout) e ∷ []) }

-- The first entry of the request, and the entries without it.
unfoldable pub find : String → List QueueEntry → Option QueueEntry
find rid [] = none
find rid (e ∷ es) = if same e.request_id rid then some e else find rid es

unfoldable pub delete : String → List QueueEntry → List QueueEntry
delete rid [] = []
delete rid (e ∷ es) = if same e.request_id rid then es else e ∷ delete rid es

unfoldable pub remove : RequestQueue → String → RequestQueue × Option QueueEntry
remove q rid = elim (find rid q.entries) [
  | none ↦ (q, none)
  | some e ↦ (
    record q { entries = delete rid q.entries; scheduler = remove_request q.scheduler rid },
    some e,
  )
]

abbrev pub peek : RequestQueue → Option QueueEntry
peek q = elim (q.entries) [ [] ↦ none | e ∷ es ↦ some e ]

unfoldable pub dequeue : RequestQueue → RequestQueue × Option QueueEntry
dequeue q = elim (q.entries) [
  | [] ↦ (q, none)
  | e ∷ es ↦
      (record q { entries = es; scheduler = remove_request q.scheduler e.request_id }, some e)
]

abbrev pub notify_capacity : RequestQueue → RequestQueue
notify_capacity q = record q { capacity_event = true }

abbrev pub clear_capacity_signal : RequestQueue → RequestQueue
clear_capacity_signal q = record q { capacity_event = false }

unfoldable pub mark_granted : RequestQueue → String → RequestQueue
mark_granted q rid = record q { granted = rid ∷ q.granted }

unfoldable pub listed : String → List String → Bool
listed rid [] = false
listed rid (r ∷ rs) = if same r rid then true else listed rid rs

unfoldable pub is_granted : RequestQueue → String → Bool
is_granted q rid = listed rid q.granted

-- `by_id.get(rid)`: the last entry of the request.
unfoldable pub by_id : List QueueEntry → String → Option QueueEntry
by_id [] rid = none
by_id (e ∷ es) rid = elim (by_id es rid) [
  | none ↦ if same e.request_id rid then some e else none
  | some later ↦ some later
]

abbrev entry_test : (QueueEntry → Bool) → Bool → Option QueueEntry → Bool
entry_test p missing none = missing
entry_test p missing (some e) = p e

unfoldable pub live : ℕ → List QueueEntry → SchedulerCandidate → Bool
live now es c = not (entry_test (is_expired now) false (by_id es c.request_id))

unfoldable pub eligible : (QueueEntry → Bool) → List QueueEntry → SchedulerCandidate → Bool
eligible p es c = entry_test p false (by_id es c.request_id)

-- A caller's callables. Every caller gives all three.
pub record Callbacks (W : Type 0) : Type 0 where
  pub capacity_available : W → Bool
  pub entry_eligible : W → QueueEntry → Bool
  pub reserve : W → QueueEntry → W

pub record Selection (W : Type 0) : Type 0 where
  pub queue : RequestQueue
  pub world : W
  pub selected : Option QueueEntry

module _ {W : Type 0} (cfg : Config) (cb : Callbacks W) where
  -- A decision that selects nothing is recorded by the scheduler.
  abbrev pub no_selection : RequestQueue → W → List SchedulerCandidate → Selection W
  no_selection q w cs = record {
    queue = record q { scheduler = (choose_next cfg q.scheduler cs false).0 };
    world = w;
    selected = none;
  }

  -- The end of `select_and_dequeue`, once the entry has been removed.
  unfoldable pub grant : W → RequestQueue × Option QueueEntry → Selection W
  grant w (q, none) = record { queue = q; world = w; selected = none }
  grant w (q, some e) = record {
    queue = mark_granted q e.request_id;
    world = cb.reserve w e;
    selected = some e;
  }

  unfoldable pub commit : RequestQueue → W → Scheduler × SchedulerDecision → Selection W
  commit q w (s, d) = elim (d.request_id) [
    | none ↦ record { queue = record q { scheduler = s }; world = w; selected = none }
    | some rid ↦ grant w (remove (record q { scheduler = s }) rid)
  ]

  unfoldable pub select_eligible :
      RequestQueue → W → List SchedulerCandidate → List SchedulerCandidate → Selection W
  select_eligible q w waiting [] = no_selection q w waiting
  select_eligible q w waiting (c ∷ cs) = commit q w (choose_next cfg q.scheduler (c ∷ cs) true)

  unfoldable pub select_live :
      RequestQueue → W → List SchedulerCandidate → List SchedulerCandidate → Selection W
  select_live q w waiting [] = no_selection q w waiting
  select_live q w waiting (c ∷ cs) =
      select_eligible q w (c ∷ cs) (keep (eligible (cb.entry_eligible w) q.entries) (c ∷ cs))

  unfoldable pub select_waiting : ℕ → RequestQueue → W → List SchedulerCandidate → Selection W
  select_waiting now q w [] = record { queue = q; world = w; selected = none }
  select_waiting now q w (c ∷ cs) =
      if not (cb.capacity_available w)
      then no_selection q w (c ∷ cs)
      else select_live q w (c ∷ cs) (keep (live now q.entries) (c ∷ cs))

  unfoldable pub select_and_dequeue : ℕ → RequestQueue → W → Selection W
  select_and_dequeue now q w = select_waiting now q w (build_candidates q)

-- What one round of the loop of `wait_for_execution` does: it returns, it waits for a signal and
-- tries again, or it waits for one and then clears the signal.
pub data Poll : Type 0 where
  returned : Bool → Poll
  deferred waiting : Poll

pub record Round (W : Type 0) : Type 0 where
  pub queue : RequestQueue
  pub world : W
  pub poll : Poll

abbrev pub selects : String → Option QueueEntry → Bool
selects rid none = false
selects rid (some e) = same e.request_id rid

abbrev pub at_front : String → RequestQueue → Bool
at_front rid q = selects rid (peek q)

module _ {W : Type 0} (cfg : Config) (cb : Callbacks W) (now : ℕ) (e : QueueEntry) where
  abbrev finished : RequestQueue → W → Bool → Round W
  finished q w b = record { queue = q; world = w; poll = returned b }

  -- The entry's own removal, by a cancellation or at its deadline.
  abbrev leave : RequestQueue → W → Round W
  leave q w = finished (remove q e.request_id).0 w false

  unfoldable pub after_select : Selection W → Round W
  after_select s =
      if selects e.request_id s.selected
      then finished s.queue s.world true
      else if is_expired now e
      then leave s.queue s.world
      else record { queue = s.queue; world = s.world; poll = deferred }

  -- One round for an entry whose deadline was stamped when it was enqueued; `cancelled` is what
  -- the token answers.
  unfoldable pub wait_round : Bool → RequestQueue → W → Round W
  wait_round cancelled q w =
      if cancelled
      then leave q w
      else if is_granted q e.request_id
      then (if is_expired now e then leave q w else finished q w true)
      else if at_front e.request_id q
      then (if cb.capacity_available w
          then after_select (select_and_dequeue cfg cb now q w)
          else if is_expired now e
          then leave q w
          else record { queue = q; world = w; poll = waiting })
      else if is_expired now e
      then leave q w
      else record { queue = q; world = w; poll = waiting }

-- The queue as the next round finds it, after the wait.
abbrev pub resume : Poll → RequestQueue → RequestQueue
resume waiting q = clear_capacity_signal q
resume _ q = q
