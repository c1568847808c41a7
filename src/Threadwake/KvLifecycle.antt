-- ===== src/Threadwake/KvLifecycle.antt =====
-- whooshd/runtime/threadwake/kv_lifecycle.py: the ring buffer of events about cached state, and the
-- totals that are kept beside it. `hash_id` is the shortened SHA-256 digest, `event_id` the random
-- identifier of an event, `timestamp` the wall clock.
pub mod Window
pub mod Totals
use whooshd.Base.{
  ℕ, suc, zero, ◌+◌, ◌-◌, max, String, Bool, true, false, Option, none, some, List, [], ◌∷◌, ◌++◌,
  ltb, if◌then◌else◌, length, same, truthy, Dict, lookup, insert,
}
use Prim.Native.Nat.{◌%◌}

pub record KvEvent : Type 0 where
  pub event_id : String
  pub event_type : String
  pub backend : Option String
  pub model_id : Option String
  pub capability : Option String
  pub request_id_hash : Option String
  pub thread_id_hash : Option String
  pub cache_key_hash : Option String
  pub kv_handle_id_hash : Option String
  pub token_start : Option ℕ
  pub token_end : Option ℕ
  pub token_count : Option ℕ
  pub reason : Option String
  pub timestamp : ℕ

-- The keyword arguments of `KVEvent.create`.
pub record EventArguments : Type 0 where
  pub backend : Option String
  pub model_id : Option String
  pub capability : Option String
  pub request_id : Option String
  pub thread_id : Option String
  pub cache_key : Option String
  pub kv_handle_id : Option String
  pub token_start : Option ℕ
  pub token_end : Option ℕ
  pub token_count : Option ℕ
  pub reason : Option String

abbrev hashed : (String → String) → Option String → Option String
hashed hash_id none = none
hashed hash_id (some raw) = some (hash_id raw)

unfoldable pub create : (String → String) → String → ℕ → String → EventArguments → KvEvent
create hash_id event_id now event_type a = record {
  event_id = event_id;
  event_type = event_type;
  backend = a.backend;
  model_id = a.model_id;
  capability = a.capability;
  request_id_hash = hashed hash_id a.request_id;
  thread_id_hash = hashed hash_id a.thread_id;
  cache_key_hash = hashed hash_id a.cache_key;
  kv_handle_id_hash = hashed hash_id a.kv_handle_id;
  token_start = a.token_start;
  token_end = a.token_end;
  token_count = a.token_count;
  reason = a.reason;
  timestamp = now;
}

pub record KvLifecycleStats : Type 0 where
  pub events_total : ℕ
  pub events_by_type : Dict ℕ
  pub events_by_backend : Dict ℕ
  pub active_handles_estimate : ℕ
  pub created_total : ℕ
  pub cloned_total : ℕ
  pub reused_total : ℕ
  pub released_total : ℕ
  pub invalidated_total : ℕ
  pub evicted_total : ℕ
  pub errors_total : ℕ
  pub last_event_at : Option ℕ

pub record KvLifecycleObserver : Type 0 where
  pub enabled : Bool
  pub max_events : ℕ
  pub events : List KvEvent
  pub cursor : ℕ
  pub active_handles : ℕ
  pub stats : KvLifecycleStats

unfoldable pub no_stats : KvLifecycleStats
no_stats = record {
  events_total = 0;
  events_by_type = [];
  events_by_backend = [];
  active_handles_estimate = 0;
  created_total = 0;
  cloned_total = 0;
  reused_total = 0;
  released_total = 0;
  invalidated_total = 0;
  evicted_total = 0;
  errors_total = 0;
  last_event_at = none;
}

unfoldable pub new : Bool → ℕ → KvLifecycleObserver
new enabled max_events = record {
  enabled = enabled;
  max_events = max max_events 1;
  events = [];
  cursor = 0;
  active_handles = 0;
  stats = no_stats;
}

-- `self._events[i] = event`, for an index in range.
unfoldable pub set_at {ℓ} : {A : Type ℓ} → ℕ → A → List A → List A
set_at i x [] = []
set_at zero x (y ∷ ys) = x ∷ ys
set_at (suc i) x (y ∷ ys) = y ∷ set_at i x ys

abbrev pub or_zero : Option ℕ → ℕ
or_zero none = 0
or_zero (some n) = n

-- `d[k] = d.get(k, 0) + 1`.
unfoldable pub bump : String → Dict ℕ → Dict ℕ
bump k d = insert k (or_zero (lookup k d) + 1) d

abbrev pub bump_backend : Option String → Dict ℕ → Dict ℕ
bump_backend none d = d
bump_backend (some b) d = if truthy b then bump b d else d

-- The handles in use after an event; an estimate below zero is zero.
unfoldable pub handles_after : String → ℕ → ℕ
handles_after event_type n =
    if same event_type "kv_created"
    then n + 1
    else if same event_type "kv_cloned"
    then n + 1
    else if same event_type "kv_released"
    then n - 1
    else if same event_type "kv_evicted"
    then n - 1
    else n

abbrev pub plus_if : Bool → ℕ → ℕ
plus_if true n = n + 1
plus_if false n = n

unfoldable pub update_stats : KvEvent → KvLifecycleObserver → KvLifecycleObserver
update_stats e o =
    let s = o.stats in
    let handles = handles_after e.event_type o.active_handles in
    record o {
      active_handles = handles;
      stats = record {
        events_total = s.events_total + 1;
        events_by_type = bump e.event_type s.events_by_type;
        events_by_backend = bump_backend e.backend s.events_by_backend;
        active_handles_estimate = handles;
        created_total = plus_if (same e.event_type "kv_created") s.created_total;
        cloned_total = plus_if (same e.event_type "kv_cloned") s.cloned_total;
        reused_total = plus_if (same e.event_type "kv_reused") s.reused_total;
        released_total = plus_if (same e.event_type "kv_released") s.released_total;
        invalidated_total = plus_if (same e.event_type "kv_invalidated") s.invalidated_total;
        evicted_total = plus_if (same e.event_type "kv_evicted") s.evicted_total;
        errors_total = plus_if (same e.event_type "kv_error") s.errors_total;
        last_event_at = some e.timestamp;
      };
    }

unfoldable pub write : KvEvent → KvLifecycleObserver → List KvEvent
write e o =
    if ltb (length o.events) o.max_events
    then o.events ++ (e ∷ [])
    else set_at (o.cursor % o.max_events) e o.events

unfoldable pub record_event : KvEvent → KvLifecycleObserver → KvLifecycleObserver
record_event e o =
    if o.enabled then update_stats e (record o { events = write e o; cursor = o.cursor + 1 }) else o

unfoldable pub clear : KvLifecycleObserver → KvLifecycleObserver × ℕ
clear o =
    (record o { events = []; cursor = 0; active_handles = 0; stats = no_stats }, length o.events)
