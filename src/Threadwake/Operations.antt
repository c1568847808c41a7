-- ===== src/Threadwake/Operations.antt =====
-- whooshd/runtime/threadwake/index.py: the methods of `ThreadWakeIndex` on entries. The lock makes
-- each of them one step.
use whooshd.Base.{
  ℕ, ◌+◌, String, Bool, true, false, ◌&&◌, Option, none, some, List, [], ◌∷◌, ◌++◌, if◌then◌else◌,
  not, length, same, Dict, lookup, insert, erase,
}
use whooshd.Threadwake.Index.{
  ThreadWakeIndex, ThreadWakeIndexEntry, EntryStatus, observed, ready, stale, evicted, Limits,
  ScopeContext, touch, promote_lru, remove_first, evict_if_needed, estimate_memory, scope_id_for,
  scope_matches,
}

-- The arguments of `put_observation`.
pub record Observation : Type 0 where
  pub cache_key : String
  pub model_id : String
  pub backend : String
  pub prompt_prefix_hash : String
  pub token_count : ℕ
  pub scope : String
  pub scope_context : ScopeContext
  pub kv_handle_id : Option String

-- How `put_observation` ends: with the new index, or with one of two exceptions.
pub data PutResult : Type 0 where
  stored : ThreadWakeIndex → PutResult
  value_error : PutResult
  key_error : PutResult

abbrev pub result_of : Option ThreadWakeIndex → PutResult
result_of none = key_error
result_of (some ix) = stored ix

abbrev pub is_evicted : EntryStatus → Bool
is_evicted evicted = true
is_evicted _ = false

abbrev pub is_stale : EntryStatus → Bool
is_stale stale = true
is_stale _ = false

-- The new handle, or else the old one.
abbrev pub handle_or : Option String → Option String → Option String
handle_or none old = old
handle_or (some h) old = some h

module _ (sha256_hex : String → String) (lim : Limits) where
  unfoldable pub fresh_entry : ℕ → Observation → ThreadWakeIndexEntry
  fresh_entry now o = record {
    cache_key = o.cache_key;
    model_id = o.model_id;
    backend = o.backend;
    prompt_prefix_hash = o.prompt_prefix_hash;
    token_count = o.token_count;
    status = observed;
    scope = o.scope;
    scope_id = scope_id_for sha256_hex o.scope o.scope_context;
    kv_handle_id = o.kv_handle_id;
    created_at = now;
    last_used_at = now;
    hit_count = 0;
    estimated_memory_bytes = estimate_memory lim o.token_count;
    candidate_score = none;
    candidate_confidence = none;
    candidate_selected_at = none;
    selection_reason = none;
    potential_saved_tokens = none;
    potential_saved_ratio = none;
    candidate_seen_count = 0;
    candidate_last_seen_at = none;
  }

  -- The entry of a key that is observed again.
  unfoldable pub observe_again : ℕ → Observation → ThreadWakeIndexEntry → ThreadWakeIndexEntry
  observe_again now o e =
      let t = touch now e in
      record t {
        token_count = o.token_count;
        estimated_memory_bytes = estimate_memory lim o.token_count;
        kv_handle_id = handle_or o.kv_handle_id e.kv_handle_id;
        scope = o.scope;
        scope_id = scope_id_for sha256_hex o.scope o.scope_context;
      }

  unfoldable pub put_observation : ℕ → Observation → ThreadWakeIndex → PutResult
  put_observation now o ix =
      if same o.scope "global" && not lim.allow_global
      then value_error
      else elim (lookup o.cache_key ix.entries) [
        | some e ↦ stored (record ix {
          entries = insert o.cache_key (observe_again now o e) ix.entries;
          lru = promote_lru o.cache_key ix.lru;
        })
        | none ↦ result_of (
            evict_if_needed lim (record ix {
              entries = insert o.cache_key (fresh_entry now o) ix.entries;
              lru = ix.lru ++ (o.cache_key ∷ []);
            }))
      ]

  abbrev miss : ThreadWakeIndex → ThreadWakeIndex × Option ThreadWakeIndexEntry
  miss ix = (record ix { miss_count = ix.miss_count + 1 }, none)

  abbrev hit :
      ℕ
      → String
      → ThreadWakeIndexEntry
      → ThreadWakeIndex
      → ThreadWakeIndex × Option ThreadWakeIndexEntry
  hit now k e ix = (
    record ix {
      entries = insert k (touch now e) ix.entries;
      lru = promote_lru k ix.lru;
      hit_count = ix.hit_count + 1;
    },
    some (touch now e),
  )

  -- What `get` does with the entry that it finds.
  unfoldable pub read_entry :
      ℕ
      → String
      → ScopeContext
      → ThreadWakeIndexEntry
      → ThreadWakeIndex
      → ThreadWakeIndex × Option ThreadWakeIndexEntry
  read_entry now k ctx e ix =
      if is_evicted e.status
      then miss ix
      else if not (scope_matches sha256_hex lim e ctx)
      then miss ix
      else if is_stale e.status
      then miss ix
      else hit now k e ix

  unfoldable pub get :
      ℕ → String → ScopeContext → ThreadWakeIndex → ThreadWakeIndex × Option ThreadWakeIndexEntry
  get now k ctx ix = elim (lookup k ix.entries) [
    | none ↦ miss ix
    | some e ↦ read_entry now k ctx e ix
  ]

unfoldable pub mark_ready : String → ThreadWakeIndex → ThreadWakeIndex
mark_ready k ix = elim (lookup k ix.entries) [
  | none ↦ ix
  | some e ↦ record ix {
    entries = insert k (record e { status = ready }) ix.entries;
    lru = promote_lru k ix.lru;
  }
]

unfoldable pub mark_stale : String → ThreadWakeIndex → ThreadWakeIndex
mark_stale k ix = elim (lookup k ix.entries) [
  | none ↦ ix
  | some e ↦ record ix { entries = insert k (record e { status = stale }) ix.entries }
]

unfoldable pub evict : String → ThreadWakeIndex → ThreadWakeIndex
evict k ix = elim (lookup k ix.entries) [
  | none ↦ ix
  | some e ↦ record ix {
    entries = erase k ix.entries;
    lru = remove_first k ix.lru;
    evictions = ix.evictions + 1;
  }
]

-- The filters of `flush`; those given must all match.
pub record Filters : Type 0 where
  pub scope : Option String
  pub model_id : Option String
  pub scope_id_hashed : Option String

abbrev passes : Option String → String → Bool
passes none x = true
passes (some y) x = same x y

abbrev passes_id : Option String → Option String → Bool
passes_id none x = true
passes_id (some y) none = false
passes_id (some y) (some x) = same x y

unfoldable pub is_flushed : Filters → ThreadWakeIndexEntry → Bool
is_flushed f e =
    passes f.scope e.scope
    && (passes f.model_id e.model_id && passes_id f.scope_id_hashed e.scope_id)

unfoldable pub keys_to_remove : Filters → Dict ThreadWakeIndexEntry → List String
keys_to_remove f [] = []
keys_to_remove f ((k, e) ∷ d) =
    if is_flushed f e then k ∷ keys_to_remove f d else keys_to_remove f d

unfoldable pub drop_all : List String → ThreadWakeIndex → ThreadWakeIndex
drop_all [] ix = ix
drop_all (k ∷ ks) ix =
    drop_all ks (record ix { entries = erase k ix.entries; lru = remove_first k ix.lru })

abbrev pub is_unfiltered : Filters → Bool
is_unfiltered f = elim f.scope [
  | some _ ↦ false
  | none ↦ elim f.model_id [
    | some _ ↦ false
    | none ↦ elim f.scope_id_hashed [ some _ ↦ false | none ↦ true ]
  ]
]

unfoldable pub flush : Filters → ThreadWakeIndex → ThreadWakeIndex × ℕ
flush f ix =
    let to_remove = keys_to_remove f ix.entries in
    let left = drop_all to_remove ix in
    if is_unfiltered f
    then (
      record ix { entries = []; lru = []; evictions = ix.evictions + length ix.entries },
      length ix.entries,
    )
    else (record left { evictions = left.evictions + length to_remove }, length to_remove)

pub record Selection : Type 0 where
  pub score : ℕ
  pub confidence : String
  pub selection_reason : String
  pub potential_saved_tokens : ℕ
  pub potential_saved_ratio : ℕ
  pub selected_at : Option ℕ

abbrev given_or : ℕ → Option ℕ → ℕ
given_or now none = now
given_or now (some t) = t

unfoldable pub select_entry : ℕ → Selection → ThreadWakeIndexEntry → ThreadWakeIndexEntry
select_entry now s e = record e {
  candidate_score = some s.score;
  candidate_confidence = some s.confidence;
  candidate_selected_at = some (given_or now s.selected_at);
  selection_reason = some s.selection_reason;
  potential_saved_tokens = some s.potential_saved_tokens;
  potential_saved_ratio = some s.potential_saved_ratio;
  candidate_seen_count = e.candidate_seen_count + 1;
  candidate_last_seen_at = some now;
}

unfoldable pub mark_candidate_selected :
    ℕ → String → Selection → ThreadWakeIndex → ThreadWakeIndex × Bool
mark_candidate_selected now k s ix = elim (lookup k ix.entries) [
  | none ↦ (ix, false)
  | some e ↦ (
    record ix { entries = insert k (select_entry now s e) ix.entries; lru = promote_lru k ix.lru },
    true,
  )
]
