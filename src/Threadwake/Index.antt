-- ===== src/Threadwake/Index.antt =====
-- whooshd/runtime/threadwake/index.py: the index of cached prompt prefixes. The entries are a
-- dictionary, `lru` lists their keys from the least to the most recently used. `sha256_hex` is the
-- digest of keys.py, which the standard library computes; `now` is the wall clock. Scores and ratios
-- are whole numbers of ten-thousandths. An entry object that a caller still holds after its eviction
-- is not followed, and the entry that `put_observation` returns, which no caller reads, is left out.
use whooshd.Base.{
  ℕ, ◌+◌, ◌*◌, String, Bool, true, false, ◌&&◌, ◌||◌, Option, none, some, List, [], ◌∷◌, ◌++◌, ltb,
  if◌then◌else◌, not, length, same, truthy, Dict, erase, has_key,
}

pub data EntryStatus : Type 0 where
  observed : EntryStatus
  warming : EntryStatus
  ready : EntryStatus
  stale : EntryStatus
  evicted : EntryStatus

pub record ScopeContext : Type 0 where
  pub thread_id : Option String
  pub user_id : Option String
  pub project_id : Option String

pub record ThreadWakeIndexEntry : Type 0 where
  pub cache_key : String
  pub model_id : String
  pub backend : String
  pub prompt_prefix_hash : String
  pub token_count : ℕ
  pub status : EntryStatus
  pub scope : String
  pub scope_id : Option String
  pub kv_handle_id : Option String
  pub created_at : ℕ
  pub last_used_at : ℕ
  pub hit_count : ℕ
  pub estimated_memory_bytes : ℕ
  pub candidate_score : Option ℕ
  pub candidate_confidence : Option String
  pub candidate_selected_at : Option ℕ
  pub selection_reason : Option String
  pub potential_saved_tokens : Option ℕ
  pub potential_saved_ratio : Option ℕ
  pub candidate_seen_count : ℕ
  pub candidate_last_seen_at : Option ℕ

unfoldable pub touch : ℕ → ThreadWakeIndexEntry → ThreadWakeIndexEntry
touch now e = record e { last_used_at = now; hit_count = e.hit_count + 1 }

-- What the index is constructed with.
pub record Limits : Type 0 where
  pub max_entries : ℕ
  pub max_memory_bytes : ℕ
  pub bytes_per_token : ℕ
  pub allow_global : Bool

pub record ThreadTip : Type 0 where
  pub thread_id_hash : String
  pub model_id : String
  pub backend : String
  pub chain_hash : String
  pub segment_count : ℕ
  pub ordered_segment_hashes : List String
  pub kv_handle_id : Option String
  pub created_at : ℕ
  pub updated_at : ℕ

pub record ThreadWakeIndex : Type 0 where
  pub entries : Dict ThreadWakeIndexEntry
  pub lru : List String
  pub hit_count : ℕ
  pub miss_count : ℕ
  pub evictions : ℕ
  pub thread_tips : Dict ThreadTip

unfoldable pub new : ThreadWakeIndex
new = record {
  entries = [];
  lru = [];
  hit_count = 0;
  miss_count = 0;
  evictions = 0;
  thread_tips = [];
}

-- `_lru.remove(key)` under its guard: the first occurrence goes.
unfoldable pub remove_first : String → List String → List String
remove_first k [] = []
remove_first k (j ∷ lru) = if same j k then lru else j ∷ remove_first k lru

unfoldable pub promote_lru : String → List String → List String
promote_lru k lru = remove_first k lru ++ (k ∷ [])

unfoldable pub total_memory : Dict ThreadWakeIndexEntry → ℕ
total_memory [] = 0
total_memory ((k, e) ∷ d) = e.estimated_memory_bytes + total_memory d

unfoldable pub is_over : Limits → Dict ThreadWakeIndexEntry → Bool
is_over lim d =
    ltb lim.max_entries (length d)
    || (ltb 0 lim.max_memory_bytes && ltb lim.max_memory_bytes (total_memory d))

pub record Kept : Type 0 where
  pub entries : Dict ThreadWakeIndexEntry
  pub lru : List String
  pub evictions : ℕ

-- The loop of `_evict_if_needed`: every round pops the head of the order. `none` is the KeyError of
-- a key that the order lists and the entries lack.
unfoldable pub evict_rounds : Limits → List String → Dict ThreadWakeIndexEntry → ℕ → Option Kept
evict_rounds lim [] d n = some (record { entries = d; lru = []; evictions = n })
evict_rounds lim (k ∷ lru) d n =
    let rest = evict_rounds lim lru (erase k d) (n + 1) in
    if is_over lim d
    then (if has_key k d then rest else none)
    else some (record { entries = d; lru = k ∷ lru; evictions = n })

unfoldable pub evict_if_needed : Limits → ThreadWakeIndex → Option ThreadWakeIndex
evict_if_needed lim ix = elim (evict_rounds lim ix.lru ix.entries ix.evictions) [
  | none ↦ none
  | some r ↦ some (record ix { entries = r.entries; lru = r.lru; evictions = r.evictions })
]

unfoldable pub estimate_memory : Limits → ℕ → ℕ
estimate_memory lim tokens =
    if not (ltb 0 lim.bytes_per_token) then 0 else tokens * lim.bytes_per_token

unfoldable pub ids_match : Option String → Option String → Bool
ids_match none entry_id = false
ids_match (some a) none = false
ids_match (some a) (some b) = same a b

module _ (sha256_hex : String → String) where
  abbrev hashed : Option String → Option String
  hashed none = none
  hashed (some raw) = some (sha256_hex raw)

  -- `sha256_hex(x) if x else None`.
  abbrev pub hashed_if_truthy : Option String → Option String
  hashed_if_truthy none = none
  hashed_if_truthy (some raw) = if truthy raw then some (sha256_hex raw) else none

  unfoldable pub scope_id_for : String → ScopeContext → Option String
  scope_id_for scope ctx =
      if same scope "request"
      then none
      else if same scope "thread"
      then hashed ctx.thread_id
      else if same scope "user"
      then hashed ctx.user_id
      else if same scope "project"
      then hashed ctx.project_id
      else if same scope "global"
      then some (sha256_hex "global")
      else none

  unfoldable pub scope_matches : Limits → ThreadWakeIndexEntry → ScopeContext → Bool
  scope_matches lim e ctx =
      if same e.scope "request"
      then true
      else if same e.scope "global"
      then lim.allow_global
      else if same e.scope "thread"
      then ids_match (hashed_if_truthy ctx.thread_id) e.scope_id
      else if same e.scope "project"
      then ids_match (hashed_if_truthy ctx.project_id) e.scope_id
      else if same e.scope "user"
      then ids_match (hashed_if_truthy ctx.user_id) e.scope_id
      else false
