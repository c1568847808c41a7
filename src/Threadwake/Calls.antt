-- ===== src/Threadwake/Calls.antt =====
-- whooshd/runtime/threadwake/index.py: sequences of calls of the index, and what they keep.
use whooshd.Base.{
  ℕ, ◌≡◌, ◌≤◌, String, false, ◌&&◌, Option, none, some, List, [], ◌∷◌, not, same, length, Dict,
  lookup,
}
use whooshd.Threadwake.Index.{
  ThreadWakeIndexEntry, ThreadWakeIndex, Limits, ScopeContext, estimate_memory,
}
use whooshd.Threadwake.Operations.{
  Observation, PutResult, stored, value_error, key_error, put_observation, get, mark_ready,
  mark_stale, evict, flush, Filters, mark_candidate_selected, Selection, is_evicted,
}
use whooshd.Threadwake.Order.{IsTracked}

-- A call of a method that changes entries or their order, with its arguments.
pub data Call : Type 0 where
  put : ℕ → Observation → Call
  look_up : ℕ → String → ScopeContext → Call
  ready_now : String → Call
  stale_now : String → Call
  evict_key : String → Call
  flush_all : Filters → Call
  select : ℕ → String → Selection → Call

-- The index after a `put_observation`; `none` is a KeyError. The caller catches a ValueError, which
-- comes before any change.
abbrev pub after_put : ThreadWakeIndex → PutResult → Option ThreadWakeIndex
after_put ix (stored ix') = some ix'
after_put ix value_error = some ix
after_put ix key_error = none

module _ (sha256_hex : String → String) (lim : Limits) where
  unfoldable pub call : Call → ThreadWakeIndex → Option ThreadWakeIndex
  call (put now o) ix = after_put ix (put_observation sha256_hex lim now o ix)
  call (look_up now k ctx) ix = some (get sha256_hex lim now k ctx ix).0
  call (ready_now k) ix = some (mark_ready k ix)
  call (stale_now k) ix = some (mark_stale k ix)
  call (evict_key k) ix = some (evict k ix)
  call (flush_all f) ix = some (flush f ix).0
  call (select now k s) ix = some (mark_candidate_selected now k s ix).0

  unfoldable pub run_calls : List Call → ThreadWakeIndex → Option ThreadWakeIndex
  run_calls [] ix = some ix
  run_calls (c ∷ cs) ix = elim (call c ix) [ none ↦ none | some ix' ↦ run_calls cs ix' ]

module _ (lim : Limits) where
  -- What a stored entry is: it is filed under its key, has not been evicted, its memory is
  -- estimated from its tokens, and it is global only where that is allowed.
  abbrev pub IsEntry : String → ThreadWakeIndexEntry → Type 0
  IsEntry k e =
      (e.cache_key ≡ k)
      × (is_evicted e.status ≡ false)
      × (e.estimated_memory_bytes ≡ estimate_memory lim e.token_count)
      × ((same e.scope "global" && not lim.allow_global) ≡ false)

  abbrev pub Each : Dict ThreadWakeIndexEntry → Type 0
  Each d = (k : String) (e : ThreadWakeIndexEntry) → lookup k d ≡ some e → IsEntry k e

  -- The order lists each stored key once, the entries keep the limit on their number, and each of
  -- them is what a stored entry is.
  abbrev pub IsSound : ThreadWakeIndex → Type 0
  IsSound ix = IsTracked ix.entries ix.lru × (length ix.entries ≤ lim.max_entries) × Each ix.entries

  abbrev pub Goes : Option ThreadWakeIndex → Type 0
  Goes r = (ix' : ThreadWakeIndex) × (r ≡ some ix') × IsSound ix'
