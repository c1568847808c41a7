-- ===== src/Threadwake/Soundness.antt =====
-- whooshd/runtime/threadwake/index.py: every sequence of calls of the index is sound.
use whooshd.Base.{
  some_inj, none_ne_some, ◌∙◌, sym, subst, lookup-insert_self, ℕ, ◌≡◌, refl, inl, inr, String,
  false, ◌&&◌, Option, none, some, List, [], ◌∷◌, ◌++◌, arith, not, branches, same, same_cases,
  Option-cases, Dict, lookup, insert, erase, IsDict, IsDict-erase, lookup-insert, lookup-erase_self,
  lookup-erase_ne, length-insert, length-erase,
}
use whooshd.Threadwake.Index.{
  scope_matches, ThreadWakeIndexEntry, ThreadWakeIndex, Limits, ScopeContext, new, touch,
  remove_first, promote_lru, evict_if_needed,
}
use whooshd.Threadwake.Operations.{
  is_stale, is_unfiltered, Observation, put_observation, get, read_entry, mark_ready, mark_stale,
  evict, flush, drop_all, keys_to_remove, Filters, mark_candidate_selected, Selection, select_entry,
  observe_again, fresh_entry, is_evicted, result_of,
}
use whooshd.Threadwake.Calls.{
  Call, put, look_up, ready_now, stale_now, evict_key, flush_all, select, after_put, call,
  run_calls, IsEntry, Each, IsSound, Goes,
}
use whooshd.Threadwake.Order.{
  occurs, IsTracked, IsTracked-new, IsTracked-update, IsTracked-promote, IsTracked-erase,
}
use whooshd.Threadwake.Eviction.{Drops, Drops-under, is_over-false, evict_rounds-Evicts}

module _ (sha256_hex : String → String) (lim : Limits) where
  Each-insert :
      (k : String) (v : ThreadWakeIndexEntry) (d : Dict ThreadWakeIndexEntry)
      → Each lim d
      → IsEntry lim k v
      → Each lim (insert k v d)
  Each-insert k v d h p j e at_j = elim (same_cases k j) [
    | inl t ↦
        subst (λ i. (w : ThreadWakeIndexEntry) → lookup i (insert k v d) ≡ some w → IsEntry lim i w)
          t (λ w at. subst (IsEntry lim k) (some_inj (sym (lookup-insert_self k v d) ∙ at)) p) e
          at_j
    | inr f ↦ h j e (ground (arith, lookup-insert k j v d))
  ]

  Each-erase :
      (k : String) (d : Dict ThreadWakeIndexEntry) → IsDict d → Each lim d → Each lim (erase k d)
  Each-erase k d s h j e at_j = elim (same_cases k j) [
    | inl t ↦ absurd (
        none_ne_some
          (sym (subst (λ i. lookup i (erase k d) ≡ none) t (lookup-erase_self k d s)) ∙ at_j))
    | inr f ↦ h j e (ground (arith, lookup-erase_ne k j d))
  ]

  Each-Drops :
      (d : Dict ThreadWakeIndexEntry) (ks : List String) (d' : Dict ThreadWakeIndexEntry)
      → Drops lim d ks d'
      → IsDict d
      → Each lim d
      → Each lim d'
  Each-Drops d [] d' h s each = subst (Each lim) h.0 each
  Each-Drops d (k ∷ ks) d' h s each =
      Each-Drops (erase k d) ks d' h.1 (IsDict-erase k d s) (Each-erase k d s each)

  -- A known key's entry is replaced by one that is an entry too, and its place in the order may change.
  module _ (k : String) (e : ThreadWakeIndexEntry) (ix : ThreadWakeIndex) (s : IsSound lim ix)
      (at_k : lookup k ix.entries ≡ some e) (v : ThreadWakeIndexEntry) (p : IsEntry lim k v) where
    IsSound-update : IsSound lim (record ix { entries = insert k v ix.entries })
    IsSound-update = (
      IsTracked-update ix.entries ix.lru k v e s.0 at_k,
      ground (arith, length-insert k v ix.entries, s.1),
      Each-insert k v ix.entries s.2 p,
    )

    IsSound-promote :
        IsSound lim (record ix { entries = insert k v ix.entries; lru = promote_lru k ix.lru })
    IsSound-promote = (
      IsTracked-promote (insert k v ix.entries) ix.lru k v IsSound-update.0
          (lookup-insert_self k v ix.entries),
      IsSound-update.1,
      IsSound-update.2,
    )

  -- The entry that an observation writes is an entry.
  module _ (now : ℕ) (o : Observation)
      (allowed : (same o.scope "global" && not lim.allow_global) ≡ false) where
    IsEntry-fresh : IsEntry lim o.cache_key (fresh_entry sha256_hex lim now o)
    unfolding fresh_entry
    IsEntry-fresh = (refl, refl, refl, allowed)

    IsEntry-again :
        (e : ThreadWakeIndexEntry)
        → IsEntry lim o.cache_key e
        → IsEntry lim o.cache_key (observe_again sha256_hex lim now o e)
    unfolding observe_again touch
    IsEntry-again e p = (p.0, p.1, refl, allowed)

  -- A new entry stands in the order, and what has to go for it is evicted.
  IsSound-evict_if_needed :
      (ix : ThreadWakeIndex)
      → IsTracked ix.entries ix.lru
      → Each lim ix.entries
      → Goes lim (evict_if_needed lim ix)
  unfolding evict_if_needed
  IsSound-evict_if_needed ix s each =
      let (r, e, s', (ks, split, number, drops)) =
        evict_rounds-Evicts lim ix.lru ix.entries ix.evictions s in
      rw (e, evict_if_needed)
        (
          _,
          refl,
          (
            s',
            (is_over-false lim r.entries (Drops-under lim ix.entries ks r.entries drops)).0,
            Each-Drops ix.entries ks r.entries drops s.0 each,
          ),
        )

  pub IsSound-put :
      (now : ℕ) (o : Observation) (ix : ThreadWakeIndex)
      → IsSound lim ix
      → Goes lim (after_put ix (put_observation sha256_hex lim now o ix))
  unfolding put_observation
  IsSound-put now o ix s =
      branches (λ r. Goes lim (after_put ix r)) (same o.scope "global" && not lim.allow_global) _ _
        (λ refused. (ix, refl, s))
        (λ allowed. elim (Option-cases (lookup o.cache_key ix.entries)) [
          | inl new_key ↦
              let (ix', e, s') =
                IsSound-evict_if_needed
                  (record ix {
                    entries = insert o.cache_key (fresh_entry sha256_hex lim now o) ix.entries;
                    lru = ix.lru ++ (o.cache_key ∷ []);
                  })
                  (IsTracked-new ix.entries ix.lru o.cache_key _ s.0 new_key)
                  (Each-insert o.cache_key _ ix.entries s.2 (IsEntry-fresh now o allowed)) in
              rw new_key
                (subst (λ x. Goes lim (after_put ix (result_of x))) (sym e) (ix', refl, s'))
          | inr (e, known) ↦ rw known (
            _,
            refl,
            IsSound-promote o.cache_key e ix s known _
                (IsEntry-again now o allowed e (s.2 o.cache_key e known)),
          )
        ])

  abbrev FirstIsSound : ThreadWakeIndex × Option ThreadWakeIndexEntry → Type 0
  FirstIsSound r = IsSound lim r.0

  pub IsSound-get :
      (now : ℕ) (k : String) (ctx : ScopeContext) (ix : ThreadWakeIndex)
      → IsSound lim ix
      → IsSound lim (get sha256_hex lim now k ctx ix).0
  unfolding get read_entry touch
  IsSound-get now k ctx ix s = elim (Option-cases (lookup k ix.entries)) [
    | inl absent ↦ rw (absent, get) s
    | inr (e, known) ↦
        rw (known, get)
          (branches FirstIsSound (is_evicted e.status) _ _ (λ t. s)
            (λ live.
              branches FirstIsSound (not (scope_matches sha256_hex lim e ctx)) _ _ (λ t. s)
                (λ f.
                  branches FirstIsSound (is_stale e.status) _ _ (λ t. s)
                    (λ g. IsSound-promote k e ix s known (touch now e) (s.2 k e known)))))
  ]

  pub IsSound-mark_ready :
      (k : String) (ix : ThreadWakeIndex) → IsSound lim ix → IsSound lim (mark_ready k ix)
  unfolding mark_ready
  IsSound-mark_ready k ix s = elim (Option-cases (lookup k ix.entries)) [
    | inl absent ↦ rw (absent, mark_ready) s
    | inr (e, known) ↦
        rw (known, mark_ready)
          (IsSound-promote k e ix s known _ (let p = s.2 k e known in (p.0, refl, p.2, p.3)))
  ]

  pub IsSound-mark_stale :
      (k : String) (ix : ThreadWakeIndex) → IsSound lim ix → IsSound lim (mark_stale k ix)
  unfolding mark_stale
  IsSound-mark_stale k ix s = elim (Option-cases (lookup k ix.entries)) [
    | inl absent ↦ rw (absent, mark_stale) s
    | inr (e, known) ↦
        rw (known, mark_stale)
          (IsSound-update k e ix s known _ (let p = s.2 k e known in (p.0, refl, p.2, p.3)))
  ]

  IsSound-mark_candidate_selected :
      (now : ℕ) (k : String) (c : Selection) (ix : ThreadWakeIndex)
      → IsSound lim ix
      → IsSound lim (mark_candidate_selected now k c ix).0
  unfolding mark_candidate_selected select_entry
  IsSound-mark_candidate_selected now k c ix s = elim (Option-cases (lookup k ix.entries)) [
    | inl absent ↦ rw (absent, mark_candidate_selected) s
    | inr (e, known) ↦
        rw (known, mark_candidate_selected) (IsSound-promote k e ix s known _ (s.2 k e known))
  ]

  IsSound-drop :
      (k : String) (ix : ThreadWakeIndex)
      → IsSound lim ix
      → IsSound lim (record ix { entries = erase k ix.entries; lru = remove_first k ix.lru })
  IsSound-drop k ix s = (
    IsTracked-erase ix.entries ix.lru k s.0,
    ground (arith, length-erase k ix.entries, s.1),
    Each-erase k ix.entries s.0.0 s.2,
  )

  IsSound-evict : (k : String) (ix : ThreadWakeIndex) → IsSound lim ix → IsSound lim (evict k ix)
  unfolding evict
  IsSound-evict k ix s = elim (Option-cases (lookup k ix.entries)) [
    | inl absent ↦ rw (absent, evict) s
    | inr (e, known) ↦ rw (known, evict) (IsSound-drop k ix s)
  ]

  IsSound-drop_all :
      (ks : List String) (ix : ThreadWakeIndex) → IsSound lim ix → IsSound lim (drop_all ks ix)
  unfolding drop_all
  IsSound-drop_all [] ix s = s
  IsSound-drop_all (k ∷ ks) ix s = IsSound-drop_all ks _ (IsSound-drop k ix s)

  Each-none : Each lim []
  unfolding lookup
  Each-none k e at = absurd (none_ne_some at)

  IsTracked-none : IsTracked {V = ThreadWakeIndexEntry} [] []
  unfolding occurs lookup
  IsTracked-none = (tt, λ k. refl)

  IsSound-flush : (f : Filters) (ix : ThreadWakeIndex) → IsSound lim ix → IsSound lim (flush f ix).0
  unfolding flush
  IsSound-flush f ix s =
      branches (λ (r : ThreadWakeIndex × ℕ). IsSound lim r.0) (is_unfiltered f) _ _
        (λ every. (IsTracked-none, omega arith, Each-none))
        (λ some_of. IsSound-drop_all (keys_to_remove f ix.entries) ix s)

  call-IsSound :
      (c : Call) (ix : ThreadWakeIndex) → IsSound lim ix → Goes lim (call sha256_hex lim c ix)
  unfolding call
  call-IsSound (put now o) ix s = IsSound-put now o ix s
  call-IsSound (look_up now k ctx) ix s = (_, refl, IsSound-get now k ctx ix s)
  call-IsSound (ready_now k) ix s = (_, refl, IsSound-mark_ready k ix s)
  call-IsSound (stale_now k) ix s = (_, refl, IsSound-mark_stale k ix s)
  call-IsSound (evict_key k) ix s = (_, refl, IsSound-evict k ix s)
  call-IsSound (flush_all f) ix s = (_, refl, IsSound-flush f ix s)
  call-IsSound (select now k c) ix s = (_, refl, IsSound-mark_candidate_selected now k c ix s)

  -- From an index in which it holds, and so from a new one, every sequence of calls goes through
  -- without a KeyError to an index whose order of use lists exactly the stored keys, each once,
  -- whose entries are no more than `max_entries`, and each of whose entries stands under its own
  -- key, is not marked as evicted, has the memory estimate of its tokens, and is global only where
  -- global scope is allowed.
  pub run_calls-IsSound :
      (cs : List Call) (ix : ThreadWakeIndex)
      → IsSound lim ix
      → Goes lim (run_calls sha256_hex lim cs ix)
  unfolding run_calls
  run_calls-IsSound [] ix s = (ix, refl, s)
  run_calls-IsSound (c ∷ cs) ix s =
      let (ix', e, s') = call-IsSound c ix s in rw (e, run_calls) (run_calls-IsSound cs ix' s')

  pub IsSound-new : IsSound lim new
  unfolding new
  IsSound-new = (IsTracked-none, omega arith, Each-none)
