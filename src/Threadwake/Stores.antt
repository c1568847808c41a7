-- ===== src/Threadwake/Stores.antt =====
-- whooshd/runtime/threadwake/index.py: what an observation stores, what it evicts, and what a read
-- returns after it.
use whooshd.Base.{
  lt→ltb, ltb, ◌*◌, branches, lookup-insert, ◌<◌, ◌≤◌, length, ap, some_inj, ◌+◌, ℕ, ◌≡◌, ◌⊎◌, refl,
  sym, inl, inr, String, false, ◌&&◌, none, some, List, [], ◌∷◌, ◌++◌, arith, not, if◌then◌else◌,
  same, subst, ◌∙◌, lookup, insert, lookup-insert_self,
}
use whooshd.Threadwake.Index.{
  ScopeContext, total_memory, evict_if_needed, ThreadWakeIndexEntry, ThreadWakeIndex, Limits, touch,
  scope_id_for, promote_lru, estimate_memory, observed,
}
use whooshd.Threadwake.Operations.{
  Observation, stored, put_observation, get, observe_again, fresh_entry, is_evicted, is_stale,
  handle_or,
}
use whooshd.Threadwake.Eviction.{
  Drops, Drops-under, is_over-false, lookup-Drops, evict_rounds-Evicts,
}
use whooshd.Threadwake.Order.{occurs, IsTracked, IsTracked-new}
use whooshd.Threadwake.Reads.{Names, MayRead, IsReadable, get-Reads}

module _ (sha256_hex : String → String) (lim : Limits) where
  -- The context of an observation names its scope.
  abbrev pub IsOwned : Observation → Type 0
  IsOwned o =
      (o.scope ≡ "request")
      ⊎ (o.scope ≡ "global")
      ⊎ ((id : String) × Names o.scope o.scope_context id)

  scope_id_for-Names :
      (scope : String) (ctx : ScopeContext) (id : String)
      → Names scope ctx id
      → scope_id_for sha256_hex scope ctx ≡ some (sha256_hex id)
  unfolding scope_id_for same
  scope_id_for-Names scope ctx id (inl (t, a), b) = rw (t, scope_id_for) (rw a refl)
  scope_id_for-Names scope ctx id (inr (inl (t, a)), b) = rw (t, scope_id_for) (rw a refl)
  scope_id_for-Names scope ctx id (inr (inr (t, a)), b) = rw (t, scope_id_for) (rw a refl)

  scope_id_for-request :
      (scope : String) (ctx : ScopeContext)
      → scope ≡ "request"
      → scope_id_for sha256_hex scope ctx ≡ none
  unfolding scope_id_for same
  scope_id_for-request scope ctx t = rw (t, scope_id_for) refl

  pub IsOwned-MayRead :
      (o : Observation) (e : ThreadWakeIndexEntry)
      → (same o.scope "global" && not lim.allow_global) ≡ false
      → e.scope ≡ o.scope
      → e.scope_id ≡ scope_id_for sha256_hex o.scope o.scope_context
      → IsOwned o
      → MayRead sha256_hex lim e o.scope_context
  unfolding scope_id_for same
  IsOwned-MayRead o e ok s i (inl r) = inl (s ∙ r)
  IsOwned-MayRead o e ok s i (inr (inl g)) = inr (
      inl (
        s ∙ g,
        let k : not lim.allow_global ≡ false =
              subst (λ x. (same x "global" && not lim.allow_global) ≡ false) g ok in
            ground arith,
      ))
  IsOwned-MayRead o e ok s i (inr (inr (id, (inl (t, a), b)))) =
      inr (inr (id, (inl (s ∙ t, a), b), i ∙ scope_id_for-Names _ _ id (inl (t, a), b)))
  IsOwned-MayRead o e ok s i (inr (inr (id, (inr (inl (t, a)), b)))) =
      inr (inr (id, (inr (inl (s ∙ t, a)), b), i ∙ scope_id_for-Names _ _ id (inr (inl (t, a)), b)))
  IsOwned-MayRead o e ok s i (inr (inr (id, (inr (inr (t, a)), b)))) =
      inr (inr (id, (inr (inr (s ∙ t, a)), b), i ∙ scope_id_for-Names _ _ id (inr (inr (t, a)), b)))

  -- Observing a known key again and reading it back from the same context: the entry that is read
  -- has the new scope, token count and time, and the old status; it keeps the old handle unless
  -- the observation brings one. The entry is neither evicted nor stale, the scope is allowed and
  -- named by the context; whose the entry was before does not matter.
  pub get-put_again :
      (now then_at : ℕ) (o : Observation) (ix : ThreadWakeIndex) (e : ThreadWakeIndexEntry)
      → lookup o.cache_key ix.entries ≡ some e
      → is_evicted e.status ≡ false
      → is_stale e.status ≡ false
      → (same o.scope "global" && not lim.allow_global) ≡ false
      → IsOwned o
      → (ix' : ThreadWakeIndex) × (put_observation sha256_hex lim now o ix ≡ stored ix')
        × ((e' : ThreadWakeIndexEntry) × ((get sha256_hex lim then_at o.cache_key o.scope_context
                ix').1
              ≡ some e')
            × (e'.kv_handle_id ≡ handle_or o.kv_handle_id e.kv_handle_id)
            × (e'.status ≡ e.status)
            × (e'.scope ≡ o.scope)
            × (e'.token_count ≡ o.token_count)
            × (e'.last_used_at ≡ then_at))
  unfolding put_observation observe_again touch
  get-put_again now then_at o ix e known live fresh allowed owned =
      let ix' : ThreadWakeIndex = record ix {
        entries = insert o.cache_key (observe_again sha256_hex lim now o e) ix.entries;
        lru = promote_lru o.cache_key ix.lru;
      } in
      let e1 : ThreadWakeIndexEntry = observe_again sha256_hex lim now o e in
      let put_eq : put_observation sha256_hex lim now o ix ≡ stored ix' =
        rw (allowed, put_observation) (rw known refl) in
      let readable : IsReadable sha256_hex lim ix' o.cache_key o.scope_context e1 = (
        lookup-insert_self o.cache_key e1 ix.entries,
        live,
        fresh,
        IsOwned-MayRead o e1 allowed refl refl owned,
      ) in
      elim (get-Reads sha256_hex lim then_at o.cache_key o.scope_context ix') [
        | inl (w, r, value, _, _, _) ↦
            let here : w ≡ e1 = some_inj (sym r.0 ∙ readable.0) in
            (
              ix',
              put_eq,
              (
                touch then_at e1,
                value ∙ ap (λ x. some (touch then_at x)) here,
                refl,
                refl,
                refl,
                refl,
                refl,
              ),
            )
        | inr (never, _, _, _, _) ↦ absurd (never e1 readable)
      ]

  -- No bytes per token make no bytes, with or without the test for it.
  estimate_memory_lem : (n : ℕ) → estimate_memory lim n ≡ n * lim.bytes_per_token
  unfolding estimate_memory
  estimate_memory_lem n =
      branches (λ z. z ≡ n * lim.bytes_per_token) (not (ltb 0 lim.bytes_per_token)) _ _
        (λ t.
          let zero_bytes : lim.bytes_per_token ≡ 0 = ground (arith, t) in
          rw zero_bytes (omega arith))
        (λ f. refl)

  -- An entry that says what the observation says, and that nobody has read yet.
  abbrev pub IsObserved : ℕ → Observation → ThreadWakeIndexEntry → Type 0
  IsObserved now o e =
      (e.cache_key ≡ o.cache_key)
      × (e.model_id ≡ o.model_id)
      × (e.backend ≡ o.backend)
      × (e.prompt_prefix_hash ≡ o.prompt_prefix_hash)
      × (e.token_count ≡ o.token_count)
      × (e.kv_handle_id ≡ o.kv_handle_id)
      × (e.scope ≡ o.scope)
      × (o.scope ≡ "request" → e.scope_id ≡ none)
      × ((id : String) → Names o.scope o.scope_context id → e.scope_id ≡ some (sha256_hex id))
      × (e.estimated_memory_bytes ≡ o.token_count * lim.bytes_per_token)
      × (e.status ≡ observed)
      × (e.hit_count ≡ 0)
      × (e.created_at ≡ now)
      × (e.last_used_at ≡ now)
      × (e.candidate_selected_at ≡ none)
      × (e.candidate_seen_count ≡ 0)

  -- Observing a key that is not stored, in an index whose order lists its keys, with a scope that is
  -- allowed: there is a new entry with the fields of the observation, its handle included, the
  -- digest of the identity that its scope names, the memory of its tokens, the status observed and no
  -- reads. The keys that go are an initial
  -- part of the order with the new key at its end, each of them while a limit was exceeded, and no
  -- more; then no limit is exceeded, every remaining entry is as it was, and under the new key,
  -- unless it went itself, stands the new entry.
  pub put_observation-new :
      (now : ℕ) (o : Observation) (ix : ThreadWakeIndex)
      → IsTracked ix.entries ix.lru
      → lookup o.cache_key ix.entries ≡ none
      → (same o.scope "global" && not lim.allow_global) ≡ false
      → (e : ThreadWakeIndexEntry) × IsObserved now o e
        × ((ix' : ThreadWakeIndex) × (put_observation sha256_hex lim now o ix ≡ stored ix')
            × ((evicted_keys : List String) × (ix.lru ++ (o.cache_key ∷ [])
                  ≡ evicted_keys ++ ix'.lru)
                × (ix'.evictions ≡ ix.evictions + length evicted_keys)
                × Drops lim (insert o.cache_key e ix.entries) evicted_keys ix'.entries
                × ((j : String)
                    → occurs j evicted_keys ≡ 0
                    → lookup j ix'.entries
                      ≡ (if same o.cache_key j then some e else lookup j ix.entries)))
            × (length ix'.entries ≤ lim.max_entries)
            × (0 < lim.max_memory_bytes → total_memory ix'.entries ≤ lim.max_memory_bytes))
  unfolding put_observation evict_if_needed fresh_entry
  put_observation-new now o ix s absent allowed =
      let fresh = fresh_entry sha256_hex lim now o in
      let d = insert o.cache_key fresh ix.entries in
      let (r, e, _, (ks, split, number, drops)) =
        evict_rounds-Evicts lim (ix.lru ++ (o.cache_key ∷ [])) d ix.evictions
          (IsTracked-new ix.entries ix.lru o.cache_key _ s absent) in
      let (few, small) = is_over-false lim r.entries (Drops-under lim d ks r.entries drops) in
      (
        fresh,
        (
          refl,
          refl,
          refl,
          refl,
          refl,
          refl,
          refl,
          λ r. scope_id_for-request o.scope o.scope_context r,
          λ id names. scope_id_for-Names o.scope o.scope_context id names,
          estimate_memory_lem o.token_count,
          refl,
          refl,
          refl,
          refl,
          refl,
          refl,
        ),
        (
          record ix { entries = r.entries; lru = r.lru; evictions = r.evictions },
          rw (allowed, put_observation) (rw absent (rw (e, evict_if_needed) refl)),
          (
            ks,
            split,
            number,
            drops,
            λ j z.
                lookup-Drops lim d ks r.entries j drops z
                ∙ lookup-insert o.cache_key j _ ix.entries,
          ),
          few,
          λ p. small (lt→ltb 0 _ p),
        ),
      )
