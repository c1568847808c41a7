-- ===== src/Threadwake/Rehits.antt =====
-- whooshd/runtime/threadwake/manager.py: a miss that stores its handle is followed by a hit on it.
use whooshd.Base.{
  ℕ, ◌≡◌, refl, sym, ap, subst, ◌∙◌, inl, inr, String, true, false, ◌&&◌, Option, none, some, List,
  ◌∷◌, not, truthy, branches, some_inj, same, lookup, insert, lookup-insert_self,
}
use whooshd.Threadwake.Index.{
  ThreadWakeIndex, ThreadWakeIndexEntry, ready, Limits, promote_lru, touch,
}
use whooshd.Threadwake.Operations.{
  stored, put_observation, get, mark_ready, observe_again, Observation,
}
use whooshd.Threadwake.KvLifecycle.{KvLifecycleObserver}
use whooshd.Threadwake.Reads.{IsReadable, get-Reads}
use whooshd.Threadwake.Stores.{IsOwned, IsOwned-MayRead}
use whooshd.Threadwake.Tips.{store_thread_tip}
use whooshd.Threadwake.Reuse.{
  Adapter, Request, Manager, EphemeralResult, full_generation, observation_of, ephemeral_hit,
  hit_result, generate_from_clone, tip_after, keep_handle, store_handle, store_prefill, miss_result,
  ephemeral_miss, use_entry, exact_prefix,
}

module _ (sha256_hex : String → String) (lim : Limits) (now : ℕ) (o : Observation)
    (ix : ThreadWakeIndex) (e : ThreadWakeIndexEntry)
    (known : lookup o.cache_key ix.entries ≡ some e)
    (allowed : (same o.scope "global" && not lim.allow_global) ≡ false) where
  abbrev again : ThreadWakeIndexEntry
  again = observe_again sha256_hex lim now o e

  abbrev put_again : ThreadWakeIndex
  put_again = record ix {
    entries = insert o.cache_key again ix.entries;
    lru = promote_lru o.cache_key ix.lru;
  }

  put_observation-known : put_observation sha256_hex lim now o ix ≡ stored put_again
  unfolding put_observation
  put_observation-known = rw (allowed, put_observation) (rw known refl)

lookup-mark_ready :
    (k : String) (ix : ThreadWakeIndex) (e : ThreadWakeIndexEntry)
    → lookup k ix.entries ≡ some e
    → lookup k (mark_ready k ix).entries ≡ some (record e { status = ready })
unfolding mark_ready
lookup-mark_ready k ix e known = rw (known, mark_ready) (lookup-insert_self k _ ix.entries)

module _ {W : Type 0} (sha256_hex hash_id : String → String)
    (event_id : KvLifecycleObserver → String) (lim : Limits) (kv : Adapter W) where
  tip_after-entries :
      (now : ℕ) (r : Request) (handle : String) (thread : Option String) (ix : ThreadWakeIndex)
      → (tip_after sha256_hex hash_id event_id lim kv now r handle thread ix).entries ≡ ix.entries
  unfolding tip_after store_thread_tip
  tip_after-entries now r handle none ix = refl
  tip_after-entries now r handle (some t) ix =
      branches (λ (z : ThreadWakeIndex). z.entries ≡ ix.entries)
        (truthy t && r.continuation_candidate) _ _ (λ y. refl) (λ n. refl)

  module _ (now : ℕ) (r : Request) (handle : String) where
    abbrev seen : Observation
    seen = observation_of sha256_hex hash_id event_id lim kv r handle

    -- The entry that the miss leaves.
    abbrev left_entry : ThreadWakeIndexEntry → ThreadWakeIndexEntry
    left_entry e = record (observe_again sha256_hex lim now seen e) { status = ready }

    store_handle-lookup :
        (m : Manager W) (e : ThreadWakeIndexEntry)
        → lookup r.cache_key m.index.entries ≡ some e
        → (same r.scope "global" && not lim.allow_global) ≡ false
        → lookup r.cache_key
            (store_handle sha256_hex hash_id event_id lim kv now r m (some handle)).index.entries
          ≡ some (left_entry e)
    unfolding store_handle keep_handle
    store_handle-lookup m e known allowed =
        let ix = put_again sha256_hex lim now seen m.index e known allowed in
        rw (put_observation-known sha256_hex lim now seen m.index e known allowed) (
          ap (lookup r.cache_key)
            (tip_after-entries now r handle r.scope_context.thread_id (mark_ready r.cache_key ix))
          ∙ lookup-mark_ready r.cache_key ix _ (lookup-insert_self r.cache_key _ m.index.entries))

    -- The entry that is left is read back as ready, with the new handle, by the context it was
    -- stored for.
    rereads :
        (later : ℕ) (ix : ThreadWakeIndex) (e : ThreadWakeIndexEntry)
        → lookup r.cache_key ix.entries ≡ some (left_entry e)
        → (same r.scope "global" && not lim.allow_global) ≡ false
        → IsOwned sha256_hex lim seen
        → (get sha256_hex lim later r.cache_key r.scope_context ix).1
          ≡ some (touch later (left_entry e))
    unfolding observe_again
    rereads later ix e at allowed owned =
        let readable : IsReadable sha256_hex lim ix r.cache_key r.scope_context (left_entry e) = (
          at,
          refl,
          refl,
          IsOwned-MayRead sha256_hex lim seen (left_entry e) allowed refl refl owned,
        ) in
        elim (get-Reads sha256_hex lim later r.cache_key r.scope_context ix) [
          | inl (w, s, value, _, _, _) ↦
              value ∙ ap (λ x. some (touch later x)) (some_inj (sym s.0 ∙ at))
          | inr (never, _, _, _, _) ↦ absurd (never (left_entry e) readable)
        ]

    store_handle-world :
        (m : Manager W) (e : ThreadWakeIndexEntry)
        → lookup r.cache_key m.index.entries ≡ some e
        → (same r.scope "global" && not lim.allow_global) ≡ false
        → (store_handle sha256_hex hash_id event_id lim kv now r m (some handle)).world ≡ m.world
    unfolding store_handle keep_handle
    store_handle-world m e known allowed =
        rw (put_observation-known sha256_hex lim now seen m.index e known allowed) refl

    -- The manager after a miss.
    abbrev pub after_miss : Manager W → W → Manager W
    after_miss m w =
        store_handle sha256_hex hash_id event_id lim kv now r (record m { world = w }) (some handle)

    ephemeral_miss-stores :
        (m : Manager W) (t : String) (ts out : List String) (w1 w2 : W)
        → r.stable_tokens ≡ t ∷ ts
        → kv.generate_fn m.world ≡ (w1, some out)
        → kv.prefill_to_kv (t ∷ ts) r.model_id w1 ≡ (w2, some handle)
        → ephemeral_miss sha256_hex hash_id event_id lim kv now r m
          ≡ (after_miss m w2, some (record { output_tokens = out; cache_hit = false }))
    unfolding ephemeral_miss full_generation miss_result store_prefill
    ephemeral_miss-stores m t ts out w1 w2 tokens generated prefilled =
        let step : store_prefill sha256_hex hash_id event_id lim kv now r r.stable_tokens
              (record m { world = w1 })
            ≡ after_miss m w2 =
          subst
            (λ ks.
              store_prefill sha256_hex hash_id event_id lim kv now r ks (record m { world = w1 })
              ≡ after_miss m w2)
            (sym tokens) (rw (prefilled, store_prefill) refl) in
        rw (generated, ephemeral_miss)
          (ap (λ x. (x, some (record { output_tokens = out; cache_hit = false }))) step)

    use_entry-hits :
        (m : Manager W) (e : ThreadWakeIndexEntry) (clone : String) (out : List String) (w3 w4 : W)
        → e.status ≡ ready
        → e.kv_handle_id ≡ some handle
        → kv.clone_kv (some handle) m.world ≡ (w3, some clone)
        → kv.generate_from_kv clone r.dynamic_tokens w3 ≡ (w4, some out)
        → (use_entry sha256_hex hash_id event_id lim kv now r m (some e)).1
          ≡ some (record { output_tokens = out; cache_hit = true })
    unfolding use_entry ephemeral_hit hit_result generate_from_clone
    use_entry-hits m e clone out w3 w4 is_now_ready its_handle cloned generated =
        rw (is_now_ready, use_entry) (rw (its_handle, cloned) (rw generated refl))

  -- A request meets a known entry; its scope is allowed and named by its context. Where the exact prefix is missed and the adapter prefills its stable tokens to a handle,
  -- the request gets the full generation's output, and the same request afterwards, where the adapter
  -- clones that very handle and generates from the clone, is a hit with the output of the clone.
  pub exact_prefix-after_miss :
      (now later : ℕ) (r : Request) (handle clone : String) (m : Manager W)
      (e : ThreadWakeIndexEntry) (t : String) (ts out again_out : List String) (w1 w2 w3 w4 : W)
      → lookup r.cache_key m.index.entries ≡ some e
      → (same r.scope "global" && not lim.allow_global) ≡ false
      → IsOwned sha256_hex lim (observation_of sha256_hex hash_id event_id lim kv r handle)
      → r.stable_tokens ≡ t ∷ ts
      → kv.generate_fn m.world ≡ (w1, some out)
      → kv.prefill_to_kv (t ∷ ts) r.model_id w1 ≡ (w2, some handle)
      → kv.clone_kv (some handle) w2 ≡ (w3, some clone)
      → kv.generate_from_kv clone r.dynamic_tokens w3 ≡ (w4, some again_out)
      → let missed = ephemeral_miss sha256_hex hash_id event_id lim kv now r m in
        (missed.1 ≡ some (record { output_tokens = out; cache_hit = false }))
        × ((exact_prefix sha256_hex hash_id event_id lim kv later r missed.0).1
            ≡ some (record { output_tokens = again_out; cache_hit = true }))
  unfolding exact_prefix touch observe_again
  exact_prefix-after_miss now later r handle clone m e t ts out again_out w1 w2 w3 w4 known allowed
        owned tokens generated prefilled cloned regenerated =
      let m2 = after_miss now r handle m w2 in
      let at = store_handle-lookup now r handle (record m { world = w2 }) e known allowed in
      let found = rereads now r handle later m2.index e at allowed owned in
      let same_world : m2.world ≡ w2 =
        store_handle-world now r handle (record m { world = w2 }) e known allowed in
      let hit : (exact_prefix sha256_hex hash_id event_id lim kv later r m2).1
          ≡ some (record { output_tokens = again_out; cache_hit = true }) =
        rw (found, exact_prefix)
          (use_entry-hits later r handle _ _ clone again_out w3 w4 refl refl
            (subst (λ w. kv.clone_kv (some handle) w ≡ (w3, some clone)) (sym same_world) cloned)
            regenerated) in
      let missed = ephemeral_miss-stores now r handle m t ts out w1 w2 tokens generated prefilled in
      (
        ap (λ x. x.1) missed,
        subst
            (λ (x : Manager W × Option EphemeralResult).
              (exact_prefix sha256_hex hash_id event_id lim kv later r x.0).1
              ≡ some (record { output_tokens = again_out; cache_hit = true }))
            (sym missed) hit,
      )
