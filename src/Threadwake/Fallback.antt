-- ===== src/Threadwake/Fallback.antt =====
-- whooshd/runtime/threadwake/manager.py: whatever the backend's adapter does, a request that tries to
-- reuse cached state gets its answer, and the index stays sound.
use whooshd.Base.{
  ℕ, ◌≡◌, refl, sym, subst, String, ◌&&◌, ◌||◌, Option, none, some, List, [], ◌∷◌, not, truthy,
  branches, some_inj,
}
use whooshd.Threadwake.Index.{ThreadTip, ThreadWakeIndex, ThreadWakeIndexEntry, Limits}
use whooshd.Threadwake.Operations.{PutResult, stored, value_error, key_error, mark_ready}
use whooshd.Threadwake.Calls.{IsSound, Goes, after_put}
use whooshd.Threadwake.Soundness.{IsSound-put, IsSound-get, IsSound-mark_ready, IsSound-mark_stale}
use whooshd.Threadwake.KvLifecycle.{KvLifecycleObserver}
use whooshd.Threadwake.Tips.{store_thread_tip, clear_thread_tip, validate_monotonic_append}
use whooshd.Threadwake.Reuse.{
  Adapter, Request, Manager, EphemeralResult, full_generation, hit_result, ephemeral_hit, tip_after,
  keep_handle, store_handle, store_prefill, miss_result, ephemeral_miss, session_result,
  continue_tip, try_session_continuation, is_ready, use_entry, exact_prefix, try_session,
  or_exact_prefix, execute_ephemeral,
}

module _ {W : Type 0} (sha256_hex hash_id : String → String)
    (event_id : KvLifecycleObserver → String) (lim : Limits) (kv : Adapter W) where
  -- Full generation answers in every state.
  abbrev pub IsAnswering : Type 0
  IsAnswering = (w : W) → (out : List String) × ((kv.generate_fn w).1 ≡ some out)

  abbrev pub Answers : Manager W × Option EphemeralResult → Type 0
  Answers r = IsSound lim r.0.index × (IsAnswering → (x : EphemeralResult) × (r.1 ≡ some x))

  full_generation-Answers :
      (m : Manager W)
      → IsSound lim m.index
      → Answers (full_generation sha256_hex hash_id event_id lim kv m)
  unfolding full_generation
  full_generation-Answers m s = (s, λ a. let (out, e) = a m.world in rw e (_, refl))

  hit_result-Answers :
      (now : ℕ) (r : Request) (e : ThreadWakeIndexEntry) (m : Manager W) (o : Option (List String))
      → IsSound lim m.index
      → Answers (hit_result sha256_hex hash_id event_id lim kv now r e m o)
  unfolding hit_result
  hit_result-Answers now r e m none s =
      full_generation-Answers _ (IsSound-mark_stale sha256_hex lim r.cache_key m.index s)
  hit_result-Answers now r e m (some out) s = (s, λ a. (_, refl))

  tip_after-IsSound :
      (now : ℕ) (r : Request) (handle : String) (thread : Option String) (ix : ThreadWakeIndex)
      → IsSound lim ix
      → IsSound lim (tip_after sha256_hex hash_id event_id lim kv now r handle thread ix)
  unfolding tip_after store_thread_tip
  tip_after-IsSound now r handle none ix s = s
  tip_after-IsSound now r handle (some t) ix s =
      branches (IsSound lim) (truthy t && r.continuation_candidate) _ _ (λ y. s) (λ n. s)

  keep_handle-IsSound :
      (now : ℕ) (r : Request) (handle : String) (m : Manager W) (p : PutResult)
      → IsSound lim m.index
      → Goes lim (after_put m.index p)
      → IsSound lim (keep_handle sha256_hex hash_id event_id lim kv now r handle m p).index
  unfolding keep_handle
  keep_handle-IsSound now r handle m value_error s g = s
  keep_handle-IsSound now r handle m key_error s g = s
  keep_handle-IsSound now r handle m (stored ix) s (ix', e, s') =
      tip_after-IsSound now r handle r.scope_context.thread_id (mark_ready r.cache_key ix) (
        IsSound-mark_ready sha256_hex lim r.cache_key ix
          (subst (IsSound lim) (sym (some_inj e)) s'))

  store_handle-IsSound :
      (now : ℕ) (r : Request) (m : Manager W) (o : Option String)
      → IsSound lim m.index
      → IsSound lim (store_handle sha256_hex hash_id event_id lim kv now r m o).index
  unfolding store_handle
  store_handle-IsSound now r m none s = s
  store_handle-IsSound now r m (some handle) s =
      keep_handle-IsSound now r handle m _ s (IsSound-put sha256_hex lim now _ m.index s)

  store_prefill-IsSound :
      (now : ℕ) (r : Request) (tokens : List String) (m : Manager W)
      → IsSound lim m.index
      → IsSound lim (store_prefill sha256_hex hash_id event_id lim kv now r tokens m).index
  unfolding store_prefill
  store_prefill-IsSound now r [] m s = s
  store_prefill-IsSound now r (t ∷ ts) m s = store_handle-IsSound now r _ _ s

  miss_result-Answers :
      (now : ℕ) (r : Request) (m : Manager W) (o : Option EphemeralResult)
      → Answers (m, o)
      → Answers (miss_result sha256_hex hash_id event_id lim kv now r m o)
  unfolding miss_result
  miss_result-Answers now r m none h = h
  miss_result-Answers now r m (some x) h =
      (store_prefill-IsSound now r r.stable_tokens m h.0, λ a. (x, refl))

  ephemeral_miss-Answers :
      (now : ℕ) (r : Request) (m : Manager W)
      → IsSound lim m.index
      → Answers (ephemeral_miss sha256_hex hash_id event_id lim kv now r m)
  unfolding ephemeral_miss
  ephemeral_miss-Answers now r m s = miss_result-Answers now r _ _ (full_generation-Answers m s)

  use_entry-Answers :
      (now : ℕ) (r : Request) (m : Manager W) (o : Option ThreadWakeIndexEntry)
      → IsSound lim m.index
      → Answers (use_entry sha256_hex hash_id event_id lim kv now r m o)
  unfolding use_entry ephemeral_hit
  use_entry-Answers now r m none s = ephemeral_miss-Answers now r m s
  use_entry-Answers now r m (some e) s =
      branches Answers (is_ready e.status) _ _ (λ y. hit_result-Answers now r e _ _ s)
        (λ n. ephemeral_miss-Answers now r m s)

  exact_prefix-Answers :
      (now : ℕ) (r : Request) (m : Manager W)
      → IsSound lim m.index
      → Answers (exact_prefix sha256_hex hash_id event_id lim kv now r m)
  unfolding exact_prefix
  exact_prefix-Answers now r m s =
      use_entry-Answers now r _ _
        (IsSound-get sha256_hex lim now r.cache_key r.scope_context m.index s)

  session_result-IsSound :
      (now : ℕ) (r : Request) (t : String) (tip : ThreadTip) (m : Manager W)
      (o : Option (List String))
      → IsSound lim m.index
      → IsSound lim (session_result sha256_hex hash_id event_id lim kv now r t tip m o).0.index
  unfolding session_result clear_thread_tip store_thread_tip
  session_result-IsSound now r t tip m none s = s
  session_result-IsSound now r t tip m (some out) s = s

  abbrev FirstIsSound : Manager W × Option EphemeralResult → Type 0
  FirstIsSound r = IsSound lim r.0.index

  continue_tip-IsSound :
      (now : ℕ) (r : Request) (t : String) (m : Manager W) (o : Option ThreadTip)
      → IsSound lim m.index
      → FirstIsSound (continue_tip sha256_hex hash_id event_id lim kv now r t m o)
  unfolding continue_tip clear_thread_tip
  continue_tip-IsSound now r t m none s = s
  continue_tip-IsSound now r t m (some tip) s =
      branches FirstIsSound
        (not (validate_monotonic_append tip.ordered_segment_hashes r.ordered_segment_hashes)) _ _
        (λ y. s) (λ n. session_result-IsSound now r t tip _ _ s)

  try_session-IsSound :
      (now : ℕ) (r : Request) (thread : Option String) (m : Manager W)
      → IsSound lim m.index
      → FirstIsSound (try_session sha256_hex hash_id event_id lim kv now r thread m)
  unfolding try_session try_session_continuation
  try_session-IsSound now r none m s = s
  try_session-IsSound now r (some t) m s =
      branches FirstIsSound (truthy t && r.continuation_candidate) _ _
        (λ y. continue_tip-IsSound now r t m _ s) (λ n. s)

  or_exact_prefix-Answers :
      (now : ℕ) (r : Request) (o : Manager W × Option EphemeralResult)
      → FirstIsSound o
      → Answers (or_exact_prefix sha256_hex hash_id event_id lim kv now r o)
  unfolding or_exact_prefix
  or_exact_prefix-Answers now r (m, none) s = exact_prefix-Answers now r m s
  or_exact_prefix-Answers now r (m, some x) s = (s, λ a. (x, refl))

  -- From a sound index, an execution leaves a sound one, whatever the adapter does and wherever it
  -- raises; and if full generation answers in every state, the execution has a result.
  pub execute_ephemeral-Answers :
      (now : ℕ) (r : Request) (m : Manager W)
      → IsSound lim m.index
      → Answers (execute_ephemeral sha256_hex hash_id event_id lim kv now r m)
  unfolding execute_ephemeral
  execute_ephemeral-Answers now r m s =
      branches Answers (not r.is_wanted || (not r.can_reuse || not r.real_tokenization)) _ _
        (λ y. full_generation-Answers m s)
        (λ n.
          or_exact_prefix-Answers now r _ (try_session-IsSound now r r.scope_context.thread_id m s))
