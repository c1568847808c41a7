-- ===== src/Threadwake/Reuse.antt =====
-- whooshd/runtime/threadwake/manager.py: `execute_ephemeral` from the compiled prompt on. The prompt,
-- its tokens, the cache key and whether policy and backend allow reuse are the fields of `Request`.
-- The adapter of the backend and the full generation are methods on a state `W` of their own, where
-- `none` is an exception. The counters of metrics.py and the observation are left out, and a result
-- is its output and whether it was a hit.
use whooshd.Base.{
  ℕ, String, Bool, true, false, ◌&&◌, ◌||◌, Option, none, some, List, [], ◌∷◌, not, length,
  if◌then◌else◌, truthy,
}
use whooshd.Threadwake.Index.{
  ThreadWakeIndex, ThreadWakeIndexEntry, EntryStatus, ready, Limits, ScopeContext, ThreadTip,
}
use whooshd.Threadwake.KvLifecycle.{KvLifecycleObserver, EventArguments, record_event, create}
use whooshd.Threadwake.Operations.{
  Observation, PutResult, stored, value_error, key_error, put_observation, get, mark_ready,
  mark_stale,
}
use whooshd.Threadwake.Tips.{
  get_latest_for_thread, validate_monotonic_append, store_thread_tip, clear_thread_tip,
}

pub record Adapter (W : Type 0) : Type 0 where
  pub clone_kv : Option String → W → W × Option String
  pub generate_from_kv : String → List String → W → W × Option (List String)
  pub prefill_to_kv : List String → String → W → W × Option String
  pub generate_fn : W → W × Option (List String)

pub record Request : Type 0 where
  pub cache_key : String
  pub model_id : String
  pub backend : String
  pub scope : String
  pub scope_context : ScopeContext
  pub is_wanted : Bool  -- the mode is ephemeral or session, and the policy finds the prompt eligible
  pub can_reuse : Bool  -- the adapter's capability is one of the four that allow reuse
  pub real_tokenization : Bool
  pub stable_prefix_hash : String
  pub stable_prefix_tokens : ℕ
  pub full_prefix_chain_hash : String
  pub ordered_segment_hashes : List String
  pub continuation_candidate : Bool
  pub stable_tokens : List String
  pub dynamic_tokens : List String

pub record Manager (W : Type 0) : Type 0 where
  pub index : ThreadWakeIndex
  pub kv_observer : KvLifecycleObserver
  pub world : W

pub record EphemeralResult : Type 0 where
  pub output_tokens : List String
  pub cache_hit : Bool

abbrev no_arguments : EventArguments
no_arguments = record {
  backend = none;
  model_id = none;
  capability = none;
  request_id = none;
  thread_id = none;
  cache_key = none;
  kv_handle_id = none;
  token_start = none;
  token_end = none;
  token_count = none;
  reason = none;
}

abbrev pub is_ready : EntryStatus → Bool
is_ready ready = true
is_ready _ = false

-- `hash_id` and `event_id` are those of the events, as in `create`.
module _ {W : Type 0} (sha256_hex hash_id : String → String)
    (event_id : KvLifecycleObserver → String) (lim : Limits) (kv : Adapter W) where
  abbrev Outcome : Type 0
  Outcome = Manager W × Option EphemeralResult

  abbrev pub note : ℕ → String → EventArguments → KvLifecycleObserver → KvLifecycleObserver
  note now event_type a o = record_event (create hash_id (event_id o) now event_type a) o

  -- An exception of the generation gets out.
  abbrev as_result : Option (List String) → Option EphemeralResult
  as_result none = none
  as_result (some out) = some (record { output_tokens = out; cache_hit = false })

  unfoldable pub full_generation : Manager W → Outcome
  full_generation m = let g = kv.generate_fn m.world in (record m { world = g.0 }, as_result g.1)

  -- Cloning the handle and generating from the clone: an exception of either ends it.
  unfoldable pub generate_from_clone : List String → W × Option String → W × Option (List String)
  generate_from_clone tokens (w, none) = (w, none)
  generate_from_clone tokens (w, some clone) = kv.generate_from_kv clone tokens w

  abbrev pub clone_and_generate : Option String → List String → W → W × Option (List String)
  clone_and_generate handle tokens w = generate_from_clone tokens (kv.clone_kv handle w)

  -- The rest of `_ephemeral_hit`, with the output or after an exception.
  unfoldable pub hit_result :
      ℕ → Request → ThreadWakeIndexEntry → Manager W → Option (List String) → Outcome
  hit_result now r e m none = full_generation (record m { index = mark_stale r.cache_key m.index })
  hit_result now r e m (some out) = (
    record m {
      kv_observer =
          note now "kv_reused"
            (record no_arguments {
              backend = some e.backend;
              model_id = some e.model_id;
              token_count = some (length r.dynamic_tokens);
            })
            (note now "kv_cloned"
              (record no_arguments {
                backend = some e.backend;
                model_id = some e.model_id;
                kv_handle_id = e.kv_handle_id;
              })
              m.kv_observer);
    },
    some (record { output_tokens = out; cache_hit = true }),
  )

  unfoldable pub ephemeral_hit : ℕ → Request → ThreadWakeIndexEntry → Manager W → Outcome
  ephemeral_hit now r e m =
      let g = clone_and_generate e.kv_handle_id r.dynamic_tokens m.world in
      hit_result now r e (record m { world = g.0 }) g.1

  abbrev pub observation_of : Request → String → Observation
  observation_of r handle = record {
    cache_key = r.cache_key;
    model_id = r.model_id;
    backend = r.backend;
    prompt_prefix_hash = r.stable_prefix_hash;
    token_count = r.stable_prefix_tokens;
    scope = r.scope;
    scope_context = r.scope_context;
    kv_handle_id = some handle;
  }

  -- The tip is stored for a request that names its thread and can be continued.
  unfoldable pub tip_after :
      ℕ → Request → String → Option String → ThreadWakeIndex → ThreadWakeIndex
  tip_after now r handle none ix = ix
  tip_after now r handle (some thread_id) ix =
      if truthy thread_id && r.continuation_candidate
      then store_thread_tip sha256_hex now thread_id r.model_id r.backend r.full_prefix_chain_hash
          r.ordered_segment_hashes (some handle) ix
      else ix

  -- What `_ephemeral_miss` keeps of a prefilled handle, if the index takes it.
  unfoldable pub keep_handle : ℕ → Request → String → Manager W → PutResult → Manager W
  keep_handle now r handle m value_error = m
  keep_handle now r handle m key_error = m
  keep_handle now r handle m (stored ix) = record m {
    index = tip_after now r handle r.scope_context.thread_id (mark_ready r.cache_key ix);
    kv_observer =
        note now "kv_created"
          (record no_arguments {
            backend = some r.backend;
            model_id = some r.model_id;
            token_count = some (length r.stable_tokens);
            kv_handle_id = some handle;
            cache_key = some r.cache_key;
          })
          m.kv_observer;
  }

  unfoldable pub store_handle : ℕ → Request → Manager W → Option String → Manager W
  store_handle now r m none = m
  store_handle now r m (some handle) =
      keep_handle now r handle m
        (put_observation sha256_hex lim now (observation_of r handle) m.index)

  -- Nothing is prefilled for an empty stable prefix.
  unfoldable pub store_prefill : ℕ → Request → List String → Manager W → Manager W
  store_prefill now r [] m = m
  store_prefill now r (t ∷ ts) m =
      let p = kv.prefill_to_kv (t ∷ ts) r.model_id m.world in
      store_handle now r (record m { world = p.0 }) p.1

  unfoldable pub miss_result : ℕ → Request → Manager W → Option EphemeralResult → Outcome
  miss_result now r m none = (m, none)
  miss_result now r m (some result) = (store_prefill now r r.stable_tokens m, some result)

  unfoldable pub ephemeral_miss : ℕ → Request → Manager W → Outcome
  ephemeral_miss now r m = let g = full_generation m in miss_result now r g.0 g.1

  -- The rest of `_try_session_continuation`, with the output or after an exception.
  unfoldable pub session_result :
      ℕ → Request → String → ThreadTip → Manager W → Option (List String) → Outcome
  session_result now r thread_id tip m none = (
    record m { index = clear_thread_tip sha256_hex thread_id r.model_id r.backend m.index },
    none,
  )
  session_result now r thread_id tip m (some out) = (
    record m {
      index =
          store_thread_tip sha256_hex now thread_id r.model_id r.backend r.full_prefix_chain_hash
            r.ordered_segment_hashes tip.kv_handle_id m.index;
    },
    some (record { output_tokens = out; cache_hit = true }),
  )

  unfoldable pub continue_tip : ℕ → Request → String → Manager W → Option ThreadTip → Outcome
  continue_tip now r thread_id m none = (m, none)
  continue_tip now r thread_id m (some tip) =
      let g = clone_and_generate tip.kv_handle_id r.dynamic_tokens m.world in
      let ended = session_result now r thread_id tip (record m { world = g.0 }) g.1 in
      if not (validate_monotonic_append tip.ordered_segment_hashes r.ordered_segment_hashes)
      then (
        record m { index = clear_thread_tip sha256_hex thread_id r.model_id r.backend m.index },
        none,
      )
      else ended

  -- A continuation of the thread's tip; without a result the caller goes on.
  unfoldable pub try_session_continuation : ℕ → Request → String → Manager W → Outcome
  try_session_continuation now r thread_id m =
      continue_tip now r thread_id m
        (get_latest_for_thread sha256_hex thread_id r.model_id r.backend m.index)

  unfoldable pub use_entry : ℕ → Request → Manager W → Option ThreadWakeIndexEntry → Outcome
  use_entry now r m none = ephemeral_miss now r m
  use_entry now r m (some e) =
      if is_ready e.status then ephemeral_hit now r e m else ephemeral_miss now r m

  unfoldable pub exact_prefix : ℕ → Request → Manager W → Outcome
  exact_prefix now r m =
      let found = get sha256_hex lim now r.cache_key r.scope_context m.index in
      use_entry now r (record m { index = found.0 }) found.1

  unfoldable pub try_session : ℕ → Request → Option String → Manager W → Outcome
  try_session now r none m = (m, none)
  try_session now r (some thread_id) m =
      if truthy thread_id && r.continuation_candidate
      then try_session_continuation now r thread_id m
      else (m, none)

  unfoldable pub or_exact_prefix : ℕ → Request → Outcome → Outcome
  or_exact_prefix now r (m, none) = exact_prefix now r m
  or_exact_prefix now r (m, some result) = (m, some result)

  unfoldable pub execute_ephemeral : ℕ → Request → Manager W → Outcome
  execute_ephemeral now r m =
      let reused = or_exact_prefix now r (try_session now r r.scope_context.thread_id m) in
      if not r.is_wanted || (not r.can_reuse || not r.real_tokenization)
      then full_generation m
      else reused
