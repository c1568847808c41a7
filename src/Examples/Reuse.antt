-- ===== src/Examples/Reuse.antt =====
-- Concrete runs of the index, the tips, the ring buffer and the reuse of cached state.
use whooshd.Base.{
  ℕ, ◌+◌, ◌≡◌, ◌≤◌, ◌<◌, refl, inl, inr, String, true, false, Option, none, some, List, [], ◌∷◌,
  ◌++◌, same, lookup, insert, length, if◌then◌else◌,
}
use whooshd.Threadwake.Index.{
  ThreadWakeIndex, ThreadWakeIndexEntry, ready, Limits, ScopeContext, ThreadTip, total_memory,
  new as empty_index,
}
use whooshd.Threadwake.Operations.{Observation, stored, put_observation, get, fresh_entry}
use whooshd.Threadwake.Calls.{put, look_up, ready_now, evict_key, run_calls, Goes}
use whooshd.Threadwake.Soundness.{run_calls-IsSound, IsSound-new}
use whooshd.Threadwake.Order.{occurs, IsTracked, IsTracked-new}
use whooshd.Threadwake.Eviction.{Drops}
use whooshd.Threadwake.Reads.{Reads, get-Reads}
use whooshd.Threadwake.Stores.{put_observation-new, get-put_again, IsObserved}
use whooshd.Threadwake.Tips.{
  store_thread_tip, get_latest_for_thread, validate_monotonic_append, tip_key, get_latest-store,
}
use whooshd.Threadwake.KvLifecycle.{KvEvent, new as new_observer, KvLifecycleObserver}
use whooshd.Threadwake.KvLifecycle.Totals.{record_all, Observes, record_all-Observes}
use whooshd.Threadwake.Reuse.{
  Adapter, Request, Manager, execute_ephemeral, ephemeral_miss, exact_prefix,
}
use whooshd.Threadwake.Fallback.{Answers, execute_ephemeral-Answers}
use whooshd.Threadwake.Rehits.{exact_prefix-after_miss}

abbrev digest : String → String
digest s = s

-- Room for one entry.
abbrev one_entry : Limits
one_entry = record {
  max_entries = 1;
  max_memory_bytes = 1000;
  bytes_per_token = 2;
  allow_global = false;
}

abbrev in_thread : String → ScopeContext
in_thread t = record { thread_id = some t; user_id = none; project_id = none }

abbrev observe : String → String → Option String → Observation
observe k t handle = record {
  cache_key = k;
  model_id = "m";
  backend = "mlx";
  prompt_prefix_hash = "p";
  token_count = 7;
  scope = "thread";
  scope_context = in_thread t;
  kv_handle_id = handle;
}

run_calls-IsSound_example : Goes one_entry (
    run_calls digest one_entry
      (put 1 (observe "k" "t" none)
        ∷ put 2 (observe "j" "t" none)
        ∷ ready_now "j"
        ∷ look_up 3 "j" (in_thread "t")
        ∷ evict_key "j"
        ∷ [])
      empty_index)
run_calls-IsSound_example =
    run_calls-IsSound digest one_entry
      (put 1 (observe "k" "t" none)
        ∷ put 2 (observe "j" "t" none)
        ∷ ready_now "j"
        ∷ look_up 3 "j" (in_thread "t")
        ∷ evict_key "j"
        ∷ [])
      empty_index (IsSound-new digest one_entry)

abbrev thread_a : ThreadWakeIndexEntry
thread_a = record (fresh_entry digest one_entry 1 (observe "k" "a" (some "h"))) { status = ready }

-- The entry of thread a, ready.
abbrev holding : ThreadWakeIndex
holding = record empty_index { entries = ("k", thread_a) ∷ []; lru = "k" ∷ [] }

holding-IsTracked : IsTracked holding.entries holding.lru
unfolding occurs lookup insert
holding-IsTracked = IsTracked-new [] [] "k" thread_a (tt, λ k. refl) refl

put_observation-new_example :
    (e : ThreadWakeIndexEntry) × IsObserved digest one_entry 2 (observe "j" "t" (some "new")) e
    × ((ix' : ThreadWakeIndex) × (put_observation digest one_entry 2
            (observe "j" "t" (some "new"))
            holding
          ≡ stored ix')
        × ((evicted_keys : List String) × (holding.lru ++ ("j" ∷ []) ≡ evicted_keys ++ ix'.lru)
            × (ix'.evictions ≡ holding.evictions + length evicted_keys)
            × Drops one_entry (insert "j" e holding.entries) evicted_keys ix'.entries
            × ((i : String)
                → occurs i evicted_keys ≡ 0
                → lookup i ix'.entries ≡ (if same "j" i then some e else lookup i holding.entries)))
        × (length ix'.entries ≤ one_entry.max_entries)
        × (0 < one_entry.max_memory_bytes → total_memory ix'.entries ≤ one_entry.max_memory_bytes))
unfolding lookup same
put_observation-new_example =
    put_observation-new digest one_entry 2 (observe "j" "t" (some "new")) holding holding-IsTracked
      refl refl

get-Reads_example :
    Reads digest one_entry 3 "k"
      (in_thread "b")
      holding
      (get digest one_entry 3 "k" (in_thread "b") holding)
get-Reads_example = get-Reads digest one_entry 3 "k" (in_thread "b") holding

-- Thread b takes the entry over with the handle of thread a.
get-put_again_example :
    (ix' : ThreadWakeIndex) × (put_observation digest one_entry 2 (observe "k" "b" none) holding
      ≡ stored ix')
    × ((e' : ThreadWakeIndexEntry) × ((get digest one_entry 3 "k" (in_thread "b") ix').1 ≡ some e')
        × (e'.kv_handle_id ≡ some "h")
        × (e'.status ≡ ready)
        × (e'.scope ≡ "thread")
        × (e'.token_count ≡ 7)
        × (e'.last_used_at ≡ 3))
unfolding lookup same fresh_entry
get-put_again_example =
    get-put_again digest one_entry 2 3 (observe "k" "b" none) holding thread_a refl refl refl refl
      (inr (inr ("b", (inl (refl, refl), refl))))

get_latest-store_example :
    let ix' = store_thread_tip digest 4 "t" "m" "mlx" "c" ("s1" ∷ "s2" ∷ []) (some "h") holding in
    ((tip : ThreadTip) × (get_latest_for_thread digest "t" "m" "mlx" ix' ≡ some tip)
      × (tip.chain_hash ≡ "c")
      × (tip.ordered_segment_hashes ≡ "s1" ∷ "s2" ∷ [])
      × (tip.segment_count ≡ 2)
      × (tip.kv_handle_id ≡ some "h")
      × ((appended : List String)
          → validate_monotonic_append tip.ordered_segment_hashes (("s1" ∷ "s2" ∷ []) ++ appended)
            ≡ true))
    × ((other : String)
        → same (tip_key digest "t" "m" "mlx") other ≡ false
        → lookup other ix'.thread_tips ≡ lookup other holding.thread_tips)
get_latest-store_example =
    get_latest-store digest "t" "m" "mlx" 4 "c" ("s1" ∷ "s2" ∷ []) (some "h") holding

abbrev event : String → ℕ → KvEvent
event t now = record {
  event_id = "e";
  event_type = t;
  backend = some "mlx";
  model_id = none;
  capability = none;
  request_id_hash = none;
  thread_id_hash = none;
  cache_key_hash = none;
  kv_handle_id_hash = none;
  token_start = none;
  token_end = none;
  token_count = none;
  reason = none;
  timestamp = now;
}

record_all-Observes_example :
    Observes 2 (event "kv_created" 1 ∷ event "kv_cloned" 2 ∷ event "kv_evicted" 3 ∷ []) (
      record_all
        (event "kv_created" 1 ∷ event "kv_cloned" 2 ∷ event "kv_evicted" 3 ∷ [])
        (new_observer true 2))
record_all-Observes_example =
    record_all-Observes 2 (event "kv_created" 1 ∷ event "kv_cloned" 2 ∷ event "kv_evicted" 3 ∷ [])

-- A backend that never raises; its state is the number of its calls.
abbrev backend : Adapter ℕ
backend = record {
  clone_kv = λ h n. (n + 1, some "clone");
  generate_from_kv = λ h tokens n. (n + 1, some ("cached" ∷ []));
  prefill_to_kv = λ tokens model n. (n + 1, some "new handle");
  generate_fn = λ n. (n + 1, some ("full" ∷ []));
}

-- One that raises at every call for cached state.
abbrev broken : Adapter ℕ
broken = record {
  clone_kv = λ h n. (n + 1, none);
  generate_from_kv = λ h tokens n. (n + 1, none);
  prefill_to_kv = λ tokens model n. (n + 1, none);
  generate_fn = λ n. (n + 1, some ("full" ∷ []));
}

abbrev asked : Request
asked = record {
  cache_key = "k";
  model_id = "m";
  backend = "mlx";
  scope = "thread";
  scope_context = in_thread "a";
  is_wanted = true;
  can_reuse = true;
  real_tokenization = true;
  stable_prefix_hash = "p";
  stable_prefix_tokens = 7;
  full_prefix_chain_hash = "c";
  ordered_segment_hashes = "s1" ∷ [];
  continuation_candidate = false;
  stable_tokens = "1" ∷ "2" ∷ [];
  dynamic_tokens = "3" ∷ [];
}

abbrev no_event_id : KvLifecycleObserver → String
no_event_id o = "e"

execute_ephemeral-Answers_example : Answers digest digest no_event_id one_entry broken (
    execute_ephemeral digest digest no_event_id one_entry broken 5 asked
      (record { index = empty_index; kv_observer = new_observer true 2; world = 0 }))
execute_ephemeral-Answers_example =
    execute_ephemeral-Answers digest digest no_event_id one_entry broken 5 asked
      (record { index = empty_index; kv_observer = new_observer true 2; world = 0 })
      (IsSound-new digest one_entry)

abbrev served : Manager ℕ
served = record { index = holding; kv_observer = new_observer true 2; world = 0 }

exact_prefix-after_miss_example :
    let missed = ephemeral_miss digest digest no_event_id one_entry backend 5 asked served in
    (missed.1 ≡ some (record { output_tokens = "full" ∷ []; cache_hit = false }))
    × ((exact_prefix digest digest no_event_id one_entry backend 6 asked missed.0).1
        ≡ some (record { output_tokens = "cached" ∷ []; cache_hit = true }))
unfolding lookup same
exact_prefix-after_miss_example =
    exact_prefix-after_miss digest digest no_event_id one_entry backend 5 6 asked "new handle"
      "clone" served thread_a "1" ("2" ∷ []) ("full" ∷ []) ("cached" ∷ []) 1 2 3 4 refl refl
      (inr (inr ("a", (inl (refl, refl), refl)))) refl refl refl refl refl
