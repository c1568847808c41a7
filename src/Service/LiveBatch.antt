-- ===== src/Service/LiveBatch.antt =====
-- whooshd/app.py: `_try_execute_live_batch`, cut where it awaits the adapter: `start_live_batch` runs
-- up to the batch call, `end_live_batch` is what follows it. The outcome of the call is a list of
-- responses `R`, or `none` for an exception, which is also what a request leads to that the backend
-- policy refuses. Provenance is left out.
pub mod Outcomes
use whooshd.Base.{
  ℕ, String, Bool, true, false, Option, none, some, List, [], ◌∷◌, ltb, ◌==◌, if◌then◌else◌, not,
  length, keep, same, Dict, has_key,
}
use whooshd.Batching.{analyze}
use whooshd.Queue.{QueueEntry, RequestQueue, notify_capacity}
use whooshd.Queue.Batches.{
  Future, find_batch_group, claim_batch_entries, result_of, resolve_batch_results,
}
use whooshd.Runtime.{RuntimeState, mark_running, complete_request, fail_request}
use whooshd.Service.{is_cancelled}

pub record BatchSettings : Type 0 where
  pub execution_enabled : Bool
  pub analysis_enabled : Bool
  pub min_size : ℕ
  pub max_size : ℕ
  pub is_experimental : Bool  -- `adapter.supports_chat_batching()` is "experimental"

-- The analyzer's default.
abbrev pub max_total_tokens : ℕ
max_total_tokens = 8192

unfoldable pub active_group :
    {R : Type 0} → RuntimeState → Dict (Future R) → List QueueEntry → List QueueEntry
active_group rt fs group =
    keep (λ e. not (is_cancelled rt e.request_id)) (keep (λ e. not (has_key e.request_id fs)) group)

abbrev pub claimed :
    {R : Type 0}
    → Dict (Future R)
    → List QueueEntry
    → Dict (Future R) × List String
    → Dict (Future R) × Option (List QueueEntry)
claimed fs active (fs', []) = (fs, none)
claimed fs active (fs', id ∷ ids) = (fs', some active)

abbrev pub claim_group :
    {R : Type 0}
    → BatchSettings
    → RuntimeState
    → Dict (Future R)
    → Option (List QueueEntry)
    → Dict (Future R) × Option (List QueueEntry)
claim_group s rt fs none = (fs, none)
claim_group s rt fs (some group) =
    let active = active_group rt fs group in
    if ltb (length active) s.min_size
    then (fs, none)
    else claimed fs active (claim_batch_entries fs active)

-- The futures, and the entries that the adapter is called for; `none` where there is no batch.
unfoldable pub start_live_batch :
    {R : Type 0}
    → BatchSettings
    → RuntimeState
    → RequestQueue
    → Dict (Future R)
    → String
    → Dict (Future R) × Option (List QueueEntry)
start_live_batch s rt q fs rid =
    if not s.execution_enabled
    then (fs, none)
    else if not s.is_experimental
    then (fs, none)
    else claim_group s rt fs
        (find_batch_group (analyze s.max_size max_total_tokens) s.analysis_enabled rid q)

pub data BatchResponse (R : Type 0) : Type 0 where
  answered : R → BatchResponse R
  batch_error : String → BatchResponse R  -- the response with status 502 for that request

pub record BatchEnd (R : Type 0) : Type 0 where
  pub runtime : RuntimeState
  pub queue : RequestQueue
  pub futures : Dict (Future (BatchResponse R))
  pub response : Option (BatchResponse R)

unfoldable pub fail_all : ℕ → List QueueEntry → RuntimeState → RuntimeState
fail_all now [] rt = rt
fail_all now (e ∷ es) rt =
    fail_all now es
      (fail_request (mark_running rt e.request_id) e.request_id (some "BATCH_ERROR") now)

unfoldable pub error_results : {R : Type 0} → List QueueEntry → List (String × BatchResponse R)
error_results [] = []
error_results (e ∷ es) = (e.request_id, batch_error e.request_id) ∷ error_results es

-- The error response of the selected request, if it is one of the batch.
unfoldable pub own_error : {R : Type 0} → String → List QueueEntry → Option (BatchResponse R)
own_error rid [] = none
own_error rid (e ∷ es) =
    if same e.request_id rid then some (batch_error e.request_id) else own_error rid es

unfoldable pub resolve_all_with_error :
    {R : Type 0}
    → ℕ
    → String
    → List QueueEntry
    → RuntimeState
    → RequestQueue
    → Dict (Future (BatchResponse R))
    → BatchEnd R
resolve_all_with_error now rid es rt q fs = record {
  runtime = fail_all now es rt;
  queue = q;
  futures = resolve_batch_results fs es (error_results es);
  response = own_error rid es;
}

unfoldable pub complete_all : ℕ → List QueueEntry → RuntimeState → RuntimeState
complete_all now [] rt = rt
complete_all now (e ∷ es) rt =
    complete_all now es (complete_request (mark_running rt e.request_id) e.request_id now)

unfoldable pub zip_results :
    {R : Type 0} → List QueueEntry → List R → List (String × BatchResponse R)
zip_results [] xs = []
zip_results (e ∷ es) [] = []
zip_results (e ∷ es) (x ∷ xs) = (e.request_id, answered x) ∷ zip_results es xs

-- The selected request's caller signals the free slots.
abbrev pub notify_if : {R : Type 0} → Option (BatchResponse R) → RequestQueue → RequestQueue
notify_if none q = q
notify_if (some r) q = notify_capacity q

unfoldable pub end_live_batch :
    {R : Type 0}
    → ℕ
    → String
    → List QueueEntry
    → Option (List R)
    → RuntimeState
    → RequestQueue
    → Dict (Future (BatchResponse R))
    → BatchEnd R
end_live_batch now rid es none rt q fs = resolve_all_with_error now rid es rt q fs
end_live_batch now rid es (some xs) rt q fs =
    if not (length xs == length es) then resolve_all_with_error now rid es rt q fs else record {
      runtime = complete_all now es rt;
      queue = notify_if (result_of rid (zip_results es xs)) q;
      futures = resolve_batch_results fs es (zip_results es xs);
      response = result_of rid (zip_results es xs);
    }
