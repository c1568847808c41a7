-- ===== src/Queue/Batches.antt =====
-- whooshd/queue.py: batch groups among the queued entries, their claims and their results. The
-- `batch_claimed` flag of an entry is set together with its future, so both are kept as the futures
-- of the claimed entries, by the identifier of the request. The analyzer is a function.
pub mod Results
use whooshd.Base.{
  ℕ, ◌≤◌, ◌≡◌, refl, ◌∙◌, String, Bool, true, false, ◌&&◌, Option, none, some, List, [], ◌∷◌, leb,
  if◌then◌else◌, length, keep, same, count, Dict, lookup, insert, has_key, arith, branches,
  Bool-cases,
}
use whooshd.Batching.{BatchCandidate, BatchGroup, BatchAnalysis, analyze}
use whooshd.Batching.Groups.{count_members, analyze_shares}
use whooshd.Queue.{QueueEntry, RequestQueue, find, listed}

-- An `asyncio.Future`: unset, or set to a response, which is `None` for an entry without one.
pub data Future (R : Type 0) : Type 0 where
  pending : Future R
  resolved : Option R → Future R

abbrev pub model_or_unknown : Option String → String
model_or_unknown none = "unknown"
model_or_unknown (some m) = m

abbrev pub batch_candidate : QueueEntry → BatchCandidate
batch_candidate e = record {
  request_id = e.request_id;
  queued_at = e.enqueued_at;
  model = model_or_unknown e.model;
  backend = none;
  stream = e.stream;
  estimated_prompt_tokens = none;
  max_tokens = none;
  sampling_class = none;
  has_image = false;
}

unfoldable pub batch_candidates_of : List QueueEntry → List BatchCandidate
batch_candidates_of [] = []
batch_candidates_of (e ∷ es) = batch_candidate e ∷ batch_candidates_of es

unfoldable pub build_batch_candidates : RequestQueue → List BatchCandidate
build_batch_candidates q = batch_candidates_of q.entries

unfoldable pub request_ids : List BatchCandidate → List String
request_ids [] = []
request_ids (c ∷ cs) = c.request_id ∷ request_ids cs

abbrev pub group_entries : BatchGroup → List QueueEntry → List QueueEntry
group_entries g es = keep (λ e. listed e.request_id (request_ids g.members)) es

-- The loop over the groups.
unfoldable pub first_group : String → List QueueEntry → List BatchGroup → Option (List QueueEntry)
first_group rid es [] = none
first_group rid es (g ∷ gs) =
    let rest = first_group rid es gs in
    if g.eligible && listed rid (request_ids g.members)
    then (if leb 2 (length (group_entries g es)) then some (group_entries g es) else rest)
    else rest

unfoldable pub find_batch_group :
    (List BatchCandidate → Bool → BatchAnalysis)
    → Bool
    → String
    → RequestQueue
    → Option (List QueueEntry)
find_batch_group analyzer enabled rid q =
    if enabled
    then first_group rid q.entries (analyzer (build_batch_candidates q) enabled).groups
    else none

-- The futures with those of the newly claimed entries, whose identifiers are listed.
unfoldable pub claim_batch_entries :
    {R : Type 0} → Dict (Future R) → List QueueEntry → Dict (Future R) × List String
claim_batch_entries fs [] = (fs, [])
claim_batch_entries fs (e ∷ es) =
    let claimed = claim_batch_entries (insert e.request_id pending fs) es in
    let passed_over = claim_batch_entries fs es in
    if has_key e.request_id fs then passed_over else (claimed.0, e.request_id ∷ claimed.1)

-- `result_map.get(rid)`: the last result of the request.
unfoldable pub result_of : {R : Type 0} → String → List (String × R) → Option R
result_of rid [] = none
result_of rid ((k, r) ∷ rs) = elim (result_of rid rs) [
  | none ↦ if same k rid then some r else none
  | some later ↦ some later
]

abbrev pub resolve_one :
    {R : Type 0}
    → String
    → List (String × R)
    → Dict (Future R)
    → Option (Future R)
    → Dict (Future R)
resolve_one rid rs fs (some pending) = insert rid (resolved (result_of rid rs)) fs
resolve_one rid rs fs (some (resolved r)) = fs
resolve_one rid rs fs none = fs

unfoldable pub resolve_batch_results :
    {R : Type 0} → Dict (Future R) → List QueueEntry → List (String × R) → Dict (Future R)
resolve_batch_results fs [] rs = fs
resolve_batch_results fs (e ∷ es) rs =
    resolve_batch_results (resolve_one e.request_id rs fs (lookup e.request_id fs)) es rs

unlisted :
    (rid : String) (cs : List BatchCandidate)
    → count (λ c. same c.request_id rid) cs ≡ 0
    → listed rid (request_ids cs) ≡ false
unfolding count listed request_ids
unlisted rid [] h = refl
unlisted rid (c ∷ cs) h = ground (arith, unlisted rid cs)

first_group-absent :
    (rid : String) (es : List QueueEntry) (gs : List BatchGroup)
    → count_members (λ c. same c.request_id rid) gs ≡ 0
    → first_group rid es gs ≡ none
unfolding first_group count_members
first_group-absent rid es [] h = refl
first_group-absent rid es (g ∷ gs) h =
    rw (unlisted rid g.members (omega arith)) (ground (arith, first_group-absent rid es gs))

no_candidate :
    (rid : String) (es : List QueueEntry)
    → find rid es ≡ none
    → count (λ c. same c.request_id rid) (batch_candidates_of es) ≡ 0
unfolding find count batch_candidates_of
no_candidate rid [] h = refl
no_candidate rid (e ∷ es) h = ground (arith, no_candidate rid es)

-- The source's analyzer, with limits on the size and the tokens of a group, finds no group for a
-- request that is not queued.
pub find_batch_group-absent :
    (most budget : ℕ) (enabled : Bool) (rid : String) (q : RequestQueue)
    → find rid q.entries ≡ none
    → find_batch_group (analyze most budget) enabled rid q ≡ none
unfolding find_batch_group build_batch_candidates
find_batch_group-absent most budget false rid q h = refl
find_batch_group-absent most budget true rid q h =
    let p = λ (c : BatchCandidate). same c.request_id rid in
    let cs = batch_candidates_of q.entries in
    first_group-absent rid q.entries (analyze most budget cs true).groups
      ((analyze_shares most budget cs).0 p ∙ no_candidate rid q.entries h)
