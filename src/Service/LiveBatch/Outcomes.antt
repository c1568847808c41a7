-- ===== src/Service/LiveBatch/Outcomes.antt =====
-- whooshd/app.py: when a live batch starts, and what its members are answered.
use whooshd.Base.{
  ℕ, zero, suc, ◌≡◌, ◌≢◌, ◌⊎◌, inl, inr, refl, sym, ap, ◌∙◌, String, Bool, true, false, Option,
  none, some, List, [], ◌∷◌, ◌==◌, not, length, same, same_cases, Option-cases, none_ne_some,
  eq→same, Dict, lookup, In, arith, branches, Bool-cases,
}
use whooshd.Config.{Config}
use whooshd.Queue.{
  QueueEntry, RequestQueue, Callbacks, Poll, returned, deferred, waiting, wait_round, find, listed,
}
use whooshd.Queue.Entries.{IsOnce}
use whooshd.Queue.Waiting.{Stands, wait_round-Ends}
use whooshd.Queue.Batches.{
  Future, pending, resolved, find_batch_group-absent, result_of, resolve_batch_results,
}
use whooshd.Queue.Batches.Results.{entry_ids, resolve_batch_results_lem}
use whooshd.Runtime.{RuntimeState}
use whooshd.Service.LiveBatch.{
  BatchSettings, max_total_tokens, start_live_batch, BatchResponse, answered, batch_error,
  error_results, BatchEnd, own_error, resolve_all_with_error, zip_results, end_live_batch,
}

apart : (p : Poll) → (p ≡ returned false) ⊎ ((p ≡ deferred) ⊎ (p ≡ waiting)) → p ≡ returned true → ⊥
apart p (inl e) h = cc
apart p (inr (inl e)) h = cc
apart p (inr (inr e)) h = cc

start_live_batch-absent :
    {R : Type 0} (s : BatchSettings) (rt : RuntimeState) (q : RequestQueue) (fs : Dict (Future R))
    (rid : String)
    → find rid q.entries ≡ none
    → start_live_batch s rt q fs rid ≡ (fs, none)
unfolding start_live_batch
start_live_batch-absent s rt q fs rid h =
    rw (find_batch_group-absent s.max_size max_total_tokens s.analysis_enabled rid q h)
      (ground arith)

-- In a queue that lists no request twice, a round tells a caller to execute its request, which waited
-- there or had been handed over. Then the request starts no live batch, whatever the settings and the
-- adapter: it has left the queue, and a group is looked for among the queued requests only.
pub wait_round-no_live_batch :
    {W R : Type 0} (cfg : Config) (cb : Callbacks W) (now : ℕ) (e : QueueEntry) (cancelled : Bool)
    (q : RequestQueue) (w : W) (s : BatchSettings) (rt : RuntimeState) (fs : Dict (Future R))
    → IsOnce q.entries
    → Stands q e
    → (wait_round cfg cb now e cancelled q w).poll ≡ returned true
    → start_live_batch s rt (wait_round cfg cb now e cancelled q w).queue fs e.request_id
      ≡ (fs, none)
wait_round-no_live_batch cfg cb now e cancelled q w s rt fs u st h =
    let r = wait_round cfg cb now e cancelled q w in
    elim (wait_round-Ends cfg cb now e cancelled q w u st) [
      | inl (_, over, _, _) ↦ start_live_batch-absent s rt r.queue fs e.request_id over.0
      | inr (inl (p, _, _)) ↦ absurd (apart r.poll (inl p) h)
      | inr (inr (p, _, _, _)) ↦ absurd (apart r.poll (inr p) h)
    ]

-- The element at a place of a list.
unfoldable pub get_elem? {ℓ} : {A : Type ℓ} → List A → ℕ → Option A
get_elem? [] n = none
get_elem? (x ∷ xs) zero = some x
get_elem? (x ∷ xs) (suc n) = get_elem? xs n

abbrev keys : {R : Type 0} → List (String × R) → List String
keys [] = []
keys ((k, r) ∷ rs) = k ∷ keys rs

result_of-In :
    {R : Type 0} (k : String) (rs : List (String × R)) {r : R}
    → result_of k rs ≡ some r
    → In (k, r) rs
unfolding result_of
result_of-In k [] h = absurd (cc)
result_of-In k ((j, r') ∷ rs) {r} h = elim (Option-cases (result_of k rs)) [
  | inl n ↦
      let h' = rw (n, result_of) at h in
      elim (same_cases j k) [
        | inl e ↦ let v : some r' ≡ some r = rw (eq→same j k e) at h' in inl (cc)
        | inr f ↦ let v : none ≡ some r = rw f at h' in absurd (none_ne_some v)
      ]
  | inr (w, e) ↦ inr (result_of-In k rs (e ∙ (rw (e, result_of) at h)))
]

result_of-listed :
    {R : Type 0} (k : String) (rs : List (String × R))
    → listed k (keys rs) ≡ true
    → (r : R) × (result_of k rs ≡ some r)
unfolding result_of listed
result_of-listed k [] h = absurd (cc)
result_of-listed k ((j, r) ∷ rs) h = elim (Option-cases (result_of k rs)) [
  | inr (w, e) ↦ (w, rw (e, result_of))
  | inl n ↦ elim (Bool-cases (same j k)) [
    | inl t ↦ (r, rw (n, result_of, t))
    | inr f ↦ absurd (none_ne_some (sym n ∙ (result_of-listed k rs (rw f at h)).1))
  ]
]

keys-errors : (R : Type 0) (es : List QueueEntry) → keys (error_results {R = R} es) ≡ entry_ids es
unfolding error_results
keys-errors R [] = refl
keys-errors R (e ∷ es) = ap (λ x. e.request_id ∷ x) (keys-errors R es)

module _ {R : Type 0} where
  keys-zip :
      (es : List QueueEntry) (xs : List R)
      → length xs ≡ length es
      → keys (zip_results es xs) ≡ entry_ids es
  unfolding zip_results
  keys-zip [] xs h = refl
  keys-zip (e ∷ es) [] h = absurd (omega arith)
  keys-zip (e ∷ es) (x ∷ xs) h = ap (λ y. e.request_id ∷ y) (keys-zip es xs (omega arith))

  error-In :
      (k : String) (a : BatchResponse R) (es : List QueueEntry)
      → In (k, a) (error_results es)
      → a ≡ batch_error k
  unfolding error_results
  error-In k a [] m = absurd m
  error-In k a (e ∷ es) (inl h) = cc
  error-In k a (e ∷ es) (inr m) = error-In k a es m

  own_error-result_of :
      (rid : String) (es : List QueueEntry)
      → listed rid (entry_ids es) ≡ true
      → own_error {R = R} rid es ≡ some (batch_error rid)
  unfolding own_error listed
  own_error-result_of rid [] h = absurd (cc)
  own_error-result_of rid (e ∷ es) h = elim (same_cases e.request_id rid) [
    | inl t ↦ rw (eq→same e.request_id rid t) (ap (λ x. some (batch_error x)) t)
    | inr f ↦ rw f (own_error-result_of rid es (rw f at h))
  ]

  -- The future of a request is set to the result that it has among these.
  resolves :
      (k : String) (es : List QueueEntry) (fs : Dict (Future (BatchResponse R)))
      (rs : List (String × BatchResponse R)) (a : BatchResponse R)
      → listed k (entry_ids es) ≡ true
      → lookup k fs ≡ some pending
      → result_of k rs ≡ some a
      → lookup k (resolve_batch_results fs es rs) ≡ some (resolved (some a))
  resolves k es fs rs a l p e = resolve_batch_results_lem rs k es fs ∙ rw (l, p, e)

  -- The response of that list which stands at a place where the request stands among the entries.
  abbrev pub IsResponse : String → List QueueEntry → List R → BatchResponse R → Type 0
  IsResponse k es xs a =
      (place : ℕ) × (x : R) × (get_elem? (entry_ids es) place ≡ some k)
      × (get_elem? xs place ≡ some x)
      × (a ≡ answered x)

  IsResponse-zip :
      (k : String) (a : BatchResponse R) (es : List QueueEntry) (xs : List R)
      → In (k, a) (zip_results es xs)
      → IsResponse k es xs a
  unfolding zip_results get_elem?
  IsResponse-zip k a [] xs m = absurd m
  IsResponse-zip k a (e ∷ es) [] m = absurd m
  IsResponse-zip k a (e ∷ es) (x ∷ xs) (inl h) = (
    0,
    x,
    ap (λ (p : String × BatchResponse R). some p.0) (sym h),
    refl,
    ap (λ (p : String × BatchResponse R). p.1) h,
  )
  IsResponse-zip k a (e ∷ es) (x ∷ xs) (inr m) =
      let (i, y, at, found, eq) = IsResponse-zip k a es xs m in (suc i, y, at, found, eq)

  -- The answer of a request: the response at a place of its entry, if there are as many responses
  -- as entries, and else the error response for that request.
  abbrev pub IsAnswer : String → List QueueEntry → Option (List R) → BatchResponse R → Type 0
  IsAnswer k es none a = a ≡ batch_error k
  IsAnswer k es (some xs) a =
      ((length xs ≡ length es) × IsResponse k es xs a)
      ⊎ ((length xs ≢ length es) × (a ≡ batch_error k))

  abbrev pub Settles : String → String → List QueueEntry → Option (List R) → BatchEnd R → Type 0
  Settles rid k es o v =
      (a : BatchResponse R) × (lookup k v.futures ≡ some (resolved (some a)))
      × (rid ≡ k → v.response ≡ some a)
      × IsAnswer k es o a

  module _ (now : ℕ) (rid k : String) (es : List QueueEntry) (rt : RuntimeState) (q : RequestQueue)
      (fs : Dict (Future (BatchResponse R))) where
    error-Settles :
        (o : Option (List R))
        → listed k (entry_ids es) ≡ true
        → lookup k fs ≡ some pending
        → IsAnswer k es o (batch_error k)
        → Settles rid k es o (resolve_all_with_error now rid es rt q fs)
    unfolding resolve_all_with_error
    error-Settles o l p i =
        let (a, e) = result_of-listed k (error_results es) (rw (keys-errors R es) l) in
        let b = error-In k a es (result_of-In k (error_results es) e) in
        (
          batch_error k,
          resolves k es fs (error_results es) (batch_error k) l p (e ∙ ap some b),
          λ h. rw h (own_error-result_of k es l),
          i,
        )

    -- A request is one of a batch that was claimed, and its future is not set yet. When the batch
    -- ends, however the adapter's call came out, the future is set to the request's own answer: the
    -- adapter's response at a place where the request stands among the entries, if there are as many
    -- responses as entries, and else the error response for that request. The selected request's
    -- caller is given the same answer.
    pub end_live_batch-Settles :
        (o : Option (List R))
        → listed k (entry_ids es) ≡ true
        → lookup k fs ≡ some pending
        → Settles rid k es o (end_live_batch now rid es o rt q fs)
    unfolding end_live_batch
    end_live_batch-Settles none l p = error-Settles none l p refl
    end_live_batch-Settles (some xs) l p =
        branches (Settles rid k es (some xs)) (not (length xs == length es)) _ _
          (λ t. error-Settles (some xs) l p (inr ((λ h. ground arith), refl)))
          (λ f.
            let n : length xs ≡ length es = ground arith in
            let (a, e) = result_of-listed k (zip_results es xs) (rw (keys-zip es xs n) l) in
            (
              a,
              resolves k es fs (zip_results es xs) a l p e,
              λ h. rw h e,
              inl (n, IsResponse-zip k a es xs (result_of-In k (zip_results es xs) e)),
            ))
