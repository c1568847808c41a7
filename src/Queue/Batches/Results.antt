-- ===== src/Queue/Batches/Results.antt =====
-- whooshd/queue.py: what becomes of the futures of a batch.
use whooshd.Base.{
  ◌≡◌, refl, ◌∙◌, String, false, Option, none, some, List, [], ◌∷◌, if◌then◌else◌, same, same_cases,
  eq→same, subst, Dict, lookup, lookup-insert, lookup-insert_self, Bool-cases, inl, inr,
}
use whooshd.Queue.{QueueEntry, listed}
use whooshd.Queue.Batches.{Future, pending, resolved, result_of, resolve_one, resolve_batch_results}

-- A future that is set stays as it is; one that is not is set to the request's own result.
abbrev pub settled : {R : Type 0} → Option R → Option (Future R) → Option (Future R)
settled own none = none
settled own (some pending) = some (resolved own)
settled own (some (resolved r)) = some (resolved r)

settled_again :
    {R : Type 0} (own : Option R) (o : Option (Future R))
    → settled own (settled own o) ≡ settled own o
settled_again own none = refl
settled_again own (some pending) = refl
settled_again own (some (resolved r)) = refl

abbrev pub entry_ids : List QueueEntry → List String
entry_ids [] = []
entry_ids (e ∷ es) = e.request_id ∷ entry_ids es

module _ {R : Type 0} (rs : List (String × R)) where
  resolve_one-ne :
      (rid k : String) (fs : Dict (Future R)) (o : Option (Future R))
      → same rid k ≡ false
      → lookup k (resolve_one rid rs fs o) ≡ lookup k fs
  resolve_one-ne rid k fs none n = refl
  resolve_one-ne rid k fs (some pending) n = lookup-insert rid k _ fs ∙ rw n
  resolve_one-ne rid k fs (some (resolved r)) n = refl

  resolve_one_self :
      (k : String) (fs : Dict (Future R)) (o : Option (Future R))
      → lookup k fs ≡ o
      → lookup k (resolve_one k rs fs o) ≡ settled (result_of k rs) o
  resolve_one_self k fs none h = h
  resolve_one_self k fs (some pending) h = lookup-insert_self k _ fs
  resolve_one_self k fs (some (resolved r)) h = h

  own :
      (rid k : String) (fs : Dict (Future R))
      → rid ≡ k
      → lookup k (resolve_one rid rs fs (lookup rid fs)) ≡ settled (result_of k rs) (lookup k fs)
  own rid k fs h =
      subst
        (λ x.
          lookup x (resolve_one rid rs fs (lookup rid fs)) ≡ settled (result_of x rs) (lookup x fs))
        h (resolve_one_self rid fs (lookup rid fs) refl)

  -- Each entry's future is settled by its own result, and no other future is touched.
  pub resolve_batch_results_lem :
      (k : String) (es : List QueueEntry) (fs : Dict (Future R))
      → lookup k (resolve_batch_results fs es rs)
        ≡ (if listed k (entry_ids es) then settled (result_of k rs) (lookup k fs) else lookup k fs)
  unfolding resolve_batch_results listed
  resolve_batch_results_lem k [] fs = refl
  resolve_batch_results_lem k (e ∷ es) fs =
      let fs' = resolve_one e.request_id rs fs (lookup e.request_id fs) in
      let rest = resolve_batch_results_lem k es fs' in
      elim (same_cases e.request_id k) [
        | inl h ↦ elim (Bool-cases (listed k (entry_ids es))) [
          | inl t ↦ rw (eq→same e.request_id k h) (
              rest
              ∙ rw t (rw (own e.request_id k fs h) (settled_again (result_of k rs) (lookup k fs))))
          | inr f ↦ rw (eq→same e.request_id k h) (rest ∙ rw f (own e.request_id k fs h))
        ]
        | inr n ↦ rw n (rest ∙ rw (resolve_one-ne e.request_id k fs (lookup e.request_id fs) n))
      ]
