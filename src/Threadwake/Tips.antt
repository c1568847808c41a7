-- ===== src/Threadwake/Tips.antt =====
-- whooshd/runtime/threadwake/index.py: the tip of a thread, which names the cached state that the
-- thread's next request can go on from.
use Prim.Native.String as Text
use whooshd.Base.{
  true_ne_false, branches, subst, lookup-insert, sym, length-append, ◌∙◌, suc, ℕ, ◌≡◌, ◌↔◌, zero,
  suc, refl, String, Bool, true, false, ◌&&◌, Option, none, some, List, [], ◌∷◌, ◌++◌, ap, ltb,
  ◌==◌, arith, if◌then◌else◌, same, length, lookup, insert, erase, lookup-insert_self, same→eq,
  same_refl,
}
use whooshd.Threadwake.Index.{ThreadTip, ThreadWakeIndex}

-- `xs == ys` on lists of texts.
unfoldable pub same_texts : List String → List String → Bool
same_texts [] [] = true
same_texts [] (y ∷ ys) = false
same_texts (x ∷ xs) [] = false
same_texts (x ∷ xs) (y ∷ ys) = same x y && same_texts xs ys

-- `xs[:n]`.
unfoldable pub take : ℕ → List String → List String
take zero xs = []
take (suc n) [] = []
take (suc n) (x ∷ xs) = x ∷ take n xs

unfoldable pub validate_monotonic_append : List String → List String → Bool
validate_monotonic_append previous_hashes new_ordered_hashes =
    let prev_count = length previous_hashes in
    if prev_count == 0
    then true
    else if ltb (length new_ordered_hashes) prev_count
    then false
    else same_texts (take prev_count new_ordered_hashes) previous_hashes

same_texts→eq : (xs ys : List String) → same_texts xs ys ≡ true → xs ≡ ys
unfolding same_texts
same_texts→eq [] [] h = refl
same_texts→eq [] (y ∷ ys) h = absurd (ground arith)
same_texts→eq (x ∷ xs) [] h = absurd (ground arith)
same_texts→eq (x ∷ xs) (y ∷ ys) h =
    let e : x ≡ y = same→eq x y (ground arith) in
    let f : xs ≡ ys = same_texts→eq xs ys (ground arith) in cc

same_texts_refl : (xs : List String) → same_texts xs xs ≡ true
unfolding same_texts
same_texts_refl [] = refl
same_texts_refl (x ∷ xs) = rw same_refl (same_texts_refl xs)

take-append : (xs ys : List String) → take (length xs) (xs ++ ys) ≡ xs
unfolding take
take-append [] ys = refl
take-append (x ∷ xs) ys = ap (λ r. x ∷ r) (take-append xs ys)

unfoldable drop : ℕ → List String → List String
drop zero xs = xs
drop (suc n) [] = []
drop (suc n) (x ∷ xs) = drop n xs

take-drop : (n : ℕ) (xs : List String) → xs ≡ take n xs ++ drop n xs
unfolding take drop
take-drop zero xs = refl
take-drop (suc n) [] = refl
take-drop (suc n) (x ∷ xs) = ap (λ r. x ∷ r) (take-drop n xs)

abbrev IsTrue : Bool → Type 0
IsTrue b = b ≡ true

-- New hashes are valid exactly when they are the previous ones with any number, none included,
-- appended.
pub validate_monotonic_append_iff :
    (previous_hashes new_hashes : List String)
    → (validate_monotonic_append previous_hashes new_hashes ≡ true)
      ↔ ((appended : List String) × (new_hashes ≡ previous_hashes ++ appended))
unfolding validate_monotonic_append
validate_monotonic_append_iff [] ys = ((λ h. (ys, refl)), (λ h. refl))
validate_monotonic_append_iff (x ∷ xs) ys = (forth, back)
  where
    forth :
        validate_monotonic_append (x ∷ xs) ys ≡ true
        → (appended : List String) × (ys ≡ (x ∷ xs) ++ appended)
    forth h =
        let e : take (length (x ∷ xs)) ys ≡ x ∷ xs = same_texts→eq _ _ (ground arith) in
        (
          drop (length (x ∷ xs)) ys,
          take-drop (length (x ∷ xs)) ys ∙ ap (λ r. r ++ drop (length (x ∷ xs)) ys) e,
        )

    back :
        (appended : List String) × (ys ≡ (x ∷ xs) ++ appended)
        → validate_monotonic_append (x ∷ xs) ys ≡ true
    back (zs, e) =
        let t : same_texts (take (length (x ∷ xs)) ((x ∷ xs) ++ zs)) (x ∷ xs) ≡ true =
          rw (take-append (x ∷ xs) zs) (same_texts_refl (x ∷ xs)) in
        let f : ltb (length ((x ∷ xs) ++ zs)) (length (x ∷ xs)) ≡ false =
          ground (arith, length-append xs zs) in
        subst (λ r. validate_monotonic_append (x ∷ xs) r ≡ true) (sym e)
          (branches IsTrue (length (x ∷ xs) == 0) _ _ (λ z. refl)
            (λ nz.
              branches IsTrue (ltb (length ((x ∷ xs) ++ zs)) (length (x ∷ xs))) _ _
                (λ short. absurd (true_ne_false (sym short ∙ f))) (λ long. t)))

module _ (sha256_hex : String → String) where
  unfoldable pub tip_key : String → String → String → String
  tip_key thread_id model_id backend =
      Text.◌++◌ (sha256_hex thread_id) (Text.◌++◌ ":" (Text.◌++◌ model_id (Text.◌++◌ ":" backend)))

  unfoldable pub get_latest_for_thread :
      String → String → String → ThreadWakeIndex → Option ThreadTip
  get_latest_for_thread thread_id model_id backend ix =
      lookup (tip_key thread_id model_id backend) ix.thread_tips

  unfoldable pub new_tip :
      ℕ
      → String
      → String
      → String
      → String
      → List String
      → Option String
      → Option ThreadTip
      → ThreadTip
  new_tip now thread_id model_id backend chain_hash hashes handle none = record {
    thread_id_hash = sha256_hex thread_id;
    model_id = model_id;
    backend = backend;
    chain_hash = chain_hash;
    segment_count = length hashes;
    ordered_segment_hashes = hashes;
    kv_handle_id = handle;
    created_at = now;
    updated_at = now;
  }
  new_tip now thread_id model_id backend chain_hash hashes handle (some t) = record t {
    chain_hash = chain_hash;
    ordered_segment_hashes = hashes;
    segment_count = length hashes;
    kv_handle_id = handle;
    updated_at = now;
  }

  unfoldable pub store_thread_tip :
      ℕ
      → String
      → String
      → String
      → String
      → List String
      → Option String
      → ThreadWakeIndex
      → ThreadWakeIndex
  store_thread_tip now thread_id model_id backend chain_hash hashes handle ix =
      let k = tip_key thread_id model_id backend in
      let old = lookup k ix.thread_tips in
      record ix {
        thread_tips =
            insert k (new_tip now thread_id model_id backend chain_hash hashes handle old)
              ix.thread_tips;
      }

  unfoldable pub clear_thread_tip : String → String → String → ThreadWakeIndex → ThreadWakeIndex
  clear_thread_tip thread_id model_id backend ix = record ix {
    thread_tips = erase (tip_key thread_id model_id backend) ix.thread_tips;
  }

module _ (sha256_hex : String → String) (thread_id model_id backend : String) where
  -- After a tip has been stored, the thread's latest tip for the model and backend has the chain
  -- hash, the segment hashes, their number and the handle that were stored; a request whose hashes
  -- append to them is a valid continuation; and the tip of every other key is as it was.
  pub get_latest-store :
      (now : ℕ) (chain_hash : String) (hashes : List String) (handle : Option String)
      (ix : ThreadWakeIndex)
      → let ix' =
          store_thread_tip sha256_hex now thread_id model_id backend chain_hash hashes handle ix in
        ((tip : ThreadTip) × (get_latest_for_thread sha256_hex thread_id model_id backend ix'
            ≡ some tip)
          × (tip.chain_hash ≡ chain_hash)
          × (tip.ordered_segment_hashes ≡ hashes)
          × (tip.segment_count ≡ length hashes)
          × (tip.kv_handle_id ≡ handle)
          × ((appended : List String)
              → validate_monotonic_append tip.ordered_segment_hashes (hashes ++ appended) ≡ true))
        × ((other : String)
            → same (tip_key sha256_hex thread_id model_id backend) other ≡ false
            → lookup other ix'.thread_tips ≡ lookup other ix.thread_tips)
  unfolding get_latest_for_thread store_thread_tip new_tip
  get_latest-store now chain_hash hashes handle ix =
      let k = tip_key sha256_hex thread_id model_id backend in
      let t =
        new_tip sha256_hex now thread_id model_id backend chain_hash hashes handle
          (lookup k ix.thread_tips) in
      let (h1, h2, h3, h4) = holds now chain_hash hashes handle (lookup k ix.thread_tips) in
      (
        (
          t,
          lookup-insert_self k t ix.thread_tips,
          h1,
          h2,
          h3,
          h4,
          λ appended.
              (validate_monotonic_append_iff _ _).1 (appended, ap (λ x. x ++ appended) (sym h2)),
        ),
        λ other n.
            lookup-insert k other t ix.thread_tips
            ∙ ap (λ b. if b then some t else lookup other ix.thread_tips) n,
      )
    where
      holds :
          (now : ℕ) (chain_hash : String) (hashes : List String) (handle : Option String)
          (old : Option ThreadTip)
          → let t =
              new_tip sha256_hex now thread_id model_id backend chain_hash hashes handle old in
            (t.chain_hash ≡ chain_hash)
            × (t.ordered_segment_hashes ≡ hashes)
            × (t.segment_count ≡ length hashes)
            × (t.kv_handle_id ≡ handle)
      holds now chain_hash hashes handle none = (refl, refl, refl, refl)
      holds now chain_hash hashes handle (some t) = (refl, refl, refl, refl)
