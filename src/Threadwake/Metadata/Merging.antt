-- ===== src/Threadwake/Metadata/Merging.antt =====
-- metadata.py and compiler.py: what segment metadata can change.
use whooshd.Base.{
  ℕ, ◌+◌, ◌≡◌, ◌⊎◌, inl, inr, refl, ap, String, Bool, false, Option, none, some, List, [], ◌∷◌,
  ◌==◌, arith,
}
use whooshd.Threadwake.Policy.{PromptSegment}
use whooshd.Threadwake.Metadata.{
  Encoders, Message, CodexifySegmentMeta, MetaError, apply_meta, find_meta, validate_single_meta,
  merge_valid, merge_found, merge_from, validate_and_merge_segments,
}

-- A merged segment against the inferred one: its role, content hash, token count and modality are
-- the inferred ones, and it is the inferred one, or that of a valid entry for its index.
module _ {J : Type 0} (enc : Encoders J) (messages : List (Message J)) (allow_global : Bool)
    (metas : List CodexifySegmentMeta) (scope : String) where
  abbrev pub IsMerged : ℕ → PromptSegment → PromptSegment → Type 0
  IsMerged i s t =
      (t.role ≡ s.role)
      × (t.content_hash ≡ s.content_hash)
      × (t.token_count ≡ s.token_count)
      × (t.multimodal ≡ s.multimodal)
      × ((t ≡ s)
          ⊎ ((m : CodexifySegmentMeta) × (find_meta i metas ≡ some m)
              × (validate_single_meta enc messages allow_global m ≡ none)
              × (t ≡ apply_meta m s scope)))

  abbrev pub AreMerged : ℕ → List PromptSegment → List PromptSegment → Type 0
  AreMerged i [] [] = Unit {0}
  AreMerged i [] (t ∷ ts) = ⊥
  AreMerged i (s ∷ ss) [] = ⊥
  AreMerged i (s ∷ ss) (t ∷ ts) = IsMerged i s t × AreMerged (i + 1) ss ts

  merge_valid-IsMerged :
      (i : ℕ) (s : PromptSegment) (m : CodexifySegmentMeta) (o : Option MetaError)
      → find_meta i metas ≡ some m
      → validate_single_meta enc messages allow_global m ≡ o
      → IsMerged i s (merge_valid enc messages allow_global m s scope o)
  unfolding apply_meta
  merge_valid-IsMerged i s m none f v = (refl, refl, refl, refl, inr (m, f, v, refl))
  merge_valid-IsMerged i s m (some e) f v = (refl, refl, refl, refl, inl refl)

  merge_found-IsMerged :
      (i : ℕ) (s : PromptSegment) (o : Option CodexifySegmentMeta)
      → find_meta i metas ≡ o
      → IsMerged i s (merge_found enc messages allow_global s scope o)
  merge_found-IsMerged i s none f = (refl, refl, refl, refl, inl refl)
  merge_found-IsMerged i s (some m) f =
      merge_valid-IsMerged i s m (validate_single_meta enc messages allow_global m) f refl

  merge_from-AreMerged :
      (i : ℕ) (ss : List PromptSegment)
      → AreMerged i ss (merge_from enc messages allow_global i metas scope ss)
  unfolding merge_from
  merge_from-AreMerged i [] = tt
  merge_from-AreMerged i (s ∷ ss) =
      (merge_found-IsMerged i s (find_meta i metas) refl, merge_from-AreMerged (i + 1) ss)

module _ {J : Type 0} (enc : Encoders J) (messages : List (Message J)) (allow_global : Bool)
    (scope : String) where
  kept : (i : ℕ) (ss : List PromptSegment) → AreMerged enc messages allow_global [] scope i ss ss
  kept i [] = tt
  kept i (s ∷ ss) = ((refl, refl, refl, refl, inl refl), kept (i + 1) ss)

  -- Whatever metadata a request carries, merging keeps the segments' number and order, and of each
  -- its role, content hash, token count and modality; and a segment either stays as it was inferred
  -- or is changed by the first entry for its index, if that entry is valid.
  pub validate_and_merge_segments-AreMerged :
      (ss : List PromptSegment) (metas : List CodexifySegmentMeta)
      → AreMerged enc messages allow_global metas scope 0 ss
          (validate_and_merge_segments enc messages allow_global ss metas scope)
  unfolding validate_and_merge_segments
  validate_and_merge_segments-AreMerged ss [] = kept 0 ss
  validate_and_merge_segments-AreMerged ss (m ∷ ms) =
      merge_from-AreMerged enc messages allow_global (m ∷ ms) scope 0 ss

  -- An entry for an earlier index changes nothing.
  pub merge_from-past :
      (i : ℕ) (m : CodexifySegmentMeta) (ss : List PromptSegment)
      → (m.message_index == i) ≡ false
      → ((j : ℕ) → (m.message_index == i + 1 + j) ≡ false)
      → merge_from enc messages allow_global i (m ∷ []) scope ss ≡ ss
  unfolding merge_from find_meta
  merge_from-past i m [] f g = refl
  merge_from-past i m (s ∷ ss) f g = rw f (
      ap (λ x. s ∷ x)
        (merge_from-past (i + 1) m ss (ground (arith, g 0)) (λ j. ground (arith, g (j + 1)))))
