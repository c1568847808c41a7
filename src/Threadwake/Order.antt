-- ===== src/Threadwake/Order.antt =====
-- whooshd/runtime/threadwake/index.py: the order of use lists exactly the keys of the entries.
use whooshd.Base.{
  ℕ, ◌+◌, ◌-◌, ◌≡◌, refl, inl, inr, String, false, none, some, List, [], ◌∷◌, ◌++◌, arith, one_if,
  Bool-cases, same, same_refl, same→eq, same_cases, lookup-insert_self, subst, Dict, lookup, insert,
  erase, has_key, IsDict, IsDict-insert, IsDict-erase, lookup-insert, lookup-erase_self,
  lookup-erase_ne,
}
use whooshd.Threadwake.Index.{remove_first, promote_lru}

-- How often a key stands in the order.
unfoldable pub occurs : String → List String → ℕ
occurs k [] = 0
occurs k (j ∷ lru) = one_if (same j k) + occurs k lru

-- The entries are a dictionary, and the order lists each of its keys once and nothing else.
abbrev pub IsTracked : {V : Type 0} → Dict V → List String → Type 0
IsTracked d lru = IsDict d × ((k : String) → occurs k lru ≡ one_if (has_key k d))

occurs-remove_first_ne :
    (k j : String) (lru : List String)
    → same k j ≡ false
    → occurs j (remove_first k lru) ≡ occurs j lru
unfolding occurs remove_first
occurs-remove_first_ne k j [] n = refl
occurs-remove_first_ne k j (i ∷ lru) n =
    ground (arith, occurs-remove_first_ne k j lru n, same→eq i k)

occurs-remove_first_self :
    (k : String) (lru : List String) → occurs k (remove_first k lru) ≡ occurs k lru - 1
unfolding occurs remove_first
occurs-remove_first_self k [] = omega arith
occurs-remove_first_self k (i ∷ lru) = ground (arith, occurs-remove_first_self k lru)

pub occurs-append_one :
    (k j : String) (lru : List String)
    → occurs j (lru ++ (k ∷ [])) ≡ occurs j lru + one_if (same k j)
unfolding occurs
occurs-append_one k j [] = omega arith
occurs-append_one k j (i ∷ lru) = omega (arith, occurs-append_one k j lru)

module _ {V : Type 0} (d : Dict V) (lru : List String) (k : String) where
  -- A new key goes to the end of the order.
  pub IsTracked-new :
      (v : V) → IsTracked d lru → lookup k d ≡ none → IsTracked (insert k v d) (lru ++ (k ∷ []))
  IsTracked-new v h e = (
    IsDict-insert k v d h.0,
    λ j. elim (same_cases k j) [
      | inl t ↦
          subst (λ i. occurs i (lru ++ (k ∷ [])) ≡ one_if (has_key i (insert k v d))) t
            (ground
              (arith, occurs-append_one k k lru, h.1 k, lookup-insert_self k v d, same_refl k))
      | inr f ↦ ground (arith, occurs-append_one k j lru, h.1 j, lookup-insert k j v d)
    ],
  )

  -- A known key gets a new value.
  pub IsTracked-update :
      (v w : V) → IsTracked d lru → lookup k d ≡ some w → IsTracked (insert k v d) lru
  IsTracked-update v w h e = (
    IsDict-insert k v d h.0,
    λ j. elim (same_cases k j) [
      | inl t ↦
          subst (λ i. occurs i lru ≡ one_if (has_key i (insert k v d))) t
            (ground (arith, h.1 k, lookup-insert_self k v d))
      | inr f ↦ ground (arith, h.1 j, lookup-insert k j v d)
    ],
  )

  -- A known key becomes the most recently used.
  pub IsTracked-promote :
      (v : V) → IsTracked d lru → lookup k d ≡ some v → IsTracked d (promote_lru k lru)
  unfolding promote_lru
  IsTracked-promote v h e = (
    h.0,
    λ j. elim (same_cases k j) [
      | inl t ↦
          subst (λ i. occurs i (promote_lru k lru) ≡ one_if (has_key i d)) t
            (ground (
              arith,
              occurs-append_one k k (remove_first k lru),
              occurs-remove_first_self k lru,
              h.1 k,
              same_refl k,
            ))
      | inr f ↦ ground (
        arith,
        occurs-append_one k j (remove_first k lru),
        occurs-remove_first_ne k j lru f,
        h.1 j,
      )
    ],
  )

  pub IsTracked-erase : IsTracked d lru → IsTracked (erase k d) (remove_first k lru)
  IsTracked-erase h = (
    IsDict-erase k d h.0,
    λ j. elim (same_cases k j) [
      | inl t ↦
          subst (λ i. occurs i (remove_first k lru) ≡ one_if (has_key i (erase k d))) t
            (ground (
              arith,
              occurs-remove_first_self k lru,
              h.1 k,
              lookup-erase_self k d h.0,
              Bool-cases (has_key k d),
            ))
      | inr f ↦ ground (arith, occurs-remove_first_ne k j lru f, h.1 j, lookup-erase_ne k j d f)
    ],
  )
