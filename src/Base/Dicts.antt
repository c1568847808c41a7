-- ===== src/Base/Dicts.antt =====
-- Python dictionaries with text keys, as association lists in insertion order.
use Prim.Native.Nat.{◌+◌}
use Prim.Native.String.{String}
use mathlib.Core.Bool.{Bool, false}
use mathlib.Core.List.{List, [], ◌∷◌}
use mathlib.Core.Logic.{inl, inr}
use mathlib.Core.Option.{Option, none, some}
use mathlib.Core.Path.{◌≡◌, refl, subst}
use native.Mathlib.Omega.{arith}
use whooshd.Base.Lists.{All, count, length}
use whooshd.Base.Tests.{if◌then◌else◌, is_some, one_if, not, Bool-cases}
use whooshd.Base.Text.{same, same_refl, same→eq, eq→same, same_cases, same_sym}

abbrev pub Dict {ℓ} : Type ℓ → Type ℓ
Dict V = List (String × V)

module _ {ℓ} {V : Type ℓ} where
  -- `d.get(k)`.
  unfoldable pub lookup : String → Dict V → Option V
  lookup k [] = none
  lookup k ((j, v) ∷ d) = if same j k then some v else lookup k d

  -- `d[k] = v`: an old key keeps its place, a new one goes to the end.
  unfoldable pub insert : String → V → Dict V → Dict V
  insert k v [] = (k, v) ∷ []
  insert k v ((j, w) ∷ d) = if same j k then (j, v) ∷ d else (j, w) ∷ insert k v d

  -- `d.pop(k, None)`, for the dictionary that is left.
  unfoldable pub erase : String → Dict V → Dict V
  erase k [] = []
  erase k ((j, w) ∷ d) = if same j k then d else (j, w) ∷ erase k d

  -- `k in d`.
  abbrev pub has_key : String → Dict V → Bool
  has_key k d = is_some (lookup k d)

  abbrev pub Fresh : String → Dict V → Type 0
  Fresh k d = All (λ e. same e.0 k ≡ false) d

  -- Keys stand once, as in every Python dictionary.
  abbrev pub IsDict : Dict V → Type 0
  IsDict [] = Unit
  IsDict ((j, w) ∷ d) = Fresh j d × IsDict d

module _ {ℓ} {V : Type ℓ} where
  pub lookup-insert :
      (k j : String) (v : V) (d : Dict V)
      → lookup j (insert k v d) ≡ (if same k j then some v else lookup j d)
  unfolding lookup insert
  lookup-insert k j v [] = refl
  lookup-insert k j v ((i, w) ∷ d) = elim (same_cases i k) [
    | inl e ↦ rw (e, same_refl k) (ground arith)
    | inr n ↦ rw n (ground (arith, lookup-insert k j v d, same→eq i j, same_sym i k))
  ]

  pub lookup-insert_self : (k : String) (v : V) (d : Dict V) → lookup k (insert k v d) ≡ some v
  lookup-insert_self k v d = rw (lookup-insert k k v d, same_refl k)

  Fresh-insert :
      (j k : String) (v : V) (d : Dict V) → same j k ≡ false → Fresh j d → Fresh j (insert k v d)
  unfolding insert
  Fresh-insert j k v [] n h = ground (arith, same_sym j k)
  Fresh-insert j k v ((i, w) ∷ d) n h =
      ground (arith, Fresh-insert j k v d, same→eq i k, same_sym j k)

  pub IsDict-insert : (k : String) (v : V) (d : Dict V) → IsDict d → IsDict (insert k v d)
  unfolding insert
  IsDict-insert k v [] h = (tt, tt)
  IsDict-insert k v ((i, w) ∷ d) h = elim (Bool-cases (same i k)) [
    | inl t ↦ rw t h
    | inr n ↦ rw n (Fresh-insert i k v d n h.0, IsDict-insert k v d h.1)
  ]

  Fresh-erase : (j k : String) (d : Dict V) → Fresh j d → Fresh j (erase k d)
  unfolding erase
  Fresh-erase j k [] h = tt
  Fresh-erase j k ((i, w) ∷ d) h = elim (Bool-cases (same i k)) [
    | inl t ↦ rw t h.1
    | inr n ↦ rw n (h.0, Fresh-erase j k d h.1)
  ]

  pub IsDict-erase : (k : String) (d : Dict V) → IsDict d → IsDict (erase k d)
  unfolding erase
  IsDict-erase k [] h = tt
  IsDict-erase k ((i, w) ∷ d) h = elim (Bool-cases (same i k)) [
    | inl t ↦ rw t h.1
    | inr n ↦ rw n (Fresh-erase i k d h.0, IsDict-erase k d h.1)
  ]

  pub lookup-Fresh : (k : String) (d : Dict V) → Fresh k d → lookup k d ≡ none
  unfolding lookup
  lookup-Fresh k [] h = refl
  lookup-Fresh k ((i, w) ∷ d) h = rw h.0 (lookup-Fresh k d h.1)

  pub lookup-erase_self : (k : String) (d : Dict V) → IsDict d → lookup k (erase k d) ≡ none
  unfolding lookup erase
  lookup-erase_self k [] h = refl
  lookup-erase_self k ((i, w) ∷ d) h = elim (same_cases i k) [
    | inl e ↦ rw (e, same_refl k) (lookup-Fresh k d (rw e at h.0))
    | inr n ↦ rw (n, lookup) (rw n (lookup-erase_self k d h.1))
  ]

  pub lookup-erase_ne :
      (k j : String) (d : Dict V) → same k j ≡ false → lookup j (erase k d) ≡ lookup j d
  unfolding lookup erase
  lookup-erase_ne k j [] h = refl
  lookup-erase_ne k j ((i, w) ∷ d) h = ground (arith, lookup-erase_ne k j d h, same→eq i k)

  pub erase_absent : (k : String) (d : Dict V) → lookup k d ≡ none → erase k d ≡ d
  unfolding lookup erase
  erase_absent k [] h = refl
  erase_absent k ((i, w) ∷ d) h = ground (arith, erase_absent k d)

-- How the number of entries with a property changes.
module _ {ℓ} {V : Type ℓ} (p : String × V → Bool) where
  pub count-insert_new :
      (k : String) (v : V) (d : Dict V)
      → lookup k d ≡ none
      → count p (insert k v d) ≡ count p d + one_if (p (k, v))
  unfolding count insert lookup
  count-insert_new k v [] h = omega arith
  count-insert_new k v ((i, w) ∷ d) h = ground (arith, count-insert_new k v d)

  pub count-insert_old :
      (k : String) (v : V) (d : Dict V) {w : V}
      → lookup k d ≡ some w
      → count p (insert k v d) + one_if (p (k, w)) ≡ count p d + one_if (p (k, v))
  unfolding count insert lookup
  count-insert_old k v [] h = cc
  count-insert_old k v ((i, u) ∷ d) {w} h = elim (same_cases i k) [
    | inl e ↦ ground (arith, eq→same i k)
    | inr n ↦ rw n (ground (arith, count-insert_old k v d {w = w}))
  ]

  pub count-erase :
      (k : String) (d : Dict V) {w : V}
      → lookup k d ≡ some w
      → count p (erase k d) + one_if (p (k, w)) ≡ count p d
  unfolding count erase lookup
  count-erase k [] h = cc
  count-erase k ((i, u) ∷ d) {w} h = elim (same_cases i k) [
    | inl e ↦ ground (arith, eq→same i k)
    | inr n ↦ rw n (ground (arith, count-erase k d {w = w}))
  ]

-- The number of entries.
module _ {ℓ} {V : Type ℓ} where
  pub length-insert :
      (k : String) (v : V) (d : Dict V)
      → length (insert k v d) ≡ length d + one_if (not (has_key k d))
  unfolding insert lookup
  length-insert k v [] = omega arith
  length-insert k v ((i, w) ∷ d) = ground (arith, length-insert k v d)

  pub length-erase :
      (k : String) (d : Dict V) → length (erase k d) + one_if (has_key k d) ≡ length d
  unfolding erase lookup
  length-erase k [] = omega arith
  length-erase k ((i, w) ∷ d) = ground (arith, length-erase k d)

-- Two tests that differ at one key only count differently by that key's entry.
pub count_other {ℓ} :
    {V : Type ℓ} (p q : String × V → Bool) (k : String) (d : Dict V)
    → Fresh k d
    → ((j : String) (v : V) → same j k ≡ false → p (j, v) ≡ q (j, v))
    → count p d ≡ count q d
unfolding count
count_other p q k [] f h = refl
count_other p q k ((i, v) ∷ d) f h = ground (arith, h i v, count_other p q k d f.1 h)

module _ {ℓ} {V : Type ℓ} (p q : String × V → Bool) (k : String)
    (agree : (j : String) (v : V) → same j k ≡ false → p (j, v) ≡ q (j, v)) where
  pub count_at :
      (d : Dict V) {w : V}
      → IsDict d
      → lookup k d ≡ some w
      → count p d + one_if (q (k, w)) ≡ count q d + one_if (p (k, w))
  unfolding count lookup
  count_at [] h e = cc
  count_at ((i, v) ∷ d) {w} h e = elim (same_cases i k) [
    | inl here ↦
        let fresh : Fresh k d = subst (λ x. Fresh x d) here h.0 in
        ground (arith, eq→same i k here, count_other p q k d fresh agree)
    | inr n ↦ ground (arith, agree i v n, count_at d {w = w} h.1)
  ]

pub Fresh-of_none {ℓ} : {V : Type ℓ} (k : String) (d : Dict V) → lookup k d ≡ none → Fresh k d
unfolding lookup
Fresh-of_none k [] h = tt
Fresh-of_none k ((i, v) ∷ d) h = elim (Bool-cases (same i k)) [
  | inl t ↦ ground arith
  | inr n ↦ (n, Fresh-of_none k d (ground arith))
]

pub count_absent {ℓ} :
    {V : Type ℓ} (p q : String × V → Bool) (k : String)
    → ((j : String) (v : V) → same j k ≡ false → p (j, v) ≡ q (j, v))
    → (d : Dict V) → lookup k d ≡ none
    → count p d ≡ count q d
count_absent p q k agree d e = count_other p q k d (Fresh-of_none k d e) agree
