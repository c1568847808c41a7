-- ===== src/Base/Entries.antt =====
-- What holds of the entries of a dictionary.
use Prim.Native.String.{String}
use mathlib.Core.Bool.{false}
use mathlib.Core.List.{[], ◌∷◌}
use mathlib.Core.Logic.{inl, inr}
use mathlib.Core.Option.{some}
use mathlib.Core.Path.{◌≡◌, sym, subst}
use native.Mathlib.Omega.{arith}
use whooshd.Base.Dicts.{Dict, lookup, insert, erase, IsDict}
use whooshd.Base.Lists.{All, In, In-All}
use whooshd.Base.Tests.{Bool-cases, some_inj}
use whooshd.Base.Text.{same, eq→same, same_refl, same_cases, same_sym}

module _ {V : Type 0} (P : String × V → Type 0) where
  pub All-insert : (k : String) (v : V) (d : Dict V) → P (k, v) → All P d → All P (insert k v d)
  unfolding insert
  All-insert k v [] p h = (p, tt)
  All-insert k v ((j, w) ∷ d) p h = elim (same_cases j k) [
    | inl e ↦ rw (eq→same j k e) (subst (λ x. P (x, v)) (sym e) p, h.1)
    | inr n ↦ rw n (h.0, All-insert k v d p h.1)
  ]

  pub All-erase : (k : String) (d : Dict V) → All P d → All P (erase k d)
  unfolding erase
  All-erase k [] h = tt
  All-erase k ((j, w) ∷ d) h = elim (Bool-cases (same j k)) [
    | inl t ↦ rw t (h.1)
    | inr f ↦ rw f (h.0, All-erase k d h.1)
  ]

  pub lookup-All : (k : String) (d : Dict V) {v : V} → lookup k d ≡ some v → All P d → P (k, v)
  unfolding lookup
  lookup-All k [] e h = absurd (cc)
  lookup-All k ((j, w) ∷ d) {v} e h = elim (same_cases j k) [
    | inl q ↦
        let e' : some w ≡ some v = rw (eq→same j k q, lookup) at e in
        subst (λ x. P (x, v)) q (subst (λ x. P (j, x)) (some_inj e') h.0)
    | inr n ↦ lookup-All k d (rw n at e) h.1
  ]

pub In-lookup :
    {V : Type 0} (k : String) (v : V) (d : Dict V) → IsDict d → In (k, v) d → lookup k d ≡ some v
unfolding lookup
In-lookup k v [] h m = absurd m
In-lookup k v ((j, w) ∷ d) h (inl e) = ground (arith, same_refl j)
In-lookup k v ((j, w) ∷ d) h (inr m) =
    let n = In-All (λ e. same e.0 j ≡ false) d m h.0 in
    ground (arith, In-lookup k v d h.1 m, same_sym j k)
