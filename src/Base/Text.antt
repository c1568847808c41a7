-- ===== src/Base/Text.antt =====
-- Identifiers: texts that the program only compares.
use Prim.Native.String.{String}
use mathlib.Core.Bool.{Bool, true, false}
use mathlib.Core.Logic.{◌⊎◌, inl, inr}
use mathlib.Core.Path.{◌≡◌}
use text.Mathlib.Text.{◌==◌}
use text.Mathlib.TextEquality.{eq_iff}
use text.Mathlib.TextPositions.{eq_refl}
use whooshd.Base.Tests.{Bool-cases}

-- Equality of identifiers. It stays shut in proofs, which use the three laws below.
unfoldable pub same : String → String → Bool
same a b = a == b

pub same_refl : (a : String) → same a a ≡ true
unfolding same
same_refl a = eq_refl a

pub same→eq : (a b : String) → same a b ≡ true → a ≡ b
unfolding same
same→eq a b h = (eq_iff a b).0 h

pub eq→same : (a b : String) → a ≡ b → same a b ≡ true
unfolding same
eq→same a b e = (eq_iff a b).1 e

-- Either the texts are one, or the test says that they differ.
pub same_cases : (a b : String) → (a ≡ b) ⊎ (same a b ≡ false)
same_cases a b = elim (Bool-cases (same a b)) [ inl t ↦ inl (same→eq a b t) | inr f ↦ inr f ]

pub same_sym : (a b : String) → same a b ≡ same b a
same_sym a b = elim (same_cases a b) [
  | inl e ↦ rw e
  | inr f ↦ elim (same_cases b a) [ inl e ↦ rw e | inr g ↦ rw (f, g) ]
]

-- `if text:` is false for the empty text only.
abbrev pub truthy : String → Bool
truthy String.[] = false
truthy (String.◌∷◌ c s) = true
