-- ===== src/Base/Lists.antt =====
-- Lists measured by native numbers, and predicates and counts over them.
use Prim.Native.Nat.{ℕ, suc, ◌+◌, ◌≤◌}
use mathlib.Core.Bool.{Bool, true}
use mathlib.Core.List.{List, [], ◌∷◌, ◌++◌}
use mathlib.Core.Logic.{◌⊎◌, inl, inr}
use mathlib.Core.Path.{◌≡◌, refl, ap, subst, sym}
use native.Mathlib.Omega.{arith}
use whooshd.Base.Tests.{if◌then◌else◌, one_if, Bool-cases}

module _ {ℓ} {A : Type ℓ} where
  abbrev pub length : List A → ℕ
  length [] = 0
  length (x ∷ xs) = suc (length xs)

  pub length-append : (xs ys : List A) → length (xs ++ ys) ≡ length xs + length ys
  length-append [] ys = omega arith
  length-append (x ∷ xs) ys = omega (arith, length-append xs ys)

  pub append_assoc : (xs ys zs : List A) → (xs ++ ys) ++ zs ≡ xs ++ (ys ++ zs)
  append_assoc [] ys zs = refl
  append_assoc (x ∷ xs) ys zs = ap (λ r. x ∷ r) (append_assoc xs ys zs)

  pub append_nil : (xs : List A) → xs ++ [] ≡ xs
  append_nil [] = refl
  append_nil (x ∷ xs) = ap (λ r. x ∷ r) (append_nil xs)

  -- A comprehension with a Boolean test.
  unfoldable pub keep : (A → Bool) → List A → List A
  keep p [] = []
  keep p (x ∷ xs) = if p x then x ∷ keep p xs else keep p xs

  -- `sum(1 for x in xs if p(x))`.
  unfoldable pub count : (A → Bool) → List A → ℕ
  count p [] = 0
  count p (x ∷ xs) = one_if (p x) + count p xs

  pub length-keep-le : (p : A → Bool) (xs : List A) → length (keep p xs) ≤ length xs
  unfolding keep
  length-keep-le p [] = omega arith
  length-keep-le p (x ∷ xs) = ground (arith, length-keep-le p xs)

  pub count-le-length : (p : A → Bool) (xs : List A) → count p xs ≤ length xs
  unfolding count
  count-le-length p [] = omega arith
  count-le-length p (x ∷ xs) = ground (arith, count-le-length p xs)

  pub count-append : (p : A → Bool) (xs ys : List A) → count p (xs ++ ys) ≡ count p xs + count p ys
  unfolding count
  count-append p [] ys = omega arith
  count-append p (x ∷ xs) ys = ground (arith, count-append p xs ys)

  abbrev pub All {κ} : (A → Type κ) → List A → Type κ
  All P [] = Unit
  All P (x ∷ xs) = P x × All P xs

-- Membership as a sum, which the tactics take apart.
abbrev pub In : {A : Type 0} → A → List A → Type 0
In a [] = ⊥
In a (x ∷ xs) = (a ≡ x) ⊎ In a xs

pub In-keep :
    {A : Type 0} (p : A → Bool) {a : A} (xs : List A) → In a (keep p xs) → In a xs × (p a ≡ true)
unfolding keep
In-keep p [] h = absurd h
In-keep p {a} (x ∷ xs) h = elim (Bool-cases (p x)) [
  | inl t ↦
      let h' : (a ≡ x) ⊎ In a (keep p xs) = rw (t, keep) at h in
      elim h' [ inl e ↦ (inl e, rw e t) | inr m ↦ (inr (In-keep p xs m).0, (In-keep p xs m).1) ]
  | inr f ↦ let r = In-keep p xs (rw (f, keep) at h) in (inr r.0, r.1)
]

pub In-All : {A : Type 0} (P : A → Type 0) {a : A} (xs : List A) → In a xs → All P xs → P a
In-All P [] m h = absurd m
In-All P (x ∷ xs) (inl e) h = subst P (sym e) h.0
In-All P (x ∷ xs) (inr m) h = In-All P xs m h.1

pub keep-In :
    {A : Type 0} (p : A → Bool) {a : A} (xs : List A) → In a xs → p a ≡ true → In a (keep p xs)
unfolding keep
keep-In p [] m h = absurd m
keep-In p (x ∷ xs) (inl e) h = let t : p x ≡ true = rw e at h in rw t (inl e)
keep-In p (x ∷ xs) (inr m) h = elim (Bool-cases (p x)) [
  | inl t ↦ rw t (inr (keep-In p xs m h))
  | inr f ↦ rw f (keep-In p xs m h)
]

pub All-keep :
    {A : Type 0} (P : A → Type 0) (p : A → Bool) (xs : List A) → All P xs → All P (keep p xs)
unfolding keep
All-keep P p [] h = tt
All-keep P p (x ∷ xs) h = elim (Bool-cases (p x)) [
  | inl t ↦ rw t (h.0, All-keep P p xs h.1)
  | inr f ↦ rw f (All-keep P p xs h.1)
]

pub In-append_one : {A : Type 0} {a b : A} (xs : List A) → In a (xs ++ (b ∷ [])) → In a xs ⊎ (a ≡ b)
In-append_one [] (inl e) = inr e
In-append_one [] (inr m) = absurd m
In-append_one (x ∷ xs) (inl e) = inl (inl e)
In-append_one (x ∷ xs) (inr m) = elim (In-append_one xs m) [
  | inl there ↦ inl (inr there)
  | inr last ↦ inr last
]

pub All-tabulate :
    {A : Type 0} (P : A → Type 0) (xs : List A) → ((a : A) → In a xs → P a) → All P xs
All-tabulate P [] h = tt
All-tabulate P (x ∷ xs) h = (h x (inl refl), All-tabulate P xs (λ a m. h a (inr m)))

pub All-snoc :
    {A : Type 0} (P : A → Type 0) (xs : List A) (x : A) → All P xs → P x → All P (xs ++ (x ∷ []))
All-snoc P [] x h p = (p, tt)
All-snoc P (y ∷ xs) x h p = (h.0, All-snoc P xs x h.1 p)
