-- ===== src/Capacity/Identity/Matching.antt =====
-- capacity_controller.py: the relation that `model_identity_matches` decides.
use whooshd.Base.{
  inr, sym, ap, inl, ◌↔◌, String, ◌⊎◌, refl, ◌≡◌, true, false, [], ◌∷◌, none, some, arith,
}
use whooshd.Capacity.Identity.{
  canonical_model_identity, identities_match, model_identity_matches, Chars, Identity, chars_eq,
  is_empty,
}

chars_eq→eq : (a b : Chars) → chars_eq a b ≡ true → a ≡ b
unfolding chars_eq
chars_eq→eq [] [] h = refl
chars_eq→eq [] (d ∷ ds) h = cc
chars_eq→eq (c ∷ cs) [] h = cc
chars_eq→eq (c ∷ cs) (d ∷ ds) h = ground (arith, chars_eq→eq cs ds)

chars_eq_refl : (a : Chars) → chars_eq a a ≡ true
unfolding chars_eq
chars_eq_refl [] = refl
chars_eq_refl (c ∷ cs) = ground (arith, chars_eq_refl cs)

-- Two identities that can be shown to be one: the same repository, or bare names that agree.
abbrev pub SameModel : Identity → Identity → Type 0
SameModel i j =
    (is_empty i.1 ≡ false)
    × (is_empty j.1 ≡ false)
    × (((r : Chars) × (i.0 ≡ some r) × (j.0 ≡ some r))
        ⊎ ((i.0 ≡ none) × (j.0 ≡ none) × (i.1 ≡ j.1)))

match→SameModel : (i j : Identity) → identities_match i j ≡ true → SameModel i j
unfolding identities_match
match→SameModel (some a, m) (some b, n) h =
    (ground arith, ground arith, inl (a, refl, ap some (sym (chars_eq→eq a b (ground arith)))))
match→SameModel (some a, m) (none, n) h = ground arith
match→SameModel (none, m) (some b, n) h = ground arith
match→SameModel (none, m) (none, n) h =
    (ground arith, ground arith, inr (refl, refl, chars_eq→eq m n (ground arith)))

SameModel→match : (i j : Identity) → SameModel i j → identities_match i j ≡ true
unfolding identities_match
SameModel→match (some a, m) (some b, n) h = ground (arith, chars_eq_refl a)
SameModel→match (some a, m) (none, n) h = ground arith
SameModel→match (none, m) (some b, n) h = ground arith
SameModel→match (none, m) (none, n) h = ground (arith, chars_eq_refl m)

-- A match is asserted exactly when both names are there and either both identities carry the same
-- repository or neither carries one and the names agree: one repository identity alone never
-- matches.
pub model_identity_matches_iff :
    (a b : String)
    → (model_identity_matches a b ≡ true)
      ↔ SameModel (canonical_model_identity a) (canonical_model_identity b)
unfolding model_identity_matches
model_identity_matches_iff a b = (
  match→SameModel (canonical_model_identity a) (canonical_model_identity b),
  SameModel→match (canonical_model_identity a) (canonical_model_identity b),
)

-- The relation is symmetric and transitive.
pub model_identity_matches_trans :
    (a b c : String)
    → model_identity_matches a b ≡ true
    → model_identity_matches b c ≡ true
    → (model_identity_matches b a ≡ true) × (model_identity_matches a c ≡ true)
model_identity_matches_trans a b c h k =
    let p = (model_identity_matches_iff a b).0 h in
    let q = (model_identity_matches_iff b c).0 k in
    (
      (model_identity_matches_iff b a).1 (ground arith),
      (model_identity_matches_iff a c).1 (ground arith),
    )
