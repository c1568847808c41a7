-- ===== src/Batching/Groups.antt =====
-- batching.py: the groups of an analysis share out the candidates and keep the limits.
use whooshd.Base.{
  ℕ, zero, suc, ◌+◌, ◌≤◌, ◌≡◌, refl, max, Bool, true, ◌&&◌, List, [], ◌∷◌, ltb, leb, arith, length,
  count, All, branches,
}
use whooshd.Batching.{
  BatchCandidate, BatchGroup, compatible, companions, tokens, group_of, group_all, analyze,
}

-- How many members of the groups pass a test.
unfoldable pub count_members : (BatchCandidate → Bool) → List BatchGroup → ℕ
count_members p [] = 0
count_members p (g ∷ gs) = count p g.members + count_members p gs

module _ (most : ℕ) (anchor : BatchCandidate) where
  abbrev Split : ℕ → List BatchCandidate → List BatchCandidate × List BatchCandidate → Type 0
  Split size cs s =
      ((p : BatchCandidate → Bool) → count p s.0 + count p s.1 ≡ count p cs)
      × (length s.1 ≤ length cs)
      × (length s.0 + size ≤ max most size)
      × All (λ c. compatible anchor c ≡ true) s.0

  companions-Split :
      (size : ℕ) (cs : List BatchCandidate) → Split size cs (companions most anchor size cs)
  unfolding companions count
  companions-Split size [] = (λ p. omega arith, omega arith, omega arith, tt)
  companions-Split size (c ∷ cs) =
      let (m1, m2, m3, m4) = companions-Split (size + 1) cs in
      let (o1, o2, o3, o4) = companions-Split size cs in
      branches (Split size (c ∷ cs)) (leb most size) _ _
        (λ full. (λ p. omega arith, omega arith, omega arith, tt))
        (λ room.
          branches (Split size (c ∷ cs)) (compatible anchor c) _ _
            (λ yes_c.
              (λ p. omega (arith, m1 p), omega (arith, m2), ground (arith, m3), (yes_c, m4)))
            (λ no_c. (λ p. omega (arith, o1 p), omega (arith, o2), omega (arith, o3), o4)))

-- A group keeps the limit on its size, its members are compatible with the one it began with, and
-- it is eligible exactly when it has several members within the token budget.
abbrev pub IsGroup : ℕ → ℕ → BatchGroup → Type 0
IsGroup most budget g =
    (anchor : BatchCandidate) × (others : List BatchCandidate) × (g.members ≡ anchor ∷ others)
    × (length g.members ≤ max most 1)
    × All (λ c. compatible anchor c ≡ true) others
    × (g.eligible ≡ (ltb 1 (length g.members) && leb (tokens g.members) budget))

module _ (most budget : ℕ) where
  group_all_lem :
      (n : ℕ) (cs : List BatchCandidate)
      → length cs ≤ n
      → ((p : BatchCandidate → Bool) → count_members p (group_all most budget n cs) ≡ count p cs)
        × All (λ g. IsGroup most budget g) (group_all most budget n cs)
  unfolding group_all count_members count group_of
  group_all_lem zero [] le = (λ p. refl, tt)
  group_all_lem zero (c ∷ cs) le = absurd (omega arith)
  group_all_lem (suc n) [] le = (λ p. refl, tt)
  group_all_lem (suc n) (c ∷ cs) le =
      let s = companions most c 1 cs in
      let (s1, s2, s3, s4) = companions-Split most c 1 cs in
      let (r1, r2) = group_all_lem n s.1 (omega (arith, s2)) in
      (λ p. omega (arith, s1 p, r1 p), ((c, s.0, refl, omega (arith, s3), s4, refl), r2))

  -- When it is enabled, the analysis shares the candidates out: each stands in the groups exactly as
  -- often as it is a candidate, whichever test one counts by. Each group keeps the limit on its
  -- size, its members are compatible with the first of them, and it is eligible exactly when it has
  -- several members within the token budget.
  pub analyze_shares :
      (cs : List BatchCandidate)
      → ((p : BatchCandidate → Bool)
          → count_members p (analyze most budget cs true).groups ≡ count p cs)
        × All (λ g. IsGroup most budget g) (analyze most budget cs true).groups
  unfolding analyze count_members count
  analyze_shares [] = (λ p. refl, tt)
  analyze_shares (c ∷ cs) = group_all_lem (length (c ∷ cs)) (c ∷ cs) (omega arith)
