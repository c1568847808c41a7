-- ===== src/Threadwake/KvLifecycle/Window.antt =====
-- whooshd/runtime/threadwake/kv_lifecycle.py: the ring buffer holds the latest events.
use Prim.Native.Nat.{◌%◌}
use native.Mathlib.Nat.{suc-mod, mod-eq_of_lt, mod_self, mod-lt}
use whooshd.Base.{
  append_assoc, append_nil, Bool-cases, ltb→le, ltb→lt, ℕ, suc, ◌+◌, ◌≤◌, ◌<◌, ◌≡◌, refl, sym, ap,
  ◌∙◌, inl, inr, List, [], ◌∷◌, ◌++◌, ltb, if◌then◌else◌, length, length-append, branches, subst,
  arith,
}
use whooshd.Threadwake.KvLifecycle.{set_at}

module _ {A : Type 0} where
  -- The last `n` elements.
  unfoldable pub take_last : ℕ → List A → List A
  take_last n [] = []
  take_last n (x ∷ xs) = if ltb n (length (x ∷ xs)) then take_last n xs else x ∷ xs

  abbrev tail : List A → List A
  tail [] = []
  tail (x ∷ xs) = xs

  length-take_last : (n : ℕ) (xs : List A) → n ≤ length xs → length (take_last n xs) ≡ n
  unfolding take_last
  length-take_last n [] h = omega arith
  length-take_last n (x ∷ xs) h = ground (arith, length-take_last n xs)

  take_last_short : (n : ℕ) (xs : List A) → length xs ≤ n → take_last n xs ≡ xs
  unfolding take_last
  take_last_short n [] h = refl
  take_last_short n (x ∷ xs) h = ground arith

  take_last-snoc :
      (n : ℕ) (xs : List A) (y : A)
      → 0 < n
      → n ≤ length xs
      → take_last n (xs ++ (y ∷ [])) ≡ tail (take_last n xs) ++ (y ∷ [])
  unfolding take_last
  take_last-snoc n [] y p h = absurd (omega arith)
  take_last-snoc n (x ∷ xs) y p h =
      branches (λ r. take_last n ((x ∷ xs) ++ (y ∷ [])) ≡ tail r ++ (y ∷ []))
        (ltb n (suc (length xs))) _ _
        (λ t. ground (arith, length-append xs (y ∷ []), take_last-snoc n xs y p))
        (λ f. ground (arith, length-append xs (y ∷ []), take_last_short n (xs ++ (y ∷ []))))

  -- The elements from the place where the next write goes, round to the one before it.
  abbrev pub IsRotated : ℕ → List A → List A → Type 0
  IsRotated i xs w = (a : List A) × (b : List A) × (xs ≡ a ++ b) × (length a ≡ i) × (w ≡ b ++ a)

  length-IsRotated : (i : ℕ) (xs w : List A) → IsRotated i xs w → length w ≡ length xs
  length-IsRotated i xs w (a, b, e, l, f) =
      rw (e, f) (omega (arith, length-append a b, length-append b a))

  set_at-append : (a b : List A) (x y : A) → set_at (length a) y (a ++ (x ∷ b)) ≡ a ++ (y ∷ b)
  unfolding set_at
  set_at-append [] b x y = refl
  set_at-append (z ∷ a) b x y = ap (λ r. z ∷ r) (set_at-append a b x y)

next_index : (m n : ℕ) → 0 < m → suc n % m ≡ (if ltb (suc (n % m)) m then suc (n % m) else 0)
next_index m n p =
    suc-mod n m
    ∙ branches (λ r. suc (n % m) % m ≡ r) (ltb (suc (n % m)) m) _ _
        (λ t. mod-eq_of_lt (ltb→lt _ _ t))
        (λ f.
          let e : suc (n % m) ≡ m = omega (arith, mod-lt n p, ltb→le (suc (n % m)) m f) in
          rw e (mod_self m))

module _ {A : Type 0} (m : ℕ) (y : A) (p : 0 < m) where
  abbrev Written : List A → List A → Type 0
  Written xs h = IsRotated (suc (length h) % m) xs (take_last m (h ++ (y ∷ [])))

  not_full : (xs h : List A) → length h < m → IsRotated (length h % m) xs (take_last m h) → xs ≡ h
  not_full xs h q (a, b, e, l, f) =
      let w : h ≡ b ++ a = sym (take_last_short m h (omega arith)) ∙ f in
      let la : length a ≡ length h = l ∙ mod-eq_of_lt q in
      let lh : length h ≡ length b + length a = ap length w ∙ length-append b a in
      let b_nil : b ≡ [] = empty b (omega arith) in
      e ∙ ap (λ r. a ++ r) b_nil ∙ append_nil a ∙ sym (w ∙ ap (λ r. r ++ a) b_nil)
    where
      empty : (c : List A) → length c ≡ 0 → c ≡ []
      empty [] z = refl
      empty (x ∷ c) z = absurd (omega arith)

  write_free : (h : List A) → length h < m → Written (h ++ (y ∷ [])) h
  write_free h q =
      let k : length h % m ≡ length h = mod-eq_of_lt q in
      let l : length (h ++ (y ∷ [])) ≡ length h + 1 = length-append h (y ∷ []) in
      let s : take_last m (h ++ (y ∷ [])) ≡ h ++ (y ∷ []) = take_last_short m _ (omega arith) in
      subst (λ i. IsRotated i (h ++ (y ∷ [])) (take_last m (h ++ (y ∷ []))))
        (sym (next_index m (length h) p))
        (branches (λ i. IsRotated i (h ++ (y ∷ [])) (take_last m (h ++ (y ∷ []))))
          (ltb (suc (length h % m)) m) _ _
          (λ t. (h ++ (y ∷ []), [], sym (append_nil _), omega arith, s))
          (λ f. ([], h ++ (y ∷ []), refl, refl, s ∙ sym (append_nil _))))

  write_full :
      (xs h : List A)
      → m ≤ length h
      → IsRotated (length h % m) xs (take_last m h)
      → Written (set_at (length h % m) y xs) h
  write_full xs h q (a, [], e, l, f) =
      absurd (omega (arith, length-take_last m h q, ap length f, mod-lt (length h) p))
  write_full xs h q (a, x ∷ b, e, l, f) =
      let w : take_last m (h ++ (y ∷ [])) ≡ b ++ (a ++ (y ∷ [])) =
        take_last-snoc m h y p q ∙ ap (λ r. tail r ++ (y ∷ [])) f ∙ append_assoc b a (y ∷ []) in
      let s : set_at (length h % m) y xs ≡ a ++ (y ∷ b) =
        subst (λ i. set_at i y xs ≡ a ++ (y ∷ b)) l
          (ap (set_at (length a) y) e ∙ set_at-append a b x y) in
      let n : suc (length b + length a) ≡ m =
        omega (arith, length-take_last m h q, ap length f, length-append b a) in
      let la = length-append a (y ∷ []) in
      subst (λ i. IsRotated i (set_at (length h % m) y xs) (take_last m (h ++ (y ∷ []))))
        (sym (next_index m (length h) p))
        (branches (λ i. IsRotated i (set_at (length h % m) y xs) (take_last m (h ++ (y ∷ []))))
          (ltb (suc (length h % m)) m) _ _
          (λ t. (a ++ (y ∷ []), b, s ∙ sym (append_assoc a (y ∷ []) b), omega (arith, la), w))
          (λ u.
            let b_nil : b ≡ [] = empty b (ground (arith, l, n)) in
            (
              [],
              a ++ (y ∷ []),
              s ∙ ap (λ r. a ++ (y ∷ r)) b_nil,
              refl,
              w ∙ ap (λ r. r ++ (a ++ (y ∷ []))) b_nil ∙ sym (append_nil _),
            )))
    where
      empty : (c : List A) → length c ≡ 0 → c ≡ []
      empty [] z = refl
      empty (z ∷ c) e = absurd (omega arith)

  -- One write: into the next free place, or over the oldest element.
  pub ring_write :
      (xs h : List A)
      → IsRotated (length h % m) xs (take_last m h)
      → Written (if ltb (length xs) m then xs ++ (y ∷ []) else set_at (length h % m) y xs) h
  ring_write xs h r =
      branches (λ z. Written z h) (ltb (length xs) m) _ _
        (λ t.
          let q : length h < m = elim (Bool-cases (ltb (length h) m)) [
            | inl u ↦ ltb→lt _ _ u
            | inr u ↦ absurd (
                omega (
                  arith,
                  length-IsRotated _ xs (take_last m h) r,
                  length-take_last m h (ltb→le _ _ u),
                  ltb→lt _ _ t,
                ))
          ] in
          let e : h ≡ xs = sym (not_full xs h q r) in
          subst (λ z. Written (z ++ (y ∷ [])) h) e (write_free h q))
        (λ f.
          let q : m ≤ length h = elim (Bool-cases (ltb (length h) m)) [
            | inl u ↦ absurd (
                omega
                  (arith, ap length (not_full xs h (ltb→lt _ _ u) r), ltb→lt _ _ u, ltb→le _ _ f))
            | inr u ↦ ltb→le _ _ u
          ] in
          write_full xs h q r)
