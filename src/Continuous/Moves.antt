-- ===== src/Continuous/Moves.antt =====
-- whooshd/continuous_scheduler.py: the moves that one request makes, as a state machine, and what a
-- phase of the scheduler does to all of them.
use whooshd.Base.{
  ℕ, suc, ◌+◌, ◌≤◌, ◌≡◌, refl, sym, ap, ◌∙◌, inl, inr, String, true, some, List, [], ◌∷◌, ◌++◌,
  if◌then◌else◌, length, All, Dict, lookup, insert, same, branches, subst, arith, true_ne_false,
  some_inj, none_ne_some, Bool-cases,
}
use whooshd.Continuous.{
  ContinuousRequestState, ContinuousOutputChunk, is_terminal, admitted, prefill_pending,
  prefill_running, decode_active, stream_draining, completed,
}
use whooshd.Continuous.Scheduler.{FakeContinuousRequest, FakeContinuousSchedulerConfig}

-- The life of a request that nobody ends: from admission through prefill, decoding and draining to
-- completion.
pub data Next : ContinuousRequestState → ContinuousRequestState → Type 0 where
  assigned : Next admitted prefill_pending
  started : Next prefill_pending prefill_running
  prefilled : Next prefill_running decode_active
  exhausted : Next decode_active stream_draining
  drained : Next stream_draining completed

pub data Reaches (s : ContinuousRequestState) : ContinuousRequestState → Type 0 where
  here : Reaches s s
  there : {t u : ContinuousRequestState} → Reaches s t → Next t u → Reaches s u

pub Reaches-trans : {s t u : ContinuousRequestState} → Reaches s t → Reaches t u → Reaches s u
Reaches-trans p here = p
Reaches-trans p (there q n) = there (Reaches-trans p q) n

Next-terminal : {s t : ContinuousRequestState} → is_terminal s ≡ true → Next s t → ⊥
Next-terminal h assigned = true_ne_false (sym h)
Next-terminal h started = true_ne_false (sym h)
Next-terminal h prefilled = true_ne_false (sym h)
Next-terminal h exhausted = true_ne_false (sym h)
Next-terminal h drained = true_ne_false (sym h)

-- A terminal state is final.
pub Reaches-terminal : {s t : ContinuousRequestState} → is_terminal s ≡ true → Reaches s t → t ≡ s
Reaches-terminal h here = refl
Reaches-terminal {s} h (there {t} p n) =
    absurd (Next-terminal (ap is_terminal (Reaches-terminal h p) ∙ h) n)

abbrev pub IsNumbered : ℕ → List ContinuousOutputChunk → Type 0
IsNumbered n [] = Unit
IsNumbered n (c ∷ cs) = (c.sequence_index ≡ n) × IsNumbered (suc n) cs

pub IsNumbered-snoc :
    (n : ℕ) (cs : List ContinuousOutputChunk) (c : ContinuousOutputChunk)
    → IsNumbered n cs
    → c.sequence_index ≡ n + length cs
    → IsNumbered n (cs ++ (c ∷ []))
IsNumbered-snoc n [] c h i = (omega arith, tt)
IsNumbered-snoc n (x ∷ cs) c h i = (h.0, IsNumbered-snoc (suc n) cs c h.1 (omega arith))

-- The chunks that wait for the caller are the request's latest, numbered without a gap up to its
-- count of decode steps, all its own, and the steps keep their limit.
abbrev pub IsOrderly : FakeContinuousSchedulerConfig → FakeContinuousRequest → Type 0
IsOrderly cfg r =
    (r.decode_steps_completed ≤ cfg.max_decode_steps_per_request)
    × ((first : ℕ) × IsNumbered first r.output_chunks
        × (first + length r.output_chunks ≡ r.decode_steps_completed))
    × All (λ c. c.request_id ≡ r.handle.request_id) r.output_chunks

-- What becomes of a request: its state moves along the machine, it stays orderly, it keeps its
-- handle, and a terminal one keeps its finish reason.
abbrev pub Goes :
    FakeContinuousSchedulerConfig → FakeContinuousRequest → FakeContinuousRequest → Type 0
Goes cfg r r' =
    Reaches r.state r'.state
    × (IsOrderly cfg r → IsOrderly cfg r')
    × (r'.handle ≡ r.handle)
    × (is_terminal r.state ≡ true → r'.finish_reason ≡ r.finish_reason)

pub Goes-refl : (cfg : FakeContinuousSchedulerConfig) (r : FakeContinuousRequest) → Goes cfg r r
Goes-refl cfg r = (here, λ h. h, refl, λ t. refl)

pub Goes-trans :
    (cfg : FakeContinuousSchedulerConfig) (a b c : FakeContinuousRequest)
    → Goes cfg a b
    → Goes cfg b c
    → Goes cfg a c
Goes-trans cfg a b c (r, o, h, f) (r', o', h', f') = (
  Reaches-trans r r',
  λ x. o' (o x),
  h' ∙ h,
  λ t. f' (ap is_terminal (Reaches-terminal t r) ∙ t) ∙ f t,
)

-- Two dictionaries with the same keys, whose values are related.
abbrev pub Alike : {V : Type 0} → (V → V → Type 0) → Dict V → Dict V → Type 0
Alike R [] [] = Unit
Alike R [] (y ∷ e) = ⊥
Alike R (x ∷ d) [] = ⊥
Alike R (x ∷ d) (y ∷ e) = (x.0 ≡ y.0) × R x.1 y.1 × Alike R d e

module _ {V : Type 0} (R : V → V → Type 0) (R_refl : (v : V) → R v v) where
  pub Alike-refl : (d : Dict V) → Alike R d d
  Alike-refl [] = tt
  Alike-refl (x ∷ d) = (refl, R_refl x.1, Alike-refl d)

  pub Alike-insert :
      (k : String) (v w : V) (d : Dict V) → lookup k d ≡ some v → R v w → Alike R d (insert k w d)
  unfolding lookup insert
  Alike-insert k v w [] e r = absurd (none_ne_some e)
  Alike-insert k v w ((j, u) ∷ d) e r =
      branches (λ z. (if same j k then some u else lookup k d) ≡ some v → Alike R ((j, u) ∷ d) z)
        (same j k) _ _
        (λ t e'.
          let h : u ≡ v = some_inj (sym (ap (λ b. if b then some u else lookup k d) t) ∙ e') in
          (refl, subst (λ x. R x w) (sym h) r, Alike-refl d))
        (λ f e'. (
          refl,
          R_refl u,
          Alike-insert k v w d (sym (ap (λ b. if b then some u else lookup k d) f) ∙ e') r,
        ))
        e

pub lookup-Alike :
    {V : Type 0} (R : V → V → Type 0) (k : String) (d e : Dict V) {v : V}
    → Alike R d e
    → lookup k d ≡ some v
    → (w : V) × (lookup k e ≡ some w) × R v w
unfolding lookup
lookup-Alike R k [] [] h at = absurd (none_ne_some at)
lookup-Alike R k [] (y ∷ e) h at = absurd h
lookup-Alike R k (x ∷ d) [] h at = absurd h
lookup-Alike R k ((j, u) ∷ d) ((i, w) ∷ e) {v} (keys, r, rest) at =
    let at_j : (if same j k then some u else lookup k d) ≡ some v = at in
    elim (Bool-cases (same j k)) [
      | inl t ↦
          let h : u ≡ v = some_inj (sym (ap (λ b. if b then some u else lookup k d) t) ∙ at_j) in
          (
            w,
            ap (λ b. if b then some w else lookup k e) (ap (λ x. same x k) (sym keys) ∙ t),
            subst (λ x. R x w) h r,
          )
      | inr f ↦
          let (z, found, related) =
            lookup-Alike R k d e {v = v} rest
              (sym (ap (λ b. if b then some u else lookup k d) f) ∙ at_j) in
          (
            z,
            ap (λ b. if b then some w else lookup k e) (ap (λ x. same x k) (sym keys) ∙ f) ∙ found,
            related,
          )
    ]

pub Alike-trans :
    {V : Type 0} (R : V → V → Type 0)
    → ((a b c : V) → R a b → R b c → R a c)
    → (x y z : Dict V) → Alike R x y
    → Alike R y z
    → Alike R x z
Alike-trans R t [] [] [] p q = tt
Alike-trans R t [] [] (c ∷ z) p q = absurd q
Alike-trans R t [] (b ∷ y) z p q = absurd p
Alike-trans R t (a ∷ x) [] z p q = absurd p
Alike-trans R t (a ∷ x) (b ∷ y) [] p q = absurd q
Alike-trans R t (a ∷ x) (b ∷ y) (c ∷ z) (k, r, s) (k', r', s') =
    (k ∙ k', t a.1 b.1 c.1 r r', Alike-trans R t x y z s s')
