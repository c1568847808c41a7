-- ===== src/Threadwake/Reads.antt =====
-- whooshd/runtime/threadwake/index.py: who can read which entry, and what a read returns after an
-- observation.
use whooshd.Base.{
  true_ne_false, none_ne_some, some_inj, ◌+◌, ℕ, ◌≡◌, ◌⊎◌, refl, sym, inl, inr, String, Bool, true,
  false, Option, none, some, arith, not, branches, if◌then◌else◌, same, same→eq, same_refl, truthy,
  Option-cases, Bool-cases, subst, ◌∙◌, lookup, lookup-insert_self,
}
use whooshd.Threadwake.Index.{
  ThreadWakeIndexEntry, ThreadWakeIndex, Limits, ScopeContext, touch, scope_matches, ids_match,
  hashed_if_truthy, promote_lru,
}
use whooshd.Threadwake.Operations.{get, read_entry, is_evicted, is_stale}

-- The scope names this identity in the context. The empty text names nobody.
abbrev pub Names : String → ScopeContext → String → Type 0
Names scope ctx id =
    (((scope ≡ "thread") × (ctx.thread_id ≡ some id))
      ⊎ ((scope ≡ "project") × (ctx.project_id ≡ some id))
      ⊎ ((scope ≡ "user") × (ctx.user_id ≡ some id)))
    × (truthy id ≡ true)

module _ (sha256_hex : String → String) where
  -- What the index promises on scopes: an entry of a request is open, a global one where that is
  -- allowed, and any other is read by those whose identity has the digest that it is stored with.
  abbrev pub MayRead : Limits → ThreadWakeIndexEntry → ScopeContext → Type 0
  MayRead lim e ctx =
      (e.scope ≡ "request")
      ⊎ ((e.scope ≡ "global") × (lim.allow_global ≡ true))
      ⊎ ((id : String) × Names e.scope ctx id × (e.scope_id ≡ some (sha256_hex id)))

  ids_match→id :
      (raw entry_id : Option String)
      → ids_match (hashed_if_truthy sha256_hex raw) entry_id ≡ true
      → (id : String) × (raw ≡ some id) × (truthy id ≡ true) × (entry_id ≡ some (sha256_hex id))
  unfolding ids_match
  ids_match→id none entry_id h = absurd (ground arith)
  ids_match→id (some raw) none h = absurd (no_id (truthy raw) h)
    where
      no_id : (b : Bool) → ids_match (if b then some (sha256_hex raw) else none) none ≡ true → ⊥
      no_id true h = ground arith
      no_id false h = ground arith
  ids_match→id (some raw) (some x) h = elim (Bool-cases (truthy raw)) [
    | inl t ↦
        let r : ids_match (if true then some (sha256_hex raw) else none) (some x) ≡ true =
          subst (λ b. ids_match (if b then some (sha256_hex raw) else none) (some x) ≡ true) t h in
        (raw, refl, t, rw (same→eq (sha256_hex raw) x r) refl)
    | inr f ↦
        let r : ids_match (if false then some (sha256_hex raw) else none) (some x) ≡ true =
          subst (λ b. ids_match (if b then some (sha256_hex raw) else none) (some x) ≡ true) f h in
        absurd (ground arith)
  ]

  id→ids_match :
      (id : String)
      → truthy id ≡ true
      → ids_match (hashed_if_truthy sha256_hex (some id)) (some (sha256_hex id)) ≡ true
  unfolding ids_match
  id→ids_match id t = rw t (same_refl (sha256_hex id))

  module _ (lim : Limits) (e : ThreadWakeIndexEntry) (ctx : ScopeContext) where
    scope_matches→MayRead : scope_matches sha256_hex lim e ctx ≡ true → MayRead lim e ctx
    unfolding scope_matches
    scope_matches→MayRead =
        branches (λ b. b ≡ true → MayRead lim e ctx) (same e.scope "request") _ _
          (λ t m. inl (same→eq _ _ t))
          (λ f1.
            branches (λ b. b ≡ true → MayRead lim e ctx) (same e.scope "global") _ _
              (λ t m. inr (inl (same→eq _ _ t, m)))
              (λ f2.
                branches (λ b. b ≡ true → MayRead lim e ctx) (same e.scope "thread") _ _
                  (λ t m.
                    let (id, a, b, c) = ids_match→id ctx.thread_id e.scope_id m in
                    inr (inr (id, (inl (same→eq _ _ t, a), b), c)))
                  (λ f3.
                    branches (λ b. b ≡ true → MayRead lim e ctx) (same e.scope "project") _ _
                      (λ t m.
                        let (id, a, b, c) = ids_match→id ctx.project_id e.scope_id m in
                        inr (inr (id, (inr (inl (same→eq _ _ t, a)), b), c)))
                      (λ f4.
                        branches (λ b. b ≡ true → MayRead lim e ctx) (same e.scope "user") _ _
                          (λ t m.
                            let (id, a, b, c) = ids_match→id ctx.user_id e.scope_id m in
                            inr (inr (id, (inr (inr (same→eq _ _ t, a)), b), c)))
                          (λ f5 m. absurd (ground arith))))))

    MayRead→scope_matches : MayRead lim e ctx → scope_matches sha256_hex lim e ctx ≡ true
    unfolding scope_matches same
    MayRead→scope_matches (inl s) = rw (s, scope_matches) refl
    MayRead→scope_matches (inr (inl (s, a))) = rw (s, scope_matches) a
    MayRead→scope_matches (inr (inr (id, (inl (s, a), b), c))) =
        rw (s, scope_matches) (rw (a, c) (id→ids_match id b))
    MayRead→scope_matches (inr (inr (id, (inr (inl (s, a)), b), c))) =
        rw (s, scope_matches) (rw (a, c) (id→ids_match id b))
    MayRead→scope_matches (inr (inr (id, (inr (inr (s, a)), b), c))) =
        rw (s, scope_matches) (rw (a, c) (id→ids_match id b))

module _ (sha256_hex : String → String) (lim : Limits) where
  abbrev pub IsReadable : ThreadWakeIndex → String → ScopeContext → ThreadWakeIndexEntry → Type 0
  IsReadable ix k ctx e =
      (lookup k ix.entries ≡ some e)
      × (is_evicted e.status ≡ false)
      × (is_stale e.status ≡ false)
      × MayRead sha256_hex lim e ctx

  abbrev pub Reads :
      ℕ
      → String
      → ScopeContext
      → ThreadWakeIndex
      → ThreadWakeIndex × Option ThreadWakeIndexEntry
      → Type 0
  Reads now k ctx ix r =
      ((e : ThreadWakeIndexEntry) × IsReadable ix k ctx e
        × (r.1 ≡ some (touch now e))
        × (r.0.hit_count ≡ ix.hit_count + 1)
        × (lookup k r.0.entries ≡ some (touch now e))
        × (r.0.lru ≡ promote_lru k ix.lru))
      ⊎ (((e : ThreadWakeIndexEntry) → IsReadable ix k ctx e → ⊥)
          × (r.1 ≡ none)
          × (r.0.miss_count ≡ ix.miss_count + 1)
          × (r.0.entries ≡ ix.entries)
          × (r.0.lru ≡ ix.lru))

  -- A read by key and context either returns the entry stored under the key, counts a hit and makes
  -- the key the most recently used, and then the entry is neither evicted nor stale and the context
  -- may read it; or it returns nothing and counts a miss, and then no entry is so.
  pub get-Reads :
      (now : ℕ) (k : String) (ctx : ScopeContext) (ix : ThreadWakeIndex)
      → Reads now k ctx ix (get sha256_hex lim now k ctx ix)
  unfolding get read_entry
  get-Reads now k ctx ix = elim (Option-cases (lookup k ix.entries)) [
    | inl absent ↦
        let same_result : get sha256_hex lim now k ctx ix
            ≡ (record ix { miss_count = ix.miss_count + 1 }, none) =
          rw (absent, get) refl in
        subst (Reads now k ctx ix) (sym same_result)
          (inr (λ e r. none_ne_some (sym absent ∙ r.0), refl, refl, refl, refl))
    | inr (e, known) ↦
        let same_result : get sha256_hex lim now k ctx ix
            ≡ read_entry sha256_hex lim now k ctx e ix =
          rw (known, get) refl in
        subst (Reads now k ctx ix) (sym same_result) (
          branches (Reads now k ctx ix) (is_evicted e.status) _ _
            (λ t. refuse e known (λ r. true_ne_false (sym t ∙ r.1)))
            (λ live.
              branches (Reads now k ctx ix) (not (scope_matches sha256_hex lim e ctx)) _ _
                (λ t.
                  refuse e known
                    (λ r. let m = MayRead→scope_matches sha256_hex lim e ctx r.3 in ground arith))
                (λ f.
                  branches (Reads now k ctx ix) (is_stale e.status) _ _
                    (λ t. refuse e known (λ r. true_ne_false (sym t ∙ r.2)))
                    (λ g. inl (
                      e,
                      (known, live, g, scope_matches→MayRead sha256_hex lim e ctx (ground arith)),
                      refl,
                      refl,
                      lookup-insert_self k (touch now e) ix.entries,
                      refl,
                    )))))
  ]
    where
      refuse :
          (e : ThreadWakeIndexEntry)
          → lookup k ix.entries ≡ some e
          → (IsReadable ix k ctx e → ⊥)
          → Reads now k ctx ix (record ix { miss_count = ix.miss_count + 1 }, none)
      refuse e known n = inr (
        λ e' r. n (subst (IsReadable ix k ctx) (sym (some_inj (sym known ∙ r.0))) r),
        refl,
        refl,
        refl,
        refl,
      )
