-- ===== src/Threadwake/Eviction.antt =====
-- whooshd/runtime/threadwake/index.py: what `_evict_if_needed` removes.
use whooshd.Base.{
  lookup-erase_ne, ◌∙◌, sym, ℕ, ◌+◌, ◌≡◌, refl, String, true, false, Option, some, List, [], ◌∷◌,
  ◌++◌, arith, if◌then◌else◌, branches, same, same_refl, length, Dict, lookup, erase, has_key, ap,
  ltb, ◌≤◌,
}
use whooshd.Threadwake.Index.{
  ThreadWakeIndexEntry, Limits, Kept, remove_first, is_over, total_memory, evict_rounds,
}
use whooshd.Threadwake.Order.{occurs, IsTracked, IsTracked-erase}

-- The keys are dropped one by one, each while a limit is exceeded, until none is.
abbrev pub Drops :
    Limits → Dict ThreadWakeIndexEntry → List String → Dict ThreadWakeIndexEntry → Type 0
Drops lim d [] d' = (d ≡ d') × (is_over lim d' ≡ false)
Drops lim d (k ∷ ks) d' = (is_over lim d ≡ true) × Drops lim (erase k d) ks d'

is_over-empty : (lim : Limits) → is_over lim [] ≡ false
unfolding is_over total_memory
is_over-empty lim = ground arith

no_keys : {V : Type 0} (d : Dict V) → IsTracked d [] → d ≡ []
unfolding occurs lookup
no_keys [] h = refl
no_keys ((k, v) ∷ d) h = absurd (ground (arith, h.1 k, same_refl k))

module _ {V : Type 0} (k : String) (lru : List String) (d : Dict V)
    (h : IsTracked d (k ∷ lru)) where
  head-has_key : has_key k d ≡ true
  unfolding occurs
  head-has_key = ground (arith, h.1 k, same_refl k)

  IsTracked-tail : IsTracked (erase k d) lru
  unfolding remove_first
  IsTracked-tail =
      let r : IsTracked (erase k d) (if same k k then lru else k ∷ remove_first k lru) =
        IsTracked-erase d (k ∷ lru) k h in
      rw (same_refl k) at r

module _ (lim : Limits) where
  -- The rounds end without an exception, after an initial part of the order has been dropped.
  abbrev pub Evicts : List String → Dict ThreadWakeIndexEntry → ℕ → Option Kept → Type 0
  Evicts lru d n o =
      (r : Kept) × (o ≡ some r)
      × IsTracked r.entries r.lru
      × ((dropped : List String) × (lru ≡ dropped ++ r.lru)
          × (r.evictions ≡ n + length dropped)
          × Drops lim d dropped r.entries)

  pub evict_rounds-Evicts :
      (lru : List String) (d : Dict ThreadWakeIndexEntry) (n : ℕ)
      → IsTracked d lru
      → Evicts lru d n (evict_rounds lim lru d n)
  unfolding evict_rounds
  evict_rounds-Evicts [] d n h =
      let e = no_keys d h in (_, refl, h, ([], refl, omega arith, (refl, rw e (is_over-empty lim))))
  evict_rounds-Evicts (k ∷ lru) d n h =
      branches (Evicts (k ∷ lru) d n) (is_over lim d) _ _
        (λ over.
          let (r, e, s, (ks, split, number, drops)) =
            evict_rounds-Evicts lru (erase k d) (n + 1) (IsTracked-tail k lru d h) in
          rw (head-has_key k lru d h)
            (r, e, s, (k ∷ ks, ap (λ x. k ∷ x) split, omega arith, (over, drops))))
        (λ under. (_, refl, h, ([], refl, omega arith, (refl, under))))

-- Dropping ends within the limits, and takes an entry for each key at most.
pub Drops-under :
    (lim : Limits) (d : Dict ThreadWakeIndexEntry) (ks : List String)
    (d' : Dict ThreadWakeIndexEntry)
    → Drops lim d ks d'
    → is_over lim d' ≡ false
Drops-under lim d [] d' h = h.1
Drops-under lim d (k ∷ ks) d' h = Drops-under lim (erase k d) ks d' h.1

pub is_over-false :
    (lim : Limits) (d : Dict ThreadWakeIndexEntry)
    → is_over lim d ≡ false
    → (length d ≤ lim.max_entries)
      × ((ltb 0 lim.max_memory_bytes ≡ true) → total_memory d ≤ lim.max_memory_bytes)
unfolding is_over
is_over-false lim d h = (ground arith, λ p. ground arith)

-- Entries that are not dropped stay as they are.
pub lookup-Drops :
    (lim : Limits) (d : Dict ThreadWakeIndexEntry) (ks : List String)
    (d' : Dict ThreadWakeIndexEntry) (j : String)
    → Drops lim d ks d'
    → occurs j ks ≡ 0
    → lookup j d' ≡ lookup j d
unfolding occurs
lookup-Drops lim d [] d' j h z = ap (lookup j) (sym h.0)
lookup-Drops lim d (k ∷ ks) d' j h z =
    lookup-Drops lim (erase k d) ks d' j h.1 (omega arith) ∙ lookup-erase_ne k j d (ground arith)
