-- ===== src/Capacity/Controller/Cache/Coherence.antt =====
-- capacity_controller.py: the cache of `_get_profile` against the history of the file.
use whooshd.Base.{
  ℕ, String, Bool, true, false, Option, none, some, ◌≡◌, refl, ap, sym, ◌∙◌, arith, same→eq,
  same_refl, if◌then◌else◌, Bool-cases, Option-cases, inl, inr, ◌⊎◌,
}
use whooshd.Capacity.Profile.{CapacityProfile}
use whooshd.Capacity.Controller.Cache.{
  Disk, Signature, ProfileCache, mtime_eq, is_signature, path_of, failed_at, read_profile, hit_or,
  get_at, get_from, get_profile,
}
use whooshd.Config.{Config}

-- What a file held at each modification time.
abbrev pub History : Type 0
History = Signature → Option CapacityProfile

-- The file system answers as the history says: a file changes only with its modification time.
abbrev pub IsStamped : History → Disk → Type 0
IsStamped h disk =
    (path : String) → disk.load path ≡ h (record { path = path; mtime = disk.mtime path })

-- What is cached is what the file held at the signature that is cached with it.
pub record IsCoherent (h : History) (c : ProfileCache) : Type 0 where
  pub profile :
      (s : Signature) (p : CapacityProfile)
      → c.cached_signature ≡ some s
      → c.cached_profile ≡ some p
      → h s ≡ some p
  pub failure : (s : Signature) → c.failure_signature ≡ some s → h s ≡ none

is_signature→eq : (t : Option Signature) (s : Signature) → is_signature t s ≡ true → t ≡ some s
is_signature→eq none s h = cc
is_signature→eq (some t) s h = ap some (λ i. record {
  path = same→eq t.path s.path (ground arith) i;
  mtime = mtimes t.mtime s.mtime (ground arith) i;
})
  where
    mtimes : (a b : Option ℕ) → mtime_eq a b ≡ true → a ≡ b
    mtimes none none e = refl
    mtimes (some a) (some b) e = ground arith
    mtimes none (some b) e = cc
    mtimes (some a) none e = cc

is_signature_refl : (s : Signature) → is_signature (some s) s ≡ true
is_signature_refl s = ground (arith, same_refl s.path, mtime_refl s.mtime)
  where
    mtime_refl : (a : Option ℕ) → mtime_eq a a ≡ true
    mtime_refl none = refl
    mtime_refl (some a) = ground arith

read-IsCoherent :
    (h : History) (disk : Disk) (c : ProfileCache) (s : Signature)
    → disk.load s.path ≡ h s
    → IsCoherent h (read_profile disk c s).0
unfolding read_profile
read-IsCoherent h disk c s e = record {
  profile = λ t p et ep. ground arith;
  failure = λ t et. failure (disk.load s.path) refl t et;
}
  where
    failure :
        (q : Option CapacityProfile)
        → q ≡ disk.load s.path
        → (t : Signature) → failed_at q s ≡ some t
        → h t ≡ none
    failure none n t et = ground arith
    failure (some q) n t et = cc

-- The three ways out: a cached profile, a cached failure, and the file.
get_at_cases :
    (disk : Disk) (c : ProfileCache) (s : Signature)
    → ((p : CapacityProfile) × (c.cached_signature ≡ some s)
        × (c.cached_profile ≡ some p)
        × (get_at disk c s ≡ (c, some p, false)))
      ⊎ (((c.failure_signature ≡ some s) × (get_at disk c s ≡ (c, none, false)))
          ⊎ (get_at disk c s ≡ read_profile disk c s))
unfolding get_at hit_or
get_at_cases disk c s = elim (Bool-cases (is_signature c.cached_signature s)) [
  | inl t ↦ elim (Option-cases c.cached_profile) [
    | inr (p, e) ↦ inl (p, is_signature→eq c.cached_signature s t, e, rw (e, hit_or, t))
    | inl e ↦ missed (rw (e, hit_or))
  ]
  | inr f ↦ missed (elim (Option-cases c.cached_profile) [
    | inr (p, e) ↦ rw (e, hit_or, f)
    | inl e ↦ rw (e, hit_or)
  ])
]
  where
    rest : ProfileCache × Option CapacityProfile × Bool
    rest = if is_signature c.failure_signature s then (c, none, false) else read_profile disk c s

    missed :
        get_at disk c s ≡ rest
        → ((p : CapacityProfile) × (c.cached_signature ≡ some s)
            × (c.cached_profile ≡ some p)
            × (get_at disk c s ≡ (c, some p, false)))
          ⊎ (((c.failure_signature ≡ some s) × (get_at disk c s ≡ (c, none, false)))
              ⊎ (get_at disk c s ≡ read_profile disk c s))
    missed m = elim (Bool-cases (is_signature c.failure_signature s)) [
      | inl t ↦ inr (inl (is_signature→eq c.failure_signature s t, m ∙ rw t))
      | inr f ↦ inr (inr (m ∙ rw f))
    ]

get_at_lem :
    (h : History) (disk : Disk) (c : ProfileCache) (s : Signature)
    → IsCoherent h c
    → disk.load s.path ≡ h s
    → ((get_at disk c s).1 ≡ h s) × IsCoherent h (get_at disk c s).0
unfolding read_profile
get_at_lem h disk c s k e = elim (get_at_cases disk c s) [
  | inl (p, es, ep, out) ↦ rw out (sym (k.profile s p es ep), k)
  | inr (inl (es, out)) ↦ rw out (sym (k.failure s es), k)
  | inr (inr out) ↦ rw out (e, read-IsCoherent h disk c s e)
]

-- While the file's content changes only with its modification time, a coherent cache always
-- answers with what the file now holds, and stays coherent.
pub get_profile_fresh :
    (h : History) (cfg : Config) (disk : Disk) (c : ProfileCache) (path : String)
    → IsStamped h disk
    → IsCoherent h c
    → path_of cfg c ≡ some path
    → ((get_profile cfg disk c).1 ≡ disk.load path) × IsCoherent h (get_profile cfg disk c).0
unfolding get_profile
get_profile_fresh h cfg disk c path stamped k e =
    let s : Signature = record { path = path; mtime = disk.mtime path } in
    let (value, coherent) = get_at_lem h disk c s k (stamped path) in
    rw (e, get_from) (value ∙ sym (stamped path), coherent)

read_again :
    (disk : Disk) (c : ProfileCache) (s : Signature) (p : Option CapacityProfile)
    → p ≡ disk.load s.path
    → (get_at disk (read_profile disk c s).0 s).2 ≡ false
unfolding get_at read_profile
read_again disk c s none e = rw (← e) (ground (arith, is_signature_refl s))
read_again disk c s (some p) e = rw (← e) (ground (arith, is_signature_refl s))

get_again :
    (disk : Disk) (c : ProfileCache) (s : Signature) → (get_at disk (get_at disk c s).0 s).2 ≡ false
get_again disk c s = elim (get_at_cases disk c s) [
  | inl (p, es, ep, out) ↦ rw (out, out)
  | inr (inl (es, out)) ↦ rw (out, out)
  | inr (inr out) ↦ rw out (read_again disk c s (disk.load s.path) refl)
]

get_at-path :
    (disk : Disk) (c : ProfileCache) (s : Signature)
    → (get_at disk c s).0.profile_path ≡ c.profile_path
unfolding read_profile
get_at-path disk c s = elim (get_at_cases disk c s) [
  | inl (p, es, ep, out) ↦ rw out
  | inr (inl (es, out)) ↦ rw out
  | inr (inr out) ↦ rw out
]

get_from-path :
    (disk : Disk) (c : ProfileCache) (o : Option String)
    → (get_from disk c o).0.profile_path ≡ c.profile_path
unfolding get_from
get_from-path disk c none = refl
get_from-path disk c (some path) = get_at-path disk c _

get_from_again :
    (disk : Disk) (c : ProfileCache) (o : Option String)
    → (get_from disk (get_from disk c o).0 o).2 ≡ false
unfolding get_from
get_from_again disk c none = refl
get_from_again disk c (some path) = get_again disk c _

-- A second call on an unchanged file system reads no file, whether the first one succeeded or
-- failed.
pub get_profile_again :
    (cfg : Config) (disk : Disk) (c : ProfileCache)
    → (get_profile cfg disk (get_profile cfg disk c).0).2 ≡ false
unfolding get_profile
get_profile_again cfg disk c =
    rw (get_from-path disk c (path_of cfg c)) (get_from_again disk c (path_of cfg c))
