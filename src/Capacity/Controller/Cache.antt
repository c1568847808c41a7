-- ===== src/Capacity/Controller/Cache.antt =====
-- capacity_controller.py: `_get_profile`, which reads the profile's file at most once for each path
-- and modification time. The file system is a record of its two answers: the modification time,
-- if the path can be read, and what `safe_load_profile` makes of the file.
pub mod Coherence
use whooshd.Base.{
  ℕ, String, Bool, true, false, ◌&&◌, Option, none, some, ◌≡◌, refl, ap, sym, arith, same, same→eq,
  same_refl, ◌==◌, truthy, if◌then◌else◌, Bool-cases, Option-cases, inl, inr, ◌⊎◌,
}
use whooshd.Capacity.Profile.{CapacityProfile}
use whooshd.Config.{Config}

pub record Disk : Type 0 where
  pub mtime : String → Option ℕ
  pub load : String → Option CapacityProfile

pub record Signature : Type 0 where
  pub path : String
  pub mtime : Option ℕ

pub record ProfileCache : Type 0 where
  pub profile_path : Option String
  pub cached_profile : Option CapacityProfile
  pub cached_signature : Option Signature
  pub failure_signature : Option Signature

unfoldable pub new : Option String → ProfileCache
new path = record {
  profile_path = path;
  cached_profile = none;
  cached_signature = none;
  failure_signature = none;
}

abbrev mtime_eq : Option ℕ → Option ℕ → Bool
mtime_eq none none = true
mtime_eq (some a) (some b) = a == b
mtime_eq _ _ = false

abbrev is_signature : Option Signature → Signature → Bool
is_signature none s = false
is_signature (some t) s = same t.path s.path && mtime_eq t.mtime s.mtime

-- `self._profile_path or get_capacity_profile_path()`, and the test that follows it.
abbrev or_path : Option String → Option String → Option String
or_path none b = b
or_path (some a) b = if truthy a then some a else b

abbrev nonempty : Option String → Option String
nonempty none = none
nonempty (some a) = if truthy a then some a else none

abbrev pub path_of : Config → ProfileCache → Option String
path_of cfg c = nonempty (or_path c.profile_path cfg.capacity_profile_path)

abbrev failed_at : Option CapacityProfile → Signature → Option Signature
failed_at none s = some s
failed_at (some p) s = none

-- The new cache, the profile, and whether the file was read.
read_profile : Disk → ProfileCache → Signature → ProfileCache × Option CapacityProfile × Bool
read_profile disk c s =
    let p = disk.load s.path in
    (
      record c { cached_profile = p; cached_signature = some s; failure_signature = failed_at p s },
      p,
      true,
    )

-- A hit returns the cached profile, where there is one.
hit_or :
    Option CapacityProfile
    → Bool
    → ProfileCache
    → ProfileCache × Option CapacityProfile × Bool
    → ProfileCache × Option CapacityProfile × Bool
hit_or (some p) true c miss = (c, some p, false)
hit_or _ _ c miss = miss

get_at : Disk → ProfileCache → Signature → ProfileCache × Option CapacityProfile × Bool
unfolding read_profile hit_or
get_at disk c s =
    hit_or c.cached_profile (is_signature c.cached_signature s) c
      (if is_signature c.failure_signature s then (c, none, false) else read_profile disk c s)

get_from : Disk → ProfileCache → Option String → ProfileCache × Option CapacityProfile × Bool
unfolding get_at
get_from disk c none = (c, none, false)
get_from disk c (some path) = get_at disk c (record { path = path; mtime = disk.mtime path })

unfoldable pub get_profile :
    Config → Disk → ProfileCache → ProfileCache × Option CapacityProfile × Bool
unfolding get_from
get_profile cfg disk c = get_from disk c (path_of cfg c)

unfoldable pub invalidate_profile_cache : ProfileCache → ProfileCache
invalidate_profile_cache c = record c {
  cached_profile = none;
  cached_signature = none;
  failure_signature = none;
}
