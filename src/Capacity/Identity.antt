-- ===== src/Capacity/Identity.antt =====
-- whooshd/capacity_controller.py: when two model identities name the same model. Texts are read as
-- code points; white space and letter case are those of ASCII.
pub mod Matching
use Prim.Native.Char.{code}
use whooshd.Base.{
  ℕ, ◌+◌, String, Bool, true, false, ◌&&◌, ◌||◌, Option, none, some, List, [], ◌∷◌, ◌++◌, map, leb,
  ◌==◌, if◌then◌else◌, not, is_some,
}

abbrev pub Chars : Type 0
Chars = List ℕ

abbrev pub codes : String → Chars
codes String.[] = []
codes (String.◌∷◌ c s) = code c ∷ codes s

abbrev slash : ℕ
slash = b'/'

unfoldable pub chars_eq : Chars → Chars → Bool
chars_eq [] [] = true
chars_eq [] (d ∷ ds) = false
chars_eq (c ∷ cs) [] = false
chars_eq (c ∷ cs) (d ∷ ds) = c == d && chars_eq cs ds

abbrev is_space : ℕ → Bool
is_space c = c == 32 || ((leb 9 c && leb c 13) || (leb 28 c && leb c 31))

abbrev to_lower : ℕ → ℕ
to_lower c = if leb b'A' c && leb c b'Z' then c + 32 else c

lower : Chars → Chars
lower = map to_lower

lstrip : (ℕ → Bool) → Chars → Chars
lstrip p [] = []
lstrip p (c ∷ cs) = if p c then lstrip p cs else c ∷ cs

-- A character is dropped if it and all that follow it are to be dropped.
trim_end : (ℕ → Bool) → ℕ → Chars → Chars
trim_end p c [] = if p c then [] else c ∷ []
trim_end p c (d ∷ ds) = c ∷ d ∷ ds

rstrip : (ℕ → Bool) → Chars → Chars
unfolding trim_end
rstrip p [] = []
rstrip p (c ∷ cs) = trim_end p c (rstrip p cs)

drop_prefix : Chars → Chars → Option Chars
drop_prefix [] t = some t
drop_prefix (p ∷ ps) [] = none
drop_prefix (p ∷ ps) (c ∷ cs) = if p == c then drop_prefix ps cs else none

has_slash : Chars → Bool
has_slash [] = false
has_slash (c ∷ cs) = c == slash || has_slash cs

abbrev is_revision : Option Chars → Bool
is_revision none = false
is_revision (some []) = false
is_revision (some (c ∷ cs)) = not (has_slash (c ∷ cs))

-- `re.sub(r"/snapshots/[^/]+$", "", text)`.
strip_snapshot : Chars → Chars
unfolding drop_prefix has_slash
strip_snapshot [] = []
strip_snapshot (c ∷ cs) =
    let rest = strip_snapshot cs in
    if is_revision (drop_prefix (codes "/snapshots/") (c ∷ cs)) then [] else c ∷ rest

-- `text.rsplit(sep, 1)[1]`, where the separator occurs.
after_last : Chars → Chars → Option Chars
unfolding drop_prefix
after_last sep [] = none
after_last sep (c ∷ cs) = elim (after_last sep cs) [
  | some t ↦ some t
  | none ↦ drop_prefix sep (c ∷ cs)
]

abbrev or_else : Option Chars → Chars → Chars
or_else none t = t
or_else (some u) t = u

-- `text.rsplit("/", 1)[-1]`.
last_segment : Chars → Chars
unfolding after_last
last_segment t = or_else (after_last (slash ∷ []) t) t

-- `text.split("/", 1)[0]`.
first_segment : Chars → Chars
first_segment [] = []
first_segment (c ∷ cs) = if c == slash then [] else c ∷ first_segment cs

-- `text.partition("--")`: what stands before the first separator, and what follows it, if any.
partition_dashes : Chars → Chars × Option Chars
unfolding drop_prefix
partition_dashes [] = ([], none)
partition_dashes (c ∷ cs) =
    let (before, after) = partition_dashes cs in
    elim (drop_prefix (codes "--") (c ∷ cs)) [ some t ↦ ([], some t) | none ↦ (c ∷ before, after) ]

-- The repository identity, where there is one, and the bare name.
abbrev pub Identity : Type 0
Identity = Option Chars × Chars

-- A Hugging Face cache directory, `<org>--<name>`.
cache_identity : Chars → Chars × Option Chars → Identity
unfolding lower
cache_identity head (c ∷ org, some (d ∷ name)) =
    (some (lower (c ∷ org) ++ (slash ∷ lower (d ∷ name))), lower (d ∷ name))
cache_identity head _ = (none, lower head)

abbrev is_path : Chars → Bool
is_path t =
    is_some (drop_prefix (codes "/") t)
    || (is_some (drop_prefix (codes "./") t)
        || (is_some (drop_prefix (codes "../") t) || is_some (drop_prefix (codes "~") t)))

identity_of : Chars → Identity
unfolding cache_identity partition_dashes first_segment last_segment has_slash after_last
identity_of t = elim (after_last (codes "models--") t) [
  | some tail ↦ cache_identity (first_segment tail) (partition_dashes (first_segment tail))
  | none ↦
      if is_path t
      then (none, lower (last_segment t))
      else if has_slash t
      then (some (lower t), lower (last_segment t))
      else (none, lower t)
]

unfoldable pub canonical_model_identity : String → Identity
unfolding identity_of strip_snapshot rstrip lstrip
canonical_model_identity value =
    identity_of
      (strip_snapshot (rstrip (λ c. c == slash) (rstrip is_space (lstrip is_space (codes value)))))

abbrev pub is_empty : Chars → Bool
is_empty [] = true
is_empty (c ∷ cs) = false

-- The comparison of the two repository identities and, where there are none, of the names.
abbrev compare_repositories : Option Chars → Option Chars → Chars → Chars → Bool
compare_repositories (some a) (some b) m n = chars_eq a b
compare_repositories (some a) none m n = false
compare_repositories none (some b) m n = false
compare_repositories none none m n = chars_eq m n

unfoldable pub identities_match : Identity → Identity → Bool
unfolding chars_eq
identities_match (a, m) (b, n) =
    if is_empty m || is_empty n then false else compare_repositories a b m n

unfoldable pub model_identity_matches : String → String → Bool
unfolding canonical_model_identity identities_match
model_identity_matches profile_model_id candidate =
    identities_match (canonical_model_identity profile_model_id)
      (canonical_model_identity candidate)
