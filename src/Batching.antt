-- ===== src/Batching.antt =====
-- whooshd/batching.py: the analysis that groups queued requests which could run as one batch. The
-- analyzer's two limits are arguments, and a group's random identifier is left out.
pub mod Groups
use whooshd.Base.{
  ℕ, zero, suc, ◌+◌, String, Bool, true, false, ◌&&◌, ◌||◌, Option, none, some, List, [], ◌∷◌, ltb,
  leb, if◌then◌else◌, not, length, count, same,
}

pub data BatchIncompatibilityReason : Type 0 where
  different_model different_backend streaming_unsupported : BatchIncompatibilityReason
  vision_unsupported sampling_mismatch token_budget_exceeded : BatchIncompatibilityReason
  backend_unsupported : BatchIncompatibilityReason

pub record BatchCandidate : Type 0 where
  pub request_id : String
  pub queued_at : ℕ
  pub model : String
  pub backend : Option String
  pub stream : Bool
  pub estimated_prompt_tokens : Option ℕ
  pub max_tokens : Option ℕ
  pub sampling_class : Option String
  pub has_image : Bool

-- The members stand for the identifiers that the group lists.
pub record BatchGroup : Type 0 where
  pub members : List BatchCandidate
  pub model : String
  pub backend : Option String
  pub eligible : Bool
  pub reasons : List BatchIncompatibilityReason
  pub estimated_total_tokens : Option ℕ

pub record BatchAnalysis : Type 0 where
  pub enabled : Bool
  pub candidate_count : ℕ
  pub group_count : ℕ
  pub eligible_group_count : ℕ
  pub groups : List BatchGroup

abbrev pub same_option : Option String → Option String → Bool
same_option none none = true
same_option (some a) (some b) = same a b
same_option _ _ = false

abbrev when :
    Bool
    → BatchIncompatibilityReason
    → List BatchIncompatibilityReason
    → List BatchIncompatibilityReason
when b r rs = if b then r ∷ rs else rs

unfoldable pub check_compatibility :
    BatchCandidate → BatchCandidate → List BatchIncompatibilityReason
check_compatibility a b =
    if not (same a.model b.model)
    then different_model ∷ []
    else if not (same_option a.backend b.backend)
    then different_backend ∷ []
    else when (a.stream || b.stream) streaming_unsupported (
        when (a.has_image || b.has_image) vision_unsupported
          (when (not (same_option a.sampling_class b.sampling_class)) sampling_mismatch []))

abbrev is_nil : List BatchIncompatibilityReason → Bool
is_nil [] = true
is_nil (r ∷ rs) = false

unfoldable pub compatible : BatchCandidate → BatchCandidate → Bool
compatible a b = is_nil (check_compatibility a b)

-- The anchor's companions and what remains, `size` requests being in the group already.
unfoldable pub companions :
    ℕ → BatchCandidate → ℕ → List BatchCandidate → List BatchCandidate × List BatchCandidate
companions max_group_size anchor size [] = ([], [])
companions max_group_size anchor size (c ∷ cs) =
    let more = companions max_group_size anchor (size + 1) cs in
    let others = companions max_group_size anchor size cs in
    if leb max_group_size size
    then ([], c ∷ cs)
    else if compatible anchor c
    then (c ∷ more.0, more.1)
    else (others.0, c ∷ others.1)

abbrev or_zero : Option ℕ → ℕ
or_zero none = 0
or_zero (some n) = n

unfoldable pub tokens : List BatchCandidate → ℕ
tokens [] = 0
tokens (c ∷ cs) = or_zero c.estimated_prompt_tokens + or_zero c.max_tokens + tokens cs

abbrev or_none : ℕ → Option ℕ
or_none zero = none
or_none (suc n) = some (suc n)

unfoldable pub group_of : ℕ → BatchCandidate → List BatchCandidate → BatchGroup
group_of max_total_tokens anchor others =
    let members = anchor ∷ others in
    let several = ltb 1 (length members) in
    record {
      members = members;
      model = anchor.model;
      backend = anchor.backend;
      eligible = several && leb (tokens members) max_total_tokens;
      reasons = if several then [] else token_budget_exceeded ∷ [];
      estimated_total_tokens = or_none (tokens members);
    }

-- The loop over what remains; each round takes one candidate at least, so their number is enough
-- fuel.
unfoldable pub group_all : ℕ → ℕ → ℕ → List BatchCandidate → List BatchGroup
group_all max_group_size max_total_tokens zero cs = []
group_all max_group_size max_total_tokens (suc n) [] = []
group_all max_group_size max_total_tokens (suc n) (c ∷ cs) =
    let split = companions max_group_size c 1 cs in
    group_of max_total_tokens c split.0 ∷ group_all max_group_size max_total_tokens n split.1

abbrev is_none : List BatchCandidate → Bool
is_none [] = true
is_none (c ∷ cs) = false

unfoldable pub analyze : ℕ → ℕ → List BatchCandidate → Bool → BatchAnalysis
analyze max_group_size max_total_tokens cs enabled =
    let groups =
      if not enabled || is_none cs
      then []
      else group_all max_group_size max_total_tokens (length cs) cs in
    record {
      enabled = enabled;
      candidate_count = length cs;
      group_count = length groups;
      eligible_group_count = count (λ g. g.eligible) groups;
      groups = groups;
    }
