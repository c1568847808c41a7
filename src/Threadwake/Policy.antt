-- ===== src/Threadwake/Policy.antt =====
-- whooshd/runtime/threadwake/policy.py: which prompts ThreadWake may reuse, and which candidates
-- deserve a snapshot. `age_days` is the age in days of a time stamp, `none` where it does not parse
-- or lies ahead. Scores and ratios are whole numbers of ten-thousandths. The observation's fields
-- that the policy does not set are left out.
pub mod Verdicts
use whooshd.Base.{
  ℕ, ◌+◌, String, Bool, true, false, ◌&&◌, ◌||◌, Option, none, some, List, [], ◌∷◌, ltb, leb, not,
  if◌then◌else◌, same, truthy, Dict, lookup, insert,
}

-- types.py
pub data ThreadWakeMode : Type 0 where
  off observing ephemeral session advanced : ThreadWakeMode

pub data Stability : Type 0 where
  stable semi_stable dynamic : Stability

pub record PromptSegment : Type 0 where
  pub name : String
  pub role : String
  pub content_hash : String
  pub segment_type : String
  pub stability : Stability
  pub token_count : ℕ
  pub scope : String
  pub multimodal : Bool
  pub in_stable_prefix : Bool

pub record PromptGraph : Type 0 where
  pub model_id : Option String
  pub backend : Option String
  pub chat_template_hash : String
  pub tokenizer_hash : Option String
  pub segments : List PromptSegment
  pub stable_prefix_hash : String
  pub full_prompt_hash : String
  pub stable_prefix_tokens : ℕ
  pub dynamic_tokens : ℕ
  pub ordered_segment_hashes : List String
  pub full_prefix_chain_hash : String
  pub continuation_candidate : Bool

pub record ThreadWakeRequestConfig : Type 0 where
  pub enabled : Option Bool
  pub mode : Option ThreadWakeMode
  pub scope : Option String
  pub min_stable_prefix_tokens : Option ℕ

pub data Reason : Type 0 where
  threadwake_disabled prompt_graph_missing model_id_missing backend_missing : Reason
  mode_not_supported : ThreadWakeMode → Reason
  stable_prefix_contains_multimodal stable_prefix_below_min_tokens : Reason

pub record ThreadWakeObservation : Type 0 where
  pub enabled : Bool
  pub mode : ThreadWakeMode
  pub eligible : Bool
  pub reason : Option Reason
  pub stable_prefix_hash : Option String
  pub stable_prefix_tokens : ℕ
  pub dynamic_tokens : ℕ
  pub estimated_prefill_reuse_tokens : ℕ
  pub cache_hit : Bool
  pub cache_scope : String

abbrev pub mode_of : Option ThreadWakeMode → ThreadWakeMode
mode_of none = off
mode_of (some x) = x

-- `config.scope or "thread"`.
abbrev pub scope_of : Option String → String
scope_of none = "thread"
scope_of (some x) = if truthy x then x else "thread"

abbrev pub min_tokens_of : Option ℕ → ℕ
min_tokens_of none = 1024
min_tokens_of (some n) = n

abbrev pub is_on : Option Bool → Bool
is_on none = false
is_on (some b) = b

abbrev pub is_off : ThreadWakeMode → Bool
is_off off = true
is_off _ = false

-- `mode in (OBSERVE, EPHEMERAL, SESSION)`.
abbrev pub is_supported : ThreadWakeMode → Bool
is_supported observing = true
is_supported ephemeral = true
is_supported session = true
is_supported _ = false

abbrev pub is_given : Option String → Bool
is_given none = false
is_given (some x) = truthy x

-- `any(segment.in_stable_prefix and segment.multimodal for ...)`.
unfoldable pub has_multimodal_prefix : List PromptSegment → Bool
has_multimodal_prefix [] = false
has_multimodal_prefix (s ∷ ss) = (s.in_stable_prefix && s.multimodal) || has_multimodal_prefix ss

unfoldable pub without_graph : Bool → ThreadWakeMode → String → Reason → ThreadWakeObservation
without_graph enabled mode scope reason = record {
  enabled = enabled;
  mode = mode;
  eligible = false;
  reason = some reason;
  stable_prefix_hash = none;
  stable_prefix_tokens = 0;
  dynamic_tokens = 0;
  estimated_prefill_reuse_tokens = 0;
  cache_hit = false;
  cache_scope = scope;
}

-- The fields `base`, with a refusal or with a grant.
unfoldable pub ineligible : PromptGraph → ThreadWakeMode → String → Reason → ThreadWakeObservation
ineligible g mode scope reason = record {
  enabled = true;
  mode = mode;
  eligible = false;
  reason = some reason;
  stable_prefix_hash = some g.stable_prefix_hash;
  stable_prefix_tokens = g.stable_prefix_tokens;
  dynamic_tokens = g.dynamic_tokens;
  estimated_prefill_reuse_tokens = 0;
  cache_hit = false;
  cache_scope = scope;
}

unfoldable pub eligible_with : PromptGraph → ThreadWakeMode → String → ThreadWakeObservation
eligible_with g mode scope = record {
  enabled = true;
  mode = mode;
  eligible = true;
  reason = none;
  stable_prefix_hash = some g.stable_prefix_hash;
  stable_prefix_tokens = g.stable_prefix_tokens;
  dynamic_tokens = g.dynamic_tokens;
  estimated_prefill_reuse_tokens = g.stable_prefix_tokens;
  cache_hit = false;
  cache_scope = scope;
}

unfoldable pub evaluate_graph :
    ThreadWakeMode → String → ℕ → Option PromptGraph → ThreadWakeObservation
evaluate_graph mode scope min_tokens none = without_graph true mode scope prompt_graph_missing
evaluate_graph mode scope min_tokens (some g) =
    if not (is_given g.model_id)
    then ineligible g mode scope model_id_missing
    else if not (is_given g.backend)
    then ineligible g mode scope backend_missing
    else if not (is_supported mode)
    then ineligible g mode scope (mode_not_supported mode)
    else if has_multimodal_prefix g.segments
    then ineligible g mode scope stable_prefix_contains_multimodal
    else if ltb g.stable_prefix_tokens min_tokens
    then ineligible g mode scope stable_prefix_below_min_tokens
    else eligible_with g mode scope

unfoldable pub evaluate_threadwake_policy :
    Option PromptGraph → ThreadWakeRequestConfig → ThreadWakeObservation
evaluate_threadwake_policy graph cfg =
    let mode = mode_of cfg.mode in
    let scope = scope_of cfg.scope in
    if not (is_on cfg.enabled && not (is_off mode))
    then without_graph false off scope threadwake_disabled
    else evaluate_graph mode scope (min_tokens_of cfg.min_stable_prefix_tokens) graph

-- The snapshot policy.
pub record CandidateReplayRecord : Type 0 where
  pub backend : Option String
  pub seen_count : ℕ
  pub potential_saved_tokens_total : ℕ
  pub average_candidate_score : ℕ
  pub average_potential_saved_ratio : ℕ
  pub last_seen_at : Option String

pub record SnapshotPolicyConfig : Type 0 where
  pub enabled : Bool
  pub minimum_seen_count : ℕ
  pub minimum_candidate_score : ℕ
  pub minimum_saved_ratio : ℕ
  pub maximum_candidate_age_days : ℕ
  pub supported_backends : List String

pub record SnapshotEligibility : Type 0 where
  pub eligible : Bool
  pub reason : String
  pub candidate_score : ℕ

pub record PolicyStats : Type 0 where
  pub evaluations_total : ℕ
  pub eligible_total : ℕ
  pub rejected_total : ℕ
  pub rejection_reasons : Dict ℕ

unfoldable pub no_evaluations : PolicyStats
no_evaluations = record {
  evaluations_total = 0;
  eligible_total = 0;
  rejected_total = 0;
  rejection_reasons = [];
}

unfoldable pub is_among : String → List String → Bool
is_among x [] = false
is_among x (y ∷ ys) = if same y x then true else is_among x ys

abbrev count_of : Option ℕ → ℕ
count_of none = 0
count_of (some n) = n

unfoldable pub reject_candidate : String → ℕ → PolicyStats → PolicyStats × SnapshotEligibility
reject_candidate reason score st = (
  record st {
    rejected_total = st.rejected_total + 1;
    rejection_reasons =
        insert reason (count_of (lookup reason st.rejection_reasons) + 1) st.rejection_reasons;
  },
  record { eligible = false; reason = reason; candidate_score = score },
)

-- `backend and backend not in supported_backends`.
abbrev pub is_foreign : Option String → List String → Bool
is_foreign none known = false
is_foreign (some b) known = truthy b && not (is_among b known)

unfoldable pub reason_for : ℕ → ℕ → String
reason_for seen saved =
    if leb 10 seen && leb 2000 saved
    then "high_frequency_high_savings"
    else if leb 10 seen
    then "high_frequency"
    else if leb 2000 saved
    then "high_savings"
    else "recently_reused"

module _ (age_days : String → Option ℕ) (cfg : SnapshotPolicyConfig) where
  abbrev too_old : Option ℕ → Bool
  too_old none = false
  too_old (some days) = ltb cfg.maximum_candidate_age_days days

  abbrev pub is_expired : Option String → Bool
  is_expired none = false
  is_expired (some t) = truthy t && too_old (age_days t)

  -- The candidate after the counter of evaluations.
  unfoldable pub judge : CandidateReplayRecord → PolicyStats → PolicyStats × SnapshotEligibility
  judge r st =
      if not cfg.enabled
      then reject_candidate "policy_disabled" 0 st
      else if is_foreign r.backend cfg.supported_backends
      then reject_candidate "unsupported_backend" 0 st
      else if ltb r.seen_count cfg.minimum_seen_count
      then reject_candidate "insufficient_observations" r.average_candidate_score st
      else if ltb r.average_candidate_score cfg.minimum_candidate_score
      then reject_candidate "low_value" r.average_candidate_score st
      else if ltb r.average_potential_saved_ratio cfg.minimum_saved_ratio
      then reject_candidate "low_value" r.average_candidate_score st
      else if is_expired r.last_seen_at
      then reject_candidate "expired" r.average_candidate_score st
      else (
        record st { eligible_total = st.eligible_total + 1 },
        record {
          eligible = true;
          reason = reason_for r.seen_count r.potential_saved_tokens_total;
          candidate_score = r.average_candidate_score;
        },
      )

  unfoldable pub evaluate_candidate :
      CandidateReplayRecord → PolicyStats → PolicyStats × SnapshotEligibility
  evaluate_candidate r st = judge r (record st { evaluations_total = st.evaluations_total + 1 })

  unfoldable pub evaluate_replay_summary :
      List CandidateReplayRecord → PolicyStats → PolicyStats × List SnapshotEligibility
  evaluate_replay_summary [] st = (st, [])
  evaluate_replay_summary (r ∷ rs) st =
      let first = evaluate_candidate r st in
      let rest = evaluate_replay_summary rs first.0 in (rest.0, first.1 ∷ rest.1)
