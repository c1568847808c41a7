-- ===== src/Threadwake/Metadata.antt =====
-- whooshd/runtime/threadwake/metadata.py: the segment metadata of a request, validated and merged into
-- the segments that the compiler infers, and the messages of types.py and contracts.py that both look
-- at. A message's values are of a type `J`; the canonical text of a value (keys.py) and the digest are
-- parameters. The list of errors, which the compiler drops, is left out, and so is `content_path`,
-- which nothing reads.
pub mod Merging
use whooshd.Base.{
  ℕ, zero, suc, ◌+◌, String, Bool, true, false, ◌&&◌, Option, none, some, List, [], ◌∷◌, ◌==◌,
  if◌then◌else◌, not, same, truthy,
}
use whooshd.Threadwake.Policy.{Stability, stable, semi_stable, dynamic, PromptSegment}

-- A part of a message's content: whether it is a mapping, its `type`, and whether it has `image_url`.
pub record ContentPart : Type 0 where
  pub is_mapping : Bool
  pub part_type : Option String
  pub has_image_url : Bool

pub record Message (J : Type 0) : Type 0 where
  pub role : String
  pub content : J
  pub parts : Option (List ContentPart)  -- the parts of a content that is a list
  pub payload : J  -- role, content and those of name, tool_calls and tool_call_id that are given

pub record Encoders (J : Type 0) : Type 0 where
  pub canonicalize_content : J → String
  pub sha256_hex : String → String

pub data CodexifySegmentType : Type 0 where
  system persona tools project retrieval thread user tool_output unknown : CodexifySegmentType

pub record CodexifySegmentMeta : Type 0 where
  pub name : String
  pub message_index : ℕ
  pub segment_type : CodexifySegmentType
  pub stability : Option Stability
  pub scope : String
  pub content_hash : Option String
  pub cacheable : Option Bool

pub data MetaError : Type 0 where
  message_index_out_of_range content_hash_mismatch global_scope_not_allowed : MetaError

-- The stability and the segment type by `_CODEXIFY_TYPE_DEFAULTS`, which has every type.
abbrev pub default_stability : CodexifySegmentType → Stability
default_stability system = stable
default_stability persona = stable
default_stability tools = stable
default_stability project = stable
default_stability retrieval = semi_stable
default_stability thread = semi_stable
default_stability user = dynamic
default_stability tool_output = dynamic
default_stability unknown = dynamic

abbrev pub default_segment_type : CodexifySegmentType → String
default_segment_type system = "system"
default_segment_type persona = "persona"
default_segment_type tools = "tool_schema"
default_segment_type project = "project_context"
default_segment_type retrieval = "retrieval"
default_segment_type thread = "thread_history"
default_segment_type user = "user_message"
default_segment_type tool_output = "tool_output"
default_segment_type unknown = "unknown"

abbrev pub given_hash : Option String → Bool
given_hash none = false
given_hash (some h) = truthy h

abbrev pub or_default_stability : CodexifySegmentType → Option Stability → Stability
or_default_stability t none = default_stability t
or_default_stability t (some s) = s

-- `stable` is trusted only with a hash.
abbrev pub trusted : Bool → Stability → Stability
trusted has_hash stable = if has_hash then stable else semi_stable
trusted has_hash s = s

abbrev pub by_type : CodexifySegmentType → Bool → Stability → Stability
by_type user has_hash s = dynamic
by_type tool_output has_hash s = dynamic
by_type retrieval has_hash s = trusted has_hash s
by_type _ has_hash s = s

abbrev pub unless_uncacheable : Option Bool → Stability → Stability
unless_uncacheable (some false) s = dynamic
unless_uncacheable _ s = s

unfoldable pub apply_meta : CodexifySegmentMeta → PromptSegment → String → PromptSegment
apply_meta m s default_scope = record {
  name = if truthy m.name then m.name else s.name;
  role = s.role;
  content_hash = s.content_hash;
  segment_type = default_segment_type m.segment_type;
  stability = unless_uncacheable m.cacheable (
      by_type m.segment_type (given_hash m.content_hash)
        (or_default_stability m.segment_type m.stability));
  token_count = s.token_count;
  scope = if truthy m.scope then m.scope else default_scope;
  multimodal = s.multimodal;
  in_stable_prefix = false;
}

-- `meta_by_index.get(i)`: the first entry for an index counts.
unfoldable pub find_meta : ℕ → List CodexifySegmentMeta → Option CodexifySegmentMeta
find_meta i [] = none
find_meta i (m ∷ ms) = if m.message_index == i then some m else find_meta i ms

unfoldable pub message_at : {J : Type 0} → ℕ → List (Message J) → Option (Message J)
message_at i [] = none
message_at zero (m ∷ ms) = some m
message_at (suc i) (m ∷ ms) = message_at i ms

module _ {J : Type 0} (enc : Encoders J) (messages : List (Message J)) (allow_global : Bool) where
  abbrev pub hash_agrees : Option String → Message J → Bool
  hash_agrees none m = true
  hash_agrees (some h) m =
      if truthy h then same (enc.sha256_hex (enc.canonicalize_content m.content)) h else true

  abbrev pub validate_at : CodexifySegmentMeta → Option (Message J) → Option MetaError
  validate_at meta none = some message_index_out_of_range
  validate_at meta (some m) =
      if not (hash_agrees meta.content_hash m)
      then some content_hash_mismatch
      else if same meta.scope "global" && not allow_global
      then some global_scope_not_allowed
      else none

  unfoldable pub validate_single_meta : CodexifySegmentMeta → Option MetaError
  validate_single_meta meta = validate_at meta (message_at meta.message_index messages)

  abbrev pub merge_valid :
      CodexifySegmentMeta → PromptSegment → String → Option MetaError → PromptSegment
  merge_valid meta s default_scope none = apply_meta meta s default_scope
  merge_valid meta s default_scope (some e) = s

  abbrev pub merge_found : PromptSegment → String → Option CodexifySegmentMeta → PromptSegment
  merge_found s default_scope none = s
  merge_found s default_scope (some meta) =
      merge_valid meta s default_scope (validate_single_meta meta)

  -- The merged segments, from the index `i` on.
  unfoldable pub merge_from :
      ℕ → List CodexifySegmentMeta → String → List PromptSegment → List PromptSegment
  merge_from i metas default_scope [] = []
  merge_from i metas default_scope (s ∷ ss) =
      merge_found s default_scope (find_meta i metas) ∷ merge_from (i + 1) metas default_scope ss

  unfoldable pub validate_and_merge_segments :
      List PromptSegment → List CodexifySegmentMeta → String → List PromptSegment
  validate_and_merge_segments ss [] default_scope = ss
  validate_and_merge_segments ss (m ∷ ms) default_scope = merge_from 0 (m ∷ ms) default_scope ss
