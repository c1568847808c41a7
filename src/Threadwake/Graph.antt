-- ===== src/Threadwake/Graph.antt =====
-- whooshd/runtime/threadwake/compiler.py and keys.py: the prompt graph of a request and its cache key.
-- The JSON texts of the payloads, the count of words and the numerals are parameters beside those of
-- Metadata. Segment metadata that is missing or malformed is the empty list.
pub mod Prefixes
pub mod Growth
pub mod Keys
pub mod Shift
use Prim.Native.String as Text
use whooshd.Base.{
  ℕ, zero, suc, ◌+◌, ◌-◌, String, Bool, true, false, ◌&&◌, ◌||◌, Option, none, some, List, [], ◌∷◌,
  ◌++◌, ◌==◌, if◌then◌else◌, not, length, same, truthy,
}
use whooshd.Threadwake.Metadata.{
  ContentPart, Message, Encoders, CodexifySegmentMeta, validate_and_merge_segments,
}
use whooshd.Threadwake.Policy.{Stability, stable, semi_stable, dynamic, PromptSegment, PromptGraph}

pub record SegmentPayload : Type 0 where
  pub name : String
  pub role : String
  pub content_hash : String
  pub segment_type : String
  pub stability : Stability
  pub token_count : ℕ
  pub scope : String
  pub multimodal : Bool

pub record KeyPayload : Type 0 where
  pub version : String
  pub backend : Option String
  pub model_id : Option String
  pub model_revision : Option String
  pub quantization : Option String
  pub tokenizer_hash : Option String
  pub chat_template_hash : String
  pub stable_prefix_hash : String
  pub scope : String

pub record Texts : Type 0 where
  pub segments_json : List SegmentPayload → String
  pub key_json : KeyPayload → String
  pub count_words : String → ℕ
  pub show : ℕ → String

-- A part shows multimodal content by a type that is not text, or by an image.
abbrev pub other_type : Option String → Bool
other_type none = false
other_type (some t) = truthy t && not (same t "text")

unfoldable pub contains_multimodal_part : List ContentPart → Bool
contains_multimodal_part [] = false
contains_multimodal_part (p ∷ ps) =
    (p.is_mapping && (other_type p.part_type || p.has_image_url)) || contains_multimodal_part ps

abbrev pub contains_multimodal_content : Option (List ContentPart) → Bool
contains_multimodal_content none = false
contains_multimodal_content (some ps) = contains_multimodal_part ps

abbrev pub is_latest : ℕ → Option ℕ → Bool
is_latest i none = false
is_latest i (some j) = i == j

-- The last index of a user's message, counted from `i` on.
unfoldable pub latest_user_from : {J : Type 0} → ℕ → Option ℕ → List (Message J) → Option ℕ
latest_user_from i latest [] = latest
latest_user_from i latest (m ∷ ms) =
    latest_user_from (i + 1) (if same m.role "user" then some i else latest) ms

unfoldable pub message_stability : String → Bool → Stability
message_stability role latest =
    if same role "system" || same role "developer"
    then stable
    else if same role "tool"
    then dynamic
    else if same role "user" && latest
    then dynamic
    else if same role "user" || same role "assistant"
    then semi_stable
    else dynamic

abbrev pub hash_payload : PromptSegment → SegmentPayload
hash_payload s = record {
  name = s.name;
  role = s.role;
  content_hash = s.content_hash;
  segment_type = s.segment_type;
  stability = s.stability;
  token_count = s.token_count;
  scope = s.scope;
  multimodal = s.multimodal;
}

unfoldable pub payloads : List PromptSegment → List SegmentPayload
payloads [] = []
payloads (s ∷ ss) = hash_payload s ∷ payloads ss

abbrev pub is_reusable : Stability → Bool
is_reusable dynamic = false
is_reusable _ = true

-- The loop over the segments: the marked segments, and the tokens and payloads of the stable prefix.
pub record PrefixScan : Type 0 where
  pub segments : List PromptSegment
  pub tokens : ℕ
  pub payload : List SegmentPayload

abbrev pub scan_one : Bool → PromptSegment → PrefixScan → PrefixScan
scan_one true s r = record {
  segments = record s { in_stable_prefix = true } ∷ r.segments;
  tokens = s.token_count + r.tokens;
  payload = hash_payload s ∷ r.payload;
}
scan_one false s r = record r { segments = s ∷ r.segments }

-- `prefix_open` stays set while the segments are stable or semi-stable.
unfoldable pub scan_prefix : Bool → List PromptSegment → PrefixScan
scan_prefix prefix_open [] = record { segments = []; tokens = 0; payload = [] }
scan_prefix prefix_open (s ∷ ss) =
    let still = prefix_open && is_reusable s.stability in scan_one still s (scan_prefix still ss)

unfoldable pub count_tokens : List PromptSegment → ℕ
count_tokens [] = 0
count_tokens (s ∷ ss) = s.token_count + count_tokens ss

unfoldable pub content_hashes : List PromptSegment → List String
content_hashes [] = []
content_hashes (s ∷ ss) = s.content_hash ∷ content_hashes ss

-- What a request is compiled from.
pub record Prompt (J : Type 0) : Type 0 where
  pub messages : List (Message J)
  pub model_id : Option String
  pub backend : Option String
  pub tools : Option J
  pub tool_choice : Option J
  pub tokenizer_hash : Option String
  pub chat_template_hash : Option String
  pub scope : String
  pub codexify_segments : List CodexifySegmentMeta
  pub allow_global : Bool

module _ {J : Type 0} (enc : Encoders J) (txt : Texts) where
  abbrev pub estimate_token_count : String → ℕ
  estimate_token_count s = if truthy s then txt.count_words s else 0

  abbrev pub plain_segment :
      String → String → String → Stability → String → Bool → J → PromptSegment
  plain_segment name role segment_type stability scope multimodal value =
      let canonical = enc.canonicalize_content value in
      record {
        name = name;
        role = role;
        content_hash = enc.sha256_hex canonical;
        segment_type = segment_type;
        stability = stability;
        token_count = estimate_token_count canonical;
        scope = scope;
        multimodal = multimodal;
        in_stable_prefix = false;
      }

  -- The values are the objects with the one key `tools` or `tool_choice`.
  abbrev pub tool_segment : String → String → String → Option J → List PromptSegment
  tool_segment name role scope none = []
  tool_segment name role scope (some value) =
      plain_segment name role role stable scope false value ∷ []

  abbrev pub message_segment : ℕ → Option ℕ → String → Message J → PromptSegment
  message_segment i latest scope m =
      let multimodal = contains_multimodal_content m.parts in
      plain_segment (Text.◌++◌ "message:" (Text.◌++◌ (txt.show i) (Text.◌++◌ ":" m.role))) m.role
        (if multimodal then "multimodal_message" else "message")
        (message_stability m.role (is_latest i latest)) scope multimodal m.payload

  unfoldable pub message_segments : ℕ → Option ℕ → String → List (Message J) → List PromptSegment
  message_segments i latest scope [] = []
  message_segments i latest scope (m ∷ ms) =
      message_segment i latest scope m ∷ message_segments (i + 1) latest scope ms

  unfoldable pub infer_segments :
      Option J → Option J → String → List (Message J) → List PromptSegment
  infer_segments tools tool_choice scope messages =
      tool_segment "tools" "tool_schema" scope tools
      ++ (tool_segment "tool_choice" "tool_instruction" scope tool_choice
          ++ message_segments 0 (latest_user_from 0 none messages) scope messages)

  unfoldable pub chain_from : String → List String → String
  chain_from chain [] = chain
  chain_from chain (h ∷ hs) = chain_from (enc.sha256_hex (Text.◌++◌ chain h)) hs

  abbrev pub is_nonempty : List PromptSegment → Bool
  is_nonempty [] = false
  is_nonempty (s ∷ ss) = true

  abbrev pub template_or_default : Option String → String
  template_or_default none = enc.sha256_hex "openai-chat-completions-v1"
  template_or_default (some t) = if truthy t then t else enc.sha256_hex "openai-chat-completions-v1"

  unfoldable pub graph_of :
      Option String
      → Option String
      → Option String
      → Option String
      → List PromptSegment
      → PromptGraph
  graph_of model_id backend tokenizer_hash chat_template_hash segments =
      let scan = scan_prefix true segments in
      record {
        model_id = model_id;
        backend = backend;
        chat_template_hash = template_or_default chat_template_hash;
        tokenizer_hash = tokenizer_hash;
        segments = scan.segments;
        stable_prefix_hash = enc.sha256_hex (txt.segments_json scan.payload);
        full_prompt_hash = enc.sha256_hex (txt.segments_json (payloads segments));
        stable_prefix_tokens = scan.tokens;
        dynamic_tokens = count_tokens segments - scan.tokens;
        ordered_segment_hashes = content_hashes segments;
        full_prefix_chain_hash = chain_from "" (content_hashes segments);
        continuation_candidate = is_nonempty segments;
      }

  unfoldable pub compile_prompt_graph : Prompt J → PromptGraph
  compile_prompt_graph p = graph_of p.model_id p.backend p.tokenizer_hash p.chat_template_hash (
      validate_and_merge_segments enc p.messages p.allow_global
        (infer_segments p.tools p.tool_choice p.scope p.messages) p.codexify_segments p.scope)

  unfoldable pub build_threadwake_cache_key :
      PromptGraph → String → Option String → Option String → String
  build_threadwake_cache_key g scope model_revision quantization = enc.sha256_hex (
      txt.key_json (record {
        version = "threadwake-v0-phase-a";
        backend = g.backend;
        model_id = g.model_id;
        model_revision = model_revision;
        quantization = quantization;
        tokenizer_hash = g.tokenizer_hash;
        chat_template_hash = g.chat_template_hash;
        stable_prefix_hash = g.stable_prefix_hash;
        scope = scope;
      }))
