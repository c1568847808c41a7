-- ===== src/Threadwake/Graph/Shift.antt =====
-- compiler.py and metadata.py: segment metadata of a request with tools.
use whooshd.Base.{◌≡◌, ap, true, false, none, some, [], ◌∷◌, ◌++◌, ◌==◌, arith}
use whooshd.Threadwake.Metadata.{
  Encoders, CodexifySegmentMeta, apply_meta, find_meta, validate_single_meta, merge_from,
  validate_and_merge_segments,
}
use whooshd.Threadwake.Metadata.Merging.{merge_from-past}
use whooshd.Threadwake.Policy.{stable}
use whooshd.Threadwake.Graph.{
  Texts, latest_user_from, plain_segment, tool_segment, message_segments, infer_segments, Prompt,
}
use whooshd.Threadwake.Graph.Prefixes.{merged_segments}

-- A request has tools, and one entry of metadata, which is for its first message and is valid for
-- that message. The entry is applied to the segment of the tools, and the segments of all messages,
-- the first included, stay as they were inferred.
pub merged_segments-tools :
    {J : Type 0} (enc : Encoders J) (txt : Texts) (p : Prompt J) (value : J)
    (m : CodexifySegmentMeta)
    → p.tools ≡ some value
    → p.codexify_segments ≡ m ∷ []
    → m.message_index ≡ 0
    → validate_single_meta enc p.messages p.allow_global m ≡ none
    → merged_segments enc txt p
      ≡ apply_meta m
          (plain_segment enc txt "tools" "tool_schema" "tool_schema" stable p.scope false value)
          p.scope
        ∷ (tool_segment enc txt "tool_choice" "tool_instruction" p.scope p.tool_choice
            ++ message_segments enc txt 0 (latest_user_from 0 none p.messages) p.scope p.messages)
unfolding merged_segments infer_segments validate_and_merge_segments merge_from find_meta
merged_segments-tools enc txt p value m t c z v =
    let rest =
      tool_segment enc txt "tool_choice" "tool_instruction" p.scope p.tool_choice
      ++ message_segments enc txt 0 (latest_user_from 0 none p.messages) p.scope p.messages in
    let first : (m.message_index == 0) ≡ true = ground arith in
    rw (t, c)
      (rw (first, v)
        (ap
          (λ x.
            apply_meta m
              (plain_segment enc txt "tools" "tool_schema" "tool_schema" stable p.scope false value)
              p.scope
            ∷ x)
          (merge_from-past enc p.messages p.allow_global p.scope 1 m rest (ground arith)
            (λ j. ground arith))))
