-- ===== src/Examples/Prompts.antt =====
-- Compiled prompts.
use whooshd.Base.{◌≡◌, ◌++◌, same, refl, String, true, false, none, some, List, [], ◌∷◌}
use whooshd.Threadwake.Metadata.{
  Message, Encoders, CodexifySegmentMeta, persona, apply_meta, validate_single_meta, message_at,
  validate_and_merge_segments,
}
use whooshd.Threadwake.Metadata.Merging.{AreMerged, validate_and_merge_segments-AreMerged}
use whooshd.Threadwake.Policy.{stable, PromptSegment}
use whooshd.Threadwake.Graph.{
  graph_of, Texts, Prompt, count_tokens, compile_prompt_graph, chain_from, message_segments,
  plain_segment, graph_of, payloads, infer_segments, latest_user_from, message_stability,
  build_threadwake_cache_key,
}
use whooshd.Threadwake.Graph.Growth.{longer, compile_prompt_graph-longer}
use whooshd.Threadwake.Graph.Keys.{Agree, build_threadwake_cache_key_inj}
use whooshd.Threadwake.Graph.Prefixes.{
  Splits, marked, stable_run, merged_segments, compile_prompt_graph-Splits,
}
use whooshd.Threadwake.Graph.Shift.{merged_segments-tools}
use whooshd.Threadwake.Tips.{validate_monotonic_append}

-- Values are texts, which are their own canonical form and digest.
abbrev plain : Encoders String
plain = record { canonicalize_content = λ x. x; sha256_hex = λ x. x }

abbrev one_word : Texts
one_word = record {
  segments_json = λ xs. "[]";
  key_json = λ k. k.scope;
  count_words = λ x. 1;
  show = λ n. "n";
}

abbrev message : String → String → Message String
message role content = record { role = role; content = content; parts = none; payload = content }

abbrev prompt : Prompt String
prompt = record {
  messages = message "system" "s" ∷ message "user" "u" ∷ [];
  model_id = some "m";
  backend = some "mlx";
  tools = some "t";
  tool_choice = none;
  tokenizer_hash = none;
  chat_template_hash = none;
  scope = "thread";
  codexify_segments = [];
  allow_global = false;
}

abbrev answered : List (Message String)
answered = message "assistant" "a" ∷ message "user" "v" ∷ []

abbrev meta : CodexifySegmentMeta
meta = record {
  name = "p";
  message_index = 0;
  segment_type = persona;
  stability = none;
  scope = "thread";
  content_hash = some "s";
  cacheable = none;
}

abbrev described : Prompt String
described = record prompt { codexify_segments = meta ∷ [] }

compile_prompt_graph-Splits_example :
    (back : List PromptSegment) × Splits
      (merged_segments plain one_word prompt)
      (stable_run (merged_segments plain one_word prompt))
      back
    × ((compile_prompt_graph plain one_word prompt).segments
        ≡ marked (stable_run (merged_segments plain one_word prompt)) ++ back)
    × ((compile_prompt_graph plain one_word prompt).stable_prefix_hash ≡ "[]")
    × ((compile_prompt_graph plain one_word prompt).stable_prefix_tokens
        ≡ count_tokens (stable_run (merged_segments plain one_word prompt)))
    × ((compile_prompt_graph plain one_word prompt).dynamic_tokens ≡ count_tokens back)
compile_prompt_graph-Splits_example = compile_prompt_graph-Splits plain one_word prompt

merged_segments-tools_example :
    merged_segments plain one_word described
    ≡ apply_meta meta
        (plain_segment plain one_word "tools" "tool_schema" "tool_schema" stable "thread" false "t")
        "thread"
      ∷ message_segments plain one_word 0
          (latest_user_from 0 none prompt.messages)
          "thread"
          prompt.messages
unfolding validate_single_meta message_at same
merged_segments-tools_example =
    merged_segments-tools plain one_word described "t" meta refl refl refl refl

validate_and_merge_segments-AreMerged_example :
    AreMerged plain prompt.messages false
      (meta ∷ [])
      "thread"
      0
      (message_segments plain one_word 0 none "thread" prompt.messages)
      (validate_and_merge_segments plain prompt.messages false
        (message_segments plain one_word 0 none "thread" prompt.messages)
        (meta ∷ [])
        "thread")
validate_and_merge_segments-AreMerged_example =
    validate_and_merge_segments-AreMerged plain prompt.messages false "thread"
      (message_segments plain one_word 0 none "thread" prompt.messages) (meta ∷ [])

compile_prompt_graph-longer_example :
    ((rest : List PromptSegment) × (stable_run
          (merged_segments plain one_word (longer plain one_word prompt answered))
        ≡ stable_run (merged_segments plain one_word prompt) ++ rest))
    × ((appended : List String) × ((compile_prompt_graph plain one_word
            (longer plain one_word prompt answered)).ordered_segment_hashes
          ≡ (compile_prompt_graph plain one_word prompt).ordered_segment_hashes ++ appended)
        × ((compile_prompt_graph plain one_word
              (longer plain one_word prompt answered)).full_prefix_chain_hash
            ≡ chain_from plain one_word
                (compile_prompt_graph plain one_word prompt).full_prefix_chain_hash
                appended))
    × (validate_monotonic_append
          (compile_prompt_graph plain one_word prompt).ordered_segment_hashes
          (compile_prompt_graph plain one_word
            (longer plain one_word prompt answered)).ordered_segment_hashes
        ≡ true)
compile_prompt_graph-longer_example =
    compile_prompt_graph-longer plain one_word prompt answered refl

-- The same prompt with another question of the user's.
abbrev asked_again : Prompt String
asked_again = record prompt { messages = message "system" "s" ∷ message "user" "w" ∷ [] }

build_threadwake_cache_key_inj_example :
    Agree plain one_word prompt asked_again "thread" "thread" none none none none
unfolding compile_prompt_graph graph_of merged_segments stable_run payloads infer_segments
    message_segments latest_user_from message_stability validate_and_merge_segments same
    build_threadwake_cache_key
build_threadwake_cache_key_inj_example =
    build_threadwake_cache_key_inj plain one_word prompt asked_again "thread" "thread" none none
      none none (λ e. refl) (λ e. refl) refl
