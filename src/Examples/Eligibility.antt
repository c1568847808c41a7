-- ===== src/Examples/Eligibility.antt =====
-- Concrete verdicts of the policies of ThreadWake.
use whooshd.Base.{ℕ, ◌≡◌, String, true, false, Option, none, some, [], ◌∷◌}
use whooshd.Threadwake.Policy.{
  stable, PromptGraph, ThreadWakeRequestConfig, ephemeral, evaluate_threadwake_policy, mode_of,
  is_on, is_supported, min_tokens_of, SnapshotPolicyConfig,
}
use whooshd.Threadwake.Policy.Verdicts.{Decides, IsReusable, evaluate_threadwake_policy_iff}

abbrev prompt : PromptGraph
prompt = record {
  model_id = some "m";
  backend = some "mlx";
  chat_template_hash = "t";
  tokenizer_hash = none;
  segments =
      record {
        name = "message:0:system";
        role = "system";
        content_hash = "c";
        segment_type = "message";
        stability = stable;
        token_count = 2000;
        scope = "thread";
        multimodal = false;
        in_stable_prefix = true;
      }
      ∷ [];
  stable_prefix_hash = "p";
  full_prompt_hash = "p";
  stable_prefix_tokens = 2000;
  dynamic_tokens = 0;
  ordered_segment_hashes = "c" ∷ [];
  full_prefix_chain_hash = "c";
  continuation_candidate = true;
}

abbrev switched_on : ThreadWakeRequestConfig
switched_on = record {
  enabled = some true;
  mode = some ephemeral;
  scope = none;
  min_stable_prefix_tokens = none;
}

evaluate_threadwake_policy_iff_example :
    Decides
      ((is_on switched_on.enabled ≡ true)
        × (is_supported (mode_of switched_on.mode) ≡ true)
        × IsReusable (min_tokens_of switched_on.min_stable_prefix_tokens) (some prompt))
      (some prompt)
      (evaluate_threadwake_policy (some prompt) switched_on)
evaluate_threadwake_policy_iff_example = evaluate_threadwake_policy_iff (some prompt) switched_on

abbrev strict : SnapshotPolicyConfig
strict = record {
  enabled = true;
  minimum_seen_count = 5;
  minimum_candidate_score = 8000;
  minimum_saved_ratio = 5000;
  maximum_candidate_age_days = 30;
  supported_backends = "mlx" ∷ [];
}

abbrev a_week : String → Option ℕ
a_week t = some 7
