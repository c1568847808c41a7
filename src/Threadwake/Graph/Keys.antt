-- ===== src/Threadwake/Graph/Keys.antt =====
-- keys.py: what two prompts with one cache key share.
use whooshd.Base.{◌≡◌, sym, ap, ◌∙◌, String, Option, List}
use whooshd.Threadwake.Metadata.{Encoders}
use whooshd.Threadwake.Policy.{PromptGraph}
use whooshd.Threadwake.Graph.{
  SegmentPayload, KeyPayload, Texts, payloads, Prompt, compile_prompt_graph,
  build_threadwake_cache_key,
}
use whooshd.Threadwake.Graph.Prefixes.{stable_run, merged_segments, compile_prompt_graph-Splits}

-- A fingerprint does not collide on two values.
abbrev pub Separates : {A : Type 0} → (A → String) → A → A → Type 0
Separates fingerprint x y = fingerprint x ≡ fingerprint y → x ≡ y

module _ {J : Type 0} (enc : Encoders J) (txt : Texts) (scope : String)
    (model_revision quantization : Option String) where
  abbrev pub key_payload : PromptGraph → KeyPayload
  key_payload g = record {
    version = "threadwake-v0-phase-a";
    backend = g.backend;
    model_id = g.model_id;
    model_revision = model_revision;
    quantization = quantization;
    tokenizer_hash = g.tokenizer_hash;
    chat_template_hash = g.chat_template_hash;
    stable_prefix_hash = g.stable_prefix_hash;
    scope = scope;
  }

  abbrev pub key_of : Prompt J → String
  key_of p =
      build_threadwake_cache_key enc txt (compile_prompt_graph enc txt p) scope model_revision
        quantization

abbrev pub stable_payloads : {J : Type 0} → Encoders J → Texts → Prompt J → List SegmentPayload
stable_payloads enc txt p = payloads (stable_run (merged_segments enc txt p))

abbrev pub Agree :
    {J : Type 0}
    → Encoders J
    → Texts
    → Prompt J
    → Prompt J
    → String
    → String
    → Option String
    → Option String
    → Option String
    → Option String
    → Type 0
Agree enc txt p q s s' r r' u u' =
    let g = compile_prompt_graph enc txt p in
    let g' = compile_prompt_graph enc txt q in
    (g.backend ≡ g'.backend)
    × (g.model_id ≡ g'.model_id)
    × (g.tokenizer_hash ≡ g'.tokenizer_hash)
    × (g.chat_template_hash ≡ g'.chat_template_hash)
    × (s ≡ s')
    × (r ≡ r')
    × (u ≡ u')
    × (stable_payloads enc txt p ≡ stable_payloads enc txt q)

-- The digest of the JSON text collides neither on the payloads of the two keys nor on those of the two
-- stable prefixes. Then two prompts with one cache key have the same backend, model, tokenizer and
-- template, were looked up with the same scope, revision and quantization, and have the same stable
-- prefix, segment by segment: the same names, roles, content hashes, types, stabilities, token
-- counts and scopes.
pub build_threadwake_cache_key_inj :
    {J : Type 0} (enc : Encoders J) (txt : Texts) (p q : Prompt J) (s s' : String)
    (r r' u u' : Option String)
    → Separates
        (λ k. enc.sha256_hex (txt.key_json k))
        (key_payload enc txt s r u (compile_prompt_graph enc txt p))
        (key_payload enc txt s' r' u' (compile_prompt_graph enc txt q))
    → Separates
        (λ xs. enc.sha256_hex (txt.segments_json xs))
        (stable_payloads enc txt p)
        (stable_payloads enc txt q)
    → key_of enc txt s r u p ≡ key_of enc txt s' r' u' q
    → Agree enc txt p q s s' r r' u u'
unfolding build_threadwake_cache_key
build_threadwake_cache_key_inj enc txt p q s s' r r' u u' keys prefixes same_key =
    let e = keys same_key in
    let (_, _, _, h, _, _) = compile_prompt_graph-Splits enc txt p in
    let (_, _, _, h', _, _) = compile_prompt_graph-Splits enc txt q in
    (
      ap (λ k. k.backend) e,
      ap (λ k. k.model_id) e,
      ap (λ k. k.tokenizer_hash) e,
      ap (λ k. k.chat_template_hash) e,
      ap (λ k. k.scope) e,
      ap (λ k. k.model_revision) e,
      ap (λ k. k.quantization) e,
      prefixes (sym h ∙ ap (λ k. k.stable_prefix_hash) e ∙ h'),
    )
