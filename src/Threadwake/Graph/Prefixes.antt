-- ===== src/Threadwake/Graph/Prefixes.antt =====
-- compiler.py: the stable prefix of a prompt graph.
use whooshd.Base.{
  ◌+◌, ◌≡◌, refl, ap, true, false, List, [], ◌∷◌, ◌++◌, if◌then◌else◌, All, arith, Bool-cases, inl,
  inr,
}
use whooshd.Threadwake.Metadata.{Encoders, validate_and_merge_segments}
use whooshd.Threadwake.Policy.{PromptSegment}
use whooshd.Threadwake.Graph.{
  Texts, payloads, is_reusable, PrefixScan, scan_prefix, count_tokens, infer_segments, Prompt,
  graph_of, compile_prompt_graph,
}

unfoldable pub marked : List PromptSegment → List PromptSegment
marked [] = []
marked (s ∷ ss) = record s { in_stable_prefix = true } ∷ marked ss

-- Nothing is left, or a dynamic segment comes first.
abbrev pub Stops : List PromptSegment → Type 0
Stops [] = Unit {0}
Stops (s ∷ ss) = is_reusable s.stability ≡ false

-- The longest run of stable and semi-stable segments at the start, and the rest.
pub record Splits (ss front back : List PromptSegment) : Type 0 where
  pub together : ss ≡ front ++ back
  pub reusable : All (λ s. is_reusable s.stability ≡ true) front
  pub longest : Stops back

unfoldable pub stable_run : List PromptSegment → List PromptSegment
stable_run [] = []
stable_run (s ∷ ss) = if is_reusable s.stability then s ∷ stable_run ss else []

abbrev Scanned : List PromptSegment → PrefixScan → Type 0
Scanned ss r =
    (back : List PromptSegment) × Splits ss (stable_run ss) back
    × (r.segments ≡ marked (stable_run ss) ++ back)
    × (r.tokens ≡ count_tokens (stable_run ss))
    × (r.payload ≡ payloads (stable_run ss))
    × (count_tokens ss ≡ count_tokens (stable_run ss) + count_tokens back)

scan_closed :
    (ss : List PromptSegment)
    → scan_prefix false ss ≡ record { segments = ss; tokens = 0; payload = [] }
unfolding scan_prefix
scan_closed [] = refl
scan_closed (s ∷ ss) = rw (scan_closed ss)

scan_prefix-Scanned : (ss : List PromptSegment) → Scanned ss (scan_prefix true ss)
unfolding scan_prefix marked payloads count_tokens stable_run
scan_prefix-Scanned [] =
    ([], record { together = refl; reusable = tt; longest = tt }, refl, refl, refl, refl)
scan_prefix-Scanned (s ∷ ss) = elim (Bool-cases (is_reusable s.stability)) [
  | inl t ↦
      let (back, split, e, f, g, h) = scan_prefix-Scanned ss in
      (
        back,
        rw t (record {
          together = ap (λ x. s ∷ x) split.together;
          reusable = (t, split.reusable);
          longest = split.longest;
        }),
        rw (t, e),
        rw (t, f),
        rw (t, g),
        rw t (omega (arith, h)),
      )
  | inr n ↦ (
    s ∷ ss,
    rw n (record { together = refl; reusable = tt; longest = n }),
    rw (n, scan_closed ss),
    rw (n, scan_closed ss),
    rw (n, scan_closed ss),
    rw n (omega arith),
  )
]

-- The segments of a request before they are marked.
unfoldable pub merged_segments : {J : Type 0} → Encoders J → Texts → Prompt J → List PromptSegment
merged_segments enc txt p =
    validate_and_merge_segments enc p.messages p.allow_global
      (infer_segments enc txt p.tools p.tool_choice p.scope p.messages) p.codexify_segments p.scope

-- The segments of a prompt graph are those that were inferred and merged, in their order; exactly
-- the longest run of stable and semi-stable ones at the start is marked as the stable prefix. The
-- hash of the stable prefix is that of the run's payloads, its tokens are the run's, and the dynamic
-- tokens are those of all other segments.
pub compile_prompt_graph-Splits :
    {J : Type 0} (enc : Encoders J) (txt : Texts) (p : Prompt J)
    → let g = compile_prompt_graph enc txt p in
      let front = stable_run (merged_segments enc txt p) in
      (back : List PromptSegment) × Splits (merged_segments enc txt p) front back
      × (g.segments ≡ marked front ++ back)
      × (g.stable_prefix_hash ≡ enc.sha256_hex (txt.segments_json (payloads front)))
      × (g.stable_prefix_tokens ≡ count_tokens front)
      × (g.dynamic_tokens ≡ count_tokens back)
unfolding compile_prompt_graph graph_of merged_segments
compile_prompt_graph-Splits enc txt p =
    let (back, split, e, f, g, h) = scan_prefix-Scanned (merged_segments enc txt p) in
    (back, split, e, ap (λ x. enc.sha256_hex (txt.segments_json x)) g, f, omega (arith, h, f))
