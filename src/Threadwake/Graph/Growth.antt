-- ===== src/Threadwake/Graph/Growth.antt =====
-- compiler.py and index.py: what a longer conversation keeps of the prompt graph.
use Prim.Native.String as Text
use whooshd.Base.{
  ℕ, suc, ◌+◌, ◌≤◌, ◌<◌, ◌≡◌, ◌⊎◌, inl, inr, refl, sym, ap, subst, ◌∙◌, String, Bool, true, false,
  Option, none, some, List, [], ◌∷◌, ◌++◌, append_assoc, if◌then◌else◌, length, same, arith,
  Bool-cases,
}
use whooshd.Threadwake.Metadata.{Encoders, Message, validate_and_merge_segments}
use whooshd.Threadwake.Policy.{PromptSegment}
use whooshd.Threadwake.Tips.{validate_monotonic_append, validate_monotonic_append_iff}
use whooshd.Threadwake.Graph.{
  Texts, is_latest, latest_user_from, message_stability, is_reusable, content_hashes, tool_segment,
  message_segment, message_segments, infer_segments, chain_from, Prompt, graph_of,
  compile_prompt_graph,
}
use whooshd.Threadwake.Graph.Prefixes.{stable_run, merged_segments}

latest-append :
    {J : Type 0} (i : ℕ) (l : Option ℕ) (ms more : List (Message J))
    → latest_user_from i l (ms ++ more)
      ≡ latest_user_from (i + length ms) (latest_user_from i l ms) more
unfolding latest_user_from
latest-append i l [] more = ap (λ n. latest_user_from n l more) (omega arith)
latest-append i l (m ∷ ms) more =
    latest-append (i + 1) (if same m.role "user" then some i else l) ms more
    ∙ ap
        (λ n.
          latest_user_from n
            (latest_user_from (i + 1) (if same m.role "user" then some i else l) ms) more)
        (omega arith)

-- The latest index is the earlier one, or one at which the search goes on.
latest_cases :
    {J : Type 0} (n : ℕ) (l : Option ℕ) (ms : List (Message J))
    → (latest_user_from n l ms ≡ l) ⊎ ((j : ℕ) × (latest_user_from n l ms ≡ some j) × (n ≤ j))
unfolding latest_user_from
latest_cases n l [] = inl refl
latest_cases n l (m ∷ ms) = elim (Bool-cases (same m.role "user")) [
  | inl t ↦ elim (latest_cases (n + 1) (some n) ms) [
    | inl e ↦ inr (n, rw t e, omega arith)
    | inr (j, e, le) ↦ inr (j, rw t e, omega (arith, le))
  ]
  | inr f ↦ elim (latest_cases (n + 1) l ms) [
    | inl e ↦ inl (rw f e)
    | inr (j, e, le) ↦ inr (j, rw f e, omega (arith, le))
  ]
]

-- A reusable stability does not change where the index is the latest neither before nor after.
stability_stays :
    (role : String) (b c : Bool)
    → (b ≡ false → c ≡ false)
    → is_reusable (message_stability role b) ≡ true
    → message_stability role c ≡ message_stability role b
unfolding message_stability
stability_stays role true true h r = refl
stability_stays role true false h r = ground arith
stability_stays role false c h r = rw (h refl)

-- The second list goes on from the first: up to the first dynamic segment, they are the same.
abbrev Extends : List PromptSegment → List PromptSegment → Type 0
Extends [] ts = Unit {0}
Extends (s ∷ ss) [] = ⊥
Extends (s ∷ ss) (t ∷ ts) = is_reusable s.stability ≡ true → (t ≡ s) × Extends ss ts

Extends-append : (xs ss ts : List PromptSegment) → Extends ss ts → Extends (xs ++ ss) (xs ++ ts)
Extends-append [] ss ts h = h
Extends-append (x ∷ xs) ss ts h = λ r. (refl, Extends-append xs ss ts h)

stable_run-Extends :
    (ss ts : List PromptSegment)
    → Extends ss ts
    → (later : List PromptSegment) × (stable_run ts ≡ stable_run ss ++ later)
unfolding stable_run
stable_run-Extends [] ts h = (stable_run ts, refl)
stable_run-Extends (s ∷ ss) [] h = absurd h
stable_run-Extends (s ∷ ss) (t ∷ ts) h = elim (Bool-cases (is_reusable s.stability)) [
  | inl r ↦
      let (e, rest) = h r in
      let (later, q) = stable_run-Extends ss ts rest in (later, rw (e, r) (ap (λ x. s ∷ x) q))
  | inr n ↦ (stable_run (t ∷ ts), rw n)
]

-- The index of the latest user's message is the earlier one, or past the end.
abbrev Later : ℕ → Option ℕ → Option ℕ → Type 0
Later n l l' = (l' ≡ l) ⊎ ((j : ℕ) × (l' ≡ some j) × (n ≤ j))

not_latest :
    (i n : ℕ) (l l' : Option ℕ)
    → Later n l l'
    → i < n
    → is_latest i l ≡ false
    → is_latest i l' ≡ false
not_latest i n l l' (inl e) lt f = rw e f
not_latest i n l l' (inr (j, e, le)) lt f = rw e (ground arith)

module _ {J : Type 0} (enc : Encoders J) (txt : Texts) (scope : String) where
  message_segments-Extends :
      (i : ℕ) (l l' : Option ℕ) (ms more : List (Message J))
      → Later (i + length ms) l l'
      → Extends
          (message_segments enc txt i l scope ms)
          (message_segments enc txt i l' scope (ms ++ more))
  unfolding message_segments
  message_segments-Extends i l l' [] more h = tt
  message_segments-Extends i l l' (m ∷ ms) more h = λ r. (
    ap (λ x. record (message_segment enc txt i l scope m) { stability = x })
        (stability_stays m.role (is_latest i l) (is_latest i l')
          (not_latest i (i + suc (length ms)) l l' h (omega arith)) r),
    message_segments-Extends (i + 1) l l' ms more (subst (λ n. Later n l l') (omega arith) h),
  )

  content_hashes-message_segments :
      (i : ℕ) (l l' : Option ℕ) (ms more : List (Message J))
      → content_hashes (message_segments enc txt i l' scope (ms ++ more))
        ≡ content_hashes (message_segments enc txt i l scope ms)
          ++ content_hashes (message_segments enc txt (i + length ms) l' scope more)
  unfolding message_segments content_hashes
  content_hashes-message_segments i l l' [] more =
      ap (λ n. content_hashes (message_segments enc txt n l' scope more)) (omega arith)
  content_hashes-message_segments i l l' (m ∷ ms) more =
      ap (λ x. (message_segment enc txt i l scope m).content_hash ∷ x)
        (content_hashes-message_segments (i + 1) l l' ms more
          ∙ ap
              (λ n.
                content_hashes (message_segments enc txt (i + 1) l scope ms)
                ++ content_hashes (message_segments enc txt n l' scope more))
              (omega arith))

content_hashes-append :
    (xs ys : List PromptSegment)
    → content_hashes (xs ++ ys) ≡ content_hashes xs ++ content_hashes ys
unfolding content_hashes
content_hashes-append [] ys = refl
content_hashes-append (x ∷ xs) ys = ap (λ r. x.content_hash ∷ r) (content_hashes-append xs ys)

chain-append :
    {J : Type 0} (enc : Encoders J) (txt : Texts) (chain : String) (hs more : List String)
    → chain_from enc txt chain (hs ++ more) ≡ chain_from enc txt (chain_from enc txt chain hs) more
unfolding chain_from
chain-append enc txt chain [] more = refl
chain-append enc txt chain (h ∷ hs) more =
    chain-append enc txt (enc.sha256_hex (Text.◌++◌ chain h)) hs more

module _ {J : Type 0} (enc : Encoders J) (txt : Texts) (p : Prompt J)
    (more : List (Message J)) where
  abbrev pub longer : Prompt J
  longer = record p { messages = p.messages ++ more }

  abbrev tool_segments : List PromptSegment
  tool_segments =
      tool_segment enc txt "tools" "tool_schema" p.scope p.tools
      ++ tool_segment enc txt "tool_choice" "tool_instruction" p.scope p.tool_choice

  abbrev latest : Option ℕ
  latest = latest_user_from 0 none p.messages

  abbrev later : Option ℕ
  later = latest_user_from 0 none (p.messages ++ more)

  unmerged :
      (q : Prompt J)
      → q.codexify_segments ≡ []
      → merged_segments enc txt q ≡ infer_segments enc txt q.tools q.tool_choice q.scope q.messages
  unfolding merged_segments validate_and_merge_segments
  unmerged q h = rw h

  split :
      (ms : List (Message J))
      → infer_segments enc txt p.tools p.tool_choice p.scope ms
        ≡ tool_segments ++ message_segments enc txt 0 (latest_user_from 0 none ms) p.scope ms
  unfolding infer_segments
  split ms = sym (append_assoc (tool_segment enc txt "tools" "tool_schema" p.scope p.tools) _ _)

  later-Later : Later (0 + length p.messages) latest later
  later-Later =
      let e = latest-append 0 none p.messages more in
      elim (latest_cases (0 + length p.messages) latest more) [
        | inl h ↦ inl (e ∙ h)
        | inr (j, h, le) ↦ inr (j, e ∙ h, le)
      ]

  -- A request carries no segment metadata, and a longer one goes on from it with more messages. Then
  -- the stable prefix of the longer one begins with that of the first, unchanged, also where the
  -- first one's latest user's message no longer is the latest; its segment hashes are the first
  -- one's with others appended, which the index takes as a valid continuation; and its chain hash
  -- goes on from the first one's.
  pub compile_prompt_graph-longer :
      p.codexify_segments ≡ []
      → let g = compile_prompt_graph enc txt p in
        let g' = compile_prompt_graph enc txt longer in
        ((rest : List PromptSegment) × (stable_run (merged_segments enc txt longer)
            ≡ stable_run (merged_segments enc txt p) ++ rest))
        × ((appended : List String) × (g'.ordered_segment_hashes
              ≡ g.ordered_segment_hashes ++ appended)
            × (g'.full_prefix_chain_hash ≡ chain_from enc txt g.full_prefix_chain_hash appended))
        × (validate_monotonic_append g.ordered_segment_hashes g'.ordered_segment_hashes ≡ true)
  unfolding compile_prompt_graph graph_of merged_segments
  compile_prompt_graph-longer h =
      let a = message_segments enc txt 0 latest p.scope p.messages in
      let b = message_segments enc txt 0 later p.scope (p.messages ++ more) in
      let c =
        content_hashes (message_segments enc txt (0 + length p.messages) later p.scope more) in
      let e : merged_segments enc txt p ≡ tool_segments ++ a = unmerged p h ∙ split p.messages in
      let f : merged_segments enc txt longer ≡ tool_segments ++ b =
        unmerged longer h ∙ split (p.messages ++ more) in
      let (rest, grows) = stable_run-Extends (tool_segments ++ a) (tool_segments ++ b) (
        Extends-append tool_segments a b
          (message_segments-Extends enc txt p.scope 0 latest later p.messages more later-Later)) in
      let hashes : content_hashes (merged_segments enc txt longer)
          ≡ content_hashes (merged_segments enc txt p) ++ c =
        rw (e, f)
          (content_hashes-append tool_segments b
            ∙ ap (λ x. content_hashes tool_segments ++ x)
                (content_hashes-message_segments enc txt p.scope 0 latest later p.messages more)
            ∙ sym (append_assoc (content_hashes tool_segments) (content_hashes a) c)
            ∙ ap (λ x. x ++ c) (sym (content_hashes-append tool_segments a))) in
      (
        (rest, rw (e, f) grows),
        (c, hashes, ap (chain_from enc txt "") hashes ∙ chain-append enc txt "" _ c),
        (validate_monotonic_append_iff _ _).1 (c, hashes),
      )
