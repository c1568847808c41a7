-- ===== src/Capacity/Cost.antt =====
-- whooshd/capacity_context.py: the estimated token cost of a request. Texts are lists of code
-- points. A JSON value is of a type of its own, and `dumps` stands for `json.dumps`; a field that
-- Python takes for false (absent, or empty) is `none`.
pub mod Bounds
use whooshd.Base.{
  ℕ, zero, suc, ◌+◌, ◌*◌, ◌/◌, max, String, Bool, true, false, ◌&&◌, ◌||◌, Option, none, some, List,
  [], ◌∷◌, ◌++◌, not, if◌then◌else◌, is_some, length, same,
}

abbrev pub Chars : Type 0
Chars = List ℕ

-- One entry of a list content: a dictionary with its `type` and its `text`.
pub record Part : Type 0 where
  pub kind : Option String
  pub text : Option Chars

pub data Content : Type 0 where
  text : Chars → Content
  parts : List Part → Content

pub record ChatMessage (Json : Type 0) : Type 0 where
  pub content : Content
  pub name : Option Chars
  pub tool_calls : Option Json
  pub tool_call_id : Option Chars

pub record ChatCompletionRequest (Json : Type 0) : Type 0 where
  pub model : String
  pub messages : List (ChatMessage Json)
  pub max_tokens : Option ℕ
  pub max_completion_tokens : Option ℕ
  pub stop : Option Json
  pub tools : Option Json
  pub tool_choice : Option Json
  pub response_format : Option Json

pub data CostStatus : Type 0 where
  exact estimated unknown : CostStatus

pub data OutputLimitSource : Type 0 where
  max_tokens max_completion_tokens default : OutputLimitSource

pub record RequestCost : Type 0 where
  pub input_tokens : ℕ
  pub output_tokens : ℕ
  pub multimodal_tokens : ℕ
  pub total_tokens : ℕ
  pub input_is_exact : Bool
  pub multimodal_is_exact : Bool
  pub output_is_exact : Bool
  pub has_unknown_cost : Bool
  pub output_limit_source : OutputLimitSource
  pub structured_prompt_tokens : ℕ
  pub media_parts : ℕ

unfoldable pub cost_status : RequestCost → CostStatus
cost_status c =
    if c.has_unknown_cost
    then unknown
    else if c.input_is_exact && (c.output_is_exact && c.multimodal_is_exact)
    then exact
    else estimated

-- `"\n".join(chunks)`.
unfoldable pub join_lines : List Chars → Chars
join_lines [] = []
join_lines (c ∷ []) = c
join_lines (c ∷ d ∷ cs) = c ++ (10 ∷ join_lines (d ∷ cs))

-- A list comprehension's or loop's text is kept only where it is not empty.
abbrev pub nonempty : Chars → List Chars
nonempty [] = []
nonempty (c ∷ cs) = (c ∷ cs) ∷ []

abbrev pub text_of : Option Chars → List Chars
text_of none = []
text_of (some t) = nonempty t

-- `part_type == "text" or (part_type is None and "text" in part)`.
abbrev pub is_text : Part → Bool
is_text p = elim (p.kind) [ none ↦ is_some p.text | some k ↦ same k "text" ]

-- The chunks of text and the number of media parts.
unfoldable pub scan_parts : List Part → List Chars × ℕ
scan_parts [] = ([], 0)
scan_parts (p ∷ ps) =
    let (chunks, media) = scan_parts ps in
    if is_text p then (text_of p.text ++ chunks, media) else (chunks, suc media)

abbrev pub scan_content : Content → List Chars × ℕ
scan_content (text t) = (nonempty t, 0)
scan_content (parts ps) = scan_parts ps

module _ {Json : Type 0} where
  unfoldable pub scan_messages : List (ChatMessage Json) → List Chars × ℕ
  unfolding scan_parts
  scan_messages [] = ([], 0)
  scan_messages (m ∷ ms) =
      let (chunks, media) = scan_content m.content in
      let (rest, others) = scan_messages ms in (chunks ++ rest, media + others)

  -- The text and the count of media; the count of text parts is never read.
  unfoldable pub message_text_and_media : List (ChatMessage Json) → Chars × ℕ
  unfolding scan_messages join_lines
  message_text_and_media ms = let (chunks, media) = scan_messages ms in (join_lines chunks, media)

  abbrev pub json_text : (Json → Chars) → Option Json → List Chars
  json_text dumps none = []
  json_text dumps (some j) = nonempty (dumps j)

  unfoldable pub message_fields : (Json → Chars) → List (ChatMessage Json) → List Chars
  message_fields dumps [] = []
  message_fields dumps (m ∷ ms) =
      json_text dumps m.tool_calls
      ++ (text_of m.name ++ (text_of m.tool_call_id ++ message_fields dumps ms))

  unfoldable pub structured_prompt_text : (Json → Chars) → ChatCompletionRequest Json → Chars
  unfolding message_fields join_lines
  structured_prompt_text dumps r = join_lines (
      json_text dumps r.tools
      ++ (json_text dumps r.tool_choice
          ++ (json_text dumps r.response_format
              ++ (json_text dumps r.stop ++ message_fields dumps r.messages))))

  -- The reservation, whether it was stated, and by which field.
  unfoldable pub effective_output_limit :
      ChatCompletionRequest Json → ℕ → ℕ × Bool × OutputLimitSource
  effective_output_limit r default_max_tokens = elim (r.max_completion_tokens) [
    | some completion ↦ (
      max completion (elim (r.max_tokens) [ none ↦ 0 | some n ↦ n ]),
      true,
      max_completion_tokens,
    )
    | none ↦ elim (r.max_tokens) [
      | some n ↦ (n, true, max_tokens)
      | none ↦ (default_max_tokens, false, default)
    ]
  ]

-- A tokenizer's count, or `none` where it raises.
abbrev pub TokenCounter : Type 0
TokenCounter = Chars → Option ℕ

abbrev pub chars_per_token : ℕ
chars_per_token = 4

-- `math.ceil(len(text) / 4)`.
unfoldable pub fallback_tokens : Chars → ℕ
fallback_tokens t = (length t + 3) / chars_per_token

unfoldable pub count_tokens : Chars → Option TokenCounter → ℕ × Bool
unfolding fallback_tokens
count_tokens t none = (fallback_tokens t, false)
count_tokens t (some counter) = elim (counter t) [
  | none ↦ (fallback_tokens t, false)
  | some n ↦ (n, true)
]

-- Nothing structured to count costs nothing, exactly.
unfoldable pub count_structured : Chars → Option TokenCounter → ℕ × Bool
count_structured [] counter = (0, true)
count_structured (c ∷ cs) counter = count_tokens (c ∷ cs) counter

-- The multimodal tokens, and whether some content has no known cost. An estimate of 0 counts as
-- none, as in Python's test.
unfoldable pub media_cost : ℕ → Option ℕ → ℕ × Bool
media_cost zero estimate = (0, false)
media_cost (suc n) none = (0, true)
media_cost (suc n) (some zero) = (0, true)
media_cost (suc n) (some (suc e)) = (suc n * suc e, false)

abbrev pub is_zero : ℕ → Bool
is_zero zero = true
is_zero (suc n) = false

unfoldable pub estimate_request_cost :
    {Json : Type 0}
    → (Json → Chars)
    → ChatCompletionRequest Json
    → Option TokenCounter
    → Option ℕ
    → ℕ
    → RequestCost
unfolding message_text_and_media structured_prompt_text effective_output_limit count_tokens
    count_structured media_cost
estimate_request_cost dumps r counter multimodal_token_estimate default_max_tokens =
    let (body, media) = message_text_and_media r.messages in
    let (text_tokens, text_is_exact) = count_tokens body counter in
    let (structured, structured_is_exact) =
      count_structured (structured_prompt_text dumps r) counter in
    let (output, output_is_exact, source) = effective_output_limit r default_max_tokens in
    let (multimodal, unpriced) = media_cost media multimodal_token_estimate in
    record {
      input_tokens = text_tokens + structured;
      output_tokens = output;
      multimodal_tokens = multimodal;
      total_tokens = text_tokens + structured + output + multimodal;
      input_is_exact = text_is_exact && structured_is_exact;
      multimodal_is_exact = is_zero media;
      output_is_exact = output_is_exact;
      has_unknown_cost = unpriced;
      output_limit_source = source;
      structured_prompt_tokens = structured;
      media_parts = media;
    }

-- The cost of a bare prompt, as `/v1/generate` takes it.
unfoldable pub estimate_prompt_cost : Chars → Option ℕ → Option TokenCounter → ℕ → RequestCost
unfolding count_tokens
estimate_prompt_cost prompt stated counter default_max_tokens =
    let (input, input_is_exact) = count_tokens prompt counter in
    let output : ℕ = elim stated [ none ↦ default_max_tokens | some n ↦ n ] in
    record {
      input_tokens = input;
      output_tokens = output;
      multimodal_tokens = 0;
      total_tokens = input + output;
      input_is_exact = input_is_exact;
      multimodal_is_exact = true;
      output_is_exact = is_some stated;
      has_unknown_cost = false;
      output_limit_source = elim stated [ none ↦ default | some _ ↦ max_tokens ];
      structured_prompt_tokens = 0;
      media_parts = 0;
    }
