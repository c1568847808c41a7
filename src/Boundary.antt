-- ===== src/Boundary.antt =====
-- whooshd/backend_request_policy.py: the boundary between a chat request as it comes in and what a
-- backend is given. The values of fields are a type `V`; an attribute that is `None` is `none`. The
-- operations of Python's texts and the sorted tuple of a set are parameters. The log line is left out.
pub mod Sanitized
use whooshd.Base.{
  String, Bool, true, false, ◌&&◌, ◌||◌, Option, none, some, List, [], ◌∷◌, ◌++◌, if◌then◌else◌,
  same, is_some, Dict, map, keep,
}

pub record Texts : Type 0 where
  pub lower : String → String  -- `text.lower()`
  pub starts_with : String → String → Bool  -- `text.startswith(prefix)`, the text first
  pub words : String → List String  -- the parts between runs of other characters, without empty ones
  pub is_field_name : String → Bool  -- `_FIELD_NAME_RE.fullmatch`
  pub sorted_set : List String → List String  -- `tuple(sorted(set(values)))`

abbrev pub chat_canonical_fields : List String
chat_canonical_fields =
    "model" ∷ "messages" ∷ "stream" ∷ "temperature" ∷ "top_p" ∷ "max_tokens"
    ∷ "max_completion_tokens" ∷ "stop" ∷ "user" ∷ "tools" ∷ "tool_choice" ∷ "parallel_tool_calls"
    ∷ "response_format" ∷ "seed" ∷ "presence_penalty" ∷ "frequency_penalty" ∷ "logit_bias"
    ∷ "logprobs" ∷ "top_logprobs" ∷ "reasoning_effort" ∷ []

abbrev pub internal_control_fields : List String
internal_control_fields = "metadata" ∷ "threadwake" ∷ []

abbrev pub internal_extra_prefixes : List String
internal_extra_prefixes =
    "codexify_" ∷ "whooshd_" ∷ "threadwake" ∷ "routing_" ∷ "route_" ∷ "queue_" ∷ "admission_"
    ∷ "cache_" ∷ "trace_" ∷ "diagnostic_" ∷ "provenance" ∷ "identity_" ∷ "persona_" ∷ "memory_"
    ∷ "retrieval_" ∷ "lifecycle_" ∷ "cancel" ∷ []

abbrev pub inference_extra_prefixes : List String
inference_extra_prefixes =
    "temperature" ∷ "top_" ∷ "max_" ∷ "min_" ∷ "stop" ∷ "seed" ∷ "presence_" ∷ "frequency_"
    ∷ "logit_" ∷ "logprob" ∷ "tool" ∷ "response_" ∷ "reasoning" ∷ "sampling" ∷ "repeat_" ∷ "prompt"
    ∷ "message" ∷ "stream" ∷ "model" ∷ []

abbrev pub inference_words : List String
inference_words =
    "temperature" ∷ "top" ∷ "tokens" ∷ "stop" ∷ "seed" ∷ "tool" ∷ "tools" ∷ "reasoning" ∷ "sampling"
    ∷ "prompt" ∷ "message" ∷ "stream" ∷ "model" ∷ []

abbrev pub stands_in : String → List String → Bool
stands_in x [] = false
stands_in x (y ∷ ys) = same x y || stands_in x ys

-- `text.startswith(prefixes)` with a tuple.
abbrev pub starts_with_any : Texts → String → List String → Bool
starts_with_any t x [] = false
starts_with_any t x (y ∷ ys) = t.starts_with x y || starts_with_any t x ys

abbrev pub any_in : List String → List String → Bool
any_in [] ys = false
any_in (x ∷ xs) ys = stands_in x ys || any_in xs ys

-- The declared extensions of an adapter; an unknown kind is read as `generic`.
unfoldable pub adapter_extensions : String → List String
adapter_extensions kind =
    if same kind "llama_cpp" then "min_p" ∷ "top_k" ∷ "repeat_penalty" ∷ [] else []

unfoldable pub is_internal_extra : Texts → String → Bool
is_internal_extra t name =
    stands_in (t.lower name) internal_control_fields
    || starts_with_any t (t.lower name) internal_extra_prefixes

unfoldable pub is_inference_affecting_extra : Texts → String → Bool
is_inference_affecting_extra t name =
    if stands_in (t.lower name) chat_canonical_fields
      || starts_with_any t (t.lower name) inference_extra_prefixes
    then true
    else any_in (t.words (t.lower name)) inference_words

pub record ChatCompletionRequest (V : Type 0) : Type 0 where
  pub attribute : String → Option V  -- the canonical fields, by their names
  pub metadata : Option V
  pub threadwake : Option V
  pub extra_fields : Dict V

pub record BackendChatRequest (V : Type 0) : Type 0 where
  pub values : List (String × Option V)  -- the canonical fields
  pub extra_fields : Dict V
  pub adapter_kind : String
  pub forwarded_fields : List String
  pub stripped_fields : List String
  pub rejected_fields : List String

pub data ChatRequest (V : Type 0) : Type 0 where
  ingress : ChatCompletionRequest V → ChatRequest V
  backend : BackendChatRequest V → ChatRequest V

pub data PolicyResult (V : Type 0) : Type 0 where
  passed : BackendChatRequest V → PolicyResult V
  policy_error : String → List String → PolicyResult V  -- the adapter's kind, the rejected fields

-- The extra fields as the loop sorts them.
pub record SortedExtras (V : Type 0) : Type 0 where
  pub allowed_extensions : Dict V
  pub forwarded : List String
  pub stripped : List String
  pub rejected : List String

abbrev pub no_extras : {V : Type 0} → SortedExtras V
no_extras = record { allowed_extensions = []; forwarded = []; stripped = []; rejected = [] }

abbrev pub is_declared : Texts → String → String → Bool
is_declared t kind name = stands_in name (adapter_extensions kind) && t.is_field_name name

abbrev pub sort_extra : {V : Type 0} → Texts → String → String → V → SortedExtras V → SortedExtras V
sort_extra t kind name v s =
    if is_declared t kind name
    then record s {
      allowed_extensions = (name, v) ∷ s.allowed_extensions;
      forwarded = name ∷ s.forwarded;
    }
    else if is_internal_extra t name
    then record s { stripped = name ∷ s.stripped }
    else if is_inference_affecting_extra t name
    then record s { rejected = name ∷ s.rejected }
    else record s { stripped = name ∷ s.stripped }

-- The loop over the extra fields; each list is in the order in which the loop appends to it.
unfoldable pub sort_extras : {V : Type 0} → Texts → String → Dict V → SortedExtras V
sort_extras t kind [] = no_extras
sort_extras t kind ((name, v) ∷ d) = sort_extra t kind name v (sort_extras t kind d)

abbrev pub name_if : {V : Type 0} → String → Option V → List String
name_if name none = []
name_if name (some v) = name ∷ []

-- Every adapter has all canonical fields, so the test for them holds of each.
abbrev pub is_forwarded : {V : Type 0} → ChatCompletionRequest V → String → Bool
is_forwarded r name =
    stands_in name ("model" ∷ "messages" ∷ "stream" ∷ []) || is_some (r.attribute name)

abbrev pub backend_request :
    {V : Type 0} → Texts → String → ChatCompletionRequest V → SortedExtras V → BackendChatRequest V
backend_request t kind r s = record {
  values = map (λ name. (name, r.attribute name)) chat_canonical_fields;
  extra_fields = s.allowed_extensions;
  adapter_kind = kind;
  forwarded_fields = t.sorted_set (keep (is_forwarded r) chat_canonical_fields ++ s.forwarded);
  stripped_fields =
      t.sorted_set
        ((name_if "metadata" r.metadata ++ name_if "threadwake" r.threadwake) ++ s.stripped);
  rejected_fields = t.sorted_set s.rejected;
}

-- `if rejected_names: raise`.
abbrev pub unless_rejected :
    {V : Type 0} → String → List String → BackendChatRequest V → PolicyResult V
unless_rejected kind [] b = passed b
unless_rejected kind (x ∷ xs) b = policy_error kind (x ∷ xs)

unfoldable pub sanitize_ingress :
    {V : Type 0} → Texts → String → ChatCompletionRequest V → PolicyResult V
sanitize_ingress t kind r =
    let s = sort_extras t kind r.extra_fields in
    unless_rejected kind (t.sorted_set s.rejected) (backend_request t kind r s)

-- `adapter_kind or "generic"`.
abbrev pub kind_or_generic : Option String → String
kind_or_generic none = "generic"
kind_or_generic (some kind) = if same kind "" then "generic" else kind

unfoldable pub sanitize_chat_request :
    {V : Type 0} → Texts → Option String → ChatRequest V → PolicyResult V
sanitize_chat_request t kind (backend b) = passed b
sanitize_chat_request t kind (ingress r) = sanitize_ingress t (kind_or_generic kind) r
