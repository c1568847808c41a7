-- ===== src/Examples/Fields.antt =====
-- A concrete request before the boundary to a backend.
use whooshd.Base.{ℕ, true, none, some, [], ◌∷◌, same}
use whooshd.Boundary.{Texts, ChatCompletionRequest, ingress, kind_or_generic, sanitize_chat_request}
use whooshd.Boundary.Sanitized.{Crosses, sanitize_chat_request-Crosses}

-- Texts of lower case that are one word each.
abbrev plain : Texts
plain = record {
  lower = λ x. x;
  starts_with = same;
  words = λ x. x ∷ [];
  is_field_name = λ x. true;
  sorted_set = λ xs. xs;
}

abbrev question : ChatCompletionRequest ℕ
question = record {
  attribute = λ name. some 1;
  metadata = none;
  threadwake = some 1;
  extra_fields = ("top_k", 40) ∷ ("note", 1) ∷ ("sampling", 2) ∷ [];
}

sanitize_chat_request-Crosses_example :
    Crosses plain
      (kind_or_generic (some "llama_cpp"))
      question
      (sanitize_chat_request plain (some "llama_cpp") (ingress question))
sanitize_chat_request-Crosses_example =
    sanitize_chat_request-Crosses plain (some "llama_cpp") question (λ x xs. ((λ m. m), (λ m. m)))
