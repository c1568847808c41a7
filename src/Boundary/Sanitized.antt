-- ===== src/Boundary/Sanitized.antt =====
-- whooshd/backend_request_policy.py: what crosses the boundary to a backend, and what is refused.
use whooshd.Base.{
  ◌≡◌, ◌↔◌, inl, inr, refl, sym, ap, subst, ◌∙◌, String, Bool, ◌&&◌, not, Option, List, [], ◌∷◌,
  Dict, map, keep, In, Bool-cases,
}
use whooshd.Boundary.{
  Texts, is_declared, is_internal_extra, is_inference_affecting_extra, chat_canonical_fields,
  ChatCompletionRequest, ingress, PolicyResult, passed, policy_error, SortedExtras, sort_extra,
  sort_extras, backend_request, unless_rejected, sanitize_ingress, kind_or_generic,
  sanitize_chat_request,
}

abbrev pub names : {V : Type 0} → Dict V → List String
names [] = []
names ((name, v) ∷ d) = name ∷ names d

-- A field that would change what is inferred, that the adapter does not declare, and that is no
-- control of the broker's own.
abbrev pub is_refused : Texts → String → String → Bool
is_refused t kind name =
    not (is_declared t kind name)
    && (not (is_internal_extra t name) && is_inference_affecting_extra t name)

module _ (t : Texts) (kind : String) {V : Type 0} where
  -- The extra fields that the adapter declares, and the names of the refused ones, in their order.
  abbrev pub declared_fields : Dict V → Dict V
  declared_fields d = keep (λ e. is_declared t kind e.0) d

  abbrev pub refused_fields : Dict V → List String
  refused_fields d = names (keep (λ e. is_refused t kind e.0) d)

  abbrev Sorts : Dict V → SortedExtras V → Type 0
  Sorts d s = (s.allowed_extensions ≡ declared_fields d) × (s.rejected ≡ refused_fields d)

  sort_extra-Sorts :
      (name : String) (v : V) (d : Dict V) (s : SortedExtras V)
      → Sorts d s
      → Sorts ((name, v) ∷ d) (sort_extra t kind name v s)
  unfolding keep
  sort_extra-Sorts name v d s (e, i) = elim (Bool-cases (is_declared t kind name)) [
    | inl a ↦ rw a (ap (λ x. (name, v) ∷ x) e, i)
    | inr a ↦ elim (Bool-cases (is_internal_extra t name)) [
      | inl b ↦ rw (a, b) (e, i)
      | inr b ↦ elim (Bool-cases (is_inference_affecting_extra t name)) [
        | inl c ↦ rw (a, b, c) (e, ap (λ x. name ∷ x) i)
        | inr c ↦ rw (a, b, c) (e, i)
      ]
    ]
  ]

  pub sort_extras-Sorts : (d : Dict V) → Sorts d (sort_extras t kind d)
  unfolding sort_extras keep
  sort_extras-Sorts [] = (refl, refl)
  sort_extras-Sorts ((name, v) ∷ d) =
      sort_extra-Sorts name v d (sort_extras t kind d) (sort_extras-Sorts d)

-- `sorted(set(values))` has the members of the list.
abbrev pub SortsSets : Texts → Type 0
SortsSets t = (x : String) (xs : List String) → In x (t.sorted_set xs) ↔ In x xs

-- A request that passes has no refused field; it carries the declared extensions with their values,
-- and the canonical fields. A refusal names exactly the refused fields, at least one.
abbrev pub Crosses :
    {V : Type 0} → Texts → String → ChatCompletionRequest V → PolicyResult V → Type 0
Crosses t kind r (passed b) =
    (refused_fields t kind r.extra_fields ≡ [])
    × (b.extra_fields ≡ declared_fields t kind r.extra_fields)
    × (b.values ≡ map (λ name. (name, r.attribute name)) chat_canonical_fields)
    × (b.adapter_kind ≡ kind)
Crosses t kind r (policy_error k xs) =
    (k ≡ kind)
    × ((x : String) × In x (refused_fields t kind r.extra_fields))
    × ((x : String) → In x xs ↔ In x (refused_fields t kind r.extra_fields))

no_members→nil : (xs : List String) → ((x : String) → In x xs → ⊥) → xs ≡ []
no_members→nil [] h = refl
no_members→nil (x ∷ xs) h = absurd (h x (inl refl))

unless_rejected-Crosses :
    {V : Type 0} (t : Texts) (kind : String) (r : ChatCompletionRequest V) (s : SortedExtras V)
    (xs : List String)
    → Sorts t kind r.extra_fields s
    → ((x : String) → In x xs ↔ In x s.rejected)
    → Crosses t kind r (unless_rejected kind xs (backend_request t kind r s))
unless_rejected-Crosses t kind r s [] (e, i) h =
    (sym i ∙ no_members→nil s.rejected (λ x. (h x).1), e, refl, refl)
unless_rejected-Crosses t kind r s (x ∷ xs) (e, i) h =
    let m = subst (λ ys. (y : String) → In y (x ∷ xs) ↔ In y ys) i h in
    (refl, (x, (m x).0 (inl refl)), m)

-- The sorted tuple of a set has the members of the list. Then a request that comes in either passes,
-- and no extra field of it is refused, or a policy error names exactly its refused fields, at least
-- one. A field is refused when the adapter does not declare it, it is no control of the broker's own
-- and it would change what is inferred. What passes carries the declared extensions alone, each with
-- its value, and the canonical fields as they came.
pub sanitize_chat_request-Crosses :
    {V : Type 0} (t : Texts) (kind : Option String) (r : ChatCompletionRequest V)
    → SortsSets t
    → Crosses t (kind_or_generic kind) r (sanitize_chat_request t kind (ingress r))
unfolding sanitize_chat_request sanitize_ingress
sanitize_chat_request-Crosses t kind r sorts =
    let k = kind_or_generic kind in
    let s = sort_extras t k r.extra_fields in
    unless_rejected-Crosses t k r s (t.sorted_set s.rejected) (sort_extras-Sorts t k r.extra_fields)
      (λ x. sorts x s.rejected)
