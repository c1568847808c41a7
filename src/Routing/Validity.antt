-- ===== src/Routing/Validity.antt =====
-- whooshd/registry.py and whooshd/routing.py: what a registry that passes its validation routes.
use whooshd.Base.{
  ◌≡◌, ◌≢◌, ◌≤◌, ◌⊎◌, inl, inr, refl, sym, ap, subst, ◌∙◌, String, Bool, true, false, ◌&&◌, Option,
  none, some, [], ◌∷◌, ◌==◌, not, Dict, lookup, All, lookup-All, arith, branches, Option-cases,
  none_ne_some,
}
use whooshd.Routing.Registry.{
  EngineType, mlx_lm, mlx_vlm, llama_cpp, ModelFormat, mlx, gguf, RegistryModelEntry,
  ModelRegistryConfig, no_registry, unusable, loaded, RegistryFile, absent, unreadable, parsed,
  RegistryRule, has_vision, is_gguf, is_llama_cpp, is_vision_capable_engine,
  validate_registry_entry, or_first, validate_models, validate_registry, if_valid, read_registry,
  load_registry,
}
use whooshd.Routing.{
  RuntimeRouter, RuntimeResolution, found, resolution, kind_of_engine, ExternalResolution,
  resolve_model_runtime,
}
use whooshd.Routing.Choices.{resolve_model_runtime-IsAllowed_iff}

-- The rules for one entry.
pub record IsEntryValid (e : RegistryModelEntry) : Type 0 where
  pub of_gguf : e.format ≡ gguf → e.engine ≡ llama_cpp
  pub of_mlx : e.format ≡ mlx → e.engine ≢ llama_cpp
  pub of_vision : has_vision e.modalities ≡ true → e.engine ≡ mlx_vlm
  pub of_window : 1 ≤ e.context_window

gguf_rule :
    (f : ModelFormat) (g : EngineType)
    → (is_gguf f && not (is_llama_cpp g)) ≡ false
    → f ≡ gguf
    → g ≡ llama_cpp
gguf_rule gguf llama_cpp h e = refl
gguf_rule gguf mlx_lm h e = absurd (cc)
gguf_rule gguf mlx_vlm h e = absurd (cc)
gguf_rule mlx g h e = absurd (cc)

mlx_rule :
    (f : ModelFormat) (g : EngineType)
    → (not (is_gguf f) && is_llama_cpp g) ≡ false
    → f ≡ mlx
    → g ≢ llama_cpp
mlx_rule mlx llama_cpp h e q = cc
mlx_rule mlx mlx_lm h e q = cc
mlx_rule mlx mlx_vlm h e q = cc
mlx_rule gguf g h e q = cc

vision_rule :
    (b : Bool) (g : EngineType)
    → (b && not (is_vision_capable_engine g)) ≡ false
    → b ≡ true
    → g ≡ mlx_vlm
vision_rule true mlx_vlm h e = refl
vision_rule true mlx_lm h e = absurd (cc)
vision_rule true llama_cpp h e = absurd (cc)
vision_rule false g h e = absurd (cc)

pub validate_registry_entry-IsEntryValid :
    (e : RegistryModelEntry) → validate_registry_entry e ≡ none → IsEntryValid e
unfolding validate_registry_entry
validate_registry_entry-IsEntryValid e =
    branches P (is_gguf e.format && not (is_llama_cpp e.engine)) _ _ (λ t h. absurd (cc))
      (λ a.
        branches P (not (is_gguf e.format) && is_llama_cpp e.engine) _ _ (λ t h. absurd (cc))
          (λ b.
            branches P (has_vision e.modalities && not (is_vision_capable_engine e.engine)) _ _
              (λ t h. absurd (cc))
              (λ c.
                branches P (e.context_window == 0) _ _ (λ t h. absurd (cc))
                  (λ d h. record {
                    of_gguf = gguf_rule e.format e.engine a;
                    of_mlx = mlx_rule e.format e.engine b;
                    of_vision = vision_rule (has_vision e.modalities) e.engine c;
                    of_window = ground arith;
                  }))))
  where
    P : Option RegistryRule → Type 0
    P o = o ≡ none → IsEntryValid e

validate_models-All :
    (d : Dict RegistryModelEntry) → validate_models d ≡ none → All (λ e. IsEntryValid e.1) d
unfolding validate_models
validate_models-All [] h = tt
validate_models-All ((k, e) ∷ d) h = elim (Option-cases (validate_registry_entry e)) [
  | inl n ↦
      (validate_registry_entry-IsEntryValid e n, validate_models-All d (rw (n, or_first) at h))
  | inr (r, n) ↦
      let h' : some (k, r) ≡ none = rw (n, or_first) at h in absurd (none_ne_some (sym h'))
]

-- What a file is loaded as: a loaded registry is the file's, and its entries are valid.
load_registry-valid :
    (file : RegistryFile) (c : ModelRegistryConfig)
    → load_registry no_registry true file ≡ loaded c
    → (file ≡ parsed c) × All (λ e. IsEntryValid e.1) c.models
unfolding load_registry read_registry validate_registry
load_registry-valid absent c h = absurd (cc)
load_registry-valid unreadable c h = absurd (cc)
load_registry-valid (parsed d) c h = elim (Option-cases (validate_models d.models)) [
  | inl n ↦
      let h' : loaded d ≡ loaded c = rw (n, if_valid) at h in
      let e : d ≡ c = cc in
      (
        ap parsed e,
        subst (λ x. All (λ y. IsEntryValid y.1) x.models) e (validate_models-All d.models n),
      )
  | inr (r, n) ↦ let h' : unusable ≡ loaded c = rw (n, if_valid) at h in absurd (cc)
]

-- The adapter is the one of a runtime that can run the entry's model.
abbrev pub Serves : RuntimeRouter → RegistryModelEntry → RuntimeResolution → Type 0
Serves rt e v =
    (e.format ≡ gguf → lookup "llama_cpp" rt ≡ some v.adapter)
    × (e.format ≡ mlx
        → (lookup "mlx_lm_server" rt ≡ some v.adapter) ⊎ (lookup "mlx_vlm" rt ≡ some v.adapter))
    × (has_vision e.modalities ≡ true → lookup "mlx_vlm" rt ≡ some v.adapter)

engine-Serves :
    (rt : RuntimeRouter) (e : RegistryModelEntry) (v : RuntimeResolution)
    → IsEntryValid e
    → lookup (kind_of_engine e.engine) rt ≡ some v.adapter
    → Serves rt e v
engine-Serves rt e v i h = (
  (λ f. subst (λ g. lookup (kind_of_engine g) rt ≡ some v.adapter) (i.of_gguf f) h),
  (λ f. by_engine e.engine (i.of_mlx f) h),
  (λ f. subst (λ g. lookup (kind_of_engine g) rt ≡ some v.adapter) (i.of_vision f) h),
)
  where
    by_engine :
        (g : EngineType)
        → g ≢ llama_cpp
        → lookup (kind_of_engine g) rt ≡ some v.adapter
        → (lookup "mlx_lm_server" rt ≡ some v.adapter) ⊎ (lookup "mlx_vlm" rt ≡ some v.adapter)
    by_engine mlx_lm n h = inl h
    by_engine mlx_vlm n h = inr h
    by_engine llama_cpp n h = absurd (n refl)

-- Where a registry file is configured and read for the first time, a model that is resolved has an
-- enabled entry in that file, and its adapter is the one registered for a runtime that can run it: a
-- GGUF model goes to llama_cpp, an MLX model to mlx_lm_server or mlx_vlm, and a model with vision to
-- mlx_vlm, whatever the external routes and the heuristics say.
pub resolve_model_runtime-Serves :
    (rt : RuntimeRouter) (file : RegistryFile) (stub_backend : Bool) (model_id : String)
    (external : Option ExternalResolution) (v : RuntimeResolution)
    → (resolve_model_runtime rt true
        (load_registry no_registry true file)
        stub_backend
        model_id
        external).1
      ≡ found v
    → (c : ModelRegistryConfig) × (e : RegistryModelEntry) × (file ≡ parsed c)
      × (lookup model_id c.models ≡ some e)
      × (e.enabled ≡ true)
      × Serves rt e v
unfolding resolution
resolve_model_runtime-Serves rt file s m x v h =
    let reg = load_registry no_registry true file in
    let (c, e, a, q, l, t, r, w) = (resolve_model_runtime-IsAllowed_iff rt reg s m x v).1.0 h in
    let (f, valid) = load_registry-valid file c q in
    (
      c,
      e,
      f,
      l,
      t,
      engine-Serves rt e v (lookup-All (λ y. IsEntryValid y.1) m c.models l valid)
          (r ∙ ap (λ y. some y.adapter) (sym w)),
    )
