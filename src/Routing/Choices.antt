-- ===== src/Routing/Choices.antt =====
-- whooshd/routing.py and whooshd/registry.py: which adapter a model is given.
use Prim.Native.String.{String}
use whooshd.Base.{
  ◌≡◌, ◌↔◌, refl, sym, ap, subst, ◌∙◌, Bool, true, Option, none, some, not, lookup, arith, branches,
  some_inj, none_ne_some,
}
use whooshd.Routing.Registry.{
  RegistryModelEntry, ModelRegistryConfig, LoadedRegistry, no_registry, unusable, loaded,
}
use whooshd.Routing.{
  unless_decided, InferenceAdapter, RuntimeRouter, unless_decided, RuntimeResolution, Outcome,
  found, failed, resolution, ResolutionError, not_allowed, model_disabled, kind_of_engine,
  authoritative_registry, by_registry, ExternalResolution, resolve_model_runtime, resolution_or,
  runtime_not_enabled, by_entry,
}

-- The model's entry is enabled in the loaded registry, the runtime of its engine is registered, and
-- the resolution is for that runtime's adapter.
abbrev pub IsAllowed : RuntimeRouter → LoadedRegistry → String → RuntimeResolution → Type 0
IsAllowed rt reg model_id v =
    (c : ModelRegistryConfig) × (e : RegistryModelEntry) × (a : InferenceAdapter) × (reg ≡ loaded c)
    × (lookup model_id c.models ≡ some e)
    × (e.enabled ≡ true)
    × (lookup (kind_of_engine e.engine) rt ≡ some a)
    × (v ≡ resolution a model_id authoritative_registry)

abbrev Finds : RuntimeRouter → Type 0 → RuntimeResolution → RuntimeRouter × Outcome → Type 0
Finds rt P v r = (r.0 ≡ rt) × ((r.1 ≡ found v) ↔ P)

found_inj : {v w : RuntimeResolution} → found v ≡ found w → v ≡ w
found_inj e = cc

found_ne_failed : {v : RuntimeResolution} {x : ResolutionError} → failed x ≡ found v → ⊥
found_ne_failed e = cc

loaded_inj : {c d : ModelRegistryConfig} → loaded c ≡ loaded d → c ≡ d
loaded_inj e = cc

-- What a loaded registry allows, by its own entries.
abbrev IsListed : RuntimeRouter → ModelRegistryConfig → String → RuntimeResolution → Type 0
IsListed rt c model_id v =
    (e : RegistryModelEntry) × (a : InferenceAdapter) × (lookup model_id c.models ≡ some e)
    × (e.enabled ≡ true)
    × (lookup (kind_of_engine e.engine) rt ≡ some a)
    × (v ≡ resolution a model_id authoritative_registry)

allowed_entry :
    (rt : RuntimeRouter) (c : ModelRegistryConfig) (model_id : String) (v : RuntimeResolution)
    → IsAllowed rt (loaded c) model_id v
    → IsListed rt c model_id v
allowed_entry rt c model_id v (d, e, a, q, l, t, r, h) =
    (e, a, subst (λ x. lookup model_id x.models ≡ some e) (sym (loaded_inj q)) l, t, r, h)

module _ (rt : RuntimeRouter) (c : ModelRegistryConfig) (m : String) (v : RuntimeResolution) where
  Decides : Option Outcome → Type 0
  Decides o = (x : Outcome) × (o ≡ some x) × ((x ≡ found v) ↔ IsListed rt c m v)

  refuses : (x : ResolutionError) → (IsListed rt c m v → ⊥) → Decides (some (failed x))
  unfolding Decides
  refuses x n = (failed x, refl, ((λ e. absurd (found_ne_failed e)), (λ p. absurd (n p))))

  by_runtime-Decides :
      (e : RegistryModelEntry) (o : Option InferenceAdapter)
      → lookup m c.models ≡ some e
      → e.enabled ≡ true
      → lookup (kind_of_engine e.engine) rt ≡ o
      → Decides (some (resolution_or m authoritative_registry runtime_not_enabled o))
  unfolding Decides
  by_runtime-Decides e none h t k = refuses runtime_not_enabled (λ (e', a, l, _, r, _).
      none_ne_some (
        sym k ∙ subst (λ x. lookup (kind_of_engine x.engine) rt ≡ some a) (some_inj (sym l ∙ h)) r))
  by_runtime-Decides e (some a) h t k = (
    found (resolution a m authoritative_registry),
    refl,
    (
      (λ q. (e, a, h, t, k, sym (found_inj q))),
      (λ (e', a', l, _, r, q).
          let same_a = some_inj (
            sym k
            ∙ subst (λ x. lookup (kind_of_engine x.engine) rt ≡ some a') (some_inj (sym l ∙ h))
                r) in
          ap found (ap (λ x. resolution x m authoritative_registry) same_a ∙ sym q)),
    ),
  )

  by_entry-Decides :
      (o : Option RegistryModelEntry) → lookup m c.models ≡ o → Decides (by_entry rt true m o)
  by_entry-Decides none h = refuses not_allowed (λ (e, a, l, _, _, _). none_ne_some (sym h ∙ l))
  by_entry-Decides (some e) h =
      branches Decides (not e.enabled) _ _
        (λ f. refuses model_disabled (λ (e', a, l, t, _, _).
          let on = sym (ap (λ x. x.enabled) (some_inj (sym l ∙ h))) ∙ t in ground arith))
        (λ t. by_runtime-Decides e (lookup (kind_of_engine e.engine) rt) h (ground arith) refl)

-- Where a registry is configured, a model is resolved exactly when the registry could be loaded, it
-- has an enabled entry for the model, and the runtime of the entry's engine is registered; the
-- resolution is for that runtime's adapter, by the registry. Neither the external routes nor any
-- heuristic has a part in it, and the router stays as it is.
pub resolve_model_runtime-IsAllowed_iff :
    (rt : RuntimeRouter) (reg : LoadedRegistry) (stub_backend : Bool) (model_id : String)
    (external : Option ExternalResolution) (v : RuntimeResolution)
    → ((resolve_model_runtime rt true reg stub_backend model_id external).0 ≡ rt)
      × (((resolve_model_runtime rt true reg stub_backend model_id external).1 ≡ found v)
          ↔ IsAllowed rt reg model_id v)
unfolding resolve_model_runtime by_registry Decides
resolve_model_runtime-IsAllowed_iff rt no_registry s m x v =
    (refl, ((λ e. absurd (found_ne_failed e)), (λ (c, e, a, h, _, _, _, _). absurd (cc))))
resolve_model_runtime-IsAllowed_iff rt unusable s m x v =
    (refl, ((λ e. absurd (found_ne_failed e)), (λ (c, e, a, h, _, _, _, _). absurd (cc))))
resolve_model_runtime-IsAllowed_iff rt (loaded c) s m x v =
    through (by_entry-Decides rt c m v (lookup m c.models) refl)
  where
    through :
        Decides rt c m v (by_entry rt true m (lookup m c.models))
        → ((unless_decided rt s m x (by_entry rt true m (lookup m c.models))).0 ≡ rt)
          × (((unless_decided rt s m x (by_entry rt true m (lookup m c.models))).1 ≡ found v)
              ↔ IsAllowed rt (loaded c) m v)
    through (w, e, i) = rw e (
      refl,
      (
        (λ q. let (e, a, l, t, r, h) = i.0 q in (c, e, a, refl, l, t, r, h)),
        (λ p. i.1 (allowed_entry rt c m v p)),
      ),
    )
