-- ===== src/Routing/Members.antt =====
-- whooshd/routing.py: the adapters of a router stand under their own kinds, and a resolution gives
-- one of them.
use whooshd.Base.{
  ◌≡◌, inl, inr, refl, sym, subst, ◌∙◌, String, Bool, true, false, Option, none, some, [], ◌∷◌,
  ◌==◌, not, length, same, lookup, insert, IsDict, IsDict-insert, IsDict-erase, lookup-insert_self,
  All, In, In-keep, All-insert, All-erase, lookup-All, In-lookup, arith, branches,
}
use whooshd.Routing.Registry.{LoadedRegistry, no_registry, unusable, loaded, RegistryModelEntry}
use whooshd.Routing.{
  InferenceAdapter, RuntimeRouter, register, unregister, ResolutionSource, Outcome, found, failed,
  resolution, ResolutionError, not_allowed, model_disabled, authoritative_registry,
  runtime_not_enabled, registry_unavailable, loaded_model_match, stub_only_compatibility,
  single_runtime_compatibility, configured_stub, format_heuristic, no_llama_cpp, kind_of_engine,
  by_registry, by_entry, unless_authoritative, ExternalResolution, resolve_model_runtime,
  resolution_or, with_path, hand_off, hand_off_to, resolve_external_model, external_kind,
  by_loaded_model, is_raising, has_loaded, by_heuristics, by_stub_only, by_compatibility,
  by_configured_stub, or_default, non_stub, ends_with, unless_decided,
}

-- Each kind stands once, over an adapter of that kind.
abbrev pub IsRouter : RuntimeRouter → Type 0
IsRouter rt = IsDict rt × All (λ e. e.1.kind ≡ e.0) rt

pub register-IsRouter :
    (rt : RuntimeRouter) (a : InferenceAdapter) → IsRouter rt → IsRouter (register rt a)
unfolding register
register-IsRouter rt a (d, h) =
    (IsDict-insert a.kind a rt d, All-insert (λ e. e.1.kind ≡ e.0) a.kind a rt refl h)

pub unregister-IsRouter :
    (rt : RuntimeRouter) (kind : String) → IsRouter rt → IsRouter (unregister rt kind)
unfolding unregister
unregister-IsRouter rt kind (d, h) =
    (IsDict-erase kind rt d, All-erase (λ e. e.1.kind ≡ e.0) kind rt h)

-- A resolution gives an adapter that is registered under its own kind.
abbrev pub Registered : RuntimeRouter → Outcome → Type 0
Registered rt (found v) = lookup v.adapter.kind rt ≡ some v.adapter
Registered rt (failed x) = Unit {0}

abbrev pub Keeps : RuntimeRouter × Outcome → Type 0
Keeps r = IsRouter r.0 × Registered r.0 r.1

module _ (rt : RuntimeRouter) (i : IsRouter rt) (m : String) where
  of_lookup :
      (k : String) (a : InferenceAdapter) (s : ResolutionSource)
      → lookup k rt ≡ some a
      → Registered rt (found (resolution a m s))
  unfolding resolution
  of_lookup k a s h =
      subst (λ x. lookup x rt ≡ some a) (sym (lookup-All (λ e. e.1.kind ≡ e.0) k rt h i.1)) h

  of_In :
      (k : String) (a : InferenceAdapter) (s : ResolutionSource)
      → In (k, a) rt
      → Registered rt (found (resolution a m s))
  of_In k a s h = of_lookup k a s (In-lookup k a rt i.0 h)

  resolution_or-Registered :
      (k : String) (o : Option InferenceAdapter) (s : ResolutionSource) (x : ResolutionError)
      → lookup k rt ≡ o
      → Registered rt (resolution_or m s x o)
  resolution_or-Registered k none s x h = tt
  resolution_or-Registered k (some a) s x h = of_lookup k a s h

  abbrev OrRegistered : Option Outcome → Type 0
  OrRegistered none = Unit {0}
  OrRegistered (some v) = Registered rt v

  unless_authoritative-OrRegistered :
      (b : Bool) (x : ResolutionError) → OrRegistered (unless_authoritative b x)
  unless_authoritative-OrRegistered true x = tt
  unless_authoritative-OrRegistered false x = tt

  by_entry-OrRegistered :
      (b : Bool) (o : Option RegistryModelEntry) → OrRegistered (by_entry rt b m o)
  by_entry-OrRegistered b none = unless_authoritative-OrRegistered b not_allowed
  by_entry-OrRegistered b (some e) =
      branches OrRegistered (not e.enabled) _ _
        (λ f. unless_authoritative-OrRegistered b model_disabled)
        (λ t.
          resolution_or-Registered (kind_of_engine e.engine) (lookup (kind_of_engine e.engine) rt)
            authoritative_registry runtime_not_enabled refl)

  by_registry-OrRegistered :
      (b : Bool) (reg : LoadedRegistry) → OrRegistered (by_registry rt b reg m)
  unfolding by_registry
  by_registry-OrRegistered b no_registry = unless_authoritative-OrRegistered b registry_unavailable
  by_registry-OrRegistered b unusable = unless_authoritative-OrRegistered b registry_unavailable
  by_registry-OrRegistered b (loaded reg) = by_entry-OrRegistered b (lookup m reg.models)

  by_loaded_model-OrRegistered :
      (l : RuntimeRouter)
      → ((k : String) (a : InferenceAdapter) → In (k, a) l → In (k, a) rt)
      → OrRegistered (by_loaded_model l m)
  unfolding by_loaded_model
  by_loaded_model-OrRegistered [] h = tt
  by_loaded_model-OrRegistered ((k, a) ∷ l) h =
      branches OrRegistered (is_raising a.model_id) _ _ (λ t. tt)
        (λ f.
          branches OrRegistered (has_loaded m a.model_id) _ _
            (λ t. of_In k a loaded_model_match (h k a (inl refl)))
            (λ n. by_loaded_model-OrRegistered l (λ j b e. h j b (inr e))))

  by_stub_only-Registered :
      (o : Option InferenceAdapter) → lookup "stub" rt ≡ o → Registered rt (by_stub_only rt m o)
  by_stub_only-Registered none h = tt
  by_stub_only-Registered (some a) h =
      branches (Registered rt) (length rt == 1) _ _
        (λ t. of_lookup "stub" a stub_only_compatibility h) (λ f. tt)

  by_compatibility-Registered :
      (l : RuntimeRouter) → l ≡ non_stub rt → Registered rt (by_compatibility rt m l)
  by_compatibility-Registered [] h = by_stub_only-Registered (lookup "stub" rt) refl
  by_compatibility-Registered ((k, a) ∷ []) h =
      of_In k a single_runtime_compatibility
        (In-keep (λ e. not (same e.0 "stub")) rt (subst (λ l. In (k, a) l) h (inl refl))).0
  by_compatibility-Registered (e ∷ f ∷ l) h = by_stub_only-Registered (lookup "stub" rt) refl

  by_configured_stub-Registered :
      (o : Option InferenceAdapter)
      → lookup "stub" rt ≡ o
      → Registered rt (by_configured_stub rt m o)
  by_configured_stub-Registered none h = by_compatibility-Registered (non_stub rt) refl
  by_configured_stub-Registered (some a) h = of_lookup "stub" a configured_stub h

  or_default-Registered :
      (b : Bool) (o : Option Outcome) → OrRegistered o → Registered rt (or_default rt b m o)
  or_default-Registered b (some v) h = h
  or_default-Registered true none h = by_configured_stub-Registered (lookup "stub" rt) refl
  or_default-Registered false none h = by_compatibility-Registered (non_stub rt) refl

  by_heuristics-Registered : (b : Bool) → Registered rt (by_heuristics rt b m)
  unfolding by_heuristics
  by_heuristics-Registered b =
      branches (Registered rt) (ends_with m ".gguf") _ _
        (λ t.
          resolution_or-Registered "llama_cpp" (lookup "llama_cpp" rt) format_heuristic no_llama_cpp
            refl)
        (λ f.
          or_default-Registered b (by_loaded_model rt m)
            (by_loaded_model-OrRegistered rt (λ k a h. h)))

  with_path-kind : (path : Option String) (a : InferenceAdapter) → (with_path path a).kind ≡ a.kind
  with_path-kind none a = refl
  with_path-kind (some p) a = ground arith

  hand_off-Keeps :
      (path : Option String) (k : String) (o : Option InferenceAdapter)
      → lookup k rt ≡ o
      → Keeps (hand_off rt m path k o)
  unfolding resolution
  hand_off-Keeps path k none h = (i, tt)
  hand_off-Keeps path k (some a) h =
      let e = with_path-kind path a ∙ lookup-All (λ e. e.1.kind ≡ e.0) k rt h i.1 in
      let b = with_path path a in
      (
        (IsDict-insert k b rt i.0, All-insert (λ e. e.1.kind ≡ e.0) k b rt e i.1),
        subst (λ x. lookup x (insert k b rt) ≡ some b) (sym e) (lookup-insert_self k b rt),
      )

  hand_off_to-Keeps : (path kind : Option String) → Keeps (hand_off_to rt m path kind)
  hand_off_to-Keeps path none = (i, tt)
  hand_off_to-Keeps path (some k) = hand_off-Keeps path k (lookup k rt) refl

  resolve_external_model-Keeps : (x : ExternalResolution) → Keeps (resolve_external_model rt m x)
  unfolding resolve_external_model
  resolve_external_model-Keeps x =
      branches Keeps (not x.servable) _ _ (λ t. (i, tt))
        (λ f. hand_off_to-Keeps x.path (external_kind x.runtime))

  unless_decided-Keeps :
      (b : Bool) (external : Option ExternalResolution) (o : Option Outcome)
      → OrRegistered o
      → Keeps (unless_decided rt b m external o)
  unless_decided-Keeps b external (some v) h = (i, h)
  unless_decided-Keeps b none none h = (i, by_heuristics-Registered b)
  unless_decided-Keeps b (some x) none h = resolve_external_model-Keeps x

  -- In a router in which each kind stands once, over an adapter of that kind, a resolution keeps that
  -- so; and where it finds an adapter, that is the one which then stands in the router under its own
  -- kind, whichever step found it.
  pub resolve_model_runtime-IsRouter :
      (authoritative : Bool) (reg : LoadedRegistry) (b : Bool)
      (external : Option ExternalResolution)
      → Keeps (resolve_model_runtime rt authoritative reg b m external)
  unfolding resolve_model_runtime
  resolve_model_runtime-IsRouter authoritative reg b external =
      unless_decided-Keeps b external (by_registry rt authoritative reg m)
        (by_registry-OrRegistered authoritative reg)
