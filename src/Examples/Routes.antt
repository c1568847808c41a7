-- ===== src/Examples/Routes.antt =====
-- Models that are routed by a registry and without one.
use whooshd.Base.{same, ◌≡◌, ◌↔◌, refl, String, true, false, none, some, [], ◌∷◌, lookup}
use whooshd.Routing.{
  by_registry, InferenceAdapter, returns, RuntimeRouter, RuntimeResolution, found, resolution,
  authoritative_registry, resolve_model_runtime,
}
use whooshd.Routing.Choices.{IsAllowed, resolve_model_runtime-IsAllowed_iff}
use whooshd.Routing.Members.{Keeps, resolve_model_runtime-IsRouter}
use whooshd.Routing.Registry.{
  has_vision, validate_registry_entry, validate_models, validate_registry, read_registry, llama_cpp,
  gguf, text, RegistryModelEntry, ModelRegistryConfig, loaded, no_registry, parsed, load_registry,
}
use whooshd.Routing.Validity.{Serves, resolve_model_runtime-Serves}

abbrev adapter : String → InferenceAdapter
adapter kind = record {
  kind = kind;
  model_id = returns (some "m.gguf");
  max_concurrent_requests = some 1;
  takes_external_path = true;
  external_path = none;
}

abbrev two_runtimes : RuntimeRouter
two_runtimes = ("llama_cpp", adapter "llama_cpp") ∷ ("stub", adapter "stub") ∷ []

abbrev quantised : RegistryModelEntry
quantised = record {
  engine = llama_cpp;
  format = gguf;
  modalities = text ∷ [];
  context_window = 4096;
  enabled = true;
}

abbrev catalogue : ModelRegistryConfig
catalogue = record { models = ("m", quantised) ∷ [] }

abbrev chosen_route : RuntimeResolution
chosen_route = resolution (adapter "llama_cpp") "m" authoritative_registry

resolve_model_runtime-IsAllowed_iff_example :
    ((resolve_model_runtime two_runtimes true (loaded catalogue) true "m" none).0 ≡ two_runtimes)
    × (((resolve_model_runtime two_runtimes true (loaded catalogue) true "m" none).1
          ≡ found chosen_route)
        ↔ IsAllowed two_runtimes (loaded catalogue) "m" chosen_route)
resolve_model_runtime-IsAllowed_iff_example =
    resolve_model_runtime-IsAllowed_iff two_runtimes (loaded catalogue) true "m" none chosen_route

resolve_model_runtime-Serves_example :
    (c : ModelRegistryConfig) × (e : RegistryModelEntry) × (parsed catalogue ≡ parsed c)
    × (lookup "m" c.models ≡ some e)
    × (e.enabled ≡ true)
    × Serves two_runtimes e chosen_route
unfolding resolve_model_runtime by_registry load_registry read_registry validate_registry
    validate_models validate_registry_entry has_vision lookup same
resolve_model_runtime-Serves_example =
    resolve_model_runtime-Serves two_runtimes (parsed catalogue) true "m" none chosen_route refl

resolve_model_runtime-IsRouter_example :
    Keeps (resolve_model_runtime two_runtimes false no_registry true "m.gguf" none)
unfolding same
resolve_model_runtime-IsRouter_example =
    resolve_model_runtime-IsRouter two_runtimes (((refl, tt), (tt, tt)), (refl, (refl, tt)))
      "m.gguf" false no_registry true none
