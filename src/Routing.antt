-- ===== src/Routing.antt =====
-- whooshd/routing.py: which adapter serves a model. The configured registry is the one of Registry;
-- the answer of the external inventory is an argument, with `none` for an exception and for no
-- routes. An adapter's attestation, its name and the texts of the errors are left out, and so are the
-- dispatch of a request to its adapter and the calls that go to every adapter.
pub mod Registry
pub mod Choices
pub mod Validity
pub mod Members
use Prim.Native.String.{String}
use whooshd.Base.{
  ℕ, zero, suc, Bool, true, false, ◌&&◌, ◌||◌, Option, none, some, List, [], ◌∷◌, ◌==◌,
  if◌then◌else◌, not, length, keep, same, truthy, is_some, Dict, lookup, insert, erase, has_key,
}
use whooshd.Routing.Registry.{
  EngineType, mlx_lm, mlx_vlm, llama_cpp, RegistryModelEntry, ModelRegistryConfig, LoadedRegistry,
  no_registry, unusable, loaded,
}

-- What `adapter.model_id()` does.
pub data ModelIdCall : Type 0 where
  raises : ModelIdCall
  returns : Option String → ModelIdCall

pub record InferenceAdapter : Type 0 where
  pub kind : String
  pub model_id : ModelIdCall
  pub max_concurrent_requests : Option ℕ
  pub takes_external_path : Bool  -- it has `set_external_model_path`
  pub external_path : Option String

-- `_adapters`. The other field, `_model_runtime_map`, is only ever emptied.
abbrev pub RuntimeRouter : Type 0
RuntimeRouter = Dict InferenceAdapter

unfoldable pub register : RuntimeRouter → InferenceAdapter → RuntimeRouter
register rt a = insert a.kind a rt

unfoldable pub unregister : RuntimeRouter → String → RuntimeRouter
unregister rt kind = erase kind rt

pub data ResolutionSource : Type 0 where
  authoritative_registry external_route format_heuristic loaded_model_match : ResolutionSource
  configured_stub single_runtime_compatibility stub_only_compatibility : ResolutionSource

pub record RuntimeResolution : Type 0 where
  pub adapter : InferenceAdapter
  pub requested_model_id : String
  pub resolution_source : ResolutionSource
  pub advertised_model_id : String
  pub resolved_model_id : String
  pub execution_mode : String
  pub lane : String
  pub lane_max_concurrent : Option ℕ

-- Why `ModelResolutionError` is raised; `adapter_raised` is an adapter's own exception.
pub data ResolutionError : Type 0 where
  registry_unavailable not_allowed model_disabled runtime_not_enabled : ResolutionError
  route_unavailable not_servable external_runtime_missing : ResolutionError
  no_llama_cpp no_match adapter_raised : ResolutionError

pub data Outcome : Type 0 where
  found : RuntimeResolution → Outcome
  failed : ResolutionError → Outcome

-- `text[:n]` and `text.endswith(tail)`.
abbrev pub take_chars : ℕ → String → String
take_chars zero s = String.[]
take_chars (suc n) String.[] = String.[]
take_chars (suc n) (String.◌∷◌ c s) = String.◌∷◌ c (take_chars n s)

unfoldable pub ends_with : String → String → Bool
ends_with String.[] tail = same String.[] tail
ends_with (String.◌∷◌ c s) tail = same (String.◌∷◌ c s) tail || ends_with s tail

unfoldable pub execution_mode_of : String → String
execution_mode_of kind =
    if same kind "stub"
    then "stub"
    else if same kind "mlx_lm"
    then "in_process"
    else if same kind "mlx_lm_server" || same kind "mlx_vlm"
    then "managed_sidecar"
    else "external_sidecar"

-- `loaded_model_id or model_id`.
abbrev pub resolved_id : String → ModelIdCall → String
resolved_id model_id (returns (some m)) = if truthy m then m else model_id
resolved_id model_id _ = model_id

unfoldable pub resolution : InferenceAdapter → String → ResolutionSource → RuntimeResolution
resolution a model_id source = record {
  adapter = a;
  requested_model_id = model_id;
  resolution_source = source;
  advertised_model_id = model_id;
  resolved_model_id = resolved_id model_id a.model_id;
  execution_mode = execution_mode_of a.kind;
  lane = take_chars 64 a.kind;
  lane_max_concurrent = a.max_concurrent_requests;
}

-- The three engines are all in the table, so the error for another engine is not reached.
abbrev pub kind_of_engine : EngineType → String
kind_of_engine llama_cpp = "llama_cpp"
kind_of_engine mlx_lm = "mlx_lm_server"
kind_of_engine mlx_vlm = "mlx_vlm"

abbrev pub resolution_or :
    String → ResolutionSource → ResolutionError → Option InferenceAdapter → Outcome
resolution_or model_id source err none = failed err
resolution_or model_id source err (some a) = found (resolution a model_id source)

-- What the registry decides; `none` goes on to the next step.
abbrev pub unless_authoritative : Bool → ResolutionError → Option Outcome
unless_authoritative authoritative err = if authoritative then some (failed err) else none

abbrev pub by_entry : RuntimeRouter → Bool → String → Option RegistryModelEntry → Option Outcome
by_entry rt authoritative model_id none = unless_authoritative authoritative not_allowed
by_entry rt authoritative model_id (some e) =
    if not e.enabled
    then unless_authoritative authoritative model_disabled
    else some (
        resolution_or model_id authoritative_registry runtime_not_enabled
          (lookup (kind_of_engine e.engine) rt))

unfoldable pub by_registry : RuntimeRouter → Bool → LoadedRegistry → String → Option Outcome
by_registry rt authoritative no_registry model_id =
    unless_authoritative authoritative registry_unavailable
by_registry rt authoritative unusable model_id =
    unless_authoritative authoritative registry_unavailable
by_registry rt authoritative (loaded reg) model_id =
    by_entry rt authoritative model_id (lookup model_id reg.models)

-- What the external inventory answers for a model that it lists.
pub record ExternalResolution : Type 0 where
  pub servable : Bool
  pub is_route_unavailable : Bool  -- the reason, where it is not servable
  pub runtime : Option String
  pub path : Option String

abbrev pub external_kind : Option String → Option String
external_kind none = none
external_kind (some r) =
    if same r "llama_cpp"
    then some "llama_cpp"
    else if same r "mlx_lm"
    then some "mlx_lm_server"
    else none

-- The adapter object that the router holds is given the path.
abbrev pub with_path : Option String → InferenceAdapter → InferenceAdapter
with_path none a = a
with_path (some p) a =
    if truthy p && a.takes_external_path then record a { external_path = some p } else a

abbrev pub hand_off :
    RuntimeRouter
    → String
    → Option String
    → String
    → Option InferenceAdapter
    → RuntimeRouter × Outcome
hand_off rt model_id path kind none = (rt, failed external_runtime_missing)
hand_off rt model_id path kind (some a) =
    let b = with_path path a in (insert kind b rt, found (resolution b model_id external_route))

abbrev pub hand_off_to :
    RuntimeRouter → String → Option String → Option String → RuntimeRouter × Outcome
hand_off_to rt model_id path none = (rt, failed external_runtime_missing)
hand_off_to rt model_id path (some kind) = hand_off rt model_id path kind (lookup kind rt)

unfoldable pub resolve_external_model :
    RuntimeRouter → String → ExternalResolution → RuntimeRouter × Outcome
resolve_external_model rt model_id x =
    if not x.servable
    then (rt, failed (if x.is_route_unavailable then route_unavailable else not_servable))
    else hand_off_to rt model_id x.path (external_kind x.runtime)

-- The first adapter that has this model loaded, unless one raises before.
abbrev pub has_loaded : String → ModelIdCall → Bool
has_loaded model_id (returns (some m)) = truthy m && same m model_id
has_loaded model_id _ = false

abbrev pub is_raising : ModelIdCall → Bool
is_raising raises = true
is_raising (returns m) = false

unfoldable pub by_loaded_model : RuntimeRouter → String → Option Outcome
by_loaded_model [] model_id = none
by_loaded_model ((k, a) ∷ rt) model_id =
    if is_raising a.model_id
    then some (failed adapter_raised)
    else if has_loaded model_id a.model_id
    then some (found (resolution a model_id loaded_model_match))
    else by_loaded_model rt model_id

abbrev pub stub_of : RuntimeRouter → Option InferenceAdapter
stub_of rt = lookup "stub" rt

abbrev pub by_stub_only : RuntimeRouter → String → Option InferenceAdapter → Outcome
by_stub_only rt model_id none = failed no_match
by_stub_only rt model_id (some a) =
    if length rt == 1
    then found (resolution a model_id stub_only_compatibility)
    else failed no_match

abbrev pub non_stub : RuntimeRouter → RuntimeRouter
non_stub rt = keep (λ e. not (same e.0 "stub")) rt

abbrev pub by_compatibility : RuntimeRouter → String → RuntimeRouter → Outcome
by_compatibility rt model_id ((k, a) ∷ []) =
    found (resolution a model_id single_runtime_compatibility)
by_compatibility rt model_id _ = by_stub_only rt model_id (stub_of rt)

abbrev pub by_configured_stub : RuntimeRouter → String → Option InferenceAdapter → Outcome
by_configured_stub rt model_id none = by_compatibility rt model_id (non_stub rt)
by_configured_stub rt model_id (some a) = found (resolution a model_id configured_stub)

abbrev pub by_default : RuntimeRouter → Bool → String → Outcome
by_default rt stub_backend model_id =
    if stub_backend
    then by_configured_stub rt model_id (stub_of rt)
    else by_compatibility rt model_id (non_stub rt)

abbrev pub or_default : RuntimeRouter → Bool → String → Option Outcome → Outcome
or_default rt stub_backend model_id (some v) = v
or_default rt stub_backend model_id none = by_default rt stub_backend model_id

-- The steps after the registry and the external routes.
unfoldable pub by_heuristics : RuntimeRouter → Bool → String → Outcome
by_heuristics rt stub_backend model_id =
    if ends_with model_id ".gguf"
    then resolution_or model_id format_heuristic no_llama_cpp (lookup "llama_cpp" rt)
    else or_default rt stub_backend model_id (by_loaded_model rt model_id)

abbrev pub unless_external :
    RuntimeRouter → Bool → String → Option ExternalResolution → RuntimeRouter × Outcome
unless_external rt stub_backend model_id none = (rt, by_heuristics rt stub_backend model_id)
unless_external rt stub_backend model_id (some x) = resolve_external_model rt model_id x

abbrev pub unless_decided :
    RuntimeRouter
    → Bool
    → String
    → Option ExternalResolution
    → Option Outcome
    → RuntimeRouter × Outcome
unless_decided rt stub_backend model_id external (some v) = (rt, v)
unless_decided rt stub_backend model_id external none =
    unless_external rt stub_backend model_id external

-- `authoritative` is whether a registry path is configured, `stub_backend` whether the configured
-- adapter is the stub.
unfoldable pub resolve_model_runtime :
    RuntimeRouter
    → Bool
    → LoadedRegistry
    → Bool
    → String
    → Option ExternalResolution
    → RuntimeRouter × Outcome
resolve_model_runtime rt authoritative reg stub_backend model_id external =
    unless_decided rt stub_backend model_id external (by_registry rt authoritative reg model_id)
