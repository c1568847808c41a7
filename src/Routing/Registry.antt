-- ===== src/Routing/Registry.antt =====
-- whooshd/registry.py: the entries of a model registry and their validation, and how the runtime of
-- whooshd/runtime/__init__.py keeps a registry that it has loaded. Reading the file, the YAML parser
-- and the validation of single fields are one argument: the entries, or `none` for an exception.
use whooshd.Base.{
  ℕ, String, Bool, true, false, ◌&&◌, Option, none, some, List, [], ◌∷◌, if◌then◌else◌, not, Dict,
  ◌==◌,
}

pub data EngineType : Type 0 where
  mlx_lm mlx_vlm llama_cpp : EngineType

pub data ModelFormat : Type 0 where
  mlx gguf : ModelFormat

pub data ModelModality : Type 0 where
  text vision embedding : ModelModality

pub record RegistryModelEntry : Type 0 where
  pub engine : EngineType
  pub format : ModelFormat
  pub modalities : List ModelModality
  pub context_window : ℕ
  pub enabled : Bool

pub record ModelRegistryConfig : Type 0 where
  pub models : Dict RegistryModelEntry

abbrev pub is_gguf : ModelFormat → Bool
is_gguf gguf = true
is_gguf mlx = false

abbrev pub is_llama_cpp : EngineType → Bool
is_llama_cpp llama_cpp = true
is_llama_cpp _ = false

abbrev pub is_vision_capable_engine : EngineType → Bool
is_vision_capable_engine mlx_vlm = true
is_vision_capable_engine _ = false

unfoldable pub has_vision : List ModelModality → Bool
has_vision [] = false
has_vision (vision ∷ ms) = true
has_vision (_ ∷ ms) = has_vision ms

-- The rule that a `RegistryValidationError` names.
pub data RegistryRule : Type 0 where
  gguf_engine mlx_engine vision_engine context_window_positive : RegistryRule

unfoldable pub validate_registry_entry : RegistryModelEntry → Option RegistryRule
validate_registry_entry e =
    if is_gguf e.format && not (is_llama_cpp e.engine)
    then some gguf_engine
    else if not (is_gguf e.format) && is_llama_cpp e.engine
    then some mlx_engine
    else if has_vision e.modalities && not (is_vision_capable_engine e.engine)
    then some vision_engine
    else if e.context_window == 0
    then some context_window_positive
    else none

-- The first entry that breaks a rule, with the rule.
abbrev pub or_first :
    String → Option RegistryRule → Option (String × RegistryRule) → Option (String × RegistryRule)
or_first model_id (some rule) rest = some (model_id, rule)
or_first model_id none rest = rest

unfoldable pub validate_models : Dict RegistryModelEntry → Option (String × RegistryRule)
validate_models [] = none
validate_models ((model_id, e) ∷ d) =
    or_first model_id (validate_registry_entry e) (validate_models d)

unfoldable pub validate_registry : ModelRegistryConfig → Option (String × RegistryRule)
validate_registry reg = validate_models reg.models

-- `_registry` of the runtime, and what `_load_registry` returns: None, False, or a registry.
pub data LoadedRegistry : Type 0 where
  no_registry unusable : LoadedRegistry
  loaded : ModelRegistryConfig → LoadedRegistry

-- What reading the file comes to: no such file, an exception, or the entries.
pub data RegistryFile : Type 0 where
  absent unreadable : RegistryFile
  parsed : ModelRegistryConfig → RegistryFile

abbrev pub if_valid : ModelRegistryConfig → Option (String × RegistryRule) → LoadedRegistry
if_valid reg none = loaded reg
if_valid reg (some rule) = unusable

-- `load_model_registry` with what `_load_registry` makes of it.
unfoldable pub read_registry : Bool → RegistryFile → LoadedRegistry
read_registry explicit absent = if explicit then unusable else no_registry
read_registry explicit unreadable = unusable
read_registry explicit (parsed reg) = if_valid reg (validate_registry reg)

-- From what is kept: a registry and False are returned again, after None the file is read again. What
-- is returned is kept.
unfoldable pub load_registry : LoadedRegistry → Bool → RegistryFile → LoadedRegistry
load_registry no_registry explicit file = read_registry explicit file
load_registry kept explicit file = kept
