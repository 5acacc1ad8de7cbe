-- ===== src/Extension.antt =====
-- Loading the extension, and its secrets: src/cpp/rust_bridge_extension.cpp, and
-- `rust_ext_extension_load` and the messages of src/exports.rs.
pub mod Options
pub mod Token
pub mod Errors
use duckdb_coda.Prelude.{
  ℕ, Bool, true, false, Option, none, some, List, [], ◌∷◌, ◌++◌, is_empty, if◌then◌else◌, Result,
  ok, err, and_then, and_run,
}
use duckdb_coda.Text.{Text, codes, text_eq, eq_ignore_ascii_case}
use duckdb_coda.Duckdb.{Duckdb, Exception, invalid_input}
use duckdb_coda.Messages.{with_context}
use duckdb_coda.Attach.{secret_type, secret_scope_prefix, token_option}

-- The names of src/constants.rs.
abbrev pub extension_name : Text
extension_name = codes "coda"

abbrev pub extension_description : Text
extension_description = codes "DuckDB extension for reading and writing Coda docs"

abbrev pub secret_provider : Text
secret_provider = codes "config"

-- `RustBridgeSecretConfig`
pub record SecretConfig : Type 0 where
  pub provider : Text
  pub extension : Text
  pub default_scope : Text
  pub secret_key : Text

-- `SecretConfigs()`, by the type of the secret.
abbrev pub SecretConfigs : Type 0
SecretConfigs = List (Text × SecretConfig)

unfoldable pub find_config : Text → SecretConfigs → Option SecretConfig
unfolding text_eq
find_config type [] = none
find_config type ((key, config) ∷ rest) =
    if text_eq key type then some config else find_config type rest

-- `SecretConfigs()[secret_type] = ...`
unfoldable pub put_config : Text → SecretConfig → SecretConfigs → SecretConfigs
unfolding text_eq
put_config type config [] = (type, config) ∷ []
put_config type config ((key, old) ∷ rest) =
    if text_eq key type then (key, config) ∷ rest else (key, old) ∷ put_config type config rest

-- `SecretType` and `CreateSecretFunction` of DuckDB, as far as the extension fills them.
pub record SecretType : Type 0 where
  pub name : Text
  pub default_provider : Text
  pub extension : Text

pub record CreateSecretFunction : Type 0 where
  pub secret_type : Text
  pub provider : Text
  pub named_parameter : Text

-- DuckDB's `ExtensionLoader`. An error is an exception, with its message.
pub record ExtensionLoader : Type 1 where
  pub World : Type 0
  pub set_description : Text → World → Result Text Unit × World
  pub register_secret_type : SecretType → World → Result Text Unit × World
  pub register_function : CreateSecretFunction → World → Result Text Unit × World
  pub register_storage_extension : Text → World → Result Text Unit × World

-- `SecretConfigMissingMessage` and `UnknownSecretParameterMessage`
unfoldable pub secret_config_missing_message : Text → Text
secret_config_missing_message type =
    codes "No Coda secret configuration registered for type: " ++ type

unfoldable pub unknown_secret_parameter_message : Text → Text → Text
unknown_secret_parameter_message type parameter =
    codes "Unknown named parameter for " ++ (type ++ (codes " secret: " ++ parameter))

-- `CanonicalSecretParameterName`; no name is the empty text.
unfoldable pub canonical_secret_parameter_name : Text → Text → Text
unfolding eq_ignore_ascii_case
canonical_secret_parameter_name secret_key parameter_name =
    if eq_ignore_ascii_case secret_key parameter_name then secret_key else []

module _ (loader : ExtensionLoader) where
  open loader use {
    World, set_description, register_secret_type, register_function, register_storage_extension,
  }

  -- The secrets that the extension knows of, and DuckDB.
  abbrev pub LoadState : Type 0
  LoadState = SecretConfigs × World

  -- A call of DuckDB, which leaves the secrets as they are.
  abbrev pub on_world :
      (World → Result Text Unit × World) → LoadState → Result Text Unit × LoadState
  on_world call (configs, w) = let (result, w') = call w in (result, (configs, w'))

  -- `HostSetDescription`
  unfoldable pub host_set_description : Text → LoadState → Result Text Unit × LoadState
  host_set_description description = on_world (set_description description)

  -- The two registrations of `HostRegisterConfigSecret`.
  abbrev pub register_type : Text → SecretConfig → LoadState → Result Text Unit × LoadState
  register_type type config = on_world (
      register_secret_type
        (record { name = type; default_provider = config.provider; extension = config.extension }))

  abbrev pub register_create : Text → SecretConfig → LoadState → Result Text Unit × LoadState
  register_create type config = on_world (
      register_function (record {
        secret_type = type;
        provider = config.provider;
        named_parameter = config.secret_key;
      }))

  -- `HostRegisterConfigSecret`
  unfoldable pub host_register_config_secret :
      Text → SecretConfig → LoadState → Result Text Unit × LoadState
  unfolding put_config
  host_register_config_secret type config (configs, w) =
      and_run (register_type type config (put_config type config configs, w))
        (λ _ s. register_create type config s)

  -- `HostRegisterStorageExtension`
  unfoldable pub host_register_storage_extension : Text → LoadState → Result Text Unit × LoadState
  host_register_storage_extension name = on_world (register_storage_extension name)

  -- A callback of the host that returns false, as the error of the step of the load.
  abbrev pub or_fail : {S : Type 0} → Text → Result Text Unit × S → Result Text Unit × S
  or_fail message (ok _, s) = (ok tt, s)
  or_fail message (err _, s) = (err message, s)

  abbrev pub config_secret : SecretConfig
  config_secret = record {
    provider = secret_provider;
    extension = extension_name;
    default_scope = secret_scope_prefix;
    secret_key = token_option;
  }

  -- The three steps of `rust_ext_extension_load`.
  unfoldable pub set_description_step : LoadState → Result Text Unit × LoadState
  unfolding host_set_description
  set_description_step s =
      or_fail (codes "failed to set extension description")
        (host_set_description extension_description s)

  unfoldable pub register_secret_step : LoadState → Result Text Unit × LoadState
  unfolding host_register_config_secret
  register_secret_step s =
      or_fail (codes "failed to register config secret")
        (host_register_config_secret secret_type config_secret s)

  unfoldable pub register_storage_step : LoadState → Result Text Unit × LoadState
  unfolding host_register_storage_extension
  register_storage_step s =
      or_fail (codes "failed to register storage extension")
        (host_register_storage_extension extension_name s)

  -- `rust_ext_extension_load`
  unfoldable pub extension_load : LoadState → Result Text Unit × LoadState
  unfolding set_description_step register_secret_step register_storage_step
  extension_load s =
      and_run (set_description_step s)
        (λ _ s₁. and_run (register_secret_step s₁) (λ _ s₂. register_storage_step s₂))

  -- The error of the load, as the exception that the C++ side throws for it.
  abbrev pub throw_load : {S : Type 0} → Result Text Unit × S → Result Exception Unit × S
  throw_load (ok _, s) = (ok tt, s)
  throw_load (err message, s) =
      (err (invalid_input (with_context (codes "failed to load Coda extension") message)), s)

  -- `LoadFromRustBridge`
  unfoldable pub load_from_rust_bridge : LoadState → Result Exception Unit × LoadState
  unfolding extension_load
  load_from_rust_bridge s = throw_load (extension_load s)

-- `CreateSecretInput`: the options are in the order that DuckDB iterates them in.
pub record CreateSecretInput (Value : Type 0) : Type 0 where
  pub type : Text
  pub provider : Text
  pub name : Text
  pub scope : List Text
  pub options : List (Text × Value)

-- `KeyValueSecret`
pub record KeyValueSecret (Value : Type 0) : Type 0 where
  pub scope : List Text
  pub type : Text
  pub provider : Text
  pub name : Text
  pub secret_map : List (Text × Value)
  pub redact_keys : List Text

module _ {Value : Type 0} where
  -- `secret_map[key] = value`
  unfoldable pub put_secret : Text → Value → List (Text × Value) → List (Text × Value)
  unfolding text_eq
  put_secret key value [] = (key, value) ∷ []
  put_secret key value ((other, old) ∷ rest) =
      if text_eq other key then (other, value) ∷ rest else (other, old) ∷ put_secret key value rest

module _ (db : Duckdb) where
  open db use {Value, value_to_string, of_text}

  -- The loop over the options of a CREATE SECRET.
  unfoldable pub add_options :
      SecretConfig
      → Text
      → List (Text × Value)
      → List (Text × Value)
      → Result Exception (List (Text × Value))
  unfolding canonical_secret_parameter_name put_secret
  add_options config type [] secret_map = ok secret_map
  add_options config type ((name, value) ∷ options) secret_map =
      let canonical = canonical_secret_parameter_name config.secret_key name in
      let rest =
        add_options config type options
          (put_secret canonical (of_text (value_to_string value)) secret_map) in
      if is_empty canonical
      then err (invalid_input (unknown_secret_parameter_message type name))
      else rest

  -- `CreateConfigSecret`
  unfoldable pub create_config_secret :
      SecretConfigs → CreateSecretInput Value → Result Exception (KeyValueSecret Value)
  unfolding find_config add_options
  create_config_secret configs input = elim (find_config input.type configs) [
    | none ↦ err (invalid_input (secret_config_missing_message input.type))
    | some config ↦ and_then (add_options config input.type input.options []) (λ secret_map.
        ok (record {
          scope = if is_empty input.scope then config.default_scope ∷ [] else input.scope;
          type = input.type;
          provider = input.provider;
          name = input.name;
          secret_map = secret_map;
          redact_keys = config.secret_key ∷ [];
        }))
  ]
