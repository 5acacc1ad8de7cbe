-- ===== src/Tests/Secrets.antt =====
-- A secret that is created once the extension is loaded, and an ATTACH with it.
use duckdb_coda.Prelude.{◌≡◌, refl, false, Option, none, some, List, [], ◌∷◌, ok, err, Result}
use duckdb_coda.Text.{Text, codes, text_eq, to_ascii_lower, eq_ignore_ascii_case}
use duckdb_coda.Attach.{secret_type, token_option, AttachHostContext, RustExtAttachConfig}
use duckdb_coda.Extension.{
  SecretConfigs, find_config, put_config, ExtensionLoader, CreateSecretInput, KeyValueSecret,
  config_secret, host_set_description, host_register_config_secret, host_register_storage_extension,
  set_description_step, register_secret_step, register_storage_step, extension_load,
  load_from_rust_bridge, create_config_secret,
}
use duckdb_coda.Extension.Options.{
  read_secret, first_unknown, last_value, Created, create_config_secret-Created,
}
use duckdb_coda.Extension.Token.{load-create}
use duckdb_coda.Messages.{with_context}
use duckdb_coda.Strings.{StringMemory, ErrorState}
use duckdb_coda.Extension.Errors.{failed_load, failed_load-left}
use duckdb_coda.Tests.Document.{Datum, text, db}

-- A DuckDB that takes all, and counts the calls.
abbrev loader : ExtensionLoader
loader = record {
  World = List Text;
  set_description = λ description w. (ok tt, description ∷ w);
  register_secret_type = λ type w. (ok tt, type.name ∷ w);
  register_function = λ function w. (ok tt, function.named_parameter ∷ w);
  register_storage_extension = λ name w. (ok tt, name ∷ w);
}

abbrev configs : SecretConfigs
configs = (secret_type, config_secret loader) ∷ []

abbrev called : List Text
called =
    codes "coda"
    ∷ codes "token"
    ∷ codes "coda"
    ∷ codes "DuckDB extension for reading and writing Coda docs"
    ∷ []

loads : load_from_rust_bridge loader ([], []) ≡ (ok tt, (configs, called))
unfolding load_from_rust_bridge extension_load set_description_step register_secret_step
    register_storage_step host_set_description host_register_config_secret
    host_register_storage_extension put_config
loads = refl

abbrev input : CreateSecretInput Datum
input = record {
  type = secret_type;
  provider = codes "config";
  name = codes "mine";
  scope = [];
  options = (codes "TOKEN", text (codes "abc")) ∷ [];
}

known : first_unknown token_option input.options ≡ none
unfolding first_unknown eq_ignore_ascii_case text_eq to_ascii_lower
known = refl

load-create_example :
    (secret : KeyValueSecret Datum) × (create_config_secret db configs input ≡ ok secret)
    × (read_secret token_option secret.secret_map ≡ last_value db input.options none)
load-create_example = load-create loader db ([], []) (configs, called) input loads refl known

create_config_secret-Created_example :
    Created db (config_secret loader) refl input (create_config_secret db configs input)
create_config_secret-Created_example =
    create_config_secret-Created db (config_secret loader) refl configs input
      (unfold find_config in unfold text_eq in refl)

abbrev secret : KeyValueSecret Datum
secret = record {
  scope = codes "coda:" ∷ [];
  type = secret_type;
  provider = codes "config";
  name = codes "mine";
  secret_map = (codes "token", text (codes "abc")) ∷ [];
  redact_keys = codes "token" ∷ [];
}

abbrev try_get_value : Option Datum → Result Text Datum
try_get_value none = err (codes "no such key")
try_get_value (some value) = ok value

abbrev pub context : AttachHostContext Datum
context = record {
  options = λ name. none;
  secrets = λ scope type. ok (some (λ key. try_get_value (read_secret key secret.secret_map)));
}

abbrev pub attached : RustExtAttachConfig
attached = record {
  resource = codes "doc";
  credential = codes "abc";
  endpoint = codes "https://coda.io";
  primary_secret_scope = codes "coda:doc";
  fallback_secret_scope = codes "coda:";
  include_system_columns = false;
}

abbrev no_error : ErrorState
no_error = record { message = 0; memory = record { last = 0; blocks = [] } }

failed_load-left_example :
    (m : StringMemory) × (failed_load
        (codes "failed to set extension description")
        (codes "no loader")
        no_error
      ≡ some (
        with_context
            (codes "failed to load Coda extension")
            (codes "failed to set extension description"),
        m,
      ))
    × (m.blocks ≡ (1, codes "no loader") ∷ [])
failed_load-left_example =
    failed_load-left (codes "failed to set extension description") (codes "no loader") no_error
