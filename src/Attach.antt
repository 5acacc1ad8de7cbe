-- ===== src/Attach.antt =====
-- ATTACH: `resolve_attach` of src/attach.rs, and the host that src/cpp/rust_bridge_storage.cpp gives
-- it to read the options of the statement and the secrets.
pub mod Credential
use duckdb_coda.Prelude.{
  ℕ, ◌==◌, Bool, true, false, not, ◌||◌, ◌&&◌, Option, none, some, [], ◌∷◌, ◌++◌, is_empty,
  if◌then◌else◌, Result, ok, err, and_then,
}
use duckdb_coda.Text.{Text, codes, text_eq}
use duckdb_coda.Sdk.{normalize_api_base}
use duckdb_coda.Platform.{Platform}
use duckdb_coda.Duckdb.{Duckdb, Exception, invalid_input}
use duckdb_coda.Messages.{with_context}

-- `RustExtAttachConfig`
pub record RustExtAttachConfig : Type 0 where
  pub resource : Text
  pub credential : Text
  pub endpoint : Text
  pub primary_secret_scope : Text
  pub fallback_secret_scope : Text
  pub include_system_columns : Bool

-- `RustExtAttachHost`, over its user data: an option by its name, and a secret by its scope, type
-- and key.
pub record AttachHost : Type 0 where
  pub get_option : Text → Result Text Text
  pub lookup_secret : Text → Text → Text → Result Text Text

-- The names of src/constants.rs.
abbrev pub secret_type : Text
secret_type = codes "coda"

abbrev pub secret_scope_prefix : Text
secret_scope_prefix = codes "coda:"

abbrev pub token_option : Text
token_option = codes "token"

abbrev pub api_base_option : Text
api_base_option = codes "api_base"

abbrev pub include_row_metadata_option : Text
include_row_metadata_option = codes "include_row_metadata"

-- An error of the host, or a message of one's own if it has none.
unfoldable pub host_error : Text → Result Text Text → Result Text Text
host_error message (ok value) = ok value
host_error message (err e) = err (if is_empty e then message else e)

-- `get_option`
unfoldable pub get_option : AttachHost → Text → Result Text Text
get_option host name = host_error (codes "host attach option failed") (host.get_option name)

-- `lookup_secret`
unfoldable pub lookup_secret : AttachHost → Text → Result Text Text
lookup_secret host scope =
    host_error (codes "host secret lookup failed")
      (host.lookup_secret scope secret_type token_option)

-- `str::strip_prefix`
unfoldable pub strip_prefix : Text → Text → Option Text
strip_prefix [] text = some text
strip_prefix (c ∷ prefix) [] = none
strip_prefix (c ∷ prefix) (d ∷ text) =
    let rest = strip_prefix prefix text in if c == d then rest else none

unfoldable pub resource_of : Text → Text
resource_of path = elim (strip_prefix secret_scope_prefix path) [
  | none ↦ path
  | some resource ↦ resource
]

-- The texts that a Boolean option may have.
unfoldable pub boolean_option : Text → Result Text Bool
boolean_option value =
    if is_empty value
      || text_eq value (codes "false")
      || text_eq value (codes "FALSE")
      || text_eq value (codes "False")
      || text_eq value (codes "0")
    then ok false
    else if text_eq value (codes "true")
        || text_eq value (codes "TRUE")
        || text_eq value (codes "True")
        || text_eq value (codes "1")
    then ok true
    else err (codes "invalid boolean attach option")

-- The credential: that of the option, or the secret of the document, or that of all documents.
unfoldable pub find_credential : AttachHost → Text → Text → Result Text Text
find_credential host resource credential =
    if not (is_empty credential)
    then ok credential
    else and_then (lookup_secret host (secret_scope_prefix ++ resource)) (λ secret.
      if not (is_empty secret)
      then ok secret
      else and_then (lookup_secret host secret_scope_prefix)
          (λ fallback. if is_empty fallback then err (codes "missing credential") else ok fallback))

-- `resolve_attach`
unfoldable pub resolve_attach :
    {Double : Type 0} → Platform Double → AttachHost → Text → Result Text RustExtAttachConfig
resolve_attach platform host path = and_then (get_option host token_option) (λ credential.
    and_then (get_option host api_base_option) (λ endpoint.
      and_then (get_option host include_row_metadata_option) (λ metadata.
        if is_empty (resource_of path)
        then err (codes "empty doc id")
        else and_then (boolean_option metadata) (λ include_system_columns.
          and_then (find_credential host (resource_of path) credential) (λ found. ok (record {
            resource = resource_of path;
            credential = found;
            endpoint =
                normalize_api_base
                  (if is_empty endpoint then platform.default_base_url else endpoint);
            primary_secret_scope = secret_scope_prefix ++ resource_of path;
            fallback_secret_scope = secret_scope_prefix;
            include_system_columns = include_system_columns;
          }))))))

-- What the callbacks read of DuckDB: the options of the ATTACH, and a secret by its scope and type,
-- whose values are read by their key. An error is an exception of DuckDB, with its message.
pub record AttachHostContext (Value : Type 0) : Type 0 where
  pub options : Text → Option Value
  pub secrets : Text → Text → Result Text (Option (Text → Result Text Value))

-- `HostGetAttachOption`
unfoldable pub host_get_attach_option :
    (db : Duckdb) → AttachHostContext db.Value → Text → Result Text Text
host_get_attach_option db context name = elim (context.options name) [
  | none ↦ ok []
  | some value ↦ if db.is_null value then ok [] else ok (db.value_to_string value)
]

-- `HostLookupSecret`
unfoldable pub host_lookup_secret :
    (db : Duckdb) → AttachHostContext db.Value → Text → Text → Text → Result Text Text
host_lookup_secret db context scope type key = and_then (context.secrets scope type) (λ found.
    elim found [
      | none ↦ ok []
      | some try_get_value ↦ and_then (try_get_value key) (λ value. ok (db.value_to_string value))
    ])

-- `ResolveAttachConfig`
unfoldable pub resolve_attach_config :
    (db : Duckdb)
    → Platform db.Double
    → AttachHostContext db.Value
    → Text
    → Result Exception RustExtAttachConfig
resolve_attach_config db platform context path =
    elim (resolve_attach platform
      (record {
        get_option = host_get_attach_option db context;
        lookup_secret = host_lookup_secret db context;
      })
      path) [
        | ok config ↦ ok config
        | err message ↦
            err
              (invalid_input (with_context (codes "failed to resolve Coda attach config") message))
      ]
