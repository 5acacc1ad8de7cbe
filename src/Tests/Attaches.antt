-- ===== src/Tests/Attaches.antt =====
-- An ATTACH without a token, with a secret for all documents.
use duckdb_coda.Prelude.{◌≡◌, refl, true, false, none, some, if◌then◌else◌, ok}
use duckdb_coda.Text.{Text, codes, text_eq}
use duckdb_coda.Sdk.{normalize_api_base}
use duckdb_coda.Attach.{
  RustExtAttachConfig, AttachHost, AttachHostContext, include_row_metadata_option, get_option,
  lookup_secret, host_error, strip_prefix, resource_of, boolean_option, find_credential,
  resolve_attach, host_get_attach_option, host_lookup_secret,
}
use duckdb_coda.Attach.Credential.{Origin, resolve_attach-ok}
use duckdb_coda.Blocks.Attaching.{resolve_attach_raw}
use duckdb_coda.Blocks.Attaching.Released.{Attaches, resolve_attach-Attaches}
use duckdb_coda.Tests.Blocks.{empty_heap}
use duckdb_coda.Tests.Document.{Datum, text, db, platform}

abbrev context : AttachHostContext Datum
context = record {
  options =
      λ name. if text_eq name include_row_metadata_option then some (text (codes "True")) else none;
  secrets = λ scope type.
      ok (if text_eq scope (codes "coda:") then some (λ key. ok (text (codes "abc"))) else none);
}

abbrev host : AttachHost
host = record {
  get_option = host_get_attach_option db context;
  lookup_secret = host_lookup_secret db context;
}

abbrev attached : RustExtAttachConfig
attached = record {
  resource = codes "doc";
  credential = codes "abc";
  endpoint = codes "https://coda.io";
  primary_secret_scope = codes "coda:doc";
  fallback_secret_scope = codes "coda:";
  include_system_columns = true;
}

resolves : resolve_attach platform host (codes "coda:doc") ≡ ok attached
unfolding resolve_attach get_option lookup_secret host_error strip_prefix resource_of boolean_option
    find_credential host_get_attach_option host_lookup_secret text_eq normalize_api_base
resolves = refl

resolve_attach-ok_example :
    (codes "doc" ≡ resource_of (codes "coda:doc"))
    × (false ≡ false)
    × Origin host (codes "doc") (codes "abc")
    × (false ≡ false)
    × (metadata : Text) × (get_option host include_row_metadata_option ≡ ok metadata)
    × (boolean_option metadata ≡ ok true)
resolve_attach-ok_example = resolve_attach-ok platform host (codes "coda:doc") attached resolves

resolve_attach-Attaches_example :
    Attaches empty_heap
      (resolve_attach platform host (codes "coda:doc"))
      (resolve_attach_raw platform host (codes "coda:doc") empty_heap)
resolve_attach-Attaches_example =
    resolve_attach-Attaches platform host (codes "coda:doc") empty_heap
