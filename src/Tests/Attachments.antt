-- ===== src/Tests/Attachments.antt =====
-- An ATTACH of a document with one table.
use duckdb_coda.Prelude.{◌≡◌, refl, ok, returned, none, [], ◌∷◌, arith}
use duckdb_coda.Text.{Text, codes, text_eq}
use duckdb_coda.Sdk.{normalize_api_base}
use duckdb_coda.Attach.{
  resource_of, strip_prefix, boolean_option, get_option, lookup_secret, host_error, find_credential,
  resolve_attach, host_get_attach_option, host_lookup_secret, resolve_attach_config,
}
use duckdb_coda.Load.Paging.{no_table, and_table, last_tables}
use duckdb_coda.Catalog.{lookup_entry}
use duckdb_coda.Catalog.Names.{last_named}
use duckdb_coda.Catalog.Attached.{filled, attach, attach-TablePages}
use duckdb_coda.Extension.Options.{read_secret}
use duckdb_coda.Tests.Document.{db, caseless}
use duckdb_coda.Tests.Loads.{api, tables_page, tables_answer, columns_load, loaded}
use duckdb_coda.Tests.Secrets.{attached, context}

resolves : resolve_attach_config db api context (codes "coda:doc") ≡ ok attached
unfolding resolve_attach_config resolve_attach get_option lookup_secret host_error strip_prefix
    resource_of boolean_option find_credential host_get_attach_option host_lookup_secret text_eq
    normalize_api_base read_secret
resolves = refl

attach-TablePages_example :
    (attach db api 5 2 context (codes "coda:doc") []
      ≡ returned (filled db attached loaded) (codes "grid" ∷ codes "doc" ∷ []))
    × ((name : Text)
        → lookup_entry db name (filled db attached loaded).main_schema
          ≡ last_named db.ci_equals name loaded none)
attach-TablePages_example =
    attach-TablePages db api 5 2 caseless context (codes "coda:doc") resolves
      (last_tables tables_page (tables_answer attached.credential attached.endpoint) refl
        (and_table (columns_load attached.credential attached.endpoint) no_table))
      (omega arith)
