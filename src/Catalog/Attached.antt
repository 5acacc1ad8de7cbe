-- ===== src/Catalog/Attached.antt =====
-- The catalog of an ATTACH: `RustBridgeAttach` of src/cpp/rust_bridge_storage.cpp, `ListTables` of
-- src/cpp/rust_bridge_client.cpp and the catalog that is filled from it, over `load_catalog` of
-- src/client.rs.
use duckdb_coda.Prelude.{
  ℕ, ◌≤◌, ◌≡◌, refl, Bool, false, none, List, [], ◌∷◌, map, ok, err, Outcome, returned, threw,
  out_of_fuel, ◌>>=◌,
}
use duckdb_coda.Text.{Text, codes}
use duckdb_coda.Messages.{with_context}
use duckdb_coda.Abi.{RustExtCatalogTable, RustExtClientConfig}
use duckdb_coda.Duckdb.{Duckdb, Exception, invalid_input}
use duckdb_coda.Table.{RustBridgeTableInfo}
use duckdb_coda.Platform.{Platform}
use duckdb_coda.Load
use duckdb_coda.Load.Paging.{TablePages, load_catalog-TablePages}
use duckdb_coda.Attach.{RustExtAttachConfig, AttachHostContext, resolve_attach_config}
use duckdb_coda.Catalog.{Entries, load_entries, lookup_entry}
use duckdb_coda.Catalog.Names.{IsCaseless, last_named, lookup_entry-last_named}

-- `RustBridgeAttachConfig::ClientConfig`
unfoldable pub client_config : RustExtAttachConfig → RustExtClientConfig
client_config config = record {
  resource = config.resource;
  credential = config.credential;
  endpoint = config.endpoint;
  include_system_columns = false;
}

-- What the API is asked with.
abbrev pub asked : RustExtAttachConfig → RustExtClientConfig
asked config = record {
  resource = config.resource;
  credential = config.credential;
  endpoint = config.endpoint;
  include_system_columns = config.include_system_columns;
}

-- The types of entries that `Scan` tells apart.
pub data CatalogType : Type 0 where
  table_entry invalid other_type : CatalogType

module _ (db : Duckdb) where
  -- `RustBridgeSchemaCatalogEntry::Scan`, in the order of the map
  unfoldable pub scan_entries : CatalogType → Entries db → List RustBridgeTableInfo
  scan_entries table_entry entries = map (λ entry. entry.1) entries
  scan_entries invalid entries = map (λ entry. entry.1) entries
  scan_entries other_type entries = []

  -- `RustBridgeCatalog`
  pub record RustBridgeCatalog : Type 0 where
    pub attach_config : RustExtAttachConfig
    pub catalog_info : List RustExtCatalogTable
    pub main_schema : Entries db

  -- `RustBridgeCatalog::Client`
  unfoldable pub catalog_client : RustBridgeCatalog → RustExtClientConfig
  unfolding client_config
  catalog_client catalog = client_config catalog.attach_config

  -- `GetDBPath` and `ScanSchemas`
  unfoldable pub get_db_path : RustBridgeCatalog → Text
  get_db_path catalog = catalog.attach_config.resource

  unfoldable pub scan_schemas : RustBridgeCatalog → List (Entries db)
  scan_schemas catalog = catalog.main_schema ∷ []

  -- An error of the Rust side, as the exception that the C++ side throws for it.
  abbrev pub thrown_outcome :
      {A World : Type 0} → Text → Outcome Text World A → Outcome Exception World A
  thrown_outcome context (returned a w) = returned a w
  thrown_outcome context (threw message w) = threw (invalid_input (with_context context message)) w
  thrown_outcome context out_of_fuel = out_of_fuel

  -- The catalog with its tables.
  abbrev pub filled : RustExtAttachConfig → List RustExtCatalogTable → RustBridgeCatalog
  filled attach_config tables = record {
    attach_config = attach_config;
    catalog_info = tables;
    main_schema = load_entries db tables [];
  }

  -- The fuel bounds the pages of the columns of a table, and those of the tables.
  module _ (platform : Platform db.Double) (column_fuel fuel : ℕ) where
    open platform use {World}

    -- `RustBridgeClient::ListTables`
    unfoldable pub list_tables :
        RustExtClientConfig → Bool → World → Outcome Exception World (List RustExtCatalogTable)
    unfolding Load.load_catalog
    list_tables config include_system_columns w =
        thrown_outcome (codes "failed to load Coda catalog") (
          Load.load_catalog platform
            (record config { include_system_columns = include_system_columns }) column_fuel fuel w)

    -- The constructor of the catalog, with `LoadCatalog`.
    unfoldable pub load_catalog_info :
        RustExtAttachConfig → World → Outcome Exception World RustBridgeCatalog
    unfolding list_tables client_config
    load_catalog_info attach_config w =
        list_tables (client_config attach_config) attach_config.include_system_columns w
        >>= (λ tables w'. returned (filled attach_config tables) w')

    -- `RustBridgeAttach`
    unfoldable pub attach :
        AttachHostContext db.Value → Text → World → Outcome Exception World RustBridgeCatalog
    unfolding load_catalog_info
    attach context path w = elim (resolve_attach_config db platform context path) [
      | err e ↦ threw e w
      | ok config ↦ load_catalog_info config w
    ]

    -- Where `CIEquals` is an equivalence, the options of an ATTACH can be resolved and there is fuel for
    -- the pages that the API answers with, asked for that document with that credential, endpoint and
    -- flag, the ATTACH ends with a catalog of those options and of all tables of the pages in order,
    -- which finds under each name the last of those tables with it, up to case.
    pub attach-TablePages :
        (caseless : IsCaseless db.ci_equals) (context : AttachHostContext db.Value) (path : Text)
        {n : ℕ} {w w' : World} {config : RustExtAttachConfig} {tables : List RustExtCatalogTable}
        → resolve_attach_config db platform context path ≡ ok config
        → TablePages platform (asked config) column_fuel n [] w tables w'
        → n ≤ fuel
        → (attach context path w ≡ returned (filled config tables) w')
          × ((name : Text)
              → lookup_entry db name (filled config tables).main_schema
                ≡ last_named db.ci_equals name tables none)
    unfolding attach load_catalog_info list_tables client_config
    attach-TablePages caseless context path {config = config} {tables} resolved pages few = (
      rw
          (
            attach,
            resolved,
            load_catalog_info,
            list_tables,
            client_config,
            load_catalog-TablePages platform (asked config) fuel pages few,
          )
          refl,
      λ name. lookup_entry-last_named db caseless name tables,
    )
