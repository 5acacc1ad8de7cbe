-- ===== src/Load.antt =====
-- The requests for the catalog and for the rows of a table: `load_columns`, `load_catalog` and
-- `list_rows` of src/client.rs.
pub mod Paging
pub mod Rows
use duckdb_coda.Prelude.{
  ℕ, zero, suc, Bool, true, false, Option, none, some, List, [], ◌∷◌, ◌++◌, is_empty, if◌then◌else◌,
  Outcome, returned, threw, out_of_fuel, ◌>>=◌, Result, ok, err, and_then,
}
use duckdb_coda.Text.{Text, codes}
use duckdb_coda.Abi.{
  RustExtClientConfig, RustExtColumn, RustExtColumnList, RustExtTable, RustExtTableList,
  RustExtCatalogTable, CodaRowsRequest, CodaRowsResponse,
}
use duckdb_coda.Platform.{Platform, SdkRequest}
use duckdb_coda.Sdk.{endpoint, send_request, non_empty_string}
use duckdb_coda.Json.{table_list_from_json, column_list_from_json, rows_from_json}
use duckdb_coda.Json.Names.{prepare_columns, append_row_metadata}

module _ {Double : Type 0} (platform : Platform Double) (config : RustExtClientConfig) where
  open platform use {World, build_list_rows, build_list_columns, build_list_tables}

  -- A request that is built and sent, and its body read.
  unfoldable pub fetch :
      {A : Type 0} → Result Text SdkRequest → (Text → Result Text A) → World → Result Text A × World
  unfolding send_request
  fetch (err message) read w = (err message, w)
  fetch (ok request) read w =
      let (body, w') = send_request platform config request w in (and_then body read, w')

  -- One page of the columns of a table.
  unfoldable pub fetch_columns : Text → Text → World → Result Text RustExtColumnList × World
  unfolding fetch endpoint non_empty_string column_list_from_json
  fetch_columns table_id page_token w =
      fetch
        (build_list_columns (endpoint platform config) (record {
          doc_id = config.resource;
          table_id_or_name = table_id;
          limit = some 100;
          page_token = non_empty_string page_token;
          visible_only = some false;
        }))
        (column_list_from_json platform) w

  -- One page of the tables of the document.
  unfoldable pub fetch_tables : Text → World → Result Text RustExtTableList × World
  unfolding fetch endpoint non_empty_string table_list_from_json
  fetch_tables page_token w =
      fetch
        (build_list_tables (endpoint platform config) (record {
          doc_id = config.resource;
          limit = some 100;
          page_token = non_empty_string page_token;
        }))
        (table_list_from_json platform) w

  -- The body of the loop of `load_columns`, once the page is there; `continue` goes round again.
  unfoldable pub after_columns :
      (List RustExtColumn → Text → World → Outcome Text World (List RustExtColumn))
      → List RustExtColumn
      → Result Text RustExtColumnList × World
      → Outcome Text World (List RustExtColumn)
  after_columns continue all (err message, w) = threw message w
  after_columns continue all (ok page, w) =
      let rest = continue (all ++ page.items) page.next_page_token w in
      if is_empty page.next_page_token then returned (all ++ page.items) w else rest

  -- The loop of `load_columns`, with the columns so far; the fuel bounds the pages.
  unfoldable pub column_pages :
      ℕ → Text → List RustExtColumn → Text → World → Outcome Text World (List RustExtColumn)
  unfolding fetch_columns after_columns
  column_pages zero table_id all page_token w = out_of_fuel
  column_pages (suc fuel) table_id all page_token w =
      after_columns (column_pages fuel table_id) all (fetch_columns table_id page_token w)

  -- The columns once all pages are there.
  unfoldable pub finish_columns :
      List RustExtColumn → World → Outcome Text World (List RustExtColumn)
  unfolding prepare_columns append_row_metadata
  finish_columns all w =
      elim (prepare_columns
        (if config.include_system_columns then append_row_metadata all else all)) [
          | none ↦ out_of_fuel
          | some columns ↦ returned columns w
        ]

  -- `load_columns`
  unfoldable pub load_columns : ℕ → Text → World → Outcome Text World (List RustExtColumn)
  unfolding column_pages finish_columns
  load_columns fuel table_id w = column_pages fuel table_id [] [] w >>= finish_columns

  -- The loop over the tables of a page, with the tables so far.
  unfoldable pub load_tables :
      ℕ
      → List RustExtCatalogTable
      → List RustExtTable
      → World
      → Outcome Text World (List RustExtCatalogTable)
  unfolding load_columns
  load_tables fuel catalog_tables [] w = returned catalog_tables w
  load_tables fuel catalog_tables (table ∷ tables) w =
      load_columns fuel table.id w >>= (λ columns w'.
        load_tables fuel
          (catalog_tables
            ++ record {
              id = table.id;
              name = table.name;
              capabilities = table.capabilities;
              columns = columns;
            }
              ∷ [])
          tables w')

  -- The end of the body of the loop of `load_catalog`.
  unfoldable pub next_tables :
      (List RustExtCatalogTable → Text → World → Outcome Text World (List RustExtCatalogTable))
      → Text
      → List RustExtCatalogTable
      → World
      → Outcome Text World (List RustExtCatalogTable)
  next_tables continue next all w =
      let rest = continue all next w in if is_empty next then returned all w else rest

  -- The body of the loop of `load_catalog`, once the page is there; `continue` goes round again.
  unfoldable pub after_tables :
      ℕ
      → (List RustExtCatalogTable → Text → World → Outcome Text World (List RustExtCatalogTable))
      → List RustExtCatalogTable
      → Result Text RustExtTableList × World
      → Outcome Text World (List RustExtCatalogTable)
  unfolding load_tables next_tables
  after_tables column_fuel continue catalog_tables (err message, w) = threw message w
  after_tables column_fuel continue catalog_tables (ok page, w) =
      load_tables column_fuel catalog_tables page.items w
      >>= next_tables continue page.next_page_token

  -- The loop of `load_catalog`, with the tables so far; the second fuel bounds the pages.
  unfoldable pub table_pages :
      ℕ
      → ℕ
      → List RustExtCatalogTable
      → Text
      → World
      → Outcome Text World (List RustExtCatalogTable)
  unfolding fetch_tables after_tables
  table_pages column_fuel zero catalog_tables page_token w = out_of_fuel
  table_pages column_fuel (suc fuel) catalog_tables page_token w =
      after_tables column_fuel (table_pages column_fuel fuel) catalog_tables
        (fetch_tables page_token w)

  -- `load_catalog`
  unfoldable pub load_catalog : ℕ → ℕ → World → Outcome Text World (List RustExtCatalogTable)
  unfolding table_pages
  load_catalog column_fuel fuel w = table_pages column_fuel fuel [] [] w

-- `list_rows`
unfoldable pub list_rows :
    {Double : Type 0} (platform : Platform Double)
    → RustExtClientConfig
    → Text
    → CodaRowsRequest
    → platform.World
    → Result Text CodaRowsResponse × platform.World
unfolding fetch endpoint non_empty_string rows_from_json
list_rows platform config table_id request w =
    fetch platform config
      (platform.build_list_rows (endpoint platform config) (record {
        doc_id = config.resource;
        table_id_or_name = table_id;
        query = non_empty_string request.query;
        sort_by = non_empty_string request.sort_by;
        use_column_names = some false;
        value_format = some (codes "simpleWithArrays");
        visible_only = some false;
        limit = some request.limit;
        page_token = non_empty_string request.page_token;
        sync_token = non_empty_string request.sync_token;
      }))
      (rows_from_json platform) w
