-- ===== src/Tests/Loads.antt =====
-- A catalog read from its JSON: one table with two columns of the same name.
use duckdb_coda.Prelude.{ℕ, ◌≡◌, refl, some, List, [], ◌∷◌, map, ok, returned, arith, if◌then◌else◌}
use duckdb_coda.Text.{Text, codes, text_eq, to_ascii_lower, eq_ignore_ascii_case}
use duckdb_coda.Abi.{
  RustExtClientConfig, RustExtColumn, RustExtCatalogTable, RustExtTableList, RustExtColumnList,
}
use duckdb_coda.Platform.{Platform, Json, string, array, object, nil, cons, end, field}
use duckdb_coda.Sdk.{send_request, read_response, decimal, digits_before}
use duckdb_coda.Json.{
  find_field, get, as_str, as_bool, as_array, as_object, root_items, text_or_empty, flag_or_false,
  text_or_error, table_capabilities, table_from_json, format_field, column_capabilities,
  column_from_json, is_number_format, logical_type, table_list_from_json, column_list_from_json,
}
use duckdb_coda.Json.Names.{
  prepare_columns, prepare_from, free_name, candidate, base_name, rename, is_taken,
}
use duckdb_coda.Json.Names.Prepared.{Apart, nameless, prepare_columns-Apart}
use duckdb_coda.Load.{
  fetch, fetch_columns, fetch_tables, after_columns, column_pages, finish_columns, load_columns,
  load_catalog,
}
use duckdb_coda.Load.Paging.{
  last_columns, all_columns, load_columns-ColumnPages, no_table, and_table, last_tables,
  load_catalog-TablePages,
}
use duckdb_coda.Blocks.Columns.{load_columns_raw}
use duckdb_coda.Blocks.Columns.Released.{Ends, columns_layout, load_columns-Ends}
use duckdb_coda.Blocks.Catalogs.{load_catalog_raw}
use duckdb_coda.Blocks.Catalogs.Released.{catalog_layout, load_catalog-Ends}
use duckdb_coda.Tests.Blocks.{empty_heap}
use duckdb_coda.Tests.Document.{config, platform, name_column}

-- Two columns whose names are equal up to case.
abbrev twins : List RustExtColumn
twins = name_column ∷ record name_column { id = codes "c2"; name = codes "NAME" } ∷ []

prepare_columns-Apart_example :
    (prepared : List RustExtColumn) × (prepare_columns twins ≡ some prepared)
    × Apart prepared
    × (map nameless prepared ≡ map nameless twins)
prepare_columns-Apart_example = prepare_columns-Apart twins

abbrev item : Text → Text → Json ℕ
item id name = object (field (codes "id") (string id) (field (codes "name") (string name) end))

-- An API whose answers are one table, and two columns of one name.
abbrev pub api : Platform ℕ
api = record platform {
  from_str = λ body. ok (
      object (
        field (codes "items")
          (array (
            if text_eq body (codes "doc")
            then cons (item (codes "grid") (codes "People")) nil
            else cons (item (codes "c1") (codes "Name"))
                (cons (item (codes "c2") (codes "NAME")) nil)))
          end));
  http = λ request w. (ok (record { status = 202; into_string = ok request.url }), request.url ∷ w);
}

abbrev column : Text → Text → RustExtColumn
column id name = record {
  id = id;
  name = name;
  type_name = codes "text";
  capabilities = 12;
  logical_type = 0;
}

abbrev columns_page : RustExtColumnList
columns_page = record {
  items = column (codes "c1") (codes "Name") ∷ column (codes "c2") (codes "NAME") ∷ [];
  next_page_token = [];
}

abbrev pub tables_page : RustExtTableList
tables_page = record {
  items = record { id = codes "grid"; name = codes "People"; capabilities = 30 } ∷ [];
  next_page_token = [];
}

-- The same answers whatever the credential and the endpoint.
abbrev pub document : Text → Text → RustExtClientConfig
document credential endpoint = record config { credential = credential; endpoint = endpoint }

columns_answer :
    (credential endpoint : Text) (w : List Text)
    → fetch_columns api (document credential endpoint) (codes "grid") [] w
      ≡ (ok columns_page, codes "grid" ∷ w)
unfolding fetch_columns fetch send_request read_response column_list_from_json root_items
    column_from_json format_field column_capabilities is_number_format logical_type text_or_empty
    flag_or_false text_or_error get as_str as_bool as_array as_object find_field text_eq
    eq_ignore_ascii_case to_ascii_lower
columns_answer credential endpoint w = refl

pub tables_answer :
    (credential endpoint : Text)
    → fetch_tables api (document credential endpoint) [] [] ≡ (ok tables_page, codes "doc" ∷ [])
unfolding fetch_tables fetch send_request read_response table_list_from_json root_items
    table_from_json table_capabilities text_or_empty text_or_error get as_str as_array find_field
    text_eq eq_ignore_ascii_case to_ascii_lower
tables_answer credential endpoint = refl

load_columns-ColumnPages_example :
    (columns : List RustExtColumn) × (load_columns api config 5 (codes "grid") []
      ≡ returned columns (codes "grid" ∷ []))
    × Apart columns
    × (map nameless columns ≡ map nameless (all_columns api config columns_page.items))
load_columns-ColumnPages_example =
    load_columns-ColumnPages api config 5
      (last_columns columns_page (columns_answer config.credential config.endpoint []) refl)
      (omega arith)

abbrev pub loaded_columns : List RustExtColumn
loaded_columns = column (codes "c1") (codes "Name") ∷ column (codes "c2") (codes "NAME_2") ∷ []

pub columns_load :
    (credential endpoint : Text)
    → load_columns api (document credential endpoint) 5 (codes "grid") (codes "doc" ∷ [])
      ≡ returned loaded_columns (codes "grid" ∷ codes "doc" ∷ [])
unfolding load_columns column_pages after_columns finish_columns fetch_columns fetch send_request
    read_response column_list_from_json root_items column_from_json format_field column_capabilities
    is_number_format logical_type text_or_empty flag_or_false text_or_error get as_str as_bool
    as_array as_object find_field text_eq eq_ignore_ascii_case to_ascii_lower prepare_columns
    prepare_from free_name candidate is_taken base_name rename decimal digits_before
columns_load credential endpoint = refl

abbrev pub loaded : List RustExtCatalogTable
loaded =
    record { id = codes "grid"; name = codes "People"; capabilities = 30; columns = loaded_columns }
    ∷ []

load_catalog-TablePages_example :
    load_catalog api config 5 2 [] ≡ returned loaded (codes "grid" ∷ codes "doc" ∷ [])
load_catalog-TablePages_example =
    load_catalog-TablePages api config 2
      (last_tables tables_page (tables_answer config.credential config.endpoint) refl
        (and_table (columns_load config.credential config.endpoint) no_table))
      (omega arith)

load_columns-Ends_example :
    Ends api config columns_layout empty_heap
      (load_columns api config 2 (codes "grid") [])
      (load_columns_raw api config 2 (codes "grid") [] empty_heap)
load_columns-Ends_example = load_columns-Ends api config 2 (codes "grid") [] empty_heap

load_catalog-Ends_example :
    Ends api config catalog_layout empty_heap
      (load_catalog api config 2 2 [])
      (load_catalog_raw api config 2 2 [] empty_heap)
load_catalog-Ends_example = load_catalog-Ends api config 2 2 [] empty_heap
