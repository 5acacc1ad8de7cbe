-- ===== src/Scan/Columns.antt =====
-- The columns that a scan has beside those of its table, and its bind data as a value:
-- src/cpp/rust_bridge_scan.cpp and src/include/rust_bridge_scan.hpp, against the entry of the table.
use duckdb_coda.Prelude.{
  ℕ, ◌≡◌, refl, ◌∙◌, Bool, true, Option, none, some, List, [], ◌∷◌, is_empty, if◌then◌else◌,
  Bool-cases, Option-cases, inl, inr,
}
use duckdb_coda.Text.{Text, codes}
use duckdb_coda.Abi.{table_row_id}
use duckdb_coda.Duckdb.{Duckdb, varchar}
use duckdb_coda.Messages.{row_id_column_name}
use duckdb_coda.Platform.{Platform}
use duckdb_coda.Table.{RustBridgeTableInfo, RustBridgeColumnInfo, supports}
use duckdb_coda.Table.Entry.{
  VirtualColumn, scan_bind_data, table_virtual_columns, table_row_id_columns,
}
use duckdb_coda.Scan.State.{RustBridgeScanBindData}
use duckdb_coda.Scan.Pushdown.{
  LogicalGet, FilterExpression, try_extract_equality_filter, push_filters, pushdown_complex_filter,
  OrderOptions, scan_sort_by, sort_by_column, set_scan_order, get_row_id_columns,
}

-- `RustBridgeScanGetVirtualColumns`; `none` is a scan without bind data.
unfoldable pub scan_virtual_columns : Duckdb → Option RustBridgeScanBindData → List VirtualColumn
unfolding supports
scan_virtual_columns db none = (db.row_id_column, row_id_column_name, varchar) ∷ []
scan_virtual_columns db (some bind_data) =
    if supports bind_data.table table_row_id
    then (db.row_id_column, row_id_column_name, varchar) ∷ []
    else []

-- `RustBridgeScanBindData::Copy`
unfoldable pub copy_bind_data : RustBridgeScanBindData → RustBridgeScanBindData
unfolding scan_bind_data
copy_bind_data bind_data = record (scan_bind_data bind_data.table) {
  pushed_query = bind_data.pushed_query;
  pushed_query_description = bind_data.pushed_query_description;
  pushed_sort_by = bind_data.pushed_sort_by;
  pushed_limit = bind_data.pushed_limit;
}

-- `GetFunction`: the name of the function, and that it takes a projection.
abbrev pub scan_function_name : Text
scan_function_name = codes "coda_scan"

unfoldable pub projection_pushdown : Bool
projection_pushdown = true

-- `MaxThreads`
abbrev pub max_threads : ℕ
max_threads = 1

sort_by_column-table :
    (bind_data : RustBridgeScanBindData) (limit : ℕ) (column : Option RustBridgeColumnInfo)
    → (sort_by_column bind_data limit column).table ≡ bind_data.table
unfolding sort_by_column
sort_by_column-table bind_data limit none = refl
sort_by_column-table bind_data limit (some column) =
    elim (Option-cases (scan_sort_by column.column)) [
      | inl unsorted ↦ rw (sort_by_column, unsorted) refl
      | inr (sort_by, sorted) ↦ rw (sort_by_column, sorted) refl
    ]

set_scan_order-table :
    (order : Option OrderOptions) (bind_data : RustBridgeScanBindData)
    → (set_scan_order order bind_data).table ≡ bind_data.table
unfolding set_scan_order
set_scan_order-table none bind_data = refl
set_scan_order-table (some options) bind_data = elim (Option-cases options.row_limit) [
  | inl unlimited ↦ rw (set_scan_order, unlimited) refl
  | inr (limit, limited) ↦ elim (Bool-cases options.descending) [
    | inl descends ↦ rw (set_scan_order, limited, descends) refl
    | inr ascends ↦ rw (set_scan_order, limited, ascends) (sort_by_column-table bind_data limit _)
  ]
]

module _ (db : Duckdb) (platform : Platform db.Double) (get : LogicalGet) where
  open db use {Value}

  push_filters-table :
      (bind_data : RustBridgeScanBindData) (filters : List (FilterExpression Value))
      → (push_filters db platform get bind_data filters).0.table ≡ bind_data.table
  unfolding push_filters
  push_filters-table bind_data [] = refl
  push_filters-table bind_data (filter ∷ filters) =
      elim (Option-cases (try_extract_equality_filter db platform get bind_data.table filter)) [
        | inl kept ↦ rw (push_filters, kept) (push_filters-table bind_data filters)
        | inr (query, pushed) ↦ rw (push_filters, pushed) refl
      ]

  pushdown_complex_filter-table :
      (bind_data : RustBridgeScanBindData) (filters : List (FilterExpression Value))
      → (pushdown_complex_filter db platform get bind_data filters).0.table ≡ bind_data.table
  unfolding pushdown_complex_filter
  pushdown_complex_filter-table bind_data filters =
      elim (Bool-cases (is_empty bind_data.pushed_query)) [
        | inl none_yet ↦
            rw (pushdown_complex_filter, none_yet) (push_filters-table bind_data filters)
        | inr pushed ↦ rw (pushdown_complex_filter, pushed) refl
      ]

  -- The bind data of a table's scan, filters and an order pushed into it, and copied.
  abbrev pub planned :
      RustBridgeTableInfo
      → List (FilterExpression Value)
      → Option OrderOptions
      → RustBridgeScanBindData
  planned table filters order = copy_bind_data (
      set_scan_order order
        (pushdown_complex_filter db platform get (scan_bind_data table) filters).0)

  -- Whatever filters and order are pushed into the scan of a table, and after a copy of its bind data,
  -- the scan has the same virtual columns and the same row id columns as the table's entry.
  pub planned-columns :
      (table : RustBridgeTableInfo) (filters : List (FilterExpression Value))
      (order : Option OrderOptions)
      → (scan_virtual_columns db (some (planned table filters order))
          ≡ table_virtual_columns db table)
        × (get_row_id_columns db (some (planned table filters order))
            ≡ table_row_id_columns db table)
  unfolding scan_virtual_columns get_row_id_columns table_virtual_columns table_row_id_columns
      copy_bind_data scan_bind_data
  planned-columns table filters order =
      let start = scan_bind_data table in
      let same : (set_scan_order order
            (pushdown_complex_filter db platform get start filters).0).table
          ≡ table =
        set_scan_order-table order (pushdown_complex_filter db platform get start filters).0
        ∙ pushdown_complex_filter-table start filters in
      (rw same refl, rw same refl)
