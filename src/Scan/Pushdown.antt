-- ===== src/Scan/Pushdown.antt =====
-- What is pushed into the request of a scan: the second half of src/cpp/rust_bridge_scan.cpp, with
-- `build_equality_query` of src/mutation.rs and the capability tests of src/exports.rs.
pub mod Filters
pub mod Queries
use duckdb_coda.Prelude.{
  ℕ, zero, suc, ◌==◌, ltb, Bool, true, false, not, ◌&&◌, Option, none, some, List, [], ◌∷◌, ◌++◌,
  get_elem?, is_empty, if◌then◌else◌, Result, ok, err,
}
use duckdb_coda.Text.{Text, codes}
use duckdb_coda.Abi.{
  has_capability, column_filter_equality, column_sort_asc, table_row_id, RustExtColumn,
  RustExtInputValue,
}
use duckdb_coda.Duckdb.{Duckdb, ColumnIndex, Exception, not_implemented}
use duckdb_coda.Messages.{
  supports_explicit_transactions, explicit_transaction_not_supported_message, scan_query_label,
  scan_sort_label, scan_limit_label,
}
use duckdb_coda.Table.{RustBridgeTableInfo, RustBridgeColumnInfo, supports}
use duckdb_coda.Platform.{Platform}
use duckdb_coda.Sdk.{decimal}
use duckdb_coda.Mutation.{input_value_json}
use duckdb_coda.Client.{convert}
use duckdb_coda.Scan.State.{RustBridgeScanBindData}

-- The column of a reference: the index of its table, and its place among the scan's columns.
pub record ColumnBinding : Type 0 where
  pub table_index : ℕ
  pub column_index : ℕ

-- The expressions, as far as the filter pushdown tells them apart.
pub data Operand (Value : Type 0) : Type 0 where
  column_ref : ColumnBinding → Operand Value
  constant : Value → Operand Value
  other_operand : Operand Value

pub data FilterExpression (Value : Type 0) : Type 0 where
  compare_equal : Operand Value → Operand Value → FilterExpression Value
  other_filter : FilterExpression Value

-- `get.table_index` and `get.GetColumnIds()`
pub record LogicalGet : Type 0 where
  pub table_index : ℕ
  pub column_ids : List ColumnIndex

-- The column and the constant of a comparison, with its sides swapped if need be.
unfoldable pub sides :
    {Value : Type 0} → Operand Value → Operand Value → Option (ColumnBinding × Value)
sides (column_ref binding) (constant value) = some (binding, value)
sides (constant value) (column_ref binding) = some (binding, value)
sides left right = none

-- The column of the table that a binding stands for.
unfoldable pub bound_column :
    LogicalGet → RustBridgeTableInfo → ColumnBinding → Option RustBridgeColumnInfo
bound_column get table binding =
    if not (binding.table_index == get.table_index)
    then none
    else elim (get_elem? get.column_ids binding.column_index) [
      | none ↦ none
      | some index ↦ if index.is_virtual then none else get_elem? table.columns index.primary_index
    ]

-- `rust_ext_scan_can_filter_equality`
unfoldable pub can_filter_equality : RustExtColumn → Bool
can_filter_equality column = has_capability column.capabilities column_filter_equality

module _ (db : Duckdb) (platform : Platform db.Double) where
  open db use {Value, Double, is_null, row_id_column}
  open platform use {json_text, int_text, uint_text, double_text}

  -- The description of a value in `build_equality_query`, by its type tag.
  unfoldable pub describe : ℕ → RustExtInputValue Double → Text
  describe (suc zero) value = if value.bool_value then codes "true" else codes "false"
  describe (suc (suc zero)) value = int_text value.int_value
  describe (suc (suc (suc zero))) value = uint_text value.uint_value
  describe (suc (suc (suc (suc zero)))) value = double_text value.double_value
  describe (suc (suc (suc (suc (suc zero))))) value = value.string_value
  describe other value = codes "NULL"

  -- `build_equality_query`: the query, and its description.
  unfoldable pub build_equality_query :
      Text → Text → RustExtInputValue Double → Result Text (Text × Text)
  build_equality_query column_id column_name value =
      if value.value_type == 0
      then err (codes "null query value")
      else ok (
        column_id ++ (codes ":" ++ json_text (input_value_json value)),
        column_name ++ (codes " = " ++ describe value.value_type value),
      )

  -- The query of a column that equals a value, if the API can answer it.
  unfoldable pub column_query : RustBridgeColumnInfo → Value → Option (Text × Text)
  column_query column value =
      if not (can_filter_equality column.column)
      then none
      else if is_null value
      then none
      else elim (build_equality_query column.column.id column.column.name (convert db value)) [
        | err message ↦ none
        | ok query ↦ some query
      ]

  unfoldable pub sides_query :
      LogicalGet → RustBridgeTableInfo → Option (ColumnBinding × Value) → Option (Text × Text)
  sides_query get table none = none
  sides_query get table (some (binding, value)) = elim (bound_column get table binding) [
    | none ↦ none
    | some column ↦ column_query column value
  ]

  -- `TryExtractRustBridgeEqualityFilter`
  unfoldable pub try_extract_equality_filter :
      LogicalGet → RustBridgeTableInfo → FilterExpression Value → Option (Text × Text)
  try_extract_equality_filter get table other_filter = none
  try_extract_equality_filter get table (compare_equal left right) =
      sides_query get table (sides left right)

  -- The loop over the filters: the first that can be pushed is taken out.
  unfoldable pub push_filters :
      LogicalGet
      → RustBridgeScanBindData
      → List (FilterExpression Value)
      → RustBridgeScanBindData × List (FilterExpression Value)
  push_filters get bind_data [] = (bind_data, [])
  push_filters get bind_data (filter ∷ filters) =
      let rest = push_filters get bind_data filters in
      elim (try_extract_equality_filter get bind_data.table filter) [
        | none ↦ (rest.0, filter ∷ rest.1)
        | some (query, description) ↦ (
          record bind_data { pushed_query = query; pushed_query_description = description },
          filters,
        )
      ]

  -- `RustBridgeScanPushdownComplexFilter`
  unfoldable pub pushdown_complex_filter :
      LogicalGet
      → RustBridgeScanBindData
      → List (FilterExpression Value)
      → RustBridgeScanBindData × List (FilterExpression Value)
  pushdown_complex_filter get bind_data filters =
      if not (is_empty bind_data.pushed_query)
      then (bind_data, filters)
      else push_filters get bind_data filters

-- `RowGroupOrderOptions`
pub record OrderOptions : Type 0 where
  pub column_idx : ColumnIndex
  pub descending : Bool
  pub row_limit : Option ℕ

-- `rust_ext_scan_sort_by`
unfoldable pub scan_sort_by : RustExtColumn → Option Text
scan_sort_by column =
    if has_capability column.capabilities column_sort_asc then some column.id else none

-- The order and the limit by one column, once they are known to be asked for.
unfoldable pub sort_by_column :
    RustBridgeScanBindData → ℕ → Option RustBridgeColumnInfo → RustBridgeScanBindData
sort_by_column bind_data limit none = bind_data
sort_by_column bind_data limit (some column) = elim (scan_sort_by column.column) [
  | none ↦ bind_data
  | some sort_by ↦ record bind_data { pushed_sort_by = sort_by; pushed_limit = limit }
]

-- `RustBridgeScanSetScanOrder`
unfoldable pub set_scan_order :
    Option OrderOptions → RustBridgeScanBindData → RustBridgeScanBindData
set_scan_order none bind_data = bind_data
set_scan_order (some options) bind_data = elim options.row_limit [
  | none ↦ bind_data
  | some limit ↦
      if options.descending
      then bind_data
      else sort_by_column bind_data limit
          (get_elem? bind_data.table.columns options.column_idx.primary_index)
]

-- `RustBridgeScanToString`, in the order of insertion
unfoldable pub scan_to_string : RustBridgeScanBindData → List (Text × Text)
scan_to_string bind_data =
    (if not (is_empty bind_data.pushed_query)
      then (scan_query_label, bind_data.pushed_query_description) ∷ []
      else [])
    ++ ((if not (is_empty bind_data.pushed_sort_by)
          then (scan_sort_label, bind_data.pushed_sort_by) ∷ []
          else [])
        ++ (if ltb 0 bind_data.pushed_limit
            then (scan_limit_label, decimal bind_data.pushed_limit) ∷ []
            else []))

-- `RustBridgeScanGetRowIdColumns`; `none` is a scan without bind data.
unfoldable pub get_row_id_columns : Duckdb → Option RustBridgeScanBindData → List ℕ
get_row_id_columns db none = db.row_id_column ∷ []
get_row_id_columns db (some bind_data) =
    if not (supports bind_data.table table_row_id) then [] else db.row_id_column ∷ []
