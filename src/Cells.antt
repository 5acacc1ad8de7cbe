-- ===== src/Cells.antt =====
-- One cell of a scan: `scan_value` of src/scan.rs reads it from a row, `ScanValueToValue` of
-- src/cpp/rust_bridge_scan.cpp makes a DuckDB value of it.
pub mod Lookup
use duckdb_coda.Prelude.{
  ◌==◌, Bool, true, false, ◌&&◌, ◌||◌, Option, none, some, List, [], ◌∷◌, is_empty, if◌then◌else◌,
}
use duckdb_coda.Text.{Text, codes, text_eq, eq_ignore_ascii_case}
use duckdb_coda.Abi.{
  has_capability, column_system, json_boolean, RustExtColumn, RustExtCell, RustExtRow,
  RustExtScanValue,
}
use duckdb_coda.Duckdb.{Duckdb, LogicalTypeId, boolean, double, varchar}

module _ (db : Duckdb) where
  open db use {
    Value, Double, zero_double, parse_double, null_of, of_text, of_boolean, of_double, cast_as,
  }

  -- `RustExtScanValue::default()`
  abbrev pub null_scan_value : RustExtScanValue Double
  null_scan_value = record {
    is_null = true;
    value_type = 0;
    bool_value = false;
    has_double_value = false;
    double_value = zero_double;
    value = [];
  }

  -- `createdAt` and `updatedAt`, which stand beside the cells of a row
  unfoldable pub system_value : Text → RustExtRow → Text
  system_value column_id row =
      if eq_ignore_ascii_case column_id (codes "createdAt")
      then row.created_at
      else if eq_ignore_ascii_case column_id (codes "updatedAt")
      then row.updated_at
      else []

  unfoldable pub system_scan_value : Text → RustExtScanValue Double
  system_scan_value value =
      if is_empty value
      then null_scan_value
      else record null_scan_value { is_null = false; value_type = 3; value = value }

  -- The number of a cell in a column of doubles.
  unfoldable pub cell_double : RustExtColumn → RustExtCell → Option Double
  cell_double column cell = if column.logical_type == 2 then parse_double cell.value else none

  abbrev pub double_or_default : Option Double → Double
  double_or_default none = zero_double
  double_or_default (some d) = d

  abbrev pub has_double : Option Double → Bool
  has_double none = false
  has_double (some d) = true

  unfoldable pub cell_scan_value : RustExtColumn → RustExtCell → RustExtScanValue Double
  unfolding cell_double
  cell_scan_value column cell =
      if cell.value_type == 0 || cell.value_type == 1 then null_scan_value else record {
        is_null = false;
        value_type = cell.value_type;
        bool_value = (cell.value_type == 2) && text_eq cell.value (codes "true");
        has_double_value = has_double (cell_double column cell);
        double_value = double_or_default (cell_double column cell);
        value = cell.value;
      }

  -- The loop over the cells of a row.
  unfoldable pub find_scan_value : RustExtColumn → List RustExtCell → RustExtScanValue Double
  find_scan_value column [] = null_scan_value
  find_scan_value column (cell ∷ cells) =
      if eq_ignore_ascii_case cell.column_id column.id
      then cell_scan_value column cell
      else find_scan_value column cells

  -- `scan_value`
  unfoldable pub scan_value : RustExtColumn → RustExtRow → RustExtScanValue Double
  scan_value column row =
      if has_capability column.capabilities column_system
      then system_scan_value (system_value column.id row)
      else find_scan_value column row.cells

  -- `Value(value).DefaultCastAs(target_type)` under the `try`
  unfoldable pub cast_or_null : Text → LogicalTypeId → Value
  cast_or_null value target_type = elim (cast_as (of_text value) target_type) [
    | none ↦ null_of target_type
    | some v ↦ v
  ]

  unfoldable pub typed_value : RustExtScanValue Double → LogicalTypeId → Value
  typed_value scan_value varchar = of_text scan_value.value
  typed_value scan_value boolean =
      if scan_value.value_type == json_boolean
      then of_boolean scan_value.bool_value
      else cast_or_null scan_value.value boolean
  typed_value scan_value double =
      if scan_value.has_double_value
      then of_double scan_value.double_value
      else cast_or_null scan_value.value double
  typed_value scan_value target_type = cast_or_null scan_value.value target_type

  -- `ScanValueToValue`
  unfoldable pub scan_value_to_value : RustExtScanValue Double → LogicalTypeId → Value
  scan_value_to_value scan_value target_type =
      if scan_value.is_null then null_of target_type else typed_value scan_value target_type
