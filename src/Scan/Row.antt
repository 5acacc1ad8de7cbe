-- ===== src/Scan/Row.antt =====
-- One output row of `RustBridgeScan`, column by column.
use duckdb_coda.Prelude.{
  ℕ, suc, ◌==◌, none, some, List, [], ◌∷◌, get_elem?, if◌then◌else◌, Result, ok, err, and_then,
}
use duckdb_coda.Abi.{RustExtRow}
use duckdb_coda.Duckdb.{Duckdb, LogicalTypeId, ColumnIndex, Exception, internal}
use duckdb_coda.Messages.{scan_column_index_out_of_range_message}
use duckdb_coda.Table.{RustBridgeTableInfo}
use duckdb_coda.Cells.{scan_value, scan_value_to_value}
use duckdb_coda.Scan.State.{ScanState}

module _ (db : Duckdb) where
  open db use {Value, null_of, of_text, vector_size, row_id_column}

  -- The value of one output column; `output_type` is `output.data[out_col].GetType()`.
  unfoldable pub column_value :
      RustBridgeTableInfo → RustExtRow → ColumnIndex → LogicalTypeId → Result Exception Value
  column_value table row index output_type =
      if index.is_virtual
      then (if index.primary_index == row_id_column
          then ok (of_text row.id)
          else ok (null_of output_type))
      else elim (get_elem? table.columns index.primary_index) [
        | none ↦ err (internal scan_column_index_out_of_range_message)
        | some column ↦
            ok (scan_value_to_value db (scan_value db column.column row) column.duckdb_type)
      ]

  -- The loop over the output columns, from `out_col` on.
  unfoldable pub row_values :
      RustBridgeTableInfo
      → (ℕ → LogicalTypeId)
      → RustExtRow
      → ℕ
      → List ColumnIndex
      → Result Exception (List Value)
  unfolding column_value
  row_values table output_type row out_col [] = ok []
  row_values table output_type row out_col (index ∷ rest) =
      and_then (column_value table row index (output_type out_col)) (λ value.
        and_then (row_values table output_type row (suc out_col) rest)
          (λ values. ok (value ∷ values)))

  -- A row of the output.
  unfoldable pub output_row :
      {S : Type 0} → (ℕ → LogicalTypeId) → ScanState S → RustExtRow → Result Exception (List Value)
  output_row output_type state row = row_values state.table output_type row 0 state.column_indexes
