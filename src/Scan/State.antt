-- ===== src/Scan/State.antt =====
-- The state of a scan, `RustBridgeScanGlobalState` of src/cpp/rust_bridge_scan.cpp, with the
-- bind data of src/include/rust_bridge_scan.hpp that it starts from.
use duckdb_coda.Prelude.{
  ℕ, suc, ◌-◌, ◌==◌, ltb, min, Bool, true, false, not, ◌&&◌, none, some, List, [], ◌∷◌, get_elem?,
  is_empty, if◌then◌else◌, Outcome, returned, threw, out_of_fuel, Result, ok, err, and_then,
}
use duckdb_coda.Text.{Text, codes}
use duckdb_coda.Abi.{RustExtScanBatch, RustExtScanRequest}
use duckdb_coda.Duckdb.{
  ColumnIndex, ClientContext, Exception, invalid_input, not_implemented, out_of_bounds,
}
use duckdb_coda.Messages.{
  with_context, supports_explicit_transactions, explicit_transaction_not_supported_message,
}
use duckdb_coda.Table.{RustBridgeTableInfo}

pub record RustBridgeScanBindData : Type 0 where
  pub table : RustBridgeTableInfo
  pub pushed_query : Text
  pub pushed_query_description : Text
  pub pushed_sort_by : Text
  pub pushed_limit : ℕ

-- The constructor's request: the pushed limit bounds a page, at most 500 rows.
unfoldable pub scan_request : RustBridgeScanBindData → RustExtScanRequest
scan_request bind_data = record {
  filter = bind_data.pushed_query;
  order = bind_data.pushed_sort_by;
  limit = if bind_data.pushed_limit == 0 then 500 else min bind_data.pushed_limit 500;
}

-- `input.column_indexes[projection_id]` for each projected column
unfoldable pub projected_columns : List ColumnIndex → List ℕ → Result Exception (List ColumnIndex)
projected_columns indexes [] = ok []
projected_columns indexes (projection_id ∷ rest) = elim (get_elem? indexes projection_id) [
  | none ↦ err out_of_bounds
  | some index ↦ and_then (projected_columns indexes rest) (λ columns. ok (index ∷ columns))
]

unfoldable pub scan_columns : List ColumnIndex → List ℕ → Result Exception (List ColumnIndex)
unfolding projected_columns
scan_columns column_indexes projection_ids =
    if not (is_empty projection_ids)
    then projected_columns column_indexes projection_ids
    else ok column_indexes

-- `RustBridgeScanGlobalState`; `scan` is the state of the source behind the handle.
pub record ScanState (S : Type 0) : Type 0 where
  pub table : RustBridgeTableInfo
  pub column_indexes : List ColumnIndex
  pub scan : S
  pub rows : RustExtScanBatch
  pub row_offset : ℕ
  pub remaining_rows : ℕ
  pub finished : Bool

-- The state that the constructor leaves, once the scan is open.
unfoldable pub open_state :
    {S : Type 0} → RustBridgeScanBindData → List ColumnIndex → S → ScanState S
open_state bind_data column_indexes scan = record {
  table = bind_data.table;
  column_indexes = column_indexes;
  scan = scan;
  rows = record { rows = []; finished = false };
  row_offset = 0;
  remaining_rows = bind_data.pushed_limit;
  finished = false;
}

-- `RustBridgeScanInitGlobal`, with the guard before the constructor; `scan` is the opened scan.
unfoldable pub init_global :
    {S : Type 0}
    → ClientContext
    → RustBridgeScanBindData
    → List ColumnIndex
    → List ℕ
    → S
    → Result Exception (ScanState S)
init_global context bind_data column_indexes projection_ids scan =
    if not supports_explicit_transactions && not context.is_auto_commit
    then err (not_implemented explicit_transaction_not_supported_message)
    else and_then (scan_columns column_indexes projection_ids)
        (λ columns. ok (open_state bind_data columns scan))

module _ {S : Type 0} where
  -- The state with a batch that has just been fetched, and the source's state after it.
  abbrev pub reload : ScanState S → RustExtScanBatch → S → ScanState S
  reload state batch scan = record state {
    scan = scan;
    rows = batch;
    finished = batch.finished;
    row_offset = 0;
  }

  -- `state.row_offset++`
  abbrev pub advance : ScanState S → ScanState S
  advance state = record state { row_offset = suc state.row_offset }

  -- `state.remaining_rows > 0 && --state.remaining_rows == 0`, with `state.finished = true`
  unfoldable pub reaches_limit : ScanState S → Bool
  reaches_limit state = ltb 0 state.remaining_rows && (state.remaining_rows - 1 == 0)

  unfoldable pub count_row : ScanState S → ScanState S
  unfolding reaches_limit
  count_row state = record state {
    remaining_rows =
        if ltb 0 state.remaining_rows then state.remaining_rows - 1 else state.remaining_rows;
    finished = if reaches_limit state then true else state.finished;
  }

module _ {S : Type 0} (next : S → Outcome Text S RustExtScanBatch) where
  -- `NextScanBatch` and the assignments after it.
  unfoldable pub refill : ScanState S → Outcome Exception (ScanState S) Unit
  refill state = elim (next state.scan) [
    | returned batch scan ↦ returned tt (reload state batch scan)
    | threw message scan ↦
        threw (invalid_input (with_context (codes "failed to fetch next Coda scan batch") message))
          (record state { scan = scan })
    | out_of_fuel ↦ out_of_fuel
  ]
