-- ===== src/Scan/Loop.antt =====
-- `RustBridgeScan` of src/cpp/rust_bridge_scan.cpp: one output chunk. `S` is the state of the
-- source of batches, behind the scan handle.
use duckdb_coda.Prelude.{
  ℕ, zero, suc, ltb, leb, ◌&&◌, none, some, List, [], ◌∷◌, ◌++◌, length, get_elem?, is_empty,
  if◌then◌else◌, Outcome, returned, threw, out_of_fuel, ◌>>=◌, Result, ok, err,
}
use duckdb_coda.Text.{Text}
use duckdb_coda.Abi.{RustExtScanBatch}
use duckdb_coda.Duckdb.{Duckdb, LogicalTypeId, Exception, out_of_bounds}
use duckdb_coda.Scan.State.{ScanState, advance, refill, reaches_limit, count_row}
use duckdb_coda.Scan.Row.{output_row}

module _ (db : Duckdb) (output_type : ℕ → LogicalTypeId) {S : Type 0} where
  open db use {Value, vector_size}

  abbrev pub prepend :
      List Value
      → Outcome Exception (ScanState S) (List (List Value))
      → Outcome Exception (ScanState S) (List (List Value))
  prepend values rest = rest >>= λ chunk state. returned (values ∷ chunk) state

  -- The body of the loop from the next row on; `go_on` is the next round.
  unfoldable pub emit_values :
      (ScanState S → Outcome Exception (ScanState S) (List (List Value)))
      → ScanState S
      → Result Exception (List Value)
      → Outcome Exception (ScanState S) (List (List Value))
  emit_values go_on state (err e) = threw e state
  emit_values go_on state (ok values) =
      if reaches_limit state
      then returned (values ∷ []) (count_row state)
      else prepend values (go_on (count_row state))

  unfoldable pub emit :
      (ScanState S → Outcome Exception (ScanState S) (List (List Value)))
      → ScanState S
      → Outcome Exception (ScanState S) (List (List Value))
  emit go_on state = elim (get_elem? state.rows.rows state.row_offset) [
    | none ↦ threw out_of_bounds state
    | some row ↦ emit_values go_on (advance state) (output_row db output_type state row)
  ]

  -- The rows that a batch just fetched gives.
  unfoldable pub after_refill :
      (ScanState S → Outcome Exception (ScanState S) (List (List Value)))
      → (ScanState S → Outcome Exception (ScanState S) (List (List Value)))
      → ScanState S
      → Outcome Exception (ScanState S) (List (List Value))
  after_refill again go_on state =
      if is_empty state.rows.rows
      then (if state.finished then returned [] state else again state)
      else emit go_on state

module _ (db : Duckdb) (output_type : ℕ → LogicalTypeId) {S : Type 0}
    (next : S → Outcome Text S RustExtScanBatch) where
  open db use {Value, vector_size}

  -- The `while` loop of `RustBridgeScan`.
  unfoldable pub scan_loop :
      ℕ → ℕ → ScanState S → Outcome Exception (ScanState S) (List (List Value))
  scan_loop zero out_row state = out_of_fuel
  scan_loop (suc fuel) out_row state =
      let emitted = emit db output_type (scan_loop fuel (suc out_row)) state in
      let refilled = refill next state >>= λ _ state'.
      after_refill db output_type (scan_loop fuel out_row) (scan_loop fuel (suc out_row)) state' in
      if ltb out_row vector_size
      then (if leb (length state.rows.rows) state.row_offset
          then (if state.finished then returned [] state else refilled)
          else emitted)
      else returned [] state

  -- `RustBridgeScan`: the rows of one output chunk.
  unfoldable pub scan : ℕ → ScanState S → Outcome Exception (ScanState S) (List (List Value))
  scan fuel state =
      let chunk = scan_loop fuel 0 state in
      if state.finished && leb (length state.rows.rows) state.row_offset
      then returned [] state
      else chunk

  -- DuckDB calls the scan until it has an empty chunk.
  unfoldable pub drain : ℕ → ℕ → ScanState S → Outcome Exception (ScanState S) (List (List Value))
  drain fuel zero state = out_of_fuel
  drain fuel (suc calls) state = scan fuel state >>= λ chunk state'.
      let rest = drain fuel calls state' in
      if is_empty chunk
      then returned [] state'
      else rest >>= λ rows state''. returned (chunk ++ rows) state''
