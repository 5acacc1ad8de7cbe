-- ===== src/Scan/Emit.antt =====
-- One row given out: what a chunk of the scan is made of.
use duckdb_coda.Prelude.{
  ℕ, suc, ◌+◌, ◌<◌, ◌≤◌, ◌≡◌, refl, subst, ap, ◌∙◌, Bool-cases, inl, inr, true, false, some, List,
  [], ◌∷◌, ◌++◌, length, drop, get_elem?, drop-get_elem?, arith, Outcome, returned, Result, ok,
  traverse, traverse-cons,
}
use mathlib.Core.Path.{ap₂}
use duckdb_coda.Text.{Text}
use duckdb_coda.Abi.{RustExtRow, RustExtScanBatch}
use duckdb_coda.Duckdb.{Duckdb, LogicalTypeId, ColumnIndex, Exception}
use duckdb_coda.Table.{RustBridgeTableInfo}
use duckdb_coda.Scan.State.{ScanState, advance, reaches_limit, count_row}
use duckdb_coda.Scan.Row.{row_values, output_row}
use duckdb_coda.Scan.Loop.{prepend, emit_values, emit}
use duckdb_coda.Scan.Pending.{Pending, ending, going, count_row-Pending}

module _ (db : Duckdb) (output_type : ℕ → LogicalTypeId) {S : Type 0}
    (next : S → Outcome Text S RustExtScanBatch) (table : RustBridgeTableInfo)
    (columns : List ColumnIndex) where
  open db use {Value, vector_size}

  -- The output row of a row of the API, for the columns of this scan.
  abbrev pub project : RustExtRow → Result Exception (List Value)
  project row = row_values db table output_type row 0 columns

  -- A state of this scan, with the rows that it still has to give out.
  pub record Ready (state : ScanState S) (rows : List RustExtRow) : Type 0 where
    pub same_table : state.table ≡ table
    pub same_columns : state.column_indexes ≡ columns
    pub pending : Pending next state rows

  -- What a call gives out, and what it leaves.
  pub data Chunk (call : Outcome Exception (ScanState S) (List (List Value)))
      (rows : List RustExtRow) (outs : List (List Value)) (out_row : ℕ) : Type 0 where
    chunk :
        (values : List (List Value)) (state : ScanState S) (rest : List RustExtRow)
        (rest_outs : List (List Value))
        → call ≡ returned values state
        → outs ≡ values ++ rest_outs
        → traverse project rest ≡ ok rest_outs
        → Ready state rest
        → length values + out_row ≤ vector_size
        → (out_row < vector_size → values ≡ [] → rest ≡ [])
        → Chunk call rows outs out_row

  pub Chunk-subst :
      {call call' : Outcome Exception (ScanState S) (List (List Value))} {rows : List RustExtRow}
      {outs : List (List Value)} {out_row : ℕ}
      → call ≡ call'
      → Chunk call' rows outs out_row
      → Chunk call rows outs out_row
  Chunk-subst e c = rw e c

  count_row-Ready :
      (state : ScanState S) (rows rest : List RustExtRow)
      → Ready state rows
      → Pending next (count_row (advance state)) rest
      → Ready (count_row (advance state)) rest
  unfolding count_row
  count_row-Ready state rows rest r p = record {
    same_table = r.same_table;
    same_columns = r.same_columns;
    pending = p;
  }

  emit_at :
      (go_on : ScanState S → Outcome Exception (ScanState S) (List (List Value)))
      (state : ScanState S) (row : RustExtRow)
      → get_elem? state.rows.rows state.row_offset ≡ some row
      → emit db output_type go_on state
        ≡ emit_values db output_type go_on (advance state) (output_row db output_type state row)
  unfolding emit
  emit_at go_on state row at = rw (at, emit)

  output_row-ok :
      (state : ScanState S) (row : RustExtRow) (v : List Value) {rows : List RustExtRow}
      → Ready state rows
      → project row ≡ ok v
      → output_row db output_type state row ≡ ok v
  unfolding output_row
  output_row-ok state row v ready row_ok =
      ap₂ (λ t c. row_values db t output_type row 0 c) ready.same_table ready.same_columns ∙ row_ok

  emit_step :
      (go_on : ScanState S → Outcome Exception (ScanState S) (List (List Value)))
      (state : ScanState S) (row : RustExtRow) (v : List Value) {rows : List RustExtRow}
      → Ready state rows
      → get_elem? state.rows.rows state.row_offset ≡ some row
      → project row ≡ ok v
      → emit db output_type go_on state ≡ emit_values db output_type go_on (advance state) (ok v)
  emit_step go_on state row v ready at row_ok =
      emit_at go_on state row at
      ∙ ap (emit_values db output_type go_on (advance state))
          (output_row-ok state row v ready row_ok)

  module _ (go_on : ScanState S → Outcome Exception (ScanState S) (List (List Value)))
      (state : ScanState S) (v : List Value) where
    emit_values_stop :
        reaches_limit state ≡ true
        → emit_values db output_type go_on state (ok v) ≡ returned (v ∷ []) (count_row state)
    unfolding emit_values
    emit_values_stop limit = rw limit

    emit_values_go :
        reaches_limit state ≡ false
        → emit_values db output_type go_on state (ok v)
          ≡ prepend db output_type v (go_on (count_row state))
    unfolding emit_values
    emit_values_go no_limit = rw no_limit

  Chunk-prepend :
      {call : Outcome Exception (ScanState S) (List (List Value))} {rows rows' : List RustExtRow}
      {outs outs' : List (List Value)} {out_row : ℕ} (v : List Value)
      → outs ≡ v ∷ outs'
      → Chunk call rows' outs' (suc out_row)
      → Chunk (prepend db output_type v call) rows outs out_row
  Chunk-prepend v e (chunk values state rest rest_outs called split rest_ok ready bound empty) =
      chunk (v ∷ values) state rest rest_outs (rw called) (e ∙ ap (λ t. v ∷ t) split) rest_ok ready
        (omega arith) (λ _ e. cc e)

  -- Nothing is left to come once the scan is finished and its batch used up.
  Pending-finished :
      (state : ScanState S) (rows : List RustExtRow)
      → Pending next state rows
      → state.finished ≡ true
      → drop state.row_offset state.rows.rows ≡ []
      → rows ≡ []
  Pending-finished state rows (ending fin e) finished used = e ∙ used
  Pending-finished state rows (going fin source e) finished used = cc

  pub last-Chunk :
      (out_row : ℕ) (state : ScanState S) (rows : List RustExtRow) (outs : List (List Value))
      → Ready state rows
      → traverse project rows ≡ ok outs
      → state.finished ≡ true
      → drop state.row_offset state.rows.rows ≡ []
      → out_row < vector_size
      → Chunk (returned [] state) rows outs out_row
  last-Chunk out_row state rows outs ready ok_rows finished used room =
      chunk [] state rows outs refl refl ok_rows ready (omega arith)
        (λ _ _. Pending-finished state rows ready.pending finished used)

  pub emit-Chunk :
      (go_on : ScanState S → Outcome Exception (ScanState S) (List (List Value))) (out_row : ℕ)
      (state : ScanState S) (rows : List RustExtRow) (outs : List (List Value))
      → Ready state rows
      → traverse project rows ≡ ok outs
      → state.row_offset < length state.rows.rows
      → out_row < vector_size
      → ((state' : ScanState S) (rows' : List RustExtRow) (outs' : List (List Value))
          → Ready state' rows'
          → traverse project rows' ≡ ok outs'
          → Chunk (go_on state') rows' outs' (suc out_row))
      → Chunk (emit db output_type go_on state) rows outs out_row
  emit-Chunk go_on out_row state rows outs ready ok_rows in_range room later =
      let (row, at, here) = drop-get_elem? state.row_offset state.rows.rows in_range in
      let (rest, same, pending) = count_row-Pending next state rows row ready.pending here in
      let (v, vs, outs_eq, row_ok, rest_ok) =
        traverse-cons project row rest (subst (λ t. traverse project t ≡ ok outs) same ok_rows) in
      let ready' = count_row-Ready state rows rest ready pending in
      Chunk-subst (emit_step go_on state row v ready at row_ok)
        (elim (Bool-cases (reaches_limit (advance state))) [
          | inl limit ↦
              chunk (v ∷ []) (count_row (advance state)) rest vs
                (emit_values_stop go_on (advance state) v limit) outs_eq rest_ok ready'
                (omega arith) (λ _ e. cc e)
          | inr no_limit ↦
              Chunk-subst (emit_values_go go_on (advance state) v no_limit)
                (Chunk-prepend v outs_eq (later (count_row (advance state)) rest vs ready' rest_ok))
        ])
