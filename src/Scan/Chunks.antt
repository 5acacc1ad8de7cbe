-- ===== src/Scan/Chunks.antt =====
-- One call of the scan, by the rounds of its loop.
use duckdb_coda.Prelude.{
  ℕ, zero, suc, ◌+◌, ◌<◌, ◌≤◌, ◌≡◌, refl, ap, ◌∙◌, Bool-cases, inl, inr, true, false, ◌&&◌, ltb,
  leb, List, [], length, drop, is_empty, is_empty-eq, is_empty-pos, drop-all, if◌then◌else◌,
  if_true, if_false, lt→ltb, le→ltb, le→ltb, leb→le, leb→lt, arith, Outcome, returned, ◌>>=◌, ok,
  traverse,
}
use native.Mathlib.Decide.{dec_lt}
use duckdb_coda.Text.{Text}
use duckdb_coda.Abi.{RustExtRow, RustExtScanBatch}
use duckdb_coda.Duckdb.{Duckdb, LogicalTypeId, ColumnIndex, Exception}
use duckdb_coda.Table.{RustBridgeTableInfo}
use duckdb_coda.Scan.State.{ScanState, reload, refill}
use duckdb_coda.Scan.Loop.{after_refill, scan_loop, scan}
use duckdb_coda.Scan.Pending.{refilled, refill-Pending}
use duckdb_coda.Scan.Emit.{project, Ready, Chunk, chunk, Chunk-subst, last-Chunk, emit-Chunk}

module _ (db : Duckdb) (output_type : ℕ → LogicalTypeId) {S : Type 0}
    (next : S → Outcome Text S RustExtScanBatch) (table : RustBridgeTableInfo)
    (columns : List ColumnIndex) where
  open db use {Value, vector_size}

  after_refill-Chunk :
      (again go_on : ScanState S → Outcome Exception (ScanState S) (List (List Value)))
      (out_row : ℕ) (state : ScanState S) (rows : List RustExtRow) (outs : List (List Value))
      → Ready db output_type next table columns state rows
      → traverse (project db output_type next table columns) rows ≡ ok outs
      → state.row_offset ≡ 0
      → (state.rows.rows ≡ [] → state.finished ≡ true)
      → out_row < vector_size
      → ((state' : ScanState S) (rows' : List RustExtRow) (outs' : List (List Value))
          → Ready db output_type next table columns state' rows'
          → traverse (project db output_type next table columns) rows' ≡ ok outs'
          → Chunk db output_type next table columns (go_on state') rows' outs' (suc out_row))
      → Chunk db output_type next table columns
          (after_refill db output_type again go_on state)
          rows
          outs
          out_row
  unfolding after_refill
  after_refill-Chunk again go_on out_row state rows outs ready ok_rows start finished room later =
      elim (Bool-cases (is_empty state.rows.rows)) [
        | inl none_left ↦
            let used = is_empty-eq state.rows.rows none_left in
            Chunk-subst db output_type next table columns
              (if_true (is_empty state.rows.rows) _ _ none_left
                ∙ if_true state.finished _ _ (finished used))
              (last-Chunk db output_type next table columns out_row state rows outs ready ok_rows
                (finished used)
                (drop-all state.row_offset state.rows.rows (omega (arith, ap length used))) room)
        | inr some_left ↦
            Chunk-subst db output_type next table columns
              (if_false (is_empty state.rows.rows) _ _ some_left)
              (emit-Chunk db output_type next table columns go_on out_row state rows outs ready
                ok_rows (omega (arith, is_empty-pos state.rows.rows some_left, start)) room later)
      ]

  -- A round that fetches a batch first.
  refill-Chunk :
      (again go_on : ScanState S → Outcome Exception (ScanState S) (List (List Value)))
      (out_row : ℕ) (state : ScanState S) (rows : List RustExtRow) (outs : List (List Value))
      → Ready db output_type next table columns state rows
      → traverse (project db output_type next table columns) rows ≡ ok outs
      → state.finished ≡ false
      → drop state.row_offset state.rows.rows ≡ []
      → out_row < vector_size
      → ((state' : ScanState S) (rows' : List RustExtRow) (outs' : List (List Value))
          → Ready db output_type next table columns state' rows'
          → traverse (project db output_type next table columns) rows' ≡ ok outs'
          → Chunk db output_type next table columns (go_on state') rows' outs' (suc out_row))
      → Chunk db output_type next table columns
          (refill next state >>= λ _ state'. after_refill db output_type again go_on state')
          rows
          outs
          out_row
  refill-Chunk again go_on out_row state rows outs ready ok_rows unfinished used room later =
      elim (refill-Pending next state rows ready.pending unfinished used) [
        | refilled batch scan called pending some_row ↦
            Chunk-subst db output_type next table columns
              (ap (λ r. r >>= λ _ state'. after_refill db output_type again go_on state') called)
              (after_refill-Chunk again go_on out_row (reload state batch scan) rows outs
                (record {
                  same_table = ready.same_table;
                  same_columns = ready.same_columns;
                  pending = pending;
                })
                ok_rows refl some_row room later)
      ]

  abbrev Later : ℕ → ℕ → Type 0
  Later fuel out_row =
      (state' : ScanState S) (rows' : List RustExtRow) (outs' : List (List Value))
      → Ready db output_type next table columns state' rows'
      → traverse (project db output_type next table columns) rows' ≡ ok outs'
      → Chunk db output_type next table columns (scan_loop db output_type next fuel out_row state')
          rows' outs' out_row

  -- A round that finds its batch used up.
  used_up-Chunk :
      (fuel out_row : ℕ) (state : ScanState S) (rows : List RustExtRow) (outs : List (List Value))
      → Ready db output_type next table columns state rows
      → traverse (project db output_type next table columns) rows ≡ ok outs
      → out_row < vector_size
      → drop state.row_offset state.rows.rows ≡ []
      → Later fuel (suc out_row)
      → Chunk db output_type next table columns
          (if state.finished
            then returned [] state
            else refill next state >>= λ _ state'.
                after_refill db output_type
                  (scan_loop db output_type next fuel out_row)
                  (scan_loop db output_type next fuel (suc out_row))
                  state')
          rows
          outs
          out_row
  used_up-Chunk fuel out_row state rows outs ready ok_rows room used later =
      elim (Bool-cases state.finished) [
        | inl finished ↦
            Chunk-subst db output_type next table columns (if_true state.finished _ _ finished) (
              last-Chunk db output_type next table columns out_row state rows outs ready ok_rows
                finished used room)
        | inr unfinished ↦
            Chunk-subst db output_type next table columns (if_false state.finished _ _ unfinished) (
              refill-Chunk (scan_loop db output_type next fuel out_row)
                (scan_loop db output_type next fuel (suc out_row)) out_row state rows outs ready
                ok_rows unfinished used room later)
      ]

  round-Chunk :
      (fuel out_row : ℕ) (state : ScanState S) (rows : List RustExtRow) (outs : List (List Value))
      → Ready db output_type next table columns state rows
      → traverse (project db output_type next table columns) rows ≡ ok outs
      → out_row < vector_size
      → Later fuel (suc out_row)
      → Chunk db output_type next table columns
          (scan_loop db output_type next (suc fuel) out_row state)
          rows
          outs
          out_row
  unfolding scan_loop
  round-Chunk fuel out_row state rows outs ready ok_rows room later =
      Chunk-subst db output_type next table columns
        (if_true (ltb out_row vector_size) _ _ (lt→ltb _ _ room))
        (elim (Bool-cases (leb (length state.rows.rows) state.row_offset)) [
          | inr left ↦
              Chunk-subst db output_type next table columns
                (if_false (leb (length state.rows.rows) state.row_offset) _ _ left)
                (emit-Chunk db output_type next table columns
                  (scan_loop db output_type next fuel (suc out_row)) out_row state rows outs ready
                  ok_rows (leb→lt _ _ left) room later)
          | inl used ↦
              Chunk-subst db output_type next table columns
                (if_true (leb (length state.rows.rows) state.row_offset) _ _ used)
                (used_up-Chunk fuel out_row state rows outs ready ok_rows room
                  (drop-all state.row_offset state.rows.rows (leb→le _ _ used)) later)
        ])

  full-Chunk :
      (fuel out_row : ℕ) (state : ScanState S) (rows : List RustExtRow) (outs : List (List Value))
      → Ready db output_type next table columns state rows
      → traverse (project db output_type next table columns) rows ≡ ok outs
      → out_row ≡ vector_size
      → Chunk db output_type next table columns
          (scan_loop db output_type next (suc fuel) out_row state)
          rows
          outs
          out_row
  unfolding scan_loop
  full-Chunk fuel out_row state rows outs ready ok_rows full =
      Chunk-subst db output_type next table columns
        (if_false (ltb out_row vector_size) _ _ (le→ltb _ _ (omega arith)))
        (chunk [] state rows outs refl refl ok_rows ready (omega arith)
          (λ lt _. absurd (omega arith)))

  -- The loop: with a round of fuel for each row of the vector it gives out a chunk.
  scan_loop-Chunk :
      (fuel out_row : ℕ) (state : ScanState S) (rows : List RustExtRow) (outs : List (List Value))
      → Ready db output_type next table columns state rows
      → traverse (project db output_type next table columns) rows ≡ ok outs
      → out_row ≤ vector_size
      → vector_size < fuel + out_row
      → Chunk db output_type next table columns
          (scan_loop db output_type next fuel out_row state)
          rows
          outs
          out_row
  scan_loop-Chunk zero out_row state rows outs ready ok_rows room enough = absurd (omega arith)
  scan_loop-Chunk (suc fuel) out_row state rows outs ready ok_rows room enough =
      elim (dec_lt out_row vector_size) [
        | yes free ↦
            round-Chunk fuel out_row state rows outs ready ok_rows free
              (λ state' rows' outs' ready' ok'.
                scan_loop-Chunk fuel (suc out_row) state' rows' outs' ready' ok' free (omega arith))
        | no full ↦ full-Chunk fuel out_row state rows outs ready ok_rows (omega arith)
      ]

  -- One call of the scan.
  pub scan-Chunk :
      (fuel : ℕ) (state : ScanState S) (rows : List RustExtRow) (outs : List (List Value))
      → Ready db output_type next table columns state rows
      → traverse (project db output_type next table columns) rows ≡ ok outs
      → 0 < vector_size
      → vector_size < fuel
      → Chunk db output_type next table columns (scan db output_type next fuel state) rows outs 0
  unfolding scan
  scan-Chunk fuel state rows outs ready ok_rows some_room enough =
      elim (Bool-cases (state.finished && leb (length state.rows.rows) state.row_offset)) [
        | inr left ↦
            Chunk-subst db output_type next table columns
              (if_false (state.finished && leb (length state.rows.rows) state.row_offset) _ _ left)
              (scan_loop-Chunk fuel 0 state rows outs ready ok_rows (omega arith) (omega arith))
        | inl over ↦
            Chunk-subst db output_type next table columns
              (if_true (state.finished && leb (length state.rows.rows) state.row_offset) _ _ over)
              (last-Chunk db output_type next table columns 0 state rows outs ready ok_rows
                (ground arith) (drop-all state.row_offset state.rows.rows (ground arith)) some_room)
      ]
