-- ===== src/Scan/Drain.antt =====
-- A whole scan: what its chunks hold together, and in how many calls.
use duckdb_coda.Prelude.{
  ℕ, zero, suc, ◌<◌, ◌≡◌, sym, subst, ap, ◌∙◌, Bool-cases, inl, inr, true, false, List, [], ◌++◌,
  length, length-append, is_empty, is_empty-eq, is_empty-pos, if_true, if_false, arith, Outcome,
  returned, ◌>>=◌, ok, traverse, traverse-nil,
}
use duckdb_coda.Text.{Text}
use duckdb_coda.Abi.{RustExtRow, RustExtScanBatch}
use duckdb_coda.Duckdb.{Duckdb, LogicalTypeId, ColumnIndex}
use duckdb_coda.Table.{RustBridgeTableInfo}
use duckdb_coda.Scan.State.{ScanState}
use duckdb_coda.Scan.Loop.{scan, drain}
use duckdb_coda.Scan.Emit.{Ready, project, chunk}
use duckdb_coda.Scan.Chunks.{scan-Chunk}

module _ (db : Duckdb) (output_type : ℕ → LogicalTypeId) {S : Type 0}
    (next : S → Outcome Text S RustExtScanBatch) (table : RustBridgeTableInfo)
    (columns : List ColumnIndex) where
  open db use {Value, vector_size}

  module _ (fuel calls : ℕ) (state : ScanState S) (values : List (List Value))
      (state₁ : ScanState S)
      (called : scan db output_type next fuel state ≡ returned values state₁) where
    drain_stop :
        is_empty values ≡ true
        → drain db output_type next fuel (suc calls) state ≡ returned [] state₁
    unfolding drain
    drain_stop none_out = rw called (if_true (is_empty values) _ _ none_out)

    drain_go :
        is_empty values ≡ false
        → drain db output_type next fuel (suc calls) state
          ≡ (drain db output_type next fuel calls state₁ >>= λ more s. returned (values ++ more) s)
    unfolding drain
    drain_go some_out = rw called (if_false (is_empty values) _ _ some_out)

  nothing_left :
      (values : List (List Value)) (rest : List RustExtRow) (rest_outs outs : List (List Value))
      → is_empty values ≡ true
      → outs ≡ values ++ rest_outs
      → traverse (project db output_type next table columns) rest ≡ ok rest_outs
      → (values ≡ [] → rest ≡ [])
      → outs ≡ []
  nothing_left values rest rest_outs outs none_out split rest_ok empty =
      let used = is_empty-eq values none_out in
      let no_rest = traverse-nil (project db output_type next table columns) (
        subst (λ t. traverse (project db output_type next table columns) t ≡ ok rest_outs)
          (empty used) rest_ok) in
      rw (split, used, no_rest)

  -- The calls of a scan end, and their chunks are the rows to come, in order.
  pub drain-rows :
      (fuel calls : ℕ) (state : ScanState S) (rows : List RustExtRow) (outs : List (List Value))
      → Ready db output_type next table columns state rows
      → traverse (project db output_type next table columns) rows ≡ ok outs
      → 0 < vector_size
      → vector_size < fuel
      → length outs < calls
      → (state' : ScanState S) × (drain db output_type next fuel calls state ≡ returned outs state')
  drain-rows fuel zero state rows outs ready ok_rows some_room enough calls_enough =
      absurd (omega arith)
  drain-rows fuel (suc calls) state rows outs ready ok_rows some_room enough calls_enough =
      elim (scan-Chunk db output_type next table columns fuel state rows outs ready ok_rows
        some_room enough) [
          | chunk values state₁ rest rest_outs called split rest_ok ready₁ bound empty ↦
              elim (Bool-cases (is_empty values)) [
                | inl none_out ↦ (
                  state₁,
                  drain_stop fuel calls state values state₁ called none_out
                      ∙ ap (λ t. returned t state₁)
                          (sym (
                            nothing_left values rest rest_outs outs none_out split rest_ok
                              (empty some_room))),
                )
                | inr some_out ↦
                    let (state₂, e) =
                      drain-rows fuel calls state₁ rest rest_outs ready₁ rest_ok some_room enough (
                        omega (
                          arith,
                          is_empty-pos values some_out,
                          ap length split,
                          length-append values rest_outs,
                        )) in
                    (
                      state₂,
                      drain_go fuel calls state values state₁ called some_out
                          ∙ ap (λ r. r >>= λ more s. returned (values ++ more) s) e
                          ∙ ap (λ t. returned t state₂) (sym split),
                    )
              ]
        ]
