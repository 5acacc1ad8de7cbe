-- ===== src/Dml/Partial.antt =====
-- An UPDATE that fails half way, through its operator.
use duckdb_coda.Prelude.{
  ℕ, ◌<◌, ◌==◌, ◌≡◌, ap, ◌∙◌, true, false, List, ◌∷◌, ◌++◌, map, flatten, length, if_false, ok, err,
  arith,
}
use duckdb_coda.Text.{Text, codes}
use duckdb_coda.Abi.{RustExtClientConfig, RustExtWriteColumn, table_update}
use duckdb_coda.Duckdb.{Duckdb, DataChunk, ClientContext, Exception, invalid_input}
use duckdb_coda.Messages.{with_context}
use duckdb_coda.Table.{RustBridgeTableInfo, supports}
use duckdb_coda.Platform.{Platform}
use duckdb_coda.Mutation.Updates.{
  Job, job_id, job_values, AreWide, Sent, run_job, update_rows-stopped,
}
use duckdb_coda.Client
use duckdb_coda.Client.{
  UpdateExpression, thrown, update_columns, update_values, update_with, chunk_row_ids, last_column,
}
use duckdb_coda.Transaction.{rollback, reject_explicit_transaction}
use duckdb_coda.Dml.{
  SinkState, finish_write, update, capability, write, sink_rows, sink_checked, sink,
}

module _ (db : Duckdb) (platform : Platform db.Double) (config : RustExtClientConfig)
    (table : RustBridgeTableInfo) (write_columns : List RustExtWriteColumn)
    (before : List (Job db.Double)) (job : Job db.Double) (after : List (Job db.Double)) where
  open db use {Value, Double}
  open platform use {World}

  abbrev pub jobs : List (Job Double)
  jobs = before ++ job ∷ after

  -- A chunk of an UPDATE that comes to these jobs.
  pub record Amounts (columns : List ℕ) (expressions : List UpdateExpression)
      (chunk : DataChunk Value) : Type 0 where
    pub some_row : 0 < chunk.size
    pub allowed : supports table table_update ≡ true
    pub columns_ok : update_columns db table columns expressions ≡ ok write_columns
    pub values_ok :
        update_values db table chunk columns expressions ≡ ok (flatten (map job_values jobs))
    pub ids : chunk_row_ids db chunk (last_column db chunk) ≡ map job_id jobs
    pub some_column : 0 < length write_columns
    pub wide : AreWide (length write_columns) jobs

  update_rows-failed :
      (columns : List ℕ) (expressions : List UpdateExpression) (chunk : DataChunk Value)
      (message : Text) {w w₁ w₂ : World}
      → Amounts columns expressions chunk
      → Sent platform config table.table.id write_columns table.table.capabilities before w w₁
      → run_job platform config table.table.id write_columns table.table.capabilities job w₁
        ≡ (err message, w₂)
      → Client.update_rows db platform config table chunk columns expressions w
        ≡ (err (invalid_input (with_context (codes "failed to update Coda rows") message)), w₂)
  unfolding Client.update_rows update_with
  update_rows-failed columns expressions chunk message amounts sent failure =
      rw (amounts.columns_ok, Client.update_rows)
        (rw (amounts.values_ok, Client.update_rows)
          (rw amounts.ids (
            ap (thrown db (codes "failed to update Coda rows")) (
              update_rows-stopped platform config table.table.id write_columns
                table.table.capabilities before job after message amounts.some_column amounts.wide
                sent failure))))

  sink_failed :
      (columns : List ℕ) (expressions : List UpdateExpression) (context : ClientContext)
      (chunk : DataChunk Value) (state : SinkState World) (e : Exception) {w : World}
      → 0 < chunk.size
      → supports table table_update ≡ true
      → reject_explicit_transaction db context ≡ ok tt
      → Client.update_rows db platform config table chunk columns expressions state.world
        ≡ (err e, w)
      → sink db platform config table (update columns expressions) context chunk state
        ≡ (err e, record state { world = w })
  unfolding sink sink_checked sink_rows write capability finish_write
  sink_failed columns expressions context chunk state e some_row allowed passes refused =
      if_false (chunk.size == 0) _ _ (ground arith)
      ∙ ap (sink_checked db platform config table (update columns expressions) chunk state) passes
      ∙ rw (allowed, refused)

  -- An UPDATE that passes its guards and whose request for a row is refused throws that row's error,
  -- with the rows before it sent. If its transaction had written nothing before, a rollback passes.
  pub partial_update :
      (columns : List ℕ) (expressions : List UpdateExpression) (context : ClientContext)
      (chunk : DataChunk Value) (state : SinkState World) (message : Text) {w₁ w₂ : World}
      → Amounts columns expressions chunk
      → reject_explicit_transaction db context ≡ ok tt
      → Sent platform config table.table.id write_columns table.table.capabilities before
          state.world w₁
      → run_job platform config table.table.id write_columns table.table.capabilities job w₁
        ≡ (err message, w₂)
      → state.transaction.has_writes ≡ false
      → let (result, state') =
          sink db platform config table (update columns expressions) context chunk state in
        (result ≡ err (invalid_input (with_context (codes "failed to update Coda rows") message)))
        × (state'.world ≡ w₂)
        × (rollback state'.transaction ≡ ok tt)
  unfolding rollback
  partial_update columns expressions context chunk state message amounts passes sent failure clean =
      let thrown_by =
        sink_failed columns expressions context chunk state _ amounts.some_row amounts.allowed
          passes (update_rows-failed columns expressions chunk message amounts sent failure) in
      (
        ap (λ p. p.0) thrown_by,
        ap (λ p. p.1.world) thrown_by,
        ap (λ p. rollback p.1.transaction) thrown_by ∙ rw clean,
      )
