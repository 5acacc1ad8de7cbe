-- ===== src/Dml.antt =====
-- The physical operators of INSERT, UPDATE and DELETE: src/cpp/storage/rust_bridge_dml.cpp.
pub mod Accounting
pub mod Sinks
pub mod Partial
pub mod Source
use duckdb_coda.Prelude.{
  ℕ, ◌+◌, ◌%◌, ◌^◌, ◌==◌, not, List, [], ◌∷◌, if◌then◌else◌, Result, ok, err, and_run,
}
use duckdb_coda.Abi.{DmlOperation, table_insert, table_update, table_delete, RustExtClientConfig}
use duckdb_coda.Duckdb.{Duckdb, DataChunk, ClientContext, Exception, not_implemented}
use duckdb_coda.Messages.{dml_not_supported_message}
use duckdb_coda.Table.{RustBridgeTableInfo, supports}
use duckdb_coda.Platform.{Platform}
use duckdb_coda.Client
use duckdb_coda.Client.{UpdateExpression}
use duckdb_coda.Transaction.{RustBridgeTransaction, mark_write, reject_explicit_transaction}

-- What a sink changes: the remote side, the transaction of the statement, and
-- `RustBridgeDMLGlobalState`.
pub record SinkState (World : Type 0) : Type 0 where
  pub world : World
  pub transaction : RustBridgeTransaction
  pub affected_count : ℕ

-- `AddAffected`, in 64 bits
unfoldable pub add_affected : {World : Type 0} → ℕ → SinkState World → SinkState World
add_affected count state = record state { affected_count = (state.affected_count + count) % 2 ^ 64 }

-- `MarkRemoteWrite` and `AddAffected`, once the client has come back.
unfoldable pub finish_write :
    {World : Type 0}
    → SinkState World
    → Result Exception ℕ × World
    → Result Exception Unit × SinkState World
finish_write state (err e, w) = (err e, record state { world = w })
finish_write state (ok count, w) = (
  ok tt,
  add_affected count (record state { world = w; transaction = mark_write state.transaction }),
)

-- `RejectExplicitTransaction` of this file, a copy of that of the catalog
abbrev sink_guard : Duckdb → ClientContext → Result Exception Unit
sink_guard db context = reject_explicit_transaction db context

-- The operators, with the columns and expressions of an UPDATE and the row id's index of a DELETE.
pub data Operator : Type 0 where
  insert : Operator
  update : List ℕ → List UpdateExpression → Operator
  delete : ℕ → Operator

unfoldable pub capability : Operator → ℕ
capability insert = table_insert
capability (update columns expressions) = table_update
capability (delete row_id_index) = table_delete

unfoldable pub operation : Operator → DmlOperation
operation insert = DmlOperation.insert
operation (update columns expressions) = DmlOperation.update
operation (delete row_id_index) = DmlOperation.delete

module _ (db : Duckdb) (platform : Platform db.Double) (config : RustExtClientConfig)
    (table : RustBridgeTableInfo) where
  open db use {Value}
  open platform use {World}

  -- The client's call of each operator.
  unfoldable pub write : Operator → DataChunk Value → World → Result Exception ℕ × World
  write insert chunk w = Client.insert_rows db platform config table chunk w
  write (update columns expressions) chunk w =
      Client.update_rows db platform config table chunk columns expressions w
  write (delete row_id_index) chunk w =
      Client.delete_rows db platform config table chunk row_id_index w

  -- The part of `Sink` behind its guards.
  unfoldable pub sink_rows :
      Operator → DataChunk Value → SinkState World → Result Exception Unit × SinkState World
  sink_rows op chunk state = finish_write state (write op chunk state.world)

  unfoldable pub sink_checked :
      Operator
      → DataChunk Value
      → SinkState World
      → Result Exception Unit
      → Result Exception Unit × SinkState World
  sink_checked op chunk state (err e) = (err e, state)
  sink_checked op chunk state (ok _) =
      if not (supports table (capability op))
      then (err (not_implemented (dml_not_supported_message (operation op))), state)
      else sink_rows op chunk state

  -- What `RustBridgeInsert::Sink`, `RustBridgeUpdate::Sink` and `RustBridgeDelete::Sink` do alike:
  -- they ask for more input unless they throw.
  unfoldable pub sink :
      Operator
      → ClientContext
      → DataChunk Value
      → SinkState World
      → Result Exception Unit × SinkState World
  sink op context chunk state =
      if chunk.size == 0
      then (ok tt, state)
      else sink_checked op chunk state (sink_guard db context)

  unfoldable pub insert_sink :
      ClientContext → DataChunk Value → SinkState World → Result Exception Unit × SinkState World
  insert_sink = sink insert

  unfoldable pub update_sink :
      List ℕ
      → List UpdateExpression
      → ClientContext
      → DataChunk Value
      → SinkState World
      → Result Exception Unit × SinkState World
  update_sink columns expressions = sink (update columns expressions)

  unfoldable pub delete_sink :
      ℕ
      → ClientContext
      → DataChunk Value
      → SinkState World
      → Result Exception Unit × SinkState World
  delete_sink row_id_index = sink (delete row_id_index)

  -- DuckDB sinks the chunks of a statement one after another, until one throws.
  unfoldable pub sink_all :
      Operator
      → ClientContext
      → List (DataChunk Value)
      → SinkState World
      → Result Exception Unit × SinkState World
  sink_all op context [] state = (ok tt, state)
  sink_all op context (chunk ∷ chunks) state =
      and_run (sink op context chunk state) (λ _ state'. sink_all op context chunks state')
