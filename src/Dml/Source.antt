-- ===== src/Dml/Source.antt =====
-- The operators of the writes as sources: what a statement reports when its sink is done.
use duckdb_coda.Prelude.{
  ℕ, ◌^◌, ◌<◌, ltb, lt→ltb, ◌≡◌, refl, ap, ◌∙◌, if◌then◌else◌, if_true, Bool, true, false, List,
  Result, ok, err, arith,
}
use duckdb_coda.Text.{Text, codes}
use duckdb_coda.Abi.{ℤ, pos, RustExtClientConfig}
use duckdb_coda.Duckdb.{Duckdb, DataChunk, ClientContext, Exception}
use duckdb_coda.Table.{RustBridgeTableInfo}
use duckdb_coda.Client.{UpdateExpression}
use duckdb_coda.Platform.{Platform}
use duckdb_coda.Transaction.{RustBridgeTransaction}
use duckdb_coda.Dml.{SinkState, Operator, insert, update, delete, sink_all}
use duckdb_coda.Dml.Sinks.{total, sink_all-count}

-- `GetGlobalSinkState`, for a statement of a transaction.
unfoldable pub initial_sink : {World : Type 0} → World → RustBridgeTransaction → SinkState World
initial_sink w transaction = record { world = w; transaction = transaction; affected_count = 0 }

-- `NumericCast<int64_t>`, with the exception that it throws.
abbrev pub numeric_cast : Exception → ℕ → Result Exception ℤ
numeric_cast out_of_range n = if ltb n (2 ^ 63) then ok (pos n) else err out_of_range

-- `RustBridgeInsert::GetDataInternal` and those of UPDATE and DELETE: the one value of the one row.
unfoldable pub get_data :
    {World : Type 0} → Exception → Operator → SinkState World → Result Exception ℤ
get_data out_of_range insert state = numeric_cast out_of_range state.affected_count
get_data out_of_range (update columns expressions) state =
    numeric_cast out_of_range state.affected_count
get_data out_of_range (delete row_id_index) state = numeric_cast out_of_range state.affected_count

unfoldable pub update_get_data :
    {World : Type 0}
    → Exception
    → List ℕ
    → List UpdateExpression
    → SinkState World
    → Result Exception ℤ
update_get_data out_of_range columns expressions =
    get_data out_of_range (update columns expressions)

unfoldable pub delete_get_data :
    {World : Type 0} → Exception → ℕ → SinkState World → Result Exception ℤ
delete_get_data out_of_range row_id_index = get_data out_of_range (delete row_id_index)

-- `GetName`
unfoldable pub operator_name : Operator → Text
operator_name insert = codes "CODA_INSERT"
operator_name (update columns expressions) = codes "CODA_UPDATE"
operator_name (delete row_id_index) = codes "CODA_DELETE"

-- `IsSink`, `IsSource` and `ParallelSink`
unfoldable pub is_sink : Operator → Bool
is_sink op = true

unfoldable pub is_source : Operator → Bool
is_source op = true

unfoldable pub parallel_sink : Operator → Bool
parallel_sink op = false

module _ (db : Duckdb) (platform : Platform db.Double) (config : RustExtClientConfig)
    (table : RustBridgeTableInfo) where
  open db use {Value}
  open platform use {World}

  get_data-cast :
      (out_of_range : Exception) (op : Operator) (state : SinkState World)
      → get_data out_of_range op state ≡ numeric_cast out_of_range state.affected_count
  unfolding get_data
  get_data-cast out_of_range insert state = refl
  get_data-cast out_of_range (update columns expressions) state = refl
  get_data-cast out_of_range (delete row_id_index) state = refl

  -- A statement that starts with the state its operator makes, and whose chunks all go through,
  -- reports the number of their rows, if this is less than 2^63.
  pub get_data-total :
      (op : Operator) (context : ClientContext) (chunks : List (DataChunk Value)) (w : World)
      (transaction : RustBridgeTransaction) (state' : SinkState World) (out_of_range : Exception)
      → sink_all db platform config table op context chunks (initial_sink w transaction)
        ≡ (ok tt, state')
      → total db platform config table chunks < 2 ^ 63
      → get_data out_of_range op state' ≡ ok (pos (total db platform config table chunks))
  unfolding initial_sink
  get_data-total op context chunks w transaction state' out_of_range called few =
      let counted =
        sink_all-count db platform config table op context chunks (initial_sink w transaction)
          state' called (omega arith) in
      let same : state'.affected_count ≡ total db platform config table chunks =
        omega (arith, counted, few) in
      get_data-cast out_of_range op state'
      ∙ ap (numeric_cast out_of_range) same
      ∙ if_true _ _ _ (lt→ltb _ _ few)
