-- ===== src/Catalog/Plans.antt =====
-- The statements that the catalog plans, and the guards of their operators.
use duckdb_coda.Prelude.{
  ℕ, ◌<◌, ◌==◌, ◌≡◌, refl, ap, ◌∙◌, Bool, true, false, not, List, [], ◌∷◌, if_false, if◌then◌else◌,
  ok, err, and_then-eq-ok, arith,
}
use duckdb_coda.Abi.{RustExtClientConfig}
use duckdb_coda.Duckdb.{Duckdb, DataChunk, ClientContext, Exception}
use duckdb_coda.Table.{RustBridgeTableInfo, supports}
use duckdb_coda.Platform.{Platform}
use duckdb_coda.Client.{UpdateExpression}
use duckdb_coda.Transaction.{reject_explicit_transaction}
use duckdb_coda.Dml.{
  SinkState, Operator, capability, finish_write, write, sink_rows, sink_checked, sink,
}
use duckdb_coda.Catalog.{plan_write, plan_insert, plan_update, plan_delete}

guards-ok :
    (returning allowed : Bool) (e₁ e₂ : Exception) (op planned : Operator)
    → (if returning then err e₁ else if not allowed then err e₂ else ok op) ≡ ok planned
    → (allowed ≡ true) × (planned ≡ op)
guards-ok true allowed e₁ e₂ op planned h = cc
guards-ok false false e₁ e₂ op planned h = cc
guards-ok false true e₁ e₂ op planned h = (refl, cc)

module _ (db : Duckdb) (context : ClientContext) (table : RustBridgeTableInfo) where
  -- The operator is the plan of an INSERT, an UPDATE or a DELETE on the table.
  pub data Planned (op : Operator) : Type 0 where
    by_insert : (returning : Bool) → plan_insert db context table returning ≡ ok op → Planned op
    by_update :
        (returning : Bool) (columns : List ℕ) (expressions : List UpdateExpression)
        → plan_update db context table returning columns expressions ≡ ok op
        → Planned op
    by_delete :
        (returning : Bool) (indices : List ℕ)
        → plan_delete db context table returning indices ≡ ok op
        → Planned op

  plan_write-ok :
      (returning : Bool) (op planned : Operator)
      → plan_write db context table returning op ≡ ok planned
      → (reject_explicit_transaction db context ≡ ok tt)
        × (supports table (capability planned) ≡ true)
  unfolding plan_write
  plan_write-ok returning op planned h =
      let (u, passes, k) = and_then-eq-ok (reject_explicit_transaction db context) _ h in
      let (allowed, same) = guards-ok returning (supports table (capability op)) _ _ op planned k in
      (passes, ap (λ o. supports table (capability o)) same ∙ allowed)

  Planned-guards :
      {op : Operator}
      → Planned op
      → (reject_explicit_transaction db context ≡ ok tt) × (supports table (capability op) ≡ true)
  unfolding plan_insert plan_update plan_delete
  Planned-guards {op} (by_insert returning h) = plan_write-ok returning _ op h
  Planned-guards {op} (by_update returning columns expressions h) = plan_write-ok returning _ op h
  Planned-guards {op} (by_delete returning [] h) =
      let (planned, first, refused) =
        and_then-eq-ok (plan_write db context table returning _) _ h in
      cc refused
  Planned-guards {op} (by_delete returning (index ∷ rest) h) = plan_write-ok returning _ op h

  module _ (platform : Platform db.Double) (config : RustExtClientConfig) where
    open db use {Value}
    open platform use {World}

    -- The sink of a statement that has been planned in the same context refuses no chunk with rows
    -- itself: it hands the chunk to the client.
    pub Planned-sink :
        {op : Operator} (chunk : DataChunk Value) (state : SinkState World)
        → Planned op
        → 0 < chunk.size
        → sink db platform config table op context chunk state
          ≡ finish_write state (write db platform config table op chunk state.world)
    unfolding sink sink_checked sink_rows
    Planned-sink {op} chunk state planned some_row =
        let (passes, allowed) = Planned-guards planned in
        if_false (chunk.size == 0) _ _ (ground arith)
        ∙ ap (sink_checked db platform config table op chunk state) passes
        ∙ rw allowed
