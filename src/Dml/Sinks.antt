-- ===== src/Dml/Sinks.antt =====
-- What a statement's sink leaves behind, however it ends.
use duckdb_coda.Prelude.{
  ℕ, ◌+◌, ◌%◌, ◌^◌, ◌<◌, ◌==◌, ==_iff, ◌≡◌, refl, sym, subst, ap, ◌∙◌, ◌⊎◌, inl, inr, true, false,
  List, [], ◌∷◌, Bool-cases, Result, ok, err, and_run-eq-ok, arith,
}
use native.Mathlib.Decide.{dec_lt}
use duckdb_coda.Abi.{RustExtClientConfig}
use duckdb_coda.Duckdb.{Duckdb, DataChunk, ClientContext, Exception, not_implemented}
use duckdb_coda.Messages.{
  dml_not_supported_message, explicit_transaction_not_supported_message,
  transaction_rollback_not_supported_message,
}
use duckdb_coda.Table.{RustBridgeTableInfo, supports}
use duckdb_coda.Platform.{Platform}
use duckdb_coda.Transaction.{rollback, mark_write}
use duckdb_coda.Transaction.Guard.{
  IsExplicit, IsImplicit, Guarded, passes, refuses, reject_explicit_transaction-Guarded,
}
use duckdb_coda.Dml.{
  SinkState, operation, add_affected, finish_write, Operator, capability, write, sink_rows,
  sink_checked, sink, sink_all,
}
use duckdb_coda.Dml.Accounting.{Gives-count, write-Gives}

module _ (db : Duckdb) (platform : Platform db.Double) (config : RustExtClientConfig)
    (table : RustBridgeTableInfo) where
  open db use {Value}
  open platform use {World}

  -- Why a sink refuses a chunk before it sends anything.
  abbrev pub IsRefused : Operator → ClientContext → Exception → Type 0
  IsRefused op context e =
      (IsExplicit db context × (e ≡ not_implemented explicit_transaction_not_supported_message))
      ⊎ (IsImplicit db context
          × (supports table (capability op) ≡ false)
          × (e ≡ not_implemented (dml_not_supported_message (operation op))))

  -- What lets a sink send a chunk.
  abbrev pub IsAllowed : Operator → ClientContext → DataChunk Value → Type 0
  IsAllowed op context chunk =
      (0 < chunk.size) × IsImplicit db context × (supports table (capability op) ≡ true)

  -- What the result of a sink says of the state before and after it.
  abbrev pub Accounted :
      Operator
      → ClientContext
      → DataChunk Value
      → SinkState World
      → Result Exception Unit × SinkState World
      → Type 0
  Accounted op context chunk state (err e, state') =
      (state'.transaction ≡ state.transaction)
      × (state'.affected_count ≡ state.affected_count)
      × (((0 < chunk.size) × IsRefused op context e × (state'.world ≡ state.world))
          ⊎ (IsAllowed op context chunk
              × (write db platform config table op chunk state.world ≡ (err e, state'.world))))
  Accounted op context chunk state (ok _, state') =
      ((chunk.size ≡ 0) × (state' ≡ state))
      ⊎ (IsAllowed op context chunk
          × (write db platform config table op chunk state.world ≡ (ok chunk.size, state'.world))
          × (state'.transaction.has_writes ≡ true)
          × (state'.affected_count ≡ (state.affected_count + chunk.size) % 2 ^ 64))

  finish_write-Accounted :
      (op : Operator) (context : ClientContext) (chunk : DataChunk Value) (state : SinkState World)
      (answer : Result Exception ℕ × World)
      → IsAllowed op context chunk
      → write db platform config table op chunk state.world ≡ answer
      → Accounted op context chunk state (finish_write state answer)
  unfolding finish_write add_affected mark_write
  finish_write-Accounted op context chunk state (err e, w) allowed called =
      (refl, refl, inr (allowed, called))
  finish_write-Accounted op context chunk state (ok count, w) allowed called =
      let counted =
        Gives-count (write-Gives db platform config table op chunk state.world) called in
      inr (
        allowed,
        called ∙ ap (λ (n : ℕ). (ok n, w)) counted,
        refl,
        ap (λ (n : ℕ). (state.affected_count + n) % 2 ^ 64) counted,
      )

  sink_checked-Accounted :
      (op : Operator) (context : ClientContext) (chunk : DataChunk Value) (state : SinkState World)
      {checked : Result Exception Unit}
      → 0 < chunk.size
      → Guarded db context checked
      → Accounted op context chunk state
          (sink_checked db platform config table op chunk state checked)
  unfolding sink_checked sink_rows
  sink_checked-Accounted op context chunk state some_rows (refuses explicit) =
      (refl, refl, inl (some_rows, inl (explicit, refl), refl))
  sink_checked-Accounted op context chunk state some_rows (passes implicit) =
      elim (Bool-cases (supports table (capability op))) [
        | inr refused ↦
            rw refused (refl, refl, inl (some_rows, inr (implicit, refused, refl), refl))
        | inl allowed ↦
            rw allowed
              (finish_write-Accounted op context chunk state _ (some_rows, implicit, allowed) refl)
      ]

  -- A sink that throws has counted nothing and marked nothing; for a reason of the two guards it has
  -- sent nothing either, and otherwise it throws what its write has failed with. One that returns has
  -- done nothing for an empty chunk; otherwise the statement is in autocommit and without the words
  -- begin, rollback and commit, the table allows the write, the write has gone through with as many
  -- rows as the chunk has, the transaction is marked, and the rows are counted, in 64 bits.
  pub sink-Accounted :
      (op : Operator) (context : ClientContext) (chunk : DataChunk Value) (state : SinkState World)
      → Accounted op context chunk state (sink db platform config table op context chunk state)
  unfolding sink
  sink-Accounted op context chunk state = elim (Bool-cases (chunk.size == 0)) [
    | inl no_rows ↦ rw no_rows (inl ((==_iff chunk.size 0).0 no_rows, refl))
    | inr some_rows ↦ rw some_rows (
        sink_checked-Accounted op context chunk state (ground arith)
          (reject_explicit_transaction-Guarded db context))
  ]

  -- The rows of the chunks of a statement.
  abbrev pub total : List (DataChunk Value) → ℕ
  total [] = 0
  total (chunk ∷ chunks) = chunk.size + total chunks

  abbrev pub Counted : SinkState World → ℕ → SinkState World → Type 0
  Counted state n state' =
      (state'.affected_count ≡ (state.affected_count + n) % 2 ^ 64)
      × (0 < n → state'.transaction.has_writes ≡ true)
      × (state.transaction.has_writes ≡ true → state'.transaction.has_writes ≡ true)

  one_sink :
      (op : Operator) (context : ClientContext) (chunk : DataChunk Value)
      (state state' : SinkState World)
      → sink db platform config table op context chunk state ≡ (ok tt, state')
      → state.affected_count < 2 ^ 64
      → Counted state chunk.size state'
  one_sink op context chunk state state' called fits =
      counted
        (subst (Accounted op context chunk state) called (sink-Accounted op context chunk state))
    where
      counted : Accounted op context chunk state (ok tt, state') → Counted state chunk.size state'
      counted (inl (no_rows, same)) = (
        omega (arith, ap (λ s. s.affected_count) same, no_rows),
        (λ some_rows. absurd (omega (arith, no_rows, some_rows))),
        (λ marked. ap (λ s. s.transaction.has_writes) same ∙ marked),
      )
      counted (inr (allowed, written, marked, count)) = (count, λ _. marked, λ _. marked)

  Counted-trans :
      (n m : ℕ) (state state₁ state₂ : SinkState World)
      → Counted state n state₁
      → Counted state₁ m state₂
      → Counted state (n + m) state₂
  Counted-trans n m state state₁ state₂ first later = (
    omega (arith, first.0, later.0),
    (λ some_rows. elim (dec_lt 0 m) [
      | yes some_later ↦ later.1 some_later
      | no none_later ↦ later.2 (first.1 (omega (arith, some_rows)))
    ]),
    (λ marked. later.2 (first.2 marked)),
  )

  sink_all-Counted :
      (op : Operator) (context : ClientContext) (chunks : List (DataChunk Value))
      (state state' : SinkState World)
      → sink_all db platform config table op context chunks state ≡ (ok tt, state')
      → state.affected_count < 2 ^ 64
      → Counted state (total chunks) state'
  unfolding sink_all
  sink_all-Counted op context [] state state' called fits =
      let same : state ≡ state' = ap (λ p. p.1) called in
      (
        omega (arith, ap (λ s. s.affected_count) same),
        (λ some_rows. absurd (omega (arith, some_rows))),
        (λ marked. sym (ap (λ s. s.transaction.has_writes) same) ∙ marked),
      )
  sink_all-Counted op context (chunk ∷ chunks) state state' called fits =
      let (_, state₁, first, later) =
        and_run-eq-ok (sink db platform config table op context chunk state) _ called in
      let counted = one_sink op context chunk state state₁ first fits in
      Counted-trans chunk.size (total chunks) state state₁ state' counted
        (sink_all-Counted op context chunks state₁ state' later (omega (arith, counted.0)))

  -- A statement whose chunks all go through reports all of their rows, in 64 bits.
  pub sink_all-count :
      (op : Operator) (context : ClientContext) (chunks : List (DataChunk Value))
      (state state' : SinkState World)
      → sink_all db platform config table op context chunks state ≡ (ok tt, state')
      → state.affected_count < 2 ^ 64
      → state'.affected_count ≡ (state.affected_count + total chunks) % 2 ^ 64
  sink_all-count op context chunks state state' called fits =
      (sink_all-Counted op context chunks state state' called fits).0

  -- After a statement whose chunks have a row and all go through, a rollback of its transaction is
  -- refused.
  pub sink_all-rollback :
      (op : Operator) (context : ClientContext) (chunks : List (DataChunk Value))
      (state state' : SinkState World)
      → sink_all db platform config table op context chunks state ≡ (ok tt, state')
      → state.affected_count < 2 ^ 64
      → 0 < total chunks
      → rollback state'.transaction
        ≡ err (not_implemented transaction_rollback_not_supported_message)
  unfolding rollback
  sink_all-rollback op context chunks state state' called fits some_rows =
      let marked = (sink_all-Counted op context chunks state state' called fits).1 some_rows in
      rw marked
