-- ===== src/Dml/Accounting.antt =====
-- What the operators report: the rows that they have handed to the API, and the mark on the
-- transaction that is to stop a rollback.
use duckdb_coda.Prelude.{
  ℕ, ◌≡◌, ap, inl, inr, ◌&&◌, not, ◌==◌, ◌*◌, List, [], ◌∷◌, length, is_empty, Bool-cases, Result,
  ok, err, and_run, Result-cases,
}
use duckdb_coda.Text.{Text, codes}
use duckdb_coda.Abi.{RustExtClientConfig, RustExtWriteColumn, RustExtInputValue}
use duckdb_coda.Duckdb.{Duckdb, DataChunk}
use duckdb_coda.Table.{RustBridgeTableInfo}
use duckdb_coda.Platform.{Platform}
use duckdb_coda.Client
use duckdb_coda.Client.Delete.{length-chunk_row_ids}
use duckdb_coda.Client.{
  thrown, chunk_row_ids, last_column, update_columns, update_values, update_with, UpdateExpression,
  editable_columns, insert_values,
}
use duckdb_coda.Mutation
use duckdb_coda.Sdk.{endpoint}
use duckdb_coda.Dml.{Operator, insert, update, delete, write}

-- A call that gives `count` unless it fails.
pub data Gives {E W : Type 0} (count : ℕ) : Result E ℕ × W → Type 0 where
  given : {w : W} → Gives count (ok count, w)
  failed : {e : E} {w : W} → Gives count (err e, w)

pub Gives-count :
    {E W : Type 0} {count n : ℕ} {call : Result E ℕ × W} {w : W}
    → Gives count call
    → call ≡ (ok n, w)
    → n ≡ count
Gives-count given h = cc (ap (λ p. p.0) h)
Gives-count failed h = cc (ap (λ p. p.0) h)

Gives-and_run :
    {E W A : Type 0} {count : ℕ} (r : Result E A × W) (f : A → W → Result E ℕ × W)
    → ((a : A) (w : W) → Gives count (f a w))
    → Gives count (and_run r f)
Gives-and_run (ok a, w) f h = h a w
Gives-and_run (err e, w) f h = failed

Gives-thrown :
    {W : Type 0} {count : ℕ} (db : Duckdb) (context : Text) (r : Result Text ℕ × W)
    → Gives count r
    → Gives count (thrown db context r)
Gives-thrown db context (ok n, w) given = given
Gives-thrown db context (err message, w) h = failed

module _ (db : Duckdb) (platform : Platform db.Double) (config : RustExtClientConfig)
    (table : RustBridgeTableInfo) where
  open db use {Value}
  open platform use {World}

  insert_rows-Gives :
      (columns : List RustExtWriteColumn) (values : List (RustExtInputValue db.Double))
      (row_count width : ℕ) (w : World)
      → Gives row_count (
          Mutation.insert_rows platform config table.table.id columns values row_count width
            table.table.capabilities w)
  unfolding Mutation.insert_rows
  insert_rows-Gives columns values row_count width w =
      Gives-and_run
        (Mutation.insert_body platform columns values row_count width table.table.capabilities, w) _
        (λ body w₁.
          Gives-and_run
            (Mutation.perform platform config
              (platform.build_upsert_rows (endpoint platform config)
                (Mutation.upsert_input config table.table.id body))
              w₁)
            (λ _ w₂. (ok row_count, w₂)) (λ _ w₂. given))

  Gives-subst :
      {E : Type 0} {m n : ℕ} {call : Result E ℕ × World} → m ≡ n → Gives m call → Gives n call
  Gives-subst e g = rw (← e) g

  update_rows-Gives :
      (row_ids : List Text) (columns : List RustExtWriteColumn)
      (values : List (RustExtInputValue db.Double)) (w : World)
      → Gives (length row_ids) (
          Mutation.update_rows platform config table.table.id row_ids columns values
            table.table.capabilities w)
  unfolding Mutation.update_rows
  update_rows-Gives row_ids columns values w =
      elim (Bool-cases (is_empty columns && not (is_empty row_ids))) [
        | inl refused ↦ rw refused failed
        | inr checked ↦ elim (Bool-cases (length values == length row_ids * length columns)) [
          | inr refused ↦ rw (checked, refused) failed
          | inl fits ↦
              rw (checked, fits)
                (Gives-and_run
                  (Mutation.update_loop platform config table.table.id columns values
                    table.table.capabilities 0 row_ids w)
                  (λ _ w₁. (ok (length row_ids), w₁)) (λ _ w₁. given))
        ]
      ]

  delete_rows-Gives :
      (row_ids : List Text) (w : World)
      → Gives (length row_ids) (Mutation.delete_rows platform config table.table.id row_ids w)
  unfolding Mutation.delete_rows
  delete_rows-Gives [] w = given
  delete_rows-Gives (row_id ∷ row_ids) w =
      Gives-and_run
        (Mutation.perform platform config
          (platform.build_delete_rows (endpoint platform config) (record {
            doc_id = config.resource;
            table_id_or_name = table.table.id;
            payload = Mutation.delete_body platform (row_id ∷ row_ids);
          }))
          w)
        (λ _ w₁. (ok (length (row_id ∷ row_ids)), w₁)) (λ _ w₁. given)

  update-Gives :
      (columns : List ℕ) (expressions : List UpdateExpression) (chunk : DataChunk Value) (w : World)
      → Gives chunk.size (Client.update_rows db platform config table chunk columns expressions w)
  unfolding Client.update_rows update_with
  update-Gives columns expressions chunk w =
      elim (Result-cases (update_columns db table columns expressions)) [
        | inr (e, no_columns) ↦ rw (no_columns, Client.update_rows) failed
        | inl (write_columns, some_columns) ↦
            elim (Result-cases (update_values db table chunk columns expressions)) [
              | inr (e, no_values) ↦ rw (some_columns, no_values, Client.update_rows) failed
              | inl (values, some_values) ↦
                  rw (some_columns, some_values, Client.update_rows)
                    (Gives-subst (length-chunk_row_ids db chunk (last_column db chunk)) (
                      Gives-thrown db (codes "failed to update Coda rows") _ (
                        update_rows-Gives (chunk_row_ids db chunk (last_column db chunk))
                          write_columns values w)))
            ]
      ]

  -- A write that goes through reports the rows of its chunk.
  pub write-Gives :
      (op : Operator) (chunk : DataChunk Value) (w : World)
      → Gives chunk.size (write db platform config table op chunk w)
  unfolding write Client.insert_rows Client.delete_rows
  write-Gives insert chunk w = Gives-thrown db (codes "failed to insert Coda rows") _ (
      insert_rows-Gives (editable_columns table) (insert_values db table chunk) chunk.size
        (length table.columns) w)
  write-Gives (update columns expressions) chunk w = update-Gives columns expressions chunk w
  write-Gives (delete index) chunk w = Gives-subst (length-chunk_row_ids db chunk index) (
      Gives-thrown db (codes "failed to delete Coda rows") _
        (delete_rows-Gives (chunk_row_ids db chunk index) w))
