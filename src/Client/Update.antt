-- ===== src/Client/Update.antt =====
-- What an UPDATE sends: the row ids and values of a chunk, as the rows to update.
use duckdb_coda.Prelude.{
  ℕ, suc, ◌<◌, ◌≡◌, refl, sym, subst, ap, ◌∙◌, List, [], ◌∷◌, map, flatten, length, length-tabulate,
  tabulate, Result, ok, and_then-eq-ok, traverse, traverse-cons, traverse-length, arith,
}
use duckdb_coda.Text.{Text, codes}
use duckdb_coda.Abi.{RustExtClientConfig, RustExtInputValue, RustExtWriteColumn}
use duckdb_coda.Duckdb.{Duckdb, DataChunk, Exception}
use duckdb_coda.Table.{RustBridgeTableInfo}
use duckdb_coda.Platform.{Platform}
use duckdb_coda.Mutation
use duckdb_coda.Mutation.Updates.{Job, job_id, job_values, AreWide, Ending, update_rows-Ending}
use duckdb_coda.Client.{
  UpdateExpression, thrown, update_columns, update_column, update_row_values, update_value,
  update_values, update_with, chunk_row_ids, last_column, update_rows,
}
use duckdb_coda.Client.Delete.{length-chunk_row_ids}

-- Each id with the values of its row.
abbrev pub jobs_of :
    {Double : Type 0} → List Text → List (List (RustExtInputValue Double)) → List (Job Double)
jobs_of [] rows = []
jobs_of (id ∷ ids) [] = []
jobs_of (id ∷ ids) (values ∷ rows) = (id, values) ∷ jobs_of ids rows

module _ {Double : Type 0} where
  jobs_of-ids :
      (ids : List Text) (rows : List (List (RustExtInputValue Double)))
      → length ids ≡ length rows
      → map job_id (jobs_of ids rows) ≡ ids
  jobs_of-ids [] rows e = refl
  jobs_of-ids (id ∷ ids) [] e = absurd (omega arith)
  jobs_of-ids (id ∷ ids) (values ∷ rows) e = ap (λ t. id ∷ t) (jobs_of-ids ids rows (omega arith))

  jobs_of-values :
      (ids : List Text) (rows : List (List (RustExtInputValue Double)))
      → length ids ≡ length rows
      → map job_values (jobs_of ids rows) ≡ rows
  jobs_of-values [] [] e = refl
  jobs_of-values [] (values ∷ rows) e = absurd (omega arith)
  jobs_of-values (id ∷ ids) [] e = absurd (omega arith)
  jobs_of-values (id ∷ ids) (values ∷ rows) e =
      ap (λ t. values ∷ t) (jobs_of-values ids rows (omega arith))

  length-jobs_of :
      (ids : List Text) (rows : List (List (RustExtInputValue Double)))
      → length ids ≡ length rows
      → length (jobs_of ids rows) ≡ length ids
  length-jobs_of [] rows e = refl
  length-jobs_of (id ∷ ids) [] e = absurd (omega arith)
  length-jobs_of (id ∷ ids) (values ∷ rows) e = ap suc (length-jobs_of ids rows (omega arith))

module _ (db : Duckdb) (table : RustBridgeTableInfo) where
  open db use {Value, Double}

  length-update_columns :
      (columns : List ℕ) (expressions : List UpdateExpression) {cs : List RustExtWriteColumn}
      → update_columns db table columns expressions ≡ ok cs
      → length cs ≡ length expressions
  unfolding update_columns
  length-update_columns columns [] {cs} h =
      let shape : cs ≡ [] = cc h in omega (arith, ap length shape)
  length-update_columns [] (e ∷ es) h = cc h
  length-update_columns (c ∷ columns) (e ∷ es) {cs} h =
      let (rest, first, same) = and_then-eq-ok (update_columns db table columns es) _ h in
      let shape : cs ≡ update_column db table c ∷ rest = cc same in
      omega (arith, ap length shape, length-update_columns columns es first)

  length-update_row_values :
      (chunk : DataChunk Value) (row_idx : ℕ) (columns : List ℕ)
      (expressions : List UpdateExpression) {vs : List (RustExtInputValue Double)}
      → update_row_values db table chunk row_idx columns expressions ≡ ok vs
      → length vs ≡ length expressions
  unfolding update_row_values
  length-update_row_values chunk row_idx columns [] {vs} h =
      let shape : vs ≡ [] = cc h in omega (arith, ap length shape)
  length-update_row_values chunk row_idx [] (e ∷ es) h = cc h
  length-update_row_values chunk row_idx (c ∷ columns) (e ∷ es) {vs} h =
      let (v, one, more) = and_then-eq-ok (update_value db table chunk row_idx c e) _ h in
      let (rest, later, same) =
        and_then-eq-ok (update_row_values db table chunk row_idx columns es) _ more in
      let shape : vs ≡ v ∷ rest = cc same in
      omega (arith, ap length shape, length-update_row_values chunk row_idx columns es later)

  -- The values of each row of the chunk.
  abbrev pub chunk_values :
      DataChunk Value
      → List ℕ
      → List UpdateExpression
      → List ℕ
      → Result Exception (List (List (RustExtInputValue Double)))
  chunk_values chunk columns expressions row_indices =
      traverse (λ row_idx. update_row_values db table chunk row_idx columns expressions) row_indices

  jobs_of-AreWide :
      (chunk : DataChunk Value) (columns : List ℕ) (expressions : List UpdateExpression)
      (row_indices : List ℕ) (ids : List Text) {rows : List (List (RustExtInputValue Double))}
      → chunk_values chunk columns expressions row_indices ≡ ok rows
      → AreWide (length expressions) (jobs_of ids rows)
  jobs_of-AreWide chunk columns expressions row_indices [] h = tt
  jobs_of-AreWide chunk columns expressions row_indices (id ∷ ids) {rows = []} h = tt
  jobs_of-AreWide chunk columns expressions [] (id ∷ ids) {rows = values ∷ rows} h = cc h
  jobs_of-AreWide chunk columns expressions (i ∷ row_indices) (id ∷ ids) {rows = values ∷ rows} h =
      let (b, cs, same, one, rest) =
        traverse-cons (λ row_idx. update_row_values db table chunk row_idx columns expressions) i
          row_indices h in
      (
        length-update_row_values chunk i columns expressions (
            subst (λ t. update_row_values db table chunk i columns expressions ≡ ok t)
              (sym (cc same)) one),
        jobs_of-AreWide chunk columns expressions row_indices ids (
            subst (λ t. chunk_values chunk columns expressions row_indices ≡ ok t) (sym (cc same))
              rest),
      )

  update_values-flatten :
      (chunk : DataChunk Value) (columns : List ℕ) (expressions : List UpdateExpression)
      {rows : List (List (RustExtInputValue Double))}
      → chunk_values chunk columns expressions (tabulate chunk.size (λ i. i)) ≡ ok rows
      → update_values db table chunk columns expressions ≡ ok (flatten rows)
  unfolding update_values
  update_values-flatten chunk columns expressions h = rw h refl

  module _ (platform : Platform db.Double) (config : RustExtClientConfig) where
    open platform use {World}

    -- An UPDATE of a chunk whose expressions have values, at least one to a row, hands each row's id
    -- and values to the API, one row after another, up to the first that is refused. Either all
    -- rows go through and their number is the result, or the error of the refused row is thrown.
    pub update_rows-jobs_of :
        (chunk : DataChunk Value) (columns : List ℕ) (expressions : List UpdateExpression)
        (write_columns : List RustExtWriteColumn) (rows : List (List (RustExtInputValue Double)))
        (w : World)
        → update_columns db table columns expressions ≡ ok write_columns
        → chunk_values chunk columns expressions (tabulate chunk.size (λ i. i)) ≡ ok rows
        → 0 < length expressions
        → (call : Result Text ℕ × World) × (update_rows db platform config table chunk columns
              expressions w
            ≡ thrown db (codes "failed to update Coda rows") call)
          × Ending platform config table.table.id write_columns table.table.capabilities chunk.size
              (jobs_of (chunk_row_ids db chunk (last_column db chunk)) rows)
              w
              call
    unfolding update_rows update_with
    update_rows-jobs_of chunk columns expressions write_columns rows w columns_ok rows_ok
          some_value =
        let ids = chunk_row_ids db chunk (last_column db chunk) in
        let ids_length = length-chunk_row_ids db chunk (last_column db chunk) in
        let same_length : length ids ≡ length rows =
          ids_length
          ∙ sym (
              traverse-length
                (λ row_idx. update_row_values db table chunk row_idx columns expressions)
                (tabulate chunk.size (λ i. i)) rows_ok
              ∙ length-tabulate chunk.size (λ i. i)) in
        let width = length-update_columns columns expressions columns_ok in
        let wide =
          subst (λ k. AreWide k (jobs_of ids rows)) (sym width)
            (jobs_of-AreWide chunk columns expressions (tabulate chunk.size (λ i. i)) ids
              rows_ok) in
        let ending =
          update_rows-Ending platform config table.table.id write_columns table.table.capabilities
            (jobs_of ids rows) w (omega (arith, width, some_value)) wide in
        (
          Mutation.update_rows platform config table.table.id ids write_columns (flatten rows)
              table.table.capabilities w,
          rw (columns_ok, update_rows)
              (rw (update_values-flatten chunk columns expressions rows_ok, update_rows) refl),
          rw
              (
                jobs_of-ids ids rows same_length,
                jobs_of-values ids rows same_length,
                length-jobs_of ids rows same_length ∙ ids_length,
              )
              at ending,
        )
