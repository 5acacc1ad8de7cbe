-- ===== src/Client/Insert.antt =====
-- What an INSERT sends: the arrays that the C++ side builds, read again by the Rust side.
use duckdb_coda.Prelude.{
  ℕ, suc, ◌≡◌, refl, ap, ◌∙◌, true, List, [], ◌∷◌, map, length, length-map, length-tabulate,
  tabulate, tabulate-ext, if◌then◌else◌, Result, ok, err, and_run, arith,
}
use duckdb_coda.Text.{Text, codes}
use duckdb_coda.Abi.{has_capability, column_editable, table_insert, RustExtClientConfig}
use duckdb_coda.Duckdb.{Duckdb, DataChunk, Exception, invalid_input}
use duckdb_coda.Messages.{with_context}
use duckdb_coda.Table.{RustBridgeTableInfo, RustBridgeColumnInfo}
use duckdb_coda.Platform.{Platform, SdkRequest, Json, object, field, end, json_array}
use duckdb_coda.Sdk.{endpoint}
use duckdb_coda.Mutation.{
  cell_json, editable_cells, write_cells, insert_body, perform, upsert_input,
}
use duckdb_coda.Mutation
use duckdb_coda.Mutation.Bodies.{rows_json, insert_body-rows}
use duckdb_coda.Client.{
  write_column, editable_columns, convert, insert_row_values, insert_values, thrown, insert_rows,
}

module _ (db : Duckdb) where
  open db use {Value, Double}

  -- The cells of a row of the table: those of the editable columns, each with its value.
  unfoldable pub row_cells : (ℕ → Value) → List RustBridgeColumnInfo → List (Json Double)
  row_cells value [] = []
  row_cells value (column ∷ columns) =
      if has_capability column.column.capabilities column_editable
      then cell_json (write_column column) (convert db (value 0))
        ∷ row_cells (λ col_idx. value (suc col_idx)) columns
      else row_cells (λ col_idx. value (suc col_idx)) columns

  editable_cells-row :
      (value : ℕ → Value) (columns : List RustBridgeColumnInfo)
      → editable_cells
          (map write_column columns)
          (tabulate (length columns) (λ col_idx. convert db (value col_idx)))
        ≡ row_cells value columns
  unfolding editable_cells row_cells
  editable_cells-row value [] = refl
  editable_cells-row value (column ∷ columns) =
      rw (editable_cells-row (λ col_idx. value (suc col_idx)) columns)

  -- The JSON of an INSERT of a chunk: its rows in order, each with its cells.
  abbrev pub insert_json : RustBridgeTableInfo → DataChunk Value → Json Double
  insert_json table chunk = rows_json (
      tabulate chunk.size (λ row_idx. object (
        field (codes "cells")
          (json_array (row_cells (λ col_idx. chunk.get_value col_idx row_idx) table.columns)) end)))

  write_cells-row :
      (table : RustBridgeTableInfo) (chunk : DataChunk Value) (row_idx : ℕ)
      → write_cells (editable_columns table) (insert_row_values db table chunk row_idx)
        ≡ object (
            field
              (codes "cells")
              (json_array (row_cells (λ col_idx. chunk.get_value col_idx row_idx) table.columns))
              end)
  unfolding write_cells editable_columns insert_row_values
  write_cells-row table chunk row_idx =
      rw (editable_cells-row (λ col_idx. chunk.get_value col_idx row_idx) table.columns)

  insert_row_values-wide :
      (table : RustBridgeTableInfo) (chunk : DataChunk Value) (row_idx : ℕ)
      → length (insert_row_values db table chunk row_idx) ≡ length table.columns
  unfolding insert_row_values
  insert_row_values-wide table chunk row_idx = length-tabulate (length table.columns) _

  module _ (platform : Platform Double) (config : RustExtClientConfig) where
    open platform use {World, json_text, build_upsert_rows}

    -- The request of an INSERT.
    abbrev pub insert_request : RustBridgeTableInfo → DataChunk Value → Result Text SdkRequest
    insert_request table chunk =
        build_upsert_rows (endpoint platform config)
          (upsert_input config table.table.id (json_text (insert_json table chunk)))

    -- The result of an INSERT, by how its one request went.
    abbrev pub insert_result : ℕ → Result Text Unit × World → Result Exception ℕ × World
    insert_result count (ok _, w) = (ok count, w)
    insert_result count (err message, w) =
        (err (invalid_input (with_context (codes "failed to insert Coda rows") message)), w)

    insert_body-json :
        (table : RustBridgeTableInfo) (chunk : DataChunk Value)
        → has_capability table.table.capabilities table_insert ≡ true
        → insert_body platform
            (editable_columns table)
            (insert_values db table chunk)
            chunk.size
            (length table.columns)
            table.table.capabilities
          ≡ ok (json_text (insert_json table chunk))
    unfolding insert_values
    insert_body-json table chunk takes_rows =
        insert_body-rows platform (editable_columns table) chunk.size (length table.columns)
          table.table.capabilities (insert_row_values db table chunk)
          (insert_row_values-wide table chunk)
          (unfold editable_columns in omega (arith, length-map write_column table.columns))
          takes_rows
        ∙ ap (λ rows. ok (json_text (rows_json rows)))
            (tabulate-ext chunk.size _ _ (λ row_idx _. write_cells-row table chunk row_idx))

    insert_result-perform :
        (count : ℕ) (request : Result Text SdkRequest) (w : World)
        → thrown db
            (codes "failed to insert Coda rows")
            (and_run (perform platform config request w) (λ _ w'. (ok count, w')))
          ≡ insert_result count (perform platform config request w)
    insert_result-perform count request w = by_answer (perform platform config request w)
      where
        by_answer :
            (answer : Result Text Unit × World)
            → thrown db
                (codes "failed to insert Coda rows")
                (and_run answer (λ _ w'. (ok count, w')))
              ≡ insert_result count answer
        by_answer (ok _, w) = refl
        by_answer (err message, w) = refl

    -- An INSERT into a table that takes rows sends one request, whose rows are those of the chunk in
    -- order, each with the cells of its editable columns. It reports all rows of the chunk if the
    -- request goes through, and throws its error otherwise.
    pub insert_rows_lem :
        (table : RustBridgeTableInfo) (chunk : DataChunk Value) (w : World)
        → has_capability table.table.capabilities table_insert ≡ true
        → insert_rows db platform config table chunk w
          ≡ insert_result chunk.size (perform platform config (insert_request table chunk) w)
    unfolding insert_rows Mutation.insert_rows
    insert_rows_lem table chunk w takes_rows =
        rw (insert_body-json table chunk takes_rows)
          (insert_result-perform chunk.size (insert_request table chunk) w)
