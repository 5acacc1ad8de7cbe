-- ===== src/Mutation.antt =====
-- src/mutation.rs: the bodies of the write requests, and the requests sent.
pub mod Bodies
pub mod Updates
use duckdb_coda.Prelude.{
  ℕ, zero, suc, ◌+◌, ◌*◌, ◌==◌, ltb, Bool, true, false, not, ◌&&◌, ◌||◌, Option, none, some, List,
  [], ◌∷◌, ◌++◌, map, length, take, drop, is_empty, tabulate, if◌then◌else◌, Result, ok, err,
  and_run,
}
use duckdb_coda.Text.{Text, codes}
use duckdb_coda.Abi.{
  has_capability, column_editable, table_insert, table_update, RustExtClientConfig,
  RustExtWriteColumn, RustExtInputValue,
}
use duckdb_coda.Platform.{
  Platform, SdkRequest, UpsertRowsInput, UpdateRowInput, Json, null, bool, int, uint, double,
  string, object, field, end, json_array,
}
use duckdb_coda.Sdk.{endpoint, send_request}

-- `&values[start..start + count]`
abbrev pub slice {ℓ} : {A : Type ℓ} → ℕ → ℕ → List A → List A
slice start count values = take count (drop start values)

module _ {Double : Type 0} where
  -- `input_value_json`, by the value's type tag.
  unfoldable pub json_by_type : ℕ → RustExtInputValue Double → Json Double
  json_by_type zero value = null
  json_by_type (suc zero) value = bool value.bool_value
  json_by_type (suc (suc zero)) value = int value.int_value
  json_by_type (suc (suc (suc zero))) value = uint value.uint_value
  json_by_type (suc (suc (suc (suc zero)))) value = double value.double_value
  json_by_type (suc (suc (suc (suc (suc zero))))) value = string value.string_value
  json_by_type other value = null

  unfoldable pub input_value_json : RustExtInputValue Double → Json Double
  unfolding json_by_type
  input_value_json value = json_by_type value.value_type value

  -- A cell of a row: the column's id and the value.
  unfoldable pub cell_json : RustExtWriteColumn → RustExtInputValue Double → Json Double
  cell_json column value = object (
      field (codes "column") (string column.id)
        (field (codes "value") (input_value_json value) end))

  -- The loop of `write_cells` over the pairs of a column and a value.
  unfoldable pub editable_cells :
      List RustExtWriteColumn → List (RustExtInputValue Double) → List (Json Double)
  editable_cells [] values = []
  editable_cells (column ∷ columns) [] = []
  editable_cells (column ∷ columns) (value ∷ values) =
      if has_capability column.capabilities column_editable
      then cell_json column value ∷ editable_cells columns values
      else editable_cells columns values

  -- `write_cells`
  unfoldable pub write_cells :
      List RustExtWriteColumn → List (RustExtInputValue Double) → Json Double
  write_cells columns values =
      object (field (codes "cells") (json_array (editable_cells columns values)) end)

-- The inputs of the SDK's requests.
unfoldable pub upsert_input : RustExtClientConfig → Text → Text → UpsertRowsInput
upsert_input config table_id body = record {
  doc_id = config.resource;
  table_id_or_name = table_id;
  disable_parsing = some false;
  payload = body;
}

unfoldable pub update_input : RustExtClientConfig → Text → Text → Text → UpdateRowInput
update_input config table_id row_id body = record {
  doc_id = config.resource;
  table_id_or_name = table_id;
  row_id_or_name = row_id;
  disable_parsing = some false;
  payload = body;
}

module _ {Double : Type 0} (platform : Platform Double) where
  open platform use {World, json_text, build_upsert_rows, build_update_row, build_delete_rows}

  -- `insert_body`
  unfoldable pub insert_body :
      List RustExtWriteColumn → List (RustExtInputValue Double) → ℕ → ℕ → ℕ → Result Text Text
  insert_body columns values row_count value_column_count table_capabilities =
      if not (has_capability table_capabilities table_insert)
      then err (codes "insert is unsupported for this table")
      else if ltb value_column_count (length columns)
          || ltb (length values) (row_count * value_column_count)
      then err (codes "invalid insert value shape")
      else ok (
          json_text (
            object (
              field (codes "rows")
                (json_array (
                  tabulate row_count (λ row_index.
                    write_cells columns
                      (slice (row_index * value_column_count) value_column_count values))))
                end)))

  -- `update_body`
  unfoldable pub update_body :
      List RustExtWriteColumn → List (RustExtInputValue Double) → ℕ → Result Text Text
  update_body columns values table_capabilities =
      if not (has_capability table_capabilities table_update)
      then err (codes "update is unsupported for this table")
      else if not (length columns == length values)
      then err (codes "invalid update value shape")
      else ok (json_text (object (field (codes "row") (write_cells columns values) end)))

  -- `delete_body`
  unfoldable pub delete_body : List Text → Text
  delete_body row_ids =
      json_text (object (field (codes "rowIds") (json_array (map string row_ids)) end))

  -- A request that is built and sent, and whose answer is dropped.
  unfoldable pub perform :
      RustExtClientConfig → Result Text SdkRequest → World → Result Text Unit × World
  perform config (err message) w = (err message, w)
  perform config (ok request) w =
      and_run (send_request platform config request w) (λ _ w'. (ok tt, w'))

  -- `insert_rows`
  unfoldable pub insert_rows :
      RustExtClientConfig
      → Text
      → List RustExtWriteColumn
      → List (RustExtInputValue Double)
      → ℕ
      → ℕ
      → ℕ
      → World
      → Result Text ℕ × World
  insert_rows config table_id columns values row_count value_column_count capabilities w =
      and_run (insert_body columns values row_count value_column_count capabilities, w)
        (λ body w.
          and_run
            (perform config
              (build_upsert_rows (endpoint platform config) (upsert_input config table_id body)) w)
            (λ _ w'. (ok row_count, w')))

  -- One row of `update_rows`: its body, and its request.
  unfoldable pub update_row :
      RustExtClientConfig
      → Text
      → List RustExtWriteColumn
      → ℕ
      → Text
      → List (RustExtInputValue Double)
      → World
      → Result Text Unit × World
  update_row config table_id columns capabilities row_id row_values w =
      and_run (update_body columns row_values capabilities, w)
        (λ body w.
          perform config
            (build_update_row (endpoint platform config) (update_input config table_id row_id body))
            w)

  -- The loop of `update_rows`, from row `row_index` on.
  unfoldable pub update_loop :
      RustExtClientConfig
      → Text
      → List RustExtWriteColumn
      → List (RustExtInputValue Double)
      → ℕ
      → ℕ
      → List Text
      → World
      → Result Text Unit × World
  update_loop config table_id columns values capabilities row_index [] w = (ok tt, w)
  update_loop config table_id columns values capabilities row_index (row_id ∷ row_ids) w =
      and_run
        (update_row config table_id columns capabilities row_id
          (slice (row_index * length columns) (length columns) values) w)
        (λ _ w'. update_loop config table_id columns values capabilities (suc row_index) row_ids w')

  -- `update_rows`
  unfoldable pub update_rows :
      RustExtClientConfig
      → Text
      → List Text
      → List RustExtWriteColumn
      → List (RustExtInputValue Double)
      → ℕ
      → World
      → Result Text ℕ × World
  update_rows config table_id row_ids columns values capabilities w =
      if is_empty columns && not (is_empty row_ids)
      then (err (codes "update column count mismatch"), w)
      else if not (length values == length row_ids * length columns)
      then (err (codes "update value count mismatch"), w)
      else and_run (update_loop config table_id columns values capabilities 0 row_ids w)
          (λ _ w'. (ok (length row_ids), w'))

  -- `delete_rows`
  unfoldable pub delete_rows :
      RustExtClientConfig → Text → List Text → World → Result Text ℕ × World
  delete_rows config table_id row_ids w =
      if is_empty row_ids
      then (ok 0, w)
      else and_run
          (perform config
            (build_delete_rows (endpoint platform config) (record {
              doc_id = config.resource;
              table_id_or_name = table_id;
              payload = delete_body row_ids;
            }))
            w)
          (λ _ w'. (ok (length row_ids), w'))
