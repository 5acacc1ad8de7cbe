-- ===== src/Client.antt =====
-- `RustBridgeClient`, src/cpp/rust_bridge_client.cpp, and the value buffer of
-- src/include/rust_bridge_client.hpp: what the C++ side hands over for a write.
pub mod Insert
pub mod Delete
pub mod Update
pub mod Buffer
use duckdb_coda.Prelude.{
  ℕ, ◌+◌, ◌-◌, ◌%◌, ◌^◌, ltb, Bool, false, Option, none, some, List, [], ◌∷◌, map, flatten, length,
  get_elem?, tabulate, if◌then◌else◌, Result, ok, err, and_then, traverse,
}
use duckdb_coda.Text.{Text, codes}
use duckdb_coda.Abi.{
  ℤ, pos, input_null, input_bool, input_int, input_uint, input_double, input_string,
  column_generated, RustExtInputValue, RustExtWriteColumn, RustExtClientConfig,
}
use duckdb_coda.Duckdb.{
  Duckdb, LogicalTypeId, boolean, tinyint, smallint, integer, bigint, utinyint, usmallint, uinteger,
  ubigint, float, double, DataChunk, Exception, invalid_input, not_implemented, out_of_bounds,
}
use duckdb_coda.Messages.{unsupported_update_expression_message, with_context}
use duckdb_coda.Table.{RustBridgeTableInfo, RustBridgeColumnInfo}
use duckdb_coda.Platform.{Platform}
use duckdb_coda.Mutation

abbrev pub write_column : RustBridgeColumnInfo → RustExtWriteColumn
write_column column = record { id = column.column.id; capabilities = column.column.capabilities }

-- `EditableColumns`
unfoldable pub editable_columns : RustBridgeTableInfo → List RustExtWriteColumn
editable_columns table = map write_column table.columns

-- The expressions of an UPDATE that `UpdateRows` tells apart.
pub data UpdateExpression : Type 0 where
  bound_ref : ℕ → UpdateExpression
  value_default : UpdateExpression
  other_expression : UpdateExpression

module _ (db : Duckdb) where
  open db use {
    Value, Double, zero_double, is_null, type_id, get_boolean, get_int64, get_uint64, get_double,
    value_to_string, null_of,
  }

  -- `RustExtInputValue result {}`
  abbrev pub empty_input : RustExtInputValue Double
  empty_input = record {
    value_type = 0;
    bool_value = false;
    int_value = pos 0;
    uint_value = 0;
    double_value = zero_double;
    string_value = [];
  }

  abbrev pub int_input : Value → RustExtInputValue Double
  int_input value = record empty_input { value_type = input_int; int_value = get_int64 value }

  abbrev pub uint_input : Value → RustExtInputValue Double
  uint_input value = record empty_input { value_type = input_uint; uint_value = get_uint64 value }

  abbrev pub double_input : Value → RustExtInputValue Double
  double_input value = record empty_input {
    value_type = input_double;
    double_value = get_double value;
  }

  -- The `switch` of `Convert`.
  unfoldable pub convert_typed : LogicalTypeId → Value → RustExtInputValue Double
  convert_typed boolean value = record empty_input {
    value_type = input_bool;
    bool_value = get_boolean value;
  }
  convert_typed tinyint value = int_input value
  convert_typed smallint value = int_input value
  convert_typed integer value = int_input value
  convert_typed bigint value = int_input value
  convert_typed utinyint value = uint_input value
  convert_typed usmallint value = uint_input value
  convert_typed uinteger value = uint_input value
  convert_typed ubigint value = uint_input value
  convert_typed float value = double_input value
  convert_typed double value = double_input value
  convert_typed any_type value = record empty_input {
    value_type = input_string;
    string_value = value_to_string value;
  }

  -- `RustBridgeInputValueBuffer::Convert`
  unfoldable pub convert : Value → RustExtInputValue Double
  unfolding convert_typed
  convert value =
      if is_null value
      then record empty_input { value_type = input_null }
      else convert_typed (type_id value) value

  -- The values of a row of an INSERT, and those of all rows, one after another.
  unfoldable pub insert_row_values :
      RustBridgeTableInfo → DataChunk Value → ℕ → List (RustExtInputValue Double)
  insert_row_values table chunk row_idx =
      tabulate (length table.columns) (λ col_idx. convert (chunk.get_value col_idx row_idx))

  unfoldable pub insert_values :
      RustBridgeTableInfo → DataChunk Value → List (RustExtInputValue Double)
  insert_values table chunk = flatten (tabulate chunk.size (insert_row_values table chunk))

  -- The column that an UPDATE writes; one past the table's columns counts as generated.
  unfoldable pub update_column : RustBridgeTableInfo → ℕ → RustExtWriteColumn
  update_column table col_idx = elim (get_elem? table.columns col_idx) [
    | none ↦ record { id = []; capabilities = column_generated }
    | some column ↦ write_column column
  ]

  -- The loop over the expressions, for the columns.
  unfoldable pub update_columns :
      RustBridgeTableInfo
      → List ℕ
      → List UpdateExpression
      → Result Exception (List RustExtWriteColumn)
  update_columns table columns [] = ok []
  update_columns table [] (expression ∷ expressions) = err out_of_bounds
  update_columns table (col_idx ∷ columns) (expression ∷ expressions) =
      and_then (update_columns table columns expressions)
        (λ rest. ok (update_column table col_idx ∷ rest))

  -- The value of one expression in one row, for a column of the table.
  unfoldable pub expression_value :
      RustBridgeColumnInfo → DataChunk Value → ℕ → UpdateExpression → Result Exception Value
  expression_value column chunk row_idx (bound_ref index) = ok (chunk.get_value index row_idx)
  expression_value column chunk row_idx value_default = ok (null_of column.duckdb_type)
  expression_value column chunk row_idx other_expression =
      err (not_implemented unsupported_update_expression_message)

  unfoldable pub update_value :
      RustBridgeTableInfo
      → DataChunk Value
      → ℕ
      → ℕ
      → UpdateExpression
      → Result Exception (RustExtInputValue Double)
  update_value table chunk row_idx col_idx expression = elim (get_elem? table.columns col_idx) [
    | none ↦ ok (record empty_input { value_type = input_null })
    | some column ↦
        and_then (expression_value column chunk row_idx expression) (λ value. ok (convert value))
  ]

  -- The loop over the expressions, for the values of one row.
  unfoldable pub update_row_values :
      RustBridgeTableInfo
      → DataChunk Value
      → ℕ
      → List ℕ
      → List UpdateExpression
      → Result Exception (List (RustExtInputValue Double))
  update_row_values table chunk row_idx columns [] = ok []
  update_row_values table chunk row_idx [] (expression ∷ expressions) = err out_of_bounds
  update_row_values table chunk row_idx (col_idx ∷ columns) (expression ∷ expressions) =
      and_then (update_value table chunk row_idx col_idx expression) (λ value.
        and_then (update_row_values table chunk row_idx columns expressions)
          (λ values. ok (value ∷ values)))

  unfoldable pub update_values :
      RustBridgeTableInfo
      → DataChunk Value
      → List ℕ
      → List UpdateExpression
      → Result Exception (List (RustExtInputValue Double))
  update_values table chunk columns expressions =
      and_then
        (traverse (λ row_idx. update_row_values table chunk row_idx columns expressions)
          (tabulate chunk.size (λ row_idx. row_idx)))
        (λ rows. ok (flatten rows))

  -- `chunk.GetValue(row_id_index, row_idx).ToString()` for each row
  unfoldable pub chunk_row_ids : DataChunk Value → ℕ → List Text
  chunk_row_ids chunk row_id_index =
      tabulate chunk.size (λ row_idx. value_to_string (chunk.get_value row_id_index row_idx))

  -- `chunk.ColumnCount() - 1`, in 64 bits
  unfoldable pub last_column : DataChunk Value → ℕ
  last_column chunk = (chunk.column_count + 2 ^ 64 - 1) % 2 ^ 64

  -- A Rust error, as the exception that the C++ side throws for it.
  abbrev pub thrown : {A W : Type 0} → Text → Result Text A × W → Result Exception A × W
  thrown context (ok a, w) = (ok a, w)
  thrown context (err message, w) = (err (invalid_input (with_context context message)), w)

  module _ (platform : Platform Double) (config : RustExtClientConfig) where
    open platform use {World}

    -- `RustBridgeClient::InsertRows`
    unfoldable pub insert_rows :
        RustBridgeTableInfo → DataChunk Value → World → Result Exception ℕ × World
    insert_rows table chunk w = thrown (codes "failed to insert Coda rows") (
        Mutation.insert_rows platform config table.table.id (editable_columns table)
          (insert_values table chunk) chunk.size (length table.columns) table.table.capabilities w)

    -- The call of `rust_ext_client_update_rows`, once the arrays are there.
    unfoldable pub update_with :
        RustBridgeTableInfo
        → List Text
        → World
        → List RustExtWriteColumn
        → List (RustExtInputValue Double)
        → Result Exception ℕ × World
    update_with table row_ids w columns values = thrown (codes "failed to update Coda rows") (
        Mutation.update_rows platform config table.table.id row_ids columns values
          table.table.capabilities w)

    -- `RustBridgeClient::UpdateRows`
    unfoldable pub update_rows :
        RustBridgeTableInfo
        → DataChunk Value
        → List ℕ
        → List UpdateExpression
        → World
        → Result Exception ℕ × World
    update_rows table chunk columns expressions w =
        elim (update_columns table columns expressions) [
          | err e ↦ (err e, w)
          | ok write_columns ↦ elim (update_values table chunk columns expressions) [
            | err e ↦ (err e, w)
            | ok values ↦
                update_with table (chunk_row_ids chunk (last_column chunk)) w write_columns values
          ]
        ]

    -- `RustBridgeClient::DeleteRows`
    unfoldable pub delete_rows :
        RustBridgeTableInfo → DataChunk Value → ℕ → World → Result Exception ℕ × World
    delete_rows table chunk row_id_index w =
        thrown (codes "failed to delete Coda rows")
          (Mutation.delete_rows platform config table.table.id (chunk_row_ids chunk row_id_index) w)
