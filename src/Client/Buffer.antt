-- ===== src/Client/Buffer.antt =====
-- The memory behind the values of a write: `RustBridgeInputValueBuffer` keeps the strings that it
-- hands out pointers into, and `Reserve` is to keep them where they are.
pub mod Borrows
use duckdb_coda.Prelude.{
  ℕ, zero, suc, ◌+◌, ◌*◌, tabulate, flatten, ◌<◌, ◌≤◌, ◌==◌, ltb, ◌≡◌, refl, ap, ◌∙◌, Bool, true,
  false, Option, none, some, List, [], ◌∷◌, ◌++◌, map, length, length-append, get_elem?,
  if◌then◌else◌, if_true, if_false, lt→ltb, arith,
}
use duckdb_coda.Text.{Text}
use duckdb_coda.Abi.{
  ℤ, RustExtInputValue, input_null, input_bool, input_int, input_uint, input_double, input_string,
}
use duckdb_coda.Duckdb.{
  Duckdb, LogicalTypeId, boolean, tinyint, smallint, integer, bigint, utinyint, usmallint, uinteger,
  ubigint, float, double, DataChunk,
}
use duckdb_coda.Table.{RustBridgeTableInfo}
use duckdb_coda.Client.{convert, convert_typed, empty_input}

-- A `vector<string>`. A pointer into one of its strings is good as long as the vector has not moved
-- to a larger block: a short string lies in the block itself.
pub record StringVector : Type 0 where
  pub strings : List Text
  pub capacity : ℕ
  pub moves : ℕ

abbrev pub new_vector : StringVector
new_vector = record { strings = []; capacity = 0; moves = 0 }

-- `strings.reserve(count)`, which takes room for `count` strings and no more.
unfoldable pub reserve : ℕ → StringVector → StringVector
reserve count v =
    if ltb v.capacity count then record v { capacity = count; moves = suc v.moves } else v

-- `strings.push_back(value)`; a full vector moves to a block with room for one more at least.
unfoldable pub push_back : (ℕ → ℕ) → Text → StringVector → StringVector
push_back growth value v =
    if ltb (length v.strings) v.capacity
    then record v { strings = v.strings ++ value ∷ [] }
    else record {
      strings = v.strings ++ value ∷ [];
      capacity = suc (length v.strings + growth (length v.strings));
      moves = suc v.moves;
    }

-- A pointer into the vector: which of its blocks, and which of its strings.
pub record Borrowed : Type 0 where
  pub block : ℕ
  pub index : ℕ

-- What is read through a pointer; `none` is a pointer into a block that has been given back.
unfoldable pub read : StringVector → Borrowed → Option Text
read v b = if b.block == v.moves then get_elem? v.strings b.index else none

-- What `Convert` returns: a value that holds what it says, or one whose text is borrowed.
pub data BufferedValue (Double : Type 0) : Type 0 where
  held : RustExtInputValue Double → BufferedValue Double
  borrowed : Borrowed → BufferedValue Double

module _ (db : Duckdb) (growth : ℕ → ℕ) where
  open db use {Value, Double, is_null, type_id, value_to_string}

  -- The text of a value, pushed and borrowed from the back of the vector.
  unfoldable pub borrow_text : Text → StringVector → BufferedValue Double × StringVector
  unfolding push_back
  borrow_text value v =
      let pushed = push_back growth value v in
      (borrowed (record { block = pushed.moves; index = length v.strings }), pushed)

  -- The `switch` of `Convert`, with the buffer.
  unfoldable pub typed_into :
      LogicalTypeId → Value → StringVector → BufferedValue Double × StringVector
  typed_into boolean value v = (held (convert_typed db boolean value), v)
  typed_into tinyint value v = (held (convert_typed db tinyint value), v)
  typed_into smallint value v = (held (convert_typed db smallint value), v)
  typed_into integer value v = (held (convert_typed db integer value), v)
  typed_into bigint value v = (held (convert_typed db bigint value), v)
  typed_into utinyint value v = (held (convert_typed db utinyint value), v)
  typed_into usmallint value v = (held (convert_typed db usmallint value), v)
  typed_into uinteger value v = (held (convert_typed db uinteger value), v)
  typed_into ubigint value v = (held (convert_typed db ubigint value), v)
  typed_into float value v = (held (convert_typed db float value), v)
  typed_into double value v = (held (convert_typed db double value), v)
  typed_into any_type value v = borrow_text (value_to_string value) v

  -- `RustBridgeInputValueBuffer::Convert`, with the buffer.
  unfoldable pub convert_into : Value → StringVector → BufferedValue Double × StringVector
  convert_into value v =
      if is_null value
      then (held (record (empty_input db) { value_type = input_null }), v)
      else typed_into (type_id value) value v

  -- `values.push_back(value_buffer.Convert(value))` for each value.
  unfoldable pub convert_all :
      List Value → StringVector → List (BufferedValue Double) × StringVector
  convert_all [] v = ([], v)
  convert_all (value ∷ values) v =
      let (first, v₁) = convert_into value v in
      let (rest, v₂) = convert_all values v₁ in (first ∷ rest, v₂)

  -- What the Rust side reads, when the vector is as it is then.
  unfoldable pub resolve : StringVector → BufferedValue Double → Option (RustExtInputValue Double)
  unfolding read
  resolve v (held value) = some value
  resolve v (borrowed b) = elim (read v b) [
    | none ↦ none
    | some text ↦ some (record (empty_input db) { value_type = input_string; string_value = text })
  ]

  -- The values that `InsertRows` converts, in its order.
  unfoldable pub insert_cells : RustBridgeTableInfo → DataChunk Value → List Value
  insert_cells table chunk = flatten (
      tabulate chunk.size
        (λ row_idx. tabulate (length table.columns) (λ col_idx. chunk.get_value col_idx row_idx)))

  -- The buffer of `InsertRows` and the values that it fills, before the call of the Rust side.
  unfoldable pub insert_buffered :
      RustBridgeTableInfo → DataChunk Value → List (BufferedValue Double) × StringVector
  insert_buffered table chunk =
      convert_all (insert_cells table chunk)
        (reserve (chunk.size * length table.columns) new_vector)
