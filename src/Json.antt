-- ===== src/Json.antt =====
-- The readers of the API's JSON, src/json.rs: tables, columns and rows. `serde_json` parses; an
-- object is the list of its fields in the order that it iterates them in.
pub mod Names
pub mod Rows
use duckdb_coda.Prelude.{
  ℕ, bit_or, Bool, true, false, not, ◌||◌, Option, none, some, List, [], ◌∷◌, map, if◌then◌else◌,
  Result, ok, err, and_then, traverse,
}
use duckdb_coda.Text.{Text, codes, text_eq, eq_ignore_ascii_case}
use duckdb_coda.Abi.{
  column_generated, column_editable, column_filter_equality, column_array, table_view, table_insert,
  table_update, table_delete, table_row_id, RustExtTable, RustExtTableList, RustExtColumn,
  RustExtColumnList, RustExtCell, RustExtRow, CodaRowsResponse,
}
use duckdb_coda.Platform.{
  Json, null, bool, int, uint, double, string, array, object, Items, nil, cons, Fields, end, field,
  Platform,
}

abbrev pub list_of : {Double : Type 0} → Items Double → List (Json Double)
list_of nil = []
list_of (cons j js) = j ∷ list_of js

abbrev pub fields_of : {Double : Type 0} → Fields Double → List (Text × Json Double)
fields_of end = []
fields_of (field key value rest) = (key, value) ∷ fields_of rest

-- `Map::get`
unfoldable pub find_field : {Double : Type 0} → Text → Fields Double → Option (Json Double)
unfolding text_eq
find_field key end = none
find_field key (field other value rest) =
    if text_eq other key then some value else find_field key rest

-- `Value::get`
unfoldable pub get : {Double : Type 0} → Text → Json Double → Option (Json Double)
unfolding find_field
get key (object fields) = find_field key fields
get key other = none

-- `and_then(Value::as_str)`, and so on
unfoldable pub as_str : {Double : Type 0} → Option (Json Double) → Option Text
as_str (some (string s)) = some s
as_str other = none

unfoldable pub as_bool : {Double : Type 0} → Option (Json Double) → Option Bool
as_bool (some (bool b)) = some b
as_bool other = none

unfoldable pub as_array : {Double : Type 0} → Option (Json Double) → Option (List (Json Double))
as_array (some (array items)) = some (list_of items)
as_array other = none

unfoldable pub as_object : {Double : Type 0} → Option (Json Double) → Option (Fields Double)
as_object (some (object fields)) = some fields
as_object other = none

abbrev pub unwrap_or : {A : Type 0} → Option A → A → A
unwrap_or none default = default
unwrap_or (some a) default = a

abbrev pub ok_or : {A : Type 0} → Option A → Text → Result Text A
ok_or none message = err message
ok_or (some a) message = ok a

-- `json_value_type`
unfoldable pub json_value_type : {Double : Type 0} → Json Double → ℕ
json_value_type null = 1
json_value_type (bool b) = 2
json_value_type (string s) = 3
json_value_type other = 4

-- The formats that `logical_type` reads as numbers.
unfoldable pub is_number_format : Text → Bool
unfolding eq_ignore_ascii_case
is_number_format format_type =
    eq_ignore_ascii_case format_type (codes "number")
    || eq_ignore_ascii_case format_type (codes "currency")
    || eq_ignore_ascii_case format_type (codes "percent")
    || eq_ignore_ascii_case format_type (codes "duration")
    || eq_ignore_ascii_case format_type (codes "slider")
    || eq_ignore_ascii_case format_type (codes "scale")

-- `logical_type`
unfoldable pub logical_type : Text → Bool → ℕ
unfolding is_number_format eq_ignore_ascii_case
logical_type format_type is_array =
    if is_array
    then 0
    else if eq_ignore_ascii_case format_type (codes "checkbox")
    then 1
    else if is_number_format format_type
    then 2
    else 0

-- The items of the root, and a token of it.
unfoldable pub root_items : {Double : Type 0} → Json Double → Result Text (List (Json Double))
unfolding get as_array
root_items root = ok_or (as_array (get (codes "items") root)) (codes "missing items array")

unfoldable pub text_or_empty : {Double : Type 0} → Text → Json Double → Text
unfolding get as_str
text_or_empty key value = unwrap_or (as_str (get key value)) []

unfoldable pub flag_or_false : {Double : Type 0} → Text → Json Double → Bool
unfolding get as_bool
flag_or_false key value = unwrap_or (as_bool (get key value)) false

unfoldable pub text_or_error : {Double : Type 0} → Text → Text → Json Double → Result Text Text
unfolding get as_str
text_or_error key message value = ok_or (as_str (get key value)) message

-- What a table may be used for, by its type.
unfoldable pub table_capabilities : {Double : Type 0} → Json Double → ℕ
unfolding get as_str eq_ignore_ascii_case
table_capabilities item =
    if not (
      eq_ignore_ascii_case (unwrap_or (as_str (get (codes "tableType") item)) (codes "table"))
        (codes "table"))
    then bit_or table_view table_row_id
    else bit_or (bit_or (bit_or table_insert table_update) table_delete) table_row_id

-- The body of the loop of `table_list_from_json`.
unfoldable pub table_from_json : {Double : Type 0} → Json Double → Result Text RustExtTable
unfolding text_or_error table_capabilities
table_from_json item = and_then (text_or_error (codes "id") (codes "missing table id") item) (λ id.
    and_then (text_or_error (codes "name") (codes "missing table name") item)
      (λ name. ok (record { id = id; name = name; capabilities = table_capabilities item })))

-- The format of a column.
unfoldable pub format_field : {Double : Type 0} → Text → Json Double → Option (Json Double)
unfolding get as_object find_field
format_field key item = elim (as_object (get (codes "format") item)) [
  | none ↦ none
  | some format ↦ find_field key format
]

-- What a column may be used for.
unfoldable pub column_capabilities : Bool → Bool → ℕ
column_capabilities calculated is_array =
    bit_or
      (bit_or (if calculated then column_generated else 0)
        (if not calculated then column_editable else 0))
      (if not is_array then column_filter_equality else column_array)

-- The body of the loop of `column_list_from_json`.
unfoldable pub column_from_json : {Double : Type 0} → Json Double → Result Text RustExtColumn
unfolding format_field as_str as_bool flag_or_false text_or_error column_capabilities logical_type
column_from_json item =
    let format_type = unwrap_or (as_str (format_field (codes "type") item)) (codes "text") in
    let is_array = unwrap_or (as_bool (format_field (codes "isArray") item)) false in
    and_then (text_or_error (codes "id") (codes "missing column id") item) (λ id.
      and_then (text_or_error (codes "name") (codes "missing column name") item) (λ name.
        ok (record {
          id = id;
          name = name;
          type_name = format_type;
          capabilities = column_capabilities (flag_or_false (codes "calculated") item) is_array;
          logical_type = logical_type format_type is_array;
        })))

module _ {Double : Type 0} (platform : Platform Double) where
  open platform use {json_text, from_str}

  -- `json_value_string`
  unfoldable pub json_value_string : Json Double → Text
  json_value_string null = codes "null"
  json_value_string (bool true) = codes "true"
  json_value_string (bool false) = codes "false"
  json_value_string (string s) = s
  json_value_string other = json_text other

  -- `table_list_from_json`
  unfoldable pub table_list_from_json : Text → Result Text RustExtTableList
  unfolding root_items table_from_json text_or_empty
  table_list_from_json body = and_then (from_str body) (λ root. and_then (root_items root) (λ items.
      and_then (traverse table_from_json items) (λ tables.
        ok (record {
          items = tables;
          next_page_token = text_or_empty (codes "nextPageToken") root;
        }))))

  -- `column_list_from_json`
  unfoldable pub column_list_from_json : Text → Result Text RustExtColumnList
  unfolding root_items column_from_json text_or_empty
  column_list_from_json body = and_then (from_str body) (λ root.
      and_then (root_items root) (λ items. and_then (traverse column_from_json items) (λ columns.
        ok (record {
          items = columns;
          next_page_token = text_or_empty (codes "nextPageToken") root;
        }))))

  unfoldable pub cell_from_json : Text × Json Double → RustExtCell
  unfolding json_value_type json_value_string
  cell_from_json (column_id, value) = record {
    column_id = column_id;
    value_type = json_value_type value;
    value = json_value_string value;
  }

  -- The cells of a row: those of its values, if these are an object.
  unfoldable pub cells_from_json : Json Double → List RustExtCell
  unfolding get as_object cell_from_json
  cells_from_json item = elim (as_object (get (codes "values") item)) [
    | none ↦ []
    | some values ↦ map cell_from_json (fields_of values)
  ]

  -- The body of the loop of `rows_from_json`.
  unfoldable pub row_from_json : Json Double → Result Text RustExtRow
  unfolding cells_from_json text_or_empty text_or_error flag_or_false
  row_from_json item = and_then (text_or_error (codes "id") (codes "missing row id") item) (λ id.
      ok (record {
        id = id;
        created_at = text_or_empty (codes "createdAt") item;
        updated_at = text_or_empty (codes "updatedAt") item;
        deleted = flag_or_false (codes "deleted") item || flag_or_false (codes "isDeleted") item;
        cells = cells_from_json item;
      }))

  -- `rows_from_json`
  unfoldable pub rows_from_json : Text → Result Text CodaRowsResponse
  unfolding root_items row_from_json text_or_empty
  rows_from_json body = and_then (from_str body) (λ root. and_then (root_items root) (λ items.
      and_then (traverse row_from_json items) (λ rows. ok (record {
        rows = rows;
        next_page_token = text_or_empty (codes "nextPageToken") root;
        next_sync_token = text_or_empty (codes "nextSyncToken") root;
      }))))
