-- ===== src/Json/Rows.antt =====
-- The rows of a response, written as the API writes them and read back by `rows_from_json`.
use duckdb_coda.Prelude.{
  ℕ, zero, suc, ◌≡◌, refl, Bool, true, false, ◌||◌, List, [], ◌∷◌, map, ok, traverse,
}
use mathlib.Core.Path.{ap₂}
use duckdb_coda.Text.{Text, codes, text_eq}
use duckdb_coda.Abi.{RustExtCell, RustExtRow, CodaRowsResponse}
use duckdb_coda.Platform.{
  Json, null, bool, string, array, object, Items, nil, cons, Fields, end, field, Platform,
}
use duckdb_coda.Json.{
  list_of, fields_of, find_field, get, as_str, as_bool, as_array, as_object, json_value_type,
  root_items, text_or_empty, flag_or_false, text_or_error, json_value_string, cell_from_json,
  cells_from_json, row_from_json, rows_from_json,
}

module _ {Double : Type 0} where
  -- The JSON of a value, by its type tag.
  unfoldable pub cell_value_json : ℕ → Text → Json Double
  unfolding text_eq
  cell_value_json (suc zero) value = null
  cell_value_json (suc (suc zero)) value = bool (text_eq value (codes "true"))
  cell_value_json other value = string value

  abbrev values_json : List RustExtCell → Fields Double
  values_json [] = end
  values_json (cell ∷ cells) =
      field cell.column_id (cell_value_json cell.value_type cell.value) (values_json cells)

  abbrev row_json : RustExtRow → Json Double
  row_json row = object (
      field (codes "id") (string row.id) (
        field (codes "createdAt") (string row.created_at) (
          field (codes "updatedAt") (string row.updated_at) (
            field (codes "deleted") (bool row.deleted)
              (field (codes "values") (object (values_json row.cells)) end)))))

  abbrev rows_items : List RustExtRow → Items Double
  rows_items [] = nil
  rows_items (row ∷ rows) = cons (row_json row) (rows_items rows)

  -- A response of the API.
  abbrev pub response_json : CodaRowsResponse → Json Double
  response_json response = object (
      field (codes "items") (array (rows_items response.rows)) (
        field (codes "nextPageToken") (string response.next_page_token)
          (field (codes "nextSyncToken") (string response.next_sync_token) end)))

abbrev bool_text : Bool → Text
bool_text true = codes "true"
bool_text false = codes "false"

-- A cell that is not a number, an array or an object.
pub data Plain : RustExtCell → Type 0 where
  is_text : (id value : Text) → Plain (record { column_id = id; value_type = 3; value = value })
  is_flag :
      (id : Text) (b : Bool)
      → Plain (record { column_id = id; value_type = 2; value = bool_text b })
  is_null : (id : Text) → Plain (record { column_id = id; value_type = 1; value = codes "null" })

unfoldable pub AllPlain : List RustExtCell → Type 0
AllPlain [] = Unit
AllPlain (cell ∷ cells) = Plain cell × AllPlain cells

unfoldable pub PlainRows : List RustExtRow → Type 0
unfolding AllPlain
PlainRows [] = Unit
PlainRows (row ∷ rows) = AllPlain row.cells × PlainRows rows

or_false : (b : Bool) → (b || false) ≡ b
or_false true = refl
or_false false = refl

module _ {Double : Type 0} (platform : Platform Double) where
  cell-read :
      {cell : RustExtCell}
      → Plain cell
      → cell_from_json platform (cell.column_id, cell_value_json cell.value_type cell.value) ≡ cell
  unfolding cell_from_json json_value_type json_value_string cell_value_json text_eq
  cell-read (is_text id value) = refl
  cell-read (is_flag id true) = refl
  cell-read (is_flag id false) = refl
  cell-read (is_null id) = refl

  cells-read :
      (cells : List RustExtCell)
      → AllPlain cells
      → map (cell_from_json platform) (fields_of (values_json cells)) ≡ cells
  unfolding AllPlain
  cells-read [] plain = refl
  cells-read (cell ∷ cells) (first, rest) =
      ap₂ (λ c (t : List RustExtCell). c ∷ t) (cell-read first) (cells-read cells rest)

  row-read :
      (row : RustExtRow) → AllPlain row.cells → row_from_json platform (row_json row) ≡ ok row
  unfolding row_from_json cells_from_json text_or_empty text_or_error flag_or_false get as_str
      as_bool as_object find_field text_eq
  row-read row plain =
      ap₂ (λ d (cells : List RustExtCell). ok (record row { deleted = d; cells = cells }))
        (or_false row.deleted) (cells-read row.cells plain)

  rows-read :
      (rows : List RustExtRow)
      → PlainRows rows
      → traverse (row_from_json platform) (list_of (rows_items rows)) ≡ ok rows
  unfolding PlainRows
  rows-read [] plain = refl
  rows-read (row ∷ rows) (first, rest) = rw (row-read row first, rows-read rows rest) refl

  -- A response whose cells are all texts, flags or nulls, as the API writes it, is read back whole: its rows in
  -- order with their ids, times, marks and cells, and both tokens.
  pub rows_from_json-response_json :
      (body : Text) (response : CodaRowsResponse)
      → platform.from_str body ≡ ok (response_json response)
      → PlainRows response.rows
      → rows_from_json platform body ≡ ok response
  unfolding rows_from_json root_items text_or_empty get as_array as_str find_field text_eq
  rows_from_json-response_json body response parsed plain =
      rw (rows_from_json, parsed, rows-read response.rows plain) refl
