-- ===== src/Blocks/Readers.antt =====
-- The readers of src/json.rs with their allocations, in the order that they are made in. A reader
-- that returns an error in the middle of a struct leaves what it has allocated.
pub mod Made
pub mod Pages
pub mod Rows
pub mod Leaks
use duckdb_coda.Prelude.{
  ℕ, false, ◌||◌, Option, none, some, List, [], ◌∷◌, Result, ok, err, and_run,
}
use duckdb_coda.Text.{Text, codes}
use duckdb_coda.Platform.{Json, Platform}
use duckdb_coda.Blocks.{
  Slice, RawCell, RawRow, RawTable, RawColumn, Heap, into_raw_parts, alloc_string, cell_kind,
  row_kind, table_kind, column_kind,
}
use duckdb_coda.Json.{
  unwrap_or, fields_of, get, as_str, as_bool, as_object, format_field, text_or_error, text_or_empty,
  flag_or_false, root_items, table_capabilities, column_capabilities, logical_type, json_value_type,
  json_value_string,
}

-- `CodaRowsResponse`, and a list of tables or of columns, with their pointers.
pub record RawRowsResponse : Type 0 where
  pub rows : Slice
  pub next_page_token : Slice
  pub next_sync_token : Slice

pub record RawList : Type 0 where
  pub items : Slice
  pub next_page_token : Slice

-- A loop that pushes what its body makes, up to the first error.
abbrev pub push_each :
    {A R : Type 0} → (A → Heap → Result Text R × Heap) → List A → Heap → Result Text (List R) × Heap
push_each f [] h = (ok [], h)
push_each f (a ∷ rest) h =
    and_run (f a h) (λ r h₁. and_run (push_each f rest h₁) (λ rs h₂. (ok (r ∷ rs), h₂)))

module _ {Double : Type 0} where
  -- The body of the loop of `table_list_from_json`.
  unfoldable pub table_to_raw : Json Double → Heap → Result Text RawTable × Heap
  unfolding text_or_error table_capabilities into_raw_parts
  table_to_raw item h =
      and_run (text_or_error (codes "id") (codes "missing table id") item, h)
        (λ id h₁.
          let (id', h₂) = alloc_string id h₁ in
          and_run (text_or_error (codes "name") (codes "missing table name") item, h₂)
            (λ name h₃.
              let (name', h₄) = alloc_string name h₃ in
              (ok (record { id = id'; name = name'; capabilities = table_capabilities item }), h₄)))

  -- The body of the loop of `column_list_from_json`.
  unfoldable pub column_to_raw : Json Double → Heap → Result Text RawColumn × Heap
  unfolding format_field as_str as_bool flag_or_false text_or_error column_capabilities logical_type
      into_raw_parts
  column_to_raw item h =
      let format_type = unwrap_or (as_str (format_field (codes "type") item)) (codes "text") in
      let is_array = unwrap_or (as_bool (format_field (codes "isArray") item)) false in
      and_run (text_or_error (codes "id") (codes "missing column id") item, h)
        (λ id h₁.
          let (id', h₂) = alloc_string id h₁ in
          and_run (text_or_error (codes "name") (codes "missing column name") item, h₂)
            (λ name h₃.
              let (name', h₄) = alloc_string name h₃ in
              let (type_name', h₅) = alloc_string format_type h₄ in
              (
                ok (record {
                  id = id';
                  name = name';
                  type_name = type_name';
                  capabilities =
                      column_capabilities (flag_or_false (codes "calculated") item) is_array;
                  logical_type = logical_type format_type is_array;
                }),
                h₅,
              )))

module _ {Double : Type 0} (platform : Platform Double) where
  open platform use {from_str}

  unfoldable pub cell_to_raw : Text × Json Double → Heap → Result Text RawCell × Heap
  unfolding json_value_type json_value_string into_raw_parts
  cell_to_raw (column_id, value) h =
      let (column_id', h₁) = alloc_string column_id h in
      let (value', h₂) = alloc_string (json_value_string platform value) h₁ in
      (
        ok (record { column_id = column_id'; value_type = json_value_type value; value = value' }),
        h₂,
      )

  -- The cells of a row: those of its values, if these are an object.
  unfoldable pub cells_to_raw : Json Double → Heap → Result Text (List RawCell) × Heap
  unfolding get as_object cell_to_raw
  cells_to_raw item h = elim (as_object (get (codes "values") item)) [
    | none ↦ (ok [], h)
    | some values ↦ push_each cell_to_raw (fields_of values) h
  ]

  -- The body of the loop of `rows_from_json`.
  unfoldable pub row_to_raw : Json Double → Heap → Result Text RawRow × Heap
  unfolding cells_to_raw text_or_error text_or_empty flag_or_false into_raw_parts
  row_to_raw item h = and_run (cells_to_raw item h) (λ cells h₁.
      let (cells', h₂) = into_raw_parts cell_kind cells h₁ in
      and_run (text_or_error (codes "id") (codes "missing row id") item, h₂)
        (λ id h₃.
          let (id', h₄) = alloc_string id h₃ in
          let (created, h₅) = alloc_string (text_or_empty (codes "createdAt") item) h₄ in
          let (updated, h₆) = alloc_string (text_or_empty (codes "updatedAt") item) h₅ in
          (
            ok (record {
              id = id';
              created_at = created;
              updated_at = updated;
              deleted =
                  flag_or_false (codes "deleted") item || flag_or_false (codes "isDeleted") item;
              cells = cells';
            }),
            h₆,
          )))

  -- `rows_from_json`
  unfoldable pub rows_to_raw : Text → Heap → Result Text RawRowsResponse × Heap
  unfolding root_items row_to_raw text_or_empty into_raw_parts
  rows_to_raw body h =
      and_run (from_str body, h)
        (λ root h₀.
          and_run (root_items root, h₀)
            (λ items h₁. and_run (push_each row_to_raw items h₁) (λ rows h₂.
              let (rows', h₃) = into_raw_parts row_kind rows h₂ in
              let (page, h₄) = alloc_string (text_or_empty (codes "nextPageToken") root) h₃ in
              let (sync, h₅) = alloc_string (text_or_empty (codes "nextSyncToken") root) h₄ in
              (ok (record { rows = rows'; next_page_token = page; next_sync_token = sync }), h₅))))

  -- `table_list_from_json` and `column_list_from_json`
  unfoldable pub list_to_raw :
      {R : Type 0}
      → (List R → Heap → Slice × Heap)
      → (Json Double → Heap → Result Text R × Heap)
      → Text
      → Heap
      → Result Text RawList × Heap
  unfolding root_items text_or_empty into_raw_parts
  list_to_raw into_raw item_to_raw body h =
      and_run (from_str body, h)
        (λ root h₀.
          and_run (root_items root, h₀)
            (λ items h₁. and_run (push_each item_to_raw items h₁) (λ rs h₂.
              let (items', h₃) = into_raw rs h₂ in
              let (page, h₄) = alloc_string (text_or_empty (codes "nextPageToken") root) h₃ in
              (ok (record { items = items'; next_page_token = page }), h₄))))

  abbrev pub table_list_to_raw : Text → Heap → Result Text RawList × Heap
  table_list_to_raw = list_to_raw (into_raw_parts table_kind) table_to_raw

  abbrev pub column_list_to_raw : Text → Heap → Result Text RawList × Heap
  column_list_to_raw = list_to_raw (into_raw_parts column_kind) column_to_raw
