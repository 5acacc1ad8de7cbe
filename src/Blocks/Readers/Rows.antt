-- ===== src/Blocks/Readers/Rows.antt =====
-- The rows of a response with their allocations: `rows_from_json` of src/json.rs.
use duckdb_coda.Prelude.{
  ℕ, ◌≡◌, refl, ◌||◌, inl, inr, Option-cases, Bool, List, [], ◌∷◌, ◌++◌, map, arith, ok, and_then,
  traverse,
}
use duckdb_coda.Text.{Text, codes}
use duckdb_coda.Platform.{Json, Platform}
use duckdb_coda.Abi.{RustExtCell, CodaRowsResponse}
use duckdb_coda.Blocks.{
  Slice, Heap, Content, alloc_string, into_raw_parts, byte_kind, cell_kind, row_kind,
}
use duckdb_coda.Blocks.Layout.{cell_layout}
use duckdb_coda.Blocks.Holds.{count-append, Owning, holding, each, nil, SameBlocks}
use duckdb_coda.Blocks.Structs.{Holds-cell}
use duckdb_coda.Blocks.Structs.Row.{RowOwns}
use duckdb_coda.Blocks.Stored.{
  Array, array_of, TextHolds, Grows, Stays, Grows-none, Grows-then, Grows-same, Stays-later,
  parts_of, into_raw_parts-Grows, store_text, store_array,
}
use duckdb_coda.Blocks.Readers.{RawRowsResponse, cell_to_raw, cells_to_raw, row_to_raw, rows_to_raw}
use duckdb_coda.Blocks.Readers.Made.{
  Made, made, Made-pure, Made-bind, Made-each, alloc_string-Grows,
}
use duckdb_coda.Json.{
  fields_of, get, as_object, text_or_error, text_or_empty, flag_or_false, root_items,
  cell_from_json, cells_from_json, row_from_json, rows_from_json, json_value_type,
  json_value_string,
}

-- The parts of a response, with the blocks of each.
pub record ResponseParts (C : Content → Type 0) (raw : RawRowsResponse)
    (response : CodaRowsResponse) (blocks : List ℕ) : Type 0 where
  pub xs : List ℕ
  pub ys : List ℕ
  pub zs : List ℕ
  pub rows : Array row_kind RowOwns C raw.rows response.rows xs
  pub page : TextHolds.owns C raw.next_page_token response.next_page_token ys
  pub sync : TextHolds.owns C raw.next_sync_token response.next_sync_token zs
  pub same : SameBlocks (xs ++ (ys ++ zs)) blocks

pub ResponseParts-later :
    (C C' : Content → Type 0) (raw : RawRowsResponse) (response : CodaRowsResponse)
    (blocks : List ℕ)
    → ((content : Content) → C' content → C content)
    → ResponseParts C raw response blocks
    → ResponseParts C' raw response blocks
ResponseParts-later C C' raw response blocks within parts = record {
  xs = parts.xs;
  ys = parts.ys;
  zs = parts.zs;
  rows = (array_of row_kind RowOwns).later C C' raw.rows response.rows parts.xs within parts.rows;
  page = λ content k. parts.page content (within content k);
  sync = λ content k. parts.sync content (within content k);
  same = parts.same;
}

abbrev pub ResponseOwns : Owning RawRowsResponse CodaRowsResponse
ResponseOwns = record { owns = ResponseParts; later = ResponseParts-later }

module _ {Double : Type 0} (platform : Platform Double) where
  cell-Made :
      (field : Text × Json Double) (h : Heap)
      → Made
          (holding cell_layout)
          h
          (ok (cell_from_json platform field))
          (cell_to_raw platform field h)
  unfolding cell_to_raw cell_from_json
  cell-Made (column_id, value) h =
      let (c, h₁) = alloc_string column_id h in
      let text = json_value_string platform value in
      let (v, h₂) = alloc_string text h₁ in
      let later = alloc_string-Grows text h₁ in
      made (parts_of byte_kind column_id h ++ parts_of byte_kind text h₁)
        (Grows-then (alloc_string-Grows column_id h) later)
        (λ content agrees.
          Holds-cell content
            (record { column_id = c; value_type = json_value_type value; value = v })
            (Stays-later TextHolds later (store_text column_id h) content agrees)
            (store_text text h₁ content agrees))

  traverse-ok :
      {A B : Type 0} (f : A → B) (xs : List A)
      → traverse {E = Text} (λ a. ok (f a)) xs ≡ ok (map f xs)
  traverse-ok f [] = refl
  traverse-ok f (x ∷ xs) = rw (traverse-ok f xs) refl

  cells-Made :
      (item : Json Double) (h : Heap)
      → Made
          (each (holding cell_layout))
          h
          (ok (cells_from_json platform item))
          (cells_to_raw platform item h)
  unfolding cells_from_json cells_to_raw
  cells-Made item h = elim (Option-cases (as_object (get (codes "values") item))) [
    | inl e ↦ rw (cells_from_json, cells_to_raw, e) (made [] (Grows-none h) nil)
    | inr (values, e) ↦
        rw (cells_from_json, cells_to_raw, e)
          (rw (← traverse-ok (cell_from_json platform) (fields_of values)) (
            Made-each (holding cell_layout) (λ field. ok (cell_from_json platform field))
              (cell_to_raw platform) cell-Made (fields_of values) h))
  ]

  -- The strings of a row, once its cells are there.
  row_strings-Made :
      (cells' : Slice) (cells : List RustExtCell) (deleted : Bool) (id created updated : Text)
      {h h₃ : Heap} {before : List ℕ}
      → Grows h h₃ before
      → Stays (array_of cell_kind (holding cell_layout)) h₃ cells' cells before
      → (let (id', h₄) = alloc_string id h₃ in
          let (created', h₅) = alloc_string created h₄ in
          let (updated', h₆) = alloc_string updated h₅ in
          Made RowOwns h
            (ok (record {
              id = id;
              created_at = created;
              updated_at = updated;
              deleted = deleted;
              cells = cells;
            }))
            (
              ok (record {
                id = id';
                created_at = created';
                updated_at = updated';
                deleted = deleted;
                cells = cells';
              }),
              h₆,
            ))
  row_strings-Made cells' cells deleted id created updated {h₃ = h₃} {before} grows stays =
      let (id', h₄) = alloc_string id h₃ in
      let (created', h₅) = alloc_string created h₄ in
      let (updated', h₆) = alloc_string updated h₅ in
      let after_created = alloc_string-Grows updated h₅ in
      let after_id = Grows-then (alloc_string-Grows created h₄) after_created in
      let after = Grows-then (alloc_string-Grows id h₃) after_id in
      made
        (parts_of byte_kind id h₃
          ++ (parts_of byte_kind created h₄ ++ (parts_of byte_kind updated h₅ ++ before)))
        (Grows-same (λ a. omega (arith, count-append)) (Grows-then grows after))
        (record {
          xs = parts_of byte_kind id h₃;
          ys = parts_of byte_kind created h₄;
          zs = parts_of byte_kind updated h₅;
          us = before;
          id = Stays-later TextHolds after_id (store_text id h₃);
          created = Stays-later TextHolds after_created (store_text created h₄);
          updated = store_text updated h₅;
          cells = Stays-later (array_of cell_kind (holding cell_layout)) after stays;
          flag = refl;
          same = λ a. refl;
        })

  row-Made :
      (item : Json Double) (h : Heap)
      → Made RowOwns h (row_from_json platform item) (row_to_raw platform item h)
  unfolding row_from_json row_to_raw
  row-Made item h =
      Made-bind RowOwns (each (holding cell_layout)) []
        (λ cells. and_then (text_or_error (codes "id") (codes "missing row id") item) (λ id.
          ok (record {
            id = id;
            created_at = text_or_empty (codes "createdAt") item;
            updated_at = text_or_empty (codes "updatedAt") item;
            deleted =
                flag_or_false (codes "deleted") item || flag_or_false (codes "isDeleted") item;
            cells = cells;
          })))
        _ (Grows-none h) (cells-Made item h)
        (λ raws cells h₁ blocks grows stays.
          let more = into_raw_parts-Grows cell_kind raws h₁ in
          let all = Grows-then grows more in
          Made-pure RowOwns _ (text_or_error (codes "id") (codes "missing row id") item) _ _ all
            (λ id.
              row_strings-Made _ cells _ id _ _ all
                (store_array cell_kind (holding cell_layout) h₁ stays)))

  -- A response is read as it is read by value, errors included.
  pub rows-Made :
      (body : Text) (h : Heap)
      → Made ResponseOwns h (rows_from_json platform body) (rows_to_raw platform body h)
  unfolding rows_from_json rows_to_raw
  rows-Made body h = Made-pure ResponseOwns [] (platform.from_str body) _ _ (Grows-none h) (λ root.
      Made-pure ResponseOwns [] (root_items root) _ _ (Grows-none h) (λ items.
        Made-bind ResponseOwns (each RowOwns) []
          (λ rows. ok (record {
            rows = rows;
            next_page_token = text_or_empty (codes "nextPageToken") root;
            next_sync_token = text_or_empty (codes "nextSyncToken") root;
          }))
          _ (Grows-none h)
          (Made-each RowOwns (row_from_json platform) (row_to_raw platform) row-Made items h)
          (λ raws rows h₂ blocks grows stays.
            let (rows', h₃) = into_raw_parts row_kind raws h₂ in
            let page = text_or_empty (codes "nextPageToken") root in
            let sync = text_or_empty (codes "nextSyncToken") root in
            let (page', h₄) = alloc_string page h₃ in
            let (sync', h₅) = alloc_string sync h₄ in
            let after_page = alloc_string-Grows sync h₄ in
            let after = Grows-then (alloc_string-Grows page h₃) after_page in
            let more = Grows-then grows (into_raw_parts-Grows row_kind raws h₂) in
            made _ (Grows-then more after) (record {
              xs = blocks ++ parts_of row_kind raws h₂;
              ys = parts_of byte_kind page h₃;
              zs = parts_of byte_kind sync h₄;
              rows =
                  Stays-later (array_of row_kind RowOwns) after
                    (store_array row_kind RowOwns h₂ stays);
              page = Stays-later TextHolds after_page (store_text page h₃);
              sync = store_text sync h₄;
              same = λ a. refl;
            }))))
