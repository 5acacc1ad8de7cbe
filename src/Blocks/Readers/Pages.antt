-- ===== src/Blocks/Readers/Pages.antt =====
-- A page of a list as `table_list_from_json` and `column_list_from_json` make it: the array of its items
-- and its token.
use duckdb_coda.Prelude.{ℕ, refl, List, [], ◌++◌, Result, ok, and_then, traverse}
use duckdb_coda.Text.{Text, codes}
use duckdb_coda.Platform.{Json, Platform}
use duckdb_coda.Json.{text_or_empty, root_items}
use duckdb_coda.Blocks.{Content, Heap, Kind, byte_kind, into_raw_parts}
use duckdb_coda.Blocks.Holds.{SameBlocks, Owning, each}
use duckdb_coda.Blocks.Stored.{
  TextHolds, Array, array_of, Grows-none, Grows-then, Stays-later, parts_of, into_raw_parts-Grows,
  store_text, store_array,
}
use duckdb_coda.Blocks.Readers.{RawList, list_to_raw}
use duckdb_coda.Blocks.Readers.Made.{
  Made, made, Made-pure, Made-bind, Made-each, alloc_string-Grows,
}

module _ {R V : Type 0} (kind : Kind R) (P : Owning R V) where
  pub record PageParts (C : Content → Type 0) (raw : RawList) (vs : List V) (token : Text)
      (blocks : List ℕ) : Type 0 where
    pub xs : List ℕ
    pub ys : List ℕ
    pub items : Array kind P C raw.items vs xs
    pub next : TextHolds.owns C raw.next_page_token token ys
    pub same : SameBlocks (xs ++ ys) blocks

  pub PageParts-later :
      (C C' : Content → Type 0) (raw : RawList) (vs : List V) (token : Text) (blocks : List ℕ)
      → ((content : Content) → C' content → C content)
      → PageParts C raw vs token blocks
      → PageParts C' raw vs token blocks
  PageParts-later C C' raw vs token blocks within parts = record {
    xs = parts.xs;
    ys = parts.ys;
    items = (array_of kind P).later C C' raw.items vs parts.xs within parts.items;
    next = λ content k. parts.next content (within content k);
    same = parts.same;
  }

  abbrev pub page_of : {L : Type 0} → (L → List V) → (L → Text) → Owning RawList L
  page_of items_of token_of = record {
    owns = λ C raw page. PageParts C raw (items_of page) (token_of page);
    later = λ C C' raw page. PageParts-later C C' raw (items_of page) (token_of page);
  }

  -- The reading of a page, given that of its items.
  pub list-Made :
      {Double L : Type 0} (platform : Platform Double) (Q : Owning RawList L)
      (make : List V → Text → L) (f : Json Double → Result Text V)
      (g : Json Double → Heap → Result Text R × Heap)
      → ((C : Content → Type 0) (raw : RawList) (vs : List V) (token : Text) (blocks : List ℕ)
          → PageParts C raw vs token blocks
          → Q.owns C raw (make vs token) blocks)
      → ((item : Json Double) (h : Heap) → Made P h (f item) (g item h))
      → (body : Text) (h : Heap)
      → Made Q h
          (and_then (platform.from_str body) (λ root. and_then (root_items root) (λ items.
            and_then
              (traverse f items)
              (λ vs. ok (make vs (text_or_empty (codes "nextPageToken") root))))))
          (list_to_raw platform (into_raw_parts kind) g body h)
  unfolding list_to_raw
  list-Made platform Q make f g owning one body h =
      Made-pure Q [] (platform.from_str body) _ _ (Grows-none h) (λ root.
        Made-pure Q [] (root_items root) _ _ (Grows-none h) (λ items.
          Made-bind Q (each P) [] (λ vs. ok (make vs (text_or_empty (codes "nextPageToken") root)))
            _ (Grows-none h) (Made-each P f g one items h)
            (λ raws vs h₂ blocks grows stays.
              let (items', h₃) = into_raw_parts kind raws h₂ in
              let token = text_or_empty (codes "nextPageToken") root in
              let after = alloc_string-Grows token h₃ in
              made _ (Grows-then (Grows-then grows (into_raw_parts-Grows kind raws h₂)) after) (
                owning _ _ _ _ _ (record {
                  xs = blocks ++ parts_of kind raws h₂;
                  ys = parts_of byte_kind token h₃;
                  items = Stays-later (array_of kind P) after (store_array kind P h₂ stays);
                  next = store_text token h₃;
                  same = λ a. refl;
                })))))
