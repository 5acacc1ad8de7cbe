-- ===== src/Blocks/Catalogs/Parts.antt =====
-- A table and an entry of the catalog that own their strings and arrays, and the step from the one to
-- the other.
use duckdb_coda.Prelude.{ℕ, ◌≡◌, refl, ap, ◌∙◌, List, [], ◌++◌, ok}
use duckdb_coda.Text.{Text, codes}
use duckdb_coda.Abi.{RustExtTable, RustExtTableList, RustExtCatalogTable}
use duckdb_coda.Platform.{Json, Platform}
use duckdb_coda.Json.{text_or_error, table_from_json, table_list_from_json}
use duckdb_coda.Blocks.{
  RawTable, RawCatalogTable, Content, Heap, table_kind, column_kind, byte_kind, alloc_string,
}
use duckdb_coda.Blocks.Layout.{column_layout, catalog_table_layout, read_catalog_table}
use duckdb_coda.Blocks.Holds.{SameBlocks, Within-same, Holds, Owning, Frees-same}
use duckdb_coda.Blocks.Structs.{Holds-catalog_table}
use duckdb_coda.Blocks.Stored.{
  TextHolds, Array, array_of, Array-Holds, Grows-none, Grows-then, Stays-later, parts_of,
  store_text,
}
use duckdb_coda.Blocks.Readers.{RawList, table_to_raw, table_list_to_raw}
use duckdb_coda.Blocks.Readers.Made.{Made, made, Made-pure, alloc_string-Grows}
use duckdb_coda.Blocks.Readers.Pages.{page_of, list-Made}
use duckdb_coda.Blocks.Columns.Parts.{ColumnOwns, ColumnParts-Holds}

pub record TableParts (C : Content → Type 0) (raw : RawTable) (table : RustExtTable)
    (blocks : List ℕ) : Type 0 where
  pub xs : List ℕ
  pub ys : List ℕ
  pub id : TextHolds.owns C raw.id table.id xs
  pub name : TextHolds.owns C raw.name table.name ys
  pub capabilities : raw.capabilities ≡ table.capabilities
  pub same : SameBlocks (xs ++ ys) blocks

pub TableParts-later :
    (C C' : Content → Type 0) (raw : RawTable) (table : RustExtTable) (blocks : List ℕ)
    → ((content : Content) → C' content → C content)
    → TableParts C raw table blocks
    → TableParts C' raw table blocks
TableParts-later C C' raw table blocks within parts = record {
  xs = parts.xs;
  ys = parts.ys;
  id = λ content k. parts.id content (within content k);
  name = λ content k. parts.name content (within content k);
  capabilities = parts.capabilities;
  same = parts.same;
}

abbrev pub TableOwns : Owning RawTable RustExtTable
TableOwns = record { owns = TableParts; later = TableParts-later }

table-Made :
    {Double : Type 0} (item : Json Double) (h : Heap)
    → Made TableOwns h (table_from_json item) (table_to_raw item h)
unfolding table_from_json table_to_raw
table-Made item h =
    Made-pure TableOwns [] (text_or_error (codes "id") (codes "missing table id") item) _ _
      (Grows-none h)
      (λ id.
        let (id', h₁) = alloc_string id h in
        Made-pure TableOwns _ (text_or_error (codes "name") (codes "missing table name") item) _ _
          (alloc_string-Grows id h)
          (λ name.
            let after = alloc_string-Grows name h₁ in
            made (parts_of byte_kind id h ++ parts_of byte_kind name h₁)
              (Grows-then (alloc_string-Grows id h) after)
              (record {
                xs = parts_of byte_kind id h;
                ys = parts_of byte_kind name h₁;
                id = Stays-later TextHolds after (store_text id h);
                name = store_text name h₁;
                capabilities = refl;
                same = λ a. refl;
              })))

-- A page of tables.
abbrev pub TablesOwn : Owning RawList RustExtTableList
TablesOwn = page_of table_kind TableOwns (λ page. page.items) (λ page. page.next_page_token)

pub tables-Made :
    {Double : Type 0} (platform : Platform Double) (body : Text) (h : Heap)
    → Made TablesOwn h (table_list_from_json platform body) (table_list_to_raw platform body h)
unfolding table_list_from_json
tables-Made platform =
    list-Made table_kind TableOwns platform TablesOwn
      (λ tables token. record { items = tables; next_page_token = token }) table_from_json
      table_to_raw (λ C raw vs token blocks parts. parts) table-Made

pub record EntryParts (C : Content → Type 0) (raw : RawCatalogTable) (entry : RustExtCatalogTable)
    (blocks : List ℕ) : Type 0 where
  pub xs : List ℕ
  pub ys : List ℕ
  pub zs : List ℕ
  pub id : TextHolds.owns C raw.id entry.id xs
  pub name : TextHolds.owns C raw.name entry.name ys
  pub columns : Array column_kind ColumnOwns C raw.columns entry.columns zs
  pub capabilities : raw.capabilities ≡ entry.capabilities
  pub same : SameBlocks (xs ++ (ys ++ zs)) blocks

pub EntryParts-later :
    (C C' : Content → Type 0) (raw : RawCatalogTable) (entry : RustExtCatalogTable)
    (blocks : List ℕ)
    → ((content : Content) → C' content → C content)
    → EntryParts C raw entry blocks
    → EntryParts C' raw entry blocks
EntryParts-later C C' raw entry blocks within parts = record {
  xs = parts.xs;
  ys = parts.ys;
  zs = parts.zs;
  id = λ content k. parts.id content (within content k);
  name = λ content k. parts.name content (within content k);
  columns =
      (array_of column_kind ColumnOwns).later C C' raw.columns entry.columns parts.zs within
        parts.columns;
  capabilities = parts.capabilities;
  same = parts.same;
}

abbrev pub EntryOwns : Owning RawCatalogTable RustExtCatalogTable
EntryOwns = record { owns = EntryParts; later = EntryParts-later }

pub EntryParts-Holds :
    (C : Content → Type 0) (content : Content)
    → C content
    → (raw : RawCatalogTable) (entry : RustExtCatalogTable) (blocks : List ℕ)
    → EntryParts C raw entry blocks
    → Holds catalog_table_layout content raw entry blocks
unfolding read_catalog_table
EntryParts-Holds C content k raw entry blocks parts =
    let all = Holds-catalog_table content raw (parts.id content k) (parts.name content k) (
      Array-Holds column_kind ColumnOwns column_layout C content k (ColumnParts-Holds C content k)
        parts.columns) in
    record {
      frees = Frees-same _ parts.same all.frees;
      reads = λ live h.
          all.reads live (Within-same (parts.xs ++ (parts.ys ++ parts.zs)) blocks live parts.same h)
          ∙ ap (λ c. ok (record entry { capabilities = c })) parts.capabilities;
    }
