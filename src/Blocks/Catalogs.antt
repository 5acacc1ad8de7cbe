-- ===== src/Blocks/Catalogs.antt =====
-- `load_catalog` of src/client.rs with its allocations, over `load_columns` with its own.
pub mod Parts
pub mod Copied
pub mod Tables
pub mod Pages
pub mod Released
use duckdb_coda.Prelude.{
  ℕ, zero, suc, none, some, List, [], ◌∷◌, ◌++◌, is_empty, if◌then◌else◌, Outcome, returned, threw,
  out_of_fuel, Result, ok, err, and_then,
}
use duckdb_coda.Text.{Text}
use duckdb_coda.Abi.{RustExtClientConfig}
use duckdb_coda.Platform.{Platform}
use duckdb_coda.Sdk.{endpoint, non_empty_string}
use duckdb_coda.Ownership.{Fault, free_block}
use duckdb_coda.Blocks.{
  Slice, RawTable, RawCatalogTable, Heap, table_kind, catalog_table_kind, into_raw_parts,
  from_raw_parts, alloc_string, as_str, free,
}
use duckdb_coda.Blocks.Readers.{RawList, table_list_to_raw}
use duckdb_coda.Blocks.Columns.{Loading, fetch_list, load_columns_raw}

-- A table is copied to the catalog with its columns, and its strings are released.
unfoldable pub copy_table : RawTable → Slice → Heap → Result Fault (RawCatalogTable × Heap)
unfolding free into_raw_parts from_raw_parts
copy_table table columns heap = and_then (as_str heap.content table.id heap.live) (λ id.
    let (id', h₁) = alloc_string id heap in
    and_then (as_str h₁.content table.name h₁.live) (λ name.
      let (name', h₂) = alloc_string name h₁ in
      and_then (free h₂.content table.id h₂.live) (λ left.
        and_then (free h₂.content table.name left) (λ left'. ok (
          record { id = id'; name = name'; capabilities = table.capabilities; columns = columns },
          record h₂ { live = left' },
        )))))

module _ {Double : Type 0} (platform : Platform Double) (config : RustExtClientConfig) where
  open platform use {World, build_list_tables}

  unfoldable pub fetch_tables_raw : Text → World → Heap → Result Text RawList × (World × Heap)
  unfolding fetch_list endpoint non_empty_string
  fetch_tables_raw page_token = fetch_list platform config (table_list_to_raw platform) (
      build_list_tables (endpoint platform config) (record {
        doc_id = config.resource;
        limit = some 100;
        page_token = non_empty_string page_token;
      }))

  -- A table that has its columns.
  unfoldable pub push_table :
      (List RawCatalogTable → World → Heap → Loading platform config (List RawCatalogTable))
      → List RawCatalogTable
      → RawTable
      → Outcome Text (World × Heap) Slice
      → Loading platform config (List RawCatalogTable)
  unfolding copy_table
  push_table continue all table (threw message s) = ok (threw message s)
  push_table continue all table out_of_fuel = ok out_of_fuel
  push_table continue all table (returned columns (w, heap)) =
      and_then (copy_table table columns heap)
        (λ copied. continue (all ++ copied.0 ∷ []) w copied.1)

  -- The loop over the tables of a page, with the tables so far.
  unfoldable pub load_tables_raw :
      ℕ
      → List RawCatalogTable
      → List RawTable
      → World
      → Heap
      → Loading platform config (List RawCatalogTable)
  unfolding push_table load_columns_raw from_raw_parts
  load_tables_raw fuel all [] w heap = ok (returned all (w, heap))
  load_tables_raw fuel all (table ∷ tables) w heap =
      and_then (as_str heap.content table.id heap.live) (λ table_id.
        and_then (load_columns_raw platform config fuel table_id w heap)
          (push_table (λ more. load_tables_raw fuel more tables) all table))

  -- The end of the body of the loop of `load_catalog`: the buffer of the tables goes, also after an
  -- error, and the token of the page.
  unfoldable pub end_tables :
      (List RawCatalogTable → Text → World → Heap → Loading platform config (List RawCatalogTable))
      → RawList
      → Outcome Text (World × Heap) (List RawCatalogTable)
      → Loading platform config (List RawCatalogTable)
  unfolding free_block free from_raw_parts
  end_tables continue page out_of_fuel = ok out_of_fuel
  end_tables continue page (threw message (w, heap)) =
      and_then (free_block page.items.ptr heap.live)
        (λ left. ok (threw message (w, record heap { live = left })))
  end_tables continue page (returned all (w, heap)) =
      and_then (free_block page.items.ptr heap.live) (λ left.
        and_then (as_str heap.content page.next_page_token left) (λ token.
          and_then (free heap.content page.next_page_token left) (λ left'.
            let rest = continue all token w (record heap { live = left' }) in
            if is_empty token then ok (returned all (w, record heap { live = left' })) else rest)))

  -- The body of the loop of `load_catalog`, once the page is there; `continue` goes round again.
  unfoldable pub after_tables_raw :
      ℕ
      → (List RawCatalogTable
          → Text
          → World
          → Heap
          → Loading platform config (List RawCatalogTable))
      → List RawCatalogTable
      → Result Text RawList × (World × Heap)
      → Loading platform config (List RawCatalogTable)
  unfolding from_raw_parts load_tables_raw end_tables
  after_tables_raw column_fuel continue all (err message, s) = ok (threw message s)
  after_tables_raw column_fuel continue all (ok page, (w, heap)) =
      and_then (from_raw_parts table_kind heap.content page.items heap.live) (λ tables.
        and_then (load_tables_raw column_fuel all tables w heap) (end_tables continue page))

  -- The loop of `load_catalog`, with the tables so far; the second fuel bounds the pages.
  unfoldable pub table_pages_raw :
      ℕ
      → ℕ
      → List RawCatalogTable
      → Text
      → World
      → Heap
      → Loading platform config (List RawCatalogTable)
  unfolding fetch_tables_raw after_tables_raw
  table_pages_raw column_fuel zero all page_token w heap = ok out_of_fuel
  table_pages_raw column_fuel (suc fuel) all page_token w heap =
      after_tables_raw column_fuel (table_pages_raw column_fuel fuel) all
        (fetch_tables_raw page_token w heap)

  -- The array of the tables, once all pages are there.
  unfoldable pub catalog_array :
      Outcome Text (World × Heap) (List RawCatalogTable) → Loading platform config Slice
  unfolding into_raw_parts
  catalog_array out_of_fuel = ok out_of_fuel
  catalog_array (threw message s) = ok (threw message s)
  catalog_array (returned all (w, heap)) =
      let (tables, heap') = into_raw_parts catalog_table_kind all heap in
      ok (returned tables (w, heap'))

  -- `load_catalog`: the pointer and the count of the tables
  unfoldable pub load_catalog_raw : ℕ → ℕ → World → Heap → Loading platform config Slice
  unfolding table_pages_raw catalog_array
  load_catalog_raw column_fuel fuel w heap =
      and_then (table_pages_raw column_fuel fuel [] [] w heap) catalog_array
