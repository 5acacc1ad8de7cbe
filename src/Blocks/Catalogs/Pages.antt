-- ===== src/Blocks/Catalogs/Pages.antt =====
-- The loop of `load_catalog` over the pages, with its allocations against the loop by value, up to the
-- array of the tables.
use duckdb_coda.Prelude.{
  ℕ, zero, suc, refl, sym, subst, List, [], ◌++◌, is_empty, arith, Outcome, ◌>>=◌, Result, and_then,
  and_then-ok,
}
use duckdb_coda.Text.{Text}
use duckdb_coda.Abi.{RustExtClientConfig, RustExtTableList, RustExtCatalogTable}
use duckdb_coda.Platform.{Platform}
use duckdb_coda.Json.{table_list_from_json}
use duckdb_coda.Load.{fetch_tables, next_tables, after_tables, table_pages, load_catalog}
use duckdb_coda.Blocks.{Heap, RawCatalogTable, catalog_table_kind}
use duckdb_coda.Blocks.Holds.{Within, Each, each, nil, count-append}
use duckdb_coda.Blocks.Stored.{
  Grows, Agrees, Stays-later, Grows-none, Grows-then, Grows-same, array_of, store_array,
  into_raw_parts-Grows,
}
use duckdb_coda.Blocks.Readers.{RawList, table_list_to_raw}
use duckdb_coda.Blocks.Readers.Made.{made, failed, Answered, answered}
use duckdb_coda.Blocks.Columns.{Loading}
use duckdb_coda.Blocks.Columns.Loaded.{
  Loaded, loaded, refused, no_fuel, Loaded-if, fetch_list-Answered,
}
use duckdb_coda.Blocks.Catalogs.{
  fetch_tables_raw, end_tables, after_tables_raw, table_pages_raw, catalog_array, load_catalog_raw,
}
use duckdb_coda.Blocks.Catalogs.Parts.{TablesOwn, tables-Made, EntryOwns}
use duckdb_coda.Blocks.Catalogs.Tables.{
  TablesLoaded, all_pushed, stopped, tables_starved, load_tables-TablesLoaded,
}

module _ {Double : Type 0} (platform : Platform Double) (config : RustExtClientConfig)
    (h₀ : Heap) where
  open platform use {World}

  module _
      (continue : List RustExtCatalogTable
        → Text
        → World
        → Outcome Text World (List RustExtCatalogTable))
      (continue_raw : List RawCatalogTable
        → Text
        → World
        → Heap
        → Loading platform config (List RawCatalogTable))
      (alike : (raws : List RawCatalogTable) (all : List RustExtCatalogTable) (xs : List ℕ)
          (token : Text) (w : World) (heap : Heap)
        → Grows h₀ heap xs
        → Each EntryOwns (Agrees heap) raws all xs
        → Loaded platform config
            (each EntryOwns)
            h₀
            (continue all token w)
            (continue_raw raws token w heap)) where
    -- The end of the body: what is left of the page is released.
    end_tables-Loaded :
        (heap : Heap) (raw : RawList) (page : RustExtTableList) (blocks : List ℕ)
        (parts : TablesOwn.owns (Agrees heap) raw page blocks)
        → {a : Outcome Text World (List RustExtCatalogTable)}
          {b : Loading platform config (List RawCatalogTable)}
        → TablesLoaded platform config h₀ (parts.items.own ++ parts.ys) heap a b
        → Loaded platform config
            (each EntryOwns)
            h₀
            (a >>= next_tables platform config continue page.next_page_token)
            (and_then b (end_tables platform config continue_raw raw))
    unfolding next_tables end_tables
    end_tables-Loaded heap raw page blocks parts
          (all_pushed {raws = raws} {entries = entries} {w = w} {heap' = heap'} xs grows owns
            later) =
        let own = parts.items.own in
        let k = later heap'.content (λ a le. refl) in
        let next = parts.next heap'.content k in
        let there : Within (own ++ parts.ys) heap'.live =
          λ a. omega (arith, grows.counted a, count-append) in
        let dropped =
          (parts.items.parts heap'.content k).frees heap'.live
            (λ a. omega (arith, there a, count-append)) in
        let token_there : Within parts.ys dropped.left =
          λ a. omega (arith, there a, dropped.less a, count-append) in
        let freed = next.frees dropped.left token_there in
        let heap₁ = record heap' { live = freed.left } in
        let grows' : Grows h₀ heap₁ xs = record {
          last_le = grows.last_le;
          counted = λ a. omega (arith, grows.counted a, dropped.less a, freed.less a, count-append);
          kept = grows.kept;
        } in
        subst (Loaded platform config (each EntryOwns) h₀ _)
          (sym (
            and_then-ok _ dropped.goes (
              and_then-ok _ (next.reads dropped.left token_there) (and_then-ok _ freed.goes refl))))
          (Loaded-if platform config (is_empty page.next_page_token) (loaded xs grows' owns)
            (alike raws entries xs page.next_page_token w heap₁ grows' owns))
    end_tables-Loaded heap raw page blocks parts
          (stopped {message = message} {w = w} {heap' = heap'} leaked grows) =
        let k : Agrees heap heap.content = λ a le. refl in
        let dropped =
          (parts.items.parts heap.content k).frees heap'.live
            (λ a. omega (arith, grows.counted a, count-append)) in
        subst (Loaded platform config (each EntryOwns) h₀ _) (sym (and_then-ok _ dropped.goes refl))
          (refused {heap' = record heap' { live = dropped.left }} (parts.ys ++ leaked) (record {
            last_le = grows.last_le;
            counted = λ a. omega (arith, grows.counted a, dropped.less a, count-append);
            kept = grows.kept;
          }))
    end_tables-Loaded heap raw page blocks parts tables_starved = no_fuel

    -- The body of the loop, with the tables of the pages before.
    after_tables-Loaded :
        (column_fuel : ℕ) (raws : List RawCatalogTable) (all : List RustExtCatalogTable)
        (xs : List ℕ) (heap : Heap) {answer : Result Text RustExtTableList × World}
        {answer_raw : Result Text RawList × (World × Heap)}
        → Grows h₀ heap xs
        → Each EntryOwns (Agrees heap) raws all xs
        → Answered TablesOwn heap answer answer_raw
        → Loaded platform config
            (each EntryOwns)
            h₀
            (after_tables platform config column_fuel continue all answer)
            (after_tables_raw platform config column_fuel continue_raw raws answer_raw)
    unfolding after_tables after_tables_raw
    after_tables-Loaded column_fuel raws all xs heap grows owns (answered (failed leaked more)) =
        refused (xs ++ leaked) (Grows-then grows more)
    after_tables-Loaded column_fuel raws all xs heap grows owns
          (answered {w = w} {heap' = heap'} (made {raw = raw} {v = page} blocks more parts)) =
        let inner = parts.items.inner in
        let own = parts.items.own in
        let read =
          (parts.items.parts heap'.content (λ a le. refl)).reads heap'.live
            (λ a. omega (arith, more.counted a, parts.same a, parts.items.same a, count-append)) in
        subst (Loaded platform config (each EntryOwns) h₀ _) (sym (and_then-ok _ read refl)) (
          end_tables-Loaded heap' raw page blocks parts (
            load_tables-TablesLoaded platform config h₀ (own ++ parts.ys) column_fuel page.items
              parts.items.items inner raws all xs w heap'
              (Grows-same (λ a. omega (arith, parts.same a, parts.items.same a, count-append))
                (Grows-then grows more))
              (Stays-later (each EntryOwns) more owns) parts.items.elements))

  table_pages-Loaded :
      (column_fuel fuel : ℕ) (raws : List RawCatalogTable) (all : List RustExtCatalogTable)
      (xs : List ℕ) (token : Text) (w : World) (heap : Heap)
      → Grows h₀ heap xs
      → Each EntryOwns (Agrees heap) raws all xs
      → Loaded platform config
          (each EntryOwns)
          h₀
          (table_pages platform config column_fuel fuel all token w)
          (table_pages_raw platform config column_fuel fuel raws token w heap)
  unfolding table_pages table_pages_raw fetch_tables fetch_tables_raw
  table_pages-Loaded column_fuel zero raws all xs token w heap grows owns = no_fuel
  table_pages-Loaded column_fuel (suc fuel) raws all xs token w heap grows owns =
      after_tables-Loaded (table_pages platform config column_fuel fuel)
        (table_pages_raw platform config column_fuel fuel) (table_pages-Loaded column_fuel fuel)
        column_fuel raws all xs heap grows owns
        (fetch_list-Answered platform config TablesOwn (table_list_from_json platform)
          (table_list_to_raw platform) (tables-Made platform) _ w heap)

  catalog_array-Loaded :
      {a : Outcome Text World (List RustExtCatalogTable)}
      {b : Loading platform config (List RawCatalogTable)}
      → Loaded platform config (each EntryOwns) h₀ a b
      → Loaded platform config
          (array_of catalog_table_kind EntryOwns)
          h₀
          a
          (and_then b (catalog_array platform config))
  unfolding catalog_array
  catalog_array-Loaded (loaded {raw = raws} {heap' = heap'} blocks grows owns) =
      loaded _ (Grows-then grows (into_raw_parts-Grows catalog_table_kind raws heap'))
        (store_array catalog_table_kind EntryOwns heap' owns)
  catalog_array-Loaded (refused leaked grows) = refused leaked grows
  catalog_array-Loaded no_fuel = no_fuel

module _ {Double : Type 0} (platform : Platform Double) (config : RustExtClientConfig) where
  open platform use {World}

  -- A call of `load_catalog`.
  pub load_catalog-Loaded :
      (column_fuel fuel : ℕ) (w : World) (heap : Heap)
      → Loaded platform config
          (array_of catalog_table_kind EntryOwns)
          heap
          (load_catalog platform config column_fuel fuel w)
          (load_catalog_raw platform config column_fuel fuel w heap)
  unfolding load_catalog load_catalog_raw
  load_catalog-Loaded column_fuel fuel w heap = catalog_array-Loaded platform config heap (
      table_pages-Loaded platform config heap column_fuel fuel [] [] [] [] w heap (Grows-none heap)
        nil)
