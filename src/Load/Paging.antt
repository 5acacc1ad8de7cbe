-- ===== src/Load/Paging.antt =====
-- What the loops over the pages of the catalog come to: all pages, in order, as far as the API has
-- them.
use duckdb_coda.Prelude.{
  ℕ, zero, suc, ◌≤◌, ◌≡◌, refl, sym, ap, ◌∙◌, false, List, [], ◌∷◌, ◌++◌, append_assoc, append-nil,
  map, is_empty, if◌then◌else◌, returned, ok, arith,
}
use duckdb_coda.Text.{Text}
use duckdb_coda.Abi.{
  RustExtClientConfig, RustExtColumn, RustExtColumnList, RustExtTable, RustExtTableList,
  RustExtCatalogTable,
}
use duckdb_coda.Platform.{Platform}
use duckdb_coda.Json.Names.{append_row_metadata}
use duckdb_coda.Json.Names.Prepared.{Apart, nameless, prepare_columns-Apart}
use duckdb_coda.Load.{
  fetch_columns, fetch_tables, after_columns, column_pages, finish_columns, load_columns,
  load_tables, next_tables, after_tables, table_pages, load_catalog,
}

module _ {Double : Type 0} (platform : Platform Double) (config : RustExtClientConfig) where
  open platform use {World}

  -- The API answers with that many pages of columns, from a page on.
  pub data ColumnPages (table_id : Text)
      : ℕ → Text → World → List RustExtColumn → World → Type 0 where
    last_columns :
        {token : Text} {w w' : World} (page : RustExtColumnList)
        → fetch_columns platform config table_id token w ≡ (ok page, w')
        → page.next_page_token ≡ []
        → ColumnPages table_id 1 token w page.items w'
    more_columns :
        {n : ℕ} {token : Text} {w w₁ w' : World} {rest : List RustExtColumn}
        (page : RustExtColumnList)
        → fetch_columns platform config table_id token w ≡ (ok page, w₁)
        → is_empty page.next_page_token ≡ false
        → ColumnPages table_id n page.next_page_token w₁ rest w'
        → ColumnPages table_id (suc n) token w (page.items ++ rest) w'

  column_pages-ColumnPages :
      (fuel : ℕ) (all : List RustExtColumn) {table_id : Text} {n : ℕ} {token : Text} {w w' : World}
      {items : List RustExtColumn}
      → ColumnPages table_id n token w items w'
      → n ≤ fuel
      → column_pages platform config fuel table_id all token w ≡ returned (all ++ items) w'
  unfolding column_pages after_columns
  column_pages-ColumnPages zero all (last_columns page answer end) few = absurd (omega arith)
  column_pages-ColumnPages (suc fuel) all (last_columns page answer end) few =
      rw (column_pages, answer, end) refl
  column_pages-ColumnPages zero all (more_columns page answer more rest) few = absurd (omega arith)
  column_pages-ColumnPages (suc fuel) all {w' = w'} (more_columns page answer more rest) few =
      rw (column_pages, answer, more)
        (column_pages-ColumnPages fuel (all ++ page.items) rest (omega (arith, few))
          ∙ ap (λ t. returned t w') (append_assoc all page.items _))

  -- The columns that the API has, with those for the metadata if they are asked for.
  abbrev pub all_columns : List RustExtColumn → List RustExtColumn
  all_columns items = if config.include_system_columns then append_row_metadata items else items

  -- With fuel for the pages that the API answers with, the loading of a table's columns ends, with all
  -- columns of the pages in order and those of the metadata if they are asked for, as they are but for
  -- their names, which are all different up to ASCII case.
  pub load_columns-ColumnPages :
      {table_id : Text} {n : ℕ} {w w' : World} {items : List RustExtColumn} (fuel : ℕ)
      → ColumnPages table_id n [] w items w'
      → n ≤ fuel
      → (columns : List RustExtColumn) × (load_columns platform config fuel table_id w
          ≡ returned columns w')
        × Apart columns
        × (map nameless columns ≡ map nameless (all_columns items))
  unfolding load_columns finish_columns
  load_columns-ColumnPages {items = items} fuel pages few =
      let (columns, prepared, apart, kept) = prepare_columns-Apart (all_columns items) in
      (
        columns,
        rw (load_columns, column_pages-ColumnPages fuel [] pages few, finish_columns, prepared)
            refl,
        apart,
        kept,
      )

  -- The columns of the tables of a page are loaded one after another.
  pub data Tables (column_fuel : ℕ)
      : List RustExtTable → World → List RustExtCatalogTable → World → Type 0 where
    no_table : {w : World} → Tables column_fuel [] w [] w
    and_table :
        {table : RustExtTable} {tables : List RustExtTable} {columns : List RustExtColumn}
        {loaded : List RustExtCatalogTable} {w w₁ w' : World}
        → load_columns platform config column_fuel table.id w ≡ returned columns w₁
        → Tables column_fuel tables w₁ loaded w'
        → Tables column_fuel
            (table ∷ tables)
            w
            (record {
              id = table.id;
              name = table.name;
              capabilities = table.capabilities;
              columns = columns;
            }
              ∷ loaded)
            w'

  -- The API answers with that many pages of tables, from a page on, and with the columns of each.
  pub data TablePages (column_fuel : ℕ)
      : ℕ → Text → World → List RustExtCatalogTable → World → Type 0 where
    last_tables :
        {token : Text} {w w₁ w' : World} {loaded : List RustExtCatalogTable}
        (page : RustExtTableList)
        → fetch_tables platform config token w ≡ (ok page, w₁)
        → page.next_page_token ≡ []
        → Tables column_fuel page.items w₁ loaded w'
        → TablePages column_fuel 1 token w loaded w'
    more_tables :
        {n : ℕ} {token : Text} {w w₁ w₂ w' : World} {loaded rest : List RustExtCatalogTable}
        (page : RustExtTableList)
        → fetch_tables platform config token w ≡ (ok page, w₁)
        → is_empty page.next_page_token ≡ false
        → Tables column_fuel page.items w₁ loaded w₂
        → TablePages column_fuel n page.next_page_token w₂ rest w'
        → TablePages column_fuel (suc n) token w (loaded ++ rest) w'

  load_tables-Tables :
      {column_fuel : ℕ} {tables : List RustExtTable} {loaded : List RustExtCatalogTable}
      {w w' : World} (all : List RustExtCatalogTable)
      → Tables column_fuel tables w loaded w'
      → load_tables platform config column_fuel all tables w ≡ returned (all ++ loaded) w'
  unfolding load_tables
  load_tables-Tables {w = w} all no_table = ap (λ t. returned t w) (sym (append-nil all))
  load_tables-Tables {w' = w'} all (and_table loads rest) =
      rw (load_tables, loads)
        (load_tables-Tables _ rest ∙ ap (λ t. returned t w') (append_assoc all _ _))

  table_pages-TablePages :
      (fuel : ℕ) (all : List RustExtCatalogTable) {column_fuel n : ℕ} {token : Text} {w w' : World}
      {loaded : List RustExtCatalogTable}
      → TablePages column_fuel n token w loaded w'
      → n ≤ fuel
      → table_pages platform config column_fuel fuel all token w ≡ returned (all ++ loaded) w'
  unfolding table_pages after_tables next_tables
  table_pages-TablePages zero all (last_tables page answer end tables) few = absurd (omega arith)
  table_pages-TablePages (suc fuel) all (last_tables page answer end tables) few =
      rw (table_pages, answer, load_tables-Tables all tables, end) refl
  table_pages-TablePages zero all (more_tables page answer more tables rest) few =
      absurd (omega arith)
  table_pages-TablePages (suc fuel) all {w' = w'} (more_tables page answer more tables rest) few =
      rw (table_pages, answer, load_tables-Tables all tables, more)
        (table_pages-TablePages fuel _ rest (omega (arith, few))
          ∙ ap (λ t. returned t w') (append_assoc all _ _))

  -- With fuel for the pages that the API answers with, the loading of the catalog ends, with the tables
  -- of all pages in order, each with the columns that its loading has given.
  pub load_catalog-TablePages :
      {column_fuel n : ℕ} {w w' : World} {loaded : List RustExtCatalogTable} (fuel : ℕ)
      → TablePages column_fuel n [] w loaded w'
      → n ≤ fuel
      → load_catalog platform config column_fuel fuel w ≡ returned loaded w'
  unfolding load_catalog
  load_catalog-TablePages fuel pages few = table_pages-TablePages fuel [] pages few
