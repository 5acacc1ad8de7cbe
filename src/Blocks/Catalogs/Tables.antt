-- ===== src/Blocks/Catalogs/Tables.antt =====
-- The loop over the tables of a page, with its allocations against the loop by value: every table is
-- copied with its columns, and its own strings are released.
use duckdb_coda.Prelude.{
  ℕ, refl, sym, subst, List, [], ◌∷◌, ◌++◌, arith, Outcome, returned, threw, out_of_fuel, ◌>>=◌, ok,
  and_then, and_then-ok,
}
use duckdb_coda.Text.{Text}
use duckdb_coda.Abi.{RustExtClientConfig, RustExtTable, RustExtColumn, RustExtCatalogTable}
use duckdb_coda.Platform.{Platform}
use duckdb_coda.Ownership.{count}
use duckdb_coda.Load.{load_tables}
use duckdb_coda.Blocks.{Slice, Content, Heap, RawTable, RawCatalogTable, column_kind}
use duckdb_coda.Blocks.Holds.{Each, each, nil, cons, Each-append, count-append}
use duckdb_coda.Blocks.Stored.{
  Grows, Agrees, Agrees-earlier, Stays-later, Grows-then, Grows-same, array_of,
}
use duckdb_coda.Blocks.Columns.{Loading}
use duckdb_coda.Blocks.Columns.Parts.{ColumnOwns}
use duckdb_coda.Blocks.Columns.Loaded.{Loaded, loaded, refused, no_fuel, load_columns-Loaded}
use duckdb_coda.Blocks.Catalogs.{push_table, load_tables_raw}
use duckdb_coda.Blocks.Catalogs.Parts.{TableParts, TableOwns, EntryOwns}
use duckdb_coda.Blocks.Catalogs.Copied.{entry_of, copy_table-Copied}

module _ {Double : Type 0} (platform : Platform Double) (config : RustExtClientConfig) (h₀ : Heap)
    (rest : List ℕ) where
  open platform use {World}

  -- How the loop over the tables of a page ends; the rest of the page stays as it is.
  pub data TablesLoaded (heap : Heap)
      : Outcome Text World (List RustExtCatalogTable)
        → Loading platform config (List RawCatalogTable)
        → Type 0 where
    all_pushed :
        {raws : List RawCatalogTable} {entries : List RustExtCatalogTable} {w : World}
        {heap' : Heap} (blocks : List ℕ)
        → Grows h₀ heap' (rest ++ blocks)
        → Each EntryOwns (Agrees heap') raws entries blocks
        → ((content : Content) → Agrees heap' content → Agrees heap content)
        → TablesLoaded heap (returned entries w) (ok (returned raws (w, heap')))
    stopped :
        {message : Text} {w : World} {heap' : Heap} (leaked : List ℕ)
        → Grows h₀ heap' (rest ++ leaked)
        → TablesLoaded heap (threw message w) (ok (threw message (w, heap')))
    tables_starved : TablesLoaded heap out_of_fuel (ok out_of_fuel)

  TablesLoaded-from :
      {heap heap₁ : Heap} {a : Outcome Text World (List RustExtCatalogTable)}
      {b : Loading platform config (List RawCatalogTable)}
      → ((content : Content) → Agrees heap₁ content → Agrees heap content)
      → TablesLoaded heap₁ a b
      → TablesLoaded heap a b
  TablesLoaded-from later (all_pushed blocks grows owns more) =
      all_pushed blocks grows owns (λ content k. later content (more content k))
  TablesLoaded-from later (stopped leaked grows) = stopped leaked grows
  TablesLoaded-from later tables_starved = tables_starved

  -- How the loop goes on, from some heap on.
  abbrev Continues :
      (List RustExtCatalogTable → World → Outcome Text World (List RustExtCatalogTable))
      → (List RawCatalogTable → World → Heap → Loading platform config (List RawCatalogTable))
      → List RawTable
      → List RustExtTable
      → List ℕ
      → Type 0
  Continues continue continue_raw raw_tables tables ys =
      (raws : List RawCatalogTable) (all : List RustExtCatalogTable) (xs : List ℕ) (w : World)
      (heap : Heap)
      → Grows h₀ heap (rest ++ (xs ++ ys))
      → Each EntryOwns (Agrees heap) raws all xs
      → Each TableOwns (Agrees heap) raw_tables tables ys
      → TablesLoaded heap (continue all w) (continue_raw raws w heap)

  push_table-TablesLoaded :
      (continue : List RustExtCatalogTable → World → Outcome Text World (List RustExtCatalogTable))
      (continue_raw : List RawCatalogTable
        → World
        → Heap
        → Loading platform config (List RawCatalogTable))
      (raw : RawTable) (table : RustExtTable) (b : List ℕ) (raw_tables : List RawTable)
      (tables : List RustExtTable) (tb : List ℕ)
      → Continues continue continue_raw raw_tables tables tb
      → (raws : List RawCatalogTable) (all : List RustExtCatalogTable) (xs : List ℕ) (heap : Heap)
      → Grows h₀ heap (rest ++ (xs ++ (b ++ tb)))
      → Each EntryOwns (Agrees heap) raws all xs
      → TableParts (Agrees heap) raw table b
      → Each TableOwns (Agrees heap) raw_tables tables tb
      → {a : Outcome Text World (List RustExtColumn)} {r : Loading platform config Slice}
      → Loaded platform config (array_of column_kind ColumnOwns) heap a r
      → TablesLoaded heap
          (a >>= (λ columns w. continue (all ++ entry_of table columns ∷ []) w))
          (and_then r (push_table platform config continue_raw raws raw))
  unfolding push_table count
  push_table-TablesLoaded continue continue_raw raw table b raw_tables tables tb alike raws all xs
        heap grows owns parts tail
        (loaded {raw = slice} {v = columns} {w = w} {heap' = heap₁} zs more array) =
      let copied =
        copy_table-Copied h₀ heap₁ (rest ++ (xs ++ tb)) b zs raw table slice columns
          (Grows-same (λ a. omega (arith, count-append)) (Grows-then grows more))
          (Stays-later TableOwns more parts) array in
      let later = λ (content : Content) (k : Agrees copied.heap' content).
        Agrees-earlier more content (copied.later content k) in
      TablesLoaded-from later (
        subst (TablesLoaded copied.heap' _) (sym (and_then-ok _ copied.goes refl)) (
          alike _ _ (xs ++ (copied.blocks ++ [])) w copied.heap'
            (Grows-same (λ a. omega (arith, count-append)) copied.grows)
            (Each-append EntryOwns (Agrees copied.heap')
              ((each EntryOwns).later _ _ raws all xs later owns) (cons copied.owns nil))
            ((each TableOwns).later _ _ raw_tables tables tb later tail)))
  push_table-TablesLoaded continue continue_raw raw table b raw_tables tables tb alike raws all xs
        heap grows owns parts tail (refused leaked more) =
      stopped ((xs ++ (b ++ tb)) ++ leaked)
        (Grows-same (λ a. omega (arith, count-append)) (Grows-then grows more))
  push_table-TablesLoaded continue continue_raw raw table b raw_tables tables tb alike raws all xs
        heap grows owns parts tail no_fuel =
      tables_starved

  pub load_tables-TablesLoaded :
      (fuel : ℕ) (tables : List RustExtTable) (raw_tables : List RawTable) (ys : List ℕ)
      → Continues
          (λ all. load_tables platform config fuel all tables)
          (λ raws. load_tables_raw platform config fuel raws raw_tables)
          raw_tables
          tables
          ys
  unfolding load_tables load_tables_raw count
  load_tables-TablesLoaded fuel [] raw_tables ys raws all xs w heap grows owns nil =
      all_pushed xs (Grows-same (λ a. omega (arith, count-append)) grows) owns (λ content k. k)
  load_tables-TablesLoaded fuel (table ∷ tables) raw_tables ys raws all xs w heap grows owns
        (cons {raw = raw} {raws = raw_rest} {xs = b} {ys = tb} parts tail) =
      let read =
        (parts.id heap.content (λ a le. refl)).reads heap.live
          (λ a. omega (arith, grows.counted a, parts.same a, count-append)) in
      subst (TablesLoaded heap _) (sym (and_then-ok _ read refl)) (
        push_table-TablesLoaded (λ all'. load_tables platform config fuel all' tables)
          (λ raws'. load_tables_raw platform config fuel raws' raw_rest) raw table b raw_rest tables
          tb (load_tables-TablesLoaded fuel tables raw_rest tb) raws all xs heap grows owns parts
          tail (load_columns-Loaded platform config fuel table.id w heap))
