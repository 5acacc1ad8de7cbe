-- ===== src/Blocks/Columns/Loaded.antt =====
-- `load_columns` with its allocations against `load_columns` by value: the same columns, the same
-- errors, and nothing allocated but the array of the columns.
use duckdb_coda.Prelude.{
  ℕ, zero, suc, refl, sym, ap, subst, Bool, true, false, Option, none, some, List, [], ◌++◌,
  is_empty, if◌then◌else◌, arith, Outcome, returned, threw, out_of_fuel, ◌>>=◌, Result, ok, err,
  and_then,
}
use duckdb_coda.Text.{Text, codes}
use duckdb_coda.Abi.{RustExtClientConfig, RustExtColumn, RustExtColumnList}
use duckdb_coda.Platform.{Platform, SdkRequest}
use duckdb_coda.Sdk.{send_request}
use duckdb_coda.Ownership.{Fault, count}
use duckdb_coda.Json.{column_list_from_json}
use duckdb_coda.Json.Names.{metadata_column, append_row_metadata, prepare_columns}
use duckdb_coda.Load.{
  fetch, fetch_columns, after_columns, column_pages, finish_columns, load_columns,
}
use duckdb_coda.Blocks.{Heap, RawColumn, column_kind}
use duckdb_coda.Blocks.Holds.{Owning, Each, each, nil, cons, Each-append, count-append}
use duckdb_coda.Blocks.Stored.{
  Grows, Agrees, Stays, Stays-later, Grows-none, Grows-then, Grows-same, array_of, store_array,
  into_raw_parts-Grows,
}
use duckdb_coda.Blocks.Readers.{RawList, column_list_to_raw}
use duckdb_coda.Blocks.Readers.Made.{
  Made, made, failed, Made-pure, Kept, Kept-if, Answered, answered,
}
use duckdb_coda.Blocks.Columns.{
  metadata_to_raw, append_metadata_raw, fetch_list, fetch_columns_raw, Loading, next_columns_raw,
  after_columns_raw, column_pages_raw, columns_array, finish_columns_raw, finish_outcome,
  load_columns_raw,
}
use duckdb_coda.Blocks.Columns.Parts.{
  ColumnOwns, PageOwns, column_strings, page-Made, page-PageTaken,
}
use duckdb_coda.Blocks.Columns.Names.{Prepares, named, unnamed, prepare_from-Prepares}

metadata-Kept :
    (name : Text) (heap : Heap)
    → Kept ColumnOwns heap (metadata_column name) (metadata_to_raw name heap)
unfolding metadata_to_raw
metadata-Kept name heap = column_strings name name (codes "timestampTz") _ _ heap

module _ (h₀ : Heap) where
  append-Kept :
      (heap : Heap) {raws : List RawColumn} {all : List RustExtColumn} {xs : List ℕ}
      → Grows h₀ heap xs
      → Each ColumnOwns (Agrees heap) raws all xs
      → Kept (each ColumnOwns) h₀ (append_row_metadata all) (append_metadata_raw raws heap)
  unfolding append_row_metadata append_metadata_raw count
  append-Kept heap {xs = xs} grows each_owns =
      let created = metadata-Kept (codes "createdAt") heap in
      let updated =
        metadata-Kept (codes "updatedAt") (metadata_to_raw (codes "createdAt") heap).1 in
      record {
        blocks = xs ++ (created.blocks ++ (updated.blocks ++ []));
        grows =
            Grows-same (λ a. omega (arith, count-append))
              (Grows-then grows (Grows-then created.grows updated.grows));
        owns =
            Each-append ColumnOwns _
              (Stays-later (each ColumnOwns) (Grows-then created.grows updated.grows) each_owns)
              (cons (Stays-later ColumnOwns updated.grows created.owns) (cons updated.owns nil));
      }

module _ {Double : Type 0} (platform : Platform Double) (config : RustExtClientConfig) where
  open platform use {World}

  -- How the loading ends, by value and with its pointers.
  pub data Loaded {R V : Type 0} (P : Owning R V) (h₀ : Heap)
      : Outcome Text World V → Loading platform config R → Type 0 where
    loaded :
        {raw : R} {v : V} {w : World} {heap' : Heap} (blocks : List ℕ)
        → Grows h₀ heap' blocks
        → Stays P heap' raw v blocks
        → Loaded P h₀ (returned v w) (ok (returned raw (w, heap')))
    refused :
        {message : Text} {w : World} {heap' : Heap} (leaked : List ℕ)
        → Grows h₀ heap' leaked
        → Loaded P h₀ (threw message w) (ok (threw message (w, heap')))
    no_fuel : Loaded P h₀ out_of_fuel (ok out_of_fuel)

  pub Loaded-if :
      {R V : Type 0} {P : Owning R V} {h₀ : Heap} {a b : Outcome Text World V}
      {c d : Loading platform config R} (test : Bool)
      → Loaded P h₀ a c
      → Loaded P h₀ b d
      → Loaded P h₀ (if test then a else b) (if test then c else d)
  Loaded-if true h k = h
  Loaded-if false h k = k

  pub fetch_list-Answered :
      {V : Type 0} (P : Owning RawList V) (read : Text → Result Text V)
      (read_raw : Text → Heap → Result Text RawList × Heap)
      → ((body : Text) (h : Heap) → Made P h (read body) (read_raw body h))
      → (r : Result Text SdkRequest) (w : World) (heap : Heap)
      → Answered P heap
          (fetch platform config r read w)
          (fetch_list platform config read_raw r w heap)
  unfolding fetch fetch_list
  fetch_list-Answered P read read_raw alike (err message) w heap =
      answered (failed [] (Grows-none heap))
  fetch_list-Answered P read read_raw alike (ok request) w heap = answered (
      Made-pure P [] (send_request platform config request w).0 read read_raw (Grows-none heap)
        (λ body. alike body heap))

  module _ (h₀ : Heap)
      (continue : List RustExtColumn → Text → World → Outcome Text World (List RustExtColumn))
      (continue_raw : List RawColumn
        → Text
        → World
        → Heap
        → Loading platform config (List RawColumn))
      (alike : (raws : List RawColumn) (all : List RustExtColumn) (xs : List ℕ) (token : Text)
          (w : World) (heap : Heap)
        → Grows h₀ heap xs
        → Each ColumnOwns (Agrees heap) raws all xs
        → Loaded (each ColumnOwns) h₀ (continue all token w) (continue_raw raws token w heap)) where
    -- The body of the loop, with the columns of the pages before.
    after_columns-Loaded :
        {raws : List RawColumn} {all : List RustExtColumn} {xs : List ℕ} (heap : Heap)
        {answer : Result Text RustExtColumnList × World}
        {answer_raw : Result Text RawList × (World × Heap)}
        → Grows h₀ heap xs
        → Each ColumnOwns (Agrees heap) raws all xs
        → Answered PageOwns heap answer answer_raw
        → Loaded
            (each ColumnOwns)
            h₀
            (after_columns platform config continue all answer)
            (after_columns_raw platform config continue_raw raws answer_raw)
    unfolding after_columns after_columns_raw next_columns_raw
    after_columns-Loaded {xs = xs} heap grows owns (answered (failed leaked more)) =
        refused (xs ++ leaked) (Grows-then grows more)
    after_columns-Loaded {raws} {all} {xs} heap grows owns
          (answered {w = w} {heap' = heap'} (made {raw = raw} {v = page} blocks more parts)) =
        let taken =
          page-PageTaken (Agrees heap') heap'.content (λ a le. refl) raw page blocks heap'.live
            (λ a. omega (arith, more.counted a)) parts in
        let heap₁ = record heap' { live = taken.left } in
        let grows' : Grows h₀ heap₁ (xs ++ parts.items.inner) = record {
          last_le = omega (arith, grows.last_le, more.last_le);
          counted =
              λ a. omega (arith, grows.counted a, more.counted a, taken.counted a, count-append);
          kept = (Grows-then grows more).kept;
        } in
        let owns' : Each ColumnOwns (Agrees heap₁) (raws ++ parts.items.items) (all ++ page.items)
            (xs ++ parts.items.inner) =
          Each-append ColumnOwns (Agrees heap₁) (Stays-later (each ColumnOwns) more owns)
            parts.items.elements in
        subst (Loaded (each ColumnOwns) h₀ _)
          (sym (
            ap (λ r. and_then r (next_columns_raw platform config continue_raw raws w heap'))
              taken.goes))
          (Loaded-if (is_empty page.next_page_token) (loaded _ grows' owns')
            (alike _ _ _ page.next_page_token w heap₁ grows' owns'))

  module _ (h₀ : Heap) where
    column_pages-Loaded :
        (fuel : ℕ) (table_id : Text) (raws : List RawColumn) (all : List RustExtColumn)
        (xs : List ℕ) (token : Text) (w : World) (heap : Heap)
        → Grows h₀ heap xs
        → Each ColumnOwns (Agrees heap) raws all xs
        → Loaded
            (each ColumnOwns)
            h₀
            (column_pages platform config fuel table_id all token w)
            (column_pages_raw platform config fuel table_id raws token w heap)
    unfolding column_pages column_pages_raw fetch_columns fetch_columns_raw
    column_pages-Loaded zero table_id raws all xs token w heap grows owns = no_fuel
    column_pages-Loaded (suc fuel) table_id raws all xs token w heap grows owns =
        after_columns-Loaded h₀ (column_pages platform config fuel table_id)
          (column_pages_raw platform config fuel table_id) (column_pages-Loaded fuel table_id) heap
          grows owns
          (fetch_list-Answered PageOwns (column_list_from_json platform)
            (column_list_to_raw platform) (page-Made platform) _ w heap)

    columns_array-Loaded :
        (w : World) {found : Option (List RustExtColumn)}
        {r : Result Fault (Option (List RawColumn) × Heap)}
        → Prepares h₀ found r
        → Loaded
            (array_of column_kind ColumnOwns)
            h₀
            (elim found [ none ↦ out_of_fuel | some columns ↦ returned columns w ])
            (and_then r (columns_array platform config w))
    unfolding columns_array
    columns_array-Loaded w (named {raws = raws} {heap' = heap'} blocks grows owns) =
        loaded _ (Grows-then grows (into_raw_parts-Grows column_kind raws heap'))
          (store_array column_kind ColumnOwns heap' owns)
    columns_array-Loaded w unnamed = no_fuel

    finish_columns-Loaded :
        (w : World) (heap : Heap) {raws : List RawColumn} {all : List RustExtColumn} {xs : List ℕ}
        → Grows h₀ heap xs
        → Each ColumnOwns (Agrees heap) raws all xs
        → Loaded
            (array_of column_kind ColumnOwns)
            h₀
            (finish_columns platform config all w)
            (finish_columns_raw platform config raws (w, heap))
    unfolding finish_columns finish_columns_raw prepare_columns
    finish_columns-Loaded w heap {raws} {all} {xs} grows owns =
        let plain : Kept (each ColumnOwns) h₀ all (raws, heap) = record {
          blocks = xs;
          grows = grows;
          owns = owns;
        } in
        let columns =
          Kept-if (each ColumnOwns) config.include_system_columns (append-Kept h₀ heap grows owns)
            plain in
        columns_array-Loaded w (prepare_from-Prepares h₀ _ _ columns.grows nil columns.owns)

    finish-Loaded :
        {a : Outcome Text World (List RustExtColumn)} {b : Loading platform config (List RawColumn)}
        → Loaded (each ColumnOwns) h₀ a b
        → Loaded
            (array_of column_kind ColumnOwns)
            h₀
            (a >>= finish_columns platform config)
            (and_then b (finish_outcome platform config))
    unfolding finish_outcome finish_columns_raw
    finish-Loaded (loaded {w = w} {heap' = heap'} blocks grows owns) =
        finish_columns-Loaded w heap' grows owns
    finish-Loaded (refused leaked grows) = refused leaked grows
    finish-Loaded no_fuel = no_fuel

  -- A call of `load_columns`.
  pub load_columns-Loaded :
      (fuel : ℕ) (table_id : Text) (w : World) (heap : Heap)
      → Loaded
          (array_of column_kind ColumnOwns)
          heap
          (load_columns platform config fuel table_id w)
          (load_columns_raw platform config fuel table_id w heap)
  unfolding load_columns load_columns_raw
  load_columns-Loaded fuel table_id w heap =
      finish-Loaded heap
        (column_pages-Loaded heap fuel table_id [] [] [] [] w heap (Grows-none heap) nil)
