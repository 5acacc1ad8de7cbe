-- ===== src/Blocks/Columns.antt =====
-- `load_columns` of src/client.rs with its allocations, and `append_row_metadata` and `prepare_columns`
-- of src/json.rs. The search of `prepare_columns` is that of Json/Names, over the names that are read;
-- the id of the table, which no call changes, is taken as its text.
pub mod Parts
pub mod Names
pub mod Loaded
pub mod Released
use duckdb_coda.Prelude.{
  ℕ, zero, suc, Option, none, some, false, List, [], ◌∷◌, ◌++◌, length, is_empty, if◌then◌else◌,
  Outcome, returned, threw, out_of_fuel, Result, ok, err, and_then, and_run,
}
use duckdb_coda.Text.{Text, codes, text_eq}
use duckdb_coda.Abi.{RustExtClientConfig, RustExtColumn}
use duckdb_coda.Platform.{Platform, SdkRequest}
use duckdb_coda.Sdk.{endpoint, send_request, non_empty_string}
use duckdb_coda.Ownership.{Fault, free_block}
use duckdb_coda.Json.Names.{base_name, free_name, metadata_column}
use duckdb_coda.Blocks.{
  Slice, RawColumn, Content, Heap, column_kind, into_raw_parts, from_raw_parts, alloc_string,
  as_str, free,
}
use duckdb_coda.Blocks.Layout.{read_each}
use duckdb_coda.Blocks.Readers.{RawList, column_list_to_raw}

-- One of the columns that `append_row_metadata` pushes.
unfoldable pub metadata_to_raw : Text → Heap → RawColumn × Heap
unfolding into_raw_parts
metadata_to_raw name h =
    let column = metadata_column name in
    let (id', h₁) = alloc_string column.id h in
    let (name', h₂) = alloc_string column.name h₁ in
    let (type_name', h₃) = alloc_string column.type_name h₂ in
    (
      record {
        id = id';
        name = name';
        type_name = type_name';
        capabilities = column.capabilities;
        logical_type = column.logical_type;
      },
      h₃,
    )

-- `append_row_metadata`
unfoldable pub append_metadata_raw : List RawColumn → Heap → List RawColumn × Heap
unfolding metadata_to_raw
append_metadata_raw columns h =
    let (created, h₁) = metadata_to_raw (codes "createdAt") h in
    let (updated, h₂) = metadata_to_raw (codes "updatedAt") h₁ in
    (columns ++ (created ∷ updated ∷ []), h₂)

-- The name of a column, for the search.
unfoldable pub read_name : Content → RawColumn → List ℕ → Result Fault RustExtColumn
unfolding from_raw_parts
read_name content column live = and_then (as_str content column.name live) (λ name. ok (record {
  id = [];
  name = name;
  type_name = [];
  capabilities = column.capabilities;
  logical_type = column.logical_type;
}))

-- A name that is not the old one takes its place.
unfoldable pub rename_raw : RawColumn → Text → Text → Heap → Result Fault (RawColumn × Heap)
unfolding free into_raw_parts text_eq
rename_raw column original name h =
    if text_eq name original
    then ok (column, h)
    else and_then (free h.content column.name h.live) (λ left. ok (
      record column { name = (alloc_string name (record h { live = left })).0 },
      (alloc_string name (record h { live = left })).1,
    ))

-- The `for` loop of `prepare_columns`, with the columns that it has been over.
unfoldable pub prepare_from_raw :
    List RawColumn → List RawColumn → Heap → Result Fault (Option (List RawColumn) × Heap)
unfolding read_name rename_raw free_name base_name
prepare_from_raw before [] h = ok (some before, h)
prepare_from_raw before (column ∷ columns) h =
    and_then (as_str h.content column.name h.live) (λ original.
      and_then (read_each (read_name h.content) before h.live) (λ names.
        elim (free_name (suc (length before)) names (base_name original) 1) [
          | none ↦ ok (none, h)
          | some name ↦
              and_then (rename_raw column original name h)
                (λ renamed. prepare_from_raw (before ++ renamed.0 ∷ []) columns renamed.1)
        ]))

-- What is taken out of a page: the vector of its items, whose buffer goes, and its token.
unfoldable pub take_page :
    Content → RawList → List ℕ → Result Fault (List RawColumn × Text × List ℕ)
unfolding from_raw_parts free free_block
take_page content page live =
    and_then (from_raw_parts column_kind content page.items live) (λ items.
      and_then (free_block page.items.ptr live) (λ live₁.
        and_then (as_str content page.next_page_token live₁) (λ token.
          and_then (free content page.next_page_token live₁) (λ left. ok (items, token, left)))))

module _ {Double : Type 0} (platform : Platform Double) (config : RustExtClientConfig) where
  open platform use {World, build_list_columns}

  -- A page of a list, from its request on.
  unfoldable pub fetch_list :
      (Text → Heap → Result Text RawList × Heap)
      → Result Text SdkRequest
      → World
      → Heap
      → Result Text RawList × (World × Heap)
  unfolding send_request
  fetch_list read (err message) w heap = (err message, (w, heap))
  fetch_list read (ok request) w heap =
      let (body, w') = send_request platform config request w in
      let (page, heap') = and_run (body, heap) read in (page, (w', heap'))

  unfoldable pub fetch_columns_raw :
      Text → Text → World → Heap → Result Text RawList × (World × Heap)
  unfolding fetch_list endpoint non_empty_string
  fetch_columns_raw table_id page_token = fetch_list (column_list_to_raw platform) (
      build_list_columns (endpoint platform config) (record {
        doc_id = config.resource;
        table_id_or_name = table_id;
        limit = some 100;
        page_token = non_empty_string page_token;
        visible_only = some false;
      }))

  abbrev pub Loading : Type 0 → Type 0
  Loading A = Result Fault (Outcome Text (World × Heap) A)

  -- The end of the body of the loop of `load_columns`; `continue` goes round again.
  unfoldable pub next_columns_raw :
      (List RawColumn → Text → World → Heap → Loading (List RawColumn))
      → List RawColumn
      → World
      → Heap
      → List RawColumn × Text × List ℕ
      → Loading (List RawColumn)
  next_columns_raw continue all w heap (items, token, left) =
      let rest = continue (all ++ items) token w (record heap { live = left }) in
      if is_empty token then ok (returned (all ++ items) (w, record heap { live = left })) else rest

  unfoldable pub after_columns_raw :
      (List RawColumn → Text → World → Heap → Loading (List RawColumn))
      → List RawColumn
      → Result Text RawList × (World × Heap)
      → Loading (List RawColumn)
  unfolding take_page next_columns_raw
  after_columns_raw continue all (err message, s) = ok (threw message s)
  after_columns_raw continue all (ok page, (w, heap)) =
      and_then (take_page heap.content page heap.live) (next_columns_raw continue all w heap)

  -- The loop of `load_columns`, with the columns so far; the fuel bounds the pages.
  unfoldable pub column_pages_raw :
      ℕ → Text → List RawColumn → Text → World → Heap → Loading (List RawColumn)
  unfolding fetch_columns_raw after_columns_raw
  column_pages_raw zero table_id all page_token w heap = ok out_of_fuel
  column_pages_raw (suc fuel) table_id all page_token w heap =
      after_columns_raw (column_pages_raw fuel table_id) all
        (fetch_columns_raw table_id page_token w heap)

  -- The array of the columns, once they have their names.
  unfoldable pub columns_array : World → Option (List RawColumn) × Heap → Loading Slice
  unfolding into_raw_parts
  columns_array w (none, heap) = ok out_of_fuel
  columns_array w (some columns, heap) =
      let (items, heap') = into_raw_parts column_kind columns heap in ok (returned items (w, heap'))

  -- The columns once all pages are there.
  unfoldable pub finish_columns_raw : List RawColumn → World × Heap → Loading Slice
  unfolding append_metadata_raw prepare_from_raw columns_array
  finish_columns_raw all (w, heap) =
      let (columns, heap') =
        if config.include_system_columns then append_metadata_raw all heap else (all, heap) in
      and_then (prepare_from_raw [] columns heap') (columns_array w)

  abbrev pub finish_outcome : Outcome Text (World × Heap) (List RawColumn) → Loading Slice
  unfolding finish_columns_raw
  finish_outcome (returned all s) = finish_columns_raw all s
  finish_outcome (threw message s) = ok (threw message s)
  finish_outcome out_of_fuel = ok out_of_fuel

  -- `load_columns`: the pointer and the count of the columns
  unfoldable pub load_columns_raw : ℕ → Text → World → Heap → Loading Slice
  unfolding column_pages_raw finish_columns_raw
  load_columns_raw fuel table_id w heap =
      and_then (column_pages_raw fuel table_id [] [] w heap) finish_outcome
