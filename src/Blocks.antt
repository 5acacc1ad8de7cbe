-- ===== src/Blocks.antt =====
-- The allocations behind the structs that cross the boundary: `alloc_string`, `RustExtString::free`,
-- `vec_into_raw_parts` and `vec_from_raw_parts` of src/ffi.rs, over a heap whose blocks hold a text or
-- an array of structs. An address is not handed out twice.
pub mod Layout
pub mod Holds
pub mod Structs
pub mod Stored
pub mod Readers
pub mod Batches
pub mod Columns
pub mod Catalogs
pub mod Attaching
use duckdb_coda.Prelude.{
  ℕ, suc, ◌==◌, ltb, Bool, Option, none, some, List, [], ◌∷◌, length, is_empty, if◌then◌else◌,
  Result, ok, err, and_then, and_run, ◌≡◌, refl,
}
use duckdb_coda.Text.{Text}
use duckdb_coda.Ownership.{Fault, ruled_out, dead_block, count, remove, free_block}

-- A pointer with a length: a `RustExtString`, or an array with its count.
pub record Slice : Type 0 where
  pub ptr : ℕ
  pub len : ℕ

-- `RustExtString::default`
abbrev pub null_slice : Slice
null_slice = record { ptr = 0; len = 0 }

-- The structs with their pointers.
pub record RawCell : Type 0 where
  pub column_id : Slice
  pub value_type : ℕ
  pub value : Slice

pub record RawRow : Type 0 where
  pub id : Slice
  pub created_at : Slice
  pub updated_at : Slice
  pub deleted : Bool
  pub cells : Slice

pub record RawTable : Type 0 where
  pub id : Slice
  pub name : Slice
  pub capabilities : ℕ

pub record RawColumn : Type 0 where
  pub id : Slice
  pub name : Slice
  pub type_name : Slice
  pub capabilities : ℕ
  pub logical_type : ℕ

pub record RawCatalogTable : Type 0 where
  pub id : Slice
  pub name : Slice
  pub capabilities : ℕ
  pub columns : Slice

pub data Block : Type 0 where
  unused : Block
  bytes : Text → Block
  cells : List RawCell → Block
  rows : List RawRow → Block
  tables : List RawTable → Block
  columns : List RawColumn → Block
  catalog_tables : List RawCatalogTable → Block

abbrev pub Content : Type 0
Content = ℕ → Block

-- The addresses that are allocated, and what was written to each when it was.
pub record Heap : Type 0 where
  pub last : ℕ
  pub live : List ℕ
  pub content : Content

abbrev pub written : Content → ℕ → Block → Content
written content p block q = if p == q then block else content q

unfoldable pub alloc : Block → Heap → ℕ × Heap
alloc block h = (
  suc h.last,
  record {
    last = suc h.last;
    live = suc h.last ∷ h.live;
    content = written h.content (suc h.last) block;
  },
)

-- The blocks that hold arrays of one type.
pub record Kind (A : Type 0) : Type 0 where
  pub block : List A → Block
  pub elements : Block → Option (List A)
  pub elements-block : (xs : List A) → elements (block xs) ≡ some xs

bytes_of : Block → Option Text
bytes_of (bytes xs) = some xs
bytes_of other = none

cells_of : Block → Option (List RawCell)
cells_of (cells xs) = some xs
cells_of other = none

rows_of : Block → Option (List RawRow)
rows_of (rows xs) = some xs
rows_of other = none

tables_of : Block → Option (List RawTable)
tables_of (tables xs) = some xs
tables_of other = none

columns_of : Block → Option (List RawColumn)
columns_of (columns xs) = some xs
columns_of other = none

catalog_tables_of : Block → Option (List RawCatalogTable)
catalog_tables_of (catalog_tables xs) = some xs
catalog_tables_of other = none

abbrev pub byte_kind : Kind ℕ
unfolding bytes_of
byte_kind = record { block = bytes; elements = bytes_of; elements-block = λ xs. refl }

abbrev pub cell_kind : Kind RawCell
unfolding cells_of
cell_kind = record { block = cells; elements = cells_of; elements-block = λ xs. refl }

abbrev pub row_kind : Kind RawRow
unfolding rows_of
row_kind = record { block = rows; elements = rows_of; elements-block = λ xs. refl }

abbrev pub table_kind : Kind RawTable
unfolding tables_of
table_kind = record { block = tables; elements = tables_of; elements-block = λ xs. refl }

abbrev pub column_kind : Kind RawColumn
unfolding columns_of
column_kind = record { block = columns; elements = columns_of; elements-block = λ xs. refl }

abbrev pub catalog_table_kind : Kind RawCatalogTable
unfolding catalog_tables_of
catalog_table_kind = record {
  block = catalog_tables;
  elements = catalog_tables_of;
  elements-block = λ xs. refl;
}

module _ {A : Type 0} (kind : Kind A) where
  -- `vec_into_raw_parts`: no block for an empty vector.
  unfoldable pub into_raw_parts : List A → Heap → Slice × Heap
  unfolding alloc
  into_raw_parts items h =
      if◌then◌else◌ {A = Slice × Heap} (is_empty items) (null_slice, h)
        (
          record { ptr = (alloc (kind.block items) h).0; len = length items },
          (alloc (kind.block items) h).1,
        )

  -- `Vec::from_raw_parts` has to be given a block of the allocator, with its layout.
  unfoldable pub of_layout : ℕ → Option (List A) → Result Fault (List A)
  of_layout len none = err ruled_out
  of_layout len (some items) = if length items == len then ok items else err ruled_out

  -- `vec_from_raw_parts`: a null pointer is an empty vector.
  unfoldable pub from_raw_parts : Content → Slice → List ℕ → Result Fault (List A)
  unfolding of_layout count
  from_raw_parts content s live =
      if s.ptr == 0
      then ok []
      else if ltb 0 (count s.ptr live)
      then of_layout s.len (kind.elements (content s.ptr))
      else err dead_block

-- `alloc_string`, which allocates nothing for the empty text
abbrev pub alloc_string : Text → Heap → Slice × Heap
alloc_string = into_raw_parts byte_kind

-- `RustExtString::as_str`
abbrev pub as_str : Content → Slice → List ℕ → Result Fault Text
as_str = from_raw_parts byte_kind

-- `RustExtString::free`: a vector is made of the parts, and dropped.
unfoldable pub free : Content → Slice → List ℕ → Result Fault (List ℕ)
unfolding from_raw_parts free_block
free content s live = and_then (as_str content s live) (λ text. free_block s.ptr live)

-- One release after another.
infixr 5 ◌then_free◌
abbrev pub ◌then_free◌ :
    (List ℕ → Result Fault (List ℕ))
    → (List ℕ → Result Fault (List ℕ))
    → List ℕ
    → Result Fault (List ℕ)
◌then_free◌ f g live = and_then (f live) g

-- The body of a loop over a vector that is consumed.
abbrev pub free_each :
    {R : Type 0} → (R → List ℕ → Result Fault (List ℕ)) → List R → List ℕ → Result Fault (List ℕ)
free_each f [] live = ok live
free_each f (r ∷ rs) live = and_then (f r live) (free_each f rs)

-- A vector that is made of the parts of an array, consumed by a loop, and dropped.
unfoldable pub free_array :
    {R : Type 0}
    → Kind R
    → (R → List ℕ → Result Fault (List ℕ))
    → Content
    → Slice
    → List ℕ
    → Result Fault (List ℕ)
unfolding from_raw_parts free_block
free_array kind f content s live =
    and_then (from_raw_parts kind content s live)
      (λ items. and_then (free_each f items live) (free_block s.ptr))

-- The release of a cell, a row, a column and a table, as the loops of src/json.rs have it.
unfoldable pub free_cell : Content → RawCell → List ℕ → Result Fault (List ℕ)
unfolding free
free_cell content cell = free content cell.column_id then_free free content cell.value

unfoldable pub free_row : Content → RawRow → List ℕ → Result Fault (List ℕ)
unfolding free free_array free_cell
free_row content row =
    free content row.id
    then_free free content row.created_at
    then_free free content row.updated_at
    then_free free_array cell_kind (free_cell content) content row.cells

-- `free_rows_partial`, which is `free_scan_batch`
unfoldable pub free_rows_partial : Content → Slice → List ℕ → Result Fault (List ℕ)
unfolding free_array free_row
free_rows_partial content = free_array row_kind (free_row content) content

unfoldable pub free_column : Content → RawColumn → List ℕ → Result Fault (List ℕ)
unfolding free
free_column content column =
    free content column.id
    then_free free content column.name
    then_free free content column.type_name

-- `free_columns`, of a list with its token
unfoldable pub free_columns : Content → Slice → Slice → List ℕ → Result Fault (List ℕ)
unfolding free free_array free_column
free_columns content items next_page_token =
    free_array column_kind (free_column content) content items
    then_free free content next_page_token

unfoldable pub free_catalog_table : Content → RawCatalogTable → List ℕ → Result Fault (List ℕ)
unfolding free free_columns
free_catalog_table content table =
    free content table.id
    then_free free content table.name
    then_free free_columns content table.columns null_slice

-- `free_catalog`
unfoldable pub free_catalog : Content → Slice → List ℕ → Result Fault (List ℕ)
unfolding free_array free_catalog_table
free_catalog content = free_array catalog_table_kind (free_catalog_table content) content
