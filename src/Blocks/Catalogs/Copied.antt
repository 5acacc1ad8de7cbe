-- ===== src/Blocks/Catalogs/Copied.antt =====
-- The step of `load_catalog` that copies a table with its columns to the catalog and releases the strings
-- of the table.
use duckdb_coda.Prelude.{ℕ, ◌≡◌, refl, List, ◌++◌, ok, and_then-ok, arith}
use duckdb_coda.Abi.{RustExtTable, RustExtColumn, RustExtCatalogTable}
use duckdb_coda.Blocks.{
  Slice, RawTable, RawCatalogTable, Content, Heap, column_kind, byte_kind, alloc_string,
}
use duckdb_coda.Blocks.Holds.{Within, count-append}
use duckdb_coda.Blocks.Stored.{
  TextHolds, Array, array_of, Grows, Agrees, Agrees-earlier, Grows-then, Stays-later, parts_of,
  store_text,
}
use duckdb_coda.Blocks.Readers.Made.{alloc_string-Grows}
use duckdb_coda.Blocks.Columns.Parts.{ColumnOwns}
use duckdb_coda.Blocks.Catalogs.{copy_table}
use duckdb_coda.Blocks.Catalogs.Parts.{TableParts, EntryParts}

abbrev pub entry_of : RustExtTable → List RustExtColumn → RustExtCatalogTable
entry_of table columns = record {
  id = table.id;
  name = table.name;
  capabilities = table.capabilities;
  columns = columns;
}

pub record Copied (h₀ heap : Heap) (others : List ℕ) (raw : RawTable) (table : RustExtTable)
    (slice : Slice) (columns : List RustExtColumn) : Type 0 where
  pub entry : RawCatalogTable
  pub heap' : Heap
  pub blocks : List ℕ
  pub goes : copy_table raw slice heap ≡ ok (entry, heap')
  pub owns : EntryParts (Agrees heap') entry (entry_of table columns) blocks
  pub grows : Grows h₀ heap' (others ++ blocks)
  pub later : (content : Content) → Agrees heap' content → Agrees heap content

pub copy_table-Copied :
    (h₀ heap : Heap) (others b zs : List ℕ) (raw : RawTable) (table : RustExtTable) (slice : Slice)
    (columns : List RustExtColumn)
    → Grows h₀ heap (others ++ (b ++ zs))
    → TableParts (Agrees heap) raw table b
    → Array column_kind ColumnOwns (Agrees heap) slice columns zs
    → Copied h₀ heap others raw table slice columns
unfolding copy_table
copy_table-Copied h₀ heap others b zs raw table slice columns grows parts array =
    let xs = parts.xs in
    let ys = parts.ys in
    let (id', h₁) = alloc_string table.id heap in
    let (name', h₂) = alloc_string table.name h₁ in
    let g₁ = alloc_string-Grows table.id heap in
    let g₂ = alloc_string-Grows table.name h₁ in
    let new_id = parts_of byte_kind table.id heap in
    let new_name = parts_of byte_kind table.name h₁ in
    let there : Within (xs ++ ys) heap.live =
      λ a. omega (arith, grows.counted a, parts.same a, count-append) in
    let id_there : Within xs heap.live = λ a. omega (arith, there a, count-append) in
    let name_there : Within ys h₁.live = λ a. omega (arith, there a, g₁.counted a, count-append) in
    let agrees = Agrees-earlier (Grows-then g₁ g₂) h₂.content (λ a le. refl) in
    let freed_id =
      (parts.id h₂.content agrees).frees h₂.live
        (λ a. omega (arith, there a, g₁.counted a, g₂.counted a, count-append)) in
    let freed_name =
      (parts.name h₂.content agrees).frees freed_id.left
        (λ a. omega (arith, there a, g₁.counted a, g₂.counted a, freed_id.less a, count-append)) in
    record {
      entry = record { id = id'; name = name'; capabilities = raw.capabilities; columns = slice };
      heap' = record h₂ { live = freed_name.left };
      blocks = new_id ++ (new_name ++ zs);
      goes = and_then-ok _ ((parts.id heap.content (λ a le. refl)).reads heap.live id_there) (
          and_then-ok _
            ((parts.name h₁.content (Agrees-earlier g₁ h₁.content (λ a le. refl))).reads h₁.live
              name_there)
            (and_then-ok _ freed_id.goes (and_then-ok _ freed_name.goes refl)));
      owns = record {
        xs = new_id;
        ys = new_name;
        zs = zs;
        id = Stays-later TextHolds g₂ (store_text table.id heap);
        name = store_text table.name h₁;
        columns = Stays-later (array_of column_kind ColumnOwns) (Grows-then g₁ g₂) array;
        capabilities = parts.capabilities;
        same = λ a. refl;
      };
      grows = record {
        last_le = omega (arith, grows.last_le, g₁.last_le, g₂.last_le);
        counted = λ a. omega (
          arith,
          grows.counted a,
          g₁.counted a,
          g₂.counted a,
          freed_id.less a,
          freed_name.less a,
          parts.same a,
          count-append,
        );
        kept = (Grows-then grows (Grows-then g₁ g₂)).kept;
      };
      later = Agrees-earlier (Grows-then g₁ g₂);
    }
