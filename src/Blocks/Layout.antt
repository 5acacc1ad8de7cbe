-- ===== src/Blocks/Layout.antt =====
-- What a struct with its pointers stands for: how it is read, as long as its blocks are allocated, and
-- how it is released.
use duckdb_coda.Prelude.{ℕ, List, [], ◌∷◌, Result, ok, and_then}
use duckdb_coda.Text.{Text}
use duckdb_coda.Abi.{RustExtCell, RustExtRow, RustExtTable, RustExtColumn, RustExtCatalogTable}
use duckdb_coda.Ownership.{Fault}
use duckdb_coda.Blocks.{
  Slice, RawCell, RawRow, RawTable, RawColumn, RawCatalogTable, Content, Kind, cell_kind,
  column_kind, from_raw_parts, as_str, free, ◌then_free◌, free_each, free_array, free_cell,
  free_row, free_column, free_catalog_table,
}

-- The elements of an array, one after another.
abbrev pub read_each :
    {R V : Type 0} → (R → List ℕ → Result Fault V) → List R → List ℕ → Result Fault (List V)
read_each f [] live = ok []
read_each f (r ∷ rs) live =
    and_then (f r live) (λ v. and_then (read_each f rs live) (λ vs. ok (v ∷ vs)))

unfoldable pub read_array :
    {R V : Type 0}
    → Kind R
    → (R → List ℕ → Result Fault V)
    → Content
    → Slice
    → List ℕ
    → Result Fault (List V)
unfolding from_raw_parts
read_array kind f content s live =
    and_then (from_raw_parts kind content s live) (λ items. read_each f items live)

unfoldable pub read_cell : Content → RawCell → List ℕ → Result Fault RustExtCell
unfolding from_raw_parts
read_cell content cell live = and_then (as_str content cell.column_id live) (λ column_id.
    and_then (as_str content cell.value live)
      (λ value. ok (record { column_id = column_id; value_type = cell.value_type; value = value })))

unfoldable pub read_row : Content → RawRow → List ℕ → Result Fault RustExtRow
unfolding from_raw_parts read_array read_cell
read_row content row live = and_then (as_str content row.id live) (λ id.
    and_then (as_str content row.created_at live) (λ created_at.
      and_then (as_str content row.updated_at live) (λ updated_at.
        and_then (read_array cell_kind (read_cell content) content row.cells live) (λ cells.
          ok (record {
            id = id;
            created_at = created_at;
            updated_at = updated_at;
            deleted = row.deleted;
            cells = cells;
          })))))

unfoldable pub read_table : Content → RawTable → List ℕ → Result Fault RustExtTable
unfolding from_raw_parts
read_table content table live = and_then (as_str content table.id live) (λ id.
    and_then (as_str content table.name live)
      (λ name. ok (record { id = id; name = name; capabilities = table.capabilities })))

unfoldable pub read_column : Content → RawColumn → List ℕ → Result Fault RustExtColumn
unfolding from_raw_parts
read_column content column live = and_then (as_str content column.id live) (λ id.
    and_then (as_str content column.name live) (λ name.
      and_then (as_str content column.type_name live) (λ type_name. ok (record {
        id = id;
        name = name;
        type_name = type_name;
        capabilities = column.capabilities;
        logical_type = column.logical_type;
      }))))

unfoldable pub read_catalog_table :
    Content → RawCatalogTable → List ℕ → Result Fault RustExtCatalogTable
unfolding from_raw_parts read_array read_column
read_catalog_table content table live = and_then (as_str content table.id live) (λ id.
    and_then (as_str content table.name live) (λ name.
      and_then (read_array column_kind (read_column content) content table.columns live) (λ columns.
        ok
          (record { id = id; name = name; capabilities = table.capabilities; columns = columns }))))

-- A type of structs, with what frees and what reads one.
pub record Layout (R V : Type 0) : Type 0 where
  pub free_one : Content → R → List ℕ → Result Fault (List ℕ)
  pub read_one : Content → R → List ℕ → Result Fault V

abbrev pub text_layout : Layout Slice Text
text_layout = record { free_one = free; read_one = as_str }

abbrev pub list_layout : {R V : Type 0} → Layout R V → Layout (List R) (List V)
list_layout layout = record {
  free_one = λ content. free_each (layout.free_one content);
  read_one = λ content. read_each (layout.read_one content);
}

abbrev pub array_layout : {R V : Type 0} → Kind R → Layout R V → Layout Slice (List V)
array_layout kind layout = record {
  free_one = λ content. free_array kind (layout.free_one content) content;
  read_one = λ content. read_array kind (layout.read_one content) content;
}

abbrev pub cell_layout : Layout RawCell RustExtCell
cell_layout = record { free_one = free_cell; read_one = read_cell }

abbrev pub row_layout : Layout RawRow RustExtRow
row_layout = record { free_one = free_row; read_one = read_row }

-- The loop of `load_catalog` releases a table of a page so.
unfoldable pub free_table : Content → RawTable → List ℕ → Result Fault (List ℕ)
unfolding free
free_table content table = free content table.id then_free free content table.name

abbrev pub table_layout : Layout RawTable RustExtTable
table_layout = record { free_one = free_table; read_one = read_table }

abbrev pub column_layout : Layout RawColumn RustExtColumn
column_layout = record { free_one = free_column; read_one = read_column }

abbrev pub catalog_table_layout : Layout RawCatalogTable RustExtCatalogTable
catalog_table_layout = record { free_one = free_catalog_table; read_one = read_catalog_table }
