-- ===== src/Blocks/Structs.antt =====
-- A struct holds what its strings and its arrays hold.
pub mod Row
use duckdb_coda.Prelude.{ℕ, ◌≡◌, refl, ap, List, [], ◌∷◌, ◌++◌, Result, ok, and_then, arith}
use duckdb_coda.Text.{Text}
use duckdb_coda.Abi.{RustExtCell, RustExtRow, RustExtTable, RustExtColumn, RustExtCatalogTable}
use duckdb_coda.Ownership.{Fault, count, free_block}
use duckdb_coda.Blocks.{
  Slice, RawCell, RawRow, RawTable, RawColumn, RawCatalogTable, Content, cell_kind, column_kind,
  as_str, free, free_array, free_cell, free_row, free_column, free_columns, free_catalog_table,
  null_slice, ◌then_free◌, from_raw_parts,
}
use duckdb_coda.Blocks.Layout.{
  Layout, text_layout, array_layout, cell_layout, row_layout, table_layout, column_layout,
  catalog_table_layout, read_cell, read_row, read_table, read_column, read_catalog_table,
  free_table,
}
use duckdb_coda.Blocks.Stored.{Array, Array-Holds}
use duckdb_coda.Blocks.Holds.{
  SameBlocks, Within-same, Holds, Frees, Frees-then, Frees-none, Frees-same, Within-left,
  Within-right, count-append,
}

module _ (content : Content) where
  pub Holds-cell :
      (raw : RawCell) {column_id value : Text} {xs ys : List ℕ}
      → Holds text_layout content raw.column_id column_id xs
      → Holds text_layout content raw.value value ys
      → Holds cell_layout content raw
          (record { column_id = column_id; value_type = raw.value_type; value = value })
          (xs ++ ys)
  unfolding free_cell read_cell
  Holds-cell raw {xs = xs} {ys} id value = record {
    frees = Frees-then (free content raw.column_id) (free content raw.value) id.frees value.frees;
    reads = λ live h.
        rw
          (
            read_cell,
            id.reads live (Within-left xs ys live h),
            value.reads live (Within-right xs ys live h),
          )
          refl;
  }

  pub Holds-table :
      (raw : RawTable) {id name : Text} {xs ys : List ℕ}
      → Holds text_layout content raw.id id xs
      → Holds text_layout content raw.name name ys
      → Holds table_layout content raw
          (record { id = id; name = name; capabilities = raw.capabilities })
          (xs ++ ys)
  unfolding free_table read_table
  Holds-table raw {xs = xs} {ys} id name = record {
    frees = Frees-then (free content raw.id) (free content raw.name) id.frees name.frees;
    reads = λ live h.
        rw
          (
            read_table,
            id.reads live (Within-left xs ys live h),
            name.reads live (Within-right xs ys live h),
          )
          refl;
  }

  pub Holds-column :
      (raw : RawColumn) {id name type_name : Text} {xs ys zs : List ℕ}
      → Holds text_layout content raw.id id xs
      → Holds text_layout content raw.name name ys
      → Holds text_layout content raw.type_name type_name zs
      → Holds column_layout content raw
          (record {
            id = id;
            name = name;
            type_name = type_name;
            capabilities = raw.capabilities;
            logical_type = raw.logical_type;
          })
          (xs ++ (ys ++ zs))
  unfolding free_column read_column
  Holds-column raw {xs = xs} {ys} {zs} id name type_name = record {
    frees = Frees-then (free content raw.id) _ id.frees (
        Frees-then (free content raw.name) (free content raw.type_name) name.frees type_name.frees);
    reads = λ live h.
        let rest = Within-right xs (ys ++ zs) live h in
        rw
          (
            read_column,
            id.reads live (Within-left xs _ live h),
            name.reads live (Within-left ys zs live rest),
            type_name.reads live (Within-right ys zs live rest),
          )
          refl;
  }

  -- The token of the columns of a catalog's table is the null string.
  pub Frees-null : Frees (free content null_slice) []
  unfolding free from_raw_parts free_block
  Frees-null = Frees-none

  pub Holds-catalog_table :
      (raw : RawCatalogTable) {id name : Text} {columns : List RustExtColumn} {xs ys zs : List ℕ}
      → Holds text_layout content raw.id id xs
      → Holds text_layout content raw.name name ys
      → Holds (array_layout column_kind column_layout) content raw.columns columns zs
      → Holds catalog_table_layout content raw
          (record { id = id; name = name; capabilities = raw.capabilities; columns = columns })
          (xs ++ (ys ++ zs))
  unfolding free_catalog_table free_columns read_catalog_table count
  Holds-catalog_table raw {xs = xs} {ys} {zs} id name columns = record {
    frees = Frees-then (free content raw.id) _ id.frees (
        Frees-then (free content raw.name) _ name.frees (
          Frees-same _ (λ a. omega (arith, count-append a zs []))
            (Frees-then (free_array column_kind (free_column content) content raw.columns) _
              columns.frees Frees-null)));
    reads = λ live h.
        let rest = Within-right xs (ys ++ zs) live h in
        rw
          (
            read_catalog_table,
            id.reads live (Within-left xs _ live h),
            name.reads live (Within-left ys zs live rest),
            columns.reads live (Within-right ys zs live rest),
          )
          refl;
  }
