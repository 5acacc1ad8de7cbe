-- ===== src/Blocks/Catalogs/Released.antt =====
-- What `load_catalog` hands over, and its release by `free_catalog`.
use duckdb_coda.Prelude.{ℕ, List}
use duckdb_coda.Abi.{RustExtClientConfig, RustExtCatalogTable}
use duckdb_coda.Platform.{Platform}
use duckdb_coda.Load.{load_catalog}
use duckdb_coda.Blocks.{Slice, Content, Heap, catalog_table_kind, free_catalog}
use duckdb_coda.Blocks.Layout.{Layout, catalog_table_layout, read_array, read_catalog_table}
use duckdb_coda.Blocks.Holds.{Holds}
use duckdb_coda.Blocks.Stored.{array_of, Array-Holds}
use duckdb_coda.Blocks.Columns.Released.{Ends, Loaded-Ends}
use duckdb_coda.Blocks.Catalogs.{load_catalog_raw}
use duckdb_coda.Blocks.Catalogs.Parts.{EntryOwns, EntryParts-Holds}
use duckdb_coda.Blocks.Catalogs.Pages.{load_catalog-Loaded}

abbrev pub catalog_layout : Layout Slice (List RustExtCatalogTable)
catalog_layout = record {
  free_one = free_catalog;
  read_one = λ content. read_array catalog_table_kind (read_catalog_table content) content;
}

catalog-Holds :
    (C : Content → Type 0) (content : Content)
    → C content
    → (raw : Slice) (tables : List RustExtCatalogTable) (blocks : List ℕ)
    → (array_of catalog_table_kind EntryOwns).owns C raw tables blocks
    → Holds catalog_layout content raw tables blocks
unfolding free_catalog
catalog-Holds C content k raw tables blocks owns =
    let all =
      Array-Holds catalog_table_kind EntryOwns catalog_table_layout C content k
        (EntryParts-Holds C content k) owns in
    record { frees = all.frees; reads = all.reads }

-- A call of `load_catalog` with its allocations ends as it does by value, with the same tables and the
-- same error, and never frees a block that is not allocated. The array of tables that it hands over can
-- be read from then on, as long as it is not released, and `free_catalog` frees all that the call has
-- left allocated, and nothing else.
pub load_catalog-Ends :
    {Double : Type 0} (platform : Platform Double) (config : RustExtClientConfig)
    (column_fuel fuel : ℕ) (w : platform.World) (heap : Heap)
    → Ends platform config catalog_layout heap
        (load_catalog platform config column_fuel fuel w)
        (load_catalog_raw platform config column_fuel fuel w heap)
load_catalog-Ends platform config column_fuel fuel w heap =
    Loaded-Ends platform config catalog_layout (array_of catalog_table_kind EntryOwns) catalog-Holds
      (load_catalog-Loaded platform config column_fuel fuel w heap)
