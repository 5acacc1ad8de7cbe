-- ===== src/Table.antt =====
-- Tables and columns as the C++ side keeps them: src/include/rust_bridge_client.hpp, and
-- `BorrowRustBridgeTableInfo` of src/cpp/storage/rust_bridge_schema.cpp. A pointer to a struct of
-- the catalog response is the struct, which nothing changes while the catalog is attached.
pub mod Entry
use duckdb_coda.Prelude.{ℕ, zero, suc, Bool, List, map}
use duckdb_coda.Abi.{has_capability, RustExtColumn, RustExtCatalogTable}
use duckdb_coda.Duckdb.{LogicalTypeId, boolean, double, varchar, timestamp_tz}

-- `RustBridgeDuckDBLogicalType`
unfoldable pub duckdb_logical_type : ℕ → LogicalTypeId
duckdb_logical_type zero = varchar
duckdb_logical_type (suc zero) = boolean
duckdb_logical_type (suc (suc zero)) = double
duckdb_logical_type (suc (suc (suc zero))) = timestamp_tz
duckdb_logical_type other = varchar

pub record RustBridgeColumnInfo : Type 0 where
  pub column : RustExtColumn
  pub duckdb_type : LogicalTypeId

pub record RustBridgeTableInfo : Type 0 where
  pub table : RustExtCatalogTable
  pub columns : List RustBridgeColumnInfo

-- `RustBridgeTableInfo::Supports`
unfoldable pub supports : RustBridgeTableInfo → ℕ → Bool
unfolding has_capability
supports info capability = has_capability info.table.capabilities capability

unfoldable pub borrow_column_info : RustExtColumn → RustBridgeColumnInfo
borrow_column_info raw_column = record {
  column = raw_column;
  duckdb_type = duckdb_logical_type raw_column.logical_type;
}

-- `BorrowRustBridgeTableInfo`
unfoldable pub borrow_table_info : RustExtCatalogTable → RustBridgeTableInfo
borrow_table_info raw_table = record {
  table = raw_table;
  columns = map borrow_column_info raw_table.columns;
}
