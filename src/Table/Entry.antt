-- ===== src/Table/Entry.antt =====
-- The entry of a table in the schema, src/cpp/storage/rust_bridge_table.cpp.
use duckdb_coda.Prelude.{ℕ, not, List, [], ◌∷◌, map, if◌then◌else◌}
use duckdb_coda.Text.{Text}
use duckdb_coda.Abi.{table_row_id}
use duckdb_coda.Duckdb.{Duckdb, LogicalTypeId, varchar}
use duckdb_coda.Messages.{row_id_column_name}
use duckdb_coda.Table.{RustBridgeTableInfo, RustBridgeColumnInfo, supports}
use duckdb_coda.Scan.State.{RustBridgeScanBindData}

-- `CreateTableInfo`, as far as it is filled.
pub record CreateTableInfo : Type 0 where
  pub schema_name : Text
  pub table_name : Text
  pub columns : List (Text × LogicalTypeId)

-- `RustBridgeCreateTableInfo`
unfoldable pub create_table_info : RustBridgeTableInfo → Text → CreateTableInfo
create_table_info table schema_name = record {
  schema_name = schema_name;
  table_name = table.table.name;
  columns =
      map (λ (column : RustBridgeColumnInfo). (column.column.name, column.duckdb_type))
        table.columns;
}

-- The bind data that `GetScanFunction` makes.
unfoldable pub scan_bind_data : RustBridgeTableInfo → RustBridgeScanBindData
scan_bind_data table = record {
  table = table;
  pushed_query = [];
  pushed_query_description = [];
  pushed_sort_by = [];
  pushed_limit = 0;
}

-- A virtual column: its identifier, name and type.
abbrev pub VirtualColumn : Type 0
VirtualColumn = ℕ × Text × LogicalTypeId

-- `GetVirtualColumns`
unfoldable pub table_virtual_columns : Duckdb → RustBridgeTableInfo → List VirtualColumn
unfolding supports
table_virtual_columns db table =
    if supports table table_row_id then (db.row_id_column, row_id_column_name, varchar) ∷ [] else []

-- `GetRowIdColumns`
unfoldable pub table_row_id_columns : Duckdb → RustBridgeTableInfo → List ℕ
unfolding supports
table_row_id_columns db table =
    if not (supports table table_row_id) then [] else db.row_id_column ∷ []
