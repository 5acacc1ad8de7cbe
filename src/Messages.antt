-- ===== src/Messages.antt =====
-- The messages and names that src/exports.rs hands to the C++ side.
use duckdb_coda.Prelude.{Bool, false, ◌++◌}
use duckdb_coda.Text.{Text, codes}
use duckdb_coda.Abi.{DmlOperation, DdlOperation}

-- `rust_ext_supports_explicit_transactions`
abbrev pub supports_explicit_transactions : Bool
supports_explicit_transactions = false

-- `rust_ext_supports_transaction_rollback`
abbrev pub supports_transaction_rollback : Bool
supports_transaction_rollback = false

abbrev pub explicit_transaction_not_supported_message : Text
explicit_transaction_not_supported_message =
    codes "Coda does not support explicit DuckDB transactions; use autocommit statements"

abbrev pub transaction_rollback_not_supported_message : Text
transaction_rollback_not_supported_message =
    codes "Coda writes cannot be rolled back after they are sent; use autocommit statements"

abbrev pub unsupported_update_expression_message : Text
unsupported_update_expression_message = codes "Unsupported Coda UPDATE expression type"

abbrev pub scan_column_index_out_of_range_message : Text
scan_column_index_out_of_range_message = codes "Coda scan column index out of range"

unfoldable pub dml_not_supported_message : DmlOperation → Text
dml_not_supported_message DmlOperation.insert = codes "Coda INSERT is not supported for this table"
dml_not_supported_message DmlOperation.update = codes "Coda UPDATE is not supported for this table"
dml_not_supported_message DmlOperation.delete = codes "Coda DELETE is not supported for this table"

unfoldable pub returning_not_supported_message : DmlOperation → Text
returning_not_supported_message DmlOperation.insert =
    codes "RETURNING is not supported for Coda INSERT"
returning_not_supported_message DmlOperation.update =
    codes "RETURNING is not supported for Coda UPDATE"
returning_not_supported_message DmlOperation.delete =
    codes "RETURNING is not supported for Coda DELETE"

unfoldable pub ddl_not_supported_message : DdlOperation → Text
ddl_not_supported_message DdlOperation.create_schema =
    codes "Coda DDL is not supported: CREATE SCHEMA"
ddl_not_supported_message DdlOperation.drop_schema = codes "Coda DDL is not supported: DROP SCHEMA"
ddl_not_supported_message DdlOperation.create_table_as =
    codes "Coda DDL is not supported: CREATE TABLE AS"
ddl_not_supported_message DdlOperation.create_index =
    codes "Coda DDL is not supported: CREATE INDEX"
ddl_not_supported_message DdlOperation.create_function =
    codes "Coda DDL is not supported: CREATE FUNCTION"
ddl_not_supported_message DdlOperation.create_table =
    codes "Coda DDL is not supported: CREATE TABLE"
ddl_not_supported_message DdlOperation.create_view = codes "Coda DDL is not supported: CREATE VIEW"
ddl_not_supported_message DdlOperation.create_sequence =
    codes "Coda DDL is not supported: CREATE SEQUENCE"
ddl_not_supported_message DdlOperation.create_table_function =
    codes "Coda DDL is not supported: CREATE TABLE FUNCTION"
ddl_not_supported_message DdlOperation.create_copy_function =
    codes "Coda DDL is not supported: CREATE COPY FUNCTION"
ddl_not_supported_message DdlOperation.create_pragma_function =
    codes "Coda DDL is not supported: CREATE PRAGMA FUNCTION"
ddl_not_supported_message DdlOperation.create_collation =
    codes "Coda DDL is not supported: CREATE COLLATION"
ddl_not_supported_message DdlOperation.create_type = codes "Coda DDL is not supported: CREATE TYPE"
ddl_not_supported_message DdlOperation.alter = codes "Coda DDL is not supported: ALTER"

-- `rust_ext_ddl_drop_entry_not_supported_message`
unfoldable pub drop_entry_not_supported_message : Text → Text
drop_entry_not_supported_message name = codes "Coda DDL is not supported: DROP " ++ name

-- What `ffi_bool` writes for a callee that fails with `message`.
abbrev pub with_context : Text → Text → Text
with_context context message = context ++ (codes ": " ++ message)

abbrev pub database_size_not_available_message : Text
database_size_not_available_message = codes "Coda database size is not available"

abbrev pub row_id_column_name : Text
row_id_column_name = codes "rowid"

-- The labels of the plan's description of a scan.
abbrev pub scan_query_label : Text
scan_query_label = codes "Coda Query"

abbrev pub scan_sort_label : Text
scan_sort_label = codes "Coda Sort"

abbrev pub scan_limit_label : Text
scan_limit_label = codes "Coda Limit"
