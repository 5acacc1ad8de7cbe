-- ===== src/Catalog.antt =====
-- The catalog of an attached document, src/cpp/storage/rust_bridge_catalog.cpp and
-- rust_bridge_schema.cpp: the plans of the write statements, the one schema, its tables by name,
-- and the refusal of every change of the schema.
pub mod Plans
pub mod Names
pub mod Attached
use duckdb_coda.Prelude.{
  ℕ, Bool, not, Option, none, some, List, [], ◌∷◌, if◌then◌else◌, Result, ok, err, and_then,
}
use duckdb_coda.Text.{Text, codes}
use duckdb_coda.Abi.{DdlOperation, RustExtCatalogTable}
use duckdb_coda.Duckdb.{Duckdb, ClientContext, Exception, not_implemented, binder, out_of_bounds}
use duckdb_coda.Messages.{
  dml_not_supported_message, returning_not_supported_message, ddl_not_supported_message,
  drop_entry_not_supported_message, database_size_not_available_message,
}
use duckdb_coda.Table.{RustBridgeTableInfo, supports, borrow_table_info}
use duckdb_coda.Client.{UpdateExpression}
use duckdb_coda.Transaction.{reject_explicit_transaction}
use duckdb_coda.Dml.{Operator, insert, update, delete, capability, operation}
use duckdb_coda.Prelude.{◌++◌}

module _ (db : Duckdb) where
  -- The guards that the three plans share: transaction, RETURNING, and the table's capability.
  unfoldable pub plan_write :
      ClientContext → RustBridgeTableInfo → Bool → Operator → Result Exception Operator
  plan_write context table return_chunk op = and_then (reject_explicit_transaction db context) (λ _.
      if return_chunk
      then err (not_implemented (returning_not_supported_message (operation op)))
      else if not (supports table (capability op))
      then err (not_implemented (dml_not_supported_message (operation op)))
      else ok op)

  -- `PlanInsert`
  unfoldable pub plan_insert :
      ClientContext → RustBridgeTableInfo → Bool → Result Exception Operator
  plan_insert context table return_chunk = plan_write context table return_chunk insert

  -- `PlanUpdate`
  unfoldable pub plan_update :
      ClientContext
      → RustBridgeTableInfo
      → Bool
      → List ℕ
      → List UpdateExpression
      → Result Exception Operator
  plan_update context table return_chunk columns expressions =
      plan_write context table return_chunk (update columns expressions)

  -- `PlanDelete`, over the indices of the bound references of its expressions; the first is the
  -- row id's.
  unfoldable pub plan_delete :
      ClientContext → RustBridgeTableInfo → Bool → List ℕ → Result Exception Operator
  plan_delete context table return_chunk [] =
      and_then (plan_write context table return_chunk (delete 0)) (λ _. err out_of_bounds)
  plan_delete context table return_chunk (index ∷ rest) =
      plan_write context table return_chunk (delete index)

  -- `LookupSchema`: whether the name is that of the one schema.
  unfoldable pub lookup_schema : Text → Bool → Result Exception Bool
  lookup_schema name throws =
      if db.ci_equals name db.default_schema
      then ok Bool.true
      else if throws
      then err (binder (codes "Schema with name \"" ++ (name ++ codes "\" not found")))
      else ok Bool.false

  -- The map of the entries, whose keys are equal up to their case.
  abbrev pub Entries : Type 0
  Entries = List (Text × RustBridgeTableInfo)

  -- `entries[name] = std::move(entry)`
  unfoldable pub put_entry : Text → RustBridgeTableInfo → Entries → Entries
  put_entry name table [] = (name, table) ∷ []
  put_entry name table ((key, old) ∷ rest) =
      if db.ci_equals key name then (key, table) ∷ rest else (key, old) ∷ put_entry name table rest

  -- `entries.find(name)`, in `LookupEntry`
  unfoldable pub lookup_entry : Text → Entries → Option RustBridgeTableInfo
  lookup_entry name [] = none
  lookup_entry name ((key, table) ∷ rest) =
      if db.ci_equals key name then some table else lookup_entry name rest

  -- The loop of the schema's constructor.
  unfoldable pub load_entries : List RustExtCatalogTable → Entries → Entries
  load_entries [] entries = entries
  load_entries (table ∷ tables) entries =
      load_entries tables (put_entry table.name (borrow_table_info table) entries)

-- `DDLNotSupported`
unfoldable pub ddl_not_supported : DdlOperation → Result Exception Unit
ddl_not_supported operation = err (not_implemented (ddl_not_supported_message operation))

-- `CreateSchema`, `DropSchema`, `PlanCreateTableAs` and `BindCreateIndex` of the catalog
unfoldable pub create_schema : Result Exception Unit
unfolding ddl_not_supported
create_schema = ddl_not_supported DdlOperation.create_schema

unfoldable pub drop_schema : Result Exception Unit
unfolding ddl_not_supported
drop_schema = ddl_not_supported DdlOperation.drop_schema

unfoldable pub plan_create_table_as : Result Exception Unit
unfolding ddl_not_supported
plan_create_table_as = ddl_not_supported DdlOperation.create_table_as

unfoldable pub bind_create_index : Result Exception Unit
unfolding ddl_not_supported
bind_create_index = ddl_not_supported DdlOperation.create_index

-- The calls that would change the schema.
pub data SchemaCall : Type 0 where
  create_index create_function create_table create_view create_sequence : SchemaCall
  create_table_function create_copy_function create_pragma_function : SchemaCall
  create_collation create_type alter : SchemaCall
  drop_entry : Text → SchemaCall

-- `DropEntryNotSupported`, of a name that is valid UTF-8
abbrev drop_entry_not_supported : Text → Result Exception Unit
drop_entry_not_supported name = err (not_implemented (drop_entry_not_supported_message name))

unfoldable pub schema_call : SchemaCall → Result Exception Unit
schema_call create_index = ddl_not_supported DdlOperation.create_index
schema_call create_function = ddl_not_supported DdlOperation.create_function
schema_call create_table = ddl_not_supported DdlOperation.create_table
schema_call create_view = ddl_not_supported DdlOperation.create_view
schema_call create_sequence = ddl_not_supported DdlOperation.create_sequence
schema_call create_table_function = ddl_not_supported DdlOperation.create_table_function
schema_call create_copy_function = ddl_not_supported DdlOperation.create_copy_function
schema_call create_pragma_function = ddl_not_supported DdlOperation.create_pragma_function
schema_call create_collation = ddl_not_supported DdlOperation.create_collation
schema_call create_type = ddl_not_supported DdlOperation.create_type
schema_call alter = ddl_not_supported DdlOperation.alter
schema_call (drop_entry name) = drop_entry_not_supported name

-- `GetDatabaseSize`
unfoldable pub get_database_size : Result Exception Unit
get_database_size = err (not_implemented database_size_not_available_message)
