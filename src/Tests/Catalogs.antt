-- ===== src/Tests/Catalogs.antt =====
-- Plans, names and filters.
use duckdb_coda.Prelude.{◌≡◌, refl, false, none, List, [], ◌∷◌, arith}
use duckdb_coda.Text.{Text, codes, contains, starts_with, to_ascii_lower, eq_ignore_ascii_case}
use duckdb_coda.Abi.{has_capability, RustExtCatalogTable}
use duckdb_coda.Table.{supports}
use duckdb_coda.Transaction.{reject_explicit_transaction}
use duckdb_coda.Dml.{insert, capability, finish_write, write, sink}
use duckdb_coda.Catalog.{plan_write, plan_insert, lookup_entry, load_entries}
use duckdb_coda.Catalog.Plans.{Planned, by_insert, Planned-sink}
use duckdb_coda.Catalog.Names.{last_named, lookup_entry-last_named}
use duckdb_coda.Scan.State.{RustBridgeScanBindData}
use duckdb_coda.Scan.Pushdown.{
  column_ref, constant, FilterExpression, compare_equal, other_filter, LogicalGet,
  pushdown_complex_filter, ColumnBinding, try_extract_equality_filter, sides, sides_query,
  bound_column, column_query, can_filter_equality, build_equality_query, describe,
}
use duckdb_coda.Scan.Pushdown.Queries.{equality, try_extract_equality_filter-some}
use duckdb_coda.Table.{RustBridgeColumnInfo}
use duckdb_coda.Client.{convert, convert_typed}
use duckdb_coda.Prelude.{◌⊎◌, some, true, false}
use duckdb_coda.Scan.Pushdown.Filters.{Pushed, pushdown_complex_filter-Pushed}
use duckdb_coda.Tests.Document.{
  caseless, Datum, text, db, platform, config, table, raw_table, columns, autocommit, fresh, names,
}

insert-Planned : Planned db autocommit table insert
unfolding plan_insert plan_write reject_explicit_transaction contains starts_with to_ascii_lower
    supports has_capability capability
insert-Planned = by_insert false refl

Planned-sink_example :
    sink db platform config table insert autocommit names fresh
    ≡ finish_write fresh (write db platform config table insert names [])
Planned-sink_example =
    Planned-sink db autocommit table platform config names fresh insert-Planned (omega arith)

-- Two tables whose names differ in their case alone.
abbrev two_tables : List RustExtCatalogTable
two_tables = raw_table ∷ record raw_table { id = codes "other"; name = codes "PEOPLE" } ∷ []

lookup_entry-last_named_example :
    lookup_entry db (codes "people") (load_entries db two_tables [])
    ≡ last_named eq_ignore_ascii_case (codes "people") two_tables none
lookup_entry-last_named_example = lookup_entry-last_named db caseless (codes "people") two_tables

abbrev get : LogicalGet
get = record { table_index = 4; column_ids = columns }

abbrev bind_data : Text → RustBridgeScanBindData
bind_data pushed = record {
  table = table;
  pushed_query = pushed;
  pushed_query_description = [];
  pushed_sort_by = [];
  pushed_limit = 0;
}

abbrev name_filter : FilterExpression Datum
name_filter =
    compare_equal (constant (text (codes "Ada")))
      (column_ref (record { table_index = 4; column_index = 1 }))

name_extracted :
    try_extract_equality_filter db platform get table name_filter
    ≡ some (codes "c1:{}", codes "Name = Ada")
unfolding try_extract_equality_filter sides sides_query bound_column column_query
    can_filter_equality has_capability build_equality_query convert convert_typed describe
name_extracted = refl

abbrev filters : List (FilterExpression Datum)
filters = other_filter ∷ name_filter ∷ other_filter ∷ []

pushdown_complex_filter-Pushed_example :
    Pushed db platform get
      (bind_data [])
      filters
      (pushdown_complex_filter db platform get (bind_data []) filters)
pushdown_complex_filter-Pushed_example =
    pushdown_complex_filter-Pushed db platform get (bind_data []) filters refl

-- The filter on the name, and the column it is bound to.
try_extract_equality_filter-some_example :
    (binding : ColumnBinding) × (value : Datum) × (column : RustBridgeColumnInfo) × ((name_filter
        ≡ compare_equal (column_ref binding) (constant value))
      ⊎ (name_filter ≡ compare_equal (constant value) (column_ref binding)))
    × (bound_column get table binding ≡ some column)
    × (can_filter_equality column.column ≡ true)
    × (db.is_null value ≡ false)
    × (codes "c1:{}" ≡ equality db platform column value)
try_extract_equality_filter-some_example =
    try_extract_equality_filter-some db platform get table name_filter (codes "c1:{}")
      (codes "Name = Ada") name_extracted
