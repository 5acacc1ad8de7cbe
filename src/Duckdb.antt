-- ===== src/Duckdb.antt =====
-- What the extension uses of DuckDB, whose code is not in the repository: values, their casts,
-- and two constants. The type of doubles and its operations come with them.
use duckdb_coda.Prelude.{ℕ, Bool, Option}
use duckdb_coda.Text.{Text}
use duckdb_coda.Abi.{ℤ}

-- The members of `LogicalTypeId` that the extension names; `other` is any further one.
pub data LogicalTypeId : Type 0 where
  boolean tinyint smallint integer bigint utinyint usmallint uinteger ubigint : LogicalTypeId
  float double varchar timestamp_tz : LogicalTypeId
  other : ℕ → LogicalTypeId

pub record Duckdb : Type 1 where
  pub Value : Type 0
  pub Double : Type 0
  -- `0.0`, and `str::parse::<f64>`
  pub zero_double : Double
  pub parse_double : Text → Option Double
  -- `value.IsNull()` and `value.type().id()`
  pub is_null : Value → Bool
  pub type_id : Value → LogicalTypeId
  -- `BooleanValue::Get`, `GetValue<int64_t>`, `GetValue<uint64_t>`, `GetValue<double>`, `ToString`
  pub get_boolean : Value → Bool
  pub get_int64 : Value → ℤ
  pub get_uint64 : Value → ℕ
  pub get_double : Value → Double
  pub value_to_string : Value → Text
  -- `Value(type)`, `Value(string)`, `Value::BOOLEAN`, `Value::DOUBLE`
  pub null_of : LogicalTypeId → Value
  pub of_text : Text → Value
  pub of_boolean : Bool → Value
  pub of_double : Double → Value
  -- `DefaultCastAs`; `none` is a cast that throws
  pub cast_as : Value → LogicalTypeId → Option Value
  -- `StringUtil::Lower` and `StringUtil::CIEquals`
  pub lower : Text → Text
  pub ci_equals : Text → Text → Bool
  -- `DEFAULT_SCHEMA`, `STANDARD_VECTOR_SIZE` and `COLUMN_IDENTIFIER_ROW_ID`
  pub default_schema : Text
  pub vector_size : ℕ
  pub row_id_column : ℕ

-- `ColumnIndex`, as `IsVirtualColumn` and `GetPrimaryIndex` read it.
pub record ColumnIndex : Type 0 where
  pub primary_index : ℕ
  pub is_virtual : Bool

-- A `DataChunk`: `size()`, `ColumnCount()` and `GetValue(col, row)`. DuckDB plans the chunk of an INSERT
-- with a column for each column of the table; the exception of a read past the columns is left out.
pub record DataChunk (Value : Type 0) : Type 0 where
  pub size : ℕ
  pub column_count : ℕ
  pub get_value : ℕ → ℕ → Value

-- `context.transaction.IsAutoCommit()` and `context.GetCurrentQuery()`
pub record ClientContext : Type 0 where
  pub is_auto_commit : Bool
  pub current_query : Text

-- The exceptions that the extension throws. `out_of_bounds` stands for a read past the end of an
-- array, which C++ leaves undefined.
pub data Exception : Type 0 where
  invalid_input not_implemented internal binder out_of_memory : Text → Exception
  out_of_bounds : Exception
