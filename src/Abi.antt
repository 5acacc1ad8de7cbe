-- ===== src/Abi.antt =====
-- The structs of src/include/rust_bridge_extension.h, which src/ffi.rs declares again: a struct
-- is a record, an array with its count is a list, a text is taken by value.
use duckdb_coda.Prelude.{ℕ, bit_and, Bool, not, List, ◌==◌}
use duckdb_coda.Text.{Text}

-- `int64_t`: `negsuc n` is -(n + 1).
pub data ℤ : Type 0 where
  pos : ℕ → ℤ
  negsuc : ℕ → ℤ

-- `RustExtInputValueType`
abbrev pub input_null : ℕ
input_null = 0

abbrev pub input_bool : ℕ
input_bool = 1

abbrev pub input_int : ℕ
input_int = 2

abbrev pub input_uint : ℕ
input_uint = 3

abbrev pub input_double : ℕ
input_double = 4

abbrev pub input_string : ℕ
input_string = 5

-- `RUST_EXT_JSON_BOOLEAN`
abbrev pub json_boolean : ℕ
json_boolean = 2

-- `RustExtColumnCapability`
abbrev pub column_generated : ℕ
column_generated = 1

abbrev pub column_system : ℕ
column_system = 2

abbrev pub column_editable : ℕ
column_editable = 4

abbrev pub column_filter_equality : ℕ
column_filter_equality = 8

abbrev pub column_sort_asc : ℕ
column_sort_asc = 16

abbrev pub column_array : ℕ
column_array = 32

-- `RustExtTableCapability`
abbrev pub table_view : ℕ
table_view = 1

abbrev pub table_insert : ℕ
table_insert = 2

abbrev pub table_update : ℕ
table_update = 4

abbrev pub table_delete : ℕ
table_delete = 8

abbrev pub table_row_id : ℕ
table_row_id = 16

-- `(capabilities & mask) != 0`
unfoldable pub has_capability : ℕ → ℕ → Bool
has_capability capabilities mask = not (bit_and capabilities mask == 0)

pub data DmlOperation : Type 0 where
  insert update delete : DmlOperation

pub data DdlOperation : Type 0 where
  create_schema drop_schema create_table_as create_index create_function create_table create_view :
      DdlOperation
  create_sequence create_table_function create_copy_function create_pragma_function : DdlOperation
  create_collation create_type alter : DdlOperation

pub record RustExtInputValue (Double : Type 0) : Type 0 where
  pub value_type : ℕ
  pub bool_value : Bool
  pub int_value : ℤ
  pub uint_value : ℕ
  pub double_value : Double
  pub string_value : Text

pub record RustExtWriteColumn : Type 0 where
  pub id : Text
  pub capabilities : ℕ

pub record RustExtColumn : Type 0 where
  pub id : Text
  pub name : Text
  pub type_name : Text
  pub capabilities : ℕ
  pub logical_type : ℕ

pub record RustExtCell : Type 0 where
  pub column_id : Text
  pub value_type : ℕ
  pub value : Text

pub record RustExtRow : Type 0 where
  pub id : Text
  pub created_at : Text
  pub updated_at : Text
  pub deleted : Bool
  pub cells : List RustExtCell

pub record RustExtScanBatch : Type 0 where
  pub rows : List RustExtRow
  pub finished : Bool

pub record RustExtScanValue (Double : Type 0) : Type 0 where
  pub is_null : Bool
  pub value_type : ℕ
  pub bool_value : Bool
  pub has_double_value : Bool
  pub double_value : Double
  pub value : Text

pub record RustExtCatalogTable : Type 0 where
  pub id : Text
  pub name : Text
  pub capabilities : ℕ
  pub columns : List RustExtColumn

pub record RustExtClientConfig : Type 0 where
  pub resource : Text
  pub credential : Text
  pub endpoint : Text
  pub include_system_columns : Bool

pub record RustExtScanRequest : Type 0 where
  pub filter : Text
  pub order : Text
  pub limit : ℕ

-- `CodaRowsRequest` and `CodaRowsResponse` of src/ffi.rs
pub record CodaRowsRequest : Type 0 where
  pub page_token : Text
  pub query : Text
  pub sort_by : Text
  pub sync_token : Text
  pub limit : ℕ

pub record CodaRowsResponse : Type 0 where
  pub rows : List RustExtRow
  pub next_page_token : Text
  pub next_sync_token : Text

-- `RustExtTable`, `RustExtTableList` and `RustExtColumnList` of src/ffi.rs
pub record RustExtTable : Type 0 where
  pub id : Text
  pub name : Text
  pub capabilities : ℕ

pub record RustExtTableList : Type 0 where
  pub items : List RustExtTable
  pub next_page_token : Text

pub record RustExtColumnList : Type 0 where
  pub items : List RustExtColumn
  pub next_page_token : Text
