-- ===== src/Tests/Document.antt =====
-- A concrete DuckDB, API and document for the tests.
use duckdb_coda.Prelude.{
  ℕ, ◌≡◌, refl, Bool, true, false, none, some, List, [], ◌∷◌, if◌then◌else◌, ok, err,
}
use duckdb_coda.Text.{
  Text, codes, text_eq, contains, starts_with, to_ascii_lower, eq_ignore_ascii_case,
}
use duckdb_coda.Prelude.{map}
use duckdb_coda.Text.Case.{
  eq_ignore_ascii_case_refl, eq_ignore_ascii_case_sym, eq_ignore_ascii_case_trans,
}
use duckdb_coda.Catalog.Names.{IsCaseless}
use duckdb_coda.Abi.{
  pos, RustExtRow, RustExtColumn, RustExtCatalogTable, RustExtClientConfig, RustExtWriteColumn,
}
use duckdb_coda.Duckdb.{
  Duckdb, LogicalTypeId, varchar, ubigint, ColumnIndex, DataChunk, ClientContext,
}
use duckdb_coda.Table.{RustBridgeTableInfo}
use duckdb_coda.Transaction.{reject_explicit_transaction}
use duckdb_coda.Dml.{SinkState}
use duckdb_coda.Platform.{Platform, HttpResponse, SdkRequest}

pub data Datum : Type 0 where
  null : LogicalTypeId → Datum
  text : Text → Datum
  flag : Bool → Datum
  number : ℕ → Datum

abbrev pub is_null : Datum → Bool
is_null (null t) = true
is_null other = false

abbrev pub type_of : Datum → LogicalTypeId
type_of (null t) = t
type_of (text s) = varchar
type_of (flag b) = LogicalTypeId.boolean
type_of (number n) = ubigint

abbrev pub number_of : Datum → ℕ
number_of (number n) = n
number_of other = 0

abbrev pub flag_of : Datum → Bool
flag_of (flag b) = b
flag_of other = false

abbrev pub text_of : Datum → Text
text_of (text s) = s
text_of other = []

abbrev pub db : Duckdb
db = record {
  Value = Datum;
  Double = ℕ;
  zero_double = 0;
  parse_double = λ s. none;
  is_null = is_null;
  type_id = type_of;
  get_boolean = flag_of;
  get_int64 = λ v. pos (number_of v);
  get_uint64 = number_of;
  get_double = number_of;
  value_to_string = text_of;
  null_of = null;
  of_text = text;
  of_boolean = flag;
  of_double = number;
  cast_as = λ v t. some v;
  lower = map to_ascii_lower;
  ci_equals = eq_ignore_ascii_case;
  default_schema = codes "main";
  vector_size = 2;
  row_id_column = 99;
}

-- The API that keeps the requests it has had, and refuses those of the row `bad`.
abbrev pub platform : Platform ℕ
platform = record {
  World = List Text;
  json_text = λ j. codes "{}";
  int_text = λ i. codes "0";
  uint_text = λ n. codes "0";
  double_text = λ n. codes "0";
  from_str = λ body. err (codes "not JSON");
  default_base_url = codes "https://coda.io/";
  build_upsert_rows = λ base input. ok (sdk_request input.table_id_or_name input.payload);
  build_update_row = λ base input. ok (sdk_request input.row_id_or_name input.payload);
  build_delete_rows = λ base input. ok (sdk_request input.table_id_or_name input.payload);
  build_list_rows = λ base input. ok (sdk_request input.table_id_or_name []);
  build_list_columns = λ base input. ok (sdk_request input.table_id_or_name []);
  build_list_tables = λ base input. ok (sdk_request input.doc_id []);
  http = λ request w. (
    if text_eq request.url (codes "bad") then err (codes "refused") else ok accepted,
    request.url ∷ w,
  );
}
  where
    sdk_request : Text → Text → SdkRequest
    sdk_request url body = record {
      method = codes "POST";
      url = url;
      body = some body;
      expected_status = 202;
      operation = codes "write";
    }

    accepted : HttpResponse
    accepted = record { status = 202; into_string = ok [] }

abbrev pub config : RustExtClientConfig
config = record {
  resource = codes "doc";
  credential = codes "token";
  endpoint = [];
  include_system_columns = false;
}

abbrev pub name_column : RustExtColumn
name_column = record {
  id = codes "c1";
  name = codes "Name";
  type_name = codes "text";
  capabilities = 28;
  logical_type = 0;
}

abbrev pub raw_table : RustExtCatalogTable
raw_table = record {
  id = codes "grid";
  name = codes "People";
  capabilities = 30;
  columns = name_column ∷ [];
}

abbrev pub table : RustBridgeTableInfo
table = record {
  table = raw_table;
  columns = record { column = name_column; duckdb_type = varchar } ∷ [];
}

-- A row with one cell.
abbrev pub row : Text → Text → RustExtRow
row id name = record {
  id = id;
  created_at = [];
  updated_at = [];
  deleted = false;
  cells = record { column_id = codes "C1"; value_type = 3; value = name } ∷ [];
}

-- The row id, and the first column.
abbrev pub columns : List ColumnIndex
columns =
    record { primary_index = 99; is_virtual = true }
    ∷ record { primary_index = 0; is_virtual = false }
    ∷ []

abbrev pub autocommit : ClientContext
autocommit = record { is_auto_commit = true; current_query = codes "SELECT 1" }

abbrev pub write_columns : List RustExtWriteColumn
write_columns = record { id = codes "c1"; capabilities = 28 } ∷ []

-- A chunk with one column, of names.
abbrev pub names : DataChunk Datum
names = record { size = 2; column_count = 1; get_value = λ col row. text (codes "Ada") }

abbrev pub fresh : SinkState (List Text)
fresh = record { world = []; transaction = record { has_writes = false }; affected_count = 0 }

pub autocommit_passes : reject_explicit_transaction db autocommit ≡ ok tt
unfolding reject_explicit_transaction contains starts_with to_ascii_lower
autocommit_passes = refl

pub caseless : IsCaseless eq_ignore_ascii_case
caseless = record {
  reflexive = eq_ignore_ascii_case_refl;
  symmetric = eq_ignore_ascii_case_sym;
  transitive = eq_ignore_ascii_case_trans;
}
