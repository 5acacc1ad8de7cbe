-- ===== src/Platform.antt =====
-- What src/sdk.rs, src/client.rs and src/mutation.rs use of other crates: `serde_json`, the
-- `superhuman-docs` SDK that builds requests, and the `ureq` HTTP client. `World` is all that
-- answers an HTTP request, and what a request may change.
use duckdb_coda.Prelude.{ℕ, Bool, Option, List, [], ◌∷◌, Result}
use duckdb_coda.Text.{Text}
use duckdb_coda.Abi.{ℤ}

-- `serde_json::Value`
mutual
  pub data Json (Double : Type 0) : Type 0 where
    null : Json Double
    bool : Bool → Json Double
    int : ℤ → Json Double
    uint : ℕ → Json Double
    double : Double → Json Double
    string : Text → Json Double
    array : Items Double → Json Double
    object : Fields Double → Json Double

  pub data Items (Double : Type 0) : Type 0 where
    nil : Items Double
    cons : Json Double → Items Double → Items Double

  pub data Fields (Double : Type 0) : Type 0 where
    end : Fields Double
    field : Text → Json Double → Fields Double → Fields Double

abbrev pub items_of : {Double : Type 0} → List (Json Double) → Items Double
items_of [] = nil
items_of (j ∷ js) = cons j (items_of js)

-- `json!([...])` and `json!({ "key": value })`
abbrev pub json_array : {Double : Type 0} → List (Json Double) → Json Double
json_array js = array (items_of js)

-- `superhuman_docs::Request`
pub record SdkRequest : Type 0 where
  pub method : Text
  pub url : Text
  pub body : Option Text
  pub expected_status : ℕ
  pub operation : Text

pub record UpsertRowsInput : Type 0 where
  pub doc_id : Text
  pub table_id_or_name : Text
  pub disable_parsing : Option Bool
  pub payload : Text

pub record UpdateRowInput : Type 0 where
  pub doc_id : Text
  pub table_id_or_name : Text
  pub row_id_or_name : Text
  pub disable_parsing : Option Bool
  pub payload : Text

pub record DeleteRowsInput : Type 0 where
  pub doc_id : Text
  pub table_id_or_name : Text
  pub payload : Text

pub record ListRowsInput : Type 0 where
  pub doc_id : Text
  pub table_id_or_name : Text
  pub query : Option Text
  pub sort_by : Option Text
  pub use_column_names : Option Bool
  pub value_format : Option Text
  pub visible_only : Option Bool
  pub limit : Option ℕ
  pub page_token : Option Text
  pub sync_token : Option Text

pub record ListColumnsInput : Type 0 where
  pub doc_id : Text
  pub table_id_or_name : Text
  pub limit : Option ℕ
  pub page_token : Option Text
  pub visible_only : Option Bool

pub record ListTablesInput : Type 0 where
  pub doc_id : Text
  pub limit : Option ℕ
  pub page_token : Option Text

pub record HttpRequest : Type 0 where
  pub method : Text
  pub url : Text
  pub authorization : Text
  pub content_type : Text
  pub body : Option Text

-- `into_string` may fail on the body.
pub record HttpResponse : Type 0 where
  pub status : ℕ
  pub into_string : Result Text Text

pub record Platform (Double : Type 0) : Type 1 where
  pub World : Type 0
  -- `Value::to_string`, and the `to_string` of numbers
  pub json_text : Json Double → Text
  pub int_text : ℤ → Text
  pub uint_text : ℕ → Text
  pub double_text : Double → Text
  -- `serde_json::from_str`
  pub from_str : Text → Result Text (Json Double)
  pub default_base_url : Text
  pub build_upsert_rows : Text → UpsertRowsInput → Result Text SdkRequest
  pub build_update_row : Text → UpdateRowInput → Result Text SdkRequest
  pub build_delete_rows : Text → DeleteRowsInput → Result Text SdkRequest
  pub build_list_rows : Text → ListRowsInput → Result Text SdkRequest
  pub build_list_columns : Text → ListColumnsInput → Result Text SdkRequest
  pub build_list_tables : Text → ListTablesInput → Result Text SdkRequest
  pub http : HttpRequest → World → Result Text HttpResponse × World
