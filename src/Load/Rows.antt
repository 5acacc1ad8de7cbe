-- ===== src/Load/Rows.antt =====
-- A page of rows from the request to the rows: `list_rows` over the HTTP layer and the JSON reader.
use duckdb_coda.Prelude.{
  ◌≡◌, ap, ◌∙◌, ◌==◌, not, false, some, if_false, Result, ok, and_then, arith,
}
use duckdb_coda.Text.{Text, codes}
use duckdb_coda.Abi.{RustExtClientConfig, CodaRowsRequest, CodaRowsResponse}
use duckdb_coda.Platform.{Platform, SdkRequest, ListRowsInput}
use duckdb_coda.Sdk.{endpoint, http_request, send_request, read_response, non_empty_string}
use duckdb_coda.Json.{rows_from_json}
use duckdb_coda.Json.Rows.{response_json, PlainRows, rows_from_json-response_json}
use duckdb_coda.Load.{fetch, list_rows}

module _ {Double : Type 0} (platform : Platform Double) (config : RustExtClientConfig) where
  open platform use {World, from_str, build_list_rows, http}

  -- What the SDK is asked for.
  abbrev pub rows_input : Text → CodaRowsRequest → ListRowsInput
  rows_input table_id request = record {
    doc_id = config.resource;
    table_id_or_name = table_id;
    query = non_empty_string request.query;
    sort_by = non_empty_string request.sort_by;
    use_column_names = some false;
    value_format = some (codes "simpleWithArrays");
    visible_only = some false;
    limit = some request.limit;
    page_token = non_empty_string request.page_token;
    sync_token = non_empty_string request.sync_token;
  }

  -- The API answers a request for rows with a response: the SDK builds a request, the API answers it
  -- with the status that is expected, and its body is the JSON of the response.
  pub record Served (table_id : Text) (request : CodaRowsRequest) (response : CodaRowsResponse)
      (w w' : World) : Type 0 where
    pub sdk_request : SdkRequest
    pub body : Text
    pub built :
        build_list_rows (endpoint platform config) (rows_input table_id request) ≡ ok sdk_request
    pub answered :
        http (http_request platform config sdk_request) w
        ≡ (ok (record { status = sdk_request.expected_status; into_string = ok body }), w')
    pub parsed : from_str body ≡ ok (response_json response)

  read_response-expected :
      (sdk_request : SdkRequest) (body : Text)
      → read_response platform sdk_request
          (ok (record { status = sdk_request.expected_status; into_string = ok body }))
        ≡ ok body
  unfolding read_response
  read_response-expected sdk_request body =
      if_false (not (sdk_request.expected_status == sdk_request.expected_status)) _ _ (ground arith)

  send_request-answered :
      (sdk_request : SdkRequest) (body : Text) (w w' : World)
      → http (http_request platform config sdk_request) w
        ≡ (ok (record { status = sdk_request.expected_status; into_string = ok body }), w')
      → send_request platform config sdk_request w ≡ (ok body, w')
  unfolding send_request
  send_request-answered sdk_request body w w' answered =
      ap (λ a. (read_response platform sdk_request a.0, a.1)) answered
      ∙ ap (λ b. (b, w')) (read_response-expected sdk_request body)

  fetch-sent :
      {A : Type 0} (sdk_request : SdkRequest) (body : Text) (read : Text → Result Text A)
      (w w' : World)
      → send_request platform config sdk_request w ≡ (ok body, w')
      → fetch platform config (ok sdk_request) read w ≡ (read body, w')
  unfolding fetch
  fetch-sent sdk_request body read w w' sent = ap (λ a. (and_then a.0 read, a.1)) sent

  -- A page of rows whose cells are all texts, flags or nulls arrives as the API has it: if the API answers the
  -- request for it with its JSON, `list_rows` gives that page, after this one request.
  pub list_rows-Served :
      (table_id : Text) (request : CodaRowsRequest) (response : CodaRowsResponse) (w w' : World)
      → Served table_id request response w w'
      → PlainRows response.rows
      → list_rows platform config table_id request w ≡ (ok response, w')
  unfolding list_rows fetch
  list_rows-Served table_id request response w w' served plain =
      ap (λ built. fetch platform config built (rows_from_json platform) w) served.built
      ∙ fetch-sent served.sdk_request served.body (rows_from_json platform) w w'
          (send_request-answered served.sdk_request served.body w w' served.answered)
      ∙ ap (λ r. (r, w'))
          (rows_from_json-response_json platform served.body response served.parsed plain)
