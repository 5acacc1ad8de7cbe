-- ===== src/Tests/Scans.antt =====
-- A scan of two pages.
use duckdb_coda.Prelude.{
  ℕ, ◌+◌, ◌<◌, ◌≤◌, ◌≡◌, refl, true, Option, none, some, List, [], ◌∷◌, ◌++◌, ◌⊎◌, map, flatten,
  length, is_empty, returned, Result, ok, traverse, arith, if◌then◌else◌,
}
use duckdb_coda.Text.{Text, codes}
use duckdb_coda.Abi.{RustExtClientConfig, CodaRowsRequest, CodaRowsResponse}
use duckdb_coda.Duckdb.{LogicalTypeId, varchar}
use duckdb_coda.Fetch.{ScanHandle, new_handle, next_batch, request, absorb, visible_rows}
use duckdb_coda.Fetch.Pages.{Answers, final, further, Answers-Yields, batches}
use duckdb_coda.Text.{eq_ignore_ascii_case}
use duckdb_coda.Abi.{has_capability}
use duckdb_coda.Cells.{
  scan_value, find_scan_value, cell_scan_value, cell_double, scan_value_to_value, typed_value,
}
use duckdb_coda.Cells.Lookup.{Found, scan_value-Found}
use duckdb_coda.Scan.Row.{row_values, column_value}
use duckdb_coda.Scan.Source.{Yields}
use duckdb_coda.Scan.State.{RustBridgeScanBindData, ScanState, scan_request}
use duckdb_coda.Scan.Whole.{
  whole_scan, cells_of, whole_scan_complete, whole_scan_prefix, whole_scan_overrun,
}
use duckdb_coda.Load
use duckdb_coda.Platform.{Platform}
use duckdb_coda.Json.Rows.{response_json}
use duckdb_coda.Tests.Document.{platform, Datum, text, db, config, table, row, columns, name_column}

abbrev page_one : CodaRowsResponse
page_one = record {
  rows = row (codes "i1") (codes "Ada") ∷ row (codes "i2") (codes "Bob") ∷ [];
  next_page_token = codes "p2";
  next_sync_token = [];
}

abbrev page_two : CodaRowsResponse
page_two = record {
  rows =
      record (row (codes "i3") (codes "Cid")) { deleted = true }
      ∷ row (codes "i4") (codes "Dan")
      ∷ row (codes "i5") (codes "Eve")
      ∷ [];
  next_page_token = [];
  next_sync_token = [];
}

-- The first page is that of the empty token.
abbrev list_rows :
    RustExtClientConfig → Text → CodaRowsRequest → ℕ → Result Text CodaRowsResponse × ℕ
list_rows _ table_id request w =
    (ok (if is_empty request.page_token then page_one else page_two), w + 1)

abbrev bind_data : ℕ → RustBridgeScanBindData
bind_data limit = record {
  table = table;
  pushed_query = [];
  pushed_query_description = [];
  pushed_sort_by = [];
  pushed_limit = limit;
}

abbrev handle : ℕ → ScanHandle
handle limit = new_handle config (codes "grid") (scan_request (bind_data limit))

abbrev pages : List CodaRowsResponse
pages = page_one ∷ page_two ∷ []

abbrev output : List (List Datum)
output =
    (text (codes "i1") ∷ text (codes "Ada") ∷ [])
    ∷ (text (codes "i2") ∷ text (codes "Bob") ∷ [])
    ∷ (text (codes "i4") ∷ text (codes "Dan") ∷ [])
    ∷ (text (codes "i5") ∷ text (codes "Eve") ∷ [])
    ∷ []

abbrev types : ℕ → LogicalTypeId
types i = varchar

answers : (limit : ℕ) → Answers list_rows (handle limit) 0 pages
unfolding new_handle scan_request request absorb
answers limit = further refl refl (final refl refl refl)

module _ (limit : ℕ) where
  cells :
      traverse
        (cells_of db types list_rows config (bind_data limit) columns)
        (flatten (map visible_rows pages))
      ≡ ok output
  unfolding row_values column_value scan_value find_scan_value cell_scan_value cell_double
      has_capability scan_value_to_value typed_value flatten eq_ignore_ascii_case
  cells = refl

cells_of_both :
    traverse
      (cells_of db types list_rows config (bind_data 3) columns)
      (visible_rows page_one ++ visible_rows page_two)
    ≡ ok output
unfolding flatten
cells_of_both = cells 3

-- Both pages come out, but for the row that is deleted.
whole_scan_complete_example :
    (state : ScanState (ScanHandle × ℕ)) × (whole_scan db types list_rows config
        (bind_data 0)
        columns
        2
        3
        5
        0
      ≡ returned output state)
whole_scan_complete_example =
    whole_scan_complete db types list_rows config (bind_data 0) columns 2 3 5 0 pages output refl
      (answers 0) (cells 0) (omega arith) (omega arith) (omega arith) (omega arith)

whole_scan_prefix_example :
    (given left : List (List Datum)) × (state : ScanState (ScanHandle × ℕ)) × (whole_scan db types
        list_rows config
        (bind_data 1)
        columns
        2
        3
        5
        0
      ≡ returned given state)
    × (output ≡ given ++ left)
    × ((left ≡ []) ⊎ (1 ≤ length given))
whole_scan_prefix_example =
    whole_scan_prefix db types list_rows config (bind_data 1) columns 2 3 5 0 pages output
      (answers 1) (cells 1) (omega arith) (omega arith) (omega arith) (omega arith)

pages-batches : batches pages ≡ visible_rows page_one ∷ visible_rows page_two ∷ []
unfolding batches
pages-batches = refl

-- A limit of 3 rows, and 4 rows.
whole_scan_overrun_example :
    (state : ScanState (ScanHandle × ℕ)) × (whole_scan db types list_rows config
        (bind_data 3)
        columns
        2
        3
        5
        0
      ≡ returned output state)
    × (3 < length output)
whole_scan_overrun_example =
    whole_scan_overrun db types list_rows config (bind_data 3) columns 2 3 5 0 pages
      (visible_rows page_one) (visible_rows page_two) [] output (answers 3) pages-batches
      (omega arith) (omega arith) cells_of_both (omega arith) (omega arith) (omega arith)
      (omega arith)

Answers-Yields_example : Yields (next_batch list_rows 2) (handle 0, 0) (batches pages)
Answers-Yields_example = Answers-Yields list_rows 2 (answers 0) (omega arith)

scan_value-Found_example :
    Found db name_column
      (row (codes "i1") (codes "Ada")).cells
      (scan_value db name_column (row (codes "i1") (codes "Ada")))
scan_value-Found_example =
    scan_value-Found db name_column (row (codes "i1") (codes "Ada")) (unfold has_capability in refl)

-- An API that serves the two pages as JSON.
abbrev api : Platform ℕ
api = record platform {
  from_str = λ body. ok (response_json (if is_empty body then page_one else page_two));
  build_list_rows = λ base input. ok (record {
    method = codes "GET";
    url = page_of input.page_token;
    body = none;
    expected_status = 200;
    operation = codes "listRows";
  });
  http = λ request w. (ok (record { status = 200; into_string = ok request.url }), request.url ∷ w);
}
  where
    page_of : Option Text → Text
    page_of none = []
    page_of (some token) = token
