-- ===== src/Fetch.antt =====
-- `ScanHandle` of src/client.rs: the pages of a table, fetched one request at a time. `list_rows`
-- is the request itself, over the state of the world that answers it.
pub mod Pages
use duckdb_coda.Prelude.{
  ℕ, zero, suc, ◌==◌, ltb, min, Bool, true, false, not, ◌&&◌, ◌||◌, List, [], ◌∷◌, is_empty, keep,
  if◌then◌else◌, Outcome, returned, threw, out_of_fuel, Result, ok, err,
}
use duckdb_coda.Text.{Text}
use duckdb_coda.Abi.{
  RustExtClientConfig, RustExtScanRequest, RustExtScanBatch, RustExtRow, CodaRowsRequest,
  CodaRowsResponse,
}

pub record ScanHandle : Type 0 where
  pub config : RustExtClientConfig
  pub table_id : Text
  pub query : Text
  pub sort_by : Text
  pub limit : ℕ
  pub next_page_token : Text
  pub next_sync_token : Text
  pub sync_check_done : Bool
  pub finished : Bool

-- `ScanHandle::new`
unfoldable pub new_handle : RustExtClientConfig → Text → RustExtScanRequest → ScanHandle
new_handle config table_id request = record {
  config = config;
  table_id = table_id;
  query = request.filter;
  sort_by = request.order;
  limit = if request.limit == 0 then 500 else min request.limit 500;
  next_page_token = [];
  next_sync_token = [];
  sync_check_done = false;
  finished = false;
}

-- The sync token is sent once, when no page is left to ask for.
unfoldable pub asks_sync : ScanHandle → Bool
asks_sync h =
    is_empty h.next_page_token && (not (is_empty h.next_sync_token) && not h.sync_check_done)

-- `ScanHandle::request`, with the handle that it leaves
unfoldable pub request : ScanHandle → CodaRowsRequest × ScanHandle
unfolding asks_sync
request h =
    if asks_sync h
    then (rows_request h.next_sync_token, record h { sync_check_done = true })
    else (rows_request [], h)
  where
    rows_request : Text → CodaRowsRequest
    rows_request sync_token = record {
      page_token = h.next_page_token;
      query = h.query;
      sort_by = h.sort_by;
      sync_token = sync_token;
      limit = h.limit;
    }

-- The tokens of a response, and whether it is the last one.
unfoldable pub absorb : ScanHandle → CodaRowsResponse → ScanHandle
absorb h response = record h {
  next_page_token = response.next_page_token;
  next_sync_token = response.next_sync_token;
  finished =
      h.finished
      || is_empty response.next_page_token
        && (is_empty response.next_sync_token || h.sync_check_done);
}

-- The rows that the API does not mark as deleted.
abbrev pub visible_rows : CodaRowsResponse → List RustExtRow
visible_rows response = keep (λ row. not row.deleted) response.rows

module _ {World : Type 0}
    (list_rows : RustExtClientConfig
      → Text
      → CodaRowsRequest
      → World
      → Result Text CodaRowsResponse × World) where
  -- The rest of the loop's body, once the request has been answered; `continue` goes round again.
  unfoldable pub receive :
      (ScanHandle × World → Outcome Text (ScanHandle × World) RustExtScanBatch)
      → Result Text CodaRowsResponse × World
      → ScanHandle
      → Outcome Text (ScanHandle × World) RustExtScanBatch
  receive continue (err message, w) h = threw message (h, w)
  receive continue (ok response, w) h =
      let rows = visible_rows response in
      let h' = absorb h response in
      if not (is_empty rows) || h'.finished
      then returned (record { rows = rows; finished = h'.finished }) (h', w)
      else continue (h', w)

  -- `ScanHandle::next_batch`; the fuel bounds the requests of one call.
  unfoldable pub next_batch :
      ℕ → ScanHandle × World → Outcome Text (ScanHandle × World) RustExtScanBatch
  next_batch zero s = out_of_fuel
  next_batch (suc fuel) (h, w) =
      let asked = request h in
      let answer = list_rows h.config h.table_id asked.0 w in
      let go_on = receive (next_batch fuel) answer asked.1 in
      if h.finished then returned (record { rows = []; finished = true }) (h, w) else go_on
