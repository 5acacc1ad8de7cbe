-- ===== src/Blocks/Batches.antt =====
-- `ScanHandle::next_batch` of src/client.rs with its allocations: of each response the tokens, the old
-- array and the rows that are marked as deleted are released, and the batch is an array of the others.
pub mod Sweep
pub mod Released
use duckdb_coda.Prelude.{
  ℕ, zero, suc, some, Bool, true, false, not, ◌||◌, List, [], ◌∷◌, is_empty, if◌then◌else◌, Outcome,
  returned, threw, out_of_fuel, Result, ok, err, and_then, and_run,
}
use duckdb_coda.Text.{Text, codes}
use duckdb_coda.Abi.{RustExtClientConfig, RustExtScanBatch, CodaRowsRequest}
use duckdb_coda.Platform.{Platform, SdkRequest}
use duckdb_coda.Sdk.{endpoint, send_request, non_empty_string}
use duckdb_coda.Ownership.{Fault, free_block}
use duckdb_coda.Fetch.{ScanHandle, request, absorb}
use duckdb_coda.Blocks.{
  Slice, null_slice, RawRow, Content, Heap, cell_kind, row_kind, into_raw_parts, from_raw_parts,
  as_str, free, free_array, free_cell, free_rows_partial, ◌then_free◌,
}
use duckdb_coda.Blocks.Layout.{Layout, read_array, read_row}
use duckdb_coda.Blocks.Readers.{RawRowsResponse, rows_to_raw}

-- `RustExtScanBatch`, with its pointer
pub record RawScanBatch : Type 0 where
  pub rows : Slice
  pub finished : Bool

-- `free_scan_batch`
unfoldable pub free_scan_batch : Content → RawScanBatch → List ℕ → Result Fault (List ℕ)
unfolding free_rows_partial
free_scan_batch content batch = free_rows_partial content batch.rows

unfoldable pub read_batch : Content → RawScanBatch → List ℕ → Result Fault RustExtScanBatch
unfolding read_array read_row
read_batch content batch live =
    and_then (read_array row_kind (read_row content) content batch.rows live)
      (λ rows. ok (record { rows = rows; finished = batch.finished }))

abbrev pub batch_layout : Layout RawScanBatch RustExtScanBatch
batch_layout = record { free_one = free_scan_batch; read_one = read_batch }

-- The release of a row that is marked as deleted.
unfoldable pub free_deleted : Content → RawRow → List ℕ → Result Fault (List ℕ)
unfolding free free_array free_cell
free_deleted content row =
    free_array cell_kind (free_cell content) content row.cells
    then_free free content row.id
    then_free free content row.created_at
    then_free free content row.updated_at

-- The loop over the rows of a response: those that stay, and what is left allocated.
unfoldable pub sweep : Content → List RawRow → List ℕ → Result Fault (List RawRow × List ℕ)
unfolding free_deleted
sweep content [] live = ok ([], live)
sweep content (row ∷ rows) live =
    let without = and_then (free_deleted content row live) (sweep content rows) in
    let kept = and_then (sweep content rows live) (λ swept. ok (row ∷ swept.0, swept.1)) in
    if row.deleted then without else kept

-- What is taken out of a response: its tokens, and the rows that stay, with what is left allocated.
pub record Taken : Type 0 where
  pub page_token : Text
  pub sync_token : Text
  pub visible : List RawRow
  pub left : List ℕ

unfoldable pub take_response : Content → RawRowsResponse → List ℕ → Result Fault Taken
unfolding from_raw_parts free sweep free_block
take_response content response live =
    and_then (as_str content response.next_page_token live) (λ page.
      and_then (as_str content response.next_sync_token live) (λ sync.
        and_then
          ((free content response.next_page_token then_free free content response.next_sync_token)
            live)
          (λ live₁. and_then (from_raw_parts row_kind content response.rows live₁) (λ rows.
            and_then (sweep content rows live₁) (λ swept.
              and_then (free_block response.rows.ptr swept.1) (λ left. ok (record {
                page_token = page;
                sync_token = sync;
                visible = swept.0;
                left = left;
              })))))))

module _ {Double : Type 0} (platform : Platform Double) where
  open platform use {World, build_list_rows}

  -- The body of `list_rows`, once the request is built.
  unfoldable pub fetch_rows :
      RustExtClientConfig
      → Result Text SdkRequest
      → World
      → Heap
      → Result Text RawRowsResponse × (World × Heap)
  unfolding send_request rows_to_raw
  fetch_rows config (err message) w heap = (err message, (w, heap))
  fetch_rows config (ok request) w heap =
      let (body, w') = send_request platform config request w in
      let (response, heap') = and_run (body, heap) (rows_to_raw platform) in (response, (w', heap'))

  -- `list_rows`
  unfoldable pub list_rows_raw :
      RustExtClientConfig
      → Text
      → CodaRowsRequest
      → World
      → Heap
      → Result Text RawRowsResponse × (World × Heap)
  unfolding fetch_rows endpoint non_empty_string
  list_rows_raw config table_id request = fetch_rows config (
      build_list_rows (endpoint platform config) (record {
        doc_id = config.resource;
        table_id_or_name = table_id;
        query = non_empty_string request.query;
        sort_by = non_empty_string request.sort_by;
        use_column_names = some false;
        value_format = some (codes "simpleWithArrays");
        visible_only = some false;
        limit = some request.limit;
        page_token = non_empty_string request.page_token;
        sync_token = non_empty_string request.sync_token;
      }))

  abbrev pub Batched : Type 0
  Batched = Result Fault (Outcome Text (ScanHandle × (World × Heap)) RawScanBatch)

  -- The end of the loop's body: the array of the batch, and whether to go round again.
  unfoldable pub finish_batch :
      (ScanHandle × (World × Heap) → Batched) → ScanHandle → World → Heap → Taken → Batched
  unfolding absorb into_raw_parts
  finish_batch continue h w heap taken =
      let h' = absorb h (record {
        rows = [];
        next_page_token = taken.page_token;
        next_sync_token = taken.sync_token;
      }) in
      let (rows, heap') =
        into_raw_parts row_kind taken.visible (record heap { live = taken.left }) in
      if not (is_empty taken.visible) || h'.finished
      then ok (returned (record { rows = rows; finished = h'.finished }) (h', (w, heap')))
      else continue (h', (w, heap'))

  -- The rest of the loop's body, once the request has been answered.
  unfoldable pub receive_raw :
      (ScanHandle × (World × Heap) → Batched)
      → Result Text RawRowsResponse × (World × Heap)
      → ScanHandle
      → Batched
  unfolding take_response finish_batch
  receive_raw continue (err message, s) h = ok (threw message (h, s))
  receive_raw continue (ok response, (w, heap)) h =
      and_then (take_response heap.content response heap.live) (finish_batch continue h w heap)

  -- `ScanHandle::next_batch`; the fuel bounds the requests of one call.
  unfoldable pub next_batch_raw : ℕ → ScanHandle × (World × Heap) → Batched
  unfolding receive_raw list_rows_raw request
  next_batch_raw zero s = ok out_of_fuel
  next_batch_raw (suc fuel) (h, (w, heap)) =
      let asked = request h in
      let answer = list_rows_raw h.config h.table_id asked.0 w heap in
      let go_on = receive_raw (next_batch_raw fuel) answer asked.1 in
      if h.finished
      then ok (returned (record { rows = null_slice; finished = true }) (h, (w, heap)))
      else go_on
