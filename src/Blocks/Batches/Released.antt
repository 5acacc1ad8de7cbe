-- ===== src/Blocks/Batches/Released.antt =====
-- `next_batch` with its allocations against `next_batch` by value: the same batch, the same errors, and
-- nothing allocated but the batch.
use duckdb_coda.Prelude.{
  ℕ, zero, suc, ◌≡◌, refl, sym, ap, subst, Bool, true, false, not, ◌||◌, List, [], ◌∷◌, ◌++◌,
  is_empty, if◌then◌else◌, arith, Outcome, returned, threw, out_of_fuel, Result, ok, err, and_then,
  and_then-ok,
}
use duckdb_coda.Text.{Text}
use duckdb_coda.Abi.{
  RustExtClientConfig, RustExtRow, RustExtScanBatch, CodaRowsRequest, CodaRowsResponse,
}
use duckdb_coda.Platform.{Platform, SdkRequest}
use duckdb_coda.Sdk.{send_request}
use duckdb_coda.Json.{rows_from_json}
use duckdb_coda.Load.{fetch, list_rows}
use duckdb_coda.Fetch.{ScanHandle, request, absorb, receive, next_batch}
use duckdb_coda.Blocks.{Heap, RawRow, row_kind, into_raw_parts, free_rows_partial}
use duckdb_coda.Blocks.Layout.{row_layout}
use duckdb_coda.Blocks.Holds.{SameBlocks, Holds, Each, nil, cons, count-append}
use duckdb_coda.Blocks.Stored.{
  Grows, Agrees, Grows-none, Grows-then, Array, Array-Holds, store_array, into_raw_parts-Grows,
}
use duckdb_coda.Blocks.Structs.Row.{RowOwns, RowParts-Holds}
use duckdb_coda.Blocks.Readers.{RawRowsResponse, rows_to_raw}
use duckdb_coda.Blocks.Readers.Made.{made, failed, Made-pure, Answered, answered}
use duckdb_coda.Blocks.Readers.Rows.{ResponseOwns, rows-Made}
use duckdb_coda.Blocks.Batches.{
  RawScanBatch, batch_layout, free_scan_batch, read_batch, fetch_rows, list_rows_raw, Batched,
  finish_batch, receive_raw, next_batch_raw,
}
use duckdb_coda.Blocks.Batches.Sweep.{response-TakenApart}

-- A batch that owns its rows.
record BatchOwns (heap : Heap) (raw : RawScanBatch) (batch : RustExtScanBatch) (blocks : List ℕ)
    : Type 0 where
  pub rows : Array row_kind RowOwns (Agrees heap) raw.rows batch.rows blocks
  pub last : raw.finished ≡ batch.finished

module _ {Double : Type 0} (platform : Platform Double) where
  open platform use {World}

  data Fetched (heap : Heap)
      : Outcome Text (ScanHandle × World) RustExtScanBatch → Batched platform → Type 0 where
    fetched :
        {raw : RawScanBatch} {batch : RustExtScanBatch} {h : ScanHandle} {w : World} {heap' : Heap}
        (blocks : List ℕ)
        → Grows heap heap' blocks
        → BatchOwns heap' raw batch blocks
        → Fetched heap (returned batch (h, w)) (ok (returned raw (h, (w, heap'))))
    refused :
        {message : Text} {h : ScanHandle} {w : World} {heap' : Heap} (leaked : List ℕ)
        → Grows heap heap' leaked
        → Fetched heap (threw message (h, w)) (ok (threw message (h, (w, heap'))))
    no_fuel : Fetched heap out_of_fuel (ok out_of_fuel)

  Fetched-if :
      {heap : Heap} {a b : Outcome Text (ScanHandle × World) RustExtScanBatch}
      {c d : Batched platform} (test : Bool)
      → Fetched heap a c
      → Fetched heap b d
      → Fetched heap (if test then a else b) (if test then c else d)
  Fetched-if true h k = h
  Fetched-if false h k = k

  Fetched-from :
      {heap heap₁ : Heap} {a : Outcome Text (ScanHandle × World) RustExtScanBatch}
      {b : Batched platform}
      → Grows heap heap₁ []
      → Fetched heap₁ a b
      → Fetched heap a b
  Fetched-from grows (fetched blocks more owns) = fetched blocks (Grows-then grows more) owns
  Fetched-from grows (refused leaked more) = refused leaked (Grows-then grows more)
  Fetched-from grows no_fuel = no_fuel

  fetch_rows-Answered :
      (config : RustExtClientConfig) (r : Result Text SdkRequest) (w : World) (heap : Heap)
      → Answered ResponseOwns heap
          (fetch platform config r (rows_from_json platform) w)
          (fetch_rows platform config r w heap)
  unfolding fetch fetch_rows
  fetch_rows-Answered config (err message) w heap = answered (failed [] (Grows-none heap))
  fetch_rows-Answered config (ok request) w heap = answered (
      Made-pure ResponseOwns [] (send_request platform config request w).0 (rows_from_json platform)
        (rows_to_raw platform) (Grows-none heap) (λ body. rows-Made platform body heap))

  list_rows-Answered :
      (config : RustExtClientConfig) (table_id : Text) (asked : CodaRowsRequest) (w : World)
      (heap : Heap)
      → Answered ResponseOwns heap
          (list_rows platform config table_id asked w)
          (list_rows_raw platform config table_id asked w heap)
  unfolding list_rows list_rows_raw
  list_rows-Answered config table_id asked w heap = fetch_rows-Answered config _ w heap

  module _ (continue : ScanHandle × World → Outcome Text (ScanHandle × World) RustExtScanBatch)
      (continue_raw : ScanHandle × (World × Heap) → Batched platform)
      (alike : (h : ScanHandle) (w : World) (heap : Heap)
        → Fetched heap (continue (h, w)) (continue_raw (h, (w, heap)))) where
    -- The end of the loop's body, with the rows that stay.
    finish-Fetched :
        {heap heap₁ : Heap} {raws : List RawRow} {rows : List RustExtRow} {kept : List ℕ}
        (h' : ScanHandle) (w : World)
        → Grows heap heap₁ kept
        → Each RowOwns (Agrees heap₁) raws rows kept
        → Fetched heap
            (if not (is_empty rows) || h'.finished
              then returned (record { rows = rows; finished = h'.finished }) (h', w)
              else continue (h', w))
            (if not (is_empty raws) || h'.finished
              then ok (
                  returned
                    (record {
                      rows = (into_raw_parts row_kind raws heap₁).0;
                      finished = h'.finished;
                    })
                    (h', (w, (into_raw_parts row_kind raws heap₁).1)))
              else continue_raw (h', (w, (into_raw_parts row_kind raws heap₁).1)))
    finish-Fetched {heap₁ = heap₁} h' w grows nil =
        Fetched-if h'.finished
          (fetched [] (Grows-then grows (into_raw_parts-Grows row_kind [] heap₁))
            (record { rows = store_array row_kind RowOwns heap₁ nil; last = refl }))
          (Fetched-from (Grows-then grows (into_raw_parts-Grows row_kind [] heap₁)) (alike h' w _))
    finish-Fetched {heap₁ = heap₁} h' w grows (cons {raw = raw} {raws = raws} parts rest) =
        fetched _ (Grows-then grows (into_raw_parts-Grows row_kind (raw ∷ raws) heap₁))
          (record { rows = store_array row_kind RowOwns heap₁ (cons parts rest); last = refl })

    receive-Fetched :
        {heap : Heap} (h : ScanHandle) {answer : Result Text CodaRowsResponse × World}
        {answer_raw : Result Text RawRowsResponse × (World × Heap)}
        → Answered ResponseOwns heap answer answer_raw
        → Fetched heap
            (receive (list_rows platform) continue answer h)
            (receive_raw platform continue_raw answer_raw h)
    unfolding receive receive_raw finish_batch absorb
    receive-Fetched h (answered (failed leaked grows)) = refused leaked grows
    receive-Fetched {heap} h
          (answered {w = w} {heap' = heap'} (made {raw = raw} {v = v} blocks grows owns)) =
        let all = response-TakenApart (Agrees heap') raw v blocks owns in
        let out =
          all.takes heap'.content (λ a le. refl) heap'.live (λ a. omega (arith, grows.counted a)) in
        subst (Fetched heap _)
          (sym (ap (λ r. and_then r (finish_batch platform continue_raw h w heap')) out.goes))
          (finish-Fetched (absorb h v) w
            (record {
              last_le = grows.last_le;
              counted = λ a. omega (arith, grows.counted a, out.counted a);
              kept = grows.kept;
            })
            all.owned)

  next_batch-Fetched :
      (fuel : ℕ) (h : ScanHandle) (w : World) (heap : Heap)
      → Fetched heap
          (next_batch (list_rows platform) fuel (h, w))
          (next_batch_raw platform fuel (h, (w, heap)))
  unfolding next_batch next_batch_raw
  next_batch-Fetched zero h w heap = no_fuel
  next_batch-Fetched (suc fuel) h w heap =
      Fetched-if h.finished
        (fetched [] (Grows-none heap)
          (record { rows = store_array row_kind RowOwns heap nil; last = refl }))
        (receive-Fetched (next_batch (list_rows platform) fuel) (next_batch_raw platform fuel)
          (next_batch-Fetched fuel) (request h).1
          (list_rows-Answered h.config h.table_id (request h).0 w heap))

  -- A batch that is handed over: at any later time it is read as it is by value, and its release leaves
  -- what would be allocated without it.
  pub record HandedOver (heap heap' : Heap) (raw : RawScanBatch) (batch : RustExtScanBatch)
      : Type 0 where
    pub reads :
        (later : Heap) (more : List ℕ)
        → Grows heap' later more
        → read_batch later.content raw later.live ≡ ok batch
    pub releases :
        (later : Heap) (more : List ℕ)
        → Grows heap' later more
        → (left : List ℕ) × (free_scan_batch later.content raw later.live ≡ ok left)
          × SameBlocks left (heap.live ++ more)

  -- How a call ends.
  pub data Ends (heap : Heap)
      : Outcome Text (ScanHandle × World) RustExtScanBatch → Batched platform → Type 0 where
    handed :
        {raw : RawScanBatch} {batch : RustExtScanBatch} {h : ScanHandle} {w : World} {heap' : Heap}
        → HandedOver heap heap' raw batch
        → Ends heap (returned batch (h, w)) (ok (returned raw (h, (w, heap'))))
    failing :
        {message : Text} {h : ScanHandle} {w : World} {heap' : Heap} (leaked : List ℕ)
        → Grows heap heap' leaked
        → Ends heap (threw message (h, w)) (ok (threw message (h, (w, heap'))))
    starved : Ends heap out_of_fuel (ok out_of_fuel)

  batch-Holds :
      (heap later : Heap) {more : List ℕ} (raw : RawScanBatch) (batch : RustExtScanBatch)
      (blocks : List ℕ)
      → BatchOwns heap raw batch blocks
      → Grows heap later more
      → Holds batch_layout later.content raw batch blocks
  unfolding free_scan_batch read_batch free_rows_partial
  batch-Holds heap later raw batch blocks owns grows =
      let k : Agrees heap later.content = grows.kept in
      let rows =
        Array-Holds row_kind RowOwns row_layout (Agrees heap) later.content k
          (λ r v bs parts. RowParts-Holds (Agrees heap) later.content k r v bs parts) owns.rows in
      record {
        frees = rows.frees;
        reads = λ live h.
            and_then-ok _ (rows.reads live h)
              (ap (λ f. ok (record batch { finished = f })) owns.last);
      }

  handed-HandedOver :
      (heap heap' : Heap) (raw : RawScanBatch) (batch : RustExtScanBatch) (blocks : List ℕ)
      → Grows heap heap' blocks
      → BatchOwns heap' raw batch blocks
      → HandedOver heap heap' raw batch
  handed-HandedOver heap heap' raw batch blocks grows owns = record {
    reads = λ later more g.
        (batch-Holds heap' later raw batch blocks owns g).reads later.live
          (λ a. omega (arith, grows.counted a, g.counted a));
    releases = λ later more g.
        let freed =
          (batch-Holds heap' later raw batch blocks owns g).frees later.live
            (λ a. omega (arith, grows.counted a, g.counted a)) in
        (
          freed.left,
          freed.goes,
          λ a.
              omega
                (arith, freed.less a, grows.counted a, g.counted a, count-append a heap.live more),
        );
  }

  -- A call of `next_batch` with its allocations ends as it does by value, with the same batch, the same
  -- error and the same handle, and never frees a block that is not allocated. A batch that it hands
  -- over can be read from then on, as long as it is not released, and its release frees all that the
  -- call has left allocated, and nothing else.
  pub next_batch-Ends :
      (fuel : ℕ) (h : ScanHandle) (w : World) (heap : Heap)
      → Ends heap
          (next_batch (list_rows platform) fuel (h, w))
          (next_batch_raw platform fuel (h, (w, heap)))
  next_batch-Ends fuel h w heap = ends (next_batch-Fetched fuel h w heap)
    where
      ends :
          {a : Outcome Text (ScanHandle × World) RustExtScanBatch} {b : Batched platform}
          → Fetched heap a b
          → Ends heap a b
      ends (fetched {raw = raw} {batch = batch} {heap' = heap'} blocks grows owns) =
          handed (handed-HandedOver heap heap' raw batch blocks grows owns)
      ends (refused leaked grows) = failing leaked grows
      ends no_fuel = starved
