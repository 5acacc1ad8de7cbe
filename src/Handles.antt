-- ===== src/Handles.antt =====
-- The handles of the open scans: `rust_ext_scan_open`, `rust_ext_scan_next` and `rust_ext_scan_close` of
-- src/exports.rs, and `OpenScan` and `NextScanBatch` of src/cpp/rust_bridge_client.cpp. A handle is the
-- address of its `ScanHandle`, which is not handed out twice.
pub mod Apart
use duckdb_coda.Prelude.{
  ℕ, suc, ◌==◌, Option, none, some, List, [], ◌∷◌, if◌then◌else◌, Outcome, returned, threw,
  out_of_fuel, Result, ok, err, and_then,
}
use duckdb_coda.Text.{Text, codes}
use duckdb_coda.Messages.{with_context}
use duckdb_coda.Abi.{
  RustExtClientConfig, RustExtScanRequest, RustExtScanBatch, CodaRowsRequest, CodaRowsResponse,
}
use duckdb_coda.Duckdb.{Duckdb, Exception, invalid_input}
use duckdb_coda.Ownership.{Fault, dead_block}
use duckdb_coda.Fetch.{ScanHandle, new_handle, next_batch}

-- The boxes of the handles that were opened and not closed.
pub record Handles : Type 0 where
  pub last : ℕ
  pub boxes : ℕ → Option ScanHandle

abbrev pub set_box : ℕ → Option ScanHandle → Handles → Handles
set_box id box handles = record handles {
  boxes = λ other. if id == other then box else handles.boxes other;
}

-- `rust_ext_scan_open`: `Box::into_raw` of a new handle
unfoldable pub scan_open : RustExtClientConfig → Text → RustExtScanRequest → Handles → ℕ × Handles
unfolding new_handle
scan_open config table_id request handles = (
  suc handles.last,
  set_box (suc handles.last) (some (new_handle config table_id request))
      (record handles { last = suc handles.last }),
)

-- `rust_ext_scan_close`: a null pointer is left alone, another is made a box again and dropped.
unfoldable pub close_scan : ℕ → Handles → Result Fault Handles
close_scan id handles =
    if id == 0
    then ok handles
    else elim (handles.boxes id) [ none ↦ err dead_block | some box ↦ ok (set_box id none handles) ]

module _ {World : Type 0}
    (list_rows : RustExtClientConfig
      → Text
      → CodaRowsRequest
      → World
      → Result Text CodaRowsResponse × World) where
  -- What `next_batch` has done with the handle is in its box.
  unfoldable pub put_back :
      ℕ
      → Handles
      → Outcome Text (ScanHandle × World) RustExtScanBatch
      → Outcome Text (Handles × World) RustExtScanBatch
  put_back id handles (returned batch (h, w)) = returned batch (set_box id (some h) handles, w)
  put_back id handles (threw message (h, w)) =
      threw (with_context (codes "failed to fetch next Coda scan batch") message)
        (set_box id (some h) handles, w)
  put_back id handles out_of_fuel = out_of_fuel

  -- `rust_ext_scan_next`
  unfoldable pub scan_next :
      ℕ → ℕ → Handles × World → Result Fault (Outcome Text (Handles × World) RustExtScanBatch)
  unfolding put_back
  scan_next fuel id (handles, w) =
      if id == 0
      then ok (
          threw
            (with_context (codes "failed to fetch next Coda scan batch")
              (codes "missing scan handle pointer"))
            (handles, w))
      else elim (handles.boxes id) [
        | none ↦ err dead_block
        | some h ↦ ok (put_back id handles (next_batch list_rows fuel (h, w)))
      ]

  module _ (db : Duckdb) where
    -- A message of the Rust side, thrown.
    abbrev pub thrown_message :
        Outcome Text (Handles × World) RustExtScanBatch
        → Outcome Exception (Handles × World) RustExtScanBatch
    thrown_message (returned batch s) = returned batch s
    thrown_message (threw message s) = threw (invalid_input message) s
    thrown_message out_of_fuel = out_of_fuel

    -- `RustBridgeClient::NextScanBatch`
    unfoldable pub next_scan_batch :
        ℕ
        → ℕ
        → Handles × World
        → Result Fault (Outcome Exception (Handles × World) RustExtScanBatch)
    unfolding scan_next
    next_scan_batch fuel id s =
        and_then (scan_next fuel id s) (λ outcome. ok (thrown_message outcome))

pub record RustBridgeScanRequest : Type 0 where
  pub filter : Text
  pub order : Text
  pub limit : ℕ

-- `RustBridgeClient::OpenScan`
unfoldable pub open_scan :
    RustExtClientConfig → Text → RustBridgeScanRequest → Handles → ℕ × Handles
unfolding scan_open
open_scan config table_id request =
    scan_open config table_id
      (record { filter = request.filter; order = request.order; limit = request.limit })
