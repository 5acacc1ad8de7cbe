-- ===== src/Tests/Handles.antt =====
-- Two scans at a time.
use duckdb_coda.Prelude.{true, ℕ, suc, ◌≡◌, refl, List, [], ◌∷◌, some, none, Result, ok}
use duckdb_coda.Text.{Text, codes}
use duckdb_coda.Abi.{RustExtClientConfig, CodaRowsRequest, CodaRowsResponse}
use duckdb_coda.Fetch.{ScanHandle, new_handle, next_batch, receive, request, absorb, asks_sync}
use duckdb_coda.Handles.{
  Handles, set_box, open_scan, scan_open, close_scan, put_back, scan_next, thrown_message,
  next_scan_batch, RustBridgeScanRequest,
}
use duckdb_coda.Handles.Apart.{
  Call, open_call, next_call, close_call, NoneOn, no_call, and_call, opens, nexts, closes, perform,
  perform_all, open_scan-Apart,
}
use duckdb_coda.Tests.Document.{db, config}

-- An API without rows, which counts the requests.
abbrev no_rows : RustExtClientConfig → Text → CodaRowsRequest → ℕ → Result Text CodaRowsResponse × ℕ
no_rows _ _ _ w = (ok (record { rows = []; next_page_token = []; next_sync_token = [] }), suc w)

abbrev any : RustBridgeScanRequest
any = record { filter = []; order = []; limit = 0 }

abbrev none_open : Handles
none_open = record { last = 0; boxes = λ id. none }

abbrev opened : Handles
opened = (open_scan config (codes "grid") any none_open).1

-- Another scan is opened as 2, read and closed.
abbrev meanwhile : List Call
meanwhile =
    open_call config (codes "other") (record { filter = []; order = []; limit = 0 })
    ∷ next_call 2
    ∷ close_call 2
    ∷ []

apart : NoneOn 1 meanwhile
apart = and_call opens (and_call (nexts refl) (and_call (closes refl) no_call))

abbrev other_handle : ScanHandle
other_handle = new_handle config (codes "other") (record { filter = []; order = []; limit = 0 })

-- The other scan has had its only batch, and is closed.
abbrev after : Handles
after = set_box 2 none (
    set_box 2 (some (record other_handle { finished = true }))
      (scan_open config (codes "other") (record { filter = []; order = []; limit = 0 }) opened).1)

passes : perform_all no_rows 2 meanwhile (opened, 0) ≡ ok (after, 1)
unfolding open_scan scan_open perform_all perform scan_next put_back close_scan next_batch receive
    request absorb asks_sync new_handle
passes = refl

open_scan-Apart_example :
    next_scan_batch no_rows db 2 1 (after, 1)
    ≡ ok (
        thrown_message no_rows db (
          put_back no_rows 1 after (
            next_batch no_rows 2 (
              new_handle config (codes "grid") (record { filter = []; order = []; limit = 0 }),
              1,
            ))))
unfolding open_scan scan_open
open_scan-Apart_example =
    open_scan-Apart no_rows 2 db config (codes "grid") any none_open 0 apart passes
