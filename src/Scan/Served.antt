-- ===== src/Scan/Served.antt =====
-- A whole scan down to the API: the scan operator over `ScanHandle`, over `list_rows`, over the HTTP
-- layer and the JSON reader.
use duckdb_coda.Prelude.{◌≡◌, false, true, List, [], ◌∷◌}
use duckdb_coda.Abi.{CodaRowsResponse}
use duckdb_coda.Duckdb.{Duckdb}
use duckdb_coda.Platform.{Platform}
use duckdb_coda.Json.Rows.{PlainRows}
use duckdb_coda.Load.Rows.{Served}
use duckdb_coda.Fetch.{ScanHandle, request, absorb}

module _ {Double : Type 0} (platform : Platform Double) where
  open platform use {World}

  -- The API serves the JSON of these pages to the requests of a handle, one after another, until the
  -- handle is finished.
  pub data ServedPages : ScanHandle → World → List CodaRowsResponse → Type 0 where
    served_last :
        {h : ScanHandle} {w w' : World} {page : CodaRowsResponse}
        → h.finished ≡ false
        → Served platform h.config h.table_id (request h).0 page w w'
        → PlainRows page.rows
        → (absorb (request h).1 page).finished ≡ true
        → ServedPages h w (page ∷ [])
    served_more :
        {h : ScanHandle} {w w' : World} {page next : CodaRowsResponse}
        {pages : List CodaRowsResponse}
        → h.finished ≡ false
        → Served platform h.config h.table_id (request h).0 page w w'
        → PlainRows page.rows
        → ServedPages (absorb (request h).1 page) w' (next ∷ pages)
        → ServedPages h w (page ∷ next ∷ pages)
