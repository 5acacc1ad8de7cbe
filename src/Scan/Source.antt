-- ===== src/Scan/Source.antt =====
-- What the C++ side of a scan relies on: a source of batches. A call of `next` has a batch with
-- rows, or the last batch.
use duckdb_coda.Prelude.{◌≡◌, ◌≢◌, Bool, true, false, List, [], ◌∷◌, Outcome, returned}
use duckdb_coda.Text.{Text}
use duckdb_coda.Abi.{RustExtRow, RustExtScanBatch}

abbrev pub batch : List RustExtRow → Bool → RustExtScanBatch
batch rows finished = record { rows = rows; finished = finished }

-- From a state of the source, the batches that its calls have, to the last one.
pub data Yields {S : Type 0} (next : S → Outcome Text S RustExtScanBatch)
    : S → List (List RustExtRow) → Type 0 where
  last :
      {s s' : S} {rows : List RustExtRow}
      → next s ≡ returned (batch rows true) s'
      → Yields next s (rows ∷ [])
  more :
      {s s' : S} {rows : List RustExtRow} {batches : List (List RustExtRow)}
      → rows ≢ []
      → next s ≡ returned (batch rows false) s'
      → Yields next s' batches
      → Yields next s (rows ∷ batches)
