-- ===== src/Scan/Pending.antt =====
-- What is left of a scan: the rows that its later chunks are to hold.
use duckdb_coda.Prelude.{
  ℕ, zero, suc, ◌-◌, ◌<◌, ◌≤◌, ◌≡◌, ◌≢◌, refl, ap, ◌∙◌, true, false, ltb, List, [], ◌∷◌, ◌++◌,
  append-nil, length, drop, if◌then◌else◌, if_true, if_false, lt→ltb, le→ltb, arith, Outcome,
  returned,
}
use mathlib.Core.Path.{ap₂}
use native.Mathlib.Decide.{ℕ_discrete}
use duckdb_coda.Text.{Text}
use duckdb_coda.Abi.{RustExtRow, RustExtScanBatch}
use duckdb_coda.Scan.Source.{Yields, batch, last, more}
use duckdb_coda.Scan.State.{ScanState, reload, advance, refill, count_row}

-- The rows of a scan with `remaining` rows to go: no limit if that is 0, and otherwise every batch
-- up to the one that holds the last of them, which is given out whole.
unfoldable pub limited : ℕ → List (List RustExtRow) → List RustExtRow
limited remaining [] = []
limited zero (rows ∷ batches) = rows ++ limited zero batches
limited (suc remaining) (rows ∷ batches) =
    if ltb (length rows) (suc remaining)
    then rows ++ limited (suc remaining - length rows) batches
    else rows

pub limited-nil :
    (remaining : ℕ) (batches : List (List RustExtRow))
    → limited remaining ([] ∷ batches) ≡ limited remaining batches
unfolding limited
limited-nil zero batches = refl
limited-nil (suc remaining) batches =
    let e : suc remaining - 0 ≡ suc remaining = omega arith in
    if_true (ltb 0 (suc remaining)) _ _ (lt→ltb 0 (suc remaining) (omega arith))
    ∙ ap (λ (k : ℕ). limited k batches) e

pub limited-below :
    (remaining : ℕ) (rows : List RustExtRow) (batches : List (List RustExtRow))
    → length rows < remaining
    → limited remaining (rows ∷ batches) ≡ rows ++ limited (remaining - length rows) batches
unfolding limited
limited-below zero rows batches h = absurd (omega arith)
limited-below (suc n) rows batches h = if_true (ltb (length rows) (suc n)) _ _ (lt→ltb _ _ h)

pub limited-above :
    (remaining : ℕ) (rows : List RustExtRow) (batches : List (List RustExtRow))
    → 0 < remaining
    → remaining ≤ length rows
    → limited remaining (rows ∷ batches) ≡ rows
unfolding limited
limited-above zero rows batches some_left h = absurd (omega arith)
limited-above (suc n) rows batches some_left h =
    if_false (ltb (length rows) (suc n)) _ _ (le→ltb _ _ h)

limited-last : (remaining : ℕ) (rows : List RustExtRow) → limited remaining (rows ∷ []) ≡ rows
unfolding limited
limited-last zero rows = append-nil rows
limited-last (suc remaining) rows = ground (arith, append-nil rows)

-- A limit of one row is reached by the next row, whose batch is given out to its end.
limited-one :
    (row : RustExtRow) (rows : List RustExtRow) (batches : List (List RustExtRow))
    → limited 1 ((row ∷ rows) ∷ batches) ≡ row ∷ rows
unfolding limited
limited-one row rows batches = ground arith

limited-cons :
    (remaining : ℕ) (row : RustExtRow) (rows : List RustExtRow) (batches : List (List RustExtRow))
    → remaining ≢ 1
    → limited remaining ((row ∷ rows) ∷ batches)
      ≡ row ∷ limited (if ltb 0 remaining then remaining - 1 else remaining) (rows ∷ batches)
unfolding limited
limited-cons zero row rows batches ne = refl
limited-cons (suc zero) row rows batches ne = absurd (ne refl)
limited-cons (suc (suc k)) row rows batches ne =
    let room : suc (suc k) - suc (length rows) ≡ suc k - length rows = omega arith in
    let left : (if ltb 0 (suc (suc k)) then suc (suc k) - 1 else suc (suc k)) ≡ suc k =
      ground arith in
    rw (room, left) (ground arith)

module _ {S : Type 0} (next : S → Outcome Text S RustExtScanBatch) where
  pub data Pending : ScanState S → List RustExtRow → Type 0 where
    ending :
        {state : ScanState S} {rows : List RustExtRow}
        → state.finished ≡ true
        → rows ≡ drop state.row_offset state.rows.rows
        → Pending state rows
    going :
        {state : ScanState S} {rows : List RustExtRow} {batches : List (List RustExtRow)}
        → state.finished ≡ false
        → Yields next state.scan batches
        → rows ≡ limited state.remaining_rows (drop state.row_offset state.rows.rows ∷ batches)
        → Pending state rows

  -- What a fetch brings when the last batch is used up: the same rows are still to come.
  pub data Refilled (state : ScanState S) (rows : List RustExtRow) : Type 0 where
    refilled :
        (batch : RustExtScanBatch) (scan : S)
        → refill next state ≡ returned tt (reload state batch scan)
        → Pending (reload state batch scan) rows
        → (batch.rows ≡ [] → batch.finished ≡ true)
        → Refilled state rows

  refill-eq :
      (state : ScanState S) (batch : RustExtScanBatch) (scan : S)
      → next state.scan ≡ returned batch scan
      → refill next state ≡ returned tt (reload state batch scan)
  unfolding refill
  refill-eq state batch scan e = rw (e, refill)

  pub refill-Pending :
      (state : ScanState S) (rows : List RustExtRow)
      → Pending state rows
      → state.finished ≡ false
      → drop state.row_offset state.rows.rows ≡ []
      → Refilled state rows
  refill-Pending state rows (ending fin e) more_left used = cc
  refill-Pending state rows (going fin (last {s' = s'} {rows = fetched} called) e) more_left used =
      refilled (batch fetched true) s' (refill-eq state _ s' called)
        (ending refl (
          e
          ∙ ap (λ (t : List RustExtRow). limited state.remaining_rows (t ∷ fetched ∷ [])) used
          ∙ limited-nil state.remaining_rows (fetched ∷ [])
          ∙ limited-last state.remaining_rows fetched))
        (λ _. refl)
  refill-Pending state rows
        (going fin (more {s' = s'} {rows = fetched} {batches} some_row called rest) e) more_left
        used =
      refilled (batch fetched false) s' (refill-eq state _ s' called)
        (going refl rest (
          e
          ∙ ap (λ (t : List RustExtRow). limited state.remaining_rows (t ∷ fetched ∷ batches)) used
          ∙ limited-nil state.remaining_rows (fetched ∷ batches)))
        (λ none_here. absurd (some_row none_here))

  -- The next row of the batch is the first of the rows to come.
  pub count_row-Pending :
      (state : ScanState S) (rows : List RustExtRow) (row : RustExtRow)
      → Pending state rows
      → drop state.row_offset state.rows.rows ≡ row ∷ drop (suc state.row_offset) state.rows.rows
      → (rest : List RustExtRow) × (rows ≡ row ∷ rest) × Pending (count_row (advance state)) rest
  unfolding count_row
  count_row-Pending state rows row (ending fin e) here =
      (drop (suc state.row_offset) state.rows.rows, e ∙ here, ending (ground arith) refl)
  count_row-Pending state rows row (going {batches = batches} fin source e) here =
      elim (ℕ_discrete state.remaining_rows 1) [
        | yes one ↦ (
          drop (suc state.row_offset) state.rows.rows,
          e
              ∙ ap₂ (λ (k : ℕ) (t : List RustExtRow). limited k (t ∷ batches)) one here
              ∙ limited-one row (drop (suc state.row_offset) state.rows.rows) batches,
          ending (ground arith) refl,
        )
        | no not_one ↦ (
          limited
              (if ltb 0 state.remaining_rows
                then state.remaining_rows - 1
                else state.remaining_rows)
              (drop (suc state.row_offset) state.rows.rows ∷ batches),
          e
              ∙ ap (λ (t : List RustExtRow). limited state.remaining_rows (t ∷ batches)) here
              ∙ limited-cons state.remaining_rows row (drop (suc state.row_offset) state.rows.rows)
                  batches not_one,
          going (ground arith) source refl,
        )
      ]
