-- ===== src/Cells/Lookup.antt =====
-- Which cell of a row a column reads.
use duckdb_coda.Prelude.{
  ◌≡◌, refl, ap, Bool, true, false, List, [], ◌∷◌, ◌++◌, Bool-cases, inl, inr, if_true,
}
use duckdb_coda.Text.{eq_ignore_ascii_case}
use duckdb_coda.Abi.{
  has_capability, column_system, RustExtColumn, RustExtCell, RustExtRow, RustExtScanValue,
}
use duckdb_coda.Duckdb.{Duckdb}
use duckdb_coda.Cells.{null_scan_value, cell_scan_value, find_scan_value, scan_value}

-- The cell belongs to the column.
abbrev pub belongs : RustExtColumn → RustExtCell → Bool
belongs column cell = eq_ignore_ascii_case cell.column_id column.id

-- None of the cells belongs to the column.
abbrev pub AreForeign : RustExtColumn → List RustExtCell → Type 0
AreForeign column [] = Unit
AreForeign column (cell ∷ cells) = (belongs column cell ≡ false) × AreForeign column cells

module _ (db : Duckdb) (column : RustExtColumn) where
  open db use {Double}

  -- The value of a column among the cells: null if no cell belongs to it, and otherwise that of the
  -- first that does.
  pub data Found (cells : List RustExtCell) (value : RustExtScanValue Double) : Type 0 where
    missing : AreForeign column cells → value ≡ null_scan_value db → Found cells value
    first :
        (before : List RustExtCell) (cell : RustExtCell) (after : List RustExtCell)
        → cells ≡ before ++ cell ∷ after
        → AreForeign column before
        → belongs column cell ≡ true
        → value ≡ cell_scan_value db column cell
        → Found cells value

  Found-cons :
      (cell : RustExtCell) (cells : List RustExtCell) (value : RustExtScanValue Double)
      → belongs column cell ≡ false
      → Found cells value
      → Found (cell ∷ cells) value
  Found-cons cell cells value foreign (missing others e) = missing (foreign, others) e
  Found-cons cell cells value foreign (first before c after split others here e) =
      first (cell ∷ before) c after (ap (λ t. cell ∷ t) split) (foreign, others) here e

  find_scan_value-Found : (cells : List RustExtCell) → Found cells (find_scan_value db column cells)
  unfolding find_scan_value
  find_scan_value-Found [] = missing tt refl
  find_scan_value-Found (cell ∷ cells) = elim (Bool-cases (belongs column cell)) [
    | inl here ↦ first [] cell cells refl tt here (if_true (belongs column cell) _ _ here)
    | inr foreign ↦ rw foreign (
        Found-cons cell cells (find_scan_value db column cells) foreign
          (find_scan_value-Found cells))
  ]

  -- A column that is not a system column reads the first cell of the row whose column id is its own
  -- up to ASCII case, and is null if there is none.
  pub scan_value-Found :
      (row : RustExtRow)
      → has_capability column.capabilities column_system ≡ false
      → Found row.cells (scan_value db column row)
  unfolding scan_value
  scan_value-Found row ordinary = rw ordinary (find_scan_value-Found row.cells)
