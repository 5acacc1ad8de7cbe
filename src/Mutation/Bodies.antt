-- ===== src/Mutation/Bodies.antt =====
-- The body of an INSERT, from the values of its rows one after another.
use duckdb_coda.Prelude.{
  ℕ, ◌*◌, ◌≤◌, ◌≡◌, ap, true, List, flatten, tabulate, tabulate-ext, length,
  length-flatten-tabulate, slice-flatten-tabulate, ok, le→ltb, arith,
}
use duckdb_coda.Text.{codes}
use duckdb_coda.Abi.{has_capability, table_insert, RustExtWriteColumn, RustExtInputValue}
use duckdb_coda.Platform.{Platform, Json, object, field, end, json_array}
use duckdb_coda.Mutation.{write_cells, slice, insert_body}

-- The JSON of an INSERT with these rows.
abbrev pub rows_json : {Double : Type 0} → List (Json Double) → Json Double
rows_json rows = object (field (codes "rows") (json_array rows) end)

-- Of a table that takes rows, and values whose rows are as wide as the columns, the body holds row
-- `i` as the cells of the values of row `i`.
pub insert_body-rows :
    {Double : Type 0} (platform : Platform Double) (columns : List RustExtWriteColumn)
    (n k capabilities : ℕ) (row : ℕ → List (RustExtInputValue Double))
    → ((i : ℕ) → length (row i) ≡ k)
    → length columns ≤ k
    → has_capability capabilities table_insert ≡ true
    → insert_body platform columns (flatten (tabulate n row)) n k capabilities
      ≡ ok (platform.json_text (rows_json (tabulate n (λ i. write_cells columns (row i)))))
unfolding insert_body
insert_body-rows platform columns n k capabilities row wide fits takes_rows =
    let same : tabulate n (λ i. write_cells columns (slice (i * k) k (flatten (tabulate n row))))
        ≡ tabulate n (λ i. write_cells columns (row i)) =
      tabulate-ext n _ _
        (λ i lt. ap (write_cells columns) (slice-flatten-tabulate k n i row wide lt)) in
    let wide_enough = le→ltb k (length columns) fits in
    let all_there =
      le→ltb (length (flatten (tabulate n row))) (n * k)
        (omega (arith, length-flatten-tabulate k n row wide)) in
    rw (takes_rows, wide_enough, all_there, same)
