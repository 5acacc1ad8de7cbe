-- ===== src/Scan/Whole.antt =====
-- The scan over the handle of src/client.rs: from the pages of the server to the rows of DuckDB.
use duckdb_coda.Prelude.{
  ℕ, zero, suc, ◌+◌, ◌-◌, ◌<◌, ◌≤◌, ◌≡◌, refl, sym, subst, ap, ◌∙◌, ◌⊎◌, inl, inr, List, [], ◌∷◌,
  ◌++◌, append-nil, append_assoc, map, flatten, length, length-append, arith, Outcome, returned,
  Result, ok, traverse, traverse-length, traverse-append, traverse-nil,
}
use native.Mathlib.Decide.{dec_lt}
use duckdb_coda.Text.{Text}
use duckdb_coda.Abi.{RustExtClientConfig, RustExtRow, CodaRowsRequest, CodaRowsResponse}
use duckdb_coda.Duckdb.{Duckdb, LogicalTypeId, ColumnIndex, Exception}
use duckdb_coda.Fetch.{ScanHandle, new_handle, next_batch, visible_rows}
use duckdb_coda.Fetch.Pages.{Answers, Answers-Yields, batches, flatten-batches}
use duckdb_coda.Scan.State.{RustBridgeScanBindData, ScanState, scan_request, open_state}
use duckdb_coda.Scan.Loop.{drain}
use duckdb_coda.Scan.Pending.{going, limited, limited-nil, limited-below, limited-above}
use duckdb_coda.Scan.Emit.{project}
use duckdb_coda.Scan.Drain.{drain-rows}

-- With no limit, every row of every batch.
limited_zero : (bs : List (List RustExtRow)) → limited 0 bs ≡ flatten bs
unfolding limited flatten
limited_zero [] = refl
limited_zero (b ∷ bs) = ap (λ (t : List RustExtRow). b ++ t) (limited_zero bs)

-- With a limit the rows given out are the first ones, and all of them or as many as the limit asks.
pub limited-prefix :
    (limit : ℕ) (bs : List (List RustExtRow))
    → (rest : List RustExtRow) × (flatten bs ≡ limited limit bs ++ rest)
      × ((rest ≡ []) ⊎ (limit ≤ length (limited limit bs)))
unfolding limited flatten
limited-prefix limit [] = ([], refl, inl refl)
limited-prefix zero (b ∷ bs) = (
  [],
  ap (λ (t : List RustExtRow). b ++ t) (sym (limited_zero bs)) ∙ sym (append-nil _),
  inl refl,
)
limited-prefix (suc n) (b ∷ bs) = elim (dec_lt (length b) (suc n)) [
  | yes below ↦
      let (rest, e, enough) = limited-prefix (suc n - length b) bs in
      let cut = limited-below (suc n) b bs below in
      (
        rest,
        ap (λ (t : List RustExtRow). b ++ t) e
            ∙ sym (append_assoc b (limited (suc n - length b) bs) rest)
            ∙ ap (λ (t : List RustExtRow). t ++ rest) (sym cut),
        elim enough [
          | inl none_left ↦ inl none_left
          | inr reached ↦ inr (
              subst (λ (t : List RustExtRow). suc n ≤ length t) (sym cut)
                (omega (arith, length-append b (limited (suc n - length b) bs), reached)))
        ],
      )
  | no above ↦
      let cut = limited-above (suc n) b bs (omega arith) (omega arith) in
      (
        flatten bs,
        ap (λ (t : List RustExtRow). t ++ flatten bs) (sym cut),
        inr (subst (λ (t : List RustExtRow). suc n ≤ length t) (sym cut) (omega arith)),
      )
]

-- A batch that goes past the limit is given out whole.
limited_overrun :
    (limit : ℕ) (b c : List RustExtRow) (bs : List (List RustExtRow))
    → length b < limit
    → limit < length b + length c
    → limited limit (b ∷ c ∷ bs) ≡ b ++ c
limited_overrun limit b c bs below above =
    limited-below limit b (c ∷ bs) below
    ∙ ap (λ (t : List RustExtRow). b ++ t)
        (limited-above (limit - length b) c bs (omega arith) (omega arith))

module _ (db : Duckdb) (output_type : ℕ → LogicalTypeId) {World : Type 0}
    (list_rows : RustExtClientConfig
      → Text
      → CodaRowsRequest
      → World
      → Result Text CodaRowsResponse × World)
    (config : RustExtClientConfig) (bind_data : RustBridgeScanBindData)
    (columns : List ColumnIndex) where
  open db use {Value, vector_size}

  -- The scan of a table, opened and drained.
  unfoldable pub whole_scan :
      ℕ → ℕ → ℕ → World → Outcome Exception (ScanState (ScanHandle × World)) (List (List Value))
  whole_scan requests fuel calls w =
      drain db output_type (next_batch list_rows requests) fuel calls (
        open_state bind_data columns
          (new_handle config bind_data.table.table.id (scan_request bind_data), w))

  -- The output row of a row of the table.
  abbrev pub cells_of : RustExtRow → Result Exception (List Value)
  cells_of row = project db output_type (next_batch list_rows 0) bind_data.table columns row

  pub whole_scan-limited :
      (requests fuel calls : ℕ) (w : World) (pages : List CodaRowsResponse)
      (outs : List (List Value))
      → Answers list_rows
          (new_handle config bind_data.table.table.id (scan_request bind_data))
          w
          pages
      → traverse cells_of (limited bind_data.pushed_limit (batches pages)) ≡ ok outs
      → 0 < vector_size
      → length pages ≤ requests
      → vector_size < fuel
      → length outs < calls
      → (state : ScanState (ScanHandle × World)) × (whole_scan requests fuel calls w
          ≡ returned outs state)
  unfolding whole_scan open_state
  whole_scan-limited requests fuel calls w pages outs answers cells some_room r f c =
      drain-rows db output_type (next_batch list_rows requests) bind_data.table columns fuel calls _
        (limited bind_data.pushed_limit (batches pages)) outs
        (record {
          same_table = refl;
          same_columns = refl;
          pending =
              going refl (Answers-Yields list_rows requests answers r)
                (sym (limited-nil bind_data.pushed_limit (batches pages)));
        })
        cells some_room f c

  -- A scan without a limit, whose requests are answered with these pages and whose rows all have a
  -- value for each column, comes to its end and gives out exactly the rows that the server does not
  -- mark as deleted, of all of its pages, in their order. Fuel for a request to each page, for one
  -- round more than a vector has rows, and for one call more than there are rows is enough.
  pub whole_scan_complete :
      (requests fuel calls : ℕ) (w : World) (pages : List CodaRowsResponse)
      (outs : List (List Value))
      → bind_data.pushed_limit ≡ 0
      → Answers list_rows
          (new_handle config bind_data.table.table.id (scan_request bind_data))
          w
          pages
      → traverse cells_of (flatten (map visible_rows pages)) ≡ ok outs
      → 0 < vector_size
      → length pages ≤ requests
      → vector_size < fuel
      → length outs < calls
      → (state : ScanState (ScanHandle × World)) × (whole_scan requests fuel calls w
          ≡ returned outs state)
  whole_scan_complete requests fuel calls w pages outs no_limit answers cells some_room r f c =
      whole_scan-limited requests fuel calls w pages outs answers
        (ap (traverse cells_of) (
            ap (λ (k : ℕ). limited k (batches pages)) no_limit
            ∙ limited_zero (batches pages)
            ∙ flatten-batches pages)
          ∙ cells)
        some_room r f c

  -- Under the same conditions but with any limit, the scan comes to its end too. The rows that are
  -- given out are the first of the rows that are not deleted, in order: all of them, or at least as
  -- many as the limit asks for.
  pub whole_scan_prefix :
      (requests fuel calls : ℕ) (w : World) (pages : List CodaRowsResponse)
      (outs : List (List Value))
      → Answers list_rows
          (new_handle config bind_data.table.table.id (scan_request bind_data))
          w
          pages
      → traverse cells_of (flatten (map visible_rows pages)) ≡ ok outs
      → 0 < vector_size
      → length pages ≤ requests
      → vector_size < fuel
      → length outs < calls
      → (given left : List (List Value)) × (state : ScanState (ScanHandle × World)) × (whole_scan
            requests fuel calls w
          ≡ returned given state)
        × (outs ≡ given ++ left)
        × ((left ≡ []) ⊎ (bind_data.pushed_limit ≤ length given))
  whole_scan_prefix requests fuel calls w pages outs answers cells some_room r f c =
      let (rest, split, enough) = limited-prefix bind_data.pushed_limit (batches pages) in
      let (given, left, outs_eq, given_ok, left_ok) =
        traverse-append cells_of (limited bind_data.pushed_limit (batches pages)) rest
          (ap (traverse cells_of) (sym split ∙ flatten-batches pages) ∙ cells) in
      let (state, called) =
        whole_scan-limited requests fuel calls w pages given answers given_ok some_room r f
          (omega (arith, ap length outs_eq, length-append given left)) in
      (
        given,
        left,
        state,
        called,
        outs_eq,
        elim enough [
          | inl none_left ↦ inl (
              traverse-nil cells_of
                (subst (λ (t : List RustExtRow). traverse cells_of t ≡ ok left) none_left left_ok))
          | inr reached ↦ inr (
              omega (
                arith,
                reached,
                traverse-length cells_of (limited bind_data.pushed_limit (batches pages)) given_ok,
              ))
        ],
      )

  -- Where the requests are answered with pages whose first two batches are these, and the limit falls
  -- inside the second, it is overrun: both batches are given out whole, which is more rows than the
  -- limit asks for. Fuel is as much as for a whole scan.
  pub whole_scan_overrun :
      (requests fuel calls : ℕ) (w : World) (pages : List CodaRowsResponse)
      (first second : List RustExtRow) (others : List (List RustExtRow)) (outs : List (List Value))
      → Answers list_rows
          (new_handle config bind_data.table.table.id (scan_request bind_data))
          w
          pages
      → batches pages ≡ first ∷ second ∷ others
      → length first < bind_data.pushed_limit
      → bind_data.pushed_limit < length first + length second
      → traverse cells_of (first ++ second) ≡ ok outs
      → 0 < vector_size
      → length pages ≤ requests
      → vector_size < fuel
      → length outs < calls
      → (state : ScanState (ScanHandle × World)) × (whole_scan requests fuel calls w
          ≡ returned outs state)
        × (bind_data.pushed_limit < length outs)
  whole_scan_overrun requests fuel calls w pages first second others outs answers split below above
        cells some_room r f c =
      let cut =
        ap (limited bind_data.pushed_limit) split
        ∙ limited_overrun bind_data.pushed_limit first second others below above in
      let (state, called) =
        whole_scan-limited requests fuel calls w pages outs answers
          (ap (traverse cells_of) cut ∙ cells) some_room r f c in
      (
        state,
        called,
        omega (
          arith,
          above,
          traverse-length cells_of (first ++ second) cells,
          length-append first second,
        ),
      )
