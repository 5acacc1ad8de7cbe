-- ===== src/Fetch/Pages.antt =====
-- The pages that a server answers with, and the batches that `next_batch` makes of them.
use duckdb_coda.Prelude.{
  ℕ, zero, suc, ◌<◌, ◌≤◌, ◌≢◌, ap, ◌∙◌, ◌≡◌, refl, true, false, List, [], ◌∷◌, ◌++◌, map, flatten,
  is_empty, is_empty-eq, if_false, length, arith, if◌then◌else◌, Bool-cases, inl, inr, Outcome,
  returned, Result, ok,
}
use duckdb_coda.Text.{Text}
use duckdb_coda.Abi.{
  RustExtClientConfig, RustExtRow, RustExtScanBatch, CodaRowsRequest, CodaRowsResponse,
}
use duckdb_coda.Fetch.{ScanHandle, request, absorb, visible_rows, receive, next_batch}
use duckdb_coda.Scan.Source.{Yields, last, more, batch}

-- The batches of a run of pages: a page with no visible row is skipped, but for the last.
unfoldable pub batches : List CodaRowsResponse → List (List RustExtRow)
batches [] = []
batches (page ∷ []) = visible_rows page ∷ []
batches (page ∷ next ∷ pages) =
    let rest = batches (next ∷ pages) in
    if is_empty (visible_rows page) then rest else visible_rows page ∷ rest

module _ {World : Type 0}
    (list_rows : RustExtClientConfig
      → Text
      → CodaRowsRequest
      → World
      → Result Text CodaRowsResponse × World) where
  -- The requests of a handle are answered with these pages, and then it is finished.
  pub data Answers : ScanHandle → World → List CodaRowsResponse → Type 0 where
    final :
        {h : ScanHandle} {w w' : World} {page : CodaRowsResponse}
        → h.finished ≡ false
        → list_rows h.config h.table_id (request h).0 w ≡ (ok page, w')
        → (absorb (request h).1 page).finished ≡ true
        → Answers h w (page ∷ [])
    further :
        {h : ScanHandle} {w w' : World} {page next : CodaRowsResponse}
        {pages : List CodaRowsResponse}
        → h.finished ≡ false
        → list_rows h.config h.table_id (request h).0 w ≡ (ok page, w')
        → Answers (absorb (request h).1 page) w' (next ∷ pages)
        → Answers h w (page ∷ next ∷ pages)

  Answers-unfinished :
      {h : ScanHandle} {w : World} {pages : List CodaRowsResponse}
      → Answers h w pages
      → h.finished ≡ false
  Answers-unfinished (final a b c) = a
  Answers-unfinished (further a b c) = a

  -- One round of the loop, once the answer is known.
  next_batch_round :
      (fuel : ℕ) (h : ScanHandle) (w w' : World) (page : CodaRowsResponse)
      → h.finished ≡ false
      → list_rows h.config h.table_id (request h).0 w ≡ (ok page, w')
      → next_batch list_rows (suc fuel) (h, w)
        ≡ receive list_rows (next_batch list_rows fuel) (ok page, w') (request h).1
  unfolding next_batch
  next_batch_round fuel h w w' page fin e = if_false h.finished _ _ fin ∙ rw e

  module _ (go_on : ScanHandle × World → Outcome Text (ScanHandle × World) RustExtScanBatch)
      (h : ScanHandle) (w : World) (page : CodaRowsResponse) where
    receive_last :
        (absorb h page).finished ≡ true
        → receive list_rows go_on (ok page, w) h
          ≡ returned (batch (visible_rows page) true) (absorb h page, w)
    unfolding receive
    receive_last fin = ground arith

    receive_some :
        (absorb h page).finished ≡ false
        → is_empty (visible_rows page) ≡ false
        → receive list_rows go_on (ok page, w) h
          ≡ returned (batch (visible_rows page) false) (absorb h page, w)
    unfolding receive
    receive_some fin some_row = ground arith

    receive_none :
        (absorb h page).finished ≡ false
        → is_empty (visible_rows page) ≡ true
        → receive list_rows go_on (ok page, w) h ≡ go_on (absorb h page, w)
    unfolding receive
    receive_none fin no_row = ground arith

  -- What one call has, and what it leaves to the later calls.
  data FirstBatch (fuel : ℕ) (h : ScanHandle) (w : World) (pages : List CodaRowsResponse)
      : Type 0 where
    whole :
        (rows : List RustExtRow) (s : ScanHandle × World)
        → next_batch list_rows fuel (h, w) ≡ returned (batch rows true) s
        → batches pages ≡ rows ∷ []
        → FirstBatch fuel h w pages
    part :
        (rows : List RustExtRow) (h' : ScanHandle) (w' : World) (rest : List CodaRowsResponse)
        → rows ≢ []
        → next_batch list_rows fuel (h, w) ≡ returned (batch rows false) (h', w')
        → Answers h' w' rest
        → batches pages ≡ rows ∷ batches rest
        → length rest < length pages
        → FirstBatch fuel h w pages

  -- A page that is skipped changes neither the batches nor who has the first of them.
  FirstBatch-skip :
      (fuel : ℕ) (h h' : ScanHandle) (w w' : World) (page next : CodaRowsResponse)
      (pages : List CodaRowsResponse)
      → next_batch list_rows (suc fuel) (h, w) ≡ next_batch list_rows fuel (h', w')
      → is_empty (visible_rows page) ≡ true
      → FirstBatch fuel h' w' (next ∷ pages)
      → FirstBatch (suc fuel) h w (page ∷ next ∷ pages)
  unfolding batches
  FirstBatch-skip fuel h h' w w' page next pages e none_here (whole rows s called same) =
      whole rows s (e ∙ called) (rw none_here same)
  FirstBatch-skip fuel h h' w w' page next pages e none_here
        (part rows g v rest ne called a same lt) =
      part rows g v rest ne (e ∙ called) a (rw none_here same) (omega arith)

  Answers-FirstBatch :
      (fuel : ℕ) {h : ScanHandle} {w : World} {pages : List CodaRowsResponse}
      → Answers h w pages
      → length pages ≤ fuel
      → FirstBatch fuel h w pages
  unfolding batches
  Answers-FirstBatch zero (final a b c) le = absurd (omega arith)
  Answers-FirstBatch zero (further a b c) le = absurd (omega arith)
  Answers-FirstBatch (suc fuel) (final {h} {w} {w'} {page} a b c) le =
      whole (visible_rows page) (absorb (request h).1 page, w')
        (next_batch_round fuel h w w' page a b ∙ receive_last _ (request h).1 w' page c) refl
  Answers-FirstBatch (suc fuel) (further {h} {w} {w'} {page} {next} {pages} a b c) le =
      elim (Bool-cases (is_empty (visible_rows page))) [
        | inl no_row ↦
            FirstBatch-skip fuel h (absorb (request h).1 page) w w' page next pages
              (next_batch_round fuel h w w' page a b
                ∙ receive_none _ (request h).1 w' page (Answers-unfinished c) no_row)
              no_row (Answers-FirstBatch fuel c (omega arith))
        | inr some_row ↦
            part (visible_rows page) (absorb (request h).1 page) w' (next ∷ pages)
              (λ e. cc (ap is_empty e))
              (next_batch_round fuel h w w' page a b
                ∙ receive_some _ (request h).1 w' page (Answers-unfinished c) some_row)
              c (rw some_row) (omega arith)
      ]

  Yields-below :
      (n fuel : ℕ) {h : ScanHandle} {w : World} {pages : List CodaRowsResponse}
      → Answers h w pages
      → length pages ≤ n
      → length pages ≤ fuel
      → Yields (next_batch list_rows fuel) (h, w) (batches pages)
  Yields-below zero fuel {pages = []} a le enough = elim a [ ]
  Yields-below zero fuel {pages = page ∷ pages} a le enough = absurd (omega arith)
  Yields-below (suc n) fuel {pages} a le enough = elim (Answers-FirstBatch fuel a enough) [
    | whole rows s called same ↦ rw same (last called)
    | part rows h' w' rest ne called a' same lt ↦
        rw same (more ne called (Yields-below n fuel a' (omega arith) (omega arith)))
  ]

  -- With fuel for as many requests as there are pages, the calls of `next_batch` have the batches of
  -- the pages one after another, and mark the last of them as such.
  pub Answers-Yields :
      (fuel : ℕ) {h : ScanHandle} {w : World} {pages : List CodaRowsResponse}
      → Answers h w pages
      → length pages ≤ fuel
      → Yields (next_batch list_rows fuel) (h, w) (batches pages)
  Answers-Yields fuel {pages} a le = Yields-below (length pages) fuel a (omega arith) le

-- No visible row is lost between the batches, and none is added.
pub flatten-batches :
    (pages : List CodaRowsResponse) → flatten (batches pages) ≡ flatten (map visible_rows pages)
unfolding batches flatten
flatten-batches [] = refl
flatten-batches (page ∷ []) = refl
flatten-batches (page ∷ next ∷ pages) = elim (Bool-cases (is_empty (visible_rows page))) [
  | inl no_row ↦
      rw (no_row, is_empty-eq (visible_rows page) no_row) (flatten-batches (next ∷ pages))
  | inr some_row ↦ rw some_row (ap (λ t. visible_rows page ++ t) (flatten-batches (next ∷ pages)))
]
