-- ===== src/Blocks/Batches/Sweep.antt =====
-- The rows of a response that are marked as deleted are released, and the others are kept with their
-- blocks.
use duckdb_coda.Prelude.{
  ℕ, ◌+◌, ◌≡◌, refl, sym, ap, ◌∙◌, subst, Bool-cases, inl, inr, true, false, not, List, [], ◌∷◌,
  ◌++◌, keep, arith, ok, and_then, and_then-ok, if_true, if_false,
}
use duckdb_coda.Abi.{RustExtRow, CodaRowsResponse}
use duckdb_coda.Fetch.{visible_rows}
use duckdb_coda.Ownership.{count}
use duckdb_coda.Blocks.{Content, RawRow, free}
use duckdb_coda.Blocks.Holds.{
  Within, Each, nil, cons, Frees-then, Within-left, Within-right, Within-same, count-append,
}
use duckdb_coda.Blocks.Structs.Row.{RowParts, RowOwns, RowParts-deleted}
use duckdb_coda.Blocks.Readers.{RawRowsResponse}
use duckdb_coda.Blocks.Readers.Rows.{ResponseParts}
use duckdb_coda.Blocks.Batches.{sweep, take_response}

-- The rows that are not marked as deleted, with their pointers.
abbrev pub visible_raw : List RawRow → List RawRow
visible_raw = keep (λ row. not row.deleted)

abbrev pub visible : List RustExtRow → List RustExtRow
visible = keep (λ row. not row.deleted)

-- What the loop leaves allocated: the blocks that are kept, and all that the rows had no part in.
pub record Swept (content : Content) (raws : List RawRow) (blocks kept live : List ℕ) : Type 0 where
  pub left : List ℕ
  pub goes : sweep content raws live ≡ ok (visible_raw raws, left)
  pub counted : (a : ℕ) → count a left + count a blocks ≡ count a live + count a kept

pub record Visible (C : Content → Type 0) (raws : List RawRow) (rows : List RustExtRow)
    (blocks : List ℕ) : Type 0 where
  pub kept : List ℕ
  pub owned : Each RowOwns C (visible_raw raws) (visible rows) kept
  pub sweeps :
      (content : Content)
      → C content
      → (live : List ℕ) → Within blocks live
      → Swept content raws blocks kept live

raw_gone :
    (raw : RawRow) (raws : List RawRow)
    → raw.deleted ≡ true
    → visible_raw (raw ∷ raws) ≡ visible_raw raws
raw_gone raw raws gone = if_false _ _ _ (ap not gone)

raw_stays :
    (raw : RawRow) (raws : List RawRow)
    → raw.deleted ≡ false
    → visible_raw (raw ∷ raws) ≡ raw ∷ visible_raw raws
raw_stays raw raws stays = if_true _ _ _ (ap not stays)

module _ (C : Content → Type 0) where
  skip-Visible :
      {raw : RawRow} {raws : List RawRow} {row : RustExtRow} {rows : List RustExtRow}
      {xs ys : List ℕ}
      → RowParts C raw row xs
      → raw.deleted ≡ true
      → Visible C raws rows ys
      → Visible C (raw ∷ raws) (row ∷ rows) (xs ++ ys)
  unfolding sweep
  skip-Visible {raw} {raws} {row} {rows} {xs} {ys} parts gone rest =
      let gone' : row.deleted ≡ true = sym parts.flag ∙ gone in
      record {
        kept = rest.kept;
        owned =
            subst (λ r. Each RowOwns C r (visible (row ∷ rows)) rest.kept)
              (sym (raw_gone raw raws gone))
              (subst (λ v. Each RowOwns C (visible_raw raws) v rest.kept)
                (sym (if_false (not row.deleted) _ _ (ap not gone'))) rest.owned);
        sweeps = λ content k live h.
            let freed =
              RowParts-deleted C content k raw row xs parts live (Within-left xs ys live h) in
            let swept =
              rest.sweeps content k freed.left
                (λ a. omega (arith, h a, freed.less a, count-append a xs ys)) in
            record {
              left = swept.left;
              goes =
                  if_true raw.deleted _ _ gone
                  ∙ ap (λ r. and_then r (sweep content raws)) freed.goes
                  ∙ swept.goes
                  ∙ ap (λ r. ok (r, swept.left)) (sym (raw_gone raw raws gone));
              counted = λ a. omega (arith, swept.counted a, freed.less a, count-append a xs ys);
            };
      }

  cons-Visible :
      {raw : RawRow} {raws : List RawRow} {row : RustExtRow} {rows : List RustExtRow}
      {xs ys : List ℕ}
      → RowParts C raw row xs
      → raw.deleted ≡ false
      → Visible C raws rows ys
      → Visible C (raw ∷ raws) (row ∷ rows) (xs ++ ys)
  unfolding sweep
  cons-Visible {raw} {raws} {row} {rows} {xs} {ys} parts stays rest =
      let stays' : row.deleted ≡ false = sym parts.flag ∙ stays in
      record {
        kept = xs ++ rest.kept;
        owned =
            subst (λ r. Each RowOwns C r (visible (row ∷ rows)) (xs ++ rest.kept))
              (sym (raw_stays raw raws stays))
              (subst (λ v. Each RowOwns C (raw ∷ visible_raw raws) v (xs ++ rest.kept))
                (sym (if_true (not row.deleted) _ _ (ap not stays'))) (cons parts rest.owned));
        sweeps = λ content k live h.
            let swept = rest.sweeps content k live (Within-right xs ys live h) in
            record {
              left = swept.left;
              goes =
                  if_false raw.deleted _ _ stays
                  ∙ ap (λ r. and_then r (λ s. ok (raw ∷ s.0, s.1))) swept.goes
                  ∙ ap (λ r. ok (r, swept.left)) (sym (raw_stays raw raws stays));
              counted = λ a. omega (arith, swept.counted a, count-append);
            };
      }

  pub rows-Visible :
      {raws : List RawRow} {rows : List RustExtRow} {blocks : List ℕ}
      → Each RowOwns C raws rows blocks
      → Visible C raws rows blocks
  unfolding sweep count
  rows-Visible nil = record {
    kept = [];
    owned = nil;
    sweeps = λ content k live h. record { left = live; goes = refl; counted = λ a. omega arith };
  }
  rows-Visible (cons {raw = raw} parts rest) = elim (Bool-cases raw.deleted) [
    | inl gone ↦ skip-Visible parts gone (rows-Visible rest)
    | inr stays ↦ cons-Visible parts stays (rows-Visible rest)
  ]

-- What is taken out of a response.
pub record TakesOut (content : Content) (raw : RawRowsResponse) (response : CodaRowsResponse)
    (visible_rows : List RawRow) (blocks kept live : List ℕ) : Type 0 where
  pub left : List ℕ
  pub goes :
      take_response content raw live
      ≡ ok (record {
        page_token = response.next_page_token;
        sync_token = response.next_sync_token;
        visible = visible_rows;
        left = left;
      })
  pub counted : (a : ℕ) → count a left + count a blocks ≡ count a live + count a kept

pub record TakenApart (C : Content → Type 0) (raw : RawRowsResponse) (response : CodaRowsResponse)
    (blocks : List ℕ) : Type 0 where
  pub raws : List RawRow
  pub kept : List ℕ
  pub owned : Each RowOwns C raws (visible_rows response) kept
  pub takes :
      (content : Content)
      → C content
      → (live : List ℕ) → Within blocks live
      → TakesOut content raw response raws blocks kept live

pub response-TakenApart :
    (C : Content → Type 0) (raw : RawRowsResponse) (response : CodaRowsResponse) (blocks : List ℕ)
    → ResponseParts C raw response blocks
    → TakenApart C raw response blocks
unfolding take_response
response-TakenApart C raw response blocks parts =
    let (xs, ys, zs) : List ℕ × List ℕ × List ℕ = (parts.xs, parts.ys, parts.zs) in
    let array = parts.rows in
    let inner = array.inner in
    let own = array.own in
    let all = rows-Visible C array.elements in
    record {
      raws = visible_raw array.items;
      kept = all.kept;
      owned = all.owned;
      takes = λ content k live h.
          let there = Within-same (xs ++ (ys ++ zs)) blocks live parts.same h in
          let tokens = Within-right xs (ys ++ zs) live there in
          let page = parts.page content k in
          let sync = parts.sync content k in
          let vec = array.parts content k in
          let freed =
            Frees-then (free content raw.next_page_token) (free content raw.next_sync_token)
              page.frees sync.frees live tokens in
          let rows_there : Within (inner ++ own) freed.left =
            λ a. omega (arith, array.same a, there a, freed.less a, count-append) in
          let swept =
            all.sweeps content k freed.left (Within-left inner own freed.left rows_there) in
          let dropped =
            vec.frees swept.left
              (λ a. omega (arith, swept.counted a, rows_there a, count-append a inner own)) in
          record {
            left = dropped.left;
            goes = and_then-ok _ (page.reads live (Within-left ys zs live tokens)) (
                and_then-ok _ (sync.reads live (Within-right ys zs live tokens)) (
                  and_then-ok _ freed.goes (
                    and_then-ok _
                      (vec.reads freed.left (Within-right inner own freed.left rows_there))
                      (and_then-ok _ swept.goes (and_then-ok _ dropped.goes refl)))));
            counted = λ a. omega (
              arith,
              dropped.less a,
              swept.counted a,
              freed.less a,
              array.same a,
              parts.same a,
              count-append,
            );
          };
    }
