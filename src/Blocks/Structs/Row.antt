-- ===== src/Blocks/Structs/Row.antt =====
-- A row that owns its strings and its cells.
use duckdb_coda.Prelude.{ℕ, ◌≡◌, ap, List, ◌++◌, ok, arith}
use duckdb_coda.Abi.{RustExtRow}
use duckdb_coda.Blocks.{RawRow, Content, cell_kind, free, free_array, free_cell, free_row}
use duckdb_coda.Blocks.Batches.{free_deleted}
use duckdb_coda.Blocks.Layout.{array_layout, cell_layout, row_layout, read_row}
use duckdb_coda.Blocks.Stored.{TextHolds, Array, array_of, Array-Holds}
use duckdb_coda.Blocks.Holds.{
  SameBlocks, Within-same, Holds, Owning, holding, Frees, Frees-then, Frees-same, Within-left,
  Within-right, count-append,
}

-- The parts of a row, with the blocks of each.
pub record RowParts (C : Content → Type 0) (raw : RawRow) (row : RustExtRow) (blocks : List ℕ)
    : Type 0 where
  pub xs : List ℕ
  pub ys : List ℕ
  pub zs : List ℕ
  pub us : List ℕ
  pub id : TextHolds.owns C raw.id row.id xs
  pub created : TextHolds.owns C raw.created_at row.created_at ys
  pub updated : TextHolds.owns C raw.updated_at row.updated_at zs
  pub cells : Array cell_kind (holding cell_layout) C raw.cells row.cells us
  pub flag : raw.deleted ≡ row.deleted
  pub same : SameBlocks (xs ++ (ys ++ (zs ++ us))) blocks

pub RowParts-later :
    (C C' : Content → Type 0) (raw : RawRow) (row : RustExtRow) (blocks : List ℕ)
    → ((content : Content) → C' content → C content)
    → RowParts C raw row blocks
    → RowParts C' raw row blocks
RowParts-later C C' raw row blocks within parts = record {
  xs = parts.xs;
  ys = parts.ys;
  zs = parts.zs;
  us = parts.us;
  id = λ content k. parts.id content (within content k);
  created = λ content k. parts.created content (within content k);
  updated = λ content k. parts.updated content (within content k);
  cells =
      (array_of cell_kind (holding cell_layout)).later C C' raw.cells row.cells parts.us within
        parts.cells;
  flag = parts.flag;
  same = parts.same;
}

abbrev pub RowOwns : Owning RawRow RustExtRow
RowOwns = record { owns = RowParts; later = RowParts-later }

module _ (C : Content → Type 0) (content : Content) (k : C content) (raw : RawRow)
    (row : RustExtRow) (blocks : List ℕ) (parts : RowParts C raw row blocks) where
  cells_hold : Holds (array_layout cell_kind cell_layout) content raw.cells row.cells parts.us
  cells_hold =
      Array-Holds cell_kind (holding cell_layout) cell_layout C content k (λ r v b h. h content k)
        parts.cells

  pub RowParts-Holds : Holds row_layout content raw row blocks
  unfolding free_row read_row
  RowParts-Holds =
      let xs = parts.xs in
      let ys = parts.ys in
      let zs = parts.zs in
      let us = parts.us in
      let id = parts.id content k in
      let created = parts.created content k in
      let updated = parts.updated content k in
      record {
        frees = Frees-same _ parts.same (
            Frees-then (free content raw.id) _ id.frees (
              Frees-then (free content raw.created_at) _ created.frees
                (Frees-then (free content raw.updated_at) _ updated.frees cells_hold.frees)));
        reads = λ live h.
            let there = Within-same (xs ++ (ys ++ (zs ++ us))) blocks live parts.same h in
            let rest = Within-right xs (ys ++ (zs ++ us)) live there in
            let rest' = Within-right ys (zs ++ us) live rest in
            rw
              (
                read_row,
                id.reads live (Within-left xs _ live there),
                created.reads live (Within-left ys _ live rest),
                updated.reads live (Within-left zs us live rest'),
                cells_hold.reads live (Within-right zs us live rest'),
              )
              (ap (λ d. ok (record row { deleted = d })) parts.flag);
      }

  -- A row that is marked as deleted is released in another order.
  pub RowParts-deleted : Frees (free_deleted content raw) blocks
  unfolding free_deleted
  RowParts-deleted =
      let rest = Frees-then (free content raw.id) _ (parts.id content k).frees (
        Frees-then (free content raw.created_at) (free content raw.updated_at)
          (parts.created content k).frees (parts.updated content k).frees) in
      Frees-same _ (λ a. omega (arith, parts.same a, count-append))
        (Frees-then (free_array cell_kind (free_cell content) content raw.cells) _ cells_hold.frees
          rest)
