-- ===== src/Blocks/Columns/Released.antt =====
-- What a loading hands over and its release, and that of `load_columns`.
use duckdb_coda.Prelude.{ℕ, ◌≡◌, List, [], ◌++◌, arith, Outcome, returned, threw, out_of_fuel, ok}
use duckdb_coda.Text.{Text}
use duckdb_coda.Abi.{RustExtClientConfig, RustExtColumn}
use duckdb_coda.Platform.{Platform}
use duckdb_coda.Ownership.{count}
use duckdb_coda.Load.{load_columns}
use duckdb_coda.Blocks.{Content, Slice, Heap, column_kind, null_slice, free, free_columns}
use duckdb_coda.Blocks.Layout.{Layout, column_layout, read_array, read_column}
use duckdb_coda.Blocks.Holds.{Owning, Frees-same, SameBlocks, Holds, Frees-then, count-append}
use duckdb_coda.Blocks.Structs.{Frees-null}
use duckdb_coda.Blocks.Stored.{Grows, Agrees, Array-Holds, array_of}
use duckdb_coda.Blocks.Columns.{Loading, load_columns_raw}
use duckdb_coda.Blocks.Columns.Parts.{ColumnOwns, ColumnParts-Holds}
use duckdb_coda.Blocks.Columns.Loaded.{Loaded, loaded, refused, no_fuel, load_columns-Loaded}

-- A release of an array of columns without a token.
abbrev pub columns_layout : Layout Slice (List RustExtColumn)
columns_layout = record {
  free_one = λ content items. free_columns content items null_slice;
  read_one = λ content. read_array column_kind (read_column content) content;
}

-- What is handed over: at any later time it is read as its value, and its release leaves what would be
-- allocated without it.
pub record HandedOver {V : Type 0} (layout : Layout Slice V) (heap heap' : Heap) (raw : Slice)
    (v : V) : Type 0 where
  pub reads :
      (later : Heap) (more : List ℕ)
      → Grows heap' later more
      → layout.read_one later.content raw later.live ≡ ok v
  pub releases :
      (later : Heap) (more : List ℕ)
      → Grows heap' later more
      → (left : List ℕ) × (layout.free_one later.content raw later.live ≡ ok left)
        × SameBlocks left (heap.live ++ more)

handed-HandedOver :
    {V : Type 0} (layout : Layout Slice V) (heap heap' : Heap) (raw : Slice) (v : V)
    (blocks : List ℕ)
    → Grows heap heap' blocks
    → ((content : Content) → Agrees heap' content → Holds layout content raw v blocks)
    → HandedOver layout heap heap' raw v
handed-HandedOver layout heap heap' raw v blocks grows holds = record {
  reads = λ later more g.
      (holds later.content g.kept).reads later.live
        (λ a. omega (arith, grows.counted a, g.counted a));
  releases = λ later more g.
      let freed =
        (holds later.content g.kept).frees later.live
          (λ a. omega (arith, grows.counted a, g.counted a)) in
      (
        freed.left,
        freed.goes,
        λ a.
            omega
              (arith, freed.less a, grows.counted a, g.counted a, count-append a heap.live more),
      );
}

module _ {Double : Type 0} (platform : Platform Double) (config : RustExtClientConfig) where
  open platform use {World}

  -- How a call ends.
  pub data Ends {V : Type 0} (layout : Layout Slice V) (heap : Heap)
      : Outcome Text World V → Loading platform config Slice → Type 0 where
    handed :
        {raw : Slice} {v : V} {w : World} {heap' : Heap}
        → HandedOver layout heap heap' raw v
        → Ends layout heap (returned v w) (ok (returned raw (w, heap')))
    failing :
        {message : Text} {w : World} {heap' : Heap} (leaked : List ℕ)
        → Grows heap heap' leaked
        → Ends layout heap (threw message w) (ok (threw message (w, heap')))
    starved : Ends layout heap out_of_fuel (ok out_of_fuel)

  pub Loaded-Ends :
      {V : Type 0} (layout : Layout Slice V) (P : Owning Slice V)
      → ((C : Content → Type 0) (content : Content)
          → C content
          → (raw : Slice) (v : V) (blocks : List ℕ) → P.owns C raw v blocks
          → Holds layout content raw v blocks)
      → {heap : Heap} {a : Outcome Text World V} {b : Loading platform config Slice}
      → Loaded platform config P heap a b
      → Ends layout heap a b
  Loaded-Ends layout P holds {heap} (loaded {raw = raw} {v = v} {heap' = heap'} blocks grows owns) =
      handed (
        handed-HandedOver layout heap heap' raw v blocks grows
          (λ content k. holds (Agrees heap') content k raw v blocks owns))
  Loaded-Ends layout P holds (refused leaked grows) = failing leaked grows
  Loaded-Ends layout P holds no_fuel = starved

columns-Holds :
    (C : Content → Type 0) (content : Content)
    → C content
    → (raw : Slice) (columns : List RustExtColumn) (blocks : List ℕ)
    → (array_of column_kind ColumnOwns).owns C raw columns blocks
    → Holds columns_layout content raw columns blocks
unfolding free_columns free count
columns-Holds C content k raw columns blocks owns =
    let all =
      Array-Holds column_kind ColumnOwns column_layout C content k (ColumnParts-Holds C content k)
        owns in
    record {
      frees =
          Frees-same _ (λ a. omega (arith, count-append a blocks []))
            (Frees-then _ (free content null_slice) all.frees (Frees-null content));
      reads = all.reads;
    }

-- A call of `load_columns` with its allocations ends as it does by value, with the same columns and
-- the same error, and never frees a block that is not allocated. The array of columns that it hands
-- over can be read from then on, as long as it is not released, and its release frees all that the
-- call has left allocated, and nothing else.
pub load_columns-Ends :
    {Double : Type 0} (platform : Platform Double) (config : RustExtClientConfig) (fuel : ℕ)
    (table_id : Text) (w : platform.World) (heap : Heap)
    → Ends platform config columns_layout heap
        (load_columns platform config fuel table_id w)
        (load_columns_raw platform config fuel table_id w heap)
load_columns-Ends platform config fuel table_id w heap =
    Loaded-Ends platform config columns_layout (array_of column_kind ColumnOwns) columns-Holds
      (load_columns-Loaded platform config fuel table_id w heap)
