-- ===== src/Blocks/Columns/Names.antt =====
-- `prepare_columns` with its allocations: a column that gets another name gives up the block of the old
-- one, and owns that of the new one.
use duckdb_coda.Prelude.{
  ℕ, zero, suc, ◌≡◌, refl, ap, sym, ◌∙◌, subst, Bool-cases, Option-cases, inl, inr, Option, none,
  some, List, [], ◌∷◌, ◌++◌, map, length, if_true, if_false, Result, ok, and_then, and_then-ok,
  arith,
}
use duckdb_coda.Text.{Text, text_eq}
use duckdb_coda.Abi.{RustExtColumn}
use duckdb_coda.Json.Names.{base_name, candidate, is_taken, free_name, rename, prepare_from}
use duckdb_coda.Ownership.{Fault}
use duckdb_coda.Blocks.{RawColumn, Content, Heap, alloc_string, byte_kind, as_str}
use duckdb_coda.Blocks.Layout.{read_each}
use duckdb_coda.Blocks.Holds.{
  Within, Reads, Each, each, nil, cons, Each-append, Each-length, Within-left, Within-right,
  Within-same, count-append,
}
use duckdb_coda.Blocks.Stored.{
  TextHolds, Grows, Agrees, Agrees-earlier, Grows-then, Grows-same, Stays-later, parts_of,
  store_text,
}
use duckdb_coda.Blocks.Readers.Made.{alloc_string-Grows}
use duckdb_coda.Blocks.Columns.{read_name, rename_raw, prepare_from_raw}
use duckdb_coda.Blocks.Columns.Parts.{ColumnParts, ColumnOwns}

-- What the search sees of a column.
abbrev name_only : RustExtColumn → RustExtColumn
name_only column = record column { id = []; type_name = [] }

is_taken-map :
    (name : Text) (columns : List RustExtColumn)
    → is_taken name (map name_only columns) ≡ is_taken name columns
unfolding is_taken
is_taken-map name [] = refl
is_taken-map name (column ∷ columns) = rw (is_taken-map name columns) refl

free_name-map :
    (fuel : ℕ) (before : List RustExtColumn) (base : Text) (suffix : ℕ)
    → free_name fuel (map name_only before) base suffix ≡ free_name fuel before base suffix
unfolding free_name
free_name-map zero before base suffix = refl
free_name-map (suc fuel) before base suffix =
    rw
      (
        free_name,
        is_taken-map (candidate base suffix) before,
        free_name-map fuel before base (suc suffix),
      )
      refl

module _ (C : Content → Type 0) (content : Content) (k : C content) where
  read_name-Reads :
      (raw : RawColumn) (column : RustExtColumn) (blocks : List ℕ)
      → ColumnParts C raw column blocks
      → Reads (read_name content raw) (name_only column) blocks
  unfolding read_name
  read_name-Reads raw column blocks parts live h =
      let xs = parts.xs in
      let there = Within-same (xs ++ (parts.ys ++ parts.zs)) blocks live parts.same h in
      let rest = Within-right xs (parts.ys ++ parts.zs) live there in
      and_then-ok _ ((parts.name content k).reads live (Within-left parts.ys parts.zs live rest)) (
        ap
          (λ c.
            ok (record (name_only column) { capabilities = c; logical_type = raw.logical_type }))
          parts.capabilities
        ∙ ap (λ l. ok (record (name_only column) { logical_type = l })) parts.logical)

  read_names-Reads :
      {raws : List RawColumn} {columns : List RustExtColumn} {blocks : List ℕ}
      → Each ColumnOwns C raws columns blocks
      → Reads (read_each (read_name content) raws) (map name_only columns) blocks
  read_names-Reads nil live h = refl
  read_names-Reads (cons {raw = raw} {v = v} {xs = xs} {ys = ys} head tail) live h =
      and_then-ok _ (read_name-Reads raw v xs head live (Within-left xs ys live h))
        (and_then-ok _ (read_names-Reads tail live (Within-right xs ys live h)) refl)

  name-Reads :
      (raw : RawColumn) (column : RustExtColumn) (blocks : List ℕ)
      → ColumnParts C raw column blocks
      → Reads (as_str content raw.name) column.name blocks
  name-Reads raw column blocks parts live h =
      let xs = parts.xs in
      let there = Within-same (xs ++ (parts.ys ++ parts.zs)) blocks live parts.same h in
      (parts.name content k).reads live
        (Within-left parts.ys parts.zs live (Within-right xs (parts.ys ++ parts.zs) live there))

-- A column under its new name.
record Renamed (h₀ heap : Heap) (others : List ℕ) (raw : RawColumn) (column : RustExtColumn)
    (name : Text) : Type 0 where
  pub raw' : RawColumn
  pub heap' : Heap
  pub blocks' : List ℕ
  pub goes : rename_raw raw column.name name heap ≡ ok (raw', heap')
  pub owns : ColumnParts (Agrees heap') raw' (rename column name) blocks'
  pub grows : Grows h₀ heap' (others ++ blocks')
  pub later : (content : Content) → Agrees heap' content → Agrees heap content

module _ (h₀ : Heap) where
  rename-Renamed :
      (heap : Heap) (others blocks : List ℕ) (raw : RawColumn) (column : RustExtColumn)
      (name : Text)
      → Grows h₀ heap (others ++ blocks)
      → ColumnParts (Agrees heap) raw column blocks
      → Renamed h₀ heap others raw column name
  unfolding rename_raw rename
  rename-Renamed heap others blocks raw column name grows parts =
      elim (Bool-cases (text_eq name column.name)) [
        | inl same ↦ record {
          raw' = raw;
          heap' = heap;
          blocks' = blocks;
          goes = if_true _ _ _ same;
          owns =
              subst (λ c. ColumnParts (Agrees heap) raw c blocks) (sym (if_true _ _ _ same)) parts;
          grows = grows;
          later = λ content k. k;
        }
        | inr differ ↦
            let xs = parts.xs in
            let ys = parts.ys in
            let zs = parts.zs in
            let there : Within ys heap.live =
              λ a. omega (arith, grows.counted a, parts.same a, count-append) in
            let freed = (parts.name heap.content (λ a le. refl)).frees heap.live there in
            let heap₁ = record heap { live = freed.left } in
            let (name', heap₂) = alloc_string name heap₁ in
            let new = parts_of byte_kind name heap₁ in
            let g = alloc_string-Grows name heap₁ in
            let without : Grows h₀ heap₁ (others ++ (xs ++ zs)) = record {
              last_le = grows.last_le;
              counted =
                  λ a. omega (arith, grows.counted a, parts.same a, freed.less a, count-append);
              kept = grows.kept;
            } in
            record {
              raw' = record raw { name = name' };
              heap' = heap₂;
              blocks' = xs ++ (new ++ zs);
              goes = if_false _ _ _ differ ∙ and_then-ok _ freed.goes refl;
              owns =
                  subst
                    (λ c.
                      ColumnParts (Agrees heap₂) (record raw { name = name' }) c
                        (xs ++ (new ++ zs)))
                    (sym (if_false _ _ _ differ))
                    (record {
                      xs = xs;
                      ys = new;
                      zs = zs;
                      id = Stays-later TextHolds g parts.id;
                      name = store_text name heap₁;
                      type_name = Stays-later TextHolds g parts.type_name;
                      capabilities = parts.capabilities;
                      logical = parts.logical;
                      same = λ a. refl;
                    });
              grows = Grows-same (λ a. omega (arith, count-append)) (Grows-then without g);
              later = Agrees-earlier g;
            }
      ]

  -- How `prepare_columns` ends, by value and with its pointers.
  pub data Prepares
      : Option (List RustExtColumn) → Result Fault (Option (List RawColumn) × Heap) → Type 0 where
    named :
        {raws : List RawColumn} {columns : List RustExtColumn} {heap' : Heap} (blocks : List ℕ)
        → Grows h₀ heap' blocks
        → Each ColumnOwns (Agrees heap') raws columns blocks
        → Prepares (some columns) (ok (some raws, heap'))
    unnamed : {heap' : Heap} → Prepares none (ok (none, heap'))

  Prepares-eq :
      {a b : Option (List RustExtColumn)} {c d : Result Fault (Option (List RawColumn) × Heap)}
      → a ≡ b
      → c ≡ d
      → Prepares b d
      → Prepares a c
  Prepares-eq {a} {d = d} e f p = subst (Prepares a) (sym f) (subst (λ x. Prepares x d) (sym e) p)

  -- A step of both loops, once the search is over.
  abbrev prepare_on :
      List RustExtColumn
      → List RustExtColumn
      → RustExtColumn
      → Option Text
      → Option (List RustExtColumn)
  prepare_on bs columns column found = elim found [
    | none ↦ none
    | some name ↦ prepare_from (bs ++ rename column name ∷ []) columns
  ]

  abbrev after_search :
      List RawColumn
      → List RawColumn
      → RawColumn
      → Text
      → Heap
      → Option Text
      → Result Fault (Option (List RawColumn) × Heap)
  after_search before raws raw original heap found = elim found [
    | none ↦ ok (none, heap)
    | some name ↦
        and_then (rename_raw raw original name heap)
          (λ renamed. prepare_from_raw (before ++ renamed.0 ∷ []) raws renamed.1)
  ]

  pub prepare_from-Prepares :
      (columns : List RustExtColumn) (heap : Heap) {before raws : List RawColumn}
      {bs : List RustExtColumn} {xs ys : List ℕ}
      → Grows h₀ heap (xs ++ ys)
      → Each ColumnOwns (Agrees heap) before bs xs
      → Each ColumnOwns (Agrees heap) raws columns ys
      → Prepares (prepare_from bs columns) (prepare_from_raw before raws heap)
  unfolding prepare_from prepare_from_raw
  prepare_from-Prepares [] heap {xs = xs} grows before nil =
      named xs (Grows-same (λ a. omega (arith, count-append a xs [])) grows) before
  prepare_from-Prepares (column ∷ columns) heap {before = before} {bs = bs} {xs = xs} grows
        before_owns (cons {raw = raw} {raws = raws} {xs = b} {ys = tb} head tail) =
      let agrees : Agrees heap heap.content = λ a le. refl in
      let old =
        name-Reads (Agrees heap) heap.content agrees raw column b head heap.live
          (λ a. omega (arith, grows.counted a, count-append)) in
      let names =
        read_names-Reads (Agrees heap) heap.content agrees before_owns heap.live
          (λ a. omega (arith, grows.counted a, count-append)) in
      let search =
        free_name-map (suc (length before)) bs (base_name column.name) 1
        ∙ ap (λ n. free_name (suc n) bs (base_name column.name) 1)
            (Each-length ColumnOwns (Agrees heap) before_owns) in
      let raw_goes =
        and_then-ok _ old
          (and_then-ok _ names (ap (after_search before raws raw column.name heap) search)) in
      elim (Option-cases (free_name (suc (length bs)) bs (base_name column.name) 1)) [
        | inl ends ↦
            Prepares-eq (ap (prepare_on bs columns column) ends)
              (raw_goes ∙ ap (after_search before raws raw column.name heap) ends) unnamed
        | inr (name, found) ↦
            let renamed =
              rename-Renamed heap (xs ++ tb) b raw column name
                (Grows-same (λ a. omega (arith, count-append)) grows) head in
            Prepares-eq (ap (prepare_on bs columns column) found)
              (raw_goes
                ∙ ap (after_search before raws raw column.name heap) found
                ∙ and_then-ok _ renamed.goes refl)
              (prepare_from-Prepares columns renamed.heap'
                (Grows-same (λ a. omega (arith, count-append)) renamed.grows)
                (Each-append ColumnOwns (Agrees renamed.heap')
                  ((each ColumnOwns).later _ _ before bs xs renamed.later before_owns)
                  (cons renamed.owns nil))
                ((each ColumnOwns).later _ _ raws columns tb renamed.later tail))
      ]
