-- ===== src/Blocks/Stored.antt =====
-- What the allocations leave: the heap only grows, and a text or an array that was allocated holds
-- its value from then on.
use duckdb_coda.Prelude.{
  ℕ, suc, ◌==◌, ◌+◌, ◌≤◌, ◌<◌, ltb, lt→ltb, ◌≡◌, refl, ap, ◌∙◌, true, List, [], ◌∷◌, ◌++◌, arith,
  length, ok, if_true, if_false,
}
use duckdb_coda.Text.{Text}
use duckdb_coda.Ownership.{count, free_block}
use duckdb_coda.Ownership.Counts.{hit_self}
use duckdb_coda.Blocks.{
  Slice, Block, Content, Heap, alloc, Kind, byte_kind, into_raw_parts, of_layout, from_raw_parts,
  alloc_string, free, free_each, free_array,
}
use duckdb_coda.Blocks.Layout.{Layout, text_layout, array_layout, read_array}
use duckdb_coda.Blocks.Holds.{
  Holds, Owning, holding, each, Each, Each-Holds, SameBlocks, Within-same, Frees-same, Within,
  Frees, Frees-none, Frees-then, Frees-block, Within-left, Within-right, count-append,
}

-- From one heap to a later one: these blocks are allocated on top, and the contents stay.
pub record Grows (h h' : Heap) (blocks : List ℕ) : Type 0 where
  pub last_le : h.last ≤ h'.last
  pub counted : (a : ℕ) → count a h'.live ≡ count a h.live + count a blocks
  pub kept : (a : ℕ) → a ≤ h.last → h'.content a ≡ h.content a

-- A content that has what the heap has, at all addresses that were handed out.
abbrev pub Agrees : Heap → Content → Type 0
Agrees h content = (a : ℕ) → a ≤ h.last → content a ≡ h.content a

-- A struct owns what it stands for in a heap, and in all later ones.
abbrev pub Stays : {R V : Type 0} → Owning R V → Heap → R → V → List ℕ → Type 0
Stays P h raw v blocks = P.owns (Agrees h) raw v blocks

pub Grows-none : (h : Heap) → Grows h h []
unfolding count
Grows-none h = record { last_le = omega arith; counted = λ a. omega arith; kept = λ a le. refl }

pub Grows-then :
    {h h₁ h₂ : Heap} {xs ys : List ℕ} → Grows h h₁ xs → Grows h₁ h₂ ys → Grows h h₂ (xs ++ ys)
Grows-then {xs = xs} {ys} g k = record {
  last_le = omega (arith, g.last_le, k.last_le);
  counted = λ a. omega (arith, g.counted a, k.counted a, count-append a xs ys);
  kept = λ a le. k.kept a (omega (arith, g.last_le, le)) ∙ g.kept a le;
}

pub Grows-same :
    {h h' : Heap} {xs ys : List ℕ}
    → ((a : ℕ) → count a xs ≡ count a ys)
    → Grows h h' xs
    → Grows h h' ys
Grows-same same g = record {
  last_le = g.last_le;
  counted = λ a. omega (arith, g.counted a, same a);
  kept = g.kept;
}

pub Agrees-earlier :
    {h h' : Heap} {blocks : List ℕ}
    → Grows h h' blocks
    → (content : Content) → Agrees h' content
    → Agrees h content
Agrees-earlier g content agrees a le = agrees a (omega (arith, g.last_le, le)) ∙ g.kept a le

pub Stays-later :
    {R V : Type 0} (P : Owning R V) {h h' : Heap} {raw : R} {v : V} {xs ys : List ℕ}
    → Grows h h' ys
    → Stays P h raw v xs
    → Stays P h' raw v xs
Stays-later P {raw = raw} {v} {xs} g stays = P.later _ _ raw v xs (Agrees-earlier g) stays

alloc-Grows : (block : Block) (h : Heap) → Grows h (alloc block h).1 (suc h.last ∷ [])
unfolding alloc count
alloc-Grows block h = record {
  last_le = omega arith;
  counted = λ a. omega arith;
  kept = λ a le. ground arith;
}

pub alloc-block :
    (block : Block) (h : Heap) (content : Content)
    → Agrees (alloc block h).1 content
    → content (suc h.last) ≡ block
unfolding alloc
alloc-block block h content agrees =
    agrees (suc h.last) (omega arith) ∙ if_true (suc h.last == suc h.last) _ _ (ground arith)

module _ {A : Type 0} (kind : Kind A) where
  -- A block of an array that is allocated is read.
  from_raw_parts-there :
      (content : Content) (p : ℕ) (items : List A) (live : List ℕ)
      → 0 < p
      → content p ≡ kind.block items
      → Within (p ∷ []) live
      → from_raw_parts kind content (record { ptr = p; len = length items }) live ≡ ok items
  unfolding from_raw_parts of_layout count
  from_raw_parts-there content p items live pos there within =
      let alive : ltb 0 (count p live) ≡ true =
        lt→ltb 0 (count p live) (omega (arith, within p, hit_self p)) in
      let same : (length items == length items) ≡ true = ground arith in
      if_false (p == 0) _ _ (ground arith)
      ∙ if_true (ltb 0 (count p live)) _ _ alive
      ∙ ap (of_layout kind (length items)) (ap kind.elements there ∙ kind.elements-block items)
      ∙ if_true (length items == length items) _ _ same

  -- The blocks that `into_raw_parts` allocates.
  abbrev pub parts_of : List A → Heap → List ℕ
  parts_of [] h = []
  parts_of (item ∷ items) h = suc h.last ∷ []

  pub into_raw_parts-Grows :
      (items : List A) (h : Heap) → Grows h (into_raw_parts kind items h).1 (parts_of items h)
  unfolding into_raw_parts
  into_raw_parts-Grows [] h = Grows-none h
  into_raw_parts-Grows (item ∷ items) h = alloc-Grows (kind.block (item ∷ items)) h

  -- The parts of a vector: made into a vector again, and dropped.
  pub record Parts (content : Content) (s : Slice) (items : List A) (blocks : List ℕ) : Type 0 where
    pub reads : (live : List ℕ) → Within blocks live → from_raw_parts kind content s live ≡ ok items
    pub frees : Frees (free_block s.ptr) blocks

  pub into_raw_parts-Parts :
      (items : List A) (h : Heap) (content : Content)
      → Agrees (into_raw_parts kind items h).1 content
      → Parts content (into_raw_parts kind items h).0 items (parts_of items h)
  unfolding into_raw_parts from_raw_parts free_block
  into_raw_parts-Parts [] h content agrees = record { reads = λ live w. refl; frees = Frees-none }
  into_raw_parts-Parts (item ∷ items) h content agrees = record {
    reads = λ live w.
        from_raw_parts-there content (suc h.last) (item ∷ items) live (omega arith)
          (alloc-block (kind.block (item ∷ items)) h content agrees) w;
    frees = Frees-block (suc h.last) (omega arith);
  }

  module _ {V : Type 0} (P : Owning A V) where
    -- An array: the parts of a vector, and its elements.
    pub record Array (C : Content → Type 0) (s : Slice) (vs : List V) (blocks : List ℕ)
        : Type 0 where
      pub items : List A
      pub inner : List ℕ
      pub own : List ℕ
      pub parts : (content : Content) → C content → Parts content s items own
      pub elements : Each P C items vs inner
      pub same : SameBlocks (inner ++ own) blocks

    pub Array-later :
        (C C' : Content → Type 0) (s : Slice) (vs : List V) (blocks : List ℕ)
        → ((content : Content) → C' content → C content)
        → Array C s vs blocks
        → Array C' s vs blocks
    Array-later C C' s vs blocks within array = record {
      items = array.items;
      inner = array.inner;
      own = array.own;
      parts = λ content k. array.parts content (within content k);
      elements = (each P).later C C' array.items vs array.inner within array.elements;
      same = array.same;
    }

    abbrev pub array_of : Owning Slice (List V)
    array_of = record { owns = Array; later = Array-later }

    pub Array-Holds :
        (layout : Layout A V) (C : Content → Type 0) (content : Content)
        → C content
        → ((raw : A) (v : V) (blocks : List ℕ)
            → P.owns C raw v blocks
            → Holds layout content raw v blocks)
        → {s : Slice} {vs : List V} {blocks : List ℕ} → Array C s vs blocks
        → Holds (array_layout kind layout) content s vs blocks
    unfolding free_array read_array
    Array-Holds layout C content k one {s} {blocks = blocks} array =
        let inner = array.inner in
        let own = array.own in
        let parts = array.parts content k in
        let all = Each-Holds P layout C content one array.elements in
        record {
          frees = λ live h.
              let there = Within-same (inner ++ own) blocks live array.same h in
              let freed =
                Frees-same _ array.same
                  (Frees-then (free_each (layout.free_one content) array.items) (free_block s.ptr)
                    all.frees parts.frees)
                  live h in
              record {
                left = freed.left;
                goes =
                    rw (free_array, parts.reads live (Within-right inner own live there))
                      freed.goes;
                less = freed.less;
              };
          reads = λ live h.
              let there = Within-same (inner ++ own) blocks live array.same h in
              rw (read_array, parts.reads live (Within-right inner own live there))
                (all.reads live (Within-left inner own live there));
        }

    -- An array that is allocated for elements that own what they stand for.
    pub store_array :
        {items : List A} {vs : List V} {xs : List ℕ} (h : Heap)
        → Stays (each P) h items vs xs
        → Stays array_of
            (into_raw_parts kind items h).1
            (into_raw_parts kind items h).0
            vs
            (xs ++ parts_of items h)
    store_array {items} {xs = xs} h stays = record {
      items = items;
      inner = xs;
      own = parts_of items h;
      parts = into_raw_parts-Parts items h;
      elements = Stays-later (each P) (into_raw_parts-Grows items h) stays;
      same = λ a. refl;
    }

-- A text, by its bytes.
abbrev pub TextHolds : Owning Slice Text
TextHolds = holding text_layout

-- A text that is allocated.
pub store_text :
    (text : Text) (h : Heap)
    → Stays TextHolds
        (alloc_string text h).1
        (alloc_string text h).0
        text
        (parts_of byte_kind text h)
unfolding free
store_text text h content agrees =
    let parts = into_raw_parts-Parts byte_kind text h content agrees in
    record {
      frees = λ live w.
          let one = parts.frees live w in
          record {
            left = one.left;
            goes = rw (free, parts.reads live w) one.goes;
            less = one.less;
          };
      reads = parts.reads;
    }
