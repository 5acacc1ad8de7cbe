-- ===== src/Blocks/Holds.antt =====
-- A struct that owns its blocks: with these allocated it reads as its value, and its release takes
-- these and no others.
use duckdb_coda.Prelude.{
  ap, subst, sym, append_assoc, suc, length, ℕ, ◌==◌, ◌+◌, ◌≤◌, ◌<◌, lt→ltb, ◌≡◌, refl, ◌∙◌, List,
  [], ◌∷◌, ◌++◌, arith, Result, ok, if_true, if_false,
}
use duckdb_coda.Ownership.{Fault, count, remove, free_allocated, free_block}
use duckdb_coda.Ownership.Counts.{count-remove, hit_self}
use duckdb_coda.Blocks.{Content, free_each, ◌then_free◌}
use duckdb_coda.Blocks.Layout.{Layout, list_layout}

-- All of the blocks are allocated, each as often as it is listed.
abbrev pub Within : List ℕ → List ℕ → Type 0
Within blocks live = (a : ℕ) → count a blocks ≤ count a live

-- The one list has what the other has, less the blocks.
abbrev pub Less : List ℕ → List ℕ → List ℕ → Type 0
Less blocks live live' = (a : ℕ) → count a live' + count a blocks ≡ count a live

abbrev pub SameBlocks : List ℕ → List ℕ → Type 0
SameBlocks xs ys = (a : ℕ) → count a xs ≡ count a ys

pub record Freed (f : List ℕ → Result Fault (List ℕ)) (blocks live : List ℕ) : Type 0 where
  pub left : List ℕ
  pub goes : f live ≡ ok left
  pub less : Less blocks live left

abbrev pub Frees : (List ℕ → Result Fault (List ℕ)) → List ℕ → Type 0
Frees f blocks = (live : List ℕ) → Within blocks live → Freed f blocks live

abbrev pub Reads : {V : Type 0} → (List ℕ → Result Fault V) → V → List ℕ → Type 0
Reads f v blocks = (live : List ℕ) → Within blocks live → f live ≡ ok v

pub record Holds {R V : Type 0} (layout : Layout R V) (content : Content) (raw : R) (v : V)
    (blocks : List ℕ) : Type 0 where
  pub frees : Frees (layout.free_one content raw) blocks
  pub reads : Reads (layout.read_one content raw) v blocks

pub count-append : (a : ℕ) (xs ys : List ℕ) → count a (xs ++ ys) ≡ count a xs + count a ys
unfolding count
count-append a [] ys = omega arith
count-append a (x ∷ xs) ys = omega (arith, count-append a xs ys)

pub Within-left : (xs ys live : List ℕ) → Within (xs ++ ys) live → Within xs live
Within-left xs ys live h a = omega (arith, h a, count-append a xs ys)

pub Within-right : (xs ys live : List ℕ) → Within (xs ++ ys) live → Within ys live
Within-right xs ys live h a = omega (arith, h a, count-append a xs ys)

pub Frees-none : Frees (λ live. ok live) []
unfolding count
Frees-none live h = record { left = live; goes = refl; less = λ a. omega arith }

pub Frees-then :
    (f g : List ℕ → Result Fault (List ℕ)) {xs ys : List ℕ}
    → Frees f xs
    → Frees g ys
    → Frees (f then_free g) (xs ++ ys)
Frees-then f g {xs} {ys} first second live h =
    let one = first live (Within-left xs ys live h) in
    let two = second one.left (λ a. omega (arith, h a, one.less a, count-append a xs ys)) in
    record {
      left = two.left;
      goes = rw one.goes two.goes;
      less = λ a. omega (arith, one.less a, two.less a, count-append a xs ys);
    }

pub Frees-same :
    (f : List ℕ → Result Fault (List ℕ)) {xs ys : List ℕ}
    → SameBlocks xs ys
    → Frees f xs
    → Frees f ys
Frees-same f same frees live h =
    let freed = frees live (λ a. omega (arith, h a, same a)) in
    record { left = freed.left; goes = freed.goes; less = λ a. omega (arith, freed.less a, same a) }

-- The release of one block.
pub Frees-block : (p : ℕ) → 0 < p → Frees (free_block p) (p ∷ [])
unfolding free_block free_allocated count
Frees-block p pos live h =
    let there : 0 < count p live = omega (arith, h p, hit_self p) in
    record {
      left = remove p live;
      goes = if_false (p == 0) _ _ (ground arith) ∙ if_true _ _ _ (lt→ltb 0 (count p live) there);
      less = λ a. omega (arith, count-remove a p live there);
    }

pub Within-same : (xs ys live : List ℕ) → SameBlocks xs ys → Within ys live → Within xs live
Within-same xs ys live same h a = omega (arith, h a, same a)

-- What a struct may be to its value and to its blocks, in all contents of some kind.
pub record Owning (R V : Type 0) : Type 1 where
  pub owns : (Content → Type 0) → R → V → List ℕ → Type 0
  pub later :
      (C C' : Content → Type 0) (raw : R) (v : V) (blocks : List ℕ)
      → ((content : Content) → C' content → C content)
      → owns C raw v blocks
      → owns C' raw v blocks

abbrev pub holding : {R V : Type 0} → Layout R V → Owning R V
holding layout = record {
  owns = λ C raw v blocks. (content : Content) → C content → Holds layout content raw v blocks;
  later = λ C C' raw v blocks within h content k. h content (within content k);
}

-- The elements of a list, each with blocks of its own.
pub data Each {R V : Type 0} (P : Owning R V) (C : Content → Type 0)
    : List R → List V → List ℕ → Type 0 where
  nil : Each P C [] [] []
  cons :
      {raw : R} {raws : List R} {v : V} {vs : List V} {xs ys : List ℕ}
      → P.owns C raw v xs
      → Each P C raws vs ys
      → Each P C (raw ∷ raws) (v ∷ vs) (xs ++ ys)

pub Each-later :
    {R V : Type 0} (P : Owning R V) (C C' : Content → Type 0) (raws : List R) (vs : List V)
    (blocks : List ℕ)
    → ((content : Content) → C' content → C content)
    → Each P C raws vs blocks
    → Each P C' raws vs blocks
Each-later P C C' raws vs blocks within nil = nil
Each-later P C C' raws vs blocks within
      (cons {raw = raw} {raws = raws'} {v = v} {vs = vs'} {xs = xs} {ys = ys} head tail) =
    cons (P.later C C' raw v xs within head) (Each-later P C C' raws' vs' ys within tail)

abbrev pub each : {R V : Type 0} → Owning R V → Owning (List R) (List V)
each P = record { owns = Each P; later = Each-later P }

pub Each-Holds :
    {R V : Type 0} (P : Owning R V) (layout : Layout R V) (C : Content → Type 0) (content : Content)
    → ((raw : R) (v : V) (blocks : List ℕ)
        → P.owns C raw v blocks
        → Holds layout content raw v blocks)
    → {raws : List R} {vs : List V} {blocks : List ℕ} → Each P C raws vs blocks
    → Holds (list_layout layout) content raws vs blocks
Each-Holds P layout C content one nil = record { frees = Frees-none; reads = λ live h. refl }
Each-Holds P layout C content one (cons {raw} {raws} {v} {vs} {xs} {ys} head tail) =
    let first = one raw v xs head in
    let rest = Each-Holds P layout C content one tail in
    record {
      frees =
          Frees-then (layout.free_one content raw) (free_each (layout.free_one content) raws)
            first.frees rest.frees;
      reads = λ live h.
          rw
            (
              first.reads live (Within-left xs ys live h),
              rest.reads live (Within-right xs ys live h),
            )
            refl;
    }

pub Each-append :
    {R V : Type 0} (P : Owning R V) (C : Content → Type 0) {raws raws' : List R} {vs vs' : List V}
    {xs ys : List ℕ}
    → Each P C raws vs xs
    → Each P C raws' vs' ys
    → Each P C (raws ++ raws') (vs ++ vs') (xs ++ ys)
Each-append P C nil second = second
Each-append P C {raws' = raws'} {vs' = vs'} {ys = ys}
      (cons {raw = r} {raws = rs} {v = w} {vs = ws} {xs = b} {ys = bs} head tail) second =
    subst (Each P C (r ∷ (rs ++ raws')) (w ∷ (ws ++ vs'))) (sym (append_assoc b bs ys))
      (cons head (Each-append P C tail second))

pub Each-length :
    {R V : Type 0} (P : Owning R V) (C : Content → Type 0) {raws : List R} {vs : List V}
    {blocks : List ℕ}
    → Each P C raws vs blocks
    → length raws ≡ length vs
Each-length P C nil = refl
Each-length P C (cons head tail) = ap suc (Each-length P C tail)
