-- ===== src/Ownership/Replace.antt =====
-- The assignment of a new result, as `LoadCatalog` and the refill of a scan make it: the old block
-- is released, the new one taken over.
use duckdb_coda.Prelude.{
  ℕ, zero, suc, ◌==◌, ==_iff, ◌+◌, ◌<◌, ◌≡◌, ◌≢◌, refl, sym, ap, ◌∙◌, subst, ltb, true, false, none,
  some, List, [], ◌∷◌, arith, Result, ok, and_then, if_true, if_false,
}
use duckdb_coda.Ownership.{
  Fault, hit, count, remove, WrapperClass, Objects, raw_of, set_raw, end_object, Memory, construct,
  move_assign, destroy, new_object, allocate, reset, assign_moved, take_over, ended, destruct, step,
  run, assign_result,
}
use duckdb_coda.Ownership.Reset.{Releases, Owned, with_raw-some, reset-released, holders-raw_of}

-- The blocks once the old one is released.
unfoldable pub released : ℕ → List ℕ → List ℕ
unfolding remove
released zero live = live
released (suc k) live = remove (suc k) live

set_raw_twice :
    (this v w : ℕ) (os : Objects) → set_raw this w (set_raw this v os) ≡ set_raw this w os
unfolding set_raw
set_raw_twice this v w [] = refl
set_raw_twice this v w ((o, x) ∷ os) = ground (arith, set_raw_twice this v w os)

-- An object that exists is not one that does not.
differ_of :
    (this temporary old : ℕ) (os : Objects)
    → raw_of this os ≡ some old
    → raw_of temporary os ≡ none
    → this ≢ temporary
differ_of this temporary old os h k same = cc (h, subst (λ t. raw_of t os ≡ none) (sym same) k)

module _ (o x : ℕ) (os : Objects) where
  self : (o == o) ≡ true
  self = ground arith

  raw_of-here : raw_of o ((o, x) ∷ os) ≡ some x
  unfolding raw_of
  raw_of-here = if_true (o == o) _ _ self

  set_raw-here : (v : ℕ) → set_raw o v ((o, x) ∷ os) ≡ (o, v) ∷ os
  unfolding set_raw
  set_raw-here v = if_true (o == o) _ _ self

  end_object-here : end_object o ((o, x) ∷ os) ≡ os
  unfolding end_object
  end_object-here = if_true (o == o) _ _ self

  set_raw-past : (j v : ℕ) → (j == o) ≡ false → set_raw j v ((o, x) ∷ os) ≡ (o, x) ∷ set_raw j v os
  unfolding set_raw
  set_raw-past j v h = if_false (j == o) _ _ h

  raw_of-past : (j : ℕ) → (j == o) ≡ false → raw_of j ((o, x) ∷ os) ≡ raw_of j os
  unfolding raw_of
  raw_of-past j h = if_false (j == o) _ _ h

count-cons : (b x : ℕ) (xs : List ℕ) → count b (x ∷ xs) ≡ hit b x + count b xs
unfolding count
count-cons b x xs = refl

remove-past : (r x : ℕ) (xs : List ℕ) → (r == x) ≡ false → remove r (x ∷ xs) ≡ x ∷ remove r xs
unfolding remove
remove-past r x xs h = if_false (r == x) _ _ h

module _ (class : WrapperClass) (releases : Releases class) (this temporary raw old : ℕ)
    (m : Memory) (owned : Owned m) (there : raw_of this m.objects ≡ some old)
    (absent : raw_of temporary m.objects ≡ none) (not_null : 0 < raw)
    (unused : count raw m.live ≡ 0) where
  -- The memory with the result in the temporary, and with it moved.
  abbrev constructed : Memory
  constructed = record { live = raw ∷ m.live; objects = (temporary, raw) ∷ m.objects }

  abbrev emptied : Memory
  emptied = record {
    live = raw ∷ released old m.live;
    objects = (temporary, raw) ∷ set_raw this 0 m.objects;
  }

  abbrev moved : Memory
  moved = record {
    live = raw ∷ released old m.live;
    objects = (temporary, 0) ∷ set_raw this raw (set_raw this 0 m.objects);
  }

  apart : (this == temporary) ≡ false
  apart = ground (arith, ==_iff this temporary, differ_of this temporary old m.objects there absent)

  construct-constructed : step class (construct temporary raw) m ≡ ok constructed
  unfolding step allocate new_object
  construct-constructed =
      let fresh : ltb 0 (count raw m.live) ≡ false = ground (arith, unused) in
      ap (λ r. and_then r (new_object temporary raw))
        (if_false (raw == 0) _ _ (ground arith) ∙ if_false _ _ _ fresh)
      ∙ rw (new_object, absent)

  held_still : (b : ℕ) → 0 < count b m.live → 0 < count b (raw ∷ m.live)
  held_still b held = omega (arith, held, count-cons b raw m.live)

  other_block : (b : ℕ) → 0 < count b m.live → (b == raw) ≡ false
  other_block b held = ground (arith, unused, ==_iff b raw)

  release-old :
      (block : ℕ)
      → raw_of this m.objects ≡ some block
      → class.release block (raw ∷ m.live) ≡ ok (raw ∷ released block m.live)
  unfolding released
  release-old zero h = releases.release_null (raw ∷ m.live)
  release-old (suc k) h =
      let held : 0 < count (suc k) m.live =
        omega
          (arith, owned.one_owner (suc k) (omega arith), holders-raw_of this (suc k) m.objects h) in
      releases.release_live (suc k) (raw ∷ m.live) (omega arith) (held_still (suc k) held)
      ∙ ap ok (remove-past (suc k) raw m.live (other_block (suc k) held))

  reset-emptied : reset class this constructed ≡ ok emptied
  reset-emptied =
      reset-released class releases this old constructed (raw ∷ released old m.live)
        (raw_of-past temporary raw m.objects this apart ∙ there) (release-old old there)
      ∙ ap (λ os. ok (record { live = raw ∷ released old m.live; objects = os }))
          (set_raw-past temporary raw m.objects this 0 apart)

  assign-moved : step class (move_assign this temporary) constructed ≡ ok moved
  unfolding step assign_moved take_over
  assign-moved =
      let rest = set_raw this 0 m.objects in
      let take : ℕ → Result Fault Memory = λ block.
        ok
          (record emptied { objects = set_raw temporary 0 (set_raw this block emptied.objects) }) in
      if_false (this == temporary) _ _ apart
      ∙ ap (λ r. and_then r (take_over class this temporary)) reset-emptied
      ∙ with_raw-some temporary raw emptied take (raw_of-here temporary raw rest)
      ∙ ap (λ os. ok (record { live = raw ∷ released old m.live; objects = os }))
          (ap (set_raw temporary 0) (set_raw-past temporary raw rest this raw apart)
            ∙ set_raw-here temporary raw (set_raw this raw rest) 0)

  destroy-moved :
      step class (destroy temporary) moved
      ≡ ok (record { live = raw ∷ released old m.live; objects = set_raw this raw m.objects })
  unfolding step destruct ended
  destroy-moved =
      let rest = set_raw this raw (set_raw this 0 m.objects) in
      let live = raw ∷ released old m.live in
      ap (λ r. and_then r (ended class temporary))
        (reset-released class releases temporary 0 moved live (raw_of-here temporary 0 rest)
          (releases.release_null live))
      ∙ ap (λ os. ok (record { live = live; objects = os }))
          (ap (end_object temporary) (set_raw-here temporary 0 rest 0)
            ∙ end_object-here temporary 0 rest
            ∙ set_raw_twice this 0 raw m.objects)

  -- A new result assigned to an object: the block that the object held is released, and nothing else;
  -- the object holds the new block, which comes with it, and the temporary is gone. The object exists
  -- and the temporary does not, the new block is not null and was not allocated, each block has one
  -- wrapper before, and the class is one whose release function frees a block that is allocated and
  -- does nothing with null.
  pub run-assign_result :
      run class (assign_result this temporary raw) m
      ≡ ok (record { live = raw ∷ released old m.live; objects = set_raw this raw m.objects })
  unfolding run
  run-assign_result = rw (construct-constructed, assign-moved, destroy-moved) refl
