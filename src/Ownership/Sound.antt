-- ===== src/Ownership/Sound.antt =====
-- The wrappers free every block once: no history of an object's life frees a dead block, and none
-- leaves a block behind.
use duckdb_coda.Prelude.{
  ℕ, zero, suc, ◌==◌, ◌≡◌, refl, ap, ◌∙◌, subst, ltb, false, none, some, List, [], ◌∷◌, arith,
  Result, ok, err, and_then, Bool-cases, Option-cases, inl, inr,
}
use duckdb_coda.Ownership.{
  Fault, ruled_out, hit, count, WrapperClass, raw_of, set_raw, Memory, empty_memory, Operation,
  default_construct, destroy, construct, move_construct, move_assign, with_raw, new_object,
  allocate, reset, construct_moved, assign_moved, take_over, ended, destruct, step, run,
}
use duckdb_coda.Ownership.Counts.{
  holders, hit_self, hit_zero, count-new, holders-set_raw, holders-end_object,
}
use duckdb_coda.Ownership.Reset.{
  Releases, Owned, empty_memory-Owned, Emptied, hand_over-Owned, reset-cases, default-Owned,
}

-- How a run may end: well, or with a call that is ruled out; never with a dead block freed.
pub data Sound : Result Fault Memory → Type 0 where
  fine : {m : Memory} → Owned m → Sound (ok m)
  excluded : Sound (err ruled_out)

Sound-and_then :
    (r : Result Fault Memory) (f : Memory → Result Fault Memory)
    → Sound r
    → ((m : Memory) → Owned m → Sound (f m))
    → Sound (and_then r f)
Sound-and_then _ f (fine owned) h = h _ owned
Sound-and_then _ f excluded h = excluded

-- A step on an object that exists, or one that is ruled out.
with_raw-Sound :
    (this : ℕ) (m : Memory) (f : ℕ → Result Fault Memory)
    → ((raw : ℕ) → raw_of this m.objects ≡ some raw → Sound (f raw))
    → Sound (with_raw this m f)
unfolding with_raw
with_raw-Sound this m f h = elim (Option-cases (raw_of this m.objects)) [
  | inl none_there ↦ rw (with_raw, none_there) excluded
  | inr (raw, there) ↦ rw (with_raw, there) (h raw there)
]

new_object-Sound :
    (this raw : ℕ) (m : Memory)
    → (raw_of this m.objects ≡ none → Owned (record m { objects = (this, raw) ∷ m.objects }))
    → Sound (new_object this raw m)
unfolding new_object
new_object-Sound this raw m h = elim (Option-cases (raw_of this m.objects)) [
  | inl none_there ↦ rw (new_object, none_there) (fine (h none_there))
  | inr (old, there) ↦ rw (new_object, there) excluded
]

module _ (class : WrapperClass) (releases : Releases class) where
  -- What follows a `Reset`.
  reset-Sound :
      (this : ℕ) (m : Memory) (f : Memory → Result Fault Memory)
      → Owned m
      → ((m₁ : Memory) → Emptied class releases this m m₁ → Sound (f m₁))
      → Sound (and_then (reset class this m) f)
  reset-Sound this m f owned h = elim (reset-cases class releases this m owned) [
    | inl e ↦ rw e excluded
    | inr (m₁, emptied) ↦ rw emptied.result (h m₁ emptied)
  ]

  assign_moved-Sound :
      (this other : ℕ) (m : Memory) → Owned m → Sound (assign_moved class this other m)
  unfolding assign_moved take_over
  assign_moved-Sound this other m owned = elim (Bool-cases (this == other)) [
    | inl same ↦ rw (assign_moved, same) (fine owned)
    | inr differ ↦
        rw (assign_moved, differ)
          (reset-Sound this m _ owned (λ m₁ emptied. with_raw-Sound other m₁ _ (λ raw there. fine (
            hand_over-Owned class releases this other raw m₁ emptied.owned differ emptied.is_null
              there))))
  ]

  -- The destructor of an object whose block is gone.
  destruct-Sound : (this : ℕ) (m : Memory) → Owned m → Sound (destruct class this m)
  unfolding destruct ended
  destruct-Sound this m owned = reset-Sound this m _ owned (λ m₁ emptied.
      let now = emptied.owned in
      fine (record {
        none_null = now.none_null;
        one_owner = λ r pos. omega (
          arith,
          now.one_owner r pos,
          hit_zero r pos,
          holders-end_object r this 0 m₁.objects emptied.is_null,
        );
        exclusive = now.exclusive;
      }))

  construct_moved-Sound :
      (this other : ℕ) (m : Memory) → Owned m → Sound (construct_moved class this other m)
  unfolding construct_moved holders
  construct_moved-Sound this other m owned = with_raw-Sound other m _ (λ raw there.
      new_object-Sound this raw (record m { objects = set_raw other 0 m.objects })
        (λ fresh. record {
          none_null = owned.none_null;
          one_owner = λ r pos. omega (
            arith,
            owned.one_owner r pos,
            hit_zero r pos,
            holders-set_raw r other raw 0 m.objects there,
          );
          exclusive = owned.exclusive;
        }))

  -- The construction from a result: a null one allocates nothing, another one block.
  construct-Sound :
      (this raw : ℕ) (m : Memory)
      → Owned m
      → Sound (and_then (allocate raw m) (new_object this raw))
  unfolding allocate holders count hit
  construct-Sound this zero m owned =
      new_object-Sound this 0 m (λ fresh. default-Owned this m owned)
  construct-Sound this (suc k) m owned =
      let not_null : (suc k == 0) ≡ false = ground arith in
      elim (Bool-cases (ltb 0 (count (suc k) m.live))) [
        | inl used ↦ rw (allocate, not_null, used) excluded
        | inr unused ↦
            rw (allocate, not_null, unused)
              (new_object-Sound this (suc k) (record m { live = suc k ∷ m.live })
                (λ fresh. record {
                  none_null = ground (arith, owned.none_null);
                  one_owner = λ r pos. omega (arith, owned.one_owner r pos);
                  exclusive =
                      λ r. count-new r (suc k) m.live (ground (arith, unused)) (owned.exclusive r);
                }))
      ]

  step-Sound : (operation : Operation) (m : Memory) → Owned m → Sound (step class operation m)
  unfolding step
  step-Sound (default_construct this) m owned =
      new_object-Sound this 0 m (λ fresh. default-Owned this m owned)
  step-Sound (construct this raw) m owned = construct-Sound this raw m owned
  step-Sound (move_construct this other) m owned = construct_moved-Sound this other m owned
  step-Sound (move_assign this other) m owned = assign_moved-Sound this other m owned
  step-Sound (destroy this) m owned = destruct-Sound this m owned

  -- A history of calls.
  run-Sound : (operations : List Operation) (m : Memory) → Owned m → Sound (run class operations m)
  unfolding run
  run-Sound [] m owned = fine owned
  run-Sound (operation ∷ operations) m owned =
      Sound-and_then (step class operation m) (run class operations) (step-Sound operation m owned)
        (λ m₁ now. run-Sound operations m₁ now)

  -- Every history of calls on the objects of a wrapper class, from none, either goes through, with
  -- each allocated block held by exactly one object, or ends at a call that the language or the
  -- allocator rules out; it never frees a block that is not allocated. The class is one whose release
  -- function frees a block that is allocated and does nothing with null.
  pub run-Sound_start : (operations : List Operation) → Sound (run class operations empty_memory)
  run-Sound_start operations = run-Sound operations empty_memory empty_memory-Owned

  pub run-Owned :
      (operations : List Operation) {m : Memory}
      → run class operations empty_memory ≡ ok m
      → Owned m
  run-Owned operations h = owned_of (subst Sound h (run-Sound_start operations))
    where
      owned_of : {m : Memory} → Sound (ok m) → Owned m
      owned_of (fine owned) = owned

  count-nil : (xs : List ℕ) → ((r : ℕ) → count r xs ≡ 0) → xs ≡ []
  unfolding count
  count-nil [] h = refl
  count-nil (x ∷ xs) h = absurd (omega (arith, h x, hit_self x))

  -- Nothing is left allocated by a history of calls, from none, that goes through and at whose end
  -- no object exists. The class is one whose release function frees a block that is allocated and
  -- does nothing with null.
  pub run-no_leak :
      (operations : List Operation) {m : Memory}
      → run class operations empty_memory ≡ ok m
      → m.objects ≡ []
      → m.live ≡ []
  unfolding holders
  run-no_leak operations {m} h gone =
      let owned = run-Owned operations h in count-nil m.live (none_left owned)
    where
      none_left : Owned m → (r : ℕ) → count r m.live ≡ 0
      none_left owned zero = owned.none_null
      none_left owned (suc k) = owned.one_owner (suc k) (omega arith) ∙ ap (holders (suc k)) gone
