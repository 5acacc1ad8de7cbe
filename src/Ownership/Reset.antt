-- ===== src/Ownership/Reset.antt =====
-- What `Reset` of a wrapper object leaves, and that each allocated block keeps one wrapper.
use duckdb_coda.Prelude.{
  ℕ, zero, suc, ◌==◌, ◌+◌, ◌<◌, ◌≤◌, ◌≡◌, refl, ◌∙◌, ◌⊎◌, false, some, List, ◌∷◌, arith, Result, ok,
  err, Option-cases, inl, inr,
}
use duckdb_coda.Ownership.{
  Fault, ruled_out, hit, count, remove, WrapperClass, Objects, raw_of, set_raw, Memory,
  empty_memory, with_raw, reset,
}
use duckdb_coda.Ownership.Counts.{
  holders, hit_self, hit_zero, count-remove, holders-set_raw, holders-end_object, raw_of-set_raw,
  raw_of-set_raw_other,
}

-- What the release function of a class is to do.
pub record Releases (class : WrapperClass) : Type 0 where
  pub release_null : (live : List ℕ) → class.release 0 live ≡ ok live
  pub release_live :
      (raw : ℕ) (live : List ℕ)
      → 0 < raw
      → 0 < count raw live
      → class.release raw live ≡ ok (remove raw live)

-- Each allocated block has one wrapper, and each wrapper's block is allocated.
pub record Owned (m : Memory) : Type 0 where
  pub none_null : count 0 m.live ≡ 0
  pub one_owner : (r : ℕ) → 0 < r → count r m.live ≡ holders r m.objects
  pub exclusive : (r : ℕ) → count r m.live ≤ 1

pub empty_memory-Owned : Owned empty_memory
unfolding count holders
empty_memory-Owned = record {
  none_null = refl;
  one_owner = λ r pos. refl;
  exclusive = λ r. omega arith;
}

-- An object that exists holds its block.
pub holders-raw_of : (this v : ℕ) (os : Objects) → raw_of this os ≡ some v → 0 < holders v os
holders-raw_of this v os h = omega (arith, holders-end_object v this v os h, hit_self v)

pub with_raw-some :
    {A : Type 0} (this raw : ℕ) (m : Memory) (f : ℕ → Result Fault A)
    → raw_of this m.objects ≡ some raw
    → with_raw this m f ≡ f raw
unfolding with_raw
with_raw-some this raw m f h = rw (with_raw, h)

pub default-Owned :
    (this : ℕ) (m : Memory) → Owned m → Owned (record m { objects = (this, 0) ∷ m.objects })
unfolding holders
default-Owned this m owned = record {
  none_null = owned.none_null;
  one_owner = λ r pos. omega (arith, owned.one_owner r pos, hit_zero r pos);
  exclusive = owned.exclusive;
}

module _ (class : WrapperClass) (releases : Releases class) where
  -- What `Reset` leaves.
  pub record Emptied (this : ℕ) (m : Memory) (m₁ : Memory) : Type 0 where
    pub owned : Owned m₁
    pub is_null : raw_of this m₁.objects ≡ some 0
    pub result : reset class this m ≡ ok m₁

  set-null-Owned :
      (this raw : ℕ) (m : Memory) (live : List ℕ)
      → Owned m
      → raw_of this m.objects ≡ some raw
      → ((r : ℕ) → 0 < r → count r live + hit r raw ≡ count r m.live)
      → ((r : ℕ) → count r live ≤ count r m.live)
      → Owned (record { live = live; objects = set_raw this 0 m.objects })
  set-null-Owned this raw m live owned h counts fewer = record {
    none_null = omega (arith, fewer 0, owned.none_null);
    one_owner = λ r pos. omega (
      arith,
      counts r pos,
      owned.one_owner r pos,
      holders-set_raw r this raw 0 m.objects h,
      hit_zero r pos,
    );
    exclusive = λ r. omega (arith, fewer r, owned.exclusive r);
  }

  pub reset-released :
      (this raw : ℕ) (m : Memory) (live : List ℕ)
      → raw_of this m.objects ≡ some raw
      → class.release raw m.live ≡ ok live
      → reset class this m ≡ ok (record { live = live; objects = set_raw this 0 m.objects })
  unfolding reset
  reset-released this raw m live h released = with_raw-some this raw m _ h ∙ rw released

  reset-Emptied :
      (this raw : ℕ) (m : Memory)
      → Owned m
      → raw_of this m.objects ≡ some raw
      → (m₁ : Memory) × Emptied this m m₁
  reset-Emptied this zero m owned h = (
    record { live = m.live; objects = set_raw this 0 m.objects },
    record {
      owned =
          set-null-Owned this 0 m m.live owned h (λ r pos. omega (arith, hit_zero r pos))
            (λ r. omega arith);
      is_null = raw_of-set_raw this 0 0 m.objects h;
      result = reset-released this 0 m m.live h (releases.release_null m.live);
    },
  )
  reset-Emptied this (suc k) m owned h =
      let raw = suc k in
      let pos : 0 < raw = omega arith in
      let alive : 0 < count raw m.live =
        omega (arith, owned.one_owner raw pos, holders-raw_of this raw m.objects h) in
      let counts = λ (r : ℕ). count-remove r raw m.live alive in
      (
        record { live = remove raw m.live; objects = set_raw this 0 m.objects },
        record {
          owned =
              set-null-Owned this raw m (remove raw m.live) owned h (λ r _. counts r)
                (λ r. omega (arith, counts r));
          is_null = raw_of-set_raw this raw 0 m.objects h;
          result =
              reset-released this raw m (remove raw m.live) h
                (releases.release_live raw m.live pos alive);
        },
      )

  -- An object takes over the block of another, which is left with none.
  pub hand_over-Owned :
      (this other raw : ℕ) (m : Memory)
      → Owned m
      → (this == other) ≡ false
      → raw_of this m.objects ≡ some 0
      → raw_of other m.objects ≡ some raw
      → Owned (record m { objects = set_raw other 0 (set_raw this raw m.objects) })
  hand_over-Owned this other raw m owned differ h k =
      let k' : raw_of other (set_raw this raw m.objects) ≡ some raw =
        raw_of-set_raw_other other this raw m.objects (ground (arith, differ)) ∙ k in
      record {
        none_null = owned.none_null;
        one_owner = λ r pos. omega (
          arith,
          owned.one_owner r pos,
          hit_zero r pos,
          holders-set_raw r this 0 raw m.objects h,
          holders-set_raw r other raw 0 (set_raw this raw m.objects) k',
        );
        exclusive = owned.exclusive;
      }

  -- `Reset` on an object that exists empties it; on another, the call is ruled out.
  pub reset-cases :
      (this : ℕ) (m : Memory)
      → Owned m
      → (reset class this m ≡ err ruled_out) ⊎ ((m₁ : Memory) × Emptied this m m₁)
  unfolding reset with_raw
  reset-cases this m owned = elim (Option-cases (raw_of this m.objects)) [
    | inl none_there ↦ inl (rw (reset, with_raw, none_there))
    | inr (raw, there) ↦ inr (reset-Emptied this raw m owned there)
  ]
