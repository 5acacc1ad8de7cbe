-- ===== src/Ownership/Counts.antt =====
-- How the lists of blocks and of objects change, counted.
use duckdb_coda.Prelude.{
  ℕ, ◌==◌, ◌+◌, ◌<◌, ◌≤◌, ==_iff, ◌≡◌, refl, some, List, [], ◌∷◌, false, arith,
}
use duckdb_coda.Ownership.{hit, count, remove, Objects, raw_of, set_raw, end_object}

-- How many objects hold a block.
unfoldable pub holders : ℕ → Objects → ℕ
unfolding hit
holders r [] = 0
holders r ((object, raw) ∷ objects) = hit r raw + holders r objects

pub hit_self : (r : ℕ) → hit r r ≡ 1
unfolding hit
hit_self r = ground arith

pub hit_zero : (r : ℕ) → 0 < r → hit r 0 ≡ 0
unfolding hit
hit_zero r pos = ground arith

pub count-remove :
    (r x : ℕ) (xs : List ℕ) → 0 < count x xs → count r (remove x xs) + hit r x ≡ count r xs
unfolding count remove hit
count-remove r x [] h = absurd (omega arith)
count-remove r x (y ∷ xs) h = ground (arith, count-remove r x xs)

pub count-new : (r x : ℕ) (xs : List ℕ) → count x xs ≡ 0 → count r xs ≤ 1 → count r (x ∷ xs) ≤ 1
unfolding count hit
count-new r x xs unused once = ground (arith, ==_iff r x)

pub holders-set_raw :
    (r this v w : ℕ) (os : Objects)
    → raw_of this os ≡ some v
    → holders r (set_raw this w os) + hit r v ≡ holders r os + hit r w
unfolding raw_of set_raw holders hit
holders-set_raw r this v w [] h = cc
holders-set_raw r this v w ((o, x) ∷ os) h = ground (arith, holders-set_raw r this v w os)

pub holders-end_object :
    (r this v : ℕ) (os : Objects)
    → raw_of this os ≡ some v
    → holders r (end_object this os) + hit r v ≡ holders r os
unfolding raw_of end_object holders hit
holders-end_object r this v [] h = cc
holders-end_object r this v ((o, x) ∷ os) h = ground (arith, holders-end_object r this v os)

pub raw_of-set_raw :
    (this v w : ℕ) (os : Objects)
    → raw_of this os ≡ some v
    → raw_of this (set_raw this w os) ≡ some w
unfolding raw_of set_raw
raw_of-set_raw this v w [] h = cc
raw_of-set_raw this v w ((o, x) ∷ os) h = ground (arith, raw_of-set_raw this v w os)

pub raw_of-set_raw_other :
    (j this w : ℕ) (os : Objects) → (j == this) ≡ false → raw_of j (set_raw this w os) ≡ raw_of j os
unfolding raw_of set_raw
raw_of-set_raw_other j this w [] h = refl
raw_of-set_raw_other j this w ((o, x) ∷ os) h = ground (arith, raw_of-set_raw_other j this w os)
