-- ===== src/Prelude/Lists.antt =====
-- Lists measured and indexed by native numbers, under the library's names, and the counted loop
-- `for (i = 0; i < n; i++) result.push_back(f(i))` as `tabulate`.
use Prim.Native.Nat.{ℕ, zero, suc, ◌+◌, ◌*◌, ◌<◌, ◌≤◌}
use mathlib.Core.Path.{◌≡◌, refl, ap, ap₂, ◌∙◌}
use mathlib.Core.Bool.{Bool, true, false}
use mathlib.Core.List.{List, [], ◌∷◌, ◌++◌, map, flatten, map-append}
use mathlib.Core.Option.{Option, none, some}
use native.Mathlib.Omega.{arith}
use duckdb_coda.Prelude.Tests.{if◌then◌else◌}

module _ {ℓ} {A : Type ℓ} where
  abbrev pub length : List A → ℕ
  length [] = 0
  length (x ∷ xs) = suc (length xs)

  abbrev pub get_elem? : List A → ℕ → Option A
  get_elem? [] i = none
  get_elem? (x ∷ xs) zero = some x
  get_elem? (x ∷ xs) (suc i) = get_elem? xs i

  abbrev pub take : ℕ → List A → List A
  take zero xs = []
  take (suc n) [] = []
  take (suc n) (x ∷ xs) = x ∷ take n xs

  abbrev pub drop : ℕ → List A → List A
  drop zero xs = xs
  drop (suc n) [] = []
  drop (suc n) (x ∷ xs) = drop n xs

  abbrev pub is_empty : List A → Bool
  is_empty [] = true
  is_empty (x ∷ xs) = false

  -- The elements that pass a Boolean test.
  abbrev pub keep : (A → Bool) → List A → List A
  keep p [] = []
  keep p (x ∷ xs) = if p x then x ∷ keep p xs else keep p xs

  abbrev pub tabulate : ℕ → (ℕ → A) → List A
  tabulate zero f = []
  tabulate (suc n) f = f 0 ∷ tabulate n (λ i. f (suc i))

module _ {ℓ} {A : Type ℓ} where
  pub is_empty-eq : (xs : List A) → is_empty xs ≡ true → xs ≡ []
  is_empty-eq [] h = refl
  is_empty-eq (x ∷ xs) h = cc

  pub is_empty-pos : (xs : List A) → is_empty xs ≡ false → 0 < length xs
  is_empty-pos [] h = cc
  is_empty-pos (x ∷ xs) h = omega arith

  pub is_empty_of_pos : (xs : List A) → 0 < length xs → is_empty xs ≡ false
  is_empty_of_pos [] h = absurd (omega arith)
  is_empty_of_pos (x ∷ xs) h = refl

  pub length-append : (xs ys : List A) → length (xs ++ ys) ≡ length xs + length ys
  length-append [] ys = omega arith
  length-append (x ∷ xs) ys = omega (arith, length-append xs ys)

  pub length-tabulate : (n : ℕ) (f : ℕ → A) → length (tabulate n f) ≡ n
  length-tabulate zero f = refl
  length-tabulate (suc n) f = ap suc (length-tabulate n (λ i. f (suc i)))

  pub take-append_self : (xs ys : List A) → take (length xs) (xs ++ ys) ≡ xs
  take-append_self [] ys = refl
  take-append_self (x ∷ xs) ys = ap (λ (t : List A). x ∷ t) (take-append_self xs ys)

  pub drop-append_self : (xs ys : List A) → drop (length xs) (xs ++ ys) ≡ ys
  drop-append_self [] ys = refl
  drop-append_self (x ∷ xs) ys = drop-append_self xs ys

  pub drop-all : (n : ℕ) (xs : List A) → length xs ≤ n → drop n xs ≡ []
  drop-all zero [] h = refl
  drop-all zero (x ∷ xs) h = absurd (omega arith)
  drop-all (suc n) [] h = refl
  drop-all (suc n) (x ∷ xs) h = drop-all n xs (omega arith)

  -- An index in range reads the head of what is left from it on.
  pub drop-get_elem? :
      (n : ℕ) (xs : List A)
      → n < length xs
      → (x : A) × (get_elem? xs n ≡ some x) × (drop n xs ≡ x ∷ drop (suc n) xs)
  drop-get_elem? n [] h = absurd (omega arith)
  drop-get_elem? zero (x ∷ xs) h = (x, refl, refl)
  drop-get_elem? (suc n) (x ∷ xs) h = let (y, e, d) = drop-get_elem? n xs (omega arith) in (y, e, d)

  pub take-append_left : (k : ℕ) (xs ys : List A) → length xs ≡ k → take k (xs ++ ys) ≡ xs
  take-append_left zero [] ys h = refl
  take-append_left zero (x ∷ xs) ys h = absurd (omega arith)
  take-append_left (suc k) [] ys h = absurd (omega arith)
  take-append_left (suc k) (x ∷ xs) ys h =
      ap (λ (t : List A). x ∷ t) (take-append_left k xs ys (omega arith))

  pub drop-append_add :
      (k m : ℕ) (xs ys : List A) → length xs ≡ k → drop (k + m) (xs ++ ys) ≡ drop m ys
  drop-append_add k m [] ys h = let e : k + m ≡ m = omega arith in rw e
  drop-append_add zero m (x ∷ xs) ys h = absurd (omega arith)
  drop-append_add (suc k) m (x ∷ xs) ys h =
      let e : suc k + m ≡ suc (k + m) = omega arith in
      rw e (drop-append_add k m xs ys (omega arith))

pub tabulate-ext {ℓ} :
    {A : Type ℓ} (n : ℕ) (f g : ℕ → A) → ((i : ℕ) → i < n → f i ≡ g i) → tabulate n f ≡ tabulate n g
tabulate-ext zero f g h = refl
tabulate-ext (suc n) f g h =
    ap₂ (λ a t. a ∷ t) (h 0 (omega arith))
      (tabulate-ext n (λ i. f (suc i)) (λ i. g (suc i)) (λ i lt. h (suc i) (omega arith)))

-- The slice `values[i * k .. i * k + k]` of a row-major matrix is its row `i`.
pub slice-flatten-tabulate {ℓ} :
    {A : Type ℓ} (k : ℕ) (n i : ℕ) (f : ℕ → List A)
    → ((j : ℕ) → length (f j) ≡ k)
    → i < n
    → take k (drop (i * k) (flatten (tabulate n f))) ≡ f i
unfolding flatten
slice-flatten-tabulate k zero i f h lt = absurd (omega arith)
slice-flatten-tabulate k (suc n) zero f h lt =
    let e : 0 * k ≡ 0 = omega arith in rw e (take-append_left k (f 0) _ (h 0))
slice-flatten-tabulate k (suc n) (suc i) f h lt =
    let e : suc i * k ≡ k + i * k = omega arith in
    rw (e, drop-append_add k (i * k) (f 0) (flatten (tabulate n (λ j. f (suc j)))) (h 0))
      (slice-flatten-tabulate k n i (λ j. f (suc j)) (λ j. h (suc j)) (omega arith))

pub length-flatten-tabulate {ℓ} :
    {A : Type ℓ} (k n : ℕ) (f : ℕ → List A)
    → ((j : ℕ) → length (f j) ≡ k)
    → length (flatten (tabulate n f)) ≡ n * k
unfolding flatten
length-flatten-tabulate k zero f h = omega arith
length-flatten-tabulate k (suc n) f h =
    rw length-append
      (omega (arith, h 0, length-flatten-tabulate k n (λ j. f (suc j)) (λ j. h (suc j))))

pub length-map {ℓ κ} :
    {A : Type ℓ} {B : Type κ} (f : A → B) (xs : List A) → length (map f xs) ≡ length xs
length-map f [] = refl
length-map f (x ∷ xs) = ap suc (length-map f xs)

pub map-tabulate {ℓ κ} :
    {A : Type ℓ} {B : Type κ} (f : A → B) (n : ℕ) (g : ℕ → A)
    → map f (tabulate n g) ≡ tabulate n (λ i. f (g i))
map-tabulate f zero g = refl
map-tabulate f (suc n) g = ap (λ t. f (g 0) ∷ t) (map-tabulate f n (λ i. g (suc i)))

pub map-flatten {ℓ κ} :
    {A : Type ℓ} {B : Type κ} (f : A → B) (xss : List (List A))
    → map f (flatten xss) ≡ flatten (map (map f) xss)
unfolding flatten
map-flatten f [] = refl
map-flatten f (xs ∷ xss) =
    map-append f xs (flatten xss) ∙ ap (λ t. map f xs ++ t) (map-flatten f xss)
