-- ===== src/Json/Names/Candidates.antt =====
-- The candidates for a name are all different up to case, so that as many columns as are before it
-- cannot take them all.
use duckdb_coda.Prelude.{
  ℕ, zero, suc, ◌+◌, ◌==◌, ==_iff, Option-cases, ◌<◌, ◌≤◌, ◌≡◌, ◌≢◌, refl, sym, ap, ◌∙◌, subst,
  Bool-cases, inl, inr, true, false, not, none, some, List, [], ◌∷◌, ◌++◌, map, map-append, length,
  length-map, length-append, drop, drop-append_self, keep, if_true, if_false, arith,
}
use duckdb_coda.Text.{Text, codes, to_ascii_lower, eq_ignore_ascii_case}
use duckdb_coda.Text.Search.{text_eq-eq}
use duckdb_coda.Text.Case.{eq_ignore_ascii_case_sym, eq_ignore_ascii_case_trans}
use duckdb_coda.Abi.{RustExtColumn}
use duckdb_coda.Sdk.{decimal}
use duckdb_coda.Json.Names.{candidate, is_taken, free_name}
use duckdb_coda.Json.Names.Decimal.{decimal-lower, decimal-injective}

lower-eq :
    (s t : Text) → eq_ignore_ascii_case s t ≡ true → map to_ascii_lower s ≡ map to_ascii_lower t
unfolding eq_ignore_ascii_case
lower-eq s t h = text_eq-eq _ _ h

cancel : (xs ys zs : Text) → xs ++ ys ≡ xs ++ zs → ys ≡ zs
cancel xs ys zs h = sym (drop-append_self xs ys) ∙ ap (drop (length xs)) h ∙ drop-append_self xs zs

candidate-later :
    (base : Text) (s : ℕ) → 1 < s → candidate base s ≡ base ++ (codes "_" ++ decimal s)
unfolding candidate
candidate-later base s h = if_false (s == 1) _ _ (ground arith)

candidate-first : (base : Text) → candidate base 1 ≡ base
unfolding candidate
candidate-first base = refl

lower-candidate :
    (base : Text) (s : ℕ)
    → 1 < s
    → map to_ascii_lower (candidate base s) ≡ map to_ascii_lower base ++ (codes "_" ++ decimal s)
unfolding to_ascii_lower
lower-candidate base s h =
    ap (map to_ascii_lower) (candidate-later base s h)
    ∙ map-append to_ascii_lower base (codes "_" ++ decimal s)
    ∙ ap (λ d. map to_ascii_lower base ++ (codes "_" ++ d)) (decimal-lower s)

candidates-differ :
    (base : Text) (s t : ℕ)
    → 0 < s
    → s < t
    → eq_ignore_ascii_case (candidate base s) (candidate base t) ≢ true
candidates-differ base (suc zero) t pos less same =
    let lowered = ap length (lower-eq _ _ same ∙ lower-candidate base t (omega arith)) in
    omega (
      arith,
      lowered,
      length-map to_ascii_lower (candidate base 1),
      ap length (candidate-first base),
      length-map to_ascii_lower base,
      length-append (map to_ascii_lower base) (codes "_" ++ decimal t),
    )
candidates-differ base (suc (suc k)) t pos less same =
    let s = suc (suc k) in
    let lowered =
      sym (lower-candidate base s (omega arith))
      ∙ lower-eq _ _ same
      ∙ lower-candidate base t (omega arith) in
    let digits = ap (drop 1) (
      cancel (map to_ascii_lower base) (codes "_" ++ decimal s) (codes "_" ++ decimal t) lowered) in
    let equal = decimal-injective s t digits in omega (arith, equal)
candidates-differ base zero t pos less same = absurd (omega arith)

-- The columns whose name is another one.
unfoldable without : Text → List RustExtColumn → List RustExtColumn
without name columns = keep (λ column. not (eq_ignore_ascii_case column.name name)) columns

without-short :
    (name : Text) (columns : List RustExtColumn) → length (without name columns) ≤ length columns
unfolding without
without-short name [] = omega arith
without-short name (column ∷ columns) = elim (Bool-cases (eq_ignore_ascii_case column.name name)) [
  | inl same ↦ rw (without, same) (omega (arith, without-short name columns))
  | inr other ↦ rw (without, other) (omega (arith, without-short name columns))
]

without-shorter :
    (name : Text) (columns : List RustExtColumn)
    → is_taken name columns ≡ true
    → length (without name columns) < length columns
unfolding without is_taken
without-shorter name [] h = cc h
without-shorter name (column ∷ columns) h =
    elim (Bool-cases (eq_ignore_ascii_case column.name name)) [
      | inl same ↦ rw (without, same) (omega (arith, without-short name columns))
      | inr other ↦
          rw (without, other)
            (omega (arith, without-shorter name columns (ground (arith, other, h))))
    ]

-- A name that is taken, up to case, is still taken without the columns of a different name.
is_taken-without :
    (name gone : Text) (columns : List RustExtColumn)
    → eq_ignore_ascii_case gone name ≢ true
    → is_taken name columns ≡ true
    → is_taken name (without gone columns) ≡ true
unfolding without is_taken
is_taken-without name gone [] differ h = h
is_taken-without name gone (column ∷ columns) differ h =
    elim (Bool-cases (eq_ignore_ascii_case column.name gone)) [
      | inl same ↦
          let unlike : eq_ignore_ascii_case column.name name ≢ true = λ like. differ (
            eq_ignore_ascii_case_trans gone column.name name
              (eq_ignore_ascii_case_sym column.name gone same) like) in
          rw (without, same) (is_taken-without name gone columns differ (ground (arith, unlike, h)))
      | inr other ↦
          let later = is_taken-without name gone columns differ in
          rw (without, other) (ground (arith, later, h))
    ]

-- Only as many candidates are taken as there are columns.
all_taken-few :
    (fuel s : ℕ) (base : Text) (columns : List RustExtColumn)
    → 0 < s
    → ((i : ℕ) → s ≤ i → i < s + fuel → is_taken (candidate base i) columns ≡ true)
    → fuel ≤ length columns
all_taken-few zero s base columns pos taken = omega arith
all_taken-few (suc fuel) s base columns pos taken =
    let name = candidate base s in
    let first = taken s (omega arith) (omega arith) in
    let few = all_taken-few fuel (suc s) base (without name columns) (omega arith) (λ i low high.
      is_taken-without (candidate base i) name columns
        (candidates-differ base s i pos (omega arith)) (taken i (omega arith) (omega arith))) in
    omega (arith, few, without-shorter name columns first)

free_name-none :
    (fuel s : ℕ) (base : Text) (columns : List RustExtColumn)
    → free_name fuel columns base s ≡ none
    → (i : ℕ) → s ≤ i
    → i < s + fuel
    → is_taken (candidate base i) columns ≡ true
unfolding free_name
free_name-none zero s base columns h i low high = absurd (omega arith)
free_name-none (suc fuel) s base columns h i low high =
    elim (Bool-cases (is_taken (candidate base s) columns)) [
      | inr free ↦ cc (sym (if_false (is_taken (candidate base s) columns) _ _ free) ∙ h)
      | inl taken ↦ elim (Bool-cases (s == i)) [
        | inl same ↦
            subst (λ j. is_taken (candidate base j) columns ≡ true) ((==_iff s i).0 same) taken
        | inr other ↦
            free_name-none fuel (suc s) base columns
              (sym (if_true (is_taken (candidate base s) columns) _ _ taken) ∙ h) i
              (ground (arith, other, low)) (omega (arith, high))
      ]
    ]

free_name-free :
    (fuel s : ℕ) (base name : Text) (columns : List RustExtColumn)
    → free_name fuel columns base s ≡ some name
    → is_taken name columns ≡ false
unfolding free_name
free_name-free zero s base name columns h = cc h
free_name-free (suc fuel) s base name columns h =
    elim (Bool-cases (is_taken (candidate base s) columns)) [
      | inl taken ↦
          free_name-free fuel (suc s) base name columns
            (sym (if_true (is_taken (candidate base s) columns) _ _ taken) ∙ h)
      | inr free ↦
          let same : candidate base s ≡ name = cc (
            sym (
              if_false (is_taken (candidate base s) columns) (free_name fuel columns base (suc s))
                (some (candidate base s)) free)
            ∙ h) in
          subst (λ n. is_taken n columns ≡ false) same free
    ]

-- Trying one candidate more than there are columns finds a name that is free.
pub free_name-found :
    (columns : List RustExtColumn) (base : Text)
    → (name : Text) × (free_name (suc (length columns)) columns base 1 ≡ some name)
      × (is_taken name columns ≡ false)
free_name-found columns base =
    elim (Option-cases (free_name (suc (length columns)) columns base 1)) [
      | inl not_found ↦
          let few =
            all_taken-few (suc (length columns)) 1 base columns (omega arith)
              (free_name-none (suc (length columns)) 1 base columns not_found) in
          absurd (omega (arith, few))
      | inr (name, found) ↦
          (name, found, free_name-free (suc (length columns)) 1 base name columns found)
    ]
