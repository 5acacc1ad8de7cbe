-- ===== src/Json/Names/Prepared.antt =====
-- What `prepare_columns` leaves: columns with names of their own, the same columns otherwise.
use duckdb_coda.Prelude.{
  ℕ, suc, ◌≡◌, refl, sym, ap, ◌∙◌, subst, Bool-cases, inl, inr, false, Option, some, List, [], ◌∷◌,
  ◌++◌, append_assoc, append-nil, map, map-append, length, is_empty, if_true, if_false, arith,
}
use duckdb_coda.Text.{Text, text_eq, eq_ignore_ascii_case}
use duckdb_coda.Text.Search.{text_eq-eq, text_eq_self}
use duckdb_coda.Text.Case.{eq_ignore_ascii_case_sym}
use duckdb_coda.Abi.{RustExtColumn}
use duckdb_coda.Json.Names.{
  base_name, candidate, is_taken, free_name, rename, prepare_from, prepare_columns,
}
use duckdb_coda.Json.Names.Candidates.{free_name-found}

-- No column's name is that of a later one, up to ASCII case.
unfoldable pub Apart : List RustExtColumn → Type 0
unfolding is_taken
Apart [] = Unit
Apart (column ∷ columns) = (is_taken column.name columns ≡ false) × Apart columns

-- A column but for its name.
abbrev pub nameless : RustExtColumn → RustExtColumn
nameless column = record column { name = [] }

rename-name : (column : RustExtColumn) (name : Text) → (rename column name).name ≡ name
unfolding rename
rename-name column name = elim (Bool-cases (text_eq name column.name)) [
  | inl same ↦ rw (rename, same) (sym (text_eq-eq name column.name same))
  | inr other ↦ rw (rename, other) refl
]

rename-nameless :
    (column : RustExtColumn) (name : Text) → nameless (rename column name) ≡ nameless column
unfolding rename
rename-nameless column name = elim (Bool-cases (text_eq name column.name)) [
  | inl same ↦ rw (rename, same) refl
  | inr other ↦ rw (rename, other) refl
]

is_taken-append :
    (name : Text) (columns : List RustExtColumn) (last : RustExtColumn)
    → is_taken name columns ≡ false
    → eq_ignore_ascii_case last.name name ≡ false
    → is_taken name (columns ++ last ∷ []) ≡ false
unfolding is_taken
is_taken-append name [] last h k = rw k refl
is_taken-append name (column ∷ columns) last h k =
    ground (arith, is_taken-append name columns last, h, k)

Apart-append :
    (columns : List RustExtColumn) (last : RustExtColumn)
    → Apart columns
    → is_taken last.name columns ≡ false
    → Apart (columns ++ last ∷ [])
unfolding Apart is_taken
Apart-append [] last apart free = (refl, tt)
Apart-append (column ∷ columns) last (first, apart) free =
    let flip = eq_ignore_ascii_case_sym last.name column.name in
    let unlike : eq_ignore_ascii_case last.name column.name ≡ false = ground (arith, flip, free) in
    let later : is_taken last.name columns ≡ false = ground (arith, free) in
    (is_taken-append column.name columns last first unlike, Apart-append columns last apart later)

-- What is left of the columns: all of them in order, under names of their own.
record Prepared (before columns : List RustExtColumn) (result : Option (List RustExtColumn))
    : Type 0 where
  pub prepared : List RustExtColumn
  pub result_eq : result ≡ some prepared
  pub apart : Apart prepared
  pub kept : map nameless prepared ≡ map nameless before ++ map nameless columns

prepare_from-Prepared :
    (before columns : List RustExtColumn)
    → Apart before
    → Prepared before columns (prepare_from before columns)
unfolding prepare_from
prepare_from-Prepared before [] apart = record {
  prepared = before;
  result_eq = refl;
  apart = apart;
  kept = sym (append-nil _);
}
prepare_from-Prepared before (column ∷ columns) apart =
    let (name, found, free) = free_name-found before (base_name column.name) in
    let renamed = rename column name in
    let free' : is_taken renamed.name before ≡ false =
      ap (λ n. is_taken n before) (rename-name column name) ∙ free in
    let rest =
      prepare_from-Prepared (before ++ renamed ∷ []) columns
        (Apart-append before renamed apart free') in
    record {
      prepared = rest.prepared;
      result_eq = rw (prepare_from, found) rest.result_eq;
      apart = rest.apart;
      kept =
          rest.kept
          ∙ ap (λ t. t ++ map nameless columns) (map-append nameless before (renamed ∷ []))
          ∙ append_assoc (map nameless before) (nameless renamed ∷ []) (map nameless columns)
          ∙ ap (λ c. map nameless before ++ (c ∷ map nameless columns))
              (rename-nameless column name);
    }

-- The search for names ends, with one candidate more than there are columns before: each column
-- gets a name that none of the others has, up to ASCII case, and nothing else of the columns, nor
-- their order, changes.
pub prepare_columns-Apart :
    (columns : List RustExtColumn)
    → (prepared : List RustExtColumn) × (prepare_columns columns ≡ some prepared)
      × Apart prepared
      × (map nameless prepared ≡ map nameless columns)
unfolding prepare_columns Apart
prepare_columns-Apart columns =
    let all = prepare_from-Prepared [] columns tt in
    (all.prepared, all.result_eq, all.apart, all.kept)

-- Every column has a name.
unfoldable pub Named : List RustExtColumn → Type 0
Named [] = Unit
Named (column ∷ columns) = (is_empty column.name ≡ false) × Named columns

is_taken-middle :
    (name : Text) (before columns : List RustExtColumn) (column : RustExtColumn)
    → is_taken name (before ++ column ∷ columns) ≡ false
    → eq_ignore_ascii_case column.name name ≡ false
unfolding is_taken
is_taken-middle name [] columns column h = ground (arith, h)
is_taken-middle name (first ∷ before) columns column h =
    is_taken-middle name before columns column (ground (arith, h))

Apart-free :
    (before columns : List RustExtColumn) (column : RustExtColumn)
    → Apart (before ++ column ∷ columns)
    → is_taken column.name before ≡ false
unfolding Apart is_taken
Apart-free [] columns column apart = refl
Apart-free (first ∷ before) columns column (free, apart) =
    let flip = eq_ignore_ascii_case_sym first.name column.name in
    let unlike = is_taken-middle first.name before columns column free in
    let later = Apart-free before columns column apart in ground (arith, flip, unlike, later)

named-kept :
    (fuel : ℕ) (before : List RustExtColumn) (column : RustExtColumn)
    → is_empty column.name ≡ false
    → is_taken column.name before ≡ false
    → (free_name (suc fuel) before (base_name column.name) 1 ≡ some column.name)
      × (rename column column.name ≡ column)
unfolding free_name base_name candidate rename
named-kept fuel before column named free = (
  rw (free_name, base_name, named) (if_false (is_taken column.name before) _ _ free),
  if_true _ _ _ (text_eq_self column.name),
)

prepare_from-unchanged :
    (before columns : List RustExtColumn)
    → Apart (before ++ columns)
    → Named columns
    → prepare_from before columns ≡ some (before ++ columns)
unfolding prepare_from Named
prepare_from-unchanged before [] apart named = ap (λ t. some t) (sym (append-nil before))
prepare_from-unchanged before (column ∷ columns) apart (named, rest) =
    let (found, same) =
      named-kept (length before) before column named (Apart-free before columns column apart) in
    let whole = append_assoc before (column ∷ []) columns in
    rw (prepare_from, found, same)
      (prepare_from-unchanged (before ++ column ∷ []) columns (subst Apart (sym whole) apart) rest
        ∙ ap (λ t. some t) whole)

-- Columns that all have a name, each its own up to ASCII case, are left as they are.
pub prepare_columns-unchanged :
    (columns : List RustExtColumn)
    → Apart columns
    → Named columns
    → prepare_columns columns ≡ some columns
unfolding prepare_columns
prepare_columns-unchanged columns apart named = prepare_from-unchanged [] columns apart named
