-- ===== src/Json/Names.antt =====
-- The names of the columns of a table, `prepare_columns` and `append_row_metadata` of src/json.rs:
-- every column gets a name of its own, up to ASCII case.
pub mod Decimal
pub mod Candidates
pub mod Prepared
use duckdb_coda.Prelude.{
  ℕ, zero, suc, ◌==◌, bit_or, Bool, false, ◌||◌, Option, none, some, List, [], ◌∷◌, ◌++◌, length,
  is_empty, if◌then◌else◌,
}
use duckdb_coda.Text.{Text, codes, text_eq, eq_ignore_ascii_case}
use duckdb_coda.Abi.{RustExtColumn, column_generated, column_system, column_sort_asc}
use duckdb_coda.Sdk.{decimal}

-- `original`, or a name for a column without one.
unfoldable pub base_name : Text → Text
base_name original = if is_empty original then codes "column" else original

-- The candidate of a suffix: the base itself, then `{base}_2` and so on.
unfoldable pub candidate : Text → ℕ → Text
unfolding decimal
candidate base suffix = if suffix == 1 then base else base ++ (codes "_" ++ decimal suffix)

-- Whether a column before has the name, up to ASCII case.
unfoldable pub is_taken : Text → List RustExtColumn → Bool
unfolding eq_ignore_ascii_case
is_taken name [] = false
is_taken name (column ∷ columns) = eq_ignore_ascii_case column.name name || is_taken name columns

-- The `while` loop; the fuel bounds the candidates that are tried.
unfoldable pub free_name : ℕ → List RustExtColumn → Text → ℕ → Option Text
unfolding candidate is_taken
free_name zero before base suffix = none
free_name (suc fuel) before base suffix =
    let rest = free_name fuel before base (suc suffix) in
    if is_taken (candidate base suffix) before then rest else some (candidate base suffix)

unfoldable pub rename : RustExtColumn → Text → RustExtColumn
unfolding text_eq
rename column name = if text_eq name column.name then column else record column { name = name }

-- The `for` loop, with the columns that it has been over; one candidate more than there are columns
-- before is tried at most.
unfoldable pub prepare_from : List RustExtColumn → List RustExtColumn → Option (List RustExtColumn)
unfolding free_name rename base_name
prepare_from before [] = some before
prepare_from before (column ∷ columns) =
    elim (free_name (suc (length before)) before (base_name column.name) 1) [
      | none ↦ none
      | some name ↦ prepare_from (before ++ rename column name ∷ []) columns
    ]

-- `prepare_columns`
unfoldable pub prepare_columns : List RustExtColumn → Option (List RustExtColumn)
unfolding prepare_from
prepare_columns columns = prepare_from [] columns

abbrev pub metadata_column : Text → RustExtColumn
metadata_column name = record {
  id = name;
  name = name;
  type_name = codes "timestampTz";
  capabilities = bit_or (bit_or column_generated column_system) column_sort_asc;
  logical_type = 3;
}

-- `append_row_metadata`
unfoldable pub append_row_metadata : List RustExtColumn → List RustExtColumn
append_row_metadata columns =
    columns ++ (metadata_column (codes "createdAt") ∷ metadata_column (codes "updatedAt") ∷ [])
