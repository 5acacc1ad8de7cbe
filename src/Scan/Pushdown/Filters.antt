-- ===== src/Scan/Pushdown/Filters.antt =====
-- What the filter pushdown does to the filters and to the bind data.
use duckdb_coda.Prelude.{
  ◌≡◌, ◌≢◌, refl, sym, subst, ap, not, Option, none, some, List, [], ◌∷◌, ◌++◌, is_empty,
  is_empty-eq, Bool-cases, Option-cases, inl, inr, if_false,
}
use duckdb_coda.Text.{Text}
use duckdb_coda.Duckdb.{Duckdb}
use duckdb_coda.Platform.{Platform}
use duckdb_coda.Scan.State.{RustBridgeScanBindData}
use duckdb_coda.Scan.Pushdown.{
  LogicalGet, FilterExpression, try_extract_equality_filter, push_filters, pushdown_complex_filter,
}

module _ (db : Duckdb) (platform : Platform db.Double) (get : LogicalGet)
    (bind_data : RustBridgeScanBindData) where
  open db use {Value}

  abbrev pub extract : FilterExpression Value → Option (Text × Text)
  extract filter = try_extract_equality_filter db platform get bind_data.table filter

  -- No filter of the list can be pushed.
  abbrev pub AreKept : List (FilterExpression Value) → Type 0
  AreKept [] = Unit
  AreKept (filter ∷ filters) = (extract filter ≡ none) × AreKept filters

  abbrev pub with_query : Text → Text → RustBridgeScanBindData
  with_query query description = record bind_data {
    pushed_query = query;
    pushed_query_description = description;
  }

  -- What becomes of the bind data and the filters: all is left as it was, because no filter can be
  -- pushed; or the first that can be pushed is, and the others stay in their order.
  pub data Pushed (filters : List (FilterExpression Value))
      (result : RustBridgeScanBindData × List (FilterExpression Value)) : Type 0 where
    kept : AreKept filters → result ≡ (bind_data, filters) → Pushed filters result
    moved :
        (before : List (FilterExpression Value)) (filter : FilterExpression Value)
        (after : List (FilterExpression Value)) (query description : Text)
        → filters ≡ before ++ filter ∷ after
        → AreKept before
        → extract filter ≡ some (query, description)
        → result ≡ (with_query query description, before ++ after)
        → Pushed filters result

  Pushed-cons :
      (filter : FilterExpression Value) (filters : List (FilterExpression Value))
      (result : RustBridgeScanBindData × List (FilterExpression Value))
      → extract filter ≡ none
      → Pushed filters result
      → Pushed (filter ∷ filters) (result.0, filter ∷ result.1)
  Pushed-cons filter filters result fits_not (kept all_kept e) =
      kept (fits_not, all_kept) (ap (λ r. (r.0, filter ∷ r.1)) e)
  Pushed-cons filter filters result fits_not
        (moved before f after query description split kept_before fits e) =
      moved (filter ∷ before) f after query description (ap (λ t. filter ∷ t) split)
        (fits_not, kept_before) fits (ap (λ r. (r.0, filter ∷ r.1)) e)

  push_filters-Pushed :
      (filters : List (FilterExpression Value))
      → Pushed filters (push_filters db platform get bind_data filters)
  unfolding push_filters
  push_filters-Pushed [] = kept tt refl
  push_filters-Pushed (filter ∷ filters) = elim (Option-cases (extract filter)) [
    | inl fits_not ↦
        rw (fits_not, push_filters)
          (Pushed-cons filter filters (push_filters db platform get bind_data filters) fits_not
            (push_filters-Pushed filters))
    | inr ((query, description), fits) ↦
        rw (fits, push_filters) (moved [] filter filters query description refl tt fits refl)
  ]

  -- A scan that has no query yet takes over the first filter that can be pushed, and only that one:
  -- DuckDB goes on to test all the others, in their order.
  pub pushdown_complex_filter-Pushed :
      (filters : List (FilterExpression Value))
      → bind_data.pushed_query ≡ []
      → Pushed filters (pushdown_complex_filter db platform get bind_data filters)
  unfolding pushdown_complex_filter
  pushdown_complex_filter-Pushed filters no_query =
      subst (Pushed filters)
        (sym (
          if_false (not (is_empty bind_data.pushed_query)) _ _
            (ap (λ q. not (is_empty q)) no_query)))
        (push_filters-Pushed filters)

  -- A scan that has a query leaves every filter to DuckDB, and its own data as it was.
  pub pushdown_complex_filter-again :
      (filters : List (FilterExpression Value))
      → bind_data.pushed_query ≢ []
      → pushdown_complex_filter db platform get bind_data filters ≡ (bind_data, filters)
  unfolding pushdown_complex_filter
  pushdown_complex_filter-again filters some_query =
      elim (Bool-cases (is_empty bind_data.pushed_query)) [
        | inl no_query ↦ absurd (some_query (is_empty-eq bind_data.pushed_query no_query))
        | inr has_query ↦ rw has_query refl
      ]
