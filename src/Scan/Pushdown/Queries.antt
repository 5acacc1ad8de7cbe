-- ===== src/Scan/Pushdown/Queries.antt =====
-- What a filter that is pushed looks like.
use duckdb_coda.Prelude.{
  ◌==◌, ◌≡◌, refl, ◌⊎◌, inl, inr, Bool, true, false, not, Option, none, some, ◌++◌, if◌then◌else◌,
  Result, ok, err,
}
use duckdb_coda.Text.{Text, codes}
use duckdb_coda.Abi.{RustExtInputValue}
use duckdb_coda.Duckdb.{Duckdb}
use duckdb_coda.Platform.{Platform}
use duckdb_coda.Table.{RustBridgeTableInfo, RustBridgeColumnInfo}
use duckdb_coda.Mutation.{input_value_json}
use duckdb_coda.Client.{convert}
use duckdb_coda.Scan.Pushdown.{
  ColumnBinding, Operand, column_ref, constant, other_operand, FilterExpression, compare_equal,
  other_filter, LogicalGet, sides, bound_column, can_filter_equality, build_equality_query,
  column_query, sides_query, try_extract_equality_filter,
}

sides-some :
    {Value : Type 0} (left right : Operand Value) (binding : ColumnBinding) (value : Value)
    → sides left right ≡ some (binding, value)
    → (compare_equal left right ≡ compare_equal (column_ref binding) (constant value))
      ⊎ (compare_equal left right ≡ compare_equal (constant value) (column_ref binding))
unfolding sides
sides-some (column_ref b) (constant v) binding value h = inl (cc h)
sides-some (constant v) (column_ref b) binding value h = inr (cc h)
sides-some (column_ref b) (column_ref c) binding value h = cc h
sides-some (column_ref b) other_operand binding value h = cc h
sides-some (constant v) (constant u) binding value h = cc h
sides-some (constant v) other_operand binding value h = cc h
sides-some other_operand right binding value h = cc h

query_of :
    (refused : Bool) (message q d query description : Text)
    → if◌then◌else◌ {A = Result Text (Text × Text)} refused (err message) (ok (q, d))
      ≡ ok (query, description)
    → query ≡ q
query_of true message q d query description h = cc h
query_of false message q d query description h = cc h

bind-some :
    {A B : Type 0} (o : Option A) (f : A → Option B) {b : B}
    → (elim o [ none ↦ none | some a ↦ f a ]) ≡ some b
    → (a : A) × (o ≡ some a) × (f a ≡ some b)
bind-some none f h = cc h
bind-some (some a) f h = (a, refl, h)

column_guards :
    (filterable null : Bool) (built : Result Text (Text × Text)) (query description : Text)
    → (if not filterable
        then none
        else if null
        then none
        else elim built [ err message ↦ none | ok q ↦ some q ])
      ≡ some (query, description)
    → (filterable ≡ true) × (null ≡ false) × (built ≡ ok (query, description))
column_guards false null built query description h = cc h
column_guards true true built query description h = cc h
column_guards true false (err message) query description h = cc h
column_guards true false (ok q) query description h = (refl, refl, cc h)

module _ (db : Duckdb) (platform : Platform db.Double) where
  open db use {Value, Double, is_null}
  open platform use {json_text}

  -- The query for a column that equals a value.
  abbrev pub equality : RustBridgeColumnInfo → Value → Text
  equality column value =
      column.column.id ++ (codes ":" ++ json_text (input_value_json (convert db value)))

  build_equality_query-ok :
      (id name : Text) (value : RustExtInputValue Double) (query description : Text)
      → build_equality_query db platform id name value ≡ ok (query, description)
      → query ≡ id ++ (codes ":" ++ json_text (input_value_json value))
  unfolding build_equality_query
  build_equality_query-ok id name value query description h =
      query_of (value.value_type == 0) _ _ _ query description h

  column_query-some :
      (column : RustBridgeColumnInfo) (value : Value) (query description : Text)
      → column_query db platform column value ≡ some (query, description)
      → (can_filter_equality column.column ≡ true)
        × (is_null value ≡ false)
        × (query ≡ equality column value)
  unfolding column_query
  column_query-some column value query description h =
      let (filterable, not_null, built) = column_guards _ (is_null value) _ query description h in
      (
        filterable,
        not_null,
        build_equality_query-ok column.column.id column.column.name (convert db value) query
            description built,
      )

  module _ (get : LogicalGet) (table : RustBridgeTableInfo) where
    sides_query-some :
        (pair : Option (ColumnBinding × Value)) (query description : Text)
        → sides_query db platform get table pair ≡ some (query, description)
        → (binding : ColumnBinding) × (value : Value) × (column : RustBridgeColumnInfo) × (pair
            ≡ some (binding, value))
          × (bound_column get table binding ≡ some column)
          × (column_query db platform column value ≡ some (query, description))
    unfolding sides_query
    sides_query-some none query description h = cc h
    sides_query-some (some (binding, value)) query description h =
        let (column, bound, pushed) =
          bind-some (bound_column get table binding) (λ c. column_query db platform c value) h in
        (binding, value, column, refl, bound, pushed)

    -- A filter that is pushed compares a column of the table, which the API can filter by, with a
    -- constant that is not null, on either side; and its query is the column's id, a colon, and the
    -- constant as JSON.
    pub try_extract_equality_filter-some :
        (filter : FilterExpression Value) (query description : Text)
        → try_extract_equality_filter db platform get table filter ≡ some (query, description)
        → (binding : ColumnBinding) × (value : Value) × (column : RustBridgeColumnInfo) × ((filter
              ≡ compare_equal (column_ref binding) (constant value))
            ⊎ (filter ≡ compare_equal (constant value) (column_ref binding)))
          × (bound_column get table binding ≡ some column)
          × (can_filter_equality column.column ≡ true)
          × (is_null value ≡ false)
          × (query ≡ equality column value)
    unfolding try_extract_equality_filter
    try_extract_equality_filter-some other_filter query description h = cc h
    try_extract_equality_filter-some (compare_equal left right) query description h =
        let (binding, value, column, pair, bound, pushed) =
          sides_query-some (sides left right) query description h in
        let (filterable, not_null, form) =
          column_query-some column value query description pushed in
        (
          binding,
          value,
          column,
          sides-some left right binding value pair,
          bound,
          filterable,
          not_null,
          form,
        )
