-- ===== src/Catalog/Names.antt =====
-- Tables by name: what the schema finds after it has been loaded.
use duckdb_coda.Prelude.{
  ◌≡◌, refl, ap, ◌∙◌, Bool, true, Option, none, some, List, [], ◌∷◌, if◌then◌else◌, arith,
}
use duckdb_coda.Text.{Text}
use duckdb_coda.Abi.{RustExtCatalogTable}
use duckdb_coda.Duckdb.{Duckdb}
use duckdb_coda.Table.{RustBridgeTableInfo, borrow_table_info}
use duckdb_coda.Catalog.{Entries, put_entry, lookup_entry, load_entries}

-- What `CIEquals` documents: equal up to case is an equivalence.
pub record IsCaseless (same : Text → Text → Bool) : Type 0 where
  pub reflexive : (s : Text) → same s s ≡ true
  pub symmetric : (s t : Text) → same s t ≡ true → same t s ≡ true
  pub transitive : (s t u : Text) → same s t ≡ true → same t u ≡ true → same s u ≡ true

-- The last table of the list with that name, or else the one given.
unfoldable pub last_named :
    (Text → Text → Bool)
    → Text
    → List RustExtCatalogTable
    → Option RustBridgeTableInfo
    → Option RustBridgeTableInfo
last_named same name [] found = found
last_named same name (table ∷ tables) found =
    last_named same name tables
      (if same table.name name then some (borrow_table_info table) else found)

module _ (db : Duckdb) (caseless : IsCaseless db.ci_equals) (name : Text) where
  lookup_entry-put_entry :
      (key : Text) (table : RustBridgeTableInfo) (entries : Entries db)
      → lookup_entry db name (put_entry db key table entries)
        ≡ (if db.ci_equals key name then some table else lookup_entry db name entries)
  unfolding lookup_entry put_entry
  lookup_entry-put_entry key table [] = refl
  lookup_entry-put_entry key table ((first, old) ∷ rest) = ground (
    arith,
    lookup_entry-put_entry key table rest,
    caseless.symmetric first key,
    caseless.symmetric key first,
    caseless.transitive first key name,
    caseless.transitive key first name,
    caseless.symmetric first name,
    caseless.transitive key name first,
  )

  lookup_entry-load_entries :
      (tables : List RustExtCatalogTable) (entries : Entries db)
      → lookup_entry db name (load_entries db tables entries)
        ≡ last_named db.ci_equals name tables (lookup_entry db name entries)
  unfolding load_entries last_named
  lookup_entry-load_entries [] entries = refl
  lookup_entry-load_entries (table ∷ tables) entries =
      lookup_entry-load_entries tables (put_entry db table.name (borrow_table_info table) entries)
      ∙ ap (last_named db.ci_equals name tables)
          (lookup_entry-put_entry table.name (borrow_table_info table) entries)

  -- Where `CIEquals` is an equivalence, a lookup in the schema has the last table of the document
  -- whose name is equal up to case, and none if there is no such table.
  pub lookup_entry-last_named :
      (tables : List RustExtCatalogTable)
      → lookup_entry db name (load_entries db tables []) ≡ last_named db.ci_equals name tables none
  unfolding lookup_entry
  lookup_entry-last_named tables = lookup_entry-load_entries tables []
