-- ===== src/Tests/Blocks.antt =====
-- A response with a row that is marked as deleted, with its allocations.
use duckdb_coda.Prelude.{ℕ, ◌≡◌, refl, true, false, [], ◌∷◌, ◌++◌, traverse, ok, err}
use duckdb_coda.Text.{Text, codes, text_eq, eq_ignore_ascii_case, to_ascii_lower}
use duckdb_coda.Platform.{Platform, Json, string, bool, array, object, nil, cons, end, field}
use duckdb_coda.Json.{
  text_or_error, get, as_str, as_bool, as_array, as_object, find_field, root_items,
  column_from_json, format_field, column_capabilities, is_number_format, logical_type,
  flag_or_false,
}
use duckdb_coda.Fetch.{ScanHandle, new_handle, next_batch}
use duckdb_coda.Load.{list_rows}
use duckdb_coda.Blocks.{Heap, unused}
use duckdb_coda.Blocks.Batches.{next_batch_raw}
use duckdb_coda.Blocks.Batches.Released.{Ends, next_batch-Ends}
use duckdb_coda.Blocks.Readers.{column_list_to_raw}
use duckdb_coda.Blocks.Readers.Leaks.{Leaves, column_list_to_raw-Leaves}
use duckdb_coda.Tests.Document.{config, platform}

abbrev row : Text → Json ℕ → Json ℕ
row id deleted = object (
    field (codes "id") (string id) (
      field (codes "deleted") deleted
        (field (codes "values") (object (field (codes "c1") (string (codes "Ada")) end)) end)))

-- An API whose answer is two rows, the second of them deleted.
abbrev api : Platform ℕ
api = record platform {
  from_str = λ body. ok (
      object (
        field (codes "items")
          (array (cons (row (codes "r1") (bool false)) (cons (row (codes "r2") (bool true)) nil)))
          end));
  http = λ request w. (ok (record { status = 202; into_string = ok request.url }), request.url ∷ w);
}

abbrev handle : ScanHandle
handle = new_handle config (codes "grid") (record { filter = []; order = []; limit = 0 })

abbrev pub empty_heap : Heap
empty_heap = record { last = 0; live = []; content = λ a. unused }

next_batch-Ends_example :
    Ends api empty_heap
      (next_batch (list_rows api) 2 (handle, []))
      (next_batch_raw api 2 (handle, ([], empty_heap)))
next_batch-Ends_example = next_batch-Ends api 2 handle [] empty_heap

abbrev named_column : Json ℕ
named_column =
    object
      (field (codes "id") (string (codes "c1")) (field (codes "name") (string (codes "Name")) end))

-- A column without a name.
abbrev nameless_column : Json ℕ
nameless_column = object (field (codes "id") (string (codes "c2")) end)

abbrev page : Json ℕ
page = object (field (codes "items") (array (cons named_column (cons nameless_column nil))) end)

-- An API whose answer is a page with a column that has no name.
abbrev nameless_api : Platform ℕ
nameless_api = record platform { from_str = λ body. ok page }

page_items : root_items page ≡ ok ((named_column ∷ []) ++ nameless_column ∷ [])
unfolding root_items get find_field text_eq as_array
page_items = refl

named_read :
    traverse column_from_json (named_column ∷ [])
    ≡ ok (
        record {
          id = codes "c1";
          name = codes "Name";
          type_name = codes "text";
          capabilities = 12;
          logical_type = 0;
        }
        ∷ [])
unfolding column_from_json format_field column_capabilities is_number_format logical_type
    flag_or_false text_or_error get as_str as_bool as_object find_field text_eq eq_ignore_ascii_case
    to_ascii_lower
named_read = refl

has_id : text_or_error (codes "id") (codes "missing column id") nameless_column ≡ ok (codes "c2")
unfolding text_or_error get find_field text_eq as_str
has_id = refl

has_no_name :
    text_or_error (codes "name") (codes "missing column name") nameless_column
    ≡ err (codes "missing column name")
unfolding text_or_error get find_field text_eq as_str
has_no_name = refl

column_list_to_raw-Leaves_example :
    (h' : Heap) × (column_list_to_raw nameless_api [] empty_heap
      ≡ (err (codes "missing column name"), h'))
    × Leaves empty_heap h' (codes "c1" ∷ codes "Name" ∷ codes "text" ∷ codes "c2" ∷ [])
column_list_to_raw-Leaves_example =
    column_list_to_raw-Leaves nameless_api [] empty_heap page (named_column ∷ []) nameless_column []
      refl page_items named_read has_id has_no_name
