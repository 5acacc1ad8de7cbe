-- ===== src/Blocks/Readers/Leaks.antt =====
-- What a reader leaves when it returns an error in the middle of a page.
use duckdb_coda.Prelude.{
  ℕ, false, ◌≡◌, refl, sym, ap, List, [], ◌∷◌, ◌++◌, map, map-append, append_assoc, ok, err,
  and_then-eq-ok, traverse, traverse-nil, traverse-cons, ok-value, subst,
}
use duckdb_coda.Text.{Text, codes}
use duckdb_coda.Abi.{RustExtColumn}
use duckdb_coda.Platform.{Platform, Json}
use duckdb_coda.Json.{
  unwrap_or, as_str, as_bool, format_field, column_capabilities, flag_or_false, logical_type,
  text_or_error, root_items, column_from_json,
}
use duckdb_coda.Blocks.{
  Block, bytes, RawColumn, Content, Heap, byte_kind, into_raw_parts, alloc_string,
}
use duckdb_coda.Blocks.Stored.{
  Grows, Agrees, Agrees-earlier, Grows-none, Grows-then, parts_of, alloc-block,
}
use duckdb_coda.Blocks.Readers.{push_each, column_to_raw, list_to_raw, column_list_to_raw}
use duckdb_coda.Blocks.Readers.Made.{alloc_string-Grows}

-- The texts that are stored, one block each, since the heap had been as it was: they are allocated in
-- the later heap on top of what was, and stay what they are.
pub record Leaves (h h' : Heap) (texts : List Text) : Type 0 where
  pub blocks : List ℕ
  pub grows : Grows h h' blocks
  pub holds :
      (content : Content)
      → Agrees h' content
      → ◌≡◌ {A = List Block} (map content blocks) (map bytes texts)

-- A text as it is stored: the empty one takes no block.
abbrev pub stored : Text → List Text
stored [] = []
stored (c ∷ text) = (c ∷ text) ∷ []

-- The strings of a column.
abbrev pub column_texts : RustExtColumn → List Text
column_texts column = stored column.id ++ (stored column.name ++ stored column.type_name)

-- The strings of all columns, one after another.
abbrev pub columns_texts : List RustExtColumn → List Text
columns_texts [] = []
columns_texts (column ∷ columns) = column_texts column ++ columns_texts columns

Leaves-then :
    {h h₁ h₂ : Heap} {xs ys : List Text} → Leaves h h₁ xs → Leaves h₁ h₂ ys → Leaves h h₂ (xs ++ ys)
Leaves-then {xs = xs} {ys = ys} first later = record {
  blocks = first.blocks ++ later.blocks;
  grows = Grows-then first.grows later.grows;
  holds = λ content k.
      rw
        (
          map-append content first.blocks later.blocks,
          map-append bytes xs ys,
          first.holds content (Agrees-earlier later.grows content k),
          later.holds content k,
        )
        refl;
}

alloc_string-Leaves : (text : Text) (h : Heap) → Leaves h (alloc_string text h).1 (stored text)
unfolding into_raw_parts byte_kind
alloc_string-Leaves [] h = record { blocks = []; grows = Grows-none h; holds = λ content k. refl }
alloc_string-Leaves (c ∷ text) h = record {
  blocks = parts_of byte_kind (c ∷ text) h;
  grows = alloc_string-Grows (c ∷ text) h;
  holds = λ content k. ap (λ b. b ∷ []) (alloc-block (bytes (c ∷ text)) h content k);
}

-- What reading a column comes to.
abbrev ReadTo : {Double : Type 0} → Json Double → Heap → RustExtColumn → Type 0
ReadTo item h column =
    (raw : RawColumn) × (h' : Heap) × (column_to_raw item h ≡ (ok raw, h'))
    × Leaves h h' (column_texts column)

-- A column with an id and a name, as it is by value.
abbrev column_of : {Double : Type 0} → Json Double → Text → Text → RustExtColumn
column_of item id name =
    let type_name = unwrap_or (as_str (format_field (codes "type") item)) (codes "text") in
    let is_array = unwrap_or (as_bool (format_field (codes "isArray") item)) false in
    record {
      id = id;
      name = name;
      type_name = type_name;
      capabilities = column_capabilities (flag_or_false (codes "calculated") item) is_array;
      logical_type = logical_type type_name is_array;
    }

column_of-ReadTo :
    {Double : Type 0} (item : Json Double) (h : Heap) (id name : Text)
    → text_or_error (codes "id") (codes "missing column id") item ≡ ok id
    → text_or_error (codes "name") (codes "missing column name") item ≡ ok name
    → ReadTo item h (column_of item id name)
unfolding column_to_raw
column_of-ReadTo item h id name has_id has_name =
    let (id', h₁) = alloc_string id h in
    let (name', h₂) = alloc_string name h₁ in
    let column = column_of item id name in
    let (type_name', h₃) = alloc_string column.type_name h₂ in
    (
      record {
        id = id';
        name = name';
        type_name = type_name';
        capabilities = column.capabilities;
        logical_type = column.logical_type;
      },
      h₃,
      rw (has_id, has_name) refl,
      Leaves-then (alloc_string-Leaves id h)
          (Leaves-then (alloc_string-Leaves name h₁) (alloc_string-Leaves column.type_name h₂)),
    )

-- A column that is read is allocated with its strings.
column_from_json-ReadTo :
    {Double : Type 0} (item : Json Double) (h : Heap) {column : RustExtColumn}
    → column_from_json item ≡ ok column
    → ReadTo item h column
unfolding column_from_json
column_from_json-ReadTo item h read =
    let (id, has_id, named) = and_then-eq-ok (text_or_error _ _ item) _ read in
    let (name, has_name, made) = and_then-eq-ok (text_or_error _ _ item) _ named in
    subst (ReadTo item h) (ok-value made) (column_of-ReadTo item h id name has_id has_name)

-- A column with an id and no name leaves the copy of its id.
nameless-Leaves :
    {Double : Type 0} (item : Json Double) (h : Heap) {id message : Text}
    → text_or_error (codes "id") (codes "missing column id") item ≡ ok id
    → text_or_error (codes "name") (codes "missing column name") item ≡ err message
    → (h' : Heap) × (column_to_raw item h ≡ (err message, h')) × Leaves h h' (stored id)
unfolding column_to_raw
nameless-Leaves item h {id} has_id missing =
    ((alloc_string id h).1, rw (has_id, missing) refl, alloc_string-Leaves id h)

-- The loop, up to the column without a name.
push_each-Leaves :
    {Double : Type 0} (good : List (Json Double)) (bad : Json Double) (rest : List (Json Double))
    (h : Heap) {columns : List RustExtColumn} {id message : Text}
    → traverse column_from_json good ≡ ok columns
    → text_or_error (codes "id") (codes "missing column id") bad ≡ ok id
    → text_or_error (codes "name") (codes "missing column name") bad ≡ err message
    → (h' : Heap) × (push_each column_to_raw (good ++ bad ∷ rest) h ≡ (err message, h'))
      × Leaves h h' (columns_texts columns ++ stored id)
push_each-Leaves {Double} [] bad rest h {columns} {id} {message} read has_id missing =
    let (h', goes, left) = nameless-Leaves bad h has_id missing in
    (
      h',
      rw goes refl,
      subst (λ cs. Leaves h h' (columns_texts cs ++ stored id))
          (sym (traverse-nil {A = Json Double} column_from_json read)) left,
    )
push_each-Leaves (item ∷ good) bad rest h {columns} {id} {message} read has_id missing =
    let (column, more, same, one, others) = traverse-cons column_from_json item good read in
    let (raw, h₁, goes, left) = column_from_json-ReadTo item h one in
    let (h', fails, left') = push_each-Leaves good bad rest h₁ others has_id missing in
    (
      h',
      rw (goes, fails) refl,
      subst (λ cs. Leaves h h' (columns_texts cs ++ stored id)) (sym same)
          (subst (Leaves h h')
            (sym (append_assoc (column_texts column) (columns_texts more) (stored id)))
            (Leaves-then left left')),
    )

-- A page whose columns before some column are read, and that column has an id and no name, is refused
-- with the error of that column. The heap keeps a block for each non-empty string of the columns
-- before, and one for the id of that column, unless it is empty, in this order and with these texts,
-- while the result has no pointer to any of them.
pub column_list_to_raw-Leaves :
    {Double : Type 0} (platform : Platform Double) (body : Text) (h : Heap) (root : Json Double)
    (good : List (Json Double)) (bad : Json Double) (rest : List (Json Double))
    {columns : List RustExtColumn} {id message : Text}
    → platform.from_str body ≡ ok root
    → root_items root ≡ ok (good ++ bad ∷ rest)
    → traverse column_from_json good ≡ ok columns
    → text_or_error (codes "id") (codes "missing column id") bad ≡ ok id
    → text_or_error (codes "name") (codes "missing column name") bad ≡ err message
    → (h' : Heap) × (column_list_to_raw platform body h ≡ (err message, h'))
      × Leaves h h' (columns_texts columns ++ stored id)
unfolding list_to_raw
column_list_to_raw-Leaves platform body h root good bad rest parsed there read has_id missing =
    let (h', fails, left) = push_each-Leaves good bad rest h read has_id missing in
    (h', rw (parsed, there, fails) refl, left)
