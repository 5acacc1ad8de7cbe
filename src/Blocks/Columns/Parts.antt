-- ===== src/Blocks/Columns/Parts.antt =====
-- A column that owns its strings, and a page of columns that is read and taken apart.
use duckdb_coda.Prelude.{ℕ, ◌+◌, ◌≡◌, refl, ap, ◌∙◌, List, [], ◌++◌, ok, and_then-ok, arith}
use duckdb_coda.Text.{Text, codes}
use duckdb_coda.Abi.{RustExtColumn, RustExtColumnList}
use duckdb_coda.Platform.{Json, Platform}
use duckdb_coda.Ownership.{count}
use duckdb_coda.Json.{text_or_error, column_from_json, column_list_from_json}
use duckdb_coda.Blocks.{RawColumn, Content, Heap, column_kind, byte_kind, alloc_string}
use duckdb_coda.Blocks.Layout.{column_layout, read_column}
use duckdb_coda.Blocks.Holds.{
  SameBlocks, Within, Within-same, Holds, Owning, Frees-same, count-append,
}
use duckdb_coda.Blocks.Structs.{Holds-column}
use duckdb_coda.Blocks.Stored.{TextHolds, Grows-none, Grows-then, Stays-later, parts_of, store_text}
use duckdb_coda.Blocks.Readers.{RawList, column_to_raw, column_list_to_raw}
use duckdb_coda.Blocks.Readers.Made.{Made, made, Kept, Made-pure, alloc_string-Grows}
use duckdb_coda.Blocks.Readers.Pages.{page_of, list-Made}
use duckdb_coda.Blocks.Columns.{take_page}

pub record ColumnParts (C : Content → Type 0) (raw : RawColumn) (column : RustExtColumn)
    (blocks : List ℕ) : Type 0 where
  pub xs : List ℕ
  pub ys : List ℕ
  pub zs : List ℕ
  pub id : TextHolds.owns C raw.id column.id xs
  pub name : TextHolds.owns C raw.name column.name ys
  pub type_name : TextHolds.owns C raw.type_name column.type_name zs
  pub capabilities : raw.capabilities ≡ column.capabilities
  pub logical : raw.logical_type ≡ column.logical_type
  pub same : SameBlocks (xs ++ (ys ++ zs)) blocks

pub ColumnParts-later :
    (C C' : Content → Type 0) (raw : RawColumn) (column : RustExtColumn) (blocks : List ℕ)
    → ((content : Content) → C' content → C content)
    → ColumnParts C raw column blocks
    → ColumnParts C' raw column blocks
ColumnParts-later C C' raw column blocks within parts = record {
  xs = parts.xs;
  ys = parts.ys;
  zs = parts.zs;
  id = λ content k. parts.id content (within content k);
  name = λ content k. parts.name content (within content k);
  type_name = λ content k. parts.type_name content (within content k);
  capabilities = parts.capabilities;
  logical = parts.logical;
  same = parts.same;
}

abbrev pub ColumnOwns : Owning RawColumn RustExtColumn
ColumnOwns = record { owns = ColumnParts; later = ColumnParts-later }

pub ColumnParts-Holds :
    (C : Content → Type 0) (content : Content)
    → C content
    → (raw : RawColumn) (column : RustExtColumn) (blocks : List ℕ) → ColumnParts C raw column blocks
    → Holds column_layout content raw column blocks
unfolding read_column
ColumnParts-Holds C content k raw column blocks parts =
    let all =
      Holds-column content raw (parts.id content k) (parts.name content k)
        (parts.type_name content k) in
    record {
      frees = Frees-same _ parts.same all.frees;
      reads = λ live h.
          all.reads live (Within-same (parts.xs ++ (parts.ys ++ parts.zs)) blocks live parts.same h)
          ∙ ap (λ c. ok (record column { capabilities = c; logical_type = raw.logical_type }))
              parts.capabilities
          ∙ ap (λ l. ok (record column { logical_type = l })) parts.logical;
    }

-- The three strings of a column that are allocated one after another.
pub column_strings :
    (id name type_name : Text) (capabilities logical : ℕ) (h : Heap)
    → (let (id', h₁) = alloc_string id h in
        let (name', h₂) = alloc_string name h₁ in
        let (type_name', h₃) = alloc_string type_name h₂ in
        Kept ColumnOwns h
          (record {
            id = id;
            name = name;
            type_name = type_name;
            capabilities = capabilities;
            logical_type = logical;
          })
          (
            record {
              id = id';
              name = name';
              type_name = type_name';
              capabilities = capabilities;
              logical_type = logical;
            },
            h₃,
          ))
column_strings id name type_name capabilities logical h =
    let (id', h₁) = alloc_string id h in
    let (name', h₂) = alloc_string name h₁ in
    let after_name = alloc_string-Grows type_name h₂ in
    let after_id = Grows-then (alloc_string-Grows name h₁) after_name in
    record {
      blocks =
          parts_of byte_kind id h
          ++ (parts_of byte_kind name h₁ ++ parts_of byte_kind type_name h₂);
      grows = Grows-then (alloc_string-Grows id h) after_id;
      owns = record {
        xs = parts_of byte_kind id h;
        ys = parts_of byte_kind name h₁;
        zs = parts_of byte_kind type_name h₂;
        id = Stays-later TextHolds after_id (store_text id h);
        name = Stays-later TextHolds after_name (store_text name h₁);
        type_name = store_text type_name h₂;
        capabilities = refl;
        logical = refl;
        same = λ a. refl;
      };
    }

column-Made :
    {Double : Type 0} (item : Json Double) (h : Heap)
    → Made ColumnOwns h (column_from_json item) (column_to_raw item h)
unfolding column_from_json column_to_raw
column-Made item h =
    Made-pure ColumnOwns [] (text_or_error (codes "id") (codes "missing column id") item) _ _
      (Grows-none h)
      (λ id.
        Made-pure ColumnOwns _ (text_or_error (codes "name") (codes "missing column name") item) _ _
          (alloc_string-Grows id h)
          (λ name.
            let strings = column_strings id name _ _ _ h in made _ strings.grows strings.owns))

-- A page of columns.
abbrev pub PageOwns : Owning RawList RustExtColumnList
PageOwns = page_of column_kind ColumnOwns (λ page. page.items) (λ page. page.next_page_token)

pub page-Made :
    {Double : Type 0} (platform : Platform Double) (body : Text) (h : Heap)
    → Made PageOwns h (column_list_from_json platform body) (column_list_to_raw platform body h)
unfolding column_list_from_json
page-Made platform =
    list-Made column_kind ColumnOwns platform PageOwns
      (λ columns token. record { items = columns; next_page_token = token }) column_from_json
      column_to_raw (λ C raw vs token blocks parts. parts) column-Made

-- What is taken out of a page: its columns stay, with their blocks.
pub record PageTaken (content : Content) (raw : RawList) (items : List RawColumn) (token : Text)
    (blocks kept live : List ℕ) : Type 0 where
  pub left : List ℕ
  pub goes : take_page content raw live ≡ ok (items, token, left)
  pub counted : (a : ℕ) → count a left + count a blocks ≡ count a live + count a kept

pub page-PageTaken :
    (C : Content → Type 0) (content : Content)
    → C content
    → (raw : RawList) (page : RustExtColumnList) (blocks live : List ℕ) → Within blocks live
    → (parts : PageOwns.owns C raw page blocks)
    → PageTaken content raw parts.items.items page.next_page_token blocks parts.items.inner live
unfolding take_page
page-PageTaken C content k raw page blocks live h parts =
    let xs = parts.xs in
    let ys = parts.ys in
    let there = Within-same (xs ++ ys) blocks live parts.same h in
    let array = parts.items in
    let inner = array.inner in
    let own = array.own in
    let vec = array.parts content k in
    let token = parts.next content k in
    let own_there : Within own live = λ a. omega (arith, array.same a, there a, count-append) in
    let dropped = vec.frees live own_there in
    let token_there : Within ys dropped.left =
      λ a. omega (arith, array.same a, there a, dropped.less a, count-append) in
    let freed = token.frees dropped.left token_there in
    record {
      left = freed.left;
      goes = and_then-ok _ (vec.reads live own_there) (
          and_then-ok _ dropped.goes
            (and_then-ok _ (token.reads dropped.left token_there) (and_then-ok _ freed.goes refl)));
      counted = λ a.
          omega (arith, dropped.less a, freed.less a, array.same a, parts.same a, count-append);
    }
