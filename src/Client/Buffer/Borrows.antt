-- ===== src/Client/Buffer/Borrows.antt =====
-- The pointers that the buffer of a write hands out: good until the Rust side has read them, since
-- the vector was reserved for all of them.
use duckdb_coda.Prelude.{
  ℕ, ◌+◌, ◌*◌, tabulate, flatten, ◌<◌, ◌≤◌, ==_iff, ◌≡◌, refl, sym, ap, Bool, ◌∙◌, some, List, [],
  ◌∷◌, ◌++◌, map, length, length-append, length-tabulate, length-flatten-tabulate, get_elem?,
  if◌then◌else◌, if_true, lt→ltb, arith, append_assoc, append-nil, map-map, map-flatten,
  map-tabulate, tabulate-ext, true, false,
}
use mathlib.Core.Path.{ap₂}
use duckdb_coda.Text.{Text}
use duckdb_coda.Abi.{RustExtInputValue, input_null, input_string}
use duckdb_coda.Duckdb.{
  Duckdb, DataChunk, LogicalTypeId, boolean, tinyint, smallint, integer, bigint, utinyint,
  usmallint, uinteger, ubigint, float, double, varchar, timestamp_tz, other,
}
use duckdb_coda.Table.{RustBridgeTableInfo}
use duckdb_coda.Client.{convert, convert_typed, empty_input, insert_values, insert_row_values}
use duckdb_coda.Client.Buffer.{
  StringVector, new_vector, reserve, push_back, Borrowed, read, BufferedValue, held, borrowed,
  borrow_text, typed_into, convert_into, convert_all, resolve, insert_cells, insert_buffered,
}

module _ (db : Duckdb) (growth : ℕ → ℕ) where
  open db use {Value, Double, is_null, type_id, value_to_string}

  abbrev string_input : Text → RustExtInputValue Double
  string_input s = record (empty_input db) { value_type = input_string; string_value = s }

  push_back-room :
      (s : Text) (v : StringVector)
      → length v.strings < v.capacity
      → push_back growth s v ≡ record v { strings = v.strings ++ s ∷ [] }
  unfolding push_back
  push_back-room s v room = if_true _ _ _ (lt→ltb _ _ room)

  get_elem?-back :
      (xs ys : List Text) (s : Text) → get_elem? ((xs ++ s ∷ []) ++ ys) (length xs) ≡ some s
  get_elem?-back [] ys s = refl
  get_elem?-back (x ∷ xs) ys s = get_elem?-back xs ys s

  -- The `switch` with the buffer and the one without: either nothing is borrowed, or the text is.
  data Split (value : Value) (v : StringVector)
      : RustExtInputValue Double → BufferedValue Double × StringVector → Type 0 where
    stays : (i : RustExtInputValue Double) → Split value v i (held i, v)
    pushes :
        Split value v
          (string_input (value_to_string value))
          (borrow_text db growth (value_to_string value) v)

  typed_into-Split :
      (t : LogicalTypeId) (value : Value) (v : StringVector)
      → Split value v (convert_typed db t value) (typed_into db growth t value v)
  unfolding typed_into convert_typed
  typed_into-Split boolean value v = stays _
  typed_into-Split tinyint value v = stays _
  typed_into-Split smallint value v = stays _
  typed_into-Split integer value v = stays _
  typed_into-Split bigint value v = stays _
  typed_into-Split utinyint value v = stays _
  typed_into-Split usmallint value v = stays _
  typed_into-Split uinteger value v = stays _
  typed_into-Split ubigint value v = stays _
  typed_into-Split float value v = stays _
  typed_into-Split double value v = stays _
  typed_into-Split varchar value v = pushes
  typed_into-Split timestamp_tz value v = pushes
  typed_into-Split (other n) value v = pushes

  convert_into-Split :
      (value : Value) (v : StringVector)
      → Split value v (convert db value) (convert_into db growth value v)
  unfolding convert_into convert
  convert_into-Split value v = by_null (is_null value)
    where
      by_null :
          (b : Bool)
          → Split value v
              (if b
                then record (empty_input db) { value_type = input_null }
                else convert_typed db (type_id value) value)
              (if b
                then (held (record (empty_input db) { value_type = input_null }), v)
                else typed_into db growth (type_id value) value v)
      by_null true = stays _
      by_null false = typed_into-Split (type_id value) value v

  -- What a run of the buffer leaves: more strings in the same block, and values that read as those
  -- that the conversion by value has.
  record Kept (values : List Value) (v : StringVector) (bs : List (BufferedValue Double))
      (v' : StringVector) : Type 0 where
    pub more : List Text
    pub strings_eq : v'.strings ≡ v.strings ++ more
    pub moves_eq : v'.moves ≡ v.moves
    pub read_back : map (resolve db growth v') bs ≡ map (λ value. some (convert db value)) values

  read-back :
      (v' : StringVector) (xs ys : List Text) (s : Text) (block : ℕ)
      → v'.strings ≡ (xs ++ s ∷ []) ++ ys
      → block ≡ v'.moves
      → read v' (record { block = block; index = length xs }) ≡ some s
  unfolding read
  read-back v' xs ys s block strings same =
      if_true _ _ _ ((==_iff block v'.moves).1 same)
      ∙ ap (λ t. get_elem? t (length xs)) strings
      ∙ get_elem?-back xs ys s

  resolve-borrowed :
      (v : StringVector) (b : Borrowed) (s : Text)
      → read v b ≡ some s
      → resolve db growth v (borrowed b) ≡ some (string_input s)
  unfolding resolve
  resolve-borrowed v b s h = rw (resolve, h)

  -- What one conversion leaves: one string more at most, and a value that any later state of the
  -- vector in the same block resolves.
  record Step (i : RustExtInputValue Double) (v : StringVector) (b : BufferedValue Double)
      (v₁ : StringVector) : Type 0 where
    pub one : List Text
    pub at_most_one : length one ≤ 1
    pub strings_eq : v₁.strings ≡ v.strings ++ one
    pub moves_eq : v₁.moves ≡ v.moves
    pub capacity_eq : v₁.capacity ≡ v.capacity
    pub resolves :
        (v' : StringVector) (more : List Text)
        → v'.strings ≡ v₁.strings ++ more
        → v'.moves ≡ v₁.moves
        → resolve db growth v' b ≡ some i

  borrow_text-Step :
      (s : Text) (v : StringVector)
      → length v.strings < v.capacity
      → let (b, v₁) = borrow_text db growth s v in Step (string_input s) v b v₁
  unfolding borrow_text
  borrow_text-Step s v room =
      let pushed = push_back-room s v room in
      let strings = ap (λ (u : StringVector). u.strings) pushed in
      record {
        one = s ∷ [];
        at_most_one = omega arith;
        strings_eq = strings;
        moves_eq = ap (λ (u : StringVector). u.moves) pushed;
        capacity_eq = ap (λ (u : StringVector). u.capacity) pushed;
        resolves = λ v' more later same. resolve-borrowed v' _ s (
            read-back v' v.strings more s (push_back growth s v).moves
              (later ∙ ap (λ t. t ++ more) strings) (sym same));
      }

  Split-Step :
      (value : Value) (v : StringVector) (i : RustExtInputValue Double)
      (r : BufferedValue Double × StringVector)
      → length v.strings < v.capacity
      → Split value v i r
      → Step i v r.0 r.1
  unfolding resolve
  Split-Step value v _ _ room (stays i) = record {
    one = [];
    at_most_one = omega arith;
    strings_eq = sym (append-nil v.strings);
    moves_eq = refl;
    capacity_eq = refl;
    resolves = λ v' more later same. refl;
  }
  Split-Step value v _ _ room pushes = borrow_text-Step (value_to_string value) v room

  convert_all-Kept :
      (values : List Value) (v : StringVector)
      → length v.strings + length values ≤ v.capacity
      → let (bs, v') = convert_all db growth values v in Kept values v bs v'
  unfolding convert_all
  convert_all-Kept [] v room = record {
    more = [];
    strings_eq = sym (append-nil v.strings);
    moves_eq = refl;
    read_back = refl;
  }
  convert_all-Kept (value ∷ values) v room =
      let step = Split-Step value v _ _ (omega arith) (convert_into-Split value v) in
      let v₁ = (convert_into db growth value v).1 in
      let sized : length v₁.strings ≡ length v.strings + length step.one =
        ap length step.strings_eq ∙ length-append v.strings step.one in
      let wide = step.capacity_eq in
      let few = step.at_most_one in
      let kept = convert_all-Kept values v₁ (omega (arith, sized, wide, few)) in
      record {
        more = step.one ++ kept.more;
        strings_eq =
            kept.strings_eq
            ∙ ap (λ t. t ++ kept.more) step.strings_eq
            ∙ append_assoc v.strings step.one kept.more;
        moves_eq = kept.moves_eq ∙ step.moves_eq;
        read_back =
            ap₂ (λ x t. x ∷ t) (step.resolves _ kept.more kept.strings_eq kept.moves_eq)
              kept.read_back;
      }

  reserve-new :
      (n : ℕ) → (length (reserve n new_vector).strings ≡ 0) × (n ≤ (reserve n new_vector).capacity)
  unfolding reserve
  reserve-new n = ground arith

  map-flatten-tabulate :
      (m n : ℕ) (g : ℕ → ℕ → Value)
      → map (λ value. some (convert db value)) (flatten (tabulate n (λ r. tabulate m (λ c. g r c))))
        ≡ map some (flatten (tabulate n (λ r. tabulate m (λ c. convert db (g r c)))))
  map-flatten-tabulate m n g =
      sym (map-map some (convert db) _)
      ∙ ap (map some) (
          map-flatten (convert db) (tabulate n (λ r. tabulate m (g r)))
          ∙ ap flatten (
              map-tabulate (map (convert db)) n (λ r. tabulate m (g r))
              ∙ tabulate-ext n _ _ (λ r _. map-tabulate (convert db) m (g r))))

  -- An INSERT converts its values into pointers that are all good when the Rust side reads them: the
  -- reserved vector has not moved, and each pointer reads the text of its value, so that the values
  -- resolve to those of the conversion by value.
  pub insert_buffered-insert_values :
      (table : RustBridgeTableInfo) (chunk : DataChunk Value)
      → let (bs, v) = insert_buffered db growth table chunk in
        map (resolve db growth v) bs ≡ map some (insert_values db table chunk)
  unfolding insert_buffered insert_cells insert_values insert_row_values
  insert_buffered-insert_values table chunk =
      let n = chunk.size * length table.columns in
      let (none_yet, room) = reserve-new n in
      let sized =
        length-flatten-tabulate (length table.columns) chunk.size
          (λ row_idx. tabulate (length table.columns) (λ col_idx. chunk.get_value col_idx row_idx))
          (λ row_idx. length-tabulate (length table.columns) _) in
      let kept =
        convert_all-Kept (insert_cells db growth table chunk) (reserve n new_vector)
          (omega (arith, none_yet, room, sized)) in
      kept.read_back
      ∙ map-flatten-tabulate (length table.columns) chunk.size
          (λ row_idx col_idx. chunk.get_value col_idx row_idx)
