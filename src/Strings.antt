-- ===== src/Strings.antt =====
-- The strings that cross the boundary: src/include/rust_bridge_string.hpp, and `alloc_string`, `free`
-- and `set_error` of src/ffi.rs. A string is the address of its bytes, with 0 for a null pointer.
use duckdb_coda.Prelude.{
  ℕ, suc, ◌==◌, ◌≡◌, refl, ap, ◌∙◌, true, false, Option, none, some, List, [], ◌∷◌, is_empty,
  if◌then◌else◌, if_true, if_false, arith,
}
use duckdb_coda.Text.{Text}

-- The allocated strings, by address; `last` is the last address that was handed out.
pub record StringMemory : Type 0 where
  pub last : ℕ
  pub blocks : List (ℕ × Text)

-- `alloc_string`; the empty text needs no memory.
unfoldable pub alloc_string : Text → StringMemory → ℕ × StringMemory
alloc_string text m =
    if◌then◌else◌ {A = ℕ × StringMemory} (is_empty text) (0, m)
      (suc m.last, record { last = suc m.last; blocks = (suc m.last, text) ∷ m.blocks })

unfoldable pub find_block : ℕ → List (ℕ × Text) → Option Text
find_block string [] = none
find_block string ((address, text) ∷ blocks) =
    if address == string then some text else find_block string blocks

unfoldable pub remove_block : ℕ → List (ℕ × Text) → List (ℕ × Text)
remove_block string [] = []
remove_block string ((address, text) ∷ blocks) =
    if address == string then blocks else (address, text) ∷ remove_block string blocks

-- `RustBridgeString`; `none` is a read of freed memory.
unfoldable pub rust_bridge_string : ℕ → StringMemory → Option Text
unfolding find_block
rust_bridge_string string m = if string == 0 then some [] else find_block string m.blocks

-- `rust_ext_free_string`, of a string that can be read
unfoldable pub free_string : ℕ → StringMemory → StringMemory
unfolding remove_block
free_string string m = if string == 0 then m else record m { blocks = remove_block string m.blocks }

-- `TakeRustBridgeString`
unfoldable pub take_string : ℕ → StringMemory → Option (Text × StringMemory)
unfolding rust_bridge_string free_string
take_string string m = elim (rust_bridge_string string m) [
  | none ↦ none
  | some text ↦ some (text, free_string string m)
]

-- A `RustExtError` that a caller passes down, with the memory.
pub record ErrorState : Type 0 where
  pub message : ℕ
  pub memory : StringMemory

-- `SetRustBridgeErrorMessage` and `set_error`: the old message is written over.
unfoldable pub set_error : Text → ErrorState → ErrorState
unfolding alloc_string
set_error message s =
    let (string, m) = alloc_string message s.memory in record { message = string; memory = m }

-- `TakeRustBridgeErrorMessage`
unfoldable pub take_error_message : ErrorState → Option (Text × StringMemory)
unfolding take_string
take_error_message s = take_string s.message s.memory

module _ (l : ℕ) (text : Text) (blocks : List (ℕ × Text)) where
  -- The memory with a string that was just allocated.
  abbrev with_string : StringMemory
  with_string = record { last = suc l; blocks = (suc l, text) ∷ blocks }

  self : (suc l == suc l) ≡ true
  self = ground arith

  not_null : (suc l == 0) ≡ false
  not_null = ground arith

  read-fresh : rust_bridge_string (suc l) with_string ≡ some text
  unfolding rust_bridge_string find_block
  read-fresh = if_false (suc l == 0) _ _ not_null ∙ if_true (suc l == suc l) _ _ self

  free-fresh : free_string (suc l) with_string ≡ record { last = suc l; blocks = blocks }
  unfolding free_string remove_block
  free-fresh =
      if_false (suc l == 0) _ _ not_null
      ∙ ap (λ bs. record with_string { blocks = bs }) (if_true (suc l == suc l) _ _ self)

  take-fresh :
      take_string (suc l) with_string ≡ some (text, record { last = suc l; blocks = blocks })
  unfolding take_string
  take-fresh = rw (take_string, read-fresh, free-fresh) refl

-- An error that is set and taken at once: the message comes back, and no memory is left behind.
pub take_error_message-set_error :
    (message : Text) (s : ErrorState)
    → is_empty message ≡ false
    → (m : StringMemory) × (take_error_message (set_error message s) ≡ some (message, m))
      × (m.blocks ≡ s.memory.blocks)
unfolding take_error_message set_error alloc_string
take_error_message-set_error message s some_message =
    let l = s.memory.last in
    let blocks = s.memory.blocks in
    (
      record { last = suc l; blocks = blocks },
      ap (λ (p : ℕ × StringMemory). take_string p.0 p.1)
            (if_false (is_empty message) _ _ some_message)
          ∙ take-fresh l message blocks,
      refl,
    )
