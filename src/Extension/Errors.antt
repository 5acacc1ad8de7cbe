-- ===== src/Extension/Errors.antt =====
-- The error of a load that fails: what a host callback writes into the error, and what the Rust side
-- then writes over it.
use duckdb_coda.Prelude.{
  ℕ, suc, ◌≡◌, refl, ◌∙◌, Bool, true, false, Option, some, List, ◌∷◌, is_empty, if◌then◌else◌,
  Bool-cases, inl, inr, Result, ok, err,
}
use duckdb_coda.Text.{Text, codes}
use duckdb_coda.Messages.{with_context}
use duckdb_coda.Strings.{
  StringMemory, alloc_string, ErrorState, set_error, take_error_message,
  take_error_message-set_error,
}

-- A step of `rust_ext_extension_load`: the callback's exception is written into the error, the step
-- fails with a message of its own.
unfoldable pub failing_step : Text → Result Text Unit → ErrorState → Result Text Unit × ErrorState
unfolding set_error
failing_step message (ok _) s = (ok tt, s)
failing_step message (err what) s = (err message, set_error what s)

-- `ffi_bool`, over the error that the closure has written into
unfoldable pub ffi_bool : Text → Result Text Unit × ErrorState → Bool × ErrorState
unfolding set_error
ffi_bool context (ok _, s) = (true, s)
ffi_bool context (err message, s) = (false, set_error (with_context context message) s)

-- The load whose callback fails with `what`, up to the exception that `LoadFromRustBridge` throws.
unfoldable pub failed_load : Text → Text → ErrorState → Option (Text × StringMemory)
unfolding failing_step ffi_bool take_error_message
failed_load message what s =
    take_error_message
      (ffi_bool (codes "failed to load Coda extension") (failing_step message (err what) s)).1

-- The strings that a callback's message leaves behind.
abbrev pub with_message : Text → StringMemory → List (ℕ × Text)
with_message what m = if is_empty what then m.blocks else (suc m.last, what) ∷ m.blocks

set_error-blocks :
    (what : Text) (s : ErrorState) → (set_error what s).memory.blocks ≡ with_message what s.memory
unfolding set_error alloc_string
set_error-blocks what s = elim (Bool-cases (is_empty what)) [
  | inl no_message ↦ rw (set_error, alloc_string, no_message) refl
  | inr some_message ↦ rw (set_error, alloc_string, some_message) refl
]

-- A load that fails in a host callback throws the message of the step, with the context of the load;
-- what the callback has reported is not in it, and stays allocated with no pointer to it, if it is
-- not empty.
pub failed_load-left :
    (message what : Text) (s : ErrorState)
    → (m : StringMemory) × (failed_load message what s
        ≡ some (with_context (codes "failed to load Coda extension") message, m))
      × (m.blocks ≡ with_message what s.memory)
unfolding failed_load failing_step ffi_bool
failed_load-left message what s =
    let (m, taken, same) =
      take_error_message-set_error (with_context (codes "failed to load Coda extension") message)
        (set_error what s) refl in
    (m, taken, same ∙ set_error-blocks what s)
