-- ===== src/Text.antt =====
-- Strings, as the lists of their bytes: `std::string`, `RustExtString` and `&str`. A null pointer
-- and a length of 0 both read as the empty text, and texts are taken to be valid UTF-8.
pub mod Search
pub mod Case
use Prim.Native.Char.{code}
use Prim.Native.String
use Prim.Native.String.{String}
use duckdb_coda.Prelude.{
  ℕ, Bool, true, false, ◌&&◌, ◌||◌, List, [], ◌∷◌, map, ◌+◌, ◌==◌, leb, if◌then◌else◌, is_empty,
}

abbrev pub Text : Type 0
Text = List ℕ

-- The bytes of an ASCII literal.
abbrev pub codes : String → Text
codes String.[] = []
codes (String.◌∷◌ c s) = code c ∷ codes s

-- `==` of two strings.
unfoldable pub text_eq : Text → Text → Bool
text_eq [] [] = true
text_eq [] (d ∷ t) = false
text_eq (c ∷ s) [] = false
text_eq (c ∷ s) (d ∷ t) = (c == d) && text_eq s t

-- `haystack.find(needle) == 0`
unfoldable pub starts_with : Text → Text → Bool
starts_with [] haystack = true
starts_with (c ∷ needle) [] = false
starts_with (c ∷ needle) (d ∷ haystack) = (c == d) && starts_with needle haystack

-- `haystack.find(needle) != string::npos`
unfoldable pub contains : Text → Text → Bool
unfolding starts_with
contains needle [] = is_empty needle
contains needle (d ∷ haystack) = starts_with needle (d ∷ haystack) || contains needle haystack

-- `u8::to_ascii_lowercase`
unfoldable pub to_ascii_lower : ℕ → ℕ
to_ascii_lower c = if leb b'A' c && leb c b'Z' then c + 32 else c

-- `str::eq_ignore_ascii_case`
unfoldable pub eq_ignore_ascii_case : Text → Text → Bool
unfolding text_eq to_ascii_lower
eq_ignore_ascii_case s t = text_eq (map to_ascii_lower s) (map to_ascii_lower t)
