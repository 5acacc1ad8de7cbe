-- ===== src/Text/Case.antt =====
-- Equality up to ASCII case, as an equivalence.
use duckdb_coda.Prelude.{◌≡◌, sym, ◌∙◌, true, map}
use duckdb_coda.Text.{Text, to_ascii_lower, eq_ignore_ascii_case}
use duckdb_coda.Text.Search.{text_eq-eq, text_eq_self, text_eq_iff}

pub eq_ignore_ascii_case_refl : (s : Text) → eq_ignore_ascii_case s s ≡ true
unfolding eq_ignore_ascii_case
eq_ignore_ascii_case_refl s = text_eq_self (map to_ascii_lower s)

pub eq_ignore_ascii_case_sym :
    (s t : Text) → eq_ignore_ascii_case s t ≡ true → eq_ignore_ascii_case t s ≡ true
unfolding eq_ignore_ascii_case
eq_ignore_ascii_case_sym s t h =
    (text_eq_iff (map to_ascii_lower t) (map to_ascii_lower s)).1 (sym (text_eq-eq _ _ h))

pub eq_ignore_ascii_case_trans :
    (s t u : Text)
    → eq_ignore_ascii_case s t ≡ true
    → eq_ignore_ascii_case t u ≡ true
    → eq_ignore_ascii_case s u ≡ true
unfolding eq_ignore_ascii_case
eq_ignore_ascii_case_trans s t u h k =
    (text_eq_iff (map to_ascii_lower s) (map to_ascii_lower u)).1 (
      text_eq-eq (map to_ascii_lower s) (map to_ascii_lower t) h
      ∙ text_eq-eq (map to_ascii_lower t) (map to_ascii_lower u) k)
