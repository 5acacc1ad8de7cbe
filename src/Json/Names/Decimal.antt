-- ===== src/Json/Names/Decimal.antt =====
-- Decimal digits read back, so that numbers with the same digits up to case are equal.
use duckdb_coda.Prelude.{
  ℕ, zero, suc, ◌+◌, ◌-◌, ◌*◌, ◌/◌, ◌%◌, ◌==◌, ◌<◌, ◌≡◌, refl, sym, ap, ◌∙◌, Bool-cases, inl, inr,
  [], ◌∷◌, map, arith,
}
use duckdb_coda.Text.{Text, to_ascii_lower}
use duckdb_coda.Sdk.{digits_before, decimal}

-- The number that digits stand for, after those that stand for `n`.
unfoldable read_digits : ℕ → Text → ℕ
read_digits n [] = n
read_digits n (c ∷ digits) = read_digits (n * 10 + (c - b'0')) digits

read_digits-digits_before :
    (fuel n : ℕ) (acc : Text)
    → n < fuel
    → read_digits 0 (digits_before fuel n acc) ≡ read_digits n acc
unfolding read_digits digits_before
read_digits-digits_before zero n acc h = absurd (omega arith)
read_digits-digits_before (suc fuel) n acc h = elim (Bool-cases (n / 10 == 0)) [
  | inl last ↦
      let e : 0 * 10 + (b'0' + n % 10 - b'0') ≡ n = ground (arith, last) in
      rw (digits_before, last) (ap (λ m. read_digits m acc) e)
  | inr more ↦
      let small : n / 10 < fuel = ground (arith, more, h) in
      let e : n / 10 * 10 + (b'0' + n % 10 - b'0') ≡ n = omega arith in
      rw (digits_before, more)
        (read_digits-digits_before fuel (n / 10) _ small ∙ ap (λ m. read_digits m acc) e)
]

digit-lower : (n : ℕ) → to_ascii_lower (b'0' + n % 10) ≡ b'0' + n % 10
unfolding to_ascii_lower
digit-lower n = ground arith

digits_before-lower :
    (fuel n : ℕ) (acc : Text)
    → map to_ascii_lower (digits_before fuel n acc) ≡ digits_before fuel n (map to_ascii_lower acc)
unfolding digits_before
digits_before-lower zero n acc = refl
digits_before-lower (suc fuel) n acc = elim (Bool-cases (n / 10 == 0)) [
  | inl last ↦ rw (digits_before, last, digit-lower n) refl
  | inr more ↦
      rw (digits_before, more)
        (digits_before-lower fuel (n / 10) _
          ∙ ap (λ c. digits_before fuel (n / 10) (c ∷ map to_ascii_lower acc)) (digit-lower n))
]

pub decimal-lower : (n : ℕ) → map to_ascii_lower (decimal n) ≡ decimal n
unfolding decimal
decimal-lower n = digits_before-lower (suc n) n []

pub decimal-injective : (m n : ℕ) → decimal m ≡ decimal n → m ≡ n
unfolding decimal read_digits
decimal-injective m n h =
    sym (read_digits-digits_before (suc m) m [] (omega arith))
    ∙ ap (read_digits 0) h
    ∙ read_digits-digits_before (suc n) n [] (omega arith)
