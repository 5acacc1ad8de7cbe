-- ===== src/Prelude/Calls.antt =====
-- How a call ends: with a value, with an error, or with its fuel run out. The state comes back
-- with an error too, since what was written before it stays written.
use Prim.Native.Nat.{suc}
use mathlib.Core.List.{List, [], ◌∷◌, ◌++◌}
use mathlib.Core.Path.{◌≡◌, refl, ap, ◌∙◌}
use mathlib.Core.Logic.{◌⊎◌, inl, inr}
use duckdb_coda.Prelude.Lists.{length}

pub data Outcome (E S A : Type 0) : Type 0 where
  returned : A → S → Outcome E S A
  threw : E → S → Outcome E S A
  out_of_fuel : Outcome E S A

infixl 5 ◌>>=◌
abbrev pub ◌>>=◌ : {E S A B : Type 0} → Outcome E S A → (A → S → Outcome E S B) → Outcome E S B
returned a s >>= f = f a s
threw e s >>= f = threw e s
out_of_fuel >>= f = out_of_fuel

-- A result without state: of a callee that changes nothing.
pub data Result (E A : Type 0) : Type 0 where
  ok : A → Result E A
  err : E → Result E A

abbrev pub and_then : {E A B : Type 0} → Result E A → (A → Result E B) → Result E B
and_then (ok a) f = f a
and_then (err e) f = err e

-- A call that threads the world: what follows it, unless it fails.
abbrev pub and_run : {E W A B : Type 0} → Result E A × W → (A → W → Result E B × W) → Result E B × W
and_run (ok a, w) f = f a w
and_run (err e, w) f = (err e, w)

-- The first error of a list of fallible calls, or all of their results.
abbrev pub traverse : {E A B : Type 0} → (A → Result E B) → List A → Result E (List B)
traverse f [] = ok []
traverse f (a ∷ rest) = and_then (f a) (λ b. and_then (traverse f rest) (λ bs. ok (b ∷ bs)))

pub and_then-eq-ok :
    {E A B : Type 0} (r : Result E A) (f : A → Result E B) {b : B}
    → and_then r f ≡ ok b
    → (a : A) × (r ≡ ok a) × (f a ≡ ok b)
and_then-eq-ok (ok a) f h = (a, refl, h)
and_then-eq-ok (err e) f h = cc

-- A list of fallible calls that succeeds, taken apart at its head.
pub traverse-cons :
    {E A B : Type 0} (f : A → Result E B) (a : A) (rest : List A) {bs : List B}
    → traverse f (a ∷ rest) ≡ ok bs
    → (b : B) × (cs : List B) × (bs ≡ b ∷ cs) × (f a ≡ ok b) × (traverse f rest ≡ ok cs)
traverse-cons f a rest h =
    let (b, e, k) = and_then-eq-ok (f a) _ h in
    let (cs, e', k') = and_then-eq-ok (traverse f rest) _ k in (b, cs, cc k', e, e')

pub traverse-nil :
    {E A B : Type 0} (f : A → Result E B) {bs : List B} → traverse f [] ≡ ok bs → bs ≡ []
traverse-nil f h = cc

pub and_run-eq-ok :
    {E W A B : Type 0} (r : Result E A × W) (f : A → W → Result E B × W) {b : B} {w : W}
    → and_run r f ≡ (ok b, w)
    → (a : A) × (w₁ : W) × (r ≡ (ok a, w₁)) × (f a w₁ ≡ (ok b, w))
and_run-eq-ok (ok a, w₁) f h = (a, w₁, refl, h)
and_run-eq-ok (err e, w₁) f h = cc (ap (λ p. p.0) h)

pub Result-cases :
    {E A : Type 0} (r : Result E A) → ((a : A) × (r ≡ ok a)) ⊎ ((e : E) × (r ≡ err e))
Result-cases (ok a) = inl (a, refl)
Result-cases (err e) = inr (e, refl)

pub traverse-length :
    {E A B : Type 0} (f : A → Result E B) (xs : List A) {bs : List B}
    → traverse f xs ≡ ok bs
    → length bs ≡ length xs
traverse-length f [] h = ap length (traverse-nil f h)
traverse-length f (a ∷ xs) h =
    let (b, cs, e, _, rest) = traverse-cons f a xs h in
    ap length e ∙ ap suc (traverse-length f xs rest)

pub traverse-append :
    {E A B : Type 0} (f : A → Result E B) (xs ys : List A) {bs : List B}
    → traverse f (xs ++ ys) ≡ ok bs
    → (cs cs' : List B) × (bs ≡ cs ++ cs') × (traverse f xs ≡ ok cs) × (traverse f ys ≡ ok cs')
traverse-append f [] ys {bs} h = ([], bs, refl, refl, h)
traverse-append f (a ∷ xs) ys h =
    let (b, ds, e, one, rest) = traverse-cons f a (xs ++ ys) h in
    let (cs, cs', e', first, later) = traverse-append f xs ys rest in
    (b ∷ cs, cs', e ∙ ap (λ t. b ∷ t) e', rw (one, first), later)

pub ok-value : {E A : Type 0} {a b : A} → ◌≡◌ {A = Result E A} (ok a) (ok b) → a ≡ b
ok-value h = cc h

-- Two calls that end alike, with the same value and the same world.
pub ok-world :
    {E W A : Type 0} {a b : A} {w w' : W}
    → ◌≡◌ {A = Result E A × W} (ok a, w) (ok b, w')
    → (a ≡ b) × (w ≡ w')
ok-world h = (ok-value (ap (λ p. p.0) h), ap (λ p. p.1) h)

-- A call that goes through, and what follows it.
pub and_then-ok :
    {E A B : Type 0} (f : A → Result E B) {r : Result E A} {a : A} {s : Result E B}
    → r ≡ ok a
    → f a ≡ s
    → and_then r f ≡ s
and_then-ok f h k = ap (λ r. and_then r f) h ∙ k
