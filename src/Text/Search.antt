-- ===== src/Text/Search.antt =====
-- What the searches in a text find.
use duckdb_coda.Prelude.{
  ◌≡◌, refl, ap, ◌↔◌, inl, inr, true, [], ◌∷◌, ◌++◌, arith, Bool-cases, subst,
}
use duckdb_coda.Text.{Text, text_eq, starts_with, contains}

pub text_eq-eq : (s t : Text) → text_eq s t ≡ true → s ≡ t
unfolding text_eq
text_eq-eq [] [] h = refl
text_eq-eq [] (d ∷ t) h = cc
text_eq-eq (c ∷ s) [] h = cc
text_eq-eq (c ∷ s) (d ∷ t) h = ground (arith, text_eq-eq s t)

pub text_eq_self : (s : Text) → text_eq s s ≡ true
unfolding text_eq
text_eq_self [] = refl
text_eq_self (c ∷ s) = ground (arith, text_eq_self s)

pub text_eq_iff : (s t : Text) → (text_eq s t ≡ true) ↔ (s ≡ t)
text_eq_iff s t = (text_eq-eq s t, λ e. subst (λ u. text_eq s u ≡ true) e (text_eq_self s))

starts_with-append : (s t : Text) → starts_with s (s ++ t) ≡ true
unfolding starts_with
starts_with-append [] t = refl
starts_with-append (c ∷ s) t = ground (arith, starts_with-append s t)

starts_with-split : (s t : Text) → starts_with s t ≡ true → (rest : Text) × (t ≡ s ++ rest)
unfolding starts_with
starts_with-split [] t h = (t, refl)
starts_with-split (c ∷ s) [] h = cc
starts_with-split (c ∷ s) (d ∷ t) h =
    let (rest, e) = starts_with-split s t (ground arith) in (rest, ground arith)

-- A needle that stands somewhere in a text is found.
pub contains_of_split :
    (before needle after : Text) → contains needle (before ++ (needle ++ after)) ≡ true
unfolding contains
contains_of_split [] [] [] = refl
contains_of_split [] [] (d ∷ after) = refl
contains_of_split [] (c ∷ needle) after = rw (starts_with-append (c ∷ needle) after)
contains_of_split (d ∷ before) needle after = ground (arith, contains_of_split before needle after)

-- A needle that is found stands somewhere in the text.
pub contains-split :
    (needle t : Text)
    → contains needle t ≡ true
    → (before : Text) × (after : Text) × (t ≡ before ++ (needle ++ after))
unfolding contains
contains-split [] [] h = ([], [], refl)
contains-split (c ∷ needle) [] h = cc
contains-split needle (d ∷ t) h = elim (Bool-cases (starts_with needle (d ∷ t))) [
  | inl here ↦ let (rest, e) = starts_with-split needle (d ∷ t) here in ([], rest, e)
  | inr further ↦
      let (before, after, e) = contains-split needle t (ground arith) in
      (d ∷ before, after, ap (λ (u : Text). d ∷ u) e)
]
