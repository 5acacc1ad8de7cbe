-- ===== src/Blocks/Readers/Made.antt =====
-- The calls that allocate, against the same calls by value: alike in their result and in their error,
-- and with a result that holds its value in all that was allocated.
use duckdb_coda.Prelude.{
  ℕ, Bool, true, false, if◌then◌else◌, List, [], ◌∷◌, ◌++◌, Result, ok, err, and_then, and_run,
  traverse,
}
use duckdb_coda.Text.{Text}
use duckdb_coda.Blocks.{Heap, alloc_string, byte_kind}
use duckdb_coda.Blocks.Holds.{Owning, each, nil, cons}
use duckdb_coda.Blocks.Stored.{
  Grows, Stays, Grows-none, Grows-then, Stays-later, parts_of, into_raw_parts-Grows,
}
use duckdb_coda.Blocks.Readers.{push_each}

pub data Made {R V : Type 0} (P : Owning R V) (h : Heap)
    : Result Text V → Result Text R × Heap → Type 0 where
  made :
      {raw : R} {v : V} {h' : Heap} (blocks : List ℕ)
      → Grows h h' blocks
      → Stays P h' raw v blocks
      → Made P h (ok v) (ok raw, h')
  failed :
      {message : Text} {h' : Heap} (leaked : List ℕ)
      → Grows h h' leaked
      → Made P h (err message) (err message, h')

-- The same of a call that does not fail.
pub record Kept {R V : Type 0} (P : Owning R V) (h : Heap) (v : V) (m : R × Heap) : Type 0 where
  pub blocks : List ℕ
  pub grows : Grows h m.1 blocks
  pub owns : Stays P m.1 m.0 v blocks

-- The same of an answer that is read.
pub data Answered {R V W : Type 0} (P : Owning R V) (heap : Heap)
    : Result Text V × W → Result Text R × (W × Heap) → Type 0 where
  answered :
      {r : Result Text V} {m : Result Text R} {w : W} {heap' : Heap}
      → Made P heap r (m, heap')
      → Answered P heap (r, w) (m, (w, heap'))

module _ {R V : Type 0} (P : Owning R V) where
  pub Kept-if :
      {h : Heap} {v v' : V} {m m' : R × Heap} (test : Bool)
      → Kept P h v m
      → Kept P h v' m'
      → Kept P h (if test then v else v') (if test then m else m')
  Kept-if true k k' = k
  Kept-if false k k' = k'

  -- A step that allocates nothing.
  pub Made-pure :
      {A : Type 0} {h h₁ : Heap} (leaked : List ℕ) (r : Result Text A) (f : A → Result Text V)
      (g : A → Heap → Result Text R × Heap)
      → Grows h h₁ leaked
      → ((a : A) → Made P h (f a) (g a h₁))
      → Made P h (and_then r f) (and_run (r, h₁) g)
  Made-pure leaked (ok a) f g grows next = next a
  Made-pure leaked (err message) f g grows next = failed leaked grows

  module _ {R₁ V₁ : Type 0} (Q : Owning R₁ V₁) where
    -- A step after another, with what was allocated before both.
    pub Made-bind :
        {h h₁ : Heap} (before : List ℕ) {r : Result Text V₁} {m : Result Text R₁ × Heap}
        (f : V₁ → Result Text V) (g : R₁ → Heap → Result Text R × Heap)
        → Grows h h₁ before
        → Made Q h₁ r m
        → ((raw : R₁) (v : V₁) (h₂ : Heap) (blocks : List ℕ)
            → Grows h₁ h₂ blocks
            → Stays Q h₂ raw v blocks
            → Made P h (f v) (g raw h₂))
        → Made P h (and_then r f) (and_run m g)
    Made-bind before f g grows (made blocks more stays) next = next _ _ _ blocks more stays
    Made-bind before f g grows (failed leaked more) next =
        failed (before ++ leaked) (Grows-then grows more)

-- A loop of such calls.
module _ {R V : Type 0} (P : Owning R V) where
  pub Made-each :
      {A : Type 0} (f : A → Result Text V) (g : A → Heap → Result Text R × Heap)
      → ((a : A) (h : Heap) → Made P h (f a) (g a h))
      → (items : List A) (h : Heap) → Made (each P) h (traverse f items) (push_each g items h)
  Made-each f g one [] h = made [] (Grows-none h) nil
  Made-each f g one (a ∷ rest) h =
      Made-bind (each P) P [] _ _ (Grows-none h) (one a h) (λ raw v h₂ blocks grows stays.
        Made-bind (each P) (each P) blocks _ _ grows (Made-each f g one rest h₂)
          (λ raws vs h₃ more grows' stays'.
            made (blocks ++ more) (Grows-then grows grows')
              (cons (Stays-later P grows' stays) stays')))

-- What a text that is allocated leaves.
pub alloc_string-Grows :
    (text : Text) (h : Heap) → Grows h (alloc_string text h).1 (parts_of byte_kind text h)
alloc_string-Grows = into_raw_parts-Grows byte_kind
