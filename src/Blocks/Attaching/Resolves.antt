-- ===== src/Blocks/Attaching/Resolves.antt =====
-- The calls of `resolve_attach` with their allocations, against the same calls by value.
use duckdb_coda.Prelude.{
  ℕ, Bool, ◌≡◌, refl, sym, subst, List, [], ◌++◌, Result, ok, err, and_then, and_then-ok, arith,
}
use duckdb_coda.Text.{Text}
use duckdb_coda.Ownership.{count}
use duckdb_coda.Attach.{RustExtAttachConfig, secret_scope_prefix, host_error}
use duckdb_coda.Blocks.{Slice, Content, Heap, byte_kind, alloc_string}
use duckdb_coda.Blocks.Holds.{SameBlocks, Within, Owning}
use duckdb_coda.Blocks.Stored.{TextHolds, Grows, Stays, Grows-then, parts_of, store_text}
use duckdb_coda.Blocks.Readers.Made.{alloc_string-Grows}
use duckdb_coda.Blocks.Attaching.{RawAttachConfig, Attaching, then_call, host_call}

-- How such a call ends, by value and with its pointers.
pub data Resolves {R V : Type 0} (P : Owning R V) (h₀ : Heap)
    : Result Text V → Attaching R → Type 0 where
  resolved :
      {raw : R} {v : V} {h' : Heap} (blocks : List ℕ)
      → Grows h₀ h' blocks
      → Stays P h' raw v blocks
      → Resolves P h₀ (ok v) (ok (ok raw, h'))
  rejected :
      {message : Text} {h' : Heap} (leaked : List ℕ)
      → Grows h₀ h' leaked
      → Resolves P h₀ (err message) (ok (err message, h'))

module _ {R V : Type 0} (P : Owning R V) (h₀ : Heap) where
  pub Resolves-eq :
      {a b : Result Text V} {c d : Attaching R}
      → a ≡ b
      → c ≡ d
      → Resolves P h₀ b d
      → Resolves P h₀ a c
  Resolves-eq {a} {d = d} e f p =
      subst (Resolves P h₀ a) (sym f) (subst (λ x. Resolves P h₀ x d) (sym e) p)

  -- A call after another, with what was allocated before both.
  pub Resolves-bind :
      {R₁ V₁ : Type 0} (Q : Owning R₁ V₁) (h : Heap) (before : List ℕ) {r : Result Text V₁}
      {m : Attaching R₁} (f : V₁ → Result Text V) (g : R₁ → Heap → Attaching R)
      → Grows h₀ h before
      → Resolves Q h r m
      → ((raw : R₁) (v : V₁) (h₂ : Heap) (blocks : List ℕ)
          → Grows h h₂ blocks
          → Stays Q h₂ raw v blocks
          → Resolves P h₀ (f v) (g raw h₂))
      → Resolves P h₀ (and_then r f) (then_call m g)
  Resolves-bind Q h before f g grows (resolved blocks more stays) next =
      next _ _ _ blocks more stays
  Resolves-bind Q h before f g grows (rejected leaked more) next =
      rejected (before ++ leaked) (Grows-then grows more)

  -- A step that allocates nothing.
  pub Resolves-pure :
      {A : Type 0} (h : Heap) (leaked : List ℕ) (r : Result Text A) (f : A → Result Text V)
      (g : A → Heap → Attaching R)
      → Grows h₀ h leaked
      → ((a : A) → Resolves P h₀ (f a) (g a h))
      → Resolves P h₀ (and_then r f) (then_call (ok (r, h)) g)
  Resolves-pure h leaked (ok a) f g grows next = next a
  Resolves-pure h leaked (err message) f g grows next = rejected leaked grows

pub host_call-Resolves :
    (message : Text) (r : Result Text Text) (h : Heap)
    → Resolves TextHolds h (host_error message r) (host_call message r h)
unfolding host_error host_call count
host_call-Resolves message (ok value) h =
    resolved (parts_of byte_kind value h) (alloc_string-Grows value h) (store_text value h)
host_call-Resolves message (err e) h =
    let (error, h₁) = alloc_string e h in
    let g = alloc_string-Grows e h in
    let new = parts_of byte_kind e h in
    let text = store_text e h h₁.content (λ a le. refl) in
    let there : Within new h₁.live = λ a. omega (arith, g.counted a) in
    let freed = text.frees h₁.live there in
    subst (Resolves TextHolds h _)
      (sym (and_then-ok _ (text.reads h₁.live there) (and_then-ok _ freed.goes refl)))
      (rejected [] (record {
        last_le = g.last_le;
        counted = λ a. omega (arith, g.counted a, freed.less a);
        kept = g.kept;
      }))

-- What a config is by value.
abbrev pub config_of : Text → Text → Text → Bool → RustExtAttachConfig
config_of resource credential endpoint include_system_columns = record {
  resource = resource;
  credential = credential;
  endpoint = endpoint;
  primary_secret_scope = secret_scope_prefix ++ resource;
  fallback_secret_scope = secret_scope_prefix;
  include_system_columns = include_system_columns;
}

-- A config that owns its strings.
pub record ConfigParts (C : Content → Type 0) (raw : RawAttachConfig) (config : RustExtAttachConfig)
    (blocks : List ℕ) : Type 0 where
  pub rs : List ℕ
  pub cs : List ℕ
  pub es : List ℕ
  pub ps : List ℕ
  pub fs : List ℕ
  pub resource : TextHolds.owns C raw.resource config.resource rs
  pub credential : TextHolds.owns C raw.credential config.credential cs
  pub endpoint : TextHolds.owns C raw.endpoint config.endpoint es
  pub primary : TextHolds.owns C raw.primary_secret_scope config.primary_secret_scope ps
  pub fallback : TextHolds.owns C raw.fallback_secret_scope config.fallback_secret_scope fs
  pub flag : raw.include_system_columns ≡ config.include_system_columns
  pub same : SameBlocks (rs ++ (cs ++ (es ++ (ps ++ fs)))) blocks

abbrev pub ConfigParts-later :
    (C C' : Content → Type 0) (raw : RawAttachConfig) (config : RustExtAttachConfig)
    (blocks : List ℕ)
    → ((content : Content) → C' content → C content)
    → ConfigParts C raw config blocks
    → ConfigParts C' raw config blocks
ConfigParts-later C C' raw config blocks within parts = record {
  rs = parts.rs;
  cs = parts.cs;
  es = parts.es;
  ps = parts.ps;
  fs = parts.fs;
  resource = λ content k. parts.resource content (within content k);
  credential = λ content k. parts.credential content (within content k);
  endpoint = λ content k. parts.endpoint content (within content k);
  primary = λ content k. parts.primary content (within content k);
  fallback = λ content k. parts.fallback content (within content k);
  flag = parts.flag;
  same = parts.same;
}

abbrev pub ConfigOwns : Owning RawAttachConfig RustExtAttachConfig
ConfigOwns = record { owns = ConfigParts; later = ConfigParts-later }

-- Another credential in the place of that of the config.
pub with_credential :
    (C : Content → Type 0) (raw : RawAttachConfig) (resource credential endpoint : Text)
    (flag : Bool) (blocks : List ℕ)
    (parts : ConfigParts C raw (config_of resource credential endpoint flag) blocks) (slice : Slice)
    (found : Text) (zs : List ℕ)
    → TextHolds.owns C slice found zs
    → ConfigParts C
        (record raw { credential = slice })
        (config_of resource found endpoint flag)
        (parts.rs ++ (zs ++ (parts.es ++ (parts.ps ++ parts.fs))))
with_credential C raw resource credential endpoint flag blocks parts slice found zs owns = record {
  rs = parts.rs;
  cs = zs;
  es = parts.es;
  ps = parts.ps;
  fs = parts.fs;
  resource = parts.resource;
  credential = owns;
  endpoint = parts.endpoint;
  primary = parts.primary;
  fallback = parts.fallback;
  flag = parts.flag;
  same = λ a. refl;
}
