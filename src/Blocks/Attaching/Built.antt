-- ===== src/Blocks/Attaching/Built.antt =====
-- The config that `resolve_attach` makes of the options: they are copied to it, and released.
use duckdb_coda.Prelude.{
  ℕ, ◌≡◌, refl, Bool, true, List, [], ◌∷◌, ◌++◌, ok, and_then-ok, is_empty, if◌then◌else◌, arith,
}
use duckdb_coda.Text.{Text}
use duckdb_coda.Sdk.{normalize_api_base}
use duckdb_coda.Platform.{Platform}
use duckdb_coda.Ownership.{count}
use duckdb_coda.Attach.{secret_scope_prefix}
use duckdb_coda.Blocks.{Slice, Heap, byte_kind, alloc_string}
use duckdb_coda.Blocks.Holds.{Within, count-append}
use duckdb_coda.Blocks.Stored.{
  TextHolds, Grows, Agrees, Agrees-earlier, Grows-then, Stays-later, parts_of, store_text,
}
use duckdb_coda.Blocks.Readers.Made.{alloc_string-Grows}
use duckdb_coda.Blocks.Attaching.{RawAttachConfig, build_config}
use duckdb_coda.Blocks.Attaching.Resolves.{config_of, ConfigParts}

-- The empty text has no block.
parts_of-empty :
    (text : Text) (h : Heap)
    → is_empty text ≡ true
    → (a : ℕ) → count a (parts_of byte_kind text h) ≡ 0
unfolding count
parts_of-empty [] h empty a = refl
parts_of-empty (c ∷ text) h empty a = cc empty

pub record Built {Double : Type 0} (platform : Platform Double) (h₀ heap : Heap) (resource : Text)
    (c e m : Slice) (credential endpoint : Text) (flag : Bool) : Type 0 where
  pub raw : RawAttachConfig
  pub heap' : Heap
  pub blocks : List ℕ
  pub goes : build_config platform resource c e m flag heap ≡ ok (raw, heap')
  pub grows : Grows h₀ heap' blocks
  pub parts :
      ConfigParts
        (Agrees heap')
        raw
        (config_of resource credential
          (normalize_api_base (if is_empty endpoint then platform.default_base_url else endpoint))
          flag)
        blocks
  pub hollow : is_empty credential ≡ true → (a : ℕ) → count a parts.cs ≡ 0

pub build_config-Built :
    {Double : Type 0} (platform : Platform Double) (h₀ heap : Heap) (resource : Text)
    (c e m : Slice) (credential endpoint metadata : Text) (flag : Bool) (xs ys zs : List ℕ)
    → TextHolds.owns (Agrees heap) c credential xs
    → TextHolds.owns (Agrees heap) e endpoint ys
    → TextHolds.owns (Agrees heap) m metadata zs
    → Grows h₀ heap (xs ++ (ys ++ zs))
    → Built platform h₀ heap resource c e m credential endpoint flag
unfolding build_config
build_config-Built platform h₀ heap resource c e m credential endpoint metadata flag xs ys zs own_c
      own_e own_m grows =
    let base =
      normalize_api_base (if is_empty endpoint then platform.default_base_url else endpoint) in
    let (resource', h₁) = alloc_string resource heap in
    let (credential', h₂) = alloc_string credential h₁ in
    let (endpoint', h₃) = alloc_string base h₂ in
    let (primary, h₄) = alloc_string (secret_scope_prefix ++ resource) h₃ in
    let (fallback, h₅) = alloc_string secret_scope_prefix h₄ in
    let g₁ = alloc_string-Grows resource heap in
    let g₂ = alloc_string-Grows credential h₁ in
    let g₃ = alloc_string-Grows base h₂ in
    let g₄ = alloc_string-Grows (secret_scope_prefix ++ resource) h₃ in
    let g₅ = alloc_string-Grows secret_scope_prefix h₄ in
    let g₄₅ = Grows-then g₄ g₅ in
    let g₃₅ = Grows-then g₃ g₄₅ in
    let g₂₅ = Grows-then g₂ g₃₅ in
    let g₁₅ = Grows-then g₁ g₂₅ in
    let k₅ = Agrees-earlier g₁₅ h₅.content (λ a le. refl) in
    let there : Within (xs ++ (ys ++ zs)) heap.live = λ a. omega (arith, grows.counted a) in
    let there₅ : Within (xs ++ (ys ++ zs)) h₅.live = λ a. omega (arith, there a, g₁₅.counted a) in
    let read_c =
      (own_c h₁.content (Agrees-earlier g₁ h₁.content (λ a le. refl))).reads h₁.live
        (λ a. omega (arith, there a, g₁.counted a, count-append)) in
    let read_e =
      (own_e h₂.content (Agrees-earlier (Grows-then g₁ g₂) h₂.content (λ a le. refl))).reads h₂.live
        (λ a. omega (arith, there a, g₁.counted a, g₂.counted a, count-append)) in
    let freed_c =
      (own_c h₅.content k₅).frees h₅.live (λ a. omega (arith, there₅ a, count-append)) in
    let freed_e =
      (own_e h₅.content k₅).frees freed_c.left
        (λ a. omega (arith, there₅ a, freed_c.less a, count-append)) in
    let freed_m =
      (own_m h₅.content k₅).frees freed_e.left
        (λ a. omega (arith, there₅ a, freed_c.less a, freed_e.less a, count-append)) in
    let all = Grows-then grows g₁₅ in
    record {
      raw = record {
        resource = resource';
        credential = credential';
        endpoint = endpoint';
        primary_secret_scope = primary;
        fallback_secret_scope = fallback;
        include_system_columns = flag;
      };
      heap' = record h₅ { live = freed_m.left };
      blocks =
          parts_of byte_kind resource heap
          ++ (parts_of byte_kind credential h₁
              ++ (parts_of byte_kind base h₂
                  ++ (parts_of byte_kind (secret_scope_prefix ++ resource) h₃
                      ++ parts_of byte_kind secret_scope_prefix h₄)));
      goes = and_then-ok _ read_c (
          and_then-ok _ read_e (
            and_then-ok _ freed_c.goes
              (and_then-ok _ freed_e.goes (and_then-ok _ freed_m.goes refl))));
      grows = record {
        last_le = all.last_le;
        counted = λ a.
            omega
              (arith, all.counted a, freed_c.less a, freed_e.less a, freed_m.less a, count-append);
        kept = all.kept;
      };
      parts = record {
        rs = parts_of byte_kind resource heap;
        cs = parts_of byte_kind credential h₁;
        es = parts_of byte_kind base h₂;
        ps = parts_of byte_kind (secret_scope_prefix ++ resource) h₃;
        fs = parts_of byte_kind secret_scope_prefix h₄;
        resource = Stays-later TextHolds g₂₅ (store_text resource heap);
        credential = Stays-later TextHolds g₃₅ (store_text credential h₁);
        endpoint = Stays-later TextHolds g₄₅ (store_text base h₂);
        primary = Stays-later TextHolds g₅ (store_text (secret_scope_prefix ++ resource) h₃);
        fallback = store_text secret_scope_prefix h₄;
        flag = refl;
        same = λ a. refl;
      };
      hollow = parts_of-empty credential h₁;
    }
