-- ===== src/Blocks/Attaching.antt =====
-- `resolve_attach` of src/attach.rs with its allocations, and `rust_ext_free_attach_config`. A callback
-- of the host allocates its answer, and its message if it fails.
pub mod Resolves
pub mod Credential
pub mod Built
pub mod Released
use duckdb_coda.Prelude.{
  ℕ, Bool, not, List, is_empty, if◌then◌else◌, Result, ok, err, and_then, ◌++◌,
}
use duckdb_coda.Text.{Text, codes}
use duckdb_coda.Sdk.{normalize_api_base}
use duckdb_coda.Platform.{Platform}
use duckdb_coda.Ownership.{Fault}
use duckdb_coda.Attach.{
  RustExtAttachConfig, AttachHost, secret_type, secret_scope_prefix, token_option, api_base_option,
  include_row_metadata_option, resource_of, boolean_option,
}
use duckdb_coda.Blocks.{
  Slice, Content, Heap, into_raw_parts, from_raw_parts, alloc_string, as_str, free, ◌then_free◌,
}

-- `RustExtAttachConfig`
pub record RawAttachConfig : Type 0 where
  pub resource : Slice
  pub credential : Slice
  pub endpoint : Slice
  pub primary_secret_scope : Slice
  pub fallback_secret_scope : Slice
  pub include_system_columns : Bool

-- `rust_ext_free_attach_config`
unfoldable pub free_attach_config : Content → RawAttachConfig → List ℕ → Result Fault (List ℕ)
unfolding free
free_attach_config content config =
    free content config.resource
    then_free free content config.credential
    then_free free content config.endpoint
    then_free free content config.primary_secret_scope
    then_free free content config.fallback_secret_scope

abbrev pub Attaching : Type 0 → Type 0
Attaching A = Result Fault (Result Text A × Heap)

abbrev pub resume : {A B : Type 0} → (A → Heap → Attaching B) → Result Text A × Heap → Attaching B
resume f (ok a, h) = f a h
resume f (err message, h) = ok (err message, h)

-- A call and what follows it, unless it fails.
abbrev pub then_call : {A B : Type 0} → Attaching A → (A → Heap → Attaching B) → Attaching B
then_call m f = and_then m (resume f)

-- The end of `get_option` and of `lookup_secret`, with the answer of the host.
unfoldable pub host_call : Text → Result Text Text → Heap → Attaching Slice
unfolding free into_raw_parts from_raw_parts
host_call message (ok value) h = let (out, h') = alloc_string value h in ok (ok out, h')
host_call message (err e) h =
    let (error, h₁) = alloc_string e h in
    and_then (as_str h₁.content error h₁.live) (λ text.
      and_then (free h₁.content error h₁.live)
        (λ left. ok (err (if is_empty text then message else text), record h₁ { live = left })))

unfoldable pub get_option_raw : AttachHost → Text → Heap → Attaching Slice
unfolding host_call
get_option_raw host name = host_call (codes "host attach option failed") (host.get_option name)

unfoldable pub lookup_secret_raw : AttachHost → Slice → Heap → Attaching Slice
unfolding host_call from_raw_parts
lookup_secret_raw host scope h = and_then (as_str h.content scope h.live) (λ text.
    host_call (codes "host secret lookup failed") (host.lookup_secret text secret_type token_option)
      h)

-- The secret of all documents, if that of the document is empty.
unfoldable pub take_fallback : RawAttachConfig → Slice → Heap → Attaching RawAttachConfig
unfolding free from_raw_parts
take_fallback config fallback h = and_then (as_str h.content fallback h.live) (λ text.
    if is_empty text
    then and_then (free h.content fallback h.live)
        (λ left. ok (err (codes "missing credential"), record h { live = left }))
    else ok (ok (record config { credential = fallback }), h))

unfoldable pub take_secret : AttachHost → RawAttachConfig → Slice → Heap → Attaching RawAttachConfig
unfolding free from_raw_parts lookup_secret_raw take_fallback
take_secret host config secret h = and_then (as_str h.content secret h.live) (λ text.
    if not (is_empty text)
    then ok (ok (record config { credential = secret }), h)
    else and_then (free h.content secret h.live) (λ left.
      then_call (lookup_secret_raw host config.fallback_secret_scope (record h { live = left }))
        (take_fallback config)))

-- The credential of a config whose option has none.
unfoldable pub complete_config : AttachHost → RawAttachConfig → Heap → Attaching RawAttachConfig
unfolding from_raw_parts lookup_secret_raw take_secret
complete_config host config h = and_then (as_str h.content config.credential h.live) (λ text.
    if is_empty text
    then then_call (lookup_secret_raw host config.primary_secret_scope h) (take_secret host config)
    else ok (ok config, h))

-- The config, with the strings of the options copied to it and released.
unfoldable pub build_config :
    {Double : Type 0}
    → Platform Double
    → Text
    → Slice
    → Slice
    → Slice
    → Bool
    → Heap
    → Result Fault (RawAttachConfig × Heap)
unfolding free into_raw_parts from_raw_parts
build_config platform resource credential endpoint metadata include_system_columns h =
    let (resource', h₁) = alloc_string resource h in
    and_then (as_str h₁.content credential h₁.live) (λ token.
      let (credential', h₂) = alloc_string token h₁ in
      and_then (as_str h₂.content endpoint h₂.live) (λ base.
        let (endpoint', h₃) =
          alloc_string
            (normalize_api_base (if is_empty base then platform.default_base_url else base)) h₂ in
        let (primary, h₄) = alloc_string (secret_scope_prefix ++ resource) h₃ in
        let (fallback, h₅) = alloc_string secret_scope_prefix h₄ in
        and_then (free h₅.content credential h₅.live) (λ left.
          and_then (free h₅.content endpoint left) (λ left'.
            and_then (free h₅.content metadata left') (λ left''. ok (
              record {
                resource = resource';
                credential = credential';
                endpoint = endpoint';
                primary_secret_scope = primary;
                fallback_secret_scope = fallback;
                include_system_columns = include_system_columns;
              },
              record h₅ { live = left'' },
            ))))))

-- The rest of `resolve_attach`, with the three options.
unfoldable pub with_options :
    {Double : Type 0}
    → Platform Double
    → AttachHost
    → Text
    → Slice
    → Slice
    → Slice
    → Heap
    → Attaching RawAttachConfig
unfolding build_config complete_config from_raw_parts resource_of boolean_option
with_options platform host path credential endpoint metadata h =
    if is_empty (resource_of path)
    then ok (err (codes "empty doc id"), h)
    else and_then (as_str h.content metadata h.live) (λ text.
      then_call (ok (boolean_option text, h)) (λ include_system_columns h'.
        and_then
          (build_config platform (resource_of path) credential endpoint metadata
            include_system_columns h')
          (λ built. complete_config host built.0 built.1)))

-- `resolve_attach`
unfoldable pub resolve_attach_raw :
    {Double : Type 0} → Platform Double → AttachHost → Text → Heap → Attaching RawAttachConfig
unfolding get_option_raw with_options
resolve_attach_raw platform host path h =
    then_call (get_option_raw host token_option h) (λ credential h₁.
      then_call (get_option_raw host api_base_option h₁) (λ endpoint h₂.
        then_call (get_option_raw host include_row_metadata_option h₂)
          (with_options platform host path credential endpoint)))
