-- ===== src/Blocks/Attaching/Released.antt =====
-- What `resolve_attach` hands over, and its release by `rust_ext_free_attach_config`.
use duckdb_coda.Prelude.{
  ℕ, ◌≡◌, refl, ◌∙◌, Bool-cases, inl, inr, List, [], ◌++◌, Result, ok, err, and_then, and_then-ok,
  is_empty, if◌then◌else◌, if_true, if_false, arith,
}
use duckdb_coda.Text.{Text, codes}
use duckdb_coda.Sdk.{normalize_api_base}
use duckdb_coda.Platform.{Platform}
use duckdb_coda.Attach.{
  RustExtAttachConfig, AttachHost, token_option, api_base_option, include_row_metadata_option,
  resource_of, boolean_option, get_option, find_credential, resolve_attach,
}
use duckdb_coda.Blocks.{Slice, Content, Heap, as_str, free}
use duckdb_coda.Blocks.Holds.{
  Within-same, Within-left, Within-right, SameBlocks, Frees, Frees-same, Frees-then, count-append,
}
use duckdb_coda.Blocks.Stored.{TextHolds, Grows, Agrees, Stays-later, Grows-none, Grows-then}
use duckdb_coda.Blocks.Attaching.{
  RawAttachConfig, Attaching, free_attach_config, get_option_raw, with_options, resolve_attach_raw,
}
use duckdb_coda.Blocks.Attaching.Resolves.{
  Resolves, resolved, rejected, Resolves-eq, Resolves-bind, Resolves-pure, host_call-Resolves,
  config_of, ConfigParts, ConfigOwns,
}
use duckdb_coda.Blocks.Attaching.Credential.{complete_config-Resolves}
use duckdb_coda.Blocks.Attaching.Built.{build_config-Built}

get_option-Resolves :
    (host : AttachHost) (name : Text) (h : Heap)
    → Resolves TextHolds h (get_option host name) (get_option_raw host name h)
unfolding get_option get_option_raw
get_option-Resolves host name h =
    host_call-Resolves (codes "host attach option failed") (host.get_option name) h

module _ {Double : Type 0} (platform : Platform Double) (host : AttachHost) (path : Text)
    (h₀ : Heap) where
  abbrev base_of : Text → Text
  base_of endpoint =
      normalize_api_base (if is_empty endpoint then platform.default_base_url else endpoint)

  -- The rest of `resolve_attach` by value.
  abbrev options_config : Text → Text → Text → Result Text RustExtAttachConfig
  options_config credential endpoint metadata =
      if is_empty (resource_of path)
      then err (codes "empty doc id")
      else and_then (boolean_option metadata) (λ flag.
        and_then (find_credential host (resource_of path) credential)
          (λ found. ok (config_of (resource_of path) found (base_of endpoint) flag)))

  with_options-Resolves :
      (c e m : Slice) (credential endpoint metadata : Text) (heap : Heap) (xs ys zs : List ℕ)
      → Grows h₀ heap (xs ++ (ys ++ zs))
      → TextHolds.owns (Agrees heap) c credential xs
      → TextHolds.owns (Agrees heap) e endpoint ys
      → TextHolds.owns (Agrees heap) m metadata zs
      → Resolves ConfigOwns h₀
          (options_config credential endpoint metadata)
          (with_options platform host path c e m heap)
  unfolding with_options
  with_options-Resolves c e m credential endpoint metadata heap xs ys zs grows own_c own_e own_m =
      let read =
        (own_m heap.content (λ a le. refl)).reads heap.live
          (λ a. omega (arith, grows.counted a, count-append)) in
      elim (Bool-cases (is_empty (resource_of path))) [
        | inl empty ↦
            Resolves-eq ConfigOwns h₀ (if_true _ _ _ empty) (if_true _ _ _ empty)
              (rejected (xs ++ (ys ++ zs)) grows)
        | inr some_text ↦
            Resolves-eq ConfigOwns h₀ (if_false _ _ _ some_text)
              (if_false _ _ _ some_text ∙ and_then-ok _ read refl)
              (Resolves-pure ConfigOwns h₀ heap (xs ++ (ys ++ zs)) (boolean_option metadata) _ _
                grows
                (λ flag.
                  let built =
                    build_config-Built platform h₀ heap (resource_of path) c e m credential endpoint
                      metadata flag xs ys zs own_c own_e own_m grows in
                  Resolves-eq ConfigOwns h₀ refl (and_then-ok _ built.goes refl) (
                    complete_config-Resolves host h₀ built.raw (resource_of path) credential
                      (base_of endpoint) flag built.heap' built.blocks built.parts built.hollow
                      built.grows)))
      ]

resolve_attach-Resolves :
    {Double : Type 0} (platform : Platform Double) (host : AttachHost) (path : Text) (h : Heap)
    → Resolves ConfigOwns h
        (resolve_attach platform host path)
        (resolve_attach_raw platform host path h)
unfolding resolve_attach resolve_attach_raw
resolve_attach-Resolves platform host path h =
    Resolves-bind ConfigOwns h TextHolds h [] _ _ (Grows-none h)
      (get_option-Resolves host token_option h)
      (λ c credential h₁ xs g₁ own_c.
        Resolves-bind ConfigOwns h TextHolds h₁ xs _ _ g₁
          (get_option-Resolves host api_base_option h₁)
          (λ e endpoint h₂ ys g₂ own_e.
            Resolves-bind ConfigOwns h TextHolds h₂ (xs ++ ys)
              (options_config platform host path h credential endpoint) _ (Grows-then g₁ g₂)
              (get_option-Resolves host include_row_metadata_option h₂)
              (λ m metadata h₃ zs g₃ own_m.
                with_options-Resolves platform host path h c e m credential endpoint metadata h₃ xs
                  ys zs (Grows-then g₁ (Grows-then g₂ g₃))
                  (Stays-later TextHolds (Grows-then g₂ g₃) own_c) (Stays-later TextHolds g₃ own_e)
                  own_m)))

ConfigParts-Frees :
    (C : Content → Type 0) (content : Content)
    → C content
    → (raw : RawAttachConfig) (config : RustExtAttachConfig) (blocks : List ℕ)
    → ConfigParts C raw config blocks
    → Frees (free_attach_config content raw) blocks
unfolding free_attach_config
ConfigParts-Frees C content k raw config blocks parts = Frees-same _ parts.same (
    Frees-then (free content raw.resource) _ (parts.resource content k).frees (
      Frees-then (free content raw.credential) _ (parts.credential content k).frees (
        Frees-then (free content raw.endpoint) _ (parts.endpoint content k).frees (
          Frees-then (free content raw.primary_secret_scope) _ (parts.primary content k).frees
            (parts.fallback content k).frees))))

-- The config that is handed over: all of its strings read as they do by value, and its release leaves what was
-- allocated before the call.
pub record HandsOver (h h' : Heap) (raw : RawAttachConfig) (config : RustExtAttachConfig)
    : Type 0 where
  pub resource : as_str h'.content raw.resource h'.live ≡ ok config.resource
  pub credential : as_str h'.content raw.credential h'.live ≡ ok config.credential
  pub endpoint : as_str h'.content raw.endpoint h'.live ≡ ok config.endpoint
  pub primary : as_str h'.content raw.primary_secret_scope h'.live ≡ ok config.primary_secret_scope
  pub fallback :
      as_str h'.content raw.fallback_secret_scope h'.live ≡ ok config.fallback_secret_scope
  pub flag : raw.include_system_columns ≡ config.include_system_columns
  pub releases :
      (left : List ℕ) × (free_attach_config h'.content raw h'.live ≡ ok left)
      × SameBlocks left h.live

pub data Attaches (h : Heap)
    : Result Text RustExtAttachConfig → Attaching RawAttachConfig → Type 0 where
  attaches :
      {raw : RawAttachConfig} {config : RustExtAttachConfig} {h' : Heap}
      → HandsOver h h' raw config
      → Attaches h (ok config) (ok (ok raw, h'))
  refuses :
      {message : Text} {h' : Heap} (leaked : List ℕ)
      → Grows h h' leaked
      → Attaches h (err message) (ok (err message, h'))

-- A call of `resolve_attach` with its allocations ends as it does by value, with the same config or the
-- same error, and never frees a block that is not allocated. Each of the five strings of a config that
-- it hands over reads as that of the config by value, and its release leaves exactly what was allocated
-- before the call.
pub resolve_attach-Attaches :
    {Double : Type 0} (platform : Platform Double) (host : AttachHost) (path : Text) (h : Heap)
    → Attaches h (resolve_attach platform host path) (resolve_attach_raw platform host path h)
resolve_attach-Attaches platform host path h =
    attached (resolve_attach-Resolves platform host path h)
  where
    attached :
        {a : Result Text RustExtAttachConfig} {b : Attaching RawAttachConfig}
        → Resolves ConfigOwns h a b
        → Attaches h a b
    attached (rejected leaked grows) = refuses leaked grows
    attached (resolved {raw = raw} {v = config} {h' = h'} blocks grows parts) =
        let k : Agrees h' h'.content = λ a le. refl in
        let freed =
          ConfigParts-Frees (Agrees h') h'.content k raw config blocks parts h'.live
            (λ a. omega (arith, grows.counted a)) in
        let rs = parts.rs in
        let cs = parts.cs in
        let es = parts.es in
        let ps = parts.ps in
        let fs = parts.fs in
        let live = h'.live in
        let from_resource =
          Within-same (rs ++ (cs ++ (es ++ (ps ++ fs)))) blocks live parts.same
            (λ a. omega (arith, grows.counted a)) in
        let from_credential = Within-right rs (cs ++ (es ++ (ps ++ fs))) live from_resource in
        let from_endpoint = Within-right cs (es ++ (ps ++ fs)) live from_credential in
        let from_primary = Within-right es (ps ++ fs) live from_endpoint in
        attaches (record {
          resource = (parts.resource h'.content k).reads live (Within-left rs _ live from_resource);
          credential =
              (parts.credential h'.content k).reads live (Within-left cs _ live from_credential);
          endpoint = (parts.endpoint h'.content k).reads live (Within-left es _ live from_endpoint);
          primary = (parts.primary h'.content k).reads live (Within-left ps fs live from_primary);
          fallback =
              (parts.fallback h'.content k).reads live (Within-right ps fs live from_primary);
          flag = parts.flag;
          releases = (freed.left, freed.goes, λ a. omega (arith, grows.counted a, freed.less a));
        })
