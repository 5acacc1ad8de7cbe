-- ===== src/Blocks/Attaching/Credential.antt =====
-- The credential of a config: that of its option, or one of the two secrets. A config whose credential
-- is empty has no block for it, so nothing is lost when a secret takes its place.
use duckdb_coda.Prelude.{
  ℕ, ◌≡◌, refl, ap, ◌∙◌, Bool, true, not, Bool-cases, inl, inr, List, ◌++◌, Result, ok, err,
  and_then, and_then-ok, is_empty, if◌then◌else◌, if_true, if_false, arith,
}
use duckdb_coda.Text.{Text, codes}
use duckdb_coda.Ownership.{count}
use duckdb_coda.Attach.{
  RustExtAttachConfig, AttachHost, secret_type, secret_scope_prefix, token_option, lookup_secret,
  find_credential,
}
use duckdb_coda.Blocks.{Slice, Heap}
use duckdb_coda.Blocks.Holds.{Within, count-append}
use duckdb_coda.Blocks.Stored.{TextHolds, Grows, Agrees, Grows-then, Grows-same, Agrees-earlier}
use duckdb_coda.Blocks.Attaching.{
  RawAttachConfig, lookup_secret_raw, take_fallback, take_secret, complete_config,
}
use duckdb_coda.Blocks.Attaching.Resolves.{
  Resolves, resolved, rejected, Resolves-eq, Resolves-bind, host_call-Resolves, config_of,
  ConfigParts, ConfigParts-later, ConfigOwns, with_credential,
}

lookup_secret-Resolves :
    (host : AttachHost) (scope : Slice) (text : Text) (heap : Heap) (xs : List ℕ)
    → TextHolds.owns (Agrees heap) scope text xs
    → Within xs heap.live
    → Resolves TextHolds heap (lookup_secret host text) (lookup_secret_raw host scope heap)
unfolding lookup_secret lookup_secret_raw
lookup_secret-Resolves host scope text heap xs owns there =
    Resolves-eq TextHolds heap refl
      (and_then-ok _ ((owns heap.content (λ a le. refl)).reads heap.live there) refl)
      (host_call-Resolves (codes "host secret lookup failed")
        (host.lookup_secret text secret_type token_option) heap)

module _ (host : AttachHost) (h₀ : Heap) (raw : RawAttachConfig)
    (resource credential endpoint : Text) (flag : Bool) where
  abbrev config : RustExtAttachConfig
  config = config_of resource credential endpoint flag

  abbrev completed : Text → Result Text RustExtAttachConfig
  completed found = ok (config_of resource found endpoint flag)

  take_fallback-Resolves :
      (heap : Heap) (blocks : List ℕ) (parts : ConfigParts (Agrees heap) raw config blocks)
      → ((a : ℕ) → count a parts.cs ≡ 0)
      → (slice : Slice) (found : Text) (zs : List ℕ) → TextHolds.owns (Agrees heap) slice found zs
      → Grows h₀ heap (blocks ++ zs)
      → Resolves ConfigOwns h₀
          (and_then
            (if is_empty found then err (codes "missing credential") else ok found)
            completed)
          (take_fallback raw slice heap)
  unfolding take_fallback
  take_fallback-Resolves heap blocks parts hollow slice found zs owns grows =
      let text = owns heap.content (λ a le. refl) in
      let there : Within zs heap.live = λ a. omega (arith, grows.counted a, count-append) in
      let read = text.reads heap.live there in
      elim (Bool-cases (is_empty found)) [
        | inl empty ↦
            let freed = text.frees heap.live there in
            Resolves-eq ConfigOwns h₀ (ap (λ r. and_then r completed) (if_true _ _ _ empty))
              (and_then-ok _ read (if_true _ _ _ empty ∙ and_then-ok _ freed.goes refl))
              (rejected blocks (record {
                last_le = grows.last_le;
                counted = λ a. omega (arith, grows.counted a, freed.less a, count-append);
                kept = grows.kept;
              }))
        | inr some_text ↦
            Resolves-eq ConfigOwns h₀ (ap (λ r. and_then r completed) (if_false _ _ _ some_text))
              (and_then-ok _ read (if_false _ _ _ some_text))
              (resolved _
                (Grows-same (λ a. omega (arith, parts.same a, hollow a, count-append)) grows)
                (with_credential (Agrees heap) raw resource credential endpoint flag blocks parts
                  slice found zs owns))
      ]

  abbrev or_missing : Text → Result Text Text
  or_missing fallback = if is_empty fallback then err (codes "missing credential") else ok fallback

  abbrev or_fallback : Text → Result Text Text
  or_fallback secret =
      if not (is_empty secret)
      then ok secret
      else and_then (lookup_secret host secret_scope_prefix) or_missing

  -- What follows when the secret of the document is there.
  abbrev after_secret : Text → Result Text RustExtAttachConfig
  after_secret secret = and_then (or_fallback secret) completed

  and_then-and_then :
      (r : Result Text Text) (f : Text → Result Text Text)
      → and_then (and_then r f) completed ≡ and_then r (λ t. and_then (f t) completed)
  and_then-and_then (ok t) f = refl
  and_then-and_then (err e) f = refl

  take_secret-Resolves :
      (heap : Heap) (blocks : List ℕ) (parts : ConfigParts (Agrees heap) raw config blocks)
      → ((a : ℕ) → count a parts.cs ≡ 0)
      → (slice : Slice) (secret : Text) (zs : List ℕ) → TextHolds.owns (Agrees heap) slice secret zs
      → Grows h₀ heap (blocks ++ zs)
      → Resolves ConfigOwns h₀ (after_secret secret) (take_secret host raw slice heap)
  unfolding take_secret
  take_secret-Resolves heap blocks parts hollow slice secret zs owns grows =
      let text = owns heap.content (λ a le. refl) in
      let there : Within zs heap.live = λ a. omega (arith, grows.counted a, count-append) in
      let read = text.reads heap.live there in
      elim (Bool-cases (not (is_empty secret))) [
        | inl some_text ↦
            Resolves-eq ConfigOwns h₀ (ap (λ r. and_then r completed) (if_true _ _ _ some_text))
              (and_then-ok _ read (if_true _ _ _ some_text))
              (resolved _
                (Grows-same (λ a. omega (arith, parts.same a, hollow a, count-append)) grows)
                (with_credential (Agrees heap) raw resource credential endpoint flag blocks parts
                  slice secret zs owns))
        | inr empty ↦
            let freed = text.frees heap.live there in
            let heap₁ = record heap { live = freed.left } in
            let grows₁ : Grows h₀ heap₁ blocks = record {
              last_le = grows.last_le;
              counted = λ a. omega (arith, grows.counted a, freed.less a, count-append);
              kept = grows.kept;
            } in
            Resolves-eq ConfigOwns h₀
              (ap (λ r. and_then r completed) (if_false _ _ _ empty)
                ∙ and_then-and_then (lookup_secret host secret_scope_prefix) or_missing)
              (and_then-ok _ read (if_false _ _ _ empty ∙ and_then-ok _ freed.goes refl))
              (Resolves-bind ConfigOwns h₀ TextHolds heap₁ blocks _ _ grows₁
                (lookup_secret-Resolves host raw.fallback_secret_scope secret_scope_prefix heap₁
                  parts.fs parts.fallback
                  (λ a. omega (arith, grows₁.counted a, parts.same a, count-append)))
                (λ slice' found heap₂ zs' more owns'.
                  take_fallback-Resolves heap₂ blocks
                    (ConfigParts-later _ _ raw config blocks (Agrees-earlier more) parts) hollow
                    slice' found zs' owns' (Grows-then grows₁ more)))
      ]

  pub complete_config-Resolves :
      (heap : Heap) (blocks : List ℕ) (parts : ConfigParts (Agrees heap) raw config blocks)
      → (is_empty credential ≡ true → (a : ℕ) → count a parts.cs ≡ 0)
      → Grows h₀ heap blocks
      → Resolves ConfigOwns h₀
          (and_then (find_credential host resource credential) completed)
          (complete_config host raw heap)
  unfolding find_credential complete_config
  complete_config-Resolves heap blocks parts hollow grows =
      let there : Within parts.cs heap.live =
        λ a. omega (arith, grows.counted a, parts.same a, count-append) in
      let read = (parts.credential heap.content (λ a le. refl)).reads heap.live there in
      elim (Bool-cases (is_empty credential)) [
        | inl empty ↦
            Resolves-eq ConfigOwns h₀
              (ap (λ r. and_then r completed) (if_false _ _ _ (ap not empty))
                ∙ and_then-and_then (lookup_secret host (secret_scope_prefix ++ resource))
                    or_fallback)
              (and_then-ok _ read (if_true _ _ _ empty))
              (Resolves-bind ConfigOwns h₀ TextHolds heap blocks after_secret _ grows
                (lookup_secret-Resolves host raw.primary_secret_scope
                  (secret_scope_prefix ++ resource) heap parts.ps parts.primary
                  (λ a. omega (arith, grows.counted a, parts.same a, count-append)))
                (λ slice secret heap₁ zs more owns.
                  take_secret-Resolves heap₁ blocks
                    (ConfigParts-later _ _ raw config blocks (Agrees-earlier more) parts)
                    (hollow empty) slice secret zs owns (Grows-then grows more)))
        | inr some_text ↦
            Resolves-eq ConfigOwns h₀
              (ap (λ r. and_then r completed) (if_true _ _ _ (ap not some_text)))
              (and_then-ok _ read (if_false _ _ _ some_text)) (resolved blocks grows parts)
      ]
