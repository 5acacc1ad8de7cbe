-- ===== src/Extension/Token.antt =====
-- From the loading of the extension over a CREATE SECRET to the credential of an ATTACH: the three
-- agree on the type and the key of the secret.
use duckdb_coda.Prelude.{
  ◌≡◌, refl, sym, ap, ◌∙◌, none, some, [], ◌∷◌, if_false, Result, ok, err, and_run, Bool-cases, inl,
  inr, if_true,
}
use duckdb_coda.Text.{Text, text_eq}
use duckdb_coda.Text.Search.{text_eq_self}
use duckdb_coda.Duckdb.{Duckdb, Exception}
use duckdb_coda.Platform.{Platform}
use duckdb_coda.Attach.{
  AttachHost, AttachHostContext, secret_type, token_option, get_option, lookup_secret,
  host_get_attach_option, host_lookup_secret,
}
use duckdb_coda.Extension.{
  SecretConfig, SecretConfigs, find_config, put_config, ExtensionLoader, CreateSecretInput,
  KeyValueSecret, config_secret, LoadState, or_fail, throw_load, extension_name,
  set_description_step, register_secret_step, register_storage_step, register_type, register_create,
  host_register_config_secret, host_register_storage_extension, extension_load,
  load_from_rust_bridge, create_config_secret,
}
use duckdb_coda.Extension.Options.{
  read_secret, first_unknown, last_value, Created, refused, created, create_config_secret-Created,
}

find_config-put_config :
    (type : Text) (config : SecretConfig) (configs : SecretConfigs)
    → find_config type (put_config type config configs) ≡ some config
unfolding find_config put_config
find_config-put_config type config [] = if_true _ _ _ (text_eq_self type)
find_config-put_config type config ((key, old) ∷ rest) = elim (Bool-cases (text_eq key type)) [
  | inl same ↦ rw same (if_true (text_eq key type) _ _ same)
  | inr differ ↦
      rw differ (if_false (text_eq key type) _ _ differ ∙ find_config-put_config type config rest)
]

or_fail-ok :
    {S : Type 0} (loader : ExtensionLoader) (message : Text) (r : Result Text Unit × S) (s : S)
    → or_fail loader message r ≡ (ok tt, s)
    → r ≡ (ok tt, s)
or_fail-ok loader message (ok _, s') s h = h
or_fail-ok loader message (err e, s') s h = cc (ap (λ p. p.0) h)

throw_load-ok :
    {S : Type 0} (loader : ExtensionLoader) (r : Result Text Unit × S) (s : S)
    → throw_load loader r ≡ (ok tt, s)
    → r ≡ (ok tt, s)
throw_load-ok loader (ok _, s') s h = ap (λ p. (ok tt, p.1)) h
throw_load-ok loader (err e, s') s h = cc (ap (λ p. p.0) h)

-- Two calls in a row that go through.
and_run-ok :
    {S : Type 0} (r : Result Text Unit × S) (f : S → Result Text Unit × S) (s' : S)
    → and_run r (λ _ s. f s) ≡ (ok tt, s')
    → (s : S) × (r ≡ (ok tt, s)) × (f s ≡ (ok tt, s'))
and_run-ok (ok _, s) f s' h = (s, refl, h)
and_run-ok (err e, s) f s' h = cc (ap (λ p. p.0) h)

module _ (loader : ExtensionLoader) where
  open loader use {World}

  -- Once the secret is registered, it is found.
  register-registered :
      (type : Text) (config : SecretConfig) (s s' : LoadState loader)
      → host_register_config_secret loader type config s ≡ (ok tt, s')
      → find_config type s'.0 ≡ some config
  unfolding host_register_config_secret
  register-registered type config s s' h =
      let start : LoadState loader = (put_config type config s.0, s.1) in
      let (s₁, first, second) =
        and_run-ok (register_type loader type config start) (register_create loader type config) s'
          h in
      sym (ap (λ p. find_config type p.1.0) second)
      ∙ sym (ap (λ p. find_config type p.1.0) first)
      ∙ find_config-put_config type config s.0

  -- A step of the load that only calls DuckDB leaves the secrets.
  storage-configs :
      (s s' : LoadState loader) → register_storage_step loader s ≡ (ok tt, s') → s.0 ≡ s'.0
  unfolding register_storage_step host_register_storage_extension
  storage-configs s s' h =
      ap (λ p. p.1.0)
        (or_fail-ok loader _ (host_register_storage_extension loader extension_name s) s' h)

  -- Once the extension is loaded, its secret is registered.
  load-registered :
      (s s' : LoadState loader)
      → load_from_rust_bridge loader s ≡ (ok tt, s')
      → find_config secret_type s'.0 ≡ some (config_secret loader)
  unfolding load_from_rust_bridge extension_load register_secret_step
  load-registered s s' h =
      let loaded = throw_load-ok loader (extension_load loader s) s' h in
      let (s₁, _, rest) =
        and_run-ok (set_description_step loader s)
          (λ t. and_run (register_secret_step loader t) (λ _ u. register_storage_step loader u)) s'
          loaded in
      let (s₂, registered, stored) =
        and_run-ok (register_secret_step loader s₁) (register_storage_step loader) s' rest in
      ap (find_config secret_type) (sym (storage-configs s₂ s' stored))
      ∙ register-registered secret_type (config_secret loader) s₁ s₂ (
          or_fail-ok loader _
            (host_register_config_secret loader secret_type (config_secret loader) s₁) s₂
            registered)

  -- Once the extension is loaded, a CREATE SECRET of its type whose options are all `token` up to case
  -- gives a secret that holds, under the key that an ATTACH asks for, the text of its last option.
  pub load-create :
      (db : Duckdb) (s s' : LoadState loader) (input : CreateSecretInput db.Value)
      → load_from_rust_bridge loader s ≡ (ok tt, s')
      → input.type ≡ secret_type
      → first_unknown token_option input.options ≡ none
      → (secret : KeyValueSecret db.Value) × (create_config_secret db s'.0 input ≡ ok secret)
        × (read_secret token_option secret.secret_map ≡ last_value db input.options none)
  load-create db s s' input loaded same known = made (
      create_config_secret-Created db (config_secret loader) refl s'.0 input
        (ap (λ t. find_config t s'.0) same ∙ load-registered s s' loaded))
    where
      made :
          {r : Result Exception (KeyValueSecret db.Value)}
          → Created db (config_secret loader) refl input r
          → (secret : KeyValueSecret db.Value) × (r ≡ ok secret)
            × (read_secret token_option secret.secret_map ≡ last_value db input.options none)
      made (refused name unknown) = cc (sym unknown ∙ known)
      made (created secret _ _ last _) = (secret, refl, last)

-- What an ATTACH reads is the secret: DuckDB finds it for its type, and its values are those of its
-- map.
pub record Finds (db : Duckdb) (context : AttachHostContext db.Value)
    (secret : KeyValueSecret db.Value) : Type 0 where
  pub try_get_value : Text → Result Text db.Value
  pub finds : (scope : Text) → context.secrets scope secret_type ≡ ok (some try_get_value)
  pub reads :
      (key : Text) (value : db.Value)
      → read_secret key secret.secret_map ≡ some value
      → try_get_value key ≡ ok value

module _ (db : Duckdb) (platform : Platform db.Double) (context : AttachHostContext db.Value) where
  abbrev host : AttachHost
  host = record {
    get_option = host_get_attach_option db context;
    lookup_secret = host_lookup_secret db context;
  }
