-- ===== src/Extension/Options.antt =====
-- The options of a CREATE SECRET: only the key of the secret is an option, in any case.
use duckdb_coda.Prelude.{
  ◌≡◌, refl, ap, ◌∙◌, Bool, true, false, Option, none, some, List, [], ◌∷◌, is_empty, if◌then◌else◌,
  if_true, if_false, Result, ok, err, Bool-cases, inl, inr, ◌⊎◌, Option-cases,
}
use duckdb_coda.Text.{Text, text_eq, eq_ignore_ascii_case}
use duckdb_coda.Text.Search.{text_eq_self}
use duckdb_coda.Duckdb.{Duckdb, Exception, invalid_input}
use duckdb_coda.Extension.{
  SecretConfig, SecretConfigs, find_config, unknown_secret_parameter_message,
  canonical_secret_parameter_name, CreateSecretInput, KeyValueSecret, put_secret, add_options,
  create_config_secret,
}

-- The value of a key.
unfoldable pub read_secret : {Value : Type 0} → Text → List (Text × Value) → Option Value
unfolding text_eq
read_secret key [] = none
read_secret key ((other, value) ∷ rest) =
    if text_eq other key then some value else read_secret key rest

-- The first option that is not the key.
unfoldable pub first_unknown : {Value : Type 0} → Text → List (Text × Value) → Option Text
unfolding eq_ignore_ascii_case
first_unknown key [] = none
first_unknown key ((name, value) ∷ options) =
    let rest = first_unknown key options in
    if eq_ignore_ascii_case key name then rest else some name

read_secret-put_secret :
    {Value : Type 0} (key : Text) (value : Value) (m : List (Text × Value))
    → read_secret key (put_secret key value m) ≡ some value
unfolding read_secret put_secret
read_secret-put_secret key value [] = if_true _ _ _ (text_eq_self key)
read_secret-put_secret key value ((other, old) ∷ rest) = elim (Bool-cases (text_eq other key)) [
  | inl same ↦ rw same (if_true (text_eq other key) _ _ same)
  | inr differ ↦
      rw differ (if_false (text_eq other key) _ _ differ ∙ read_secret-put_secret key value rest)
]

-- The test of an option, taken apart.
known-none :
    (b : Bool) (r : Option Text) (name : Text)
    → (if b then r else some name) ≡ none
    → (b ≡ true) × (r ≡ none)
known-none true r name h = (refl, h)
known-none false r name h = cc h

known-some :
    (b : Bool) (r : Option Text) (other name : Text)
    → (if b then r else some other) ≡ some name
    → ((b ≡ true) × (r ≡ some name)) ⊎ ((b ≡ false) × (other ≡ name))
known-some true r other name h = inl (refl, h)
known-some false r other name h = inr (refl, cc h)

canonical-known :
    (key name : Text)
    → eq_ignore_ascii_case key name ≡ true
    → canonical_secret_parameter_name key name ≡ key
unfolding canonical_secret_parameter_name
canonical-known key name h = if_true _ _ _ h

canonical-unknown :
    (key name : Text)
    → eq_ignore_ascii_case key name ≡ false
    → canonical_secret_parameter_name key name ≡ []
unfolding canonical_secret_parameter_name
canonical-unknown key name h = if_false _ _ _ h

module _ (db : Duckdb) where
  open db use {Value, value_to_string, of_text}

  -- The value that the last option sets, if there is one.
  unfoldable pub last_value : List (Text × Value) → Option Value → Option Value
  last_value [] before = before
  last_value ((name, value) ∷ options) before =
      last_value options (some (of_text (value_to_string value)))

  module _ (config : SecretConfig) (some_key : is_empty config.secret_key ≡ false) where
    abbrev pub key : Text
    key = config.secret_key

    add_options-known :
        (type : Text) (options m : List (Text × Value))
        → first_unknown key options ≡ none
        → (m' : List (Text × Value)) × (add_options db config type options m ≡ ok m')
          × (read_secret key m' ≡ last_value options (read_secret key m))
    unfolding add_options first_unknown last_value
    add_options-known type [] m h = (m, refl, refl)
    add_options-known type ((name, value) ∷ options) m h =
        let (same, later) =
          known-none (eq_ignore_ascii_case key name) (first_unknown key options) name h in
        let text = of_text (value_to_string value) in
        let (m', done, last) = add_options-known type options (put_secret key text m) later in
        (
          m',
          rw (canonical-known key name same, some_key) done,
          last ∙ ap (last_value options) (read_secret-put_secret key text m),
        )

    add_options-unknown :
        (type : Text) (options m : List (Text × Value)) (name : Text)
        → first_unknown key options ≡ some name
        → add_options db config type options m
          ≡ err (invalid_input (unknown_secret_parameter_message type name))
    unfolding add_options first_unknown
    add_options-unknown type [] m name h = cc h
    add_options-unknown type ((other, value) ∷ options) m name h =
        elim (known-some (eq_ignore_ascii_case key other) (first_unknown key options) other name
          h) [
            | inl (same, later) ↦
                rw (canonical-known key other same, some_key)
                  (add_options-unknown type options _ name later)
            | inr (differ, this) ↦
                rw (canonical-unknown key other differ)
                  (ap (λ n. err (invalid_input (unknown_secret_parameter_message type n))) this)
          ]

    -- How a CREATE SECRET ends.
    pub data Created (input : CreateSecretInput Value)
        : Result Exception (KeyValueSecret Value) → Type 0 where
      refused :
          (name : Text)
          → first_unknown key input.options ≡ some name
          → Created input (err (invalid_input (unknown_secret_parameter_message input.type name)))
      created :
          (secret : KeyValueSecret Value)
          → first_unknown key input.options ≡ none
          → secret.scope ≡ (if is_empty input.scope then config.default_scope ∷ [] else input.scope)
          → read_secret key secret.secret_map ≡ last_value input.options none
          → secret.redact_keys ≡ key ∷ []
          → Created input (ok secret)

    -- A CREATE SECRET of a registered type, whose key is not empty. If one of its options is not the
    -- key up to case, it is refused with the name of the first such option; otherwise there is a
    -- secret, with the scope of the statement or, if it has none, the default one, with the text of
    -- the last option under the key, and with the key redacted.
    pub create_config_secret-Created :
        (configs : SecretConfigs) (input : CreateSecretInput Value)
        → find_config input.type configs ≡ some config
        → Created input (create_config_secret db configs input)
    unfolding create_config_secret read_secret
    create_config_secret-Created configs input registered =
        elim (Option-cases (first_unknown key input.options)) [
          | inl all_known ↦
              let (m, done, last) = add_options-known input.type input.options [] all_known in
              rw (create_config_secret, registered, done) (created _ all_known refl last refl)
          | inr (name, unknown) ↦
              rw
                (
                  create_config_secret,
                  registered,
                  add_options-unknown input.type input.options [] name unknown,
                )
                (refused name unknown)
        ]
