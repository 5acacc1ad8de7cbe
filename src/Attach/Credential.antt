-- ===== src/Attach/Credential.antt =====
-- Where the credential of an attached document comes from.
use duckdb_coda.Prelude.{
  ◌≡◌, refl, ap, ◌∙◌, Bool, true, false, not, inl, inr, [], ◌++◌, is_empty, subst, sym, ◌⊎◌, ◌∷◌,
  if◌then◌else◌, Result, ok, err, and_then, and_then-eq-ok, ok-value,
}
use duckdb_coda.Text.{Text, codes}
use duckdb_coda.Platform.{Platform}
use duckdb_coda.Attach.{
  RustExtAttachConfig, AttachHost, secret_scope_prefix, token_option, api_base_option,
  include_row_metadata_option, get_option, lookup_secret, resource_of, boolean_option,
  find_credential, resolve_attach,
}

module _ (host : AttachHost) (resource : Text) where
  -- The credential is that of the option if this has one, else the secret of the document, else the
  -- secret of all documents.
  pub data Origin (credential : Text) : Type 0 where
    from_option : get_option host token_option ≡ ok credential → Origin credential
    from_secret :
        get_option host token_option ≡ ok []
        → lookup_secret host (secret_scope_prefix ++ resource) ≡ ok credential
        → Origin credential
    from_fallback :
        get_option host token_option ≡ ok []
        → lookup_secret host (secret_scope_prefix ++ resource) ≡ ok []
        → lookup_secret host secret_scope_prefix ≡ ok credential
        → Origin credential

  -- A text that is chosen, unless it is empty.
  choice-ok :
      (text : Text) (rest : Result Text Text) (found : Text)
      → (if not (is_empty text) then ok text else rest) ≡ ok found
      → ((is_empty text ≡ false) × (found ≡ text)) ⊎ ((text ≡ []) × (rest ≡ ok found))
  choice-ok [] rest found h = inr (refl, h)
  choice-ok (c ∷ text) rest found h = inl (refl, cc h)

  fallback-ok :
      (fallback found : Text)
      → if◌then◌else◌ {A = Result Text Text}
          (is_empty fallback)
          (err (codes "missing credential"))
          (ok fallback)
        ≡ ok found
      → (is_empty fallback ≡ false) × (found ≡ fallback)
  fallback-ok [] found h = cc h
  fallback-ok (c ∷ fallback) found h = (refl, cc h)

  -- The credential that is found has an origin, and is not empty.
  abbrev Found : Text → Type 0
  Found credential = Origin credential × (is_empty credential ≡ false)

  Found-subst : {text found : Text} → found ≡ text → Found text → Found found
  Found-subst e f = subst Found (sym e) f

  fallback-Found :
      (found : Text)
      → get_option host token_option ≡ ok []
      → lookup_secret host (secret_scope_prefix ++ resource) ≡ ok []
      → and_then
          (lookup_secret host secret_scope_prefix)
          (λ fallback. if is_empty fallback then err (codes "missing credential") else ok fallback)
        ≡ ok found
      → Found found
  fallback-Found found no_token no_secret h =
      let (fallback, got, k) = and_then-eq-ok (lookup_secret host secret_scope_prefix) _ h in
      let (some_here, same) = fallback-ok fallback found k in
      Found-subst same (from_fallback no_token no_secret got, some_here)

  find_credential-Found :
      (token found : Text)
      → get_option host token_option ≡ ok token
      → find_credential host resource token ≡ ok found
      → Found found
  unfolding find_credential
  find_credential-Found token found asked h = elim (choice-ok token _ found h) [
    | inl (some_token, same) ↦ Found-subst same (from_option asked, some_token)
    | inr (no_token, k) ↦
        let none_asked = asked ∙ ap (λ t. ok t) no_token in
        let (secret, got, k') =
          and_then-eq-ok (lookup_secret host (secret_scope_prefix ++ resource)) _ k in
        elim (choice-ok secret _ found k') [
          | inl (some_secret, same) ↦ Found-subst same (from_secret none_asked got, some_secret)
          | inr (no_secret, k'') ↦
              fallback-Found found none_asked (got ∙ ap (λ t. ok t) no_secret) k''
        ]
  ]

guard-ok :
    {A : Type 0} (refused : Bool) (message : Text) (rest : Result Text A) {a : A}
    → (if refused then err message else rest) ≡ ok a
    → (refused ≡ false) × (rest ≡ ok a)
guard-ok true message rest h = cc h
guard-ok false message rest h = (refl, h)

-- An ATTACH that goes through has a document and a credential, neither of them empty. The credential
-- is that of the option if this has one, else the secret of the document, else the secret of all
-- documents; and the flag is what its option says.
pub resolve_attach-ok :
    {Double : Type 0} (platform : Platform Double) (host : AttachHost) (path : Text)
    (config : RustExtAttachConfig)
    → resolve_attach platform host path ≡ ok config
    → (config.resource ≡ resource_of path)
      × (is_empty config.resource ≡ false)
      × Origin host config.resource config.credential
      × (is_empty config.credential ≡ false)
      × (metadata : Text) × (get_option host include_row_metadata_option ≡ ok metadata)
      × (boolean_option metadata ≡ ok config.include_system_columns)
unfolding resolve_attach
resolve_attach-ok platform host path config h =
    let (token, asked, h₁) = and_then-eq-ok (get_option host token_option) _ h in
    let (endpoint, asked', h₂) = and_then-eq-ok (get_option host api_base_option) _ h₁ in
    let (metadata, asked'', h₃) =
      and_then-eq-ok (get_option host include_row_metadata_option) _ h₂ in
    let (some_document, h₄) = guard-ok (is_empty (resource_of path)) _ _ h₃ in
    let (flag, read, h₅) = and_then-eq-ok (boolean_option metadata) _ h₄ in
    let (found, credential, h₆) =
      and_then-eq-ok (find_credential host (resource_of path) token) _ h₅ in
    let (origin, some_credential) =
      find_credential-Found host (resource_of path) token found asked credential in
    subst
      (λ c.
        (c.resource ≡ resource_of path)
        × (is_empty c.resource ≡ false)
        × Origin host c.resource c.credential
        × (is_empty c.credential ≡ false)
        × (m : Text) × (get_option host include_row_metadata_option ≡ ok m)
        × (boolean_option m ≡ ok c.include_system_columns))
      (ok-value h₆) (refl, some_document, origin, some_credential, metadata, asked'', read)
