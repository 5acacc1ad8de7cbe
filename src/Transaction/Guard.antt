-- ===== src/Transaction/Guard.antt =====
-- What `RejectExplicitTransaction` lets through: it looks for words anywhere in the statement.
use duckdb_coda.Prelude.{
  ◌≡◌, ◌≢◌, ◌⊎◌, sym, subst, true, false, ◌++◌, Bool-cases, inl, inr, Result, ok, err, arith,
}
use duckdb_coda.Text.{Text, codes, contains}
use duckdb_coda.Text.Search.{contains_of_split, contains-split}
use duckdb_coda.Duckdb.{Duckdb, ClientContext, Exception, not_implemented}
use duckdb_coda.Messages.{explicit_transaction_not_supported_message}
use duckdb_coda.Transaction.{reject_explicit_transaction}

-- The word stands nowhere in the text.
abbrev pub IsFreeOf : Text → Text → Type 0
IsFreeOf word text = (before after : Text) → text ≢ before ++ (word ++ after)

-- The word stands somewhere in the text.
abbrev pub Occurs : Text → Text → Type 0
Occurs word text = (before after : Text) × (text ≡ before ++ (word ++ after))

pub contains-IsFreeOf : (word text : Text) → contains word text ≡ false → IsFreeOf word text
contains-IsFreeOf word text h before after e =
    let found = subst (λ t. contains word t ≡ true) (sym e) (contains_of_split before word after) in
    cc

IsFreeOf-contains : (word text : Text) → IsFreeOf word text → contains word text ≡ false
IsFreeOf-contains word text free = elim (Bool-cases (contains word text)) [
  | inl found ↦
      let (before, after, e) = contains-split word text found in absurd (free before after e)
  | inr missing ↦ missing
]

module _ (db : Duckdb) (context : ClientContext) where
  -- The lower-case text of the statement.
  abbrev pub query : Text
  query = db.lower context.current_query

  -- A statement in autocommit without the three words.
  abbrev pub IsImplicit : Type 0
  IsImplicit =
      (context.is_auto_commit ≡ true)
      × IsFreeOf (codes "begin") query
      × IsFreeOf (codes "rollback") query
      × IsFreeOf (codes "commit") query

  -- A statement passes only in autocommit, and only if none of the three words stands in it.
  pub reject_explicit_transaction-ok : reject_explicit_transaction db context ≡ ok tt → IsImplicit
  unfolding reject_explicit_transaction
  reject_explicit_transaction-ok h = (
    ground arith,
    contains-IsFreeOf (codes "begin") query (ground arith),
    contains-IsFreeOf (codes "rollback") query (ground arith),
    contains-IsFreeOf (codes "commit") query (ground arith),
  )

  -- An autocommit statement in which none of the three words stands anywhere passes.
  pub ok-reject_explicit_transaction :
      context.is_auto_commit ≡ true
      → IsFreeOf (codes "begin") query
      → IsFreeOf (codes "rollback") query
      → IsFreeOf (codes "commit") query
      → reject_explicit_transaction db context ≡ ok tt
  unfolding reject_explicit_transaction
  ok-reject_explicit_transaction auto no_begin no_rollback no_commit =
      let b = IsFreeOf-contains (codes "begin") query no_begin in
      let r = IsFreeOf-contains (codes "rollback") query no_rollback in
      let c = IsFreeOf-contains (codes "commit") query no_commit in ground arith

  -- Why a statement is refused.
  abbrev pub IsExplicit : Type 0
  IsExplicit =
      (context.is_auto_commit ≡ false)
      ⊎ Occurs (codes "begin") query
      ⊎ Occurs (codes "rollback") query
      ⊎ Occurs (codes "commit") query

  -- How the guard ends.
  pub data Guarded : Result Exception Unit → Type 0 where
    passes : IsImplicit → Guarded (ok tt)
    refuses :
        IsExplicit → Guarded (err (not_implemented explicit_transaction_not_supported_message))

  Guarded-eq : {r r' : Result Exception Unit} → r ≡ r' → Guarded r' → Guarded r
  Guarded-eq e g = subst Guarded (sym e) g

  -- A statement passes in autocommit if none of the words begin, rollback and commit stands anywhere in
  -- its lower-case text, and then only. Outside of autocommit, or with one of the words anywhere in it,
  -- in a name or in a literal too, it is refused as an explicit transaction.
  pub reject_explicit_transaction-Guarded : Guarded (reject_explicit_transaction db context)
  unfolding reject_explicit_transaction
  reject_explicit_transaction-Guarded = elim (Bool-cases context.is_auto_commit) [
    | inr manual ↦ Guarded-eq (ground arith) (refuses (inl manual))
    | inl auto ↦ elim (Bool-cases (contains (codes "begin") query)) [
      | inl begins ↦
          Guarded-eq (ground arith)
            (refuses (inr (inl (contains-split (codes "begin") query begins))))
      | inr no_begin ↦ elim (Bool-cases (contains (codes "rollback") query)) [
        | inl rolls ↦
            Guarded-eq (ground arith)
              (refuses (inr (inr (inl (contains-split (codes "rollback") query rolls)))))
        | inr no_rollback ↦ elim (Bool-cases (contains (codes "commit") query)) [
          | inl commits ↦
              Guarded-eq (ground arith)
                (refuses (inr (inr (inr (contains-split (codes "commit") query commits)))))
          | inr no_commit ↦ Guarded-eq (ground arith) (
              passes (
                auto,
                contains-IsFreeOf (codes "begin") query no_begin,
                contains-IsFreeOf (codes "rollback") query no_rollback,
                contains-IsFreeOf (codes "commit") query no_commit,
              ))
        ]
      ]
    ]
  ]
