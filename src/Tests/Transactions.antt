-- ===== src/Tests/Transactions.antt =====
-- The transaction manager, and the guard against explicit transactions.
use duckdb_coda.Prelude.{◌≡◌, refl, true, false, none, some, List, [], ◌∷◌, err}
use duckdb_coda.Text.{codes, contains, starts_with, to_ascii_lower}
use duckdb_coda.Duckdb.{ClientContext, not_implemented}
use duckdb_coda.Messages.{
  explicit_transaction_not_supported_message, transaction_rollback_not_supported_message,
}
use duckdb_coda.Transaction.{Transactions, find, rollback_transaction, reject_explicit_transaction}
use duckdb_coda.Transaction.History.{
  Event, starts, commits, writes, run, own, own_history, status, rollback_transaction_lem,
  run-own_history,
}
use duckdb_coda.Transaction.Guard.{
  IsFreeOf, query, Guarded, reject_explicit_transaction-Guarded, contains-IsFreeOf,
}
use duckdb_coda.Tests.Document.{db, autocommit}

-- Transaction 7 has written, transaction 8 has not.
abbrev two_open : Transactions
two_open = (7, record { has_writes = true }) ∷ (8, record { has_writes = false }) ∷ []

rollback_transaction_lem_example :
    let (result, transactions') = rollback_transaction 7 two_open in
    (result ≡ err (not_implemented transaction_rollback_not_supported_message))
    × (find 8 transactions' ≡ find 8 two_open)
rollback_transaction_lem_example =
    rollback_transaction_lem 7 8 (record { has_writes = true }) two_open (unfold find in refl)

abbrev events : List Event
events = starts autocommit 1 ∷ starts autocommit 2 ∷ writes 1 ∷ commits 2 ∷ []

run-own_history_example :
    status (find 1 (run [] events)) ≡ own_history 1 (status (find 1 [])) events
run-own_history_example = run-own_history 1 [] events

-- What it comes to.
own_history_of_events : own_history 1 none events ≡ some true
unfolding own_history own
own_history_of_events = refl

select_IsFreeOf :
    IsFreeOf (codes "begin") (query db autocommit)
    × IsFreeOf (codes "rollback") (query db autocommit)
    × IsFreeOf (codes "commit") (query db autocommit)
unfolding contains starts_with to_ascii_lower
select_IsFreeOf = (
  contains-IsFreeOf (codes "begin") (query db autocommit) refl,
  contains-IsFreeOf (codes "rollback") (query db autocommit) refl,
  contains-IsFreeOf (codes "commit") (query db autocommit) refl,
)

-- An autocommit query on a table of commits.
abbrev on_commits : ClientContext
on_commits = record { is_auto_commit = true; current_query = codes "SELECT * FROM commits" }

reject_explicit_transaction-Guarded_example :
    Guarded db on_commits (reject_explicit_transaction db on_commits)
reject_explicit_transaction-Guarded_example = reject_explicit_transaction-Guarded db on_commits

-- Such a query is refused.
refused_on_commits :
    reject_explicit_transaction db on_commits
    ≡ err (not_implemented explicit_transaction_not_supported_message)
unfolding reject_explicit_transaction contains starts_with to_ascii_lower
refused_on_commits = refl
