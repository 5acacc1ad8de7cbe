-- ===== src/Transaction/History.antt =====
-- The transaction manager over a history of calls, and each transaction over its own.
use duckdb_coda.Prelude.{
  ℕ, ◌==◌, ◌≡◌, refl, ap, ◌∙◌, Bool, true, false, Option, none, some, List, [], ◌∷◌, if◌then◌else◌,
  ok, err, arith, Option-cases, inl, inr,
}
use duckdb_coda.Duckdb.{ClientContext, not_implemented}
use duckdb_coda.Messages.{transaction_rollback_not_supported_message}
use duckdb_coda.Transaction.{
  RustBridgeTransaction, start, rollback, mark_write, Transactions, find, put, erase,
  start_transaction, commit_transaction, rollback_transaction, mark_remote_write,
}

find-put :
    (id j : ℕ) (transaction : RustBridgeTransaction) (transactions : Transactions)
    → find j (put id transaction transactions)
      ≡ (if id == j then some transaction else find j transactions)
unfolding find put
find-put id j transaction [] = refl
find-put id j transaction ((key, old) ∷ rest) = ground (arith, find-put id j transaction rest)

find-erase :
    (id j : ℕ) (transactions : Transactions)
    → find j (erase id transactions) ≡ (if id == j then none else find j transactions)
unfolding find erase
find-erase id j [] = ground arith
find-erase id j ((key, old) ∷ rest) = ground (arith, find-erase id j rest)

-- A rollback takes its transaction out of the map, whether or not it throws, and leaves the others;
-- it throws exactly for a transaction that has written.
pub rollback_transaction_lem :
    (id j : ℕ) (transaction : RustBridgeTransaction) (transactions : Transactions)
    → find id transactions ≡ some transaction
    → let (result, transactions') = rollback_transaction id transactions in
      (result ≡ (
        if transaction.has_writes
        then err (not_implemented transaction_rollback_not_supported_message)
        else ok tt))
      × (find j transactions' ≡ (if id == j then none else find j transactions))
unfolding rollback_transaction rollback
rollback_transaction_lem id j transaction transactions h =
    rw (h, rollback_transaction) (ground arith, find-erase id j transactions)

-- The calls on the manager, and the write of a statement.
pub data Event : Type 0 where
  starts : ClientContext → ℕ → Event
  commits rolls_back writes : ℕ → Event

unfoldable pub after : Transactions → Event → Transactions
after transactions (starts context id) = (start_transaction context id transactions).1
after transactions (commits id) = commit_transaction id transactions
after transactions (rolls_back id) = (rollback_transaction id transactions).1
after transactions (writes id) = mark_remote_write id transactions

unfoldable pub run : Transactions → List Event → Transactions
unfolding after
run transactions [] = transactions
run transactions (event ∷ events) = run (after transactions event) events

-- What one transaction makes of an event: `none` is not open, `some b` is open, with writes or not.
unfoldable pub own : ℕ → Option Bool → Event → Option Bool
own j state (starts context id) =
    if id == j then (if context.is_auto_commit then some false else state) else state
own j state (commits id) = if id == j then none else state
own j state (rolls_back id) = if id == j then none else state
own j none (writes id) = none
own j (some b) (writes id) = if id == j then some true else some b

unfoldable pub own_history : ℕ → Option Bool → List Event → Option Bool
own_history j state [] = state
own_history j state (event ∷ events) = own_history j (own j state event) events

-- Whether a transaction is open, and whether it has written.
abbrev pub status : Option RustBridgeTransaction → Option Bool
status none = none
status (some transaction) = some transaction.has_writes

after-own :
    (j : ℕ) (transactions : Transactions) (event : Event)
    → status (find j (after transactions event)) ≡ own j (status (find j transactions)) event
unfolding after own start start_transaction commit_transaction rollback_transaction
    mark_remote_write mark_write
after-own j transactions (starts context id) =
    ground (arith, find-put id j (record { has_writes = false }) transactions)
after-own j transactions (commits id) = ground (arith, find-erase id j transactions)
after-own j transactions (rolls_back id) = ground (arith, find-erase id j transactions)
after-own j transactions (writes id) = elim (Option-cases (find id transactions)) [
  | inl missing ↦ rw (missing, mark_remote_write) (ground arith)
  | inr (t, open_one) ↦
      rw (open_one, mark_remote_write)
        (ground (arith, find-put id j (record t { has_writes = true }) transactions))
]

-- After any history of calls and writes, whether a transaction is open, and whether it has written,
-- is what its own events alone make of it, whatever the other transactions do.
pub run-own_history :
    (j : ℕ) (transactions : Transactions) (events : List Event)
    → status (find j (run transactions events))
      ≡ own_history j (status (find j transactions)) events
unfolding run own_history
run-own_history j transactions [] = refl
run-own_history j transactions (event ∷ events) =
    run-own_history j (after transactions event) events
    ∙ ap (λ s. own_history j s events) (after-own j transactions event)
