-- ===== src/Transaction.antt =====
-- Transactions: src/cpp/storage/rust_bridge_transaction_manager.cpp, and the guard
-- `RejectExplicitTransaction`, which rust_bridge_catalog.cpp and rust_bridge_dml.cpp share. A
-- transaction is known by the address of its object, a number.
pub mod History
pub mod Guard
use duckdb_coda.Prelude.{
  ℕ, ◌==◌, Bool, true, false, not, ◌&&◌, ◌||◌, Option, none, some, List, [], ◌∷◌, if◌then◌else◌,
  Result, ok, err,
}
use duckdb_coda.Text.{codes, contains}
use duckdb_coda.Duckdb.{Duckdb, ClientContext, Exception, not_implemented, out_of_bounds}
use duckdb_coda.Messages.{
  supports_explicit_transactions, supports_transaction_rollback,
  explicit_transaction_not_supported_message, transaction_rollback_not_supported_message,
}

pub record RustBridgeTransaction : Type 0 where
  pub has_writes : Bool

-- `RustBridgeTransaction::Start` and `Commit` do nothing.
unfoldable pub start : RustBridgeTransaction → RustBridgeTransaction
start transaction = transaction

unfoldable pub commit : RustBridgeTransaction → RustBridgeTransaction
commit transaction = transaction

-- `RustBridgeTransaction::Rollback`
unfoldable pub rollback : RustBridgeTransaction → Result Exception Unit
rollback transaction =
    if transaction.has_writes && not supports_transaction_rollback
    then err (not_implemented transaction_rollback_not_supported_message)
    else ok tt

-- `RustBridgeTransaction::MarkWrite`
unfoldable pub mark_write : RustBridgeTransaction → RustBridgeTransaction
mark_write transaction = record transaction { has_writes = true }

-- The map of the open transactions.
abbrev pub Transactions : Type 0
Transactions = List (ℕ × RustBridgeTransaction)

unfoldable pub find : ℕ → Transactions → Option RustBridgeTransaction
find id [] = none
find id ((key, transaction) ∷ rest) = if key == id then some transaction else find id rest

-- `transactions[result] = std::move(transaction)`
unfoldable pub put : ℕ → RustBridgeTransaction → Transactions → Transactions
put id transaction [] = (id, transaction) ∷ []
put id transaction ((key, old) ∷ rest) =
    if key == id then (key, transaction) ∷ rest else (key, old) ∷ put id transaction rest

-- `transactions.erase(transaction)`
unfoldable pub erase : ℕ → Transactions → Transactions
erase id [] = []
erase id ((key, old) ∷ rest) = if key == id then erase id rest else (key, old) ∷ erase id rest

-- `StartTransaction`; `id` is the address of the new object.
unfoldable pub start_transaction :
    ClientContext → ℕ → Transactions → Result Exception ℕ × Transactions
start_transaction context id transactions =
    if not supports_explicit_transactions && not context.is_auto_commit
    then (err (not_implemented explicit_transaction_not_supported_message), transactions)
    else (ok id, put id (start (record { has_writes = false })) transactions)

-- `CommitTransaction`
unfoldable pub commit_transaction : ℕ → Transactions → Transactions
commit_transaction id transactions = erase id transactions

-- `RollbackTransaction`: the transaction is erased whether or not its rollback throws.
unfoldable pub rollback_transaction : ℕ → Transactions → Result Exception Unit × Transactions
rollback_transaction id transactions = elim (find id transactions) [
  | none ↦ (err out_of_bounds, transactions)
  | some transaction ↦ (rollback transaction, erase id transactions)
]

-- `MarkRemoteWrite` of rust_bridge_dml.cpp, on the transaction of the context
unfoldable pub mark_remote_write : ℕ → Transactions → Transactions
mark_remote_write id transactions = elim (find id transactions) [
  | none ↦ transactions
  | some transaction ↦ put id (mark_write transaction) transactions
]

-- `RejectExplicitTransaction`
unfoldable pub reject_explicit_transaction : Duckdb → ClientContext → Result Exception Unit
reject_explicit_transaction db context =
    let query = db.lower context.current_query in
    if supports_explicit_transactions
    then ok tt
    else if not context.is_auto_commit
        || contains (codes "begin") query
        || contains (codes "rollback") query
        || contains (codes "commit") query
    then err (not_implemented explicit_transaction_not_supported_message)
    else ok tt
