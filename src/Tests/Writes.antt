-- ===== src/Tests/Writes.antt =====
-- INSERTs and UPDATEs on the document.
use duckdb_coda.Prelude.{
  ℕ, zero, suc, ◌≡◌, refl, true, false, List, [], ◌∷◌, map, flatten, tabulate, Result, ok, err,
  arith,
}
use duckdb_coda.Text.{Text, codes, to_ascii_lower, text_eq, contains, starts_with}
use duckdb_coda.Abi.{RustExtInputValue, has_capability, pos}
use duckdb_coda.Duckdb.{DataChunk, invalid_input, not_implemented, out_of_bounds}
use duckdb_coda.Messages.{with_context, transaction_rollback_not_supported_message}
use duckdb_coda.Table.{supports}
use duckdb_coda.Mutation.{
  write_cells, insert_body, update_row, update_body, perform, upsert_input, update_input,
}
use duckdb_coda.Mutation
use duckdb_coda.Mutation.Updates.{
  Job, job_id, job_values, nothing, then_sent, Ending, run_job, update_rows-Ending,
}
use duckdb_coda.Client
use duckdb_coda.Client.{
  insert_values, insert_row_values, editable_columns, update_column, update_row_values,
  update_value, expression_value, convert, convert_typed, update_columns, update_values,
  chunk_row_ids, last_column, bound_ref, value_default,
}
use duckdb_coda.Client.Delete.{delete_result, delete_request, delete_rows_lem}
use duckdb_coda.Client.Update.{jobs_of, chunk_values, update_rows-jobs_of}
use duckdb_coda.Client.{thrown, chunk_row_ids, last_column}
use duckdb_coda.Client.Insert.{insert_result, insert_request, insert_rows_lem}
use duckdb_coda.Sdk.{send_request, read_response}
use duckdb_coda.Transaction.{rollback, reject_explicit_transaction, mark_write}
use duckdb_coda.Dml.{
  SinkState, insert, update, sink, sink_all, sink_checked, sink_rows, write, finish_write,
  add_affected, capability,
}
use duckdb_coda.Dml.Sinks.{Accounted, sink-Accounted, sink_all-rollback}
use duckdb_coda.Dml.Source.{get_data, get_data-total, initial_sink}
use duckdb_coda.Dml.Partial.{Amounts, partial_update}
use duckdb_coda.Tests.Document.{
  Datum, text, db, platform, config, table, autocommit, autocommit_passes, fresh, write_columns,
  names,
}

abbrev value : Text → RustExtInputValue ℕ
value s = record {
  value_type = 5;
  bool_value = false;
  int_value = pos 0;
  uint_value = 0;
  double_value = 0;
  string_value = s;
}

abbrev job : Text → Job ℕ
job id = (id, value (codes "Ada") ∷ [])

abbrev jobs : List (Job ℕ)
jobs = job (codes "i1") ∷ job (codes "bad") ∷ job (codes "i2") ∷ []

update_rows-Ending_example : Ending platform config (codes "grid") write_columns 30 3 jobs [] (
    Mutation.update_rows platform config
      (codes "grid")
      (map job_id jobs)
      write_columns
      (flatten (map job_values jobs))
      30
      [])
update_rows-Ending_example =
    update_rows-Ending platform config (codes "grid") write_columns 30 jobs [] (omega arith)
      (refl, (refl, (refl, tt)))

insert_rows_lem_example :
    Client.insert_rows db platform config table names []
    ≡ insert_result db platform config 2
        (perform platform config (insert_request db platform config table names) [])
insert_rows_lem_example =
    insert_rows_lem db platform config table names [] (unfold has_capability in refl)

sink-Accounted_example :
    Accounted db platform config table insert autocommit names fresh
      (sink db platform config table insert autocommit names fresh)
sink-Accounted_example = sink-Accounted db platform config table insert autocommit names fresh

abbrev inserted : SinkState (List Text)
inserted = record {
  world = codes "grid" ∷ codes "grid" ∷ [];
  transaction = record { has_writes = true };
  affected_count = 4;
}

all_inserted :
    sink_all db platform config table insert autocommit (names ∷ names ∷ []) fresh
    ≡ (ok tt, inserted)
unfolding sink_all sink sink_checked sink_rows write finish_write add_affected mark_write capability
    supports has_capability reject_explicit_transaction contains starts_with Client.insert_rows
    Mutation.insert_rows insert_body insert_values insert_row_values editable_columns flatten
    upsert_input perform send_request read_response text_eq to_ascii_lower
all_inserted = refl

all_inserted_anew :
    sink_all db platform config table insert autocommit
      (names ∷ names ∷ [])
      (initial_sink [] (record { has_writes = false }))
    ≡ (ok tt, inserted)
unfolding initial_sink
all_inserted_anew = all_inserted

get_data-total_example : get_data out_of_bounds insert inserted ≡ ok (pos 4)
get_data-total_example =
    get_data-total db platform config table insert autocommit (names ∷ names ∷ []) []
      (record { has_writes = false }) inserted out_of_bounds all_inserted_anew (omega arith)

sink_all-rollback_example :
    rollback inserted.transaction ≡ err (not_implemented transaction_rollback_not_supported_message)
sink_all-rollback_example =
    sink_all-rollback db platform config table insert autocommit (names ∷ names ∷ []) fresh inserted
      all_inserted (omega arith) (omega arith)

-- Two rows to update; the API refuses the second.
abbrev renamed : DataChunk Datum
renamed = record { size = 2; column_count = 2; get_value = get_value }
  where
    get_value : ℕ → ℕ → Datum
    get_value zero row = text (codes "Ada")
    get_value (suc col) zero = text (codes "i1")
    get_value (suc col) (suc row) = text (codes "bad")

amounts :
    Amounts db platform config table write_columns
      (job (codes "i1") ∷ [])
      (job (codes "bad"))
      []
      (0 ∷ [])
      (bound_ref 0 ∷ [])
      renamed
unfolding supports has_capability update_columns update_column update_values update_row_values
    update_value expression_value convert convert_typed flatten chunk_row_ids last_column
amounts = record {
  some_row = omega arith;
  allowed = refl;
  columns_ok = refl;
  values_ok = refl;
  ids = refl;
  some_column = omega arith;
  wide = (refl, (refl, tt));
}

module _ (id : Text) (w : List Text) where
  abbrev run_one : Result Text Unit × List Text
  run_one = run_job platform config (codes "grid") write_columns 30 (job id) w

first_sent : run_one (codes "i1") [] ≡ (ok tt, codes "i1" ∷ [])
unfolding update_row update_body update_input has_capability perform send_request read_response
    text_eq
first_sent = refl

second_refused :
    run_one (codes "bad") (codes "i1" ∷ []) ≡ (err (codes "refused"), codes "bad" ∷ codes "i1" ∷ [])
unfolding update_row update_body update_input has_capability perform send_request read_response
    text_eq
second_refused = refl

partial_update_example :
    let (result, state') =
      sink db platform config table (update (0 ∷ []) (bound_ref 0 ∷ [])) autocommit renamed fresh in
    (result
      ≡ err (invalid_input (with_context (codes "failed to update Coda rows") (codes "refused"))))
    × (state'.world ≡ codes "bad" ∷ codes "i1" ∷ [])
    × (rollback state'.transaction ≡ ok tt)
partial_update_example =
    partial_update db platform config table write_columns (job (codes "i1") ∷ [])
      (job (codes "bad")) [] (0 ∷ []) (bound_ref 0 ∷ []) autocommit renamed fresh (codes "refused")
      amounts autocommit_passes (then_sent first_sent nothing) second_refused refl

delete_rows_lem_example :
    Client.delete_rows db platform config table renamed 1 []
    ≡ delete_result db platform config 2
        (perform platform config (delete_request db platform config table renamed 1) [])
delete_rows_lem_example = delete_rows_lem db platform config table renamed 1 [] (omega arith)

abbrev renamed_rows : List (List (RustExtInputValue ℕ))
renamed_rows = (value (codes "Ada") ∷ []) ∷ (value (codes "Ada") ∷ []) ∷ []

renamed_values :
    chunk_values db table renamed (0 ∷ []) (bound_ref 0 ∷ []) (tabulate 2 (λ i. i))
    ≡ ok renamed_rows
unfolding update_row_values update_value expression_value convert convert_typed
renamed_values = refl

update_rows-jobs_of_example :
    (call : Result Text ℕ × List Text) × (Client.update_rows db platform config table renamed
        (0 ∷ [])
        (bound_ref 0 ∷ [])
        []
      ≡ thrown db (codes "failed to update Coda rows") call)
    × Ending platform config
        (codes "grid")
        write_columns
        30
        2
        (jobs_of (chunk_row_ids db renamed (last_column db renamed)) renamed_rows)
        []
        call
update_rows-jobs_of_example =
    update_rows-jobs_of db table platform config renamed (0 ∷ []) (bound_ref 0 ∷ []) write_columns
      renamed_rows [] amounts.columns_ok renamed_values (omega arith)
