-- ===== src/Tests/Memory.antt =====
-- The life of a scan handle and of a buffer.
use duckdb_coda.Prelude.{ℕ, ◌≡◌, refl, some, List, [], ◌∷◌, map, ok, arith}
use duckdb_coda.Client.{insert_values}
use duckdb_coda.Client.Buffer.{insert_buffered, resolve}
use duckdb_coda.Client.Buffer.Borrows.{insert_buffered-insert_values}
use duckdb_coda.Ownership.{
  hit, count, remove, free_allocated, free_block, scan_close, close_handle, scan_handle, scan_batch,
  raw_of, set_raw, end_object, Memory, empty_memory, Operation, default_construct, destroy,
  construct, move_construct, move_assign, with_raw, new_object, allocate, reset, construct_moved,
  assign_moved, take_over, ended, destruct, step, run, assign_result,
}
use duckdb_coda.Ownership.Sound.{Sound, run-Sound_start, run-Owned, run-no_leak}
use duckdb_coda.Ownership.Classes.{scan_handle-Releases, scan_batch-Releases}
use duckdb_coda.Ownership.Replace.{released, run-assign_result}
use duckdb_coda.Tests.Document.{db, table, names}

-- A handle that is opened, moved into the state of a scan, and ends with it.
abbrev life : List Operation
life =
    default_construct 1
    ∷ construct 2 70
    ∷ move_construct 3 2
    ∷ move_assign 1 3
    ∷ destroy 3
    ∷ destroy 2
    ∷ destroy 1
    ∷ []

run-Sound_start_example : Sound (run scan_handle life empty_memory)
run-Sound_start_example = run-Sound_start scan_handle scan_handle-Releases life

life_runs : run scan_handle life empty_memory ≡ ok empty_memory
unfolding run step new_object allocate construct_moved assign_moved take_over destruct ended reset
    with_raw raw_of set_raw end_object count hit remove free_allocated scan_close close_handle
life_runs = refl

run-no_leak_example : ◌≡◌ {A = List ℕ} [] []
run-no_leak_example = run-no_leak scan_handle scan_handle-Releases life life_runs refl

-- A state that has a batch.
abbrev scanning : Memory
scanning = record { live = 80 ∷ []; objects = (1, 80) ∷ [] }

scanning_runs :
    run scan_batch (default_construct 1 ∷ assign_result 1 2 80) empty_memory ≡ ok scanning
unfolding run step new_object allocate assign_moved take_over destruct ended reset with_raw raw_of
    set_raw end_object count hit remove free_allocated free_block
scanning_runs = refl

run-assign_result_example :
    run scan_batch (assign_result 1 2 90) scanning
    ≡ ok (record { live = 90 ∷ released 80 (80 ∷ []); objects = set_raw 1 90 ((1, 80) ∷ []) })
run-assign_result_example =
    run-assign_result scan_batch scan_batch-Releases 1 2 90 80 scanning
      (run-Owned scan_batch scan_batch-Releases (default_construct 1 ∷ assign_result 1 2 80)
        scanning_runs)
      (unfold raw_of in refl) (unfold raw_of in refl) (omega arith)
      (unfold count in unfold hit in refl)

insert_buffered-insert_values_example :
    map
      (resolve db (λ n. n) (insert_buffered db (λ n. n) table names).1)
      (insert_buffered db (λ n. n) table names).0
    ≡ map some (insert_values db table names)
insert_buffered-insert_values_example = insert_buffered-insert_values db (λ n. n) table names
