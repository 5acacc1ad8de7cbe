-- ===== src/Mutation/Updates.antt =====
-- The requests of an UPDATE, row by row.
use duckdb_coda.Prelude.{
  ℕ, suc, ◌+◌, ◌*◌, ◌<◌, ==_iff, ◌≡◌, refl, sym, ap, ◌∙◌, List, [], ◌∷◌, ◌++◌, append_assoc, map,
  flatten, length, length-append, length-map, is_empty_of_pos, take, drop, take-append_left,
  drop-append_add, Result, ok, err, and_run, arith,
}
use mathlib.Core.Path.{fun_ext}
use duckdb_coda.Text.{Text}
use duckdb_coda.Abi.{RustExtWriteColumn, RustExtInputValue, RustExtClientConfig}
use duckdb_coda.Platform.{Platform}
use duckdb_coda.Mutation.{slice, update_row, update_loop, update_rows}

-- A row to update: its id, and its values.
abbrev pub Job : Type 0 → Type 0
Job Double = Text × List (RustExtInputValue Double)

abbrev pub job_id : {Double : Type 0} → Job Double → Text
job_id job = job.0

abbrev pub job_values : {Double : Type 0} → Job Double → List (RustExtInputValue Double)
job_values job = job.1

-- Every row has a value for each column.
abbrev pub AreWide : {Double : Type 0} → ℕ → List (Job Double) → Type 0
AreWide k [] = Unit
AreWide k (job ∷ jobs) = (length job.1 ≡ k) × AreWide k jobs

module _ {Double : Type 0} (platform : Platform Double) (config : RustExtClientConfig)
    (table_id : Text) (columns : List RustExtWriteColumn) (capabilities : ℕ) where
  open platform use {World}

  abbrev pub run_job : Job Double → World → Result Text Unit × World
  run_job job w = update_row platform config table_id columns capabilities job.0 job.1 w

  -- The jobs went through, one after another, and took the world from the first to the second.
  pub data Sent : List (Job Double) → World → World → Type 0 where
    nothing : {w : World} → Sent [] w w
    then_sent :
        {job : Job Double} {jobs : List (Job Double)} {w w' w'' : World}
        → run_job job w ≡ (ok tt, w')
        → Sent jobs w' w''
        → Sent (job ∷ jobs) w w''

  -- How a run of jobs ends: all sent, or stopped at the first that fails, with those before it sent.
  pub data Ending {A : Type 0} (value : A) (jobs : List (Job Double)) (w : World)
      (call : Result Text A × World) : Type 0 where
    all_sent : {w' : World} → Sent jobs w w' → call ≡ (ok value, w') → Ending value jobs w call
    stopped :
        (before : List (Job Double)) (job : Job Double) (after : List (Job Double)) (message : Text)
        {w₁ w₂ : World}
        → jobs ≡ before ++ job ∷ after
        → Sent before w w₁
        → run_job job w₁ ≡ (err message, w₂)
        → call ≡ (err message, w₂)
        → Ending value jobs w call

  run_jobs : List (Job Double) → World → Result Text Unit × World
  run_jobs [] w = (ok tt, w)
  run_jobs (job ∷ jobs) w = and_run (run_job job w) (λ _ w'. run_jobs jobs w')

  slice_of_job :
      (i : ℕ) (done values rest : List (RustExtInputValue Double))
      → length done ≡ i * length columns
      → length values ≡ length columns
      → slice (i * length columns) (length columns) (done ++ (values ++ rest)) ≡ values
  slice_of_job i done values rest d v =
      ap (take (length columns)) (
        let e : i * length columns ≡ i * length columns + 0 = omega arith in
        ap (λ (k : ℕ). drop k (done ++ (values ++ rest))) e
        ∙ drop-append_add (i * length columns) 0 done (values ++ rest) d)
      ∙ take-append_left (length columns) values rest v

  -- The loop reads each row's values from the flat array, behind those of the rows before it.
  update_loop-run_jobs :
      (i : ℕ) (done : List (RustExtInputValue Double)) (jobs : List (Job Double)) (w : World)
      → length done ≡ i * length columns
      → AreWide (length columns) jobs
      → update_loop platform config table_id columns
          (done ++ flatten (map job_values jobs))
          capabilities
          i
          (map job_id jobs)
          w
        ≡ run_jobs jobs w
  unfolding update_loop run_jobs flatten
  update_loop-run_jobs i done [] w d wide = refl
  update_loop-run_jobs i done (job ∷ jobs) w d wide =
      ap
        (λ (vs : List (RustExtInputValue Double)).
          and_run (update_row platform config table_id columns capabilities job.0 vs w) (λ _ w'.
            update_loop platform config table_id columns
              (done ++ flatten (map job_values (job ∷ jobs))) capabilities (suc i) (map job_id jobs)
              w'))
        (slice_of_job i done job.1 (flatten (map job_values jobs)) d wide.0)
      ∙ ap
          (λ (go_on : World → Result Text Unit × World). and_run (run_job job w) (λ _ w'. go_on w'))
          (fun_ext λ w'.
            ap
              (λ (vs : List (RustExtInputValue Double)).
                update_loop platform config table_id columns vs capabilities (suc i)
                  (map job_id jobs) w')
              (sym (append_assoc done job.1 (flatten (map job_values jobs))))
            ∙ update_loop-run_jobs (suc i) (done ++ job.1) jobs w'
                (omega (arith, length-append done job.1, d, wide.0)) wide.1)

  run_jobs-Ending : (jobs : List (Job Double)) (w : World) → Ending tt jobs w (run_jobs jobs w)
  unfolding run_jobs
  run_jobs-Ending [] w = all_sent nothing refl
  run_jobs-Ending (job ∷ jobs) w = first (run_job job w) refl (run_jobs-Ending jobs)
    where
      later :
          (w' : World)
          → run_job job w ≡ (ok tt, w')
          → Ending tt jobs w' (run_jobs jobs w')
          → Ending tt (job ∷ jobs) w (and_run (run_job job w) (λ _ w'. run_jobs jobs w'))
      later w' e (all_sent sent end) = all_sent (then_sent e sent) (rw e end)
      later w' e (stopped before failed after message split sent failure end) =
          stopped (job ∷ before) failed after message (ap (λ t. job ∷ t) split) (then_sent e sent)
            failure (rw e end)

      first :
          (answer : Result Text Unit × World)
          → run_job job w ≡ answer
          → ((w' : World) → Ending tt jobs w' (run_jobs jobs w'))
          → Ending tt (job ∷ jobs) w (and_run (run_job job w) (λ _ w'. run_jobs jobs w'))
      first (ok _, w') e rest = later w' e (rest w')
      first (err message, w') e rest = stopped [] job jobs message refl nothing e (rw e)

  Ending-count :
      (jobs : List (Job Double)) (w : World) (count : ℕ) (call : Result Text Unit × World)
      → Ending tt jobs w call
      → Ending count jobs w (and_run call (λ _ w'. (ok count, w')))
  Ending-count jobs w count call (all_sent sent end) = all_sent sent (rw end)
  Ending-count jobs w count call (stopped before job after message split sent failure end) =
      stopped before job after message split sent failure (rw end)

  length-flatten-jobs :
      (jobs : List (Job Double))
      → AreWide (length columns) jobs
      → length (flatten (map job_values jobs)) ≡ length (map job_id jobs) * length columns
  unfolding flatten
  length-flatten-jobs [] wide = omega arith
  length-flatten-jobs (job ∷ jobs) wide = omega (
    arith,
    length-append job.1 (flatten (map job_values jobs)),
    wide.0,
    length-flatten-jobs jobs wide.1,
  )

  update_rows-run_jobs :
      (jobs : List (Job Double)) (w : World)
      → 0 < length columns
      → AreWide (length columns) jobs
      → update_rows platform config table_id
          (map job_id jobs)
          columns
          (flatten (map job_values jobs))
          capabilities
          w
        ≡ and_run (run_jobs jobs w) (λ _ w'. (ok (length jobs), w'))
  unfolding update_rows
  update_rows-run_jobs jobs w some_column wide =
      let none_missing = is_empty_of_pos columns some_column in
      let all_there =
        (==_iff (length (flatten (map job_values jobs)))
            (length (map job_id jobs) * length columns)).1
          (length-flatten-jobs jobs wide) in
      let loop = update_loop-run_jobs 0 [] jobs w (omega arith) wide in
      rw (none_missing, all_there, loop, length-map job_id jobs)

  -- An UPDATE with a column and, for each row, a value for each column sends the rows' requests in
  -- order. Either all of them go through and their number is the result, or the first that fails
  -- gives the error, and those before it have been sent.
  pub update_rows-Ending :
      (jobs : List (Job Double)) (w : World)
      → 0 < length columns
      → AreWide (length columns) jobs
      → Ending (length jobs) jobs w (
          update_rows platform config table_id
            (map job_id jobs)
            columns
            (flatten (map job_values jobs))
            capabilities
            w)
  update_rows-Ending jobs w some_column wide =
      rw (update_rows-run_jobs jobs w some_column wide)
        (Ending-count jobs w (length jobs) (run_jobs jobs w) (run_jobs-Ending jobs w))

  run_jobs-stopped :
      {before : List (Job Double)} (job : Job Double) (after : List (Job Double)) (message : Text)
      {w w₁ w₂ : World}
      → Sent before w w₁
      → run_job job w₁ ≡ (err message, w₂)
      → run_jobs (before ++ job ∷ after) w ≡ (err message, w₂)
  unfolding run_jobs
  run_jobs-stopped job after message nothing failure = rw failure
  run_jobs-stopped job after message (then_sent e sent) failure =
      rw e (run_jobs-stopped job after message sent failure)

  -- The rows before one that fails stay sent, and the error is that row's.
  pub update_rows-stopped :
      (before : List (Job Double)) (job : Job Double) (after : List (Job Double)) (message : Text)
      {w w₁ w₂ : World}
      → 0 < length columns
      → AreWide (length columns) (before ++ job ∷ after)
      → Sent before w w₁
      → run_job job w₁ ≡ (err message, w₂)
      → update_rows platform config table_id
          (map job_id (before ++ job ∷ after))
          columns
          (flatten (map job_values (before ++ job ∷ after)))
          capabilities
          w
        ≡ (err message, w₂)
  update_rows-stopped before job after message {w} some_column wide sent failure =
      update_rows-run_jobs (before ++ job ∷ after) w some_column wide
      ∙ ap (λ r. and_run r (λ _ w'. (ok (length (before ++ job ∷ after)), w')))
          (run_jobs-stopped job after message sent failure)
