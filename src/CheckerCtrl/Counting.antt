-- ===== src/CheckerCtrl/Counting.antt =====
-- What one run of a checker's task adds to the metrics.
use govnilo.Prelude.{ℕ, ◌+◌, ◌≡◌, ◌⊎◌, ◌≢◌, true, false, none, some, arith}
use govnilo.CheckerCtrl.Task.{
  Metrics, TaskSettings, succeeded, panicked, failed, CheckRun, check_task,
}

abbrev pub runs_counted : {F : Type 0} → Metrics F → ℕ
runs_counted m = m.success_check_counter + m.fail_check_counter + m.internal_errors_total

-- Stopped by the task runner before the check came to a panic.
abbrev pub IsCancelled : CheckRun → Type 0
IsCancelled run = (run.result ≢ panicked) × (run.canceled ≡ true) × (run.by_task_runner ≡ true)

module _ {F : Type 0} (add : F → F → F) (s : TaskSettings F) (run : CheckRun) (m : Metrics F) where
  -- A run that the task runner cancelled counts for nothing.
  pub check_task_cancelled : IsCancelled run → check_task add (some s) run m ≡ (m, none)
  unfolding check_task
  check_task_cancelled c = ground arith

  -- Any other run is counted once: as a success, with its points, if the check returned nil; as an
  -- internal error, with no penalty, if it panicked or returned an internal error; and else as a
  -- failure, with its penalty. The task itself never fails then.
  pub check_task_counts :
      ¬ IsCancelled run
      → let (m', error) = check_task add (some s) run m in
        (error ≡ none)
        × (runs_counted m' ≡ runs_counted m + 1)
        × (run.result ≡ succeeded
            → (m'.success_check_counter ≡ m.success_check_counter + 1)
              × (m'.success_check_points ≡ add m.success_check_points s.settings.success_points)
              × (m'.fail_check_penalty ≡ m.fail_check_penalty))
        × ((run.result ≡ panicked) ⊎ (run.result ≡ failed true)
            → (m'.internal_errors_total ≡ m.internal_errors_total + 1)
              × (m'.success_check_points ≡ m.success_check_points)
              × (m'.fail_check_penalty ≡ m.fail_check_penalty))
        × (run.result ≡ failed false
            → (m'.fail_check_counter ≡ m.fail_check_counter + 1)
              × (m'.success_check_points ≡ m.success_check_points)
              × (m'.fail_check_penalty ≡ add m.fail_check_penalty s.settings.fail_penalty))
  unfolding check_task
  check_task_counts n = ground arith
