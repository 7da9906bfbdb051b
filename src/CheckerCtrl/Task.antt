-- ===== src/CheckerCtrl/Task.antt =====
-- internal/checkerctrl/controller.go: the task that `genCheckerTask` makes of a checker, and
-- internal/checkerctrl/metrics.go: what it counts. Durations go to histograms, of which the number
-- of updates is kept.
use govnilo.Prelude.{
  ℕ, ◌+◌, string_eq, Bool, true, false, ◌&&◌, if◌then◌else◌, Option, none, some, String, lookup,
}
use govnilo.Proto.{Settings, ServiceSettings, CheckerSettings}
use govnilo.CheckerCtrl.Helpers.{CheckerId, service_map, checkers_map}

-- `F` sums are those of `FloatCounter.Add`, of the metrics library, which is `add`.
pub record Metrics (F : Type 0) : Type 0 where
  pub success_check_counter : ℕ
  pub success_check_points : F
  pub fail_check_counter : ℕ
  pub fail_check_penalty : F
  pub internal_errors_total : ℕ
  pub internal_errors_duration : ℕ
  pub success_check_duration : ℕ
  pub fail_check_duration : ℕ

pub record TaskSettings (F : Type 0) : Type 0 where
  pub target : String
  pub settings : CheckerSettings F

-- `updateSettings`: what is stored in `lastSettings` afterwards.
module _ {F : Type 0} where
  update_of_service :
      String → Option (ServiceSettings F) → Option (TaskSettings F) → Option (TaskSettings F)
  update_of_service name none last = last
  update_of_service name (some svc) last = elim (lookup name (checkers_map svc.checkers)) [
    | none ↦ last
    | some c ↦ some (record { target = svc.target; settings = c })
  ]

  unfoldable pub update_settings :
      CheckerId → Option (Settings F) → Option (TaskSettings F) → Option (TaskSettings F)
  unfolding update_of_service
  update_settings id none last = last
  update_settings id (some current) last =
      update_of_service id.name (lookup id.service (service_map current)) last

-- What `checker.Check` comes to; `true` if `errors.As` finds an `InternalErr` in its error.
pub data CheckResult : Type 0 where
  succeeded panicked : CheckResult
  failed : Bool → CheckResult

-- The result, and the context after it: whether its error is `Canceled`, and whether the cause of
-- that is `ErrTaskCancelled`.
pub record CheckRun : Type 0 where
  pub result : CheckResult
  pub canceled : Bool
  pub by_task_runner : Bool

-- The error that the task returns, if there are no settings yet.
pub data TaskError : Type 0 where
  no_checker_settings : TaskError

-- A panic passes over the test of the context.
is_cancelled : CheckRun → Bool
is_cancelled run = elim run.result [
  | panicked ↦ false
  | succeeded ↦ run.canceled && run.by_task_runner
  | failed _ ↦ run.canceled && run.by_task_runner
]

module _ {F : Type 0} (add : F → F → F) where
  count_internal : Metrics F → Metrics F
  count_internal m = record m {
    internal_errors_total = m.internal_errors_total + 1;
    internal_errors_duration = m.internal_errors_duration + 1;
  }

  count_success : CheckerSettings F → Metrics F → Metrics F
  count_success s m = record m {
    success_check_counter = m.success_check_counter + 1;
    success_check_duration = m.success_check_duration + 1;
    success_check_points = add m.success_check_points s.success_points;
  }

  count_fail : CheckerSettings F → Metrics F → Metrics F
  count_fail s m = record m {
    fail_check_counter = m.fail_check_counter + 1;
    fail_check_duration = m.fail_check_duration + 1;
    fail_check_penalty = add m.fail_check_penalty s.fail_penalty;
  }

  -- The deferred function, for a run that was not cancelled.
  count_result : CheckerSettings F → CheckResult → Metrics F → Metrics F
  unfolding count_internal count_success count_fail
  count_result s panicked m = count_internal m
  count_result s (failed true) m = count_internal m
  count_result s (failed false) m = count_fail s m
  count_result s succeeded m = count_success s m

  unfoldable pub check_task :
      Option (TaskSettings F) → CheckRun → Metrics F → Metrics F × Option TaskError
  unfolding count_result is_cancelled
  check_task none run m = (m, some no_checker_settings)
  check_task (some s) run m =
      (if is_cancelled run then m else count_result s.settings run.result m, none)
