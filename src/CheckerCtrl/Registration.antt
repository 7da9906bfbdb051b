-- ===== src/CheckerCtrl/Registration.antt =====
-- internal/checkerctrl/controller.go: `New`, with `registerMetrics` of metrics.go. `metered` has the
-- checkers whose metrics are registered in the process; the metrics library panics when a name is
-- registered twice, and the names quote the service and the name of the checker.
use Prim.Native.String.{◌++◌ as string_append}
use govnilo.Prelude.{
  ◌==◌, string_eq, Bool, false, ◌||◌, if◌then◌else◌, List, [], ◌∷◌, none, some, String, insert,
  Outcome, ok, err, panic,
}
use govnilo.Floats.{Floats}
use govnilo.RateLimit.{RateLibrary}
use govnilo.RateRunner.{RateRunner, TaskSpec, register, new_rate_runner}
use govnilo.RateRunner
use govnilo.CheckerCtrl.{Controller}
use govnilo.CheckerCtrl.Helpers.{CheckerId, checker_id_eq}

-- `%s__%s__check`.
unfoldable pub task_id : CheckerId → String
task_id id = string_append id.service (string_append "__" (string_append id.name "__check"))

abbrev pub among : CheckerId → List CheckerId → Bool
among id [] = false
among id (j ∷ ids) = j == id || among id ids

module _ (fl : Floats) (lib : RateLibrary fl) (p : fl.F) where
  -- What the answer of `RegisterTask` leads to; the error is wrapped.
  unfoldable pub keep_handle :
      Controller fl lib
      → CheckerId
      → RateRunner fl lib × Outcome RateRunner.Error (TaskSpec fl lib)
      → Outcome RateRunner.Error (Controller fl lib)
  keep_handle c id (rr, ok t) =
      ok (record c { rr = rr; checkers = insert id (some t.id) c.checkers })
  keep_handle c id (rr, err e) = err e
  keep_handle c id (rr, panic) = panic

  -- The body of the loop: an entry without a handle, its metrics, its task.
  unfoldable pub add_checker :
      List CheckerId → Controller fl lib → CheckerId → Outcome RateRunner.Error (Controller fl lib)
  unfolding keep_handle
  add_checker metered c id =
      let c' = record c { checkers = insert id none c.checkers } in
      if among id metered
      then panic
      else keep_handle c' id (register fl lib p c'.rr (some (task_id id)))

  unfoldable pub add_checkers :
      List CheckerId
      → Controller fl lib
      → List CheckerId
      → Outcome RateRunner.Error (Controller fl lib)
  unfolding add_checker
  add_checkers metered c [] = ok c
  add_checkers metered c (id ∷ ids) = elim (add_checker metered c id) [
    | ok c' ↦ add_checkers (id ∷ metered) c' ids
    | err e ↦ err e
    | panic ↦ panic
  ]

  -- `New`, by the ids of the checkers.
  unfoldable pub new_controller :
      List CheckerId → List CheckerId → Outcome RateRunner.Error (Controller fl lib)
  unfolding add_checkers
  new_controller metered ids =
      add_checkers metered
        (record { checkers = []; current_settings = none; rr = new_rate_runner fl lib }) ids
