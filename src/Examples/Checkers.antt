-- ===== src/Examples/Checkers.antt =====
-- A controller of two checkers, of which the settings mention one.
use mathlib.Core.Path.{subst}
use govnilo.CheckerCtrl.Helpers.{CheckerId, checker_id_eq}
use govnilo.Prelude.{
  List, Outcome, insert, panic, err, ℕ, pos, ◌+◌, ◌≡◌, refl, ap, ◌⊎◌, string_eq, ne_of_beq, true,
  false, [], ◌∷◌, All, Option, none, some, String, lookup, map, ok, ◌++◌, inl, inr,
}
use govnilo.CheckerCtrl.{Controller, options_for, sync_state}
use govnilo.CheckerCtrl.Points.{normalize_points, sum_points}
use govnilo.CheckerCtrl.Task.{
  Metrics, TaskSettings, update_settings, CheckRun, succeeded, panicked, failed, check_task,
}
use govnilo.CheckerCtrl.Described.{weighed, described_applies}
use govnilo.CheckerCtrl.Counting.{runs_counted, check_task_counts}
use govnilo.CheckerCtrl.Sync.{IsHandled, HasOptions, DistinctHandles, sync_state_applies}
use govnilo.CheckerCtrl.Rounds.{rounds, rounds_in_force}
use govnilo.CheckerCtrl.System.{
  IsProvided, Reach, Phase, idle, syncing, store, set_next, by_file, stores, sets, proceeds, starts,
  steps,
}
use govnilo.CheckerCtrl.Applied.{IsApplied}
use govnilo.CheckerCtrl.InForce.{Reach_in_force}
use govnilo.RateRunner.Steps.{observes}
use govnilo.RateRunner.Adjust.{Runs}
use govnilo.Proto.{Settings, CheckerSettings}
use govnilo.RateRunner
use govnilo.RateRunner.{
  already_registered, RateRunner, TaskSpec, new_spec, run_round, task_done, register,
  new_rate_runner,
}
use govnilo.TaskRunner.{register_task}
use govnilo.CheckerCtrl.Registration.{new_controller, task_id}
use govnilo.CheckerCtrl.Collision.{new_controller_collision}
use govnilo.CheckerCtrl.Handles.{entry_of, new_controller_handles}
use govnilo.CheckerCtrl.Registered.{IsRegistered, new_controller-IsRegistered}
use govnilo.Examples.Sources.{clock, files, file_passes}
use govnilo.Examples.Setting.{numbers, limits, first_or_zero}
use govnilo.Examples.Settings.{shop, good, good_passes, checker}
use govnilo.Examples.Rates.{ping, runner}

abbrev pub zero_counts : Metrics ℕ
zero_counts = record {
  success_check_counter = 0;
  success_check_points = 0;
  fail_check_counter = 0;
  fail_check_penalty = 0;
  internal_errors_total = 0;
  internal_errors_duration = 0;
  success_check_duration = 0;
  fail_check_duration = 0;
}

abbrev pub put_settings : TaskSettings ℕ
put_settings = record { target = "10.0.0.1"; settings = checker "put" (some (pos 1)) }

abbrev failing : CheckRun
failing = record { result = failed false; canceled = false; by_task_runner = false }

check_task_counts_example :
    let (m', error) = check_task (λ a b. a + b) (some put_settings) failing zero_counts in
    (error ≡ none)
    × (runs_counted m' ≡ 1)
    × (failed false ≡ succeeded
        → (m'.success_check_counter ≡ 1)
          × (m'.success_check_points ≡ 2)
          × (m'.fail_check_penalty ≡ 0))
    × ((failed false ≡ panicked) ⊎ (failed false ≡ failed true)
        → (m'.internal_errors_total ≡ 1)
          × (m'.success_check_points ≡ 0)
          × (m'.fail_check_penalty ≡ 0))
    × (failed false ≡ failed false
        → (m'.fail_check_counter ≡ 1) × (m'.success_check_points ≡ 0) × (m'.fail_check_penalty ≡ 1))
check_task_counts_example =
    check_task_counts (λ a b. a + b) put_settings failing zero_counts (λ c. cc (c.1))

abbrev runner_of_two : RateRunner numbers limits
runner_of_two = record runner { tasks = ("put", ping) ∷ ("old", ping) ∷ [] }

abbrev controller : Controller numbers limits
controller = record {
  checkers =
      (record { service = "shop"; name = "put" }, some "put")
      ∷ (record { service = "shop"; name = "old" }, some "old")
      ∷ [];
  current_settings = none;
  rr = runner_of_two;
}

handled : All (λ x. IsHandled runner_of_two (x.1)) controller.checkers
unfolding lookup
handled = ((λ e. cc e), ((λ e. cc e), tt))

name_or : String → Option String → String
name_or n none = n
name_or n (some m) = m

different : DistinctHandles controller.checkers
unfolding name_or
different = (((λ e. ne_of_beq "put" "old" refl (ap (name_or "") e)), tt), (tt, tt))

sync_state_applies_example :
    let settings' = normalize_points numbers limits good in
    let (c', outcome) = sync_state {E = ℕ} controller (ok good) in
    (outcome ≡ ok tt)
    × (c'.current_settings ≡ some settings')
    × All (λ x. HasOptions c'.rr (x.1) (options_for settings' (x.0))) c'.checkers
sync_state_applies_example = sync_state_applies controller good good_passes handled different

abbrev put : CheckerSettings ℕ
put = checker "put" (some (pos 1_000_000_000))

described_applies_example :
    let id : CheckerId = record { service = "shop"; name = "put" } in
    let c' = (sync_state {E = ℕ} controller (ok good)).0 in
    (update_settings id c'.current_settings none
      ≡ some (record { target = "10.0.0.1"; settings = weighed numbers limits shop put }))
    × All
        (λ x.
          x.0 ≡ id
          → HasOptions c'.rr (x.1) (record {
            rate = record { times = 10; per = pos 1_000_000_000 };
            max_goroutines = pos 4;
          }))
        c'.checkers
described_applies_example =
    described_applies ℕ controller good shop put
      (record {
        rate = some (record { times = 10; per = some (pos 1_000_000_000) });
        max_goroutines = pos 4;
      })
      (record { times = 10; per = some (pos 1_000_000_000) }) (pos 1_000_000_000) none good_passes
      (inl refl) (inl refl) refl refl refl handled different

-- Ten points of 2 a second, and five: their share of 1000.
weighed_test : (weighed numbers limits shop put).success_points ≡ 66
unfolding sum_points
weighed_test = refl

abbrev shop_ids : List CheckerId
shop_ids =
    record { service = "shop"; name = "put" } ∷ record { service = "shop"; name = "old" } ∷ []

abbrev or_given :
    Controller numbers limits
    → Outcome RateRunner.Error (Controller numbers limits)
    → Controller numbers limits
or_given c (ok d) = d
or_given c (err _) = c
or_given c panic = c

abbrev started : Controller numbers limits
started = or_given controller (new_controller numbers limits 1 [] shop_ids)

started_ok : new_controller numbers limits 1 [] shop_ids ≡ ok started
unfolding new_controller task_id register register_task new_rate_runner lookup
    govnilo.TaskRunner.new_task_runner govnilo.Prelude.insert
started_ok = refl

new_controller_handles_example :
    (started.checkers ≡ map entry_of shop_ids)
    × IsRegistered {fl = numbers} {lib = limits} 1 started
new_controller_handles_example =
    new_controller_handles {fl = numbers} {lib = limits} 1 [] shop_ids started started_ok

rounds_in_force_example :
    let s' = normalize_points numbers limits good in
    let c' =
      rounds {E = ℕ} started
        ((inl 1 ∷ inr none ∷ []) ++ inr (some good) ∷ map (λ e. inl e) (2 ∷ 3 ∷ [])) in
    (c'.checkers ≡ started.checkers)
    × (c'.current_settings ≡ some s')
    × All (λ x. HasOptions c'.rr (x.1) (options_for s' (x.0))) c'.checkers
rounds_in_force_example =
    rounds_in_force {E = ℕ} 1 started (inl 1 ∷ inr none ∷ []) good (2 ∷ 3 ∷ [])
      (new_controller-IsRegistered {fl = numbers} {lib = limits} 1 [] shop_ids started started_ok)
      good_passes

abbrev left : CheckerId
left = record { service = "a"; name = "b__c" }

abbrev right : CheckerId
right = record { service = "a__b"; name = "c" }

one_id : task_id left ≡ task_id right
unfolding task_id
one_id = refl

new_controller_collision_example :
    new_controller numbers limits 1 [] (left ∷ right ∷ [])
    ≡ err (already_registered (task_id right))
new_controller_collision_example =
    new_controller_collision {fl = numbers} {lib = limits} 1 left right (ne_of_beq left right refl)
      one_id

abbrev put_task : TaskSpec numbers limits
put_task = new_spec numbers limits 1 "shop__put__check"

put_stored : lookup put_task.id started.rr.tasks ≡ some put_task
unfolding new_controller task_id register register_task new_rate_runner lookup
    govnilo.TaskRunner.new_task_runner govnilo.Prelude.insert new_spec
put_stored = refl

-- A run of the checker is observed, the settings arrive, and the loop has set one of the two tasks.
abbrev observed : Controller numbers limits
observed = record started {
  rr = record (started.rr) {
    tasks = insert put_task.id (run_round {E = ℕ} put_task (task_done 9 3)).0 started.rr.tasks;
  };
}

abbrev scaled : Settings ℕ
scaled = normalize_points numbers limits good

abbrev put_id : CheckerId
put_id = record { service = "shop"; name = "put" }

abbrev halfway : Controller numbers limits
halfway = set_next (store observed (some good)) scaled put_id (some "shop__put__check")

abbrev one_left : Phase ℕ
one_left =
    syncing scaled ((record { service = "shop"; name = "old" }, some "shop__old__check") ∷ [])

halfway_reached : Reach numbers limits first_or_zero 1 clock files halfway one_left
unfolding new_controller task_id register register_task new_rate_runner lookup
    govnilo.TaskRunner.new_task_runner govnilo.Prelude.insert
halfway_reached =
    steps
      (steps
        (steps (starts [] shop_ids started started_ok)
          (proceeds started idle _ (observes started.rr put_task (task_done 9 3) put_stored)))
        (stores observed (some good)
          (subst (IsProvided clock files) file_passes (by_file "settings.yaml"))))
      (sets (store observed (some good)) scaled put_id (some "shop__put__check") _)

Reach_in_force_example :
    ((s : Settings ℕ) → halfway.current_settings ≡ some s → IsApplied halfway one_left s)
    × ((name : String) (t : TaskSpec numbers limits)
        → lookup name halfway.rr.tasks ≡ some t
        → Runs halfway.rr.tr name t.current_instances)
Reach_in_force_example = Reach_in_force halfway one_left halfway_reached
