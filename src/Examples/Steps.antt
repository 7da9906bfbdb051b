-- ===== src/Examples/Steps.antt =====
-- A rate runner from its start on: a task is registered, gets a rate, and is adjusted.
use govnilo.Prelude.{
  [], ℕ, ◌≤◌, ◌<◌, ◌^◌, ◌≡◌, refl, pos, true, some, lookup, insert, string_eq, arith,
}
use govnilo.TaskRunner.{Waits, stop_returns, update_task_instances, register_task, new_task_runner}
use govnilo.RateRunner.{
  RateRunner, TaskSpec, RunOptions, register, new_rate_runner, new_spec, set_options, adjust,
  adjust_task, record_instances, needed_instances, limit_instances,
}
use govnilo.RateRunner.Percentile.{get_stat}
use govnilo.RateRunner.Adjust.{Runs, limit_instances_bounds}
use govnilo.RateRunner.Steps.{Prompt, Reach, registers, sets, proceeds, adjusts, starts, steps}
use govnilo.RateRunner.Counts.{Reach_counts}
use govnilo.RateRunner.Bounds.{adjust_bounds}
use govnilo.Examples.Setting.{numbers, limits, first_or_zero}

abbrev all_ready : Waits
all_ready = record { ready = λ p. true; delivers = λ p. true }

prompt : Prompt all_ready
unfolding stop_returns
prompt p = refl

abbrev registered : RateRunner numbers limits
registered = (register numbers limits 1 (new_rate_runner numbers limits) (some "ping")).0

abbrev ping : TaskSpec numbers limits
ping = new_spec numbers limits 1 "ping"

registered_stored : lookup ping.id registered.tasks ≡ some ping
unfolding register new_rate_runner register_task new_task_runner new_spec lookup insert
registered_stored = refl

abbrev at_ten : RunOptions
at_ten = record { rate = record { times = 10; per = pos 1 }; max_goroutines = pos 4 }

abbrev set_ping : TaskSpec numbers limits
set_ping = (set_options numbers limits ping at_ten).0

abbrev set_runner : RateRunner numbers limits
set_runner = record registered { tasks = insert ping.id set_ping registered.tasks }

set_stored : lookup set_ping.id set_runner.tasks ≡ some set_ping
unfolding register new_rate_runner register_task new_task_runner new_spec lookup insert set_options
set_stored = refl

abbrev adjusted : RateRunner numbers limits
adjusted = (adjust numbers limits first_or_zero all_ready 7 set_runner set_ping).0

few :
    limit_instances
      (needed_instances numbers limits first_or_zero set_ping 7).1
      set_ping.run_options.max_goroutines
    < 2 ^ 63
unfolding set_options
few = omega (
  arith,
  (limit_instances_bounds (needed_instances numbers limits first_or_zero set_ping 7).1 (pos 4)).1
      refl,
)

reached : Reach numbers limits first_or_zero 1 ℕ adjusted
reached =
    steps
      (steps (steps starts (registers (new_rate_runner numbers limits) (some "ping")))
        (sets registered ping at_ten registered_stored))
      (proceeds (adjusts set_runner set_ping all_ready 7 set_stored prompt few))

abbrev adjusted_ping : TaskSpec numbers limits
adjusted_ping = record set_ping { current_instances = 4 }

adjusted_stored : lookup "ping" adjusted.tasks ≡ some adjusted_ping
unfolding register new_rate_runner register_task new_task_runner new_spec lookup insert set_options
    adjust adjust_task record_instances limit_instances needed_instances get_stat
    update_task_instances
adjusted_stored = refl

Reach_counts_example : (adjusted_ping.id ≡ "ping") × Runs adjusted.tr "ping" 4
Reach_counts_example = Reach_counts adjusted "ping" adjusted_ping reached adjusted_stored

set_runs : Runs set_runner.tr set_ping.id 0
unfolding set_options new_spec register new_rate_runner register_task new_task_runner lookup insert
set_runs = record { prepared = "ping"; known = refl; ids = []; held = refl; count = refl }

idle : set_ping.current_instances ≡ 0
unfolding set_options new_spec
idle = refl

limited : set_ping.run_options.max_goroutines ≡ pos 4
unfolding set_options
limited = refl

adjust_bounds_example : (k : ℕ) × (k ≤ 4) × Runs adjusted.tr set_ping.id k
adjust_bounds_example =
    adjust_bounds numbers limits first_or_zero all_ready 7 set_runner set_ping 0 4 set_runs idle
      limited (omega arith) (omega arith)
