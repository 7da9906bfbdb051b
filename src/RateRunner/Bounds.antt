-- ===== src/RateRunner/Bounds.antt =====
-- How many instances a task can have.
use govnilo.Prelude.{
  ℕ, pos, ◌^◌, ◌≤◌, ◌<◌, ◌≡◌, nat_eq, string_eq, List, insert, lookup-insert_self, arith,
}
use govnilo.Floats.{Floats}
use govnilo.RateLimit.{RateLibrary}
use govnilo.TaskRunner.{Waits}
use govnilo.RateRunner.{RateRunner, TaskSpec, limit_instances, needed_instances, adjust}
use govnilo.RateRunner.Adjust.{Runs, adjust_task_follows}

limit_instances-capped :
    (needed max : ℕ) → 0 < max → max < 2 ^ 63 → limit_instances needed (pos max) ≤ max
unfolding limit_instances
limit_instances-capped needed max some_limit small = ground arith

module _ (fl : Floats) (lib : RateLibrary fl) (quantile : fl.F → List fl.F → fl.F) where
  -- Whatever the running times were and however many instances the rate asks for, a round of the
  -- loop leaves a task that has a limit, below 2^63, with no more instances than that, also where
  -- stopping some of them failed; the task's count was right before.
  pub adjust_bounds :
      (w : Waits) (now : ℕ) (r : RateRunner fl lib) (t : TaskSpec fl lib) (n max : ℕ)
      → Runs r.tr t.id n
      → t.current_instances ≡ n
      → t.run_options.max_goroutines ≡ pos max
      → 0 < max
      → max < 2 ^ 63
      → let (r', _) = adjust fl lib quantile w now r t in (k : ℕ) × (k ≤ max) × Runs r'.tr t.id k
  unfolding adjust needed_instances
  adjust_bounds w now r t n max runs count limited some_limit small =
      let (t', needed) = needed_instances fl lib quantile t now in
      let k = limit_instances needed t.run_options.max_goroutines in
      let bound : k ≤ max = rw limited (limit_instances-capped needed max some_limit small) in
      let r' : RateRunner fl lib = record r { tasks = insert t.id t' r.tasks } in
      let (now_runs, _) =
        adjust_task_follows w r' t' runs k (omega (arith, bound)) count
          (lookup-insert_self t.id t' r.tasks) in
      (k, bound, now_runs)
