-- ===== src/RateRunner/Steps.antt =====
-- Any interleaving of what happens to the rate runner: registrations, options that handles set, runs
-- whose time is observed, and the tasks that the loop of `Run` adjusts, one at a time.
use govnilo.Prelude.{
  ℕ, ◌^◌, ◌<◌, ◌≡◌, nat_eq, string_eq, true, List, Option, some, String, lookup, insert,
}
use govnilo.Floats.{Floats}
use govnilo.RateLimit.{RateLibrary}
use govnilo.TaskRunner.{Waits, stop_returns}
use govnilo.RateRunner.{
  RateRunner, TaskSpec, RunOptions, Round, set_options, needed_instances, limit_instances, adjust,
  run_round, register, new_rate_runner,
}

-- Every instance that is stopped ends in time.
abbrev pub Prompt : Waits → Type 0
Prompt w = (p : ℕ) → stop_returns w p ≡ true

module _ (fl : Floats) (lib : RateLibrary fl) (quantile : fl.F → List fl.F → fl.F) (p : fl.F)
    (E : Type 0) where
  -- What goes on without a caller: a run of a task is observed, the loop of `Run` adjusts a task.
  pub data Background : RateRunner fl lib → RateRunner fl lib → Type 0 where
    observes :
        (r : RateRunner fl lib) (t : TaskSpec fl lib) (x : Round E)
        → lookup t.id r.tasks ≡ some t
        → Background r (record r { tasks = insert t.id (run_round t x).0 r.tasks })
    adjusts :
        (r : RateRunner fl lib) (t : TaskSpec fl lib) (w : Waits) (now : ℕ)
        → lookup t.id r.tasks ≡ some t
        → Prompt w
        → limit_instances (needed_instances fl lib quantile t now).1 t.run_options.max_goroutines
          < 2 ^ 63
        → Background r (adjust fl lib quantile w now r t).0

  pub data Step : RateRunner fl lib → RateRunner fl lib → Type 0 where
    registers :
        (r : RateRunner fl lib) (with_id : Option String) → Step r (register fl lib p r with_id).0
    sets :
        (r : RateRunner fl lib) (t : TaskSpec fl lib) (o : RunOptions)
        → lookup t.id r.tasks ≡ some t
        → Step r (record r { tasks = insert t.id (set_options fl lib t o).0 r.tasks })
    proceeds : {r r' : RateRunner fl lib} → Background r r' → Step r r'

  pub data Reach : RateRunner fl lib → Type 0 where
    starts : Reach (new_rate_runner fl lib)
    steps : {r r' : RateRunner fl lib} → Reach r → Step r r' → Reach r'
