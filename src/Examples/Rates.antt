-- ===== src/Examples/Rates.antt =====
-- A rate runner with one task, three instances of which run.
use govnilo.Prelude.{
  ℕ, none, ltb, leb, if◌then◌else◌, ◌+◌, pos, ◌≡◌, refl, ◌≢◌, string_eq, [], ◌∷◌, drop, some,
  lookup, ok, arith,
}
use govnilo.RateLimit
use govnilo.RateRunner.{
  RateRunner, TaskSpec, RunOptions, adjust_task, zero_rate, not_acquired, task_done, run_round,
}
use govnilo.TaskRunner.Loops.{failures}
use govnilo.RateRunner.Adjust.{Runs, stale_count}
use govnilo.RateRunner.Register.{IsInSync}
use govnilo.RateRunner.Instance.{World, waiting, sent, run_instance, IsSent, run_instance_ends}
use govnilo.Examples.Setting.{numbers, limits}
use govnilo.Examples.Tasks.{three, last_hangs, ping_known, ping_held}

abbrev pub ping : TaskSpec numbers limits
ping = record {
  id = "ping";
  stat = record { observations = []; window = 60; p = 1 };
  run_options = record { rate = zero_rate; max_goroutines = pos 0 };
  current_instances = 3;
  rate_limitter =
      RateLimit.new numbers limits (record { times = zero_rate.times; per = zero_rate.per });
}

abbrev pub runner : RateRunner numbers limits
runner = record { tr = three; tasks = ("ping", ping) ∷ []; id_counter = 0 }

runner_stored : lookup "ping" runner.tasks ≡ some ping
unfolding lookup
runner_stored = refl

ping_runs : Runs three "ping" 3
ping_runs = record {
  prepared = "ping";
  known = ping_known;
  ids = 0 ∷ 1 ∷ 2 ∷ [];
  held = ping_held;
  count = refl;
}

last_fails : failures last_hangs (drop 1 ping_runs.ids) ≢ 0
unfolding failures ping_runs
last_fails = ground arith

stale_count_example :
    let r' = (adjust_task last_hangs runner ping 1).0 in
    Runs r'.tr "ping" 1
    × (lookup "ping" r'.tasks ≡ some ping)
    × (adjust_task last_hangs r' ping 3 ≡ (r', ok tt))
stale_count_example =
    stale_count last_hangs runner ping ping_runs last_hangs 1 (omega arith) (omega arith) refl
      runner_stored last_fails

abbrev at_ten : RunOptions
at_ten = record { rate = record { times = 10; per = pos 1 }; max_goroutines = pos 4 }

ping-IsInSync : IsInSync ping
unfolding RateLimit.new
ping-IsInSync = record { times = refl; per = refl; built = refl }

-- It is stopped while its fourth round goes on.
abbrev world : World ℕ
world = record {
  waited = λ i. none;
  rounds = λ i. if ltb 4 i then not_acquired 9 else task_done (100 + i) 5;
  stopped = λ i. leb 4 i;
}

run_instance_ends_example :
    let r = run_instance world 6 0 (waiting, ping) in
    ¬ IsSent (run_instance world 4 0 (waiting, ping)).0
    × IsSent (r.0)
    × (r.1 ≡ (run_instance world 5 0 (waiting, ping)).1)
run_instance_ends_example =
    run_instance_ends world 4 0 ping (λ i l. ground arith) (λ i l. ground arith)
      (λ i l. (9, ground arith))

-- The error is that of the last `Acquire`.
run_instance_test : (run_instance world 6 0 (waiting, ping)).0 ≡ sent 9
unfolding run_instance run_round
run_instance_test = refl
