-- ===== src/Examples/Tasks.antt =====
-- A task runner with one task of three instances, of which the last does not stop in time.
use govnilo.Prelude.{
  ℕ, pos, ◌==◌, ◌≡◌, refl, nat_eq, string_eq, true, false, ltb, if◌then◌else◌, List, [], ◌∷◌, some,
  String, lookup, ok, err, arith,
}
use govnilo.TaskRunner.{
  TaskRunner, Waits, cannot_stop, cannot_stop_all, update_task_instances, stop, new_task_runner,
}
use govnilo.TaskRunner.Loops.{elem, failures}
use govnilo.TaskRunner.Resize.{update_task_instances-shrink}
use govnilo.TaskRunner.Shutdown.{all_ids, stop_all}
use govnilo.TaskRunner.Ownership.{
  IsTracked, Call, registers, updates, stops, run, run_new-IsTracked,
}

abbrev pub three : TaskRunner String
three = record {
  tasks = ("ping", "ping") ∷ [];
  states = ("ping", 0 ∷ 1 ∷ 2 ∷ []) ∷ [];
  heap = λ _. record { stopped = false; cancelled = false };
  next = 3;
}

abbrev pub last_hangs : Waits
last_hangs = record { ready = λ p. ltb p 1; delivers = λ p. ltb p 2 }

pub ping_known : lookup "ping" three.tasks ≡ some "ping"
unfolding lookup
ping_known = refl

pub ping_held : lookup "ping" three.states ≡ some (0 ∷ 1 ∷ 2 ∷ [])
unfolding lookup
ping_held = refl

update_task_instances-shrink_example :
    let (r', outcome) = update_task_instances last_hangs three "ping" (pos 1) in
    (lookup "ping" r'.states ≡ some (0 ∷ []))
    × (outcome ≡ (
        let e = failures last_hangs (1 ∷ 2 ∷ []) in
        if e == 0 then ok tt else err (cannot_stop e 2 "ping")))
    × ((q : ℕ)
        → r'.heap q ≡ (
            if elem q (1 ∷ 2 ∷ [])
            then record { stopped = true; cancelled = true }
            else record { stopped = false; cancelled = false }))
    × (r'.next ≡ 3)
update_task_instances-shrink_example =
    update_task_instances-shrink last_hangs three "ping" ping_known ping_held 1 (omega arith)

stop_all_example :
    let (r', outcome) = stop last_hangs three in
    let e = failures last_hangs (all_ids three.states) in
    (outcome ≡ (if e == 0 then ok tt else err (cannot_stop_all e)))
    × ((q : ℕ)
        → r'.heap q ≡ (
            if elem q (all_ids three.states)
            then record { stopped = true; cancelled = true }
            else three.heap q))
stop_all_example = stop_all last_hangs three

two_fail : failures last_hangs (1 ∷ 2 ∷ []) ≡ 1
unfolding failures
two_fail = refl

abbrev calls : List (Call String)
calls =
    registers "ping" "ping"
    ∷ updates last_hangs "ping" 3
    ∷ updates last_hangs "ping" 1
    ∷ stops last_hangs
    ∷ []

run_new-IsTracked_example : IsTracked (run (new_task_runner String) calls)
run_new-IsTracked_example = run_new-IsTracked calls
