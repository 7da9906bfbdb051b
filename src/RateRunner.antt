-- ===== src/RateRunner.antt =====
-- pkg/raterunner/raterunner.go: tasks that run at a given rate, each with as many goroutines as the
-- time that it takes asks for. A `taskSpec` is found by its id; the closure that is handed to the
-- task runner is named by the same id.
pub mod Avg
pub mod Percentile
pub mod Adjust
pub mod Register
pub mod Steps
pub mod Counted
pub mod Counts
pub mod Options
pub mod Instance
pub mod Bounds
use Prim.Native.String.{◌++◌ as string_append}
use govnilo.Prelude.{
  ℕ, zero, suc, ℤ, pos, ◌+◌, ◌*◌, ◌/◌, ◌%◌, ◌^◌, ◌==◌, nat_eq, int_eq, string_eq, int_of_u64,
  u64_of_int, is_pos, Bool, true, false, ltb, ◌&&◌, if◌then◌else◌, List, [], ◌∷◌, Option, none,
  some, String, lookup, insert, erase, Outcome, ok, err, panic,
}
use govnilo.Floats.{Floats}
use govnilo.RateLimit.{RateLibrary, Limiter, set_spec}
use govnilo.RateLimit
use govnilo.TaskRunner.{TaskRunner, Waits, register_task, update_task_instances, new_task_runner}
use govnilo.TaskRunner
use Percentile.{get_stat}

pub record Rate : Type 0 where
  pub times : ℕ
  pub per : ℤ

pub record RunOptions : Type 0 where
  pub rate : Rate
  pub max_goroutines : ℤ  -- int

-- `time.Second` and `time.Minute`, in nanoseconds.
abbrev pub second : ℕ
second = 1_000_000_000

abbrev pub zero_rate : Rate
zero_rate = record { times = 0; per = pos second }

pub record TaskSpec (fl : Floats) (lib : RateLibrary fl) : Type 0 where
  pub id : String
  pub stat : Percentile.Percentile fl.F
  pub run_options : RunOptions
  pub current_instances : ℕ  -- uint64
  pub rate_limitter : Limiter lib.Limiter

pub record RateRunner (fl : Floats) (lib : RateLibrary fl) : Type 0 where
  pub tr : TaskRunner String
  pub tasks : List (String × TaskSpec fl lib)
  pub id_counter : ℕ  -- uint64

pub data Error : Type 0 where
  zero_per : Error
  already_registered : String → Error
  not_registered : TaskRunner.Error → Error

module _ (fl : Floats) (lib : RateLibrary fl) where
  open fl use {of_ℕ, of_ℤ, to_ℕ, to_ℤ, mul, div}

  -- `TaskHandle.SetOptions`. `SetSpec` never fails.
  unfoldable pub set_options :
      TaskSpec fl lib → RunOptions → TaskSpec fl lib × Outcome Error (Unit {0})
  set_options t options = if options.rate.per == pos 0 then (t, err zero_per) else (
    record t {
      rate_limitter =
          set_spec fl lib t.rate_limitter
            (record { times = options.rate.times; per = options.rate.per });
      run_options = options;
    },
    ok tt,
  )

  -- The running time that `neededInstances` goes by: the statistic, or a second.
  abbrev stat_or_second : Outcome Percentile.Error fl.F → fl.F
  stat_or_second (ok stat) = stat
  stat_or_second (err _) = of_ℕ second
  stat_or_second panic = of_ℕ second

  -- 1.2 is the quotient of 6 and 5, rounded.
  abbrev instances_for : Rate → fl.F → ℕ
  instances_for rate stat =
      let duration = to_ℤ stat in
      let instances = to_ℕ (div (mul (of_ℕ rate.times) (of_ℤ duration)) (of_ℤ rate.per)) in
      (to_ℕ (mul (of_ℕ instances) (div (of_ℕ 6) (of_ℕ 5))) + 1) % 2 ^ 64

  unfoldable pub needed_instances :
      (fl.F → List fl.F → fl.F) → TaskSpec fl lib → ℕ → TaskSpec fl lib × ℕ
  needed_instances quantile t now =
      let (stat', stat) = get_stat fl quantile t.stat now in
      (record t { stat = stat' }, instances_for t.run_options.rate (stat_or_second stat))

-- The limit that the loop of `Run` puts on the number.
unfoldable pub limit_instances : ℕ → ℤ → ℕ
limit_instances needed max_goroutines =
    if is_pos max_goroutines && ltb (u64_of_int max_goroutines) needed
    then u64_of_int max_goroutines
    else needed

module _ {fl : Floats} {lib : RateLibrary fl} where
  -- What the outcome of `UpdateTaskInstances` leads to: the count is kept only on success.
  unfoldable pub record_instances :
      RateRunner fl lib
      → TaskSpec fl lib
      → ℕ
      → TaskRunner String × Outcome TaskRunner.Error (Unit {0})
      → RateRunner fl lib × Outcome Error (Unit {0})
  record_instances r t needed (tr, ok _) = (
    record r { tr = tr; tasks = insert t.id (record t { current_instances = needed }) r.tasks },
    ok tt,
  )
  record_instances r t needed (tr, err e) = (record r { tr = tr }, err (not_registered e))
  record_instances r t needed (tr, panic) = (record r { tr = tr }, panic)

  -- The last part of the loop's body, under the mutex of the task.
  unfoldable pub adjust_task :
      Waits → RateRunner fl lib → TaskSpec fl lib → ℕ → RateRunner fl lib × Outcome Error (Unit {0})
  unfolding record_instances
  adjust_task w r t needed =
      if needed == t.current_instances
      then (r, ok tt)
      else record_instances r t needed (update_task_instances w r.tr t.id (int_of_u64 needed))

module _ (fl : Floats) (lib : RateLibrary fl) (quantile : fl.F → List fl.F → fl.F) where
  -- The body of the loop for one task.
  unfoldable pub adjust :
      Waits → ℕ → RateRunner fl lib → TaskSpec fl lib → RateRunner fl lib × Outcome Error (Unit {0})
  unfolding needed_instances
  adjust w now r t =
      let (t', needed) = needed_instances fl lib quantile t now in
      adjust_task w (record r { tasks = insert t.id t' r.tasks }) t'
        (limit_instances needed t.run_options.max_goroutines)

  -- An error is logged and the loop goes on; a panic ends it.
  go_on :
      RateRunner fl lib × Outcome Error (Unit {0})
      → (RateRunner fl lib → RateRunner fl lib)
      → RateRunner fl lib
  go_on (r, ok _) rest = rest r
  go_on (r, err _) rest = rest r
  go_on (r, panic) rest = r

  -- A round of the loop, over the ids that it copied.
  pub adjust_all : Waits → ℕ → RateRunner fl lib → List String → RateRunner fl lib
  unfolding go_on
  adjust_all w now r [] = r
  adjust_all w now r (id ∷ ids) = elim (lookup id r.tasks) [
    | none ↦ adjust_all w now r ids
    | some t ↦ go_on (adjust w now r t) (λ r'. adjust_all w now r' ids)
  ]

-- `%d` of a number, with as much fuel as it has digits.
digit : ℕ → String
digit zero = "0"
digit (suc zero) = "1"
digit (suc (suc zero)) = "2"
digit (suc (suc (suc zero))) = "3"
digit (suc (suc (suc (suc zero)))) = "4"
digit (suc (suc (suc (suc (suc zero))))) = "5"
digit (suc (suc (suc (suc (suc (suc zero)))))) = "6"
digit (suc (suc (suc (suc (suc (suc (suc zero))))))) = "7"
digit (suc (suc (suc (suc (suc (suc (suc (suc zero)))))))) = "8"
digit _ = "9"

decimal_from : ℕ → ℕ → String
unfolding digit
decimal_from zero n = ""
decimal_from (suc fuel) n =
    let front = decimal_from fuel (n / 10) in
    if ltb n 10 then digit n else string_append front (digit (n % 10))

-- 20 digits are enough for a `uint64`.
pub auto_id : ℕ → String
unfolding decimal_from
auto_id n = string_append "task-" (decimal_from 20 n)

-- From the choice of the id on: the counter is taken up only for an id of its own.
unfoldable pub chosen_id : Option String → ℕ → String × ℕ
chosen_id (some id) counter = (id, counter)
chosen_id none counter = let next = (counter + 1) % 2 ^ 64 in (auto_id next, next)

module _ (fl : Floats) (lib : RateLibrary fl) (ninety_five_percent : fl.F) where
  -- What `NewPercentile(0.95, time.Minute)` returns; 0.95 is the parameter.
  unfoldable pub new_spec : String → TaskSpec fl lib
  new_spec id = record {
    id = id;
    stat = record { observations = []; window = 60 * second; p = ninety_five_percent };
    run_options = record { rate = zero_rate; max_goroutines = pos 0 };
    current_instances = 0;
    rate_limitter = RateLimit.new fl lib (record { times = zero_rate.times; per = zero_rate.per });
  }

  -- What the answer of the task runner leads to: on an error the task is taken out again.
  finish_register :
      RateRunner fl lib
      → TaskSpec fl lib
      → TaskRunner String × Outcome TaskRunner.Error (Unit {0})
      → RateRunner fl lib × Outcome Error (TaskSpec fl lib)
  finish_register r t (tr, ok _) = (record r { tr = tr }, ok t)
  finish_register r t (tr, err e) =
      (record r { tr = tr; tasks = erase t.id r.tasks }, err (not_registered e))
  finish_register r t (tr, panic) = (record r { tr = tr }, panic)

  unfoldable pub register :
      RateRunner fl lib → Option String → RateRunner fl lib × Outcome Error (TaskSpec fl lib)
  unfolding new_spec chosen_id finish_register
  register r with_id =
      let (id, counter) = chosen_id with_id r.id_counter in
      let r' = record r { id_counter = counter } in
      elim (lookup id r.tasks) [
        | some _ ↦ (r', err (already_registered id))
        | none ↦
            finish_register (record r' { tasks = insert id (new_spec id) r.tasks }) (new_spec id)
              (register_task r.tr id id)
      ]

unfoldable pub new_rate_runner : (fl : Floats) (lib : RateLibrary fl) → RateRunner fl lib
new_rate_runner fl lib = record { tr = new_task_runner String; tasks = []; id_counter = 0 }

-- What one round of the goroutine of `prepareTask` makes of the spec: `Acquire` fails, and so does
-- the goroutine; else the task runs, and if it succeeds the time that it took is observed.
pub data Round (E : Type 0) : Type 0 where
  not_acquired task_failed : E → Round E
  task_done : ℕ → ℕ → Round E  -- the time at its end, and how long it took

module _ {fl : Floats} {lib : RateLibrary fl} {E : Type 0} where
  unfoldable pub run_round : TaskSpec fl lib → Round E → TaskSpec fl lib × Option E
  run_round t (not_acquired e) = (t, some e)
  run_round t (task_failed e) = (t, none)
  run_round t (task_done now took) =
      (record t { stat = Percentile.append fl t.stat now took }, none)
