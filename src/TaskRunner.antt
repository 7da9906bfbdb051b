-- ===== src/TaskRunner.antt =====
-- internal/taskrunner/task.go: tasks by name, each with the instances of it that are running.
-- A pointer to a `taskInstance` is a number, and `heap` holds what it points to. The mutexes make
-- each method atomic; what other goroutines decide while a method waits comes in as `Waits`.
pub mod Loops
pub mod Resize
pub mod Ownership
pub mod Shutdown
pub mod Supervise
use govnilo.Prelude.{
  ℕ, zero, suc, ℤ, pos, negsuc, ◌+◌, ◌-◌, ◌==◌, nat_eq, string_eq, Bool, true, false, ltb,
  if◌then◌else◌, List, [], ◌∷◌, ◌++◌, length, split_last, Option, none, some, String, lookup,
  insert, Outcome, ok, err,
}

-- `stopped`, and whether the context was cancelled with the cause `ErrTaskCancelled`.
pub record Instance : Type 0 where
  pub stopped : Bool
  pub cancelled : Bool

pub record TaskRunner (T : Type 0) : Type 0 where
  pub tasks : List (String × T)  -- taskIDToTask
  pub states : List (String × List ℕ)  -- taskIDToState
  pub heap : ℕ → Instance
  pub next : ℕ  -- the pointer that the next `&taskInstance{}` returns

-- What a call of `stop` finds: a result already in `errChan` at the first `select`; and which case
-- the second one takes, the result (true) or the end of the context (false).
pub record Waits : Type 0 where
  pub ready : ℕ → Bool
  pub delivers : ℕ → Bool

pub data Error : Type 0 where
  already_exists not_found : String → Error
  cannot_stop : ℕ → ℕ → String → Error  -- "cannot stop %d/%d task instances of %s"
  cannot_stop_all : ℕ → Error  -- how many errors `Stop` collected

unfoldable pub new_task_runner : (T : Type 0) → TaskRunner T
new_task_runner T = record {
  tasks = [];
  states = [];
  heap = λ _. record { stopped = false; cancelled = false };
  next = 0;
}

abbrev pub update : (ℕ → Instance) → ℕ → Instance → ℕ → Instance
update heap p i q = if p == q then i else heap q

-- `stop` raises the flag and cancels before it waits.
pub stop_flags : (ℕ → Instance) → ℕ → ℕ → Instance
stop_flags heap p = update heap p (record { stopped = true; cancelled = true })

-- Whether `stop` returns nil.
unfoldable pub stop_returns : Waits → ℕ → Bool
stop_returns w p = if w.ready p then true else w.delivers p

-- `multierror.Append` when `stop` fails.
pub count_error : Waits → ℕ → ℕ → ℕ
count_error w p errors = if stop_returns w p then errors else errors + 1

unfoldable pub register_task :
    {T : Type 0} → TaskRunner T → String → T → TaskRunner T × Outcome Error (Unit {0})
register_task r name task = elim (lookup name r.tasks) [
  | some _ ↦ (r, err (already_exists name))
  | none ↦ (record r { tasks = insert name task r.tasks; states = insert name [] r.states }, ok tt)
]

-- The pointers that `n` allocations return.
unfoldable pub fresh : ℕ → ℕ → List ℕ
fresh next zero = []
fresh next (suc n) = next ∷ fresh (suc next) n

-- The loop that starts instances: each is allocated with its flags down, and appended.
pub start_loop : ℕ → (ℕ → Instance) → ℕ → List ℕ → List ℕ × (ℕ → Instance) × ℕ
start_loop zero heap next instances = (instances, heap, next)
start_loop (suc n) heap next instances =
    start_loop n (update heap next (record { stopped = false; cancelled = false })) (suc next)
      (instances ++ next ∷ [])

-- The loop that stops the last instance `n` times; `none` for the count of errors is the panic of
-- an index out of range.
pub stop_loop : Waits → ℕ → List ℕ → (ℕ → Instance) → ℕ → List ℕ × (ℕ → Instance) × Option ℕ
stop_loop w zero instances heap errors = (instances, heap, some errors)
stop_loop w (suc n) instances heap errors = elim (split_last instances) [
  | none ↦ (instances, heap, none)
  | some (rest, p) ↦ stop_loop w n rest (stop_flags heap p) (count_error w p errors)
]

pub stop_outcome : String → ℕ → Option ℕ → Outcome Error (Unit {0})
stop_outcome name to_stop none = Outcome.panic
stop_outcome name to_stop (some zero) = ok tt
stop_outcome name to_stop (some (suc e)) = err (cannot_stop (suc e) to_stop name)

-- The loop of `Stop` over the instances of one task, and the one over the tasks: nothing is removed.
pub stop_each : Waits → List ℕ → (ℕ → Instance) → ℕ → (ℕ → Instance) × ℕ
unfolding stop_flags count_error
stop_each w [] heap errors = (heap, errors)
stop_each w (p ∷ ps) heap errors = stop_each w ps (stop_flags heap p) (count_error w p errors)

pub stop_tasks : Waits → List (String × List ℕ) → (ℕ → Instance) → ℕ → (ℕ → Instance) × ℕ
unfolding stop_each
stop_tasks w [] heap errors = (heap, errors)
stop_tasks w ((name, ps) ∷ states) heap errors =
    let (heap', errors') = stop_each w ps heap errors in stop_tasks w states heap' errors'

stop_all_outcome : ℕ → Outcome Error (Unit {0})
stop_all_outcome zero = ok tt
stop_all_outcome (suc e) = err (cannot_stop_all (suc e))

module _ {T : Type 0} where
  start_instances : TaskRunner T → String → List ℕ → ℕ → TaskRunner T × Outcome Error (Unit {0})
  unfolding start_loop
  start_instances r name instances to_add =
      let (instances', heap', next') = start_loop to_add r.heap r.next instances in
      (record r { states = insert name instances' r.states; heap = heap'; next = next' }, ok tt)

  stop_instances :
      Waits → TaskRunner T → String → List ℕ → ℕ → TaskRunner T × Outcome Error (Unit {0})
  unfolding stop_loop stop_flags count_error
  stop_instances w r name instances to_stop =
      let (instances', heap', errors) = stop_loop w to_stop instances r.heap 0 in
      (
        record r { states = insert name instances' r.states; heap = heap' },
        stop_outcome name to_stop errors,
      )

  -- From the comparison of `len(state.instances)` with `instances` on.
  resize : Waits → TaskRunner T → String → List ℕ → ℤ → TaskRunner T × Outcome Error (Unit {0})
  unfolding start_instances stop_instances stop_outcome
  resize w r name instances (pos n) =
      if length instances == n
      then (r, ok tt)
      else if ltb (length instances) n
      then start_instances r name instances (n - length instances)
      else stop_instances w r name instances (length instances - n)
  resize w r name instances (negsuc n) =
      stop_instances w r name instances (length instances + n + 1)

  unfoldable pub update_task_instances :
      Waits → TaskRunner T → String → ℤ → TaskRunner T × Outcome Error (Unit {0})
  unfolding resize
  update_task_instances w r name target = elim (lookup name r.tasks) [
    | none ↦ (r, err (not_found name))
    | some _ ↦ elim (lookup name r.states) [
      | none ↦ (r, err (not_found name))
      | some instances ↦ resize w r name instances target
    ]
  ]

  pub stop : Waits → TaskRunner T → TaskRunner T × Outcome Error (Unit {0})
  unfolding stop_tasks stop_all_outcome
  stop w r =
      let (heap', errors) = stop_tasks w r.states r.heap 0 in
      (record r { heap = heap' }, stop_all_outcome errors)

-- The goroutine of an instance, over `fuel` rounds from round `k` on: `runs k` is what the task
-- returns in round k, `stopped k` what the flag reads after it. The result is what it sends to
-- `errChan` before it ends, with the round; `none`, that it still runs.
pub supervise : {E : Type 0} → (ℕ → E) → (ℕ → Bool) → ℕ → ℕ → Option (ℕ × E)
supervise runs stopped zero k = none
supervise runs stopped (suc fuel) k = elim (stopped k) [
  | true ↦ some (k, runs k)
  | false ↦ supervise runs stopped fuel (suc k)
]
