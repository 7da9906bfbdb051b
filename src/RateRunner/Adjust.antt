-- ===== src/RateRunner/Adjust.antt =====
-- How the numbers of instances follow what the tasks need.
use native.Mathlib.Decide.{ℕ_discrete}
use govnilo.Prelude.{
  ℕ, ℤ, pos, ◌-◌, ◌^◌, ◌≤◌, ◌<◌, ◌≡◌, refl, sym, ap, ◌∙◌, ◌≢◌, nat_eq, string_eq, int_of_u64,
  u64_of_int, is_pos, true, false, if◌then◌else◌, List, length, drop, some, String, lookup,
  lookup-insert_self, Outcome, ok, err, panic, arith, beq_ne,
}
use govnilo.Floats.{Floats}
use govnilo.RateLimit.{RateLibrary}
use govnilo.TaskRunner.{TaskRunner, Waits, update_task_instances, cannot_stop}
use govnilo.TaskRunner
use govnilo.TaskRunner.Loops.{failures}
use govnilo.TaskRunner.Resize.{
  update_task_instances-shrink, update_task_instances_exact, update_task_instances_tasks,
}
use govnilo.RateRunner.{
  RateRunner, TaskSpec, Error, adjust_task, record_instances, limit_instances, not_registered,
}

-- The limit holds where there is one, and changes nothing below it.
pub limit_instances_bounds :
    (needed : ℕ) (max : ℤ)
    → (limit_instances needed max ≤ needed)
      × (is_pos max ≡ true → limit_instances needed max ≤ u64_of_int max)
      × (is_pos max ≡ false → limit_instances needed max ≡ needed)
unfolding limit_instances
limit_instances_bounds needed max = ground arith

-- The task runner knows a task and runs `n` instances of it.
pub record Runs (tr : TaskRunner String) (id : String) (n : ℕ) : Type 0 where
  pub prepared : String
  pub known : lookup id tr.tasks ≡ some prepared
  pub ids : List ℕ
  pub held : lookup id tr.states ≡ some ids
  pub count : length ids ≡ n

int_of_u64_small : (n : ℕ) → n < 2 ^ 63 → int_of_u64 n ≡ pos n
int_of_u64_small n h = ground arith

-- The spec of a task after an attempt: a new count only on success.
abbrev pub recorded :
    {fl : Floats} {lib : RateLibrary fl}
    → TaskSpec fl lib
    → ℕ
    → Outcome Error (Unit {0})
    → TaskSpec fl lib
recorded t needed (ok _) = record t { current_instances = needed }
recorded t needed (err _) = t
recorded t needed panic = t

module _ {fl : Floats} {lib : RateLibrary fl} (r : RateRunner fl lib) (t : TaskSpec fl lib)
    (needed : ℕ) where
  record_instances_tr :
      (x : TaskRunner String × Outcome TaskRunner.Error (Unit {0}))
      → (record_instances r t needed x).0.tr ≡ x.0
  unfolding record_instances
  record_instances_tr (tr, ok _) = refl
  record_instances_tr (tr, err e) = refl
  record_instances_tr (tr, panic) = refl

  record_instances_err :
      (x : TaskRunner String × Outcome TaskRunner.Error (Unit {0})) (e : TaskRunner.Error)
      → x.1 ≡ err e
      → (record_instances r t needed x).1 ≡ err (not_registered e)
  unfolding record_instances
  record_instances_err (tr, ok _) e h = cc h
  record_instances_err (tr, err e') e h = ground arith
  record_instances_err (tr, panic) e h = cc h

  record_instances_tasks :
      (x : TaskRunner String × Outcome TaskRunner.Error (Unit {0}))
      → lookup t.id r.tasks ≡ some t
      → let (r', outcome) = record_instances r t needed x in
        lookup t.id r'.tasks ≡ some (recorded t needed outcome)
  unfolding record_instances
  record_instances_tasks (tr, ok _) h =
      lookup-insert_self t.id (record t { current_instances = needed }) r.tasks
  record_instances_tasks (tr, err e) h = h
  record_instances_tasks (tr, panic) h = h

-- A count that is right already leaves everything as it is.
pub adjust_task-same :
    {fl : Floats} {lib : RateLibrary fl} (w : Waits) (r : RateRunner fl lib) (t : TaskSpec fl lib)
    (needed : ℕ)
    → needed ≡ t.current_instances
    → adjust_task w r t needed ≡ (r, ok tt)
unfolding adjust_task
adjust_task-same w r t needed e = rw ((nat_eq.beq_iff needed t.current_instances).1 e)

module _ {fl : Floats} {lib : RateLibrary fl} (w : Waits) (r : RateRunner fl lib)
    (t : TaskSpec fl lib) {n : ℕ} (runs : Runs r.tr t.id n) where
  pub adjust_task-record :
      (needed : ℕ)
      → needed < 2 ^ 63
      → needed ≢ t.current_instances
      → adjust_task w r t needed
        ≡ record_instances r t needed (update_task_instances w r.tr t.id (pos needed))
  unfolding adjust_task
  adjust_task-record needed h k =
      rw (beq_ne needed t.current_instances k, int_of_u64_small needed h)

  adjust_task_runs :
      (needed : ℕ)
      → needed < 2 ^ 63
      → needed ≢ t.current_instances
      → Runs (adjust_task w r t needed).0.tr t.id needed
  adjust_task_runs needed h k =
      let (ids', held', count') =
        update_task_instances_exact w r.tr t.id runs.known runs.held needed in
      rw
        (
          adjust_task-record needed h k,
          record_instances_tr r t needed (update_task_instances w r.tr t.id (pos needed)),
        )
        (record {
          prepared = runs.prepared;
          known =
              rw (update_task_instances_tasks w r.tr t.id runs.known runs.held (pos needed))
                runs.known;
          ids = ids';
          held = held';
          count = count';
        })

  -- For a task whose count is right: afterwards the runner runs as many instances as were needed,
  -- also where stopping some of them failed; and the count says so exactly if that did not fail.
  pub adjust_task_follows :
      (needed : ℕ)
      → needed < 2 ^ 63
      → t.current_instances ≡ n
      → lookup t.id r.tasks ≡ some t
      → let (r', outcome) = adjust_task w r t needed in
        Runs r'.tr t.id needed × (lookup t.id r'.tasks ≡ some (recorded t needed outcome))
  adjust_task_follows needed h count stored = elim (ℕ_discrete needed t.current_instances) [
    | yes same ↦ rw (adjust_task-same w r t needed same) (
      record {
        prepared = runs.prepared;
        known = runs.known;
        ids = runs.ids;
        held = runs.held;
        count = omega (arith, runs.count);
      },
      stored ∙ ap (λ k. some (record t { current_instances = k })) (sym same),
    )
    | no k ↦ (
      adjust_task_runs needed h k,
      rw (adjust_task-record needed h k) (
          record_instances_tasks r t needed (update_task_instances w r.tr t.id (pos needed))
            stored),
    )
  ]

  -- The count goes stale when stopping instances fails: the runner has given them up, the count
  -- stays, and when as many instances as before are needed again, the loop sees nothing to do.
  pub stale_count :
      (w' : Waits) (fewer : ℕ)
      → n < 2 ^ 63
      → fewer < n
      → t.current_instances ≡ n
      → lookup t.id r.tasks ≡ some t
      → failures w (drop fewer runs.ids) ≢ 0
      → let r' = (adjust_task w r t fewer).0 in
        Runs r'.tr t.id fewer
        × (lookup t.id r'.tasks ≡ some t)
        × (adjust_task w' r' t n ≡ (r', ok tt))
  stale_count w' fewer h few count stored failed =
      let (_, outcome, _, _) =
        update_task_instances-shrink w r.tr t.id runs.known runs.held fewer
          (omega (arith, runs.count)) in
      let u = update_task_instances w r.tr t.id (pos fewer) in
      let e = failures w (drop fewer runs.ids) in
      let x = cannot_stop e (length runs.ids - fewer) t.id in
      let fails : u.1 ≡ err x =
        outcome ∙ ap (λ b. if b then ok tt else err x) (beq_ne e 0 failed) in
      let reported : (adjust_task w r t fewer).1 ≡ err (not_registered x) =
        (rw (adjust_task-record fewer (omega arith) (omega arith))
          (record_instances_err r t fewer u x fails)) in
      let (now, counted) = adjust_task_follows fewer (omega arith) count stored in
      (
        now,
        counted ∙ ap (λ o. some (recorded t fewer o)) reported,
        adjust_task-same w' (adjust_task w r t fewer).0 t n (sym count),
      )
