-- ===== src/RateRunner/Counts.antt =====
-- The counts of the rate runner against what the task runner runs, over any interleaving of steps.
use native.Mathlib.Decide.{ℕ_discrete}
use govnilo.Prelude.{
  ℕ, pos, ◌^◌, ◌<◌, ◌==◌, ◌≡◌, refl, sym, ap, ◌∙◌, nat_eq, int_eq, string_eq, ltb, List, [], ◌∷◌,
  length, drop, some, String, inl, inr, lookup, insert, lookup-insert_self, lookup-insert_cases,
  lookup-insert_known, Outcome, ok, err, panic, arith, Bool-cases,
}
use govnilo.Floats.{Floats}
use govnilo.RateLimit.{RateLibrary}
use govnilo.TaskRunner.{TaskRunner, Waits, stop_returns, update_task_instances}
use govnilo.TaskRunner
use govnilo.TaskRunner.Loops.{failures}
use govnilo.TaskRunner.Resize.{
  update_task_instances-shrink, update_task_instances-grow, update_task_instances_exact,
  update_task_instances_tasks, update_task_instances_other,
}
use govnilo.RateRunner.{
  RateRunner, TaskSpec, RunOptions, Round, set_options, needed_instances, limit_instances,
  not_acquired, task_failed, task_done, record_instances, adjust_task, adjust, run_round,
}
use govnilo.RateRunner.Steps.{
  Prompt, Step, Reach, Background, registers, sets, proceeds, observes, adjusts, starts, steps,
}
use govnilo.RateRunner.Adjust.{Runs, adjust_task-same, adjust_task-record}
use govnilo.RateRunner.Counted.{
  IsCounted, written-IsCounted, registered-IsCounted, new_rate_runner-IsCounted,
}

failures-Prompt : (w : Waits) → Prompt w → (ps : List ℕ) → failures w ps ≡ 0
unfolding failures
failures-Prompt w prompt [] = refl
failures-Prompt w prompt (p ∷ ps) = rw (prompt p) (failures-Prompt w prompt ps)

module _ {T : Type 0} (w : Waits) (prompt : Prompt w) (r : TaskRunner T) (name : String) {task : T}
    {ids : List ℕ} (known : lookup name r.tasks ≡ some task)
    (held : lookup name r.states ≡ some ids) where
  update_task_instances_ok : (n : ℕ) → (update_task_instances w r name (pos n)).1 ≡ ok tt
  update_task_instances_ok n = elim (Bool-cases (ltb (length ids) n)) [
    | inl more ↦ (update_task_instances-grow w r name known held n (ground arith)).0
    | inr fewer ↦
        let (_, outcome, _, _) =
          update_task_instances-shrink w r name known held n (ground arith) in
        outcome ∙ rw (failures-Prompt w prompt (drop n ids)) refl
  ]

module _ {fl : Floats} {lib : RateLibrary fl} where
  record_instances_ok :
      (r : RateRunner fl lib) (t : TaskSpec fl lib) (needed : ℕ)
      (x : TaskRunner String × Outcome TaskRunner.Error (Unit {0}))
      → x.1 ≡ ok tt
      → (record_instances r t needed x).0 ≡ record r {
        tr = x.0;
        tasks = insert t.id (record t { current_instances = needed }) r.tasks;
      }
  unfolding record_instances
  record_instances_ok r t needed (tr, ok _) h = refl
  record_instances_ok r t needed (tr, err e) h = ground arith
  record_instances_ok r t needed (tr, panic) h = ground arith

  resized-IsCounted :
      (w : Waits) (r : RateRunner fl lib) (t : TaskSpec fl lib) (needed : ℕ)
      → lookup t.id r.tasks ≡ some t
      → IsCounted r
      → IsCounted (record r {
        tr = (update_task_instances w r.tr t.id (pos needed)).0;
        tasks = insert t.id (record t { current_instances = needed }) r.tasks;
      })
  resized-IsCounted w r t needed stored good =
      let (_, runs) = good.each t.id t stored in
      let t' : TaskSpec fl lib = record t { current_instances = needed } in
      let tr' = (update_task_instances w r.tr t.id (pos needed)).0 in
      let tasks : tr'.tasks ≡ r.tr.tasks =
        update_task_instances_tasks w r.tr t.id runs.known runs.held (pos needed) in
      let (ids', held', count') =
        update_task_instances_exact w r.tr t.id runs.known runs.held needed in
      record {
        agree = λ name. (
          (λ h.
              ap (lookup name) tasks
              ∙ (good.agree name).0 ((lookup-insert_known t.id name t' t r.tasks stored).0 h)),
          λ h.
              (lookup-insert_known t.id name t' t r.tasks stored).1
                ((good.agree name).1 (sym (ap (lookup name) tasks) ∙ h)),
        );
        each = λ name s there. elim (lookup-insert_cases t.id name t' s r.tasks there) [
          | inl (same, it) ↦
              rw (← it, ← same)
                (
                  refl,
                  record {
                    prepared = runs.prepared;
                    known = ap (lookup t.id) tasks ∙ runs.known;
                    ids = ids';
                    held = held';
                    count = count';
                  },
                )
          | inr (apart, was) ↦
              let (named, other) = good.each name s was in
              (
                named,
                record {
                  prepared = other.prepared;
                  known = ap (lookup name) tasks ∙ other.known;
                  ids = other.ids;
                  held =
                      update_task_instances_other w r.tr t.id runs.known runs.held (pos needed) name
                        apart
                      ∙ other.held;
                  count = other.count;
                },
              )
        ];
      }

  pub adjust_task-IsCounted :
      (w : Waits) (r : RateRunner fl lib) (t : TaskSpec fl lib) (needed : ℕ)
      → Prompt w
      → needed < 2 ^ 63
      → lookup t.id r.tasks ≡ some t
      → IsCounted r
      → IsCounted (adjust_task w r t needed).0
  adjust_task-IsCounted w r t needed prompt small stored good =
      let (_, runs) = good.each t.id t stored in
      elim (ℕ_discrete needed t.current_instances) [
        | yes same ↦ rw (adjust_task-same w r t needed same) good
        | no differs ↦
            rw
              (
                adjust_task-record w r t runs needed small differs,
                record_instances_ok r t needed (update_task_instances w r.tr t.id (pos needed))
                    (update_task_instances_ok w prompt r.tr t.id runs.known runs.held needed),
              )
              (resized-IsCounted w r t needed stored good)
      ]

  -- Setting options and observing a run keep the id and the count of a task.
  pub set_options-kept :
      (t : TaskSpec fl lib) (o : RunOptions)
      → let t' = (set_options fl lib t o).0 in
        (t'.id ≡ t.id) × (t'.current_instances ≡ t.current_instances)
  unfolding set_options
  set_options-kept t o = elim (Bool-cases (o.rate.per == pos 0)) [
    | inl zero_period ↦ rw zero_period (refl, refl)
    | inr period ↦ rw period (refl, refl)
  ]

  pub run_round-kept :
      {E : Type 0} (t : TaskSpec fl lib) (x : Round E)
      → let t' = (run_round t x).0 in (t'.id ≡ t.id) × (t'.current_instances ≡ t.current_instances)
  unfolding run_round
  run_round-kept t (not_acquired e) = (refl, refl)
  run_round-kept t (task_failed e) = (refl, refl)
  run_round-kept t (task_done now took) = (refl, refl)

  module _ {quantile : fl.F → List fl.F → fl.F} {p : fl.F} {E : Type 0} where
    pub Background-IsCounted :
        {r r' : RateRunner fl lib}
        → Background fl lib quantile p E r r'
        → IsCounted r
        → IsCounted r'
    unfolding adjust needed_instances
    Background-IsCounted (observes r t x stored) good =
        let (id, count) = run_round-kept t x in
        written-IsCounted r t.id t (run_round t x).0 stored id count good
    Background-IsCounted (adjusts r t w now stored prompt small) good =
        let (t', needed) = needed_instances fl lib quantile t now in
        adjust_task-IsCounted w (record r { tasks = insert t.id t' r.tasks }) t'
          (limit_instances needed t.run_options.max_goroutines) prompt small
          (lookup-insert_self t.id t' r.tasks) (written-IsCounted r t.id t t' stored refl refl good)

    Step-IsCounted :
        {r r' : RateRunner fl lib} → Step fl lib quantile p E r r' → IsCounted r → IsCounted r'
    Step-IsCounted (registers r with_id) good = registered-IsCounted p r with_id good
    Step-IsCounted (sets r t o stored) good =
        let (id, count) = set_options-kept t o in
        written-IsCounted r t.id t (set_options fl lib t o).0 stored id count good
    Step-IsCounted (proceeds step) good = Background-IsCounted step good

    Reach-IsCounted : {r : RateRunner fl lib} → Reach fl lib quantile p E r → IsCounted r
    Reach-IsCounted starts = new_rate_runner-IsCounted
    Reach-IsCounted (steps before step) = Step-IsCounted step (Reach-IsCounted before)

    -- On every interleaving of registrations, options that are set, observed runs and tasks that the
    -- loop of `Run` adjusts, while the instances that are stopped end in time and no task needs 2^63
    -- of them: every task of the rate runner is known to the task runner under its id, which runs as
    -- many instances of it as the count of the task says.
    pub Reach_counts :
        (r : RateRunner fl lib) (name : String) (t : TaskSpec fl lib)
        → Reach fl lib quantile p E r
        → lookup name r.tasks ≡ some t
        → (t.id ≡ name) × Runs r.tr name t.current_instances
    Reach_counts r name t reached h = (Reach-IsCounted reached).each name t h
