-- ===== src/RateRunner/Options.antt =====
-- What goes on in the rate runner without a caller leaves the options of every task as they are.
use govnilo.Prelude.{
  ℕ, ◌==◌, ◌≡◌, refl, ap, ◌∙◌, sym, nat_eq, string_eq, List, some, String, lookup, insert,
  lookup-insert_self, lookup-insert_ne, Outcome, ok, err, panic, inl, inr, Bool-cases, int_of_u64,
  ne_of_beq,
}
use govnilo.Floats.{Floats}
use govnilo.RateLimit.{RateLibrary}
use govnilo.TaskRunner.{TaskRunner, Waits, update_task_instances}
use govnilo.TaskRunner
use govnilo.RateRunner.{
  RateRunner, TaskSpec, Round, limit_instances, needed_instances, record_instances, adjust_task,
  adjust, run_round, not_acquired, task_failed, task_done,
}
use govnilo.RateRunner.Steps.{Background, observes, adjusts}

module _ {fl : Floats} {lib : RateLibrary fl} where
  -- Every task is still there, with the same options.
  abbrev pub KeepsOptions : RateRunner fl lib → RateRunner fl lib → Type 0
  KeepsOptions r r' =
      (k : String) (t : TaskSpec fl lib)
      → lookup k r.tasks ≡ some t
      → (t' : TaskSpec fl lib) × (lookup k r'.tasks ≡ some t') × (t'.run_options ≡ t.run_options)

  written-KeepsOptions :
      (r : RateRunner fl lib) (tr : TaskRunner String) (id : String) (t t' : TaskSpec fl lib)
      → lookup id r.tasks ≡ some t
      → t'.run_options ≡ t.run_options
      → KeepsOptions r (record r { tr = tr; tasks = insert id t' r.tasks })
  written-KeepsOptions r tr id t t' stored same k u h = elim (Bool-cases (id == k)) [
    | inl here ↦
        let it : id ≡ k = (string_eq.beq_iff id k).0 here in
        let both : some t ≡ some u = sym stored ∙ ap (λ x. lookup x r.tasks) it ∙ h in
        let one : t ≡ u = cc both in
        (
          t',
          ap (λ x. lookup x (insert id t' r.tasks)) (sym it) ∙ lookup-insert_self id t' r.tasks,
          same ∙ ap (λ (x : TaskSpec fl lib). x.run_options) one,
        )
    | inr apart ↦ (u, lookup-insert_ne id k t' r.tasks (ne_of_beq id k apart) ∙ h, refl)
  ]

  record_instances-KeepsOptions :
      (r : RateRunner fl lib) (t : TaskSpec fl lib) (needed : ℕ)
      (x : TaskRunner String × Outcome TaskRunner.Error (Unit {0}))
      → lookup t.id r.tasks ≡ some t
      → KeepsOptions r (record_instances r t needed x).0
  unfolding record_instances
  record_instances-KeepsOptions r t needed (tr, ok _) stored =
      written-KeepsOptions r tr t.id t (record t { current_instances = needed }) stored refl
  record_instances-KeepsOptions r t needed (tr, err e) stored = λ k u h. (u, h, refl)
  record_instances-KeepsOptions r t needed (tr, panic) stored = λ k u h. (u, h, refl)

  adjust_task-KeepsOptions :
      (w : Waits) (r : RateRunner fl lib) (t : TaskSpec fl lib) (needed : ℕ)
      → lookup t.id r.tasks ≡ some t
      → KeepsOptions r (adjust_task w r t needed).0
  unfolding adjust_task
  adjust_task-KeepsOptions w r t needed stored = elim (Bool-cases (needed == t.current_instances)) [
    | inl same ↦ rw (same) (λ k u h. (u, h, refl))
    | inr differs ↦ rw differs (
        record_instances-KeepsOptions r t needed
          (update_task_instances w r.tr t.id (int_of_u64 needed)) stored)
  ]

  KeepsOptions-trans :
      (r s t : RateRunner fl lib) → KeepsOptions r s → KeepsOptions s t → KeepsOptions r t
  KeepsOptions-trans r s t a b k u h =
      let (u', there, same) = a k u h in
      let (u'', now, kept) = b k u' there in (u'', now, kept ∙ same)

  run_round_options :
      {E : Type 0} (t : TaskSpec fl lib) (x : Round E)
      → (run_round t x).0.run_options ≡ t.run_options
  unfolding run_round
  run_round_options t (not_acquired e) = refl
  run_round_options t (task_failed e) = refl
  run_round_options t (task_done now took) = refl

  pub Background-KeepsOptions :
      {quantile : fl.F → List fl.F → fl.F} {p : fl.F} {E : Type 0} {r r' : RateRunner fl lib}
      → Background fl lib quantile p E r r'
      → KeepsOptions r r'
  unfolding adjust needed_instances
  Background-KeepsOptions (observes r t x stored) =
      written-KeepsOptions r r.tr t.id t (run_round t x).0 stored (run_round_options t x)
  Background-KeepsOptions {quantile} (adjusts r t w now stored prompt small) =
      let (t', needed) = needed_instances fl lib quantile t now in
      let r1 : RateRunner fl lib = record r { tasks = insert t.id t' r.tasks } in
      let limited = limit_instances needed t.run_options.max_goroutines in
      KeepsOptions-trans r r1 (adjust_task w r1 t' limited).0
        (written-KeepsOptions r r.tr t.id t t' stored refl)
        (adjust_task-KeepsOptions w r1 t' limited (lookup-insert_self t.id t' r.tasks))
