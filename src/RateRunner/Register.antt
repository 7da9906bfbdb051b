-- ===== src/RateRunner/Register.antt =====
-- Registration of tasks, and the options that a handle sets.
use govnilo.Prelude.{
  pos, ◌==◌, ◌≡◌, refl, sym, ap, ◌∙◌, ◌≢◌, ◌↔◌, inl, inr, int_eq, string_eq, nat_eq, if◌then◌else◌,
  [], Option, none, some, String, lookup, insert, lookup-insert, lookup-insert_self, ok, err,
  Bool-cases, Option-cases, ne_of_beq, beq_ne,
}
use govnilo.Floats.{Floats}
use govnilo.RateLimit.{RateLibrary, Spec, set_spec, build_rl}
use govnilo.RateLimit.Invariant.{set_spec_current}
use govnilo.TaskRunner.Ownership.{register_task_free}
use govnilo.TaskRunner.{new_task_runner}
use govnilo.RateRunner.{
  RateRunner, TaskSpec, RunOptions, zero_per, already_registered, set_options, new_spec, chosen_id,
  finish_register, register, new_rate_runner,
}

module _ {fl : Floats} {lib : RateLibrary fl} where
  -- The limiter runs at the rate of the options.
  pub record IsInSync (t : TaskSpec fl lib) : Type 0 where
    pub times : t.rate_limitter.spec.times ≡ t.run_options.rate.times
    pub per : t.rate_limitter.spec.per ≡ t.run_options.rate.per
    pub built : t.rate_limitter.rl ≡ build_rl fl lib t.rate_limitter.spec

  -- `SetOptions` refuses a period of 0 and changes nothing; else it succeeds, sets the options, and
  -- leaves the limiter at their rate.
  pub set_options_sync :
      (t : TaskSpec fl lib) (o : RunOptions)
      → IsInSync t
      → let (t', outcome) = set_options fl lib t o in
        IsInSync t'
        × (o.rate.per ≡ pos 0 → (outcome ≡ err zero_per) × (t' ≡ t))
        × (o.rate.per ≢ pos 0 → (outcome ≡ ok tt) × (t'.run_options ≡ o))
  unfolding set_options
  set_options_sync t o v = elim (Bool-cases (o.rate.per == pos 0)) [
    | inl zero_period ↦
        let e = (int_eq.beq_iff o.rate.per (pos 0)).0 zero_period in
        rw (zero_period, set_options) (v, (λ _. (refl, refl)), λ k. absurd (k e))
    | inr period ↦
        let n = ne_of_beq o.rate.per (pos 0) period in
        let wanted : Spec = record { times = o.rate.times; per = o.rate.per } in
        let (now, built) = set_spec_current fl lib t.rate_limitter wanted v.built in
        rw (period, set_options)
          (
            record {
              times = ap (λ (c : Spec). c.times) now;
              per = ap (λ (c : Spec). c.per) now;
              built = built;
            },
            (λ e. absurd (n e)),
            λ _. (refl, refl),
          )
  ]

  pub set_options_ok :
      (t : TaskSpec fl lib) (o : RunOptions)
      → o.rate.per ≢ pos 0
      → (t' : TaskSpec fl lib) × (set_options fl lib t o ≡ (t', ok tt)) × (t'.run_options ≡ o)
  unfolding set_options
  set_options_ok t o h = (
    record t {
      rate_limitter =
          set_spec fl lib t.rate_limitter (record { times = o.rate.times; per = o.rate.per });
      run_options = o;
    },
    rw (beq_ne o.rate.per (pos 0) h, set_options),
    refl,
  )

  -- The rate runner and its task runner know the same tasks.
  abbrev pub KeysAgree : RateRunner fl lib → Type 0
  KeysAgree r = (name : String) → (lookup name r.tasks ≡ none) ↔ (lookup name r.tr.tasks ≡ none)

module _ {fl : Floats} {lib : RateLibrary fl} (p : fl.F) (r : RateRunner fl lib)
    (with_id : Option String) where
  -- Under an id that is taken, nothing changes but the counter.
  pub register-taken :
      {t : TaskSpec fl lib}
      → let (id, counter) = chosen_id with_id r.id_counter in
        lookup id r.tasks ≡ some t
        → register fl lib p r with_id
          ≡ (record r { id_counter = counter }, err (already_registered id))
  unfolding register
  register-taken h = rw (h, register)

  -- Under a new id the task runner has no task either, and the registration goes through.
  pub register-free :
      KeysAgree r
      → let (id, counter) = chosen_id with_id r.id_counter in
        lookup id r.tasks ≡ none
        → register fl lib p r with_id ≡ (
          record r {
            id_counter = counter;
            tasks = insert id (new_spec fl lib p id) r.tasks;
            tr = record (r.tr) {
              tasks = insert id id r.tr.tasks;
              states = insert id [] r.tr.states;
            };
          },
          ok (new_spec fl lib p id),
        )
  unfolding register finish_register
  register-free agree h =
      let (id, counter) = chosen_id with_id r.id_counter in
      let t = new_spec fl lib p id in
      let taken : RateRunner fl lib = record r {
        id_counter = counter;
        tasks = insert id t r.tasks;
      } in
      rw (h, register)
        (ap (finish_register fl lib p taken t) (register_task_free r.tr id id ((agree id).0 h)))

  pub insert-agrees :
      (id : String) (t : TaskSpec fl lib)
      → KeysAgree r
      → (name : String)
      → (lookup name (insert id t r.tasks) ≡ none) ↔ (lookup name (insert id id r.tr.tasks) ≡ none)
  insert-agrees id t agree name =
      let a = lookup-insert id name t r.tasks in
      let b = lookup-insert id name id r.tr.tasks in
      elim (Bool-cases (id == name)) [
        | inl same ↦ (
          λ h. absurd (cc (h, a ∙ ap (λ c. if c then some t else lookup name r.tasks) same)),
          λ h. absurd (cc (h, b ∙ ap (λ c. if c then some id else lookup name r.tr.tasks) same)),
        )
        | inr other ↦
            let a' = a ∙ ap (λ c. if c then some t else lookup name r.tasks) other in
            let b' = b ∙ ap (λ c. if c then some id else lookup name r.tr.tasks) other in
            (λ h. b' ∙ (agree name).0 (sym a' ∙ h), λ h. a' ∙ (agree name).1 (sym b' ∙ h))
      ]

  -- `RegisterTask` keeps the tasks of the rate runner and of its task runner the same. It refuses an
  -- id that is taken, changing nothing but the counter; and with any other id it succeeds: the task
  -- stands under the id at a rate of nothing, with no instance.
  pub register_outcome :
      KeysAgree r
      → let (id, counter) = chosen_id with_id r.id_counter in
        let (r', outcome) = register fl lib p r with_id in
        KeysAgree r'
        × (lookup id r.tasks ≢ none
            → (outcome ≡ err (already_registered id)) × (r' ≡ record r { id_counter = counter }))
        × (lookup id r.tasks ≡ none
            → (outcome ≡ ok (new_spec fl lib p id))
              × (lookup id r'.tasks ≡ some (new_spec fl lib p id))
              × (lookup id r'.tr.states ≡ some []))
  register_outcome agree =
      let id = (chosen_id with_id r.id_counter).0 in
      elim (Option-cases (lookup id r.tasks)) [
        | inr (t, h) ↦ rw (register-taken h) (agree, (λ _. (refl, refl)), λ n. absurd (cc (h, n)))
        | inl h ↦ rw (register-free agree h) (
          insert-agrees id (new_spec fl lib p id) agree,
          (λ n. absurd (n h)),
          λ _. (
            refl,
            lookup-insert_self id (new_spec fl lib p id) r.tasks,
            lookup-insert_self id [] r.tr.states,
          ),
        )
      ]

module _ (fl : Floats) (lib : RateLibrary fl) where
  pub new_rate_runner-KeysAgree : KeysAgree (new_rate_runner fl lib)
  unfolding new_rate_runner new_task_runner lookup
  new_rate_runner-KeysAgree name = ((λ _. refl), λ _. refl)
