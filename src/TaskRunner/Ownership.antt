-- ===== src/TaskRunner/Ownership.antt =====
-- Which instances a task runner holds, and that it loses none.
use govnilo.Prelude.{
  ℕ, zero, suc, pos, ◌+◌, ◌-◌, ◌≤◌, ◌<◌, ◌==◌, ◌≡◌, refl, sym, ap, ◌∙◌, ◌⊎◌, ◌≢◌, inl, inr, nat_eq,
  string_eq, true, ◌||◌, List, [], ◌∷◌, ◌++◌, length, take, drop, take-append-drop, none, some, ok,
  String, lookup, insert, lookup-insert_ne, lookup-insert, arith, Bool-cases, Option-cases,
  ne_of_beq,
}
use native.Mathlib.Decide.{dec_lt}
use govnilo.TaskRunner.{
  TaskRunner, Waits, fresh, update_task_instances, register_task, stop, new_task_runner,
}
use govnilo.TaskRunner.Loops.{elem, elem-append}
use govnilo.TaskRunner.Shutdown.{all_ids, stop_all}
use govnilo.TaskRunner.Resize.{
  update_task_instances-shrink, update_task_instances-grow, update_task_instances_other,
  update_task_instances_tasks,
}

-- Some task's list has the instance.
pub record IsHeld {T : Type 0} (r : TaskRunner T) (p : ℕ) : Type 0 where
  pub name : String
  pub ids : List ℕ
  pub held : lookup name r.states ≡ some ids
  pub there : elem p ids ≡ true

-- Every instance that was ever started is told to stop or is held, so that it can be; and a task
-- that is not registered has no list.
pub record IsTracked {T : Type 0} (r : TaskRunner T) : Type 0 where
  pub owned : (p : ℕ) → p < r.next → ((r.heap p).stopped ≡ true) ⊎ IsHeld r p
  pub paired : (name : String) → lookup name r.tasks ≡ none → lookup name r.states ≡ none

elem-fresh : (next n p : ℕ) → next ≤ p → p < next + n → elem p (fresh next n) ≡ true
unfolding fresh
elem-fresh next zero p h k = absurd (omega arith)
elem-fresh next (suc n) p h k = ground (arith, elem-fresh (suc next) n p)

-- A name that is free is taken, with no instances.
pub register_task_free :
    {T : Type 0} (r : TaskRunner T) (name : String) (task : T)
    → lookup name r.tasks ≡ none
    → register_task r name task
      ≡ (record r { tasks = insert name task r.tasks; states = insert name [] r.states }, ok tt)
unfolding register_task
register_task_free r name task h = rw (h, register_task)

module _ {T : Type 0} (r : TaskRunner T) where
  register_task-IsTracked :
      (name : String) (task : T) → IsTracked r → IsTracked (register_task r name task).0
  unfolding register_task
  register_task-IsTracked name task v = elim (Option-cases (lookup name r.tasks)) [
    | inr (t, old) ↦ rw (old, register_task) v
    | inl new ↦
        rw (new, register_task)
          (record {
            owned = λ p h. elim (v.owned p h) [
              | inl stopped ↦ inl stopped
              | inr held ↦
                  let apart : name ≢ held.name = λ e. cc (held.held, v.paired name new, e) in
                  inr (record {
                    name = held.name;
                    ids = held.ids;
                    held = lookup-insert_ne name held.name [] r.states apart ∙ held.held;
                    there = held.there;
                  })
            ];
            paired = λ other h. ground (
              arith,
              lookup-insert name other task r.tasks,
              lookup-insert name other [] r.states,
              v.paired other,
            );
          })
  ]

  module _ (w : Waits) (name : String) {task : T} {ids : List ℕ}
      (known : lookup name r.tasks ≡ some task) (held : lookup name r.states ≡ some ids) where
    -- An instance that a task other than the resized one holds is held still.
    IsHeld-elsewhere :
        (n p : ℕ)
        → (h : IsHeld r p) → name ≢ h.name
        → IsHeld (update_task_instances w r name (pos n)).0 p
    IsHeld-elsewhere n p h apart = record {
      name = h.name;
      ids = h.ids;
      held = update_task_instances_other w r name known held (pos n) h.name apart ∙ h.held;
      there = h.there;
    }

    held_here : (p : ℕ) (h : IsHeld r p) → (name == h.name) ≡ true → elem p ids ≡ true
    held_here p h same =
        let e : name ≡ h.name = (string_eq.beq_iff name h.name).0 same in
        let found : lookup h.name r.states ≡ some ids = rw (← e) held in
        let i : h.ids ≡ ids = (cc (found, h.held)) in rw i at h.there

    shrink-owned :
        (n p : ℕ)
        → n ≤ length ids
        → ((r.heap p).stopped ≡ true) ⊎ IsHeld r p
        → let r' = (update_task_instances w r name (pos n)).0 in
          ((r'.heap p).stopped ≡ true) ⊎ IsHeld r' p
    shrink-owned n p h o =
        let (kept, _, flags, _) = update_task_instances-shrink w r name known held n h in
        let split : elem p ids ≡ (elem p (take n ids) || elem p (drop n ids)) =
          ap (elem p) (sym (take-append-drop n ids)) ∙ elem-append p (take n ids) (drop n ids) in
        elim (Bool-cases (elem p (drop n ids))) [
          | inl gone ↦ inl (rw (flags p, gone) refl)
          | inr stays ↦ elim o [
            | inl stopped ↦ inl (rw (flags p, stays) stopped)
            | inr x ↦ elim (Bool-cases (name == x.name)) [
              | inl same ↦ inr (record {
                name = name;
                ids = take n ids;
                held = kept;
                there = ground (arith, split, held_here p x same);
              })
              | inr other ↦ inr (IsHeld-elsewhere n p x (ne_of_beq name x.name other))
            ]
          ]
        ]

    grow-owned :
        (n p : ℕ)
        → length ids < n
        → p < (update_task_instances w r name (pos n)).0.next
        → (p < r.next → ((r.heap p).stopped ≡ true) ⊎ IsHeld r p)
        → let r' = (update_task_instances w r name (pos n)).0 in
          ((r'.heap p).stopped ≡ true) ⊎ IsHeld r' p
    grow-owned n p h bound o =
        let (_, grown, next, flags) = update_task_instances-grow w r name known held n h in
        let more = fresh r.next (n - length ids) in
        let split = elem-append p ids more in
        elim (dec_lt p r.next) [
          | no new ↦ inr (record {
            name = name;
            ids = ids ++ more;
            held = grown;
            there =
                ground
                  (arith, split, elem-fresh r.next (n - length ids) p (omega arith) (omega arith));
          })
          | yes old ↦ elim (o old) [
            | inl stopped ↦
                let same : (update_task_instances w r name (pos n)).0.heap p ≡ r.heap p =
                  ground (arith, flags p) in
                inl (rw same stopped)
            | inr x ↦ elim (Bool-cases (name == x.name)) [
              | inl same ↦ inr (record {
                name = name;
                ids = ids ++ more;
                held = grown;
                there = ground (arith, split, held_here p x same);
              })
              | inr other ↦ inr (IsHeld-elsewhere n p x (ne_of_beq name x.name other))
            ]
          ]
        ]

    known-IsTracked : (n : ℕ) → IsTracked r → IsTracked (update_task_instances w r name (pos n)).0
    known-IsTracked n v = record {
      owned = λ p h. elim (dec_lt (length ids) n) [
        | yes more ↦ grow-owned n p more h (v.owned p)
        | no few ↦
            let fits : n ≤ length ids = omega arith in
            let (_, _, _, same) = update_task_instances-shrink w r name known held n fits in
            shrink-owned n p fits (v.owned p (rw same at h))
      ];
      paired = λ other h.
          let untold : lookup other r.tasks ≡ none =
            (rw (update_task_instances_tasks w r name known held (pos n)) at h) in
          let apart : name ≢ other = λ e. cc (known, untold, e) in
          update_task_instances_other w r name known held (pos n) other apart
          ∙ v.paired other untold;
    }

  update-IsTracked :
      (w : Waits) (name : String) (n : ℕ)
      → IsTracked r
      → IsTracked (update_task_instances w r name (pos n)).0
  unfolding update_task_instances
  update-IsTracked w name n v = elim (Option-cases (lookup name r.tasks)) [
    | inl new ↦ rw (new, update_task_instances) v
    | inr (task, known) ↦ elim (Option-cases (lookup name r.states)) [
      | inl gone ↦ rw (known, update_task_instances) (rw gone v)
      | inr (ids, held) ↦ known-IsTracked w name known held n v
    ]
  ]

  stop-IsTracked : (w : Waits) → IsTracked r → IsTracked (stop w r).0
  unfolding stop
  stop-IsTracked w v = record {
    owned = λ p h.
        let (_, flags) = stop_all w r in
        elim (Bool-cases (elem p (all_ids r.states))) [
          | inl held ↦ inl (rw (flags p, held))
          | inr free ↦ elim (v.owned p h) [
            | inl stopped ↦ inl (rw (flags p, free) stopped)
            | inr x ↦ inr (record { name = x.name; ids = x.ids; held = x.held; there = x.there })
          ]
        ];
    paired = v.paired;
  }

-- The calls that change a task runner.
pub data Call (T : Type 0) : Type 0 where
  registers : String → T → Call T
  updates : Waits → String → ℕ → Call T
  stops : Waits → Call T

module _ {T : Type 0} where
  unfoldable pub step : TaskRunner T → Call T → TaskRunner T
  step r (registers name task) = (register_task r name task).0
  step r (updates w name n) = (update_task_instances w r name (pos n)).0
  step r (stops w) = (stop w r).0

  unfoldable pub run : TaskRunner T → List (Call T) → TaskRunner T
  unfolding step
  run r [] = r
  run r (c ∷ cs) = run (step r c) cs

  step-IsTracked : (r : TaskRunner T) (c : Call T) → IsTracked r → IsTracked (step r c)
  unfolding step
  step-IsTracked r (registers name task) v = register_task-IsTracked r name task v
  step-IsTracked r (updates w name n) v = update-IsTracked r w name n v
  step-IsTracked r (stops w) v = stop-IsTracked r w v

  run-IsTracked : (r : TaskRunner T) (cs : List (Call T)) → IsTracked r → IsTracked (run r cs)
  unfolding run
  run-IsTracked r [] v = v
  run-IsTracked r (c ∷ cs) v = run-IsTracked (step r c) cs (step-IsTracked r c v)

  -- No sequence of calls loses an instance: each one that was ever started has been told to stop,
  -- or stands in the list of some task, so that a later call can stop it.
  pub run_new-IsTracked : (cs : List (Call T)) → IsTracked (run (new_task_runner T) cs)
  unfolding new_task_runner lookup
  run_new-IsTracked cs =
      run-IsTracked (new_task_runner T) cs
        (record { owned = λ p h. absurd (omega arith); paired = λ name h. refl })
