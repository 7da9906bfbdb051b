-- ===== src/TaskRunner/Resize.antt =====
-- What `UpdateTaskInstances` does to the instances of a task.
use govnilo.Prelude.{
  ℕ, ℤ, pos, negsuc, ◌+◌, ◌-◌, ◌≤◌, ◌<◌, ◌==◌, ◌≡◌, refl, ap, ◌∙◌, ◌≢◌, inl, inr, nat_eq, string_eq,
  true, false, ◌&&◌, ltb, leb, if◌then◌else◌, List, ◌++◌, reverse, length, take, drop, length-take,
  length-append, some, String, lookup, lookup-insert_self, lookup-insert_ne, Outcome, ok, err,
  arith, Bool-cases, beq_self,
}
use govnilo.TaskRunner.{
  TaskRunner, Waits, fresh, stop_outcome, resize, update_task_instances, cannot_stop,
}
use govnilo.TaskRunner.Loops.{
  elem, failures, flag_all, flag_all_lem, elem-reverse, length-fresh, start_loop_lem,
  start_loop_next, start_loop_heap, take_all, drop_all, stop_loop-drop, stop_loop_overrun,
  stop_outcome_lem,
}

module _ {T : Type 0} (w : Waits) (r : TaskRunner T) (name : String) {task : T} {ids : List ℕ}
    (known : lookup name r.tasks ≡ some task) (held : lookup name r.states ≡ some ids) where
  update_task_instances-resize :
      (target : ℤ) → update_task_instances w r name target ≡ resize w r name ids target
  unfolding update_task_instances
  update_task_instances-resize target = ground arith

  resize_shrinks :
      (n : ℕ)
      → n ≤ length ids
      → let (r', outcome) = resize w r name ids (pos n) in
        (lookup name r'.states ≡ some (take n ids))
        × (outcome ≡ stop_outcome name (length ids - n) (some (failures w (drop n ids))))
        × ((q : ℕ) → r'.heap q ≡ flag_all (reverse (drop n ids)) r.heap q)
        × (r'.next ≡ r.next)
  unfolding resize failures flag_all
  resize_shrinks n h = elim (Bool-cases (length ids == n)) [
    | inl same ↦
        let e : n ≡ length ids = ground arith in
        rw (e, take_all ids, drop_all ids, beq_self (length ids))
          (held, ground arith, (λ q. refl), refl)
    | inr other ↦
        let more : ltb (length ids) n ≡ false = ground arith in
        rw (other, more, stop_loop-drop w n ids r.heap h)
          (lookup-insert_self name (take n ids) r.states, refl, (λ q. refl), refl)
  ]

  -- Asked for no more instances than a registered task has, the runner keeps the oldest ones and
  -- raises the flags of exactly the rest; it reports how many of those did not stop in time, and
  -- they are given up all the same. It starts no instance.
  pub update_task_instances-shrink :
      (n : ℕ)
      → n ≤ length ids
      → let (r', outcome) = update_task_instances w r name (pos n) in
        (lookup name r'.states ≡ some (take n ids))
        × (outcome ≡ (
            let e = failures w (drop n ids) in
            if e == 0 then ok tt else err (cannot_stop e (length ids - n) name)))
        × ((q : ℕ)
            → r'.heap q ≡ (
                if elem q (drop n ids)
                then record { stopped = true; cancelled = true }
                else r.heap q))
        × (r'.next ≡ r.next)
  update_task_instances-shrink n h =
      let (kept, outcome, flags, next) = resize_shrinks n h in
      rw (update_task_instances-resize (pos n)) (
        kept,
        outcome ∙ stop_outcome_lem name (length ids - n) (failures w (drop n ids)),
        (λ q.
            flags q
            ∙ flag_all_lem (reverse (drop n ids)) r.heap q
            ∙ ap (λ b. if b then record { stopped = true; cancelled = true } else r.heap q)
                (elem-reverse q (drop n ids))),
        next,
      )

  -- Asked for more instances than a registered task has, the runner succeeds, keeps those that run
  -- and adds new ones, whose flags are down, up to the number asked for.
  pub update_task_instances-grow :
      (n : ℕ)
      → length ids < n
      → let (r', outcome) = update_task_instances w r name (pos n) in
        (outcome ≡ ok tt)
        × (lookup name r'.states ≡ some (ids ++ fresh r.next (n - length ids)))
        × (r'.next ≡ r.next + (n - length ids))
        × ((q : ℕ)
            → r'.heap q ≡ (
                if leb r.next q && ltb q (r.next + (n - length ids))
                then record { stopped = false; cancelled = false }
                else r.heap q))
  unfolding resize
  update_task_instances-grow n h =
      let other : (length ids == n) ≡ false = ground arith in
      let more : ltb (length ids) n ≡ true = ground arith in
      rw (update_task_instances-resize (pos n), resize, other, more)
        (
          refl,
          (lookup-insert_self name _ r.states
              ∙ ap some (start_loop_lem (n - length ids) r.heap r.next ids)),
          start_loop_next (n - length ids) r.heap r.next ids,
          start_loop_heap (n - length ids) r.heap r.next ids,
        )

  -- A registered task ends up with exactly the number of instances asked for, whatever the waits
  -- for the stopped ones come to.
  pub update_task_instances_exact :
      (n : ℕ)
      → (ids' : List ℕ) × (lookup name (update_task_instances w r name (pos n)).0.states
          ≡ some ids')
        × (length ids' ≡ n)
  update_task_instances_exact n = elim (Bool-cases (ltb (length ids) n)) [
    | inl more ↦
        let less : length ids < n = ground arith in
        let (_, grown, _, _) = update_task_instances-grow n less in
        (
          ids ++ fresh r.next (n - length ids),
          grown,
          omega (
            arith,
            length-append ids (fresh r.next (n - length ids)),
            length-fresh r.next (n - length ids),
            less,
          ),
        )
    | inr fewer ↦
        let few : n ≤ length ids = ground arith in
        (take n ids, (update_task_instances-shrink n few).0, length-take n ids few)
  ]

  -- Asked for a negative number of instances, the runner panics on an index out of range.
  pub update_task_instances_negative :
      (n : ℕ) → (update_task_instances w r name (negsuc n)).1 ≡ Outcome.panic
  unfolding resize stop_outcome
  update_task_instances_negative n =
      rw (update_task_instances-resize (negsuc n), resize)
        (ap (stop_outcome name (length ids + n + 1)) (stop_loop_overrun w ids n r.heap 0))

  -- The instances of every other task stay as they are.
  pub update_task_instances_other :
      (target : ℤ) (other : String)
      → name ≢ other
      → lookup other (update_task_instances w r name target).0.states ≡ lookup other r.states
  unfolding resize
  update_task_instances_other (pos n) other h =
      rw (update_task_instances-resize (pos n), resize)
        (elim (Bool-cases (length ids == n)) [
          | inl same ↦ rw same
          | inr differ ↦ elim (Bool-cases (ltb (length ids) n)) [
            | inl more ↦ rw (differ, more) (lookup-insert_ne name other _ r.states h)
            | inr fewer ↦ rw (differ, fewer) (lookup-insert_ne name other _ r.states h)
          ]
        ])
  update_task_instances_other (negsuc n) other h =
      rw (update_task_instances-resize (negsuc n), resize)
        (lookup-insert_ne name other _ r.states h)

  pub update_task_instances_tasks :
      (target : ℤ) → (update_task_instances w r name target).0.tasks ≡ r.tasks
  unfolding resize
  update_task_instances_tasks (pos n) =
      rw (update_task_instances-resize (pos n), resize)
        (elim (Bool-cases (length ids == n)) [
          | inl same ↦ rw same
          | inr differ ↦ elim (Bool-cases (ltb (length ids) n)) [
            | inl more ↦ rw (differ, more)
            | inr fewer ↦ rw (differ, fewer)
          ]
        ])
  update_task_instances_tasks (negsuc n) = rw (update_task_instances-resize (negsuc n), resize)
