-- ===== src/CheckerCtrl/Handles.antt =====
-- internal/checkerctrl/controller.go: the handles that `New` gives out, one for each checker.
use mathlib.Core.Path.{subst}
use mathlib.Core.List.{append_assoc, append-nil}
use govnilo.Prelude.{
  ◌==◌, ◌≡◌, refl, sym, ap, ◌∙◌, string_eq, true, false, List, [], ◌∷◌, ◌++◌, map, All, All-mono,
  All-append, Option, none, some, String, inl, inr, lookup, insert, Outcome, ok, err, panic, arith,
  Bool-cases, Option-cases,
}
use govnilo.Floats.{Floats}
use govnilo.RateLimit.{RateLibrary}
use govnilo.RateRunner.{RateRunner, TaskSpec, register, new_spec, chosen_id, new_rate_runner}
use govnilo.RateRunner
use govnilo.RateRunner.Register.{register-free, register-taken, new_rate_runner-KeysAgree}
use govnilo.CheckerCtrl.{Controller}
use govnilo.CheckerCtrl.Helpers.{CheckerId, checker_id_eq}
use govnilo.CheckerCtrl.Registration.{
  task_id, among, keep_handle, add_checker, add_checkers, new_controller,
}
use govnilo.CheckerCtrl.Registered.{
  IsRegistered, Keeps, insert-insert, add_checker-Keeps, new_controller-IsRegistered,
}

-- The entry of a checker: a handle to the task of its id.
abbrev pub entry_of : CheckerId → CheckerId × Option String
entry_of id = (id, some (task_id id))

abbrev IsMetered : List CheckerId → CheckerId × Option String → Type 0
IsMetered metered x = among (x.0) metered ≡ true

insert-fresh :
    (metered : List CheckerId) (id : CheckerId) (v : Option String)
    (m : List (CheckerId × Option String))
    → among id metered ≡ false
    → All (IsMetered metered) m
    → insert id v m ≡ m ++ ((id, v) ∷ [])
unfolding insert
insert-fresh metered id v [] fresh known = refl
insert-fresh metered id v ((j, w) ∷ m) fresh known = elim (Bool-cases (j == id)) [
  | inl same ↦
      let it : j ≡ id = (checker_id_eq.beq_iff j id).0 same in
      absurd (cc (fresh, subst (λ k. among k metered ≡ true) it known.0))
  | inr other ↦
      rw (other, insert) (ap (λ r. (j, w) ∷ r) (insert-fresh metered id v m fresh known.1))
]

IsMetered-later :
    (metered : List CheckerId) (id : CheckerId) (x : CheckerId × Option String)
    → IsMetered metered x
    → IsMetered (id ∷ metered) x
IsMetered-later metered id x h = ground arith

metered_now : (metered : List CheckerId) (id : CheckerId) → among id (id ∷ metered) ≡ true
metered_now metered id = ground (arith, checker_id_eq.beq_iff id id)

module _ {fl : Floats} {lib : RateLibrary fl} (p : fl.F) where
  abbrev Has :
      List (CheckerId × Option String) → Outcome RateRunner.Error (Controller fl lib) → Type 0
  Has entries (ok c) = c.checkers ≡ entries
  Has entries (err _) = Unit
  Has entries panic = Unit

  add_checker-Has :
      (metered : List CheckerId) (c : Controller fl lib) (id : CheckerId)
      → IsRegistered p c
      → All (IsMetered metered) c.checkers
      → Has (c.checkers ++ (entry_of id ∷ [])) (add_checker fl lib p metered c id)
  unfolding add_checker chosen_id keep_handle new_spec
  add_checker-Has metered c id good known = elim (Bool-cases (among id metered)) [
    | inl again ↦ rw (again, add_checker) tt
    | inr once ↦ elim (Option-cases (lookup (task_id id) c.rr.tasks)) [
      | inr (t, taken) ↦
          rw (once, add_checker, register-taken p c.rr (some (task_id id)) taken, keep_handle) tt
      | inl free ↦
          rw
            (
              once,
              add_checker,
              register-free p c.rr (some (task_id id)) good.agree free,
              keep_handle,
            )
            (insert-insert id none (some (task_id id)) c.checkers
              ∙ insert-fresh metered id (some (task_id id)) c.checkers once known)
    ]
  ]

  add_checkers-Has :
      (metered : List CheckerId) (c : Controller fl lib) (ids : List CheckerId)
      → IsRegistered p c
      → All (IsMetered metered) c.checkers
      → Has (c.checkers ++ map entry_of ids) (add_checkers fl lib p metered c ids)
  unfolding add_checkers
  add_checkers-Has metered c [] good known = sym (append-nil c.checkers)
  add_checkers-Has metered c (id ∷ ids) good known =
      next (add_checker fl lib p metered c id) (add_checker-Keeps p metered c id good)
        (add_checker-Has metered c id good known) (λ c'. add_checkers-Has (id ∷ metered) c' ids)
    where
      next :
          (o : Outcome RateRunner.Error (Controller fl lib))
          → Keeps p o
          → Has (c.checkers ++ (entry_of id ∷ [])) o
          → ((c' : Controller fl lib)
              → IsRegistered p c'
              → All (IsMetered (id ∷ metered)) c'.checkers
              → Has (c'.checkers ++ map entry_of ids) (add_checkers fl lib p (id ∷ metered) c' ids))
          → Has (c.checkers ++ map entry_of (id ∷ ids)) (elim o [
            | ok c' ↦ add_checkers fl lib p (id ∷ metered) c' ids
            | err e ↦ err e
            | panic ↦ panic
          ])
      next (ok c') kept has rest =
          let now : All (IsMetered (id ∷ metered)) c'.checkers = rw has (
            All-append (IsMetered (id ∷ metered)) c.checkers (entry_of id ∷ [])
              (All-mono (IsMetered metered) (IsMetered (id ∷ metered)) c.checkers
                (IsMetered-later metered id) known)
              (metered_now metered id, tt)) in
          let same : c'.checkers ++ map entry_of ids ≡ c.checkers ++ map entry_of (id ∷ ids) =
            ap (λ m. m ++ map entry_of ids) has
            ∙ append_assoc c.checkers (entry_of id ∷ []) (map entry_of ids) in
          subst (λ m. Has m (add_checkers fl lib p (id ∷ metered) c' ids)) same (rest c' kept now)
      next (err e) kept has rest = tt
      next panic kept has rest = tt

  -- In every controller that `New` returns there is an entry for each checker that `New` is given,
  -- in their order and no other, whose handle is to a task of the checker's own id; no two have the
  -- same handle, each is to a task that is there, and the rate runner and its task runner know the
  -- same tasks.
  pub new_controller_handles :
      (metered ids : List CheckerId) (c : Controller fl lib)
      → new_controller fl lib p metered ids ≡ ok c
      → (c.checkers ≡ map entry_of ids) × IsRegistered p c
  unfolding new_controller
  new_controller_handles metered ids c made =
      let start : Controller fl lib = record {
        checkers = [];
        current_settings = none;
        rr = new_rate_runner fl lib;
      } in
      let fine : IsRegistered p start = record {
        agree = new_rate_runner-KeysAgree fl lib;
        handled = tt;
        distinct = tt;
      } in
      (
        subst (Has (map entry_of ids)) made (add_checkers-Has metered start ids fine tt),
        new_controller-IsRegistered p metered ids c made,
      )
