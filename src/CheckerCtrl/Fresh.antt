-- ===== src/CheckerCtrl/Fresh.antt =====
-- What `New` leaves before the first round: no settings, and counts that are right.
use mathlib.Core.Path.{subst}
use govnilo.Prelude.{
  ◌≡◌, refl, string_eq, List, [], ◌∷◌, none, some, inl, inr, insert, Outcome, ok, err, panic,
  Bool-cases,
}
use govnilo.Floats.{Floats}
use govnilo.RateLimit.{RateLibrary}
use govnilo.RateRunner.{RateRunner, TaskSpec, RunOptions, set_options, register}
use govnilo.RateRunner
use govnilo.RateRunner.Counted.{IsCounted, registered-IsCounted, new_rate_runner-IsCounted}
use govnilo.CheckerCtrl.{Controller}
use govnilo.CheckerCtrl.Helpers.{CheckerId, checker_id_eq}
use govnilo.CheckerCtrl.Registration.{
  task_id, among, keep_handle, add_checker, add_checkers, new_controller,
}

module _ {fl : Floats} {lib : RateLibrary fl} where
  -- `New` leaves no settings, and counts that are right.
  abbrev pub IsFresh : Controller fl lib → Type 0
  IsFresh c = (c.current_settings ≡ none) × IsCounted c.rr

  abbrev FreshIf : Outcome RateRunner.Error (Controller fl lib) → Type 0
  FreshIf (ok c) = IsFresh c
  FreshIf (err _) = Unit
  FreshIf panic = Unit

  keep_handle-FreshIf :
      (p : fl.F) (c : Controller fl lib) (id : CheckerId)
      (reg : RateRunner fl lib × Outcome RateRunner.Error (TaskSpec fl lib))
      → c.current_settings ≡ none
      → IsCounted reg.0
      → FreshIf (keep_handle fl lib p c id reg)
  unfolding keep_handle
  keep_handle-FreshIf p c id (r, ok t) unset good = (unset, good)
  keep_handle-FreshIf p c id (r, err x) unset good = tt
  keep_handle-FreshIf p c id (r, panic) unset good = tt

  add_checker-FreshIf :
      (p : fl.F) (metered : List CheckerId) (c : Controller fl lib) (id : CheckerId)
      → IsFresh c
      → FreshIf (add_checker fl lib p metered c id)
  unfolding add_checker
  add_checker-FreshIf p metered c id (unset, good) = elim (Bool-cases (among id metered)) [
    | inl again ↦ rw again tt
    | inr once ↦ rw once (
        keep_handle-FreshIf p (record c { checkers = insert id none c.checkers }) id
          (register fl lib p c.rr (some (task_id id))) unset
          (registered-IsCounted p c.rr (some (task_id id)) good))
  ]

  add_checkers-FreshIf :
      (p : fl.F) (metered : List CheckerId) (c : Controller fl lib) (ids : List CheckerId)
      → IsFresh c
      → FreshIf (add_checkers fl lib p metered c ids)
  unfolding add_checkers
  add_checkers-FreshIf p metered c [] fresh = fresh
  add_checkers-FreshIf p metered c (id ∷ ids) fresh =
      next (add_checker fl lib p metered c id) (add_checker-FreshIf p metered c id fresh)
        (λ c'. add_checkers-FreshIf p (id ∷ metered) c' ids)
    where
      next :
          (o : Outcome RateRunner.Error (Controller fl lib))
          → FreshIf o
          → ((c' : Controller fl lib)
              → IsFresh c'
              → FreshIf (add_checkers fl lib p (id ∷ metered) c' ids))
          → FreshIf (elim o [
            | ok c' ↦ add_checkers fl lib p (id ∷ metered) c' ids
            | err e ↦ err e
            | panic ↦ panic
          ])
      next (ok c') kept rest = rest c' kept
      next (err e) kept rest = tt
      next panic kept rest = tt

  pub new_controller-IsFresh :
      (p : fl.F) (metered ids : List CheckerId) (c : Controller fl lib)
      → new_controller fl lib p metered ids ≡ ok c
      → IsFresh c
  unfolding new_controller
  new_controller-IsFresh p metered ids c made = subst FreshIf made (
      add_checkers-FreshIf p metered
        (record { checkers = []; current_settings = none; rr = RateRunner.new_rate_runner fl lib })
        ids (refl, new_rate_runner-IsCounted))
