-- ===== src/CheckerCtrl/Rounds.antt =====
-- The rounds of `run` (internal/checkerctrl/controller.go), with what the provider of settings
-- returned in each: what is in force after them.
use govnilo.Prelude.{
  ℕ, ◌+◌, ◌≡◌, refl, sym, ap, ◌∙◌, ◌↔◌, string_eq, List, [], ◌∷◌, ◌++◌, map, All, All-mono, Option,
  none, some, String, ◌⊎◌, inl, inr, lookup, insert, lookup-insert_known, Outcome, ok, err, panic,
  Option-cases,
}
use govnilo.Floats.{Floats}
use govnilo.RateLimit.{RateLibrary}
use govnilo.Proto.{Settings}
use govnilo.RateRunner.{RateRunner, TaskSpec, RunOptions, set_options}
use govnilo.RateRunner
use govnilo.SettingsProvider.{validate}
use govnilo.CheckerCtrl.{
  Controller, Error, options_for, apply_options, set_on_spec, sync_checkers, sync_state,
}
use govnilo.CheckerCtrl.Helpers.{CheckerId}
use govnilo.CheckerCtrl.Points.{normalize_points}
use govnilo.CheckerCtrl.Sync.{IsHandled, HasOptions, sync_state_applies}
use govnilo.CheckerCtrl.Registered.{IsRegistered}

module _ {fl : Floats} {lib : RateLibrary fl} where
  -- Nil settings have no services, and are stored as they are.
  unfoldable pub forget_settings :
      {E : Type 0}
      → Controller fl lib × Outcome (Error E) (Unit {0})
      → Controller fl lib × Outcome (Error E) (Unit {0})
  forget_settings (c, o) = (record c { current_settings = none }, o)

  -- A round of `run`, whose error is only logged.
  unfoldable pub round :
      {E : Type 0} → Controller fl lib → E ⊎ Option (Settings fl.F) → Controller fl lib
  unfolding forget_settings
  round c (inl e) = (sync_state c (err e)).0
  round {E} c (inr none) =
      (forget_settings (sync_state {E = E} c (ok (record { services = [] })))).0
  round {E} c (inr (some s)) = (sync_state {E = E} c (ok s)).0

  unfoldable pub rounds :
      {E : Type 0} → Controller fl lib → List (E ⊎ Option (Settings fl.F)) → Controller fl lib
  unfolding round
  rounds c [] = c
  rounds c (r ∷ rs) = rounds (round c r) rs

  -- The rate runner has the same tasks, and its task runner is untouched.
  pub record IsSameTasks (r r' : RateRunner fl lib) : Type 0 where
    pub runner : r'.tr ≡ r.tr
    pub tasks : (name : String) → (lookup name r'.tasks ≡ none) ↔ (lookup name r.tasks ≡ none)

  pub IsSameTasks-self : (r : RateRunner fl lib) → IsSameTasks r r
  IsSameTasks-self r = record { runner = refl; tasks = λ name. ((λ h. h), λ h. h) }

  written-IsSameTasks :
      (r : RateRunner fl lib) (k : String) (t t' : TaskSpec fl lib)
      → lookup k r.tasks ≡ some t
      → IsSameTasks r (record r { tasks = insert k t' r.tasks })
  written-IsSameTasks r k t t' there = record {
    runner = refl;
    tasks = λ name. lookup-insert_known k name t' t r.tasks there;
  }

  IsSameTasks-trans :
      {r s t : RateRunner fl lib} → IsSameTasks r s → IsSameTasks s t → IsSameTasks r t
  IsSameTasks-trans a b = record {
    runner = b.runner ∙ a.runner;
    tasks = λ name.
        ((λ h. (a.tasks name).0 ((b.tasks name).0 h)), λ h. (b.tasks name).1 ((a.tasks name).1 h));
  }

  set_on_spec-IsSameTasks :
      (r : RateRunner fl lib) (k : String) (t : TaskSpec fl lib)
      (set : TaskSpec fl lib × Outcome RateRunner.Error (Unit {0}))
      → lookup k r.tasks ≡ some t
      → IsSameTasks r (set_on_spec r k set).0
  unfolding set_on_spec
  set_on_spec-IsSameTasks r k t (t', ok _) there = written-IsSameTasks r k t t' there
  set_on_spec-IsSameTasks r k t (t', err _) there = written-IsSameTasks r k t t' there
  set_on_spec-IsSameTasks r k t (t', panic) there = IsSameTasks-self r

  pub apply_options-IsSameTasks :
      (r : RateRunner fl lib) (handle : Option String) (options : RunOptions)
      → IsSameTasks r (apply_options r handle options).0
  unfolding apply_options
  apply_options-IsSameTasks r none options = IsSameTasks-self r
  apply_options-IsSameTasks r (some k) options = elim (Option-cases (lookup k r.tasks)) [
    | inl gone ↦ rw (gone, apply_options) (IsSameTasks-self r)
    | inr (t, there) ↦
        rw (there, apply_options)
          (set_on_spec-IsSameTasks r k t (set_options fl lib t options) there)
  ]

  sync_checkers-IsSameTasks :
      (settings : Settings fl.F) (checkers : List (CheckerId × Option String))
      (r : RateRunner fl lib) (errors : ℕ)
      → IsSameTasks r (sync_checkers settings checkers r errors).0
  unfolding sync_checkers
  sync_checkers-IsSameTasks settings [] r errors = IsSameTasks-self r
  sync_checkers-IsSameTasks settings ((id, handle) ∷ checkers) r errors =
      let options = options_for settings id in
      let (r', failed) = apply_options r handle options in
      IsSameTasks-trans (apply_options-IsSameTasks r handle options)
        (sync_checkers-IsSameTasks settings checkers r' (errors + failed))

  module _ (p : fl.F) where
    IsHandled-later :
        (r r' : RateRunner fl lib) (handle : Option String)
        → IsSameTasks r r'
        → IsHandled r handle
        → IsHandled r' handle
    IsHandled-later r r' none same h = h
    IsHandled-later r r' (some k) same h = λ gone. h ((same.tasks k).0 gone)

    pub same-IsRegistered :
        (c : Controller fl lib) (r' : RateRunner fl lib) (current : Option (Settings fl.F))
        → IsSameTasks c.rr r'
        → IsRegistered p c
        → IsRegistered p (record c { current_settings = current; rr = r' })
    same-IsRegistered c r' current same good = record {
      agree = λ name. (
        (λ h.
            ap (λ t. lookup name t.tasks) same.runner
            ∙ (good.agree name).0 ((same.tasks name).0 h)),
        λ h.
            (same.tasks name).1
              ((good.agree name).1 (sym (ap (λ t. lookup name t.tasks) same.runner) ∙ h)),
      );
      handled =
          All-mono (λ x. IsHandled c.rr (x.1)) (λ x. IsHandled r' (x.1)) c.checkers
            (λ x. IsHandled-later c.rr r' (x.1) same) good.handled;
      distinct = good.distinct;
    }

    pub round-IsRegistered :
        {E : Type 0} (c : Controller fl lib) (r : E ⊎ Option (Settings fl.F))
        → IsRegistered p c
        → IsRegistered p (round c r) × ((round c r).checkers ≡ c.checkers)
    unfolding round sync_state
    round-IsRegistered c (inl e) good = (good, refl)
    round-IsRegistered c (inr none) good = (
      same-IsRegistered c _ none
          (sync_checkers-IsSameTasks (normalize_points fl lib (record { services = [] })) c.checkers
            c.rr 0)
          good,
      refl,
    )
    round-IsRegistered c (inr (some s)) good = (
      same-IsRegistered c _ (some (normalize_points fl lib s))
          (sync_checkers-IsSameTasks (normalize_points fl lib s) c.checkers c.rr 0) good,
      refl,
    )

    rounds-IsRegistered :
        {E : Type 0} (c : Controller fl lib) (rs : List (E ⊎ Option (Settings fl.F)))
        → IsRegistered p c
        → IsRegistered p (rounds c rs) × ((rounds c rs).checkers ≡ c.checkers)
    unfolding rounds
    rounds-IsRegistered c [] good = (good, refl)
    rounds-IsRegistered c (r ∷ rs) good =
        let (now, same) = round-IsRegistered c r good in
        let (later, kept) = rounds-IsRegistered (round c r) rs now in (later, kept ∙ same)

  rounds-append :
      {E : Type 0} (c : Controller fl lib) (rs qs : List (E ⊎ Option (Settings fl.F)))
      → rounds c (rs ++ qs) ≡ rounds (rounds c rs) qs
  unfolding rounds
  rounds-append c [] qs = refl
  rounds-append c (r ∷ rs) qs = rounds-append (round c r) rs qs

  -- Rounds whose provider fails change nothing.
  rounds_failed :
      {E : Type 0} (c : Controller fl lib) (es : List E) → rounds c (map (λ e. inl e) es) ≡ c
  unfolding rounds round sync_state
  rounds_failed c [] = refl
  rounds_failed c (e ∷ es) = rounds_failed c es

  -- For a controller set up by `New`, after any rounds the settings that the provider returned last
  -- are in force, if they were valid: they are stored with their points scaled, and every checker's
  -- task has the options that they ask of it, however often the provider failed since.
  pub rounds_in_force :
      {E : Type 0} (p : fl.F) (c : Controller fl lib) (before : List (E ⊎ Option (Settings fl.F)))
      (s : Settings fl.F) (failures : List E)
      → IsRegistered p c
      → validate s ≡ none
      → let s' = normalize_points fl lib s in
        let c' = rounds c (before ++ inr (some s) ∷ map (λ e. inl e) failures) in
        (c'.checkers ≡ c.checkers)
        × (c'.current_settings ≡ some s')
        × All (λ x. HasOptions c'.rr (x.1) (options_for s' (x.0))) c'.checkers
  unfolding rounds round
  rounds_in_force {E} p c before s failures good valid =
      let c1 = rounds c before in
      let (fine, kept) = rounds-IsRegistered p c before good in
      let c2 = round {E = E} c1 (inr (some s)) in
      let end : rounds c (before ++ inr (some s) ∷ map (λ e. inl e) failures) ≡ c2 =
        rounds-append c before (inr (some s) ∷ map (λ e. inl e) failures)
        ∙ rounds_failed c2 failures in
      let (_, stores, sets) = sync_state_applies {E = E} c1 s valid fine.handled fine.distinct in
      rw end ((round-IsRegistered p {E = E} c1 (inr (some s)) fine).1 ∙ kept, stores, sets)
