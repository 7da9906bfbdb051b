-- ===== src/CheckerCtrl/Applied.antt =====
-- What the calls of a round keep, one by one: the counts of the tasks, and the settings that are in
-- force on the checkers that the loop of `syncState` (internal/checkerctrl/controller.go) has been
-- through.
use mathlib.Core.Path.{subst}
use govnilo.Prelude.{
  ◌≡◌, refl, sym, ◌∙◌, ◌≢◌, string_eq, List, [], ◌∷◌, ◌++◌, All, All-mono, All-append, Option, none,
  some, String, inl, inr, lookup, Outcome, ok, err, panic, arith, Option-cases,
}
use govnilo.Floats.{Floats}
use govnilo.RateLimit.{RateLibrary}
use govnilo.Proto.{Settings}
use govnilo.RateRunner.{RateRunner, TaskSpec, RunOptions, set_options, register}
use govnilo.RateRunner
use govnilo.RateRunner.Counted.{IsCounted, written-IsCounted}
use govnilo.RateRunner.Counts.{set_options-kept}
use govnilo.RateRunner.Options.{KeepsOptions}
use govnilo.SettingsSource.Passed.{IsPassed}
use govnilo.SettingsProvider.Valid.{IsValid, validate-iff-IsValid}
use govnilo.CheckerCtrl.{Controller, options_for, apply_options, set_on_spec}
use govnilo.CheckerCtrl.Helpers.{CheckerId, checker_id_eq}
use govnilo.CheckerCtrl.Points.{normalize_points}
use govnilo.CheckerCtrl.Normalize.{normalize_points-IsValid}
use govnilo.CheckerCtrl.Registered.{IsRegistered}
use govnilo.CheckerCtrl.Rounds.{IsSameTasks-self, same-IsRegistered}
use govnilo.CheckerCtrl.Sync.{
  IsHandled, HasOptions, DistinctHandles, options_for_per, apply_options_lem,
}
use govnilo.CheckerCtrl.System.{Phase, idle, syncing, settings_read, store, set_next}

All-middle :
    {A : Type 0} (P : A → Type 0) (xs : List A) (y : A) (ys : List A) → All P (xs ++ y ∷ ys) → P y
All-middle P [] y ys h = h.0
All-middle P (x ∷ xs) y ys h = All-middle P xs y ys h.1

-- A handle is none of those before it.
DistinctHandles-before :
    (xs : List (CheckerId × Option String)) (id : CheckerId) (handle : Option String)
    (ys : List (CheckerId × Option String))
    → DistinctHandles (xs ++ (id, handle) ∷ ys)
    → All (λ x. x.1 ≢ handle) xs
DistinctHandles-before [] id handle ys h = tt
DistinctHandles-before ((i, other) ∷ xs) id handle ys h = (
  All-middle (λ c. other ≢ c.1) xs (id, handle) ys h.0,
  DistinctHandles-before xs id handle ys h.1,
)

module _ {fl : Floats} {lib : RateLibrary fl} where
  -- The rounds of `run` keep the counts.
  set_on_spec-IsCounted :
      (r : RateRunner fl lib) (k : String) (t : TaskSpec fl lib)
      (set : TaskSpec fl lib × Outcome RateRunner.Error (Unit {0}))
      → lookup k r.tasks ≡ some t
      → set.0.id ≡ t.id
      → set.0.current_instances ≡ t.current_instances
      → IsCounted r
      → IsCounted (set_on_spec r k set).0
  unfolding set_on_spec
  set_on_spec-IsCounted r k t (t', ok _) there id count good =
      written-IsCounted r k t t' there id count good
  set_on_spec-IsCounted r k t (t', err _) there id count good =
      written-IsCounted r k t t' there id count good
  set_on_spec-IsCounted r k t (t', panic) there id count good = good

  pub apply_options-IsCounted :
      (r : RateRunner fl lib) (handle : Option String) (options : RunOptions)
      → IsCounted r
      → IsCounted (apply_options r handle options).0
  unfolding apply_options
  apply_options-IsCounted r none options good = good
  apply_options-IsCounted r (some k) options good = elim (Option-cases (lookup k r.tasks)) [
    | inl gone ↦ rw (gone, apply_options) good
    | inr (t, there) ↦
        let (id, count) = set_options-kept t options in
        rw (there, apply_options)
          (set_on_spec-IsCounted r k t (set_options fl lib t options) there id count good)
  ]

  -- Options and tasks that are kept.
  HasOptions-kept :
      (r r' : RateRunner fl lib) (handle : Option String) (o : RunOptions)
      → KeepsOptions r r'
      → HasOptions r handle o
      → HasOptions r' handle o
  HasOptions-kept r r' none o kept h = h
  HasOptions-kept r r' (some k) o kept (t, there, same) =
      let (t', now, still) = kept k t there in (t', now, still ∙ same)

  pub IsHandled-kept :
      (r r' : RateRunner fl lib) (handle : Option String)
      → KeepsOptions r r'
      → IsHandled r handle
      → IsHandled r' handle
  IsHandled-kept r r' none kept h = h
  IsHandled-kept r r' (some k) kept h = elim (Option-cases (lookup k r.tasks)) [
    | inl gone ↦ absurd (h gone)
    | inr (t, there) ↦ λ gone. let (t', now, _) = kept k t there in absurd (cc (now, gone))
  ]

  -- The settings are in force on the tasks of these checkers.
  abbrev pub AreSet : Controller fl lib → Settings fl.F → List (CheckerId × Option String) → Type 0
  AreSet c s checkers = All (λ x. HasOptions c.rr (x.1) (options_for s (x.0))) checkers

  AreSet-kept :
      (c : Controller fl lib) (r' : RateRunner fl lib) (s : Settings fl.F)
      (checkers : List (CheckerId × Option String))
      → KeepsOptions c.rr r'
      → AreSet c s checkers
      → AreSet (record c { rr = r' }) s checkers
  AreSet-kept c r' s checkers kept =
      All-mono (λ x. HasOptions c.rr (x.1) (options_for s (x.0)))
        (λ x. HasOptions r' (x.1) (options_for s (x.0))) checkers
        (λ x. HasOptions-kept c.rr r' (x.1) (options_for s (x.0)) kept)

  -- Between two rounds the settings are in force on every task; during a round, on those of the
  -- checkers that its loop has been through.
  abbrev pub IsApplied : Controller fl lib → Phase fl.F → Settings fl.F → Type 0
  IsApplied c idle s = AreSet c s c.checkers
  IsApplied c (syncing u pending) s =
      (u ≡ s)
      × (done : List (CheckerId × Option String)) × (c.checkers ≡ done ++ pending)
      × AreSet c s done

  pub record IsInForce (p : fl.F) (c : Controller fl lib) (phase : Phase fl.F) : Type 0 where
    pub counted : IsCounted c.rr
    pub registered : IsRegistered p c
    pub valid : (s : Settings fl.F) → c.current_settings ≡ some s → IsValid s
    pub applied : (s : Settings fl.F) → c.current_settings ≡ some s → IsApplied c phase s

  pub IsApplied-kept :
      (c : Controller fl lib) (r' : RateRunner fl lib) (phase : Phase fl.F) (s : Settings fl.F)
      → KeepsOptions c.rr r'
      → IsApplied c phase s
      → IsApplied (record c { rr = r' }) phase s
  IsApplied-kept c r' idle s kept all = AreSet-kept c r' s c.checkers kept all
  IsApplied-kept c r' (syncing u pending) s kept (it, done, split, has) =
      (it, done, split, AreSet-kept c r' s done kept has)

  -- A store.
  pub store-IsInForce :
      (E : Type 0) (p : fl.F) (c : Controller fl lib) (r : Option (Settings fl.F))
      → IsPassed {E = E} (inr r)
      → IsInForce p c idle
      → IsInForce p (store c r) (syncing (settings_read fl lib r) c.checkers)
  store-IsInForce E p c none passed good = record {
    counted = good.counted;
    registered = same-IsRegistered p c c.rr none (IsSameTasks-self c.rr) good.registered;
    valid = λ s h. ground (arith, h);
    applied = λ s h. ground (arith, h);
  }
  store-IsInForce E p c (some u) passed good =
      let fine = normalize_points-IsValid fl lib u ((validate-iff-IsValid u).0 passed) in
      record {
        counted = good.counted;
        registered = same-IsRegistered p c c.rr _ (IsSameTasks-self c.rr) good.registered;
        valid = λ s h. let it : normalize_points fl lib u ≡ s = cc h in subst IsValid it fine;
        applied = λ s h. (cc h, [], refl, tt);
      }

  others-AreSet :
      (c : Controller fl lib) (s : Settings fl.F) (r' : RateRunner fl lib) (handle : Option String)
      (done : List (CheckerId × Option String))
      → ((other : Option String) (o : RunOptions)
          → handle ≢ other
          → HasOptions c.rr other o
          → HasOptions r' other o)
      → All (λ x. x.1 ≢ handle) done
      → AreSet c s done
      → AreSet (record c { rr = r' }) s done
  others-AreSet c s r' handle [] kept apart has = tt
  others-AreSet c s r' handle ((id, other) ∷ done) kept apart has = (
    kept other (options_for s id) (λ e. apart.0 (sym e)) has.0,
    others-AreSet c s r' handle done kept apart.1 has.1,
  )

  -- One turn of the loop, which sets the options of one checker and lets the others be.
  pub set_next-AreSet :
      (c : Controller fl lib) (s : Settings fl.F) (id : CheckerId) (handle : Option String)
      (done pending : List (CheckerId × Option String))
      → IsValid s
      → All (λ x. IsHandled c.rr (x.1)) (done ++ (id, handle) ∷ pending)
      → DistinctHandles (done ++ (id, handle) ∷ pending)
      → AreSet c s done
      → AreSet (set_next c s id handle) s (done ++ (id, handle) ∷ [])
  set_next-AreSet c s id handle done pending valid handled distinct before =
      let here = All-middle (λ x. IsHandled c.rr (x.1)) done (id, handle) pending handled in
      let (_, set, _, kept) =
        apply_options_lem c.rr handle (options_for s id) here (options_for_per s id valid) in
      let r' = (apply_options c.rr handle (options_for s id)).0 in
      All-append (λ x. HasOptions r' (x.1) (options_for s (x.0))) done ((id, handle) ∷ [])
        (others-AreSet c s r' handle done kept
          (DistinctHandles-before done id handle pending distinct) before)
        (set, tt)
