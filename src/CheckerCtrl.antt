-- ===== src/CheckerCtrl.antt =====
-- internal/checkerctrl: the controller that turns settings into the rates at which checkers run, and
-- the task that runs one checker and counts what comes of it.
pub mod Helpers
pub mod Points
pub mod Task
pub mod Described
pub mod MetricNames
pub mod Normalize
pub mod Counting
pub mod Sync
pub mod Registration
pub mod Registered
pub mod Handles
pub mod Collision
pub mod Rounds
pub mod System
pub mod Fresh
pub mod Applied
pub mod InForce
pub mod Undisturbed
pub mod Lifecycle
use govnilo.Prelude.{
  ℕ, suc, ℤ, pos, ◌+◌, ◌==◌, nat_eq, string_eq, Bool, ◌&&◌, if◌then◌else◌, List, [], ◌∷◌, Option,
  none, some, String, lookup, insert, Outcome, ok, err, panic,
}
use govnilo.Floats.{Floats}
use govnilo.RateLimit.{RateLibrary}
use govnilo.Proto.{Settings, CheckerSettings}
use govnilo.RateRunner.{
  RateRunner, TaskSpec, RunOptions, set_options, register, new_rate_runner, zero_rate,
}
use govnilo.RateRunner
use Helpers.{CheckerId, checker_id_eq, service_map, checkers_map, options_of}
use Points.{normalize_points}

-- A handle points to the `taskSpec` of an id, or is nil.
pub record Controller (fl : Floats) (lib : RateLibrary fl) : Type 0 where
  pub checkers : List (CheckerId × Option String)
  pub current_settings : Option (Settings fl.F)
  pub rr : RateRunner fl lib

pub data Error (E : Type 0) : Type 0 where
  no_settings : E → Error E  -- "cannot receive routines state from storage"
  not_applied : ℕ → Error E  -- how many errors `syncState` collected

-- The options that the settings ask of a checker; a rate of nothing for one that they lack.
pub options_for : {F : Type 0} → Settings F → CheckerId → RunOptions
unfolding options_of
options_for settings id = elim (lookup id.service (service_map settings)) [
  | none ↦ record { rate = zero_rate; max_goroutines = pos 0 }
  | some svc ↦ options_of (lookup id.name (checkers_map svc.checkers))
]

pub sync_outcome : {E : Type 0} → ℕ → Outcome (Error E) (Unit {0})
sync_outcome errors = if errors == 0 then ok tt else err (not_applied errors)

module _ {fl : Floats} {lib : RateLibrary fl} where
  -- `handle.SetOptions`, on the spec that the handle points to, and whether it fails.
  unfoldable pub set_on_spec :
      RateRunner fl lib
      → String
      → TaskSpec fl lib × Outcome RateRunner.Error (Unit {0})
      → RateRunner fl lib × ℕ
  set_on_spec rr handle (t, ok _) = (record rr { tasks = insert handle t rr.tasks }, 0)
  set_on_spec rr handle (t, err _) = (record rr { tasks = insert handle t rr.tasks }, 1)
  set_on_spec rr handle (t, panic) = (rr, 0)

  -- The last part of the loop's body. A handle's spec is never taken out of the runner, so the
  -- second case of the inner `elim` alone is met.
  pub apply_options : RateRunner fl lib → Option String → RunOptions → RateRunner fl lib × ℕ
  unfolding set_on_spec
  apply_options rr none options = (rr, 1)
  apply_options rr (some handle) options = elim (lookup handle rr.tasks) [
    | none ↦ (rr, 0)
    | some t ↦ set_on_spec rr handle (set_options fl lib t options)
  ]

  -- The loop over the checkers, with the count of errors.
  pub sync_checkers :
      Settings fl.F
      → List (CheckerId × Option String)
      → RateRunner fl lib
      → ℕ
      → RateRunner fl lib × ℕ
  sync_checkers settings [] rr errors = (rr, errors)
  sync_checkers settings ((id, handle) ∷ checkers) rr errors =
      let (rr', failed) = apply_options rr handle (options_for settings id) in
      sync_checkers settings checkers rr' (errors + failed)

  -- `syncState`, with what `GetSettings` returns.
  unfoldable pub sync_state :
      {E : Type 0}
      → Controller fl lib
      → Outcome E (Settings fl.F)
      → Controller fl lib × Outcome (Error E) (Unit {0})
  unfolding sync_checkers sync_outcome
  sync_state c (err e) = (c, err (no_settings e))
  sync_state c panic = (c, panic)
  sync_state c (ok settings) =
      let settings' = normalize_points fl lib settings in
      let (rr', errors) = sync_checkers settings' c.checkers c.rr 0 in
      (record c { current_settings = some settings'; rr = rr' }, sync_outcome errors)
