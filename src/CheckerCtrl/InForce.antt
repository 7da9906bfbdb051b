-- ===== src/CheckerCtrl/InForce.antt =====
-- What holds of a controller at any time after `New`: the counts of its tasks, and the settings that
-- are in force.
use mathlib.Core.List.{append_assoc, append-nil}
use govnilo.Prelude.{
  ◌≡◌, sym, ◌∙◌, string_eq, List, [], ◌∷◌, ◌++◌, All-mono, Option, some, String, ◌⊎◌, inl, lookup,
}
use govnilo.Floats.{Floats}
use govnilo.RateLimit.{RateLibrary}
use govnilo.Proto.{Settings}
use govnilo.RateRunner.{TaskSpec}
use govnilo.RateRunner.Adjust.{Runs}
use govnilo.RateRunner.Counts.{Background-IsCounted}
use govnilo.RateRunner.Options.{Background-KeepsOptions}
use govnilo.AdminClient.{not_known}
use govnilo.SettingsSource
use govnilo.SettingsSource.Text.{Clock, Files}
use govnilo.SettingsSource.Passed.{IsPassed, get_settings-IsPassed}
use govnilo.CheckerCtrl.{Controller, options_for}
use govnilo.CheckerCtrl.Helpers.{checker_id_eq}
use govnilo.CheckerCtrl.Registered.{new_controller-IsRegistered}
use govnilo.CheckerCtrl.Rounds.{apply_options-IsSameTasks, same-IsRegistered}
use govnilo.CheckerCtrl.Sync.{IsHandled}
use govnilo.CheckerCtrl.System.{
  IsProvided, by_file, by_admin, Phase, Step, fails, stores, sets, returns, proceeds, Reach, starts,
  steps,
}
use govnilo.CheckerCtrl.Fresh.{new_controller-IsFresh}
use govnilo.CheckerCtrl.Applied.{
  IsApplied, IsInForce, IsApplied-kept, store-IsInForce, set_next-AreSet, apply_options-IsCounted,
  IsHandled-kept,
}

IsProvided-IsPassed :
    {fl : Floats} {clock : Clock fl} {D J S E : Type 0} {files : Files fl D J S E}
    {r : SettingsSource.Error E ⊎ Option (Settings fl.F)}
    → IsProvided clock files r
    → IsPassed r
IsProvided-IsPassed {clock = clock} {files = files} (by_file path) =
    (get_settings-IsPassed clock files path (inl not_known)).0
IsProvided-IsPassed {clock = clock} {files = files} (by_admin r) =
    (get_settings-IsPassed clock files "" r).1

module _ {fl : Floats} {lib : RateLibrary fl} where
  module _ {quantile : fl.F → List fl.F → fl.F} {p : fl.F} {clock : Clock fl} {D J S E : Type 0}
      {files : Files fl D J S E} where
    Step-IsInForce :
        {c c' : Controller fl lib} {phase phase' : Phase fl.F}
        → Step fl lib quantile p clock files c phase c' phase'
        → IsInForce p c phase
        → IsInForce p c' phase'
    Step-IsInForce (fails c e given) good = good
    Step-IsInForce (stores c r given) good =
        store-IsInForce (SettingsSource.Error E) p c r (IsProvided-IsPassed given) good
    Step-IsInForce (sets c u id handle pending) good = record {
      counted = apply_options-IsCounted c.rr handle (options_for u id) good.counted;
      registered =
          same-IsRegistered p c _ c.current_settings
            (apply_options-IsSameTasks c.rr handle (options_for u id)) good.registered;
      valid = good.valid;
      applied = λ s h.
          let (it, done, split, has) = good.applied s h in
          (
            it,
            done ++ (id, handle) ∷ [],
            split ∙ sym (append_assoc done ((id, handle) ∷ []) pending),
            rw it (
                set_next-AreSet c s id handle done pending (good.valid s h)
                  (rw (← split) good.registered.handled) (rw (← split) good.registered.distinct)
                  has),
          );
    }
    Step-IsInForce (returns c u) good = record {
      counted = good.counted;
      registered = good.registered;
      valid = good.valid;
      applied = λ s h. let (_, done, split, has) = good.applied s h in rw (split, append-nil) has;
    }
    Step-IsInForce (proceeds c phase r' step) good =
        let kept = Background-KeepsOptions step in
        let counted = Background-IsCounted step good.counted in
        record {
          counted = counted;
          registered = record {
            agree = counted.agree;
            handled =
                All-mono (λ x. IsHandled c.rr (x.1)) (λ x. IsHandled r' (x.1)) c.checkers
                  (λ x. IsHandled-kept c.rr r' (x.1) kept) good.registered.handled;
            distinct = good.registered.distinct;
          };
          valid = good.valid;
          applied = λ s h. IsApplied-kept c r' phase s kept (good.applied s h);
        }

    Reach-IsInForce :
        {c : Controller fl lib} {phase : Phase fl.F}
        → Reach fl lib quantile p clock files c phase
        → IsInForce p c phase
    Reach-IsInForce (starts metered ids c made) =
        let (unset, counted) = new_controller-IsFresh p metered ids c made in
        record {
          counted = counted;
          registered = new_controller-IsRegistered p metered ids c made;
          valid = λ s h. absurd (cc (unset, h));
          applied = λ s h. absurd (cc (unset, h));
        }
    Reach-IsInForce (steps before step) = Step-IsInForce step (Reach-IsInForce before)

    -- At any time after `New`, in or between the rounds of the controller, with either provider of
    -- settings, whatever the file holds and whatever the admin service answers, and however the
    -- calls of a round, the loop of the rate runner and the runs of the checkers interleave, as long
    -- as stopped instances end in time and no task needs 2^63 of them: between two rounds the
    -- settings that are stored are in force on the task of every checker, during a round they are
    -- the ones that its loop applies and are in force on the tasks of the checkers that it has been
    -- through; and the task runner runs as many instances of every task as the rate runner counts.
    pub Reach_in_force :
        (c : Controller fl lib) (phase : Phase fl.F)
        → Reach fl lib quantile p clock files c phase
        → ((s : Settings fl.F) → c.current_settings ≡ some s → IsApplied c phase s)
          × ((name : String) (t : TaskSpec fl lib)
              → lookup name c.rr.tasks ≡ some t
              → Runs c.rr.tr name t.current_instances)
    Reach_in_force c phase reached =
        let good = Reach-IsInForce reached in
        (good.applied, λ name t h. (good.counted.each name t h).1)
