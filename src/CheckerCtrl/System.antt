-- ===== src/CheckerCtrl/System.antt =====
-- internal/checkerctrl/controller.go: what `Start` sets going. The calls of a round of `run`, with
-- what the provider of settings returns in each, interleave with the loop of the rate runner's `Run`
-- and with the goroutines that run the checkers: `syncState` stores the settings first and sets the
-- options of one checker after the other then, with nothing locked meanwhile.
use govnilo.Prelude.{◌≡◌, List, [], ◌∷◌, Option, none, some, String, ◌⊎◌, inl, inr, ok}
use govnilo.Floats.{Floats}
use govnilo.RateLimit.{RateLibrary}
use govnilo.Proto.{Settings}
use govnilo.RateRunner.{RateRunner}
use govnilo.RateRunner.Steps.{Background}
use govnilo.AdminClient
use govnilo.SettingsSource.{get_settings_file, get_settings_admin}
use govnilo.SettingsSource
use govnilo.SettingsSource.Text.{Clock, Files}
use govnilo.CheckerCtrl.{Controller, options_for, apply_options}
use govnilo.CheckerCtrl.Helpers.{CheckerId}
use govnilo.CheckerCtrl.Points.{normalize_points}
use govnilo.CheckerCtrl.Registration.{new_controller}

-- Where the loop of `run` stands: between two rounds, or in the loop of `syncState`, with the
-- settings that it reads and the checkers that are still to come.
pub data Phase (F : Type 0) : Type 0 where
  idle : Phase F
  syncing : Settings F → List (CheckerId × Option String) → Phase F

-- What a provider of settings returns: the one that reads a file, or the one that asks the admin
-- service, whatever that answers.
pub data IsProvided {fl : Floats} (clock : Clock fl) {D J S E : Type 0} (files : Files fl D J S E)
    : SettingsSource.Error E ⊎ Option (Settings fl.F) → Type 0 where
  by_file : (path : String) → IsProvided clock files (get_settings_file clock files path)
  by_admin :
      (r : AdminClient.Error E ⊎ Option (Settings fl.F))
      → IsProvided clock files (get_settings_admin r)

-- What the loop reads: nil settings have no services.
abbrev pub settings_read : (fl : Floats) → RateLibrary fl → Option (Settings fl.F) → Settings fl.F
settings_read fl lib none = normalize_points fl lib (record { services = [] })
settings_read fl lib (some s) = normalize_points fl lib s

module _ {fl : Floats} {lib : RateLibrary fl} where
  -- `Store`. Nil settings are stored as they are.
  abbrev pub store : Controller fl lib → Option (Settings fl.F) → Controller fl lib
  store c none = record c { current_settings = none }
  store c (some s) = record c { current_settings = some (normalize_points fl lib s) }

  -- One turn of the loop.
  abbrev pub set_next :
      Controller fl lib → Settings fl.F → CheckerId → Option String → Controller fl lib
  set_next c settings id handle = record c {
    rr = (apply_options c.rr handle (options_for settings id)).0;
  }

module _ (fl : Floats) (lib : RateLibrary fl) (quantile : fl.F → List fl.F → fl.F) (p : fl.F)
    (clock : Clock fl) {D J S E : Type 0} (files : Files fl D J S E) where
  pub data Step : Controller fl lib → Phase fl.F → Controller fl lib → Phase fl.F → Type 0 where
    fails :
        (c : Controller fl lib) (e : SettingsSource.Error E)
        → IsProvided clock files (inl e)
        → Step c idle c idle
    stores :
        (c : Controller fl lib) (r : Option (Settings fl.F))
        → IsProvided clock files (inr r)
        → Step c idle (store c r) (syncing (settings_read fl lib r) c.checkers)
    sets :
        (c : Controller fl lib) (settings : Settings fl.F) (id : CheckerId) (handle : Option String)
        (pending : List (CheckerId × Option String))
        → Step c
            (syncing settings ((id, handle) ∷ pending))
            (set_next c settings id handle)
            (syncing settings pending)
    returns :
        (c : Controller fl lib) (settings : Settings fl.F) → Step c (syncing settings []) c idle
    proceeds :
        (c : Controller fl lib) (phase : Phase fl.F) (r' : RateRunner fl lib)
        → Background fl lib quantile p E c.rr r'
        → Step c phase (record c { rr = r' }) phase

  pub data Reach : Controller fl lib → Phase fl.F → Type 0 where
    starts :
        (metered ids : List CheckerId) (c : Controller fl lib)
        → new_controller fl lib p metered ids ≡ ok c
        → Reach c idle
    steps :
        {c c' : Controller fl lib} {phase phase' : Phase fl.F}
        → Reach c phase
        → Step c phase c' phase'
        → Reach c' phase'
