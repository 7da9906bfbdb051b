-- ===== src/Startup/Run.antt =====
-- The command `run` (internal/cmd/cmd/run/run.go) and `Execute` (internal/cmd/cmd/root.go). The
-- application that dependency injection builds is a parameter; what ends the wait of the command is
-- an argument. The profiling server is left out.
use govnilo.Prelude.{ℕ, ◌≡◌, refl, ◌↔◌, List, [], ◌∷◌, Option, none, some, String, arith}

-- `fx.App`
pub record App (S E : Type 0) : Type 0 where
  pub start : S → S × Option E
  pub stop : S → S × Option E

-- The case of the `select` of `RunCmd`.
pub data Ended : Type 0 where
  got_signal : Ended
  app_done : String → Ended

pub data RunError (E : Type 0) : Type 0 where
  cannot_start cannot_stop : E → RunError E

pub data Message : Type 0 where
  shutdown_signal shuted_down : Message
  ended_work : String → Message

abbrev pub ended_message : Ended → Message
ended_message got_signal = shutdown_signal
ended_message (app_done signal) = ended_work signal

module _ {S E : Type 0} where
  -- From `app.Stop` on.
  stopped : Message → S × Option E → S × List Message × Option (RunError E)
  stopped m (s, none) = (s, m ∷ shuted_down ∷ [], none)
  stopped m (s, some e) = (s, m ∷ [], some (cannot_stop e))

  started : App S E → Ended → S × Option E → S × List Message × Option (RunError E)
  unfolding stopped
  started app ended (s, none) = stopped (ended_message ended) (app.stop s)
  started app ended (s, some e) = (s, [], some (cannot_start e))

  pub run_cmd : App S E → Ended → S → S × List Message × Option (RunError E)
  unfolding started
  run_cmd app ended s = started app ended (app.start s)

-- How the process ends: with a code, or by a panic of `PrintJson`, which cannot write the message.
pub data Exit : Type 0 where
  code : ℕ → Exit
  panics : Exit

-- `Execute`, by the error of the command and the error of writing its message.
pub execute : {A B : Type 0} → Option A → Option B → Exit
execute none unwritten = code 0
execute (some e) none = code 1
execute (some e) (some w) = panics

module _ {S E B : Type 0} (app : App S E) (ended : Ended) where
  stopped_exit :
      (m : Message) (r : S × Option E) (unwritten : Option B)
      → (execute (stopped m r).2 unwritten ≡ code 0) ↔ (r.1 ≡ none)
  unfolding stopped execute
  stopped_exit m (s, none) unwritten = ((λ h. refl), λ h. refl)
  stopped_exit m (s, some e) none = ((λ h. ground arith), λ h. ground arith)
  stopped_exit m (s, some e) (some w) = ((λ h. ground arith), λ h. ground arith)

  started_exit :
      (r : S × Option E) (unwritten : Option B)
      → (execute (started app ended r).2 unwritten ≡ code 0)
        ↔ ((r.1 ≡ none) × ((app.stop (r.0)).1 ≡ none))
  unfolding started execute
  started_exit (s, none) unwritten =
      let (to, from) = stopped_exit (ended_message ended) (app.stop s) unwritten in
      ((λ h. (refl, to h)), λ h. from (h.1))
  started_exit (s, some e) none = ((λ h. ground arith), λ h. ground arith)
  started_exit (s, some e) (some w) = ((λ h. ground arith), λ h. ground arith)

  -- The process exits with code 0 exactly if the application started and stopped without an error,
  -- whatever ended it.
  pub run_exit :
      (s : S) (unwritten : Option B)
      → (execute (run_cmd app ended s).2 unwritten ≡ code 0)
        ↔ (((app.start s).1 ≡ none) × ((app.stop (app.start s).0).1 ≡ none))
  unfolding run_cmd
  run_exit s unwritten = started_exit (app.start s) unwritten
