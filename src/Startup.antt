-- ===== src/Startup.antt =====
-- internal/fxbuild/constructors.go: `GetConstructors`, which every command that runs checkers starts
-- with, and the constructor of the configuration among those that it returns. Setting up a tracer is
-- a parameter, by the error of merging its resources.
pub mod Run
pub mod Servers
use govnilo.Prelude.{
  ◌≡◌, refl, sym, ap, ◌∙◌, string_eq, Eq, Option, none, some, String, inl, inr, Outcome, ok, err,
  panic, arith,
}
use govnilo.Configuration.{Config, Reader, Provider, read, pick_provider}
use govnilo.Configuration
use govnilo.Configuration.Usable.{IsUsable, IsConfigured, read-IsUsable}
use govnilo.Hzlog.{Handler}
use govnilo.Hzlog.Build.{Zap, build_logger, build_logger_mode, IsMode, build_logger-IsMode}
use govnilo.Hzlog.Build

-- Each ends the process with code 1.
pub data Exit (E : Type 0) : Type 0 where
  cannot_read_config : Configuration.Error E → Exit E
  cannot_build_logger : Build.Error E → Exit E
  cannot_merge_resource : E → Exit E

pub record Constructors (A H : Type 0) : Type 0 where
  pub logger : Option (Handler H)
  pub config : Config A
  pub provider : Provider A

module _ {A D E Z H : Type 0} ⦃same : Eq Z⦄ (reader : Reader A D E) (zap : Zap Z H E) where
  -- From the merging of the resources on.
  unfoldable pub finish_constructors :
      Config A → Option (Handler H) → Option E → Outcome (Exit E) (Constructors A H)
  finish_constructors c logger none =
      ok (record { logger = logger; config = c; provider = pick_provider c })
  finish_constructors c logger (some e) = err (cannot_merge_resource e)

  unfoldable pub with_logger :
      Config A
      → Option E
      → Outcome (Build.Error E) (Option (Handler H))
      → Outcome (Exit E) (Constructors A H)
  unfolding finish_constructors
  with_logger c merged (ok logger) = finish_constructors c logger merged
  with_logger c merged (err e) = err (cannot_build_logger e)
  with_logger c merged panic = panic

  unfoldable pub with_config :
      Option E → Outcome (Configuration.Error E) (Config A) → Outcome (Exit E) (Constructors A H)
  unfolding with_logger
  with_config merged (ok c) = with_logger c merged (build_logger zap c.logging)
  with_config merged (err e) = err (cannot_read_config e)
  with_config merged panic = panic

  unfoldable pub get_constructors : String → Option E → Outcome (Exit E) (Constructors A H)
  unfolding with_config
  get_constructors conf_path merged = with_config merged (read reader conf_path)

-- The constructor of the configuration logs it first; to do so by a nil logger panics.
unfoldable pub provide_config : {A H E : Type 0} → Constructors A H → Outcome (Exit E) (Config A)
provide_config cs = elim cs.logger [ none ↦ panic | some l ↦ ok cs.config ]

-- The configuration that the commands are given.
unfoldable pub start_with :
    {A H E : Type 0} → Outcome (Exit E) (Constructors A H) → Outcome (Exit E) (Config A)
unfolding provide_config
start_with (ok cs) = provide_config cs
start_with (err e) = err e
start_with panic = panic

module _ {A D E Z H : Type 0} ⦃same : Eq Z⦄ (reader : Reader A D E) (zap : Zap Z H E) where
  abbrev pub start : String → Option E → Outcome (Exit E) (Config A)
  start conf_path merged = start_with (get_constructors reader zap conf_path merged)

  with_logger-ok :
      (d c : Config A) (merged : Option E) (o : Outcome (Build.Error E) (Option (Handler H)))
      → start_with (with_logger reader zap d merged o) ≡ ok c
      → (d ≡ c) × (l : Handler H) × (o ≡ ok (some l))
  unfolding start_with with_logger
  with_logger-ok d c none (ok (some l)) h = (cc h, l, refl)
  with_logger-ok d c none (ok none) h = ground arith
  with_logger-ok d c (some e) (ok l) h = ground arith
  with_logger-ok d c merged (err e) h = ground arith
  with_logger-ok d c merged panic h = ground arith

  with_config-ok :
      (c : Config A) (merged : Option E) (r : Outcome (Configuration.Error E) (Config A))
      → start_with (with_config reader zap merged r) ≡ ok c
      → (r ≡ ok c) × (l : Handler H) × (build_logger zap c.logging ≡ ok (some l))
  unfolding with_config start_with
  with_config-ok c merged (ok d) h =
      let (it, l, built) = with_logger-ok d c merged (build_logger zap d.logging) h in
      (ap ok it, l, sym (ap (λ (x : Config A). build_logger zap x.logging) it) ∙ built)
  with_config-ok c merged (err e) h = ground arith
  with_config-ok c merged panic h = ground arith

  -- A configuration that the program starts with is usable, the provider of settings that is picked
  -- for it has its configuration, and its logging mode is one that `Build` knows.
  pub start-IsUsable :
      (conf_path : String) (merged : Option E) (c : Config A)
      → start conf_path merged ≡ ok c
      → IsUsable c × IsConfigured (pick_provider c) × IsMode c.logging.mode
  unfolding get_constructors
  start-IsUsable conf_path merged c h =
      let (was_read, l, built) = with_config-ok c merged (read reader conf_path) h in
      let (usable, configured) = read-IsUsable reader conf_path c was_read in
      (usable, configured, build_logger-IsMode zap c.logging l built)

  -- With a configuration that `Read` returns, whose logging level is known but whose mode is not, the
  -- program panics where it first logs, if the resources of the tracer could be merged.
  pub start_unknown_mode :
      (conf_path : String) (c : Config A) (lvl : Z)
      → read reader conf_path ≡ ok c
      → zap.parse_level c.logging.level ≡ inr lvl
      → ¬ IsMode c.logging.mode
      → start conf_path none ≡ panic
  unfolding get_constructors with_config with_logger start_with
  start_unknown_mode conf_path c lvl was_read parsed unknown =
      rw
        (
          was_read,
          with_config,
          build_logger_mode zap c.logging lvl parsed (λ h. unknown (inl h))
              (λ h. unknown (inr (inl h))) (λ h. unknown (inr (inr h))),
        )
        refl
