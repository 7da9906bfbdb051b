-- ===== src/Hzlog/Build.antt =====
-- `Build` of build.go. zap's levels are the parameter `Z`; `log_levels` is the table that maps the
-- levels of slog to them. A logger that is nil is `none`.
use govnilo.Prelude.{
  ℤ, ◌==◌, ◌≡◌, refl, ◌≢◌, string_eq, Eq, ◌||◌, if◌then◌else◌, List, [], ◌∷◌, Option, none, some,
  String, ◌⊎◌, inl, inr, lookup, insert, Outcome, ok, err, panic, beq_ne, Bool-cases, sym, ◌∙◌,
  false, arith,
}
use govnilo.Hzlog.Config.{LoggingConfig}
use govnilo.Hzlog.{Handler, new_handler}

-- `zapcore.ParseLevel`, the table, and the handler over a logger of zap; `none` if zap cannot build
-- one, which panics.
pub record Zap (Z H E : Type 0) : Type 0 where
  pub parse_level : String → E ⊎ Z
  pub log_levels : List (ℤ × Z)
  pub build : Z → String → Option (ℤ → H)  -- the level and the encoding

pub data Error (E : Type 0) : Type 0 where
  cannot_parse_level cannot_parse_infra_level : E → Error E

-- The modes that `Build` knows.
abbrev pub IsMode : String → Type 0
IsMode mode = (mode ≡ "") ⊎ (mode ≡ "console") ⊎ (mode ≡ "json")

module _ {Z H E : Type 0} ⦃same : Eq Z⦄ (zap : Zap Z H E) where
  open zap use {parse_level, log_levels, build}

  unfoldable pub reverse_into : List (ℤ × Z) → List (Z × ℤ) → List (Z × ℤ)
  reverse_into [] ret = ret
  reverse_into ((k, v) ∷ mp) ret = reverse_into mp (insert v k ret)

  unfoldable pub reverse_map : List (ℤ × Z) → List (Z × ℤ)
  unfolding reverse_into
  reverse_map mp = reverse_into mp []

  -- `zapLevelToSlogLevel`; `none` is its panic.
  unfoldable pub slog_level : Z → Option ℤ
  unfolding reverse_map
  slog_level lvl = lookup lvl (reverse_map log_levels)

  unfoldable pub finish : LoggingConfig → H → Option ℤ → Outcome (Error E) (Option (Handler H))
  finish c h none = panic
  finish c h (some level) =
      ok (some (new_handler (record c { infra = record (c.infra) { level = level } }) h))

  unfoldable pub build_infra : LoggingConfig → H → E ⊎ Z → Outcome (Error E) (Option (Handler H))
  unfolding finish slog_level
  build_infra c h (inl e) = err (cannot_parse_infra_level e)
  build_infra c h (inr lvl) = finish c h (slog_level lvl)

  unfoldable pub build_base :
      LoggingConfig → Option (ℤ → H) → Option ℤ → Outcome (Error E) (Option (Handler H))
  unfolding build_infra
  build_base c none level = panic
  build_base c (some h) none = panic
  build_base c (some h) (some level) = build_infra c (h level) (parse_level c.infra.level_name)

  -- For an unknown mode `errors.Wrapf` wraps the error of `ParseLevel`, which is nil here.
  unfoldable pub build_parsed : LoggingConfig → E ⊎ Z → Outcome (Error E) (Option (Handler H))
  unfolding build_base
  build_parsed c (inl e) = err (cannot_parse_level e)
  build_parsed c (inr lvl) =
      let mode = if c.mode == "" then "json" else c.mode in
      if mode == "console" || mode == "json"
      then build_base c (build lvl mode) (slog_level lvl)
      else ok none

  unfoldable pub build_logger : LoggingConfig → Outcome (Error E) (Option (Handler H))
  unfolding build_parsed
  build_logger c = build_parsed c (parse_level c.level)

  build_parsed_mode :
      (c : LoggingConfig) (lvl : Z)
      → (c.mode == "") ≡ false
      → (c.mode == "console") ≡ false
      → (c.mode == "json") ≡ false
      → build_parsed c (inr lvl) ≡ ok none
  unfolding build_parsed
  build_parsed_mode c lvl set no_console no_json = rw (set, no_console, no_json) refl

  -- A mode that is neither empty nor "console" nor "json" is no error: the logger is nil.
  pub build_logger_mode :
      (c : LoggingConfig) (lvl : Z)
      → parse_level c.level ≡ inr lvl
      → c.mode ≢ ""
      → c.mode ≢ "console"
      → c.mode ≢ "json"
      → build_logger c ≡ ok none
  unfolding build_logger
  build_logger_mode c lvl parsed set no_console no_json = rw parsed (
      build_parsed_mode c lvl (beq_ne c.mode "" set) (beq_ne c.mode "console" no_console)
        (beq_ne c.mode "json" no_json))

  build_parsed-IsMode :
      (c : LoggingConfig) (level : E ⊎ Z) (l : Handler H)
      → build_parsed c level ≡ ok (some l)
      → IsMode c.mode
  unfolding build_parsed
  build_parsed-IsMode c (inl e) l h = ground arith
  build_parsed-IsMode c (inr lvl) l h = elim (Bool-cases (c.mode == "")) [
    | inl unset ↦ inl ((string_eq.beq_iff c.mode "").0 unset)
    | inr set ↦ elim (Bool-cases (c.mode == "console")) [
      | inl console ↦ inr (inl ((string_eq.beq_iff c.mode "console").0 console))
      | inr no_console ↦ elim (Bool-cases (c.mode == "json")) [
        | inl json ↦ inr (inr ((string_eq.beq_iff c.mode "json").0 json))
        | inr no_json ↦
            let bad : ok none ≡ ok (some l) =
              sym (build_parsed_mode c lvl set no_console no_json) ∙ h in
            ground arith
      ]
    ]
  ]

  -- A logger is built only for a mode that `Build` knows.
  pub build_logger-IsMode :
      (c : LoggingConfig) (l : Handler H) → build_logger c ≡ ok (some l) → IsMode c.mode
  unfolding build_logger
  build_logger-IsMode c l h = build_parsed-IsMode c (parse_level c.level) l h
