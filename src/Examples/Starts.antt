-- ===== src/Examples/Starts.antt =====
-- The start of the program with a configuration, and with one of an unknown mode.
use govnilo.Prelude.{
  ◌+◌, arith, ℕ, pos, negsuc, ◌≡◌, refl, ◌==◌, nat_eq, string_eq, if◌then◌else◌, [], ◌∷◌, none,
  some, String, inl, inr, ok, panic, insert, lookup, ne_of_beq,
}
use govnilo.Configuration.{
  Config, Reader, read, default_config, validate, validate_redis, pick_provider,
}
use govnilo.Configuration.Usable.{IsUsable, IsConfigured}
use govnilo.Hzlog.Build.{Zap, IsMode, build_logger, slog_level, reverse_map}
use govnilo.Startup.Run.{App, got_signal, run_cmd, execute, code, run_exit}
use govnilo.Startup.{get_constructors, start_with, start, start-IsUsable, start_unknown_mode}

abbrev settings_config : Config String
settings_config = default_config

-- Levels are numbers; the one for "debug" is 0, in both cases of writing.
abbrev levels : Zap ℕ ℕ ℕ
levels = record {
  parse_level = λ s. inr 0;
  log_levels = (negsuc 3, 0) ∷ (pos 0, 1) ∷ [];
  build = λ lvl mode. some (λ level. 7);
}

abbrev odd_mode : Config String
odd_mode = record settings_config { logging = record (settings_config.logging) { mode = "text" } }

-- The file "odd" asks for the mode "text".
abbrev reader : Reader String ℕ ℕ
reader = record {
  read_file = λ p. if p == "odd" then inr 1 else inr 0;
  expand_env = λ d. d;
  parse = λ d. if d == 1 then inr odd_mode else inr settings_config;
}

starts : start {H = ℕ} reader levels "conf.yaml" none ≡ ok settings_config
unfolding get_constructors read validate validate_redis build_logger slog_level reverse_map insert
    lookup start_with
starts = refl

start-IsUsable_example :
    IsUsable settings_config × IsConfigured (pick_provider settings_config) × IsMode "json"
start-IsUsable_example = start-IsUsable reader levels "conf.yaml" none settings_config starts

odd_read : read reader "odd" ≡ ok odd_mode
unfolding read validate validate_redis
odd_read = refl

not-IsMode : ¬ IsMode "text"
not-IsMode (inl h) = ne_of_beq "text" "" refl h
not-IsMode (inr (inl h)) = ne_of_beq "text" "console" refl h
not-IsMode (inr (inr h)) = ne_of_beq "text" "json" refl h

start_unknown_mode_example : start {H = ℕ} reader levels "odd" none ≡ panic
start_unknown_mode_example =
    start_unknown_mode reader levels "odd" odd_mode 0 odd_read refl not-IsMode

-- An application that cannot be stopped in time.
abbrev stuck : App ℕ ℕ
stuck = record { start = λ s. (s + 1, none); stop = λ s. (s, some 9) }

stuck_exit : ¬ (execute {B = ℕ} (run_cmd stuck got_signal 0).2 none ≡ code 0)
stuck_exit h = let (_, stopped) = (run_exit stuck got_signal 0 none).0 h in ground (arith, stopped)
