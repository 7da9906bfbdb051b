-- ===== src/Hzlog/Config.antt =====
-- pkg/common/hzlog/config.go. A `slog.Level` is an integer; -4 is `LevelDebug`.
use govnilo.Prelude.{ℤ, negsuc, Bool, true, String}

pub record InfraFilter : Type 0 where
  pub enabled : Bool
  pub level_name : String  -- Level
  pub level : ℤ

pub record LoggingConfig : Type 0 where
  pub level : String
  pub mode : String
  pub infra : InfraFilter  -- Filter.Infra

abbrev pub level_debug : ℤ
level_debug = negsuc 3

abbrev pub default_logging : LoggingConfig
default_logging = record {
  level = "debug";
  mode = "json";
  infra = record { enabled = true; level_name = "DEBUG"; level = level_debug };
}
