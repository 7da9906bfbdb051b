-- ===== src/SettingsSource/Text.antt =====
-- What the file provider uses of `os`, `time`, `fmt`, `yaml`, `json` and `protojson`.
use govnilo.Prelude.{ℤ, Bool, Option, String, ◌⊎◌}
use govnilo.Floats.{Floats}
use govnilo.Proto.{Settings}

-- `time.ParseDuration`, `Duration.Seconds`, `==` on float64, `%d` and `%g`.
pub record Clock (fl : Floats) : Type 0 where
  pub parse_duration : String → Option ℤ
  pub seconds : ℤ → fl.F
  pub eq : fl.F → fl.F → Bool
  pub print_int : ℤ → String
  pub print_g : fl.F → String

-- A YAML value: a string, a map with string keys, a list, or anything else.
mutual
  pub data Value (J : Type 0) : Type 0 where
    other : J → Value J
    text : String → Value J
    mapping : Fields J → Value J
    sequence : Items J → Value J

  pub data Fields (J : Type 0) : Type 0 where
    end : Fields J
    field : String → Value J → Fields J → Fields J

  pub data Items (J : Type 0) : Type 0 where
    last : Items J
    item : Value J → Items J → Items J

-- `D` is what a file holds, `S` a JSON text.
pub record Files (fl : Floats) (D J S E : Type 0) : Type 0 where
  pub read_file : String → E ⊎ D
  pub parse_yaml : D → E ⊎ Value J
  pub marshal : Value J → E ⊎ S
  pub unmarshal : S → E ⊎ Settings fl.F
