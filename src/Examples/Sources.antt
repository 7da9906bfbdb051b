-- ===== src/Examples/Sources.antt =====
-- The sources of settings at concrete inputs.
use govnilo.Prelude.{
  ℕ, ℤ, pos, ◌≡◌, refl, ◌/◌, nat_beq, ◌==◌, string_eq, if◌then◌else◌, Option, none, some, String,
  ◌⊎◌, inl, inr, lookup, insert,
}
use govnilo.Proto.{Settings}
use govnilo.AdminClient
use govnilo.AdminClient.{not_known}
use govnilo.SettingsSource.{
  get_settings_file, get_settings_admin, normalize_durations, convert_duration_string,
  print_seconds,
}
use govnilo.SettingsProvider.{validate}
use govnilo.SettingsSource.Text.{
  Clock, Value, text, mapping, sequence, end, field, last, item, Files,
}
use govnilo.SettingsSource.Durations.{without_periods, without_periods-normalize_durations}
use govnilo.SettingsSource.Passed.{IsPassed, get_settings-IsPassed}
use govnilo.Examples.Setting.{numbers, part}
use govnilo.Examples.Settings.{good}

-- It knows a minute.
abbrev pub parse_minute : String → Option ℤ
parse_minute s = if s == "1m" then some (pos 60_000_000_000) else none

abbrev pub clock : Clock numbers
clock = record {
  parse_duration = parse_minute;
  seconds = λ d. part d / 1_000_000_000;
  eq = nat_beq;
  print_int = λ n. "60";
  print_g = λ x. "0.5";
}

abbrev pub yaml : Value ℕ
yaml = mapping (
    field "name" (text "1m")
      (field "rates" (sequence (item (mapping (field "per" (text "1m") end)) last)) end))

minutes :
    normalize_durations clock yaml
    ≡ mapping (
        field "name"
          (text "1m")
          (field "rates" (sequence (item (mapping (field "per" (text "60s") end)) last)) end))
unfolding normalize_durations convert_duration_string print_seconds
minutes = refl

without_periods-normalize_durations_example :
    without_periods (normalize_durations clock yaml) ≡ without_periods yaml
without_periods-normalize_durations_example = without_periods-normalize_durations clock yaml

-- A file that parses to `yaml` and converts to good settings.
abbrev pub files : Files numbers ℕ ℕ (Value ℕ) ℕ
files = record {
  read_file = λ p. inr 1;
  parse_yaml = λ d. inr yaml;
  marshal = λ v. inr v;
  unmarshal = λ v. inr good;
}

pub file_passes : get_settings_file clock files "settings.yaml" ≡ inr (some good)
unfolding get_settings_file validate lookup insert
file_passes = refl

abbrev no_answer : AdminClient.Error ℕ ⊎ Option (Settings ℕ)
no_answer = inl not_known

get_settings-IsPassed_example :
    IsPassed (get_settings_file clock files "settings.yaml")
    × IsPassed (get_settings_admin no_answer)
get_settings-IsPassed_example = get_settings-IsPassed clock files "settings.yaml" no_answer
