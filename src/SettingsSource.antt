-- ===== src/SettingsSource.antt =====
-- internal/settingsprovider: the two providers of settings. file_settings_provider.go reads a YAML
-- file and rewrites its durations; admin_settings_provider.go asks the admin service. Both hand on
-- only what passes `Validate`. Reading, parsing and printing are parameters (SettingsSource/Text.antt).
pub mod Text
pub mod Durations
pub mod Passed
use Prim.Native.String.{◌++◌ as string_append}
use govnilo.Prelude.{
  ℤ, pos, ◌==◌, string_eq, Bool, if◌then◌else◌, Option, none, some, String, ◌⊎◌, inl, inr,
}
use govnilo.Floats.{Floats}
use govnilo.Proto.{Settings}
use govnilo.SettingsProvider.{validate}
use govnilo.SettingsProvider
use govnilo.AdminClient
use Text.{
  Clock, Value, Fields, Items, other, text, mapping, sequence, end, field, last, item, Files,
}

module _ {fl : Floats} (clock : Clock fl) where
  open clock use {parse_duration, seconds, eq, print_int, print_g}

  -- `%ds` of whole seconds, `%gs` of others.
  unfoldable pub print_seconds : fl.F → String
  print_seconds total =
      if fl.is_zero total
      then "0s"
      else if eq total (fl.of_ℤ (fl.to_ℤ total))
      then string_append (print_int (fl.to_ℤ total)) "s"
      else string_append (print_g total) "s"

  unfoldable pub convert_duration_string : String → String
  unfolding print_seconds
  convert_duration_string dur = elim (parse_duration dur) [
    | none ↦ ""
    | some d ↦ print_seconds (seconds d)
  ]

  module _ {J : Type 0} where
    -- What the value at the key "per" becomes: a string may be converted, all else stays.
    unfoldable pub convert_per : Value J → Value J
    unfolding convert_duration_string
    convert_per (text s) =
        if convert_duration_string s == "" then text s else text (convert_duration_string s)
    convert_per (other x) = other x
    convert_per (mapping fs) = mapping fs
    convert_per (sequence is) = sequence is

    unfoldable mutual
      unfolding convert_per

      pub normalize_durations : Value J → Value J
      normalize_durations (other x) = other x
      normalize_durations (text s) = text s
      normalize_durations (mapping fs) = mapping (normalize_fields fs)
      normalize_durations (sequence is) = sequence (normalize_items is)

      pub normalize_fields : Fields J → Fields J
      normalize_fields end = end
      normalize_fields (field key v fs) =
          let nested = normalize_durations v in
          field key (if key == "per" then convert_per v else nested) (normalize_fields fs)

      pub normalize_items : Items J → Items J
      normalize_items last = last
      normalize_items (item v is) = item (normalize_durations v) (normalize_items is)

pub data Error (E : Type 0) : Type 0 where
  cannot_read cannot_parse cannot_convert cannot_unmarshal : E → Error E
  cannot_pull : AdminClient.Error E → Error E
  not_valid : SettingsProvider.Error → Error E

module _ {F E : Type 0} where
  -- `Validate`, and the settings behind it; nil settings have no services to object to.
  unfoldable pub checked :
      Option (Settings F) → Option SettingsProvider.Error → Error E ⊎ Option (Settings F)
  checked s none = inr s
  checked s (some e) = inl (not_valid e)

  unfoldable pub validated : Option (Settings F) → Error E ⊎ Option (Settings F)
  unfolding checked
  validated none = inr none
  validated (some s) = checked (some s) (validate s)

  -- `Adminka.GetSettings`, with what the client answers.
  unfoldable pub get_settings_admin :
      AdminClient.Error E ⊎ Option (Settings F) → Error E ⊎ Option (Settings F)
  unfolding validated
  get_settings_admin (inl e) = inl (cannot_pull e)
  get_settings_admin (inr s) = validated s

module _ {fl : Floats} (clock : Clock fl) {D J S E : Type 0} (files : Files fl D J S E) where
  open files use {read_file, parse_yaml, marshal, unmarshal}

  unfoldable pub unmarshalled : E ⊎ Settings fl.F → Error E ⊎ Option (Settings fl.F)
  unfolding validated
  unmarshalled (inl e) = inl (cannot_unmarshal e)
  unmarshalled (inr s) = validated (some s)

  unfoldable pub marshalled : E ⊎ S → Error E ⊎ Option (Settings fl.F)
  unfolding unmarshalled
  marshalled (inl e) = inl (cannot_convert e)
  marshalled (inr s) = unmarshalled (unmarshal s)

  unfoldable pub parsed : E ⊎ Value J → Error E ⊎ Option (Settings fl.F)
  unfolding marshalled normalize_durations
  parsed (inl e) = inl (cannot_parse e)
  parsed (inr v) = marshalled (marshal (normalize_durations clock v))

  unfoldable pub was_read : E ⊎ D → Error E ⊎ Option (Settings fl.F)
  unfolding parsed
  was_read (inl e) = inl (cannot_read e)
  was_read (inr d) = parsed (parse_yaml d)

  -- `File.GetSettings`
  unfoldable pub get_settings_file : String → Error E ⊎ Option (Settings fl.F)
  unfolding was_read
  get_settings_file path = was_read (read_file path)
