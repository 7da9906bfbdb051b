-- ===== src/SettingsSource/Passed.antt =====
-- What the two providers hand on.
use govnilo.Prelude.{◌≡◌, refl, Option, none, some, String, ◌⊎◌, inl, inr}
use govnilo.Floats.{Floats}
use govnilo.Proto.{Settings}
use govnilo.SettingsProvider.{validate}
use govnilo.SettingsProvider
use govnilo.AdminClient
use govnilo.SettingsSource.{
  checked, validated, get_settings_admin, unmarshalled, marshalled, parsed, was_read,
  get_settings_file, normalize_durations,
}
use govnilo.SettingsSource.Text.{Clock, Value, Files}

-- Settings that are not nil passed `Validate`.
abbrev pub IsPassed : {F E : Type 0} → E ⊎ Option (Settings F) → Type 0
IsPassed (inl e) = Unit
IsPassed (inr none) = Unit
IsPassed (inr (some s)) = validate s ≡ none

checked-IsPassed :
    {F : Type 0} (E : Type 0) (s : Settings F) (o : Option SettingsProvider.Error)
    → validate s ≡ o
    → IsPassed (checked {E = E} (some s) o)
unfolding checked
checked-IsPassed E s none e = e
checked-IsPassed E s (some x) e = tt

validated-IsPassed :
    {F : Type 0} (E : Type 0) (s : Option (Settings F)) → IsPassed (validated {E = E} s)
unfolding validated
validated-IsPassed E none = tt
validated-IsPassed E (some s) = checked-IsPassed E s (validate s) refl

module _ {F E : Type 0} where
  admin-IsPassed : (r : AdminClient.Error E ⊎ Option (Settings F)) → IsPassed (get_settings_admin r)
  unfolding get_settings_admin
  admin-IsPassed (inl e) = tt
  admin-IsPassed (inr s) = validated-IsPassed E s

module _ {fl : Floats} (clock : Clock fl) {D J S E : Type 0} (files : Files fl D J S E) where
  unmarshalled-IsPassed : (r : E ⊎ Settings fl.F) → IsPassed (unmarshalled clock files r)
  unfolding unmarshalled
  unmarshalled-IsPassed (inl e) = tt
  unmarshalled-IsPassed (inr s) = validated-IsPassed E (some s)

  marshalled-IsPassed : (r : E ⊎ S) → IsPassed (marshalled clock files r)
  unfolding marshalled
  marshalled-IsPassed (inl e) = tt
  marshalled-IsPassed (inr s) = unmarshalled-IsPassed (files.unmarshal s)

  parsed-IsPassed : (r : E ⊎ Value J) → IsPassed (parsed clock files r)
  unfolding parsed
  parsed-IsPassed (inl e) = tt
  parsed-IsPassed (inr v) = marshalled-IsPassed (files.marshal (normalize_durations clock v))

  was_read-IsPassed : (r : E ⊎ D) → IsPassed (was_read clock files r)
  unfolding was_read
  was_read-IsPassed (inl e) = tt
  was_read-IsPassed (inr d) = parsed-IsPassed (files.parse_yaml d)

  -- Settings that either provider returns, and that are not nil, passed `Validate`, whatever the file
  -- holds and whatever the admin service answers.
  pub get_settings-IsPassed :
      (path : String) (r : AdminClient.Error E ⊎ Option (Settings fl.F))
      → IsPassed (get_settings_file clock files path) × IsPassed (get_settings_admin r)
  unfolding get_settings_file
  get_settings-IsPassed path r = (was_read-IsPassed (files.read_file path), admin-IsPassed r)
