-- ===== src/Examples/Settings.antt =====
-- `Validate` on settings with one service and two checkers.
use govnilo.Prelude.{ℕ, ℤ, pos, ◌≡◌, refl, ◌↔◌, [], ◌∷◌, Option, none, some, String, lookup, insert}
use govnilo.Proto.{Settings, ServiceSettings, CheckerSettings}
use govnilo.SettingsProvider.{validate, zero_per}
use govnilo.SettingsProvider.Valid.{IsValid, validate-iff-IsValid}

abbrev pub checker : String → Option ℤ → CheckerSettings ℕ
checker name per = record {
  name = name;
  run_options =
      some (record { rate = some (record { times = 10; per = per }); max_goroutines = pos 4 });
  success_points = 2;
  fail_penalty = 1;
}

abbrev pub shop : ServiceSettings ℕ
shop = record {
  name = "shop";
  target = "10.0.0.1";
  checkers =
      some (checker "put" (some (pos 1_000_000_000)))
      ∷ some (checker "get" (some (pos 2_000_000_000)))
      ∷ [];
}

abbrev pub good : Settings ℕ
good = record { services = some shop ∷ [] }

abbrev bad : Settings ℕ
bad = record {
  services =
      some shop
      ∷ some (record shop { name = "bank"; checkers = some (checker "pay" none) ∷ [] })
      ∷ [];
}

pub good_passes : validate good ≡ none
unfolding validate lookup insert
good_passes = refl

bad_fails : validate bad ≡ some (zero_per 1 "bank" 0 "pay")
unfolding validate lookup insert
bad_fails = refl

pub good-IsValid : IsValid good
good-IsValid = (validate-iff-IsValid good).0 good_passes

validate-iff-IsValid_example : (validate good ≡ none) ↔ IsValid good
validate-iff-IsValid_example = validate-iff-IsValid good
