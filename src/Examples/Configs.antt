-- ===== src/Examples/Configs.antt =====
-- The configuration, the admin client and the commands at concrete inputs.
use govnilo.Prelude.{
  ℕ, ◌≡◌, refl, ◌++◌, List, [], ◌∷◌, Option, none, some, String, ◌⊎◌, inl, inr, ok, string_eq,
}
use govnilo.Configuration.{Config, Reader, validate, read, default_config, validate_redis}
use govnilo.Proto.{Settings}
use govnilo.AdminClient.{not_known, get_config_async, refresh_all}
use govnilo.AdminClient.History.{get_config_async-refresh_all}
use govnilo.CheckerCtrl.Helpers.{CheckerId}
use govnilo.HazyCheck.Commands.{Checker}
use govnilo.Examples.Settings.{good}

-- The settings come from the admin service at an address.
abbrev with_admin : Config String
with_admin = record default_config { from_admin = some "adminka:80"; from_file = none }

abbrev parsed_admin : ℕ → ℕ ⊎ Config String
parsed_admin d = inr with_admin

abbrev reader : Reader String ℕ ℕ
reader = record { read_file = λ p. inr 1; expand_env = λ d. d; parse = parsed_admin }

read_ok : read reader "conf.yaml" ≡ ok with_admin
unfolding read validate validate_redis
read_ok = refl

abbrev earlier : List (ℕ ⊎ Option (Settings ℕ))
earlier = inr (some good) ∷ inl 14 ∷ inr (some good) ∷ []

get_config_async-refresh_all_example :
    (get_config_async {F = ℕ} {E = ℕ} (refresh_all {F = ℕ} {E = ℕ} none []) ≡ inl not_known)
    × ((s : Settings ℕ)
        → get_config_async {F = ℕ} {E = ℕ} (refresh_all none (earlier ++ inr (some s) ∷ []))
          ≡ inr (some s))
    × ((e : ℕ)
        → get_config_async {F = ℕ} {E = ℕ} (refresh_all none (earlier ++ inl e ∷ []))
          ≡ inl not_known)
get_config_async-refresh_all_example = get_config_async-refresh_all earlier

abbrev put_check : CheckerId
put_check = record { service = "shop"; name = "put" }

abbrev checkers : List (Checker ℕ)
checkers =
    record { id = put_check; check = λ target. none }
    ∷ record { id = record { service = "bank"; name = "pay" }; check = λ target. some 7 }
    ∷ []
