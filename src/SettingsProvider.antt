-- ===== src/SettingsProvider.antt =====
-- internal/settingsprovider/settings_provider.go: the checks that every settings provider makes
-- before it hands settings out. `nil` as an error is `none`.
pub mod Valid
pub mod Located
use govnilo.Prelude.{
  ℕ, suc, ℤ, pos, ◌+◌, ◌==◌, Bool, true, false, if◌then◌else◌, List, [], ◌∷◌, Option, none, some,
  String, lookup, insert, string_eq, int_eq,
}
use govnilo.Proto.{Settings, ServiceSettings, CheckerSettings, RunOptions, Rate}

-- One constructor for each message of `Validate`, with the indices and names that it prints.
pub data Error : Type 0 where
  nil_service empty_service_name : ℕ → Error
  duplicate_service : ℕ → String → Error
  nil_checker empty_checker_name : ℕ → String → ℕ → Error
  duplicate_checker nil_run_options nil_rate zero_per : ℕ → String → ℕ → String → Error

-- `seen[name]`: a name that the map lacks reads as false.
unfoldable pub seen_before : List (String × Bool) → String → Bool
seen_before seen name = elim (lookup name seen) [ none ↦ false | some b ↦ b ]

validate_per : ℕ → String → ℕ → String → Option ℤ → Option Error
validate_per i svc j name none = some (zero_per i svc j name)
validate_per i svc j name (some d) = if d == pos 0 then some (zero_per i svc j name) else none

validate_rate : ℕ → String → ℕ → String → Option Rate → Option Error
unfolding validate_per
validate_rate i svc j name none = some (nil_rate i svc j name)
validate_rate i svc j name (some rate) = validate_per i svc j name rate.per

validate_run_options : ℕ → String → ℕ → String → Option RunOptions → Option Error
unfolding validate_rate
validate_run_options i svc j name none = some (nil_run_options i svc j name)
validate_run_options i svc j name (some opts) = validate_rate i svc j name opts.rate

-- The first error of two checks made one after the other.
abbrev pub or_else : Option Error → Option Error → Option Error
or_else none e = e
or_else (some e) _ = some e

-- What the body of the inner loop does with a checker that is not nil, but for marking its name.
validate_checker :
    {F : Type 0} → ℕ → String → ℕ → List (String × Bool) → CheckerSettings F → Option Error
unfolding validate_run_options seen_before
validate_checker i svc j seen c =
    if c.name == ""
    then some (empty_checker_name i svc j)
    else if seen_before seen c.name
    then some (duplicate_checker i svc j c.name)
    else validate_run_options i svc j c.name c.run_options

module _ {F : Type 0} where
  -- The inner loop, from index `j`.
  validate_checkers :
      ℕ → String → ℕ → List (String × Bool) → List (Option (CheckerSettings F)) → Option Error
  unfolding validate_checker
  validate_checkers i svc j seen [] = none
  validate_checkers i svc j seen (none ∷ cs) = some (nil_checker i svc j)
  validate_checkers i svc j seen (some c ∷ cs) =
      or_else (validate_checker i svc j seen c)
        (validate_checkers i svc (suc j) (insert c.name true seen) cs)

  -- The body of the outer loop for a service that is not nil, but for marking its name.
  validate_service : ℕ → List (String × Bool) → ServiceSettings F → Option Error
  unfolding seen_before
  validate_service i seen svc =
      if svc.name == ""
      then some (empty_service_name i)
      else if seen_before seen svc.name
      then some (duplicate_service i svc.name)
      else validate_checkers i svc.name 0 [] svc.checkers

  -- The outer loop, from index `i`.
  validate_services : ℕ → List (String × Bool) → List (Option (ServiceSettings F)) → Option Error
  unfolding validate_service
  validate_services i seen [] = none
  validate_services i seen (none ∷ ss) = some (nil_service i)
  validate_services i seen (some s ∷ ss) =
      or_else (validate_service i seen s) (validate_services (suc i) (insert s.name true seen) ss)

  unfoldable pub validate : Settings F → Option Error
  unfolding validate_services validate_checkers
  validate s = validate_services 0 [] s.services
