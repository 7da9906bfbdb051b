-- ===== src/CheckerCtrl/Helpers.antt =====
-- internal/checkerctrl/proto_helpers.go: settings looked up by name.
use govnilo.Prelude.{
  ℤ, pos, ◌==◌, ◌≡◌, ◌↔◌, string_eq, Eq, Bool, true, ◌&&◌, List, [], ◌∷◌, Option, none, some,
  String, insert, arith,
}
use govnilo.Proto.{Settings, ServiceSettings, CheckerSettings}
use govnilo.Proto
use govnilo.RateRunner.{Rate, RunOptions, zero_rate}

-- `hazycheck.CheckerID` (internal/hazycheck/checker.go).
pub record CheckerId : Type 0 where
  pub service : String
  pub name : String

abbrev pub checker_id_beq : CheckerId → CheckerId → Bool
checker_id_beq a b = a.service == b.service && a.name == b.name

pub checker_id_beq_iff : (a b : CheckerId) → (checker_id_beq a b ≡ true) ↔ (a ≡ b)
checker_id_beq_iff a b =
    ground (arith, string_eq.beq_iff a.service b.service, string_eq.beq_iff a.name b.name)

instance abbrev pub checker_id_eq : Eq CheckerId
checker_id_eq = record { beq = checker_id_beq; beq_iff = checker_id_beq_iff }

module _ {F : Type 0} where
  -- The loop of `serviceMap`: a later service of a name replaces an earlier one.
  unfoldable pub services_into :
      List (Option (ServiceSettings F))
      → List (String × ServiceSettings F)
      → List (String × ServiceSettings F)
  services_into [] m = m
  services_into (none ∷ ss) m = services_into ss m
  services_into (some s ∷ ss) m = services_into ss (insert s.name s m)

  unfoldable pub service_map : Settings F → List (String × ServiceSettings F)
  unfolding services_into
  service_map settings = services_into settings.services []

  unfoldable pub checkers_into :
      List (Option (CheckerSettings F))
      → List (String × CheckerSettings F)
      → List (String × CheckerSettings F)
  checkers_into [] m = m
  checkers_into (none ∷ cs) m = checkers_into cs m
  checkers_into (some c ∷ cs) m = checkers_into cs (insert c.name c m)

  unfoldable pub checkers_map :
      List (Option (CheckerSettings F)) → List (String × CheckerSettings F)
  unfolding checkers_into
  checkers_map checkers = checkers_into checkers []

abbrev pub per_or_zero : Option ℤ → ℤ
per_or_zero none = pos 0
per_or_zero (some d) = d

-- `protoRateToRaterunner`.
unfoldable pub rate_of_proto : Option Proto.Rate → Rate
rate_of_proto none = zero_rate
rate_of_proto (some r) = record { times = r.times; per = per_or_zero r.per }

-- What `syncState` makes of the description of a checker that it found or did not find.
unfoldable pub options_of : {F : Type 0} → Option (CheckerSettings F) → RunOptions
unfolding rate_of_proto
options_of none = record { rate = zero_rate; max_goroutines = pos 0 }
options_of (some c) = elim c.run_options [
  | none ↦ record { rate = zero_rate; max_goroutines = pos 0 }
  | some o ↦ record { rate = rate_of_proto o.rate; max_goroutines = o.max_goroutines }
]
