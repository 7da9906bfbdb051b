-- ===== src/SettingsProvider/Located.antt =====
-- Which service an error of `Validate` points at.
use govnilo.Prelude.{
  ℕ, suc, ◌+◌, ◌≡◌, refl, inl, inr, Bool, true, List, [], ◌∷◌, Option, none, some, String, take,
  arith, insert, string_eq, Option-cases,
}
use govnilo.Proto.{Settings, ServiceSettings, CheckerSettings, RunOptions}
use govnilo.SettingsProvider.{
  Error, nil_service, empty_service_name, duplicate_service, nil_checker, empty_checker_name,
  duplicate_checker, nil_run_options, nil_rate, zero_per, validate_run_options, validate_checkers,
  validate_service, validate_services, validate,
}

-- The `services[%d]` of the message.
abbrev pub service_index : Error → ℕ
service_index (nil_service i) = i
service_index (empty_service_name i) = i
service_index (duplicate_service i _) = i
service_index (nil_checker i _ _) = i
service_index (empty_checker_name i _ _) = i
service_index (duplicate_checker i _ _ _) = i
service_index (nil_run_options i _ _ _) = i
service_index (nil_rate i _ _ _) = i
service_index (zero_per i _ _ _) = i

validate_run_options_index :
    (i : ℕ) (svc : String) (j : ℕ) (name : String) (o : Option RunOptions) (e : Error)
    → validate_run_options i svc j name o ≡ some e
    → service_index e ≡ i
unfolding validate_run_options
validate_run_options_index i svc j name o e h = ground arith

module _ {F : Type 0} where
  validate_checkers_index :
      (i : ℕ) (svc : String) (j : ℕ) (seen : List (String × Bool))
      (cs : List (Option (CheckerSettings F))) (e : Error)
      → validate_checkers i svc j seen cs ≡ some e
      → service_index e ≡ i
  unfolding validate_checkers
  validate_checkers_index i svc j seen [] e h = absurd (cc h)
  validate_checkers_index i svc j seen (none ∷ cs) e h = ground arith
  validate_checkers_index i svc j seen (some c ∷ cs) e h = ground (
    arith,
    validate_run_options_index i svc j c.name c.run_options e,
    validate_checkers_index i svc (suc j) (insert c.name true seen) cs e,
  )

  validate_service_index :
      (i : ℕ) (seen : List (String × Bool)) (s : ServiceSettings F) (e : Error)
      → validate_service i seen s ≡ some e
      → service_index e ≡ i
  unfolding validate_service
  validate_service_index i seen s e h =
      ground (arith, validate_checkers_index i s.name 0 [] s.checkers e)

  -- Where the outer loop stops: it passed `k` services, and the next one made the error.
  Stops : ℕ → List (String × Bool) → List (Option (ServiceSettings F)) → Error → Type 0
  Stops i seen ss e =
      (k : ℕ) × (service_index e ≡ i + k)
      × (validate_services i seen (take k ss) ≡ none)
      × (validate_services i seen (take (suc k) ss) ≡ some e)

  validate_services-Stops :
      (i : ℕ) (seen : List (String × Bool)) (ss : List (Option (ServiceSettings F))) (e : Error)
      → validate_services i seen ss ≡ some e
      → Stops i seen ss e
  unfolding validate_services Stops
  validate_services-Stops i seen [] e h = absurd (cc h)
  validate_services-Stops i seen (none ∷ ss) e h = (0, ground arith, refl, h)
  validate_services-Stops i seen (some s ∷ ss) e h =
      elim (Option-cases (validate_service i seen s)) [
        | inl fine ↦
            let (k, at, before, here) =
              validate_services-Stops (suc i) (insert s.name true seen) ss e (rw fine at h) in
            (suc k, omega arith, rw fine before, rw fine here)
        | inr (x, wrong) ↦
            let now : validate_service i seen s ≡ some e = ground arith in
            (0, omega (arith, validate_service_index i seen s e now), refl, rw now)
      ]

  -- An error of `Validate` names the first service at fault: the services before it pass the
  -- checks, and with that service added they fail with this same error.
  validate_first_error :
      (s : Settings F) (e : Error)
      → validate s ≡ some e
      → (validate (record s { services = take (service_index e) s.services }) ≡ none)
        × (validate (record s { services = take (suc (service_index e)) s.services }) ≡ some e)
  unfolding validate Stops
  validate_first_error s e h =
      let (k, at, before, here) = validate_services-Stops 0 [] s.services e h in
      let same : service_index e ≡ k = omega arith in rw same (before, here)
