-- ===== src/SettingsProvider/Valid.antt =====
-- What settings have to be like, said without the loops of `Validate`, and that `Validate` decides it.
use govnilo.Prelude.{
  ℕ, suc, ℤ, pos, ◌==◌, ◌≡◌, refl, ◌≢◌, ◌↔◌, Bool, true, false, List, [], ◌∷◌, Option, none, some,
  String, All, arith, lookup, insert, lookup-insert, if◌then◌else◌, string_eq, int_eq, beq_ne,
  ne_of_beq,
}
use govnilo.Proto.{Settings, ServiceSettings, CheckerSettings, RunOptions, Rate}
use govnilo.SettingsProvider.{
  seen_before, validate_per, validate_rate, validate_run_options, validate_checker,
  validate_checkers, validate_service, validate_services, validate, or_else, Error, zero_per,
  empty_checker_name, duplicate_checker, empty_service_name, duplicate_service,
}

-- No name occurs twice.
abbrev pub Distinct : List String → Type 0
Distinct [] = Unit
Distinct (x ∷ xs) = All (λ y. x ≢ y) xs × Distinct xs

-- A rate, with a period that is set and not 0.
abbrev pub IsPeriod : Option ℤ → Type 0
IsPeriod none = ⊥
IsPeriod (some d) = d ≢ pos 0

abbrev pub IsRate : Option Rate → Type 0
IsRate none = ⊥
IsRate (some r) = IsPeriod r.per

abbrev pub IsRated : Option RunOptions → Type 0
IsRated none = ⊥
IsRated (some o) = IsRate o.rate

module _ {F : Type 0} where
  abbrev pub IsValidChecker : Option (CheckerSettings F) → Type 0
  IsValidChecker none = ⊥
  IsValidChecker (some c) = (c.name ≢ "") × IsRated c.run_options

  abbrev pub checker_names : List (Option (CheckerSettings F)) → List String
  checker_names [] = []
  checker_names (none ∷ cs) = checker_names cs
  checker_names (some c ∷ cs) = c.name ∷ checker_names cs

  abbrev pub IsValidService : Option (ServiceSettings F) → Type 0
  IsValidService none = ⊥
  IsValidService (some s) =
      (s.name ≢ "") × All IsValidChecker s.checkers × Distinct (checker_names s.checkers)

  abbrev pub service_names : List (Option (ServiceSettings F)) → List String
  service_names [] = []
  service_names (none ∷ ss) = service_names ss
  service_names (some s ∷ ss) = s.name ∷ service_names ss

  abbrev pub IsValid : Settings F → Type 0
  IsValid s = All IsValidService s.services × Distinct (service_names s.services)

-- None of the names is marked.
abbrev Unseen : List (String × Bool) → List String → Type 0
Unseen seen names = All (λ n. seen_before seen n ≡ false) names

seen_before-insert :
    (k n : String) (seen : List (String × Bool))
    → seen_before (insert k true seen) n ≡ (if k == n then true else seen_before seen n)
unfolding seen_before
seen_before-insert k n seen = ground (arith, lookup-insert k n true seen)

Unseen-insert :
    (k : String) (seen : List (String × Bool)) (names : List String)
    → Unseen (insert k true seen) names ↔ (Unseen seen names × All (λ y. k ≢ y) names)
Unseen-insert k seen [] = ((λ _. (tt, tt)), λ _. tt)
Unseen-insert k seen (n ∷ names) =
    let ih = Unseen-insert k seen names in
    let fresh = seen_before-insert k n seen in
    (
      (λ h. (
        (ground (arith, fresh), (ih.0 h.1).0),
        (ground (arith, fresh, string_eq.beq_iff k n), (ih.0 h.1).1),
      )),
      λ h. (ground (arith, fresh, string_eq.beq_iff k n), ih.1 (h.0.1, h.1.1)),
    )

Unseen-nil : (names : List String) → Unseen [] names
unfolding seen_before lookup
Unseen-nil [] = tt
Unseen-nil (n ∷ names) = (refl, Unseen-nil names)

-- A check that refuses on a test and otherwise goes on.
reject_iff :
    (b : Bool) (x : Error) (e : Option Error)
    → ((if b then some x else e) ≡ none) ↔ ((b ≡ false) × (e ≡ none))
reject_iff true x e = (λ h. absurd (cc h), λ h. absurd (cc (h.0)))
reject_iff false x e = ((λ h. (refl, h)), λ h. h.1)

or_else_iff : (e f : Option Error) → (or_else e f ≡ none) ↔ ((e ≡ none) × (f ≡ none))
or_else_iff none f = ((λ h. (refl, h)), λ h. h.1)
or_else_iff (some x) f = (λ h. absurd (cc h), λ h. absurd (cc (h.0)))

validate_per_iff :
    (i : ℕ) (svc : String) (j : ℕ) (name : String) (d : Option ℤ)
    → (validate_per i svc j name d ≡ none) ↔ IsPeriod d
unfolding validate_per
validate_per_iff i svc j name none = (λ h. absurd (cc h), λ h. absurd h)
validate_per_iff i svc j name (some d) =
    let r = reject_iff (d == pos 0) (zero_per i svc j name) none in
    (λ h. ne_of_beq d (pos 0) (r.0 h).0, λ h. r.1 (beq_ne d (pos 0) h, refl))

validate_rate_iff :
    (i : ℕ) (svc : String) (j : ℕ) (name : String) (r : Option Rate)
    → (validate_rate i svc j name r ≡ none) ↔ IsRate r
unfolding validate_rate
validate_rate_iff i svc j name none = (λ h. absurd (cc h), λ h. absurd h)
validate_rate_iff i svc j name (some r) = validate_per_iff i svc j name r.per

validate_run_options_iff :
    (i : ℕ) (svc : String) (j : ℕ) (name : String) (o : Option RunOptions)
    → (validate_run_options i svc j name o ≡ none) ↔ IsRated o
unfolding validate_run_options
validate_run_options_iff i svc j name none = (λ h. absurd (cc h), λ h. absurd h)
validate_run_options_iff i svc j name (some o) = validate_rate_iff i svc j name o.rate

module _ {F : Type 0} where
  validate_checker_iff :
      (i : ℕ) (svc : String) (j : ℕ) (seen : List (String × Bool)) (c : CheckerSettings F)
      → (validate_checker i svc j seen c ≡ none)
        ↔ (IsValidChecker (some c) × (seen_before seen c.name ≡ false))
  unfolding validate_checker
  validate_checker_iff i svc j seen c =
      let named = reject_iff (c.name == "") (empty_checker_name i svc j) _ in
      let first = reject_iff (seen_before seen c.name) (duplicate_checker i svc j c.name) _ in
      let rated = validate_run_options_iff i svc j c.name c.run_options in
      (
        (λ h.
            let (a, h') = named.0 h in
            let (b, h'') = first.0 h' in ((ne_of_beq c.name "" a, rated.0 h''), b)),
        λ h. named.1 (beq_ne c.name "" h.0.0, first.1 (h.1, rated.1 h.0.1)),
      )

  validate_checkers_iff :
      (i : ℕ) (svc : String) (j : ℕ) (seen : List (String × Bool))
      (cs : List (Option (CheckerSettings F)))
      → (validate_checkers i svc j seen cs ≡ none)
        ↔ (All IsValidChecker cs × Distinct (checker_names cs) × Unseen seen (checker_names cs))
  unfolding validate_checkers
  validate_checkers_iff i svc j seen [] = ((λ _. (tt, tt, tt)), λ _. refl)
  validate_checkers_iff i svc j seen (none ∷ cs) = (λ h. absurd (cc h), λ h. absurd h.0.0)
  validate_checkers_iff i svc j seen (some c ∷ cs) =
      let one = validate_checker_iff i svc j seen c in
      let ih = validate_checkers_iff i svc (suc j) (insert c.name true seen) cs in
      let marked = Unseen-insert c.name seen (checker_names cs) in
      let both = or_else_iff (validate_checker i svc j seen c) _ in
      (
        (λ h.
            let (valid, fresh) = one.0 (both.0 h).0 in
            let (rest, distinct, unseen) = ih.0 (both.0 h).1 in
            let (unseen', apart) = marked.0 unseen in
            ((valid, rest), (apart, distinct), (fresh, unseen'))),
        λ h. both.1 (one.1 (h.0.0, h.2.0), ih.1 (h.0.1, h.1.1, marked.1 (h.2.1, h.1.0))),
      )

  validate_service_iff :
      (i : ℕ) (seen : List (String × Bool)) (s : ServiceSettings F)
      → (validate_service i seen s ≡ none)
        ↔ (IsValidService (some s) × (seen_before seen s.name ≡ false))
  unfolding validate_service
  validate_service_iff i seen s =
      let named = reject_iff (s.name == "") (empty_service_name i) _ in
      let first = reject_iff (seen_before seen s.name) (duplicate_service i s.name) _ in
      let inner = validate_checkers_iff i s.name 0 [] s.checkers in
      (
        (λ h.
            let (a, h') = named.0 h in
            let (b, h'') = first.0 h' in
            let (valid, distinct, _) = inner.0 h'' in
            ((ne_of_beq s.name "" a, valid, distinct), b)),
        λ h. named.1 (
          beq_ne s.name "" h.0.0,
          first.1 (h.1, inner.1 (h.0.1, h.0.2, Unseen-nil (checker_names s.checkers))),
        ),
      )

  validate_services_iff :
      (i : ℕ) (seen : List (String × Bool)) (ss : List (Option (ServiceSettings F)))
      → (validate_services i seen ss ≡ none)
        ↔ (All IsValidService ss × Distinct (service_names ss) × Unseen seen (service_names ss))
  unfolding validate_services
  validate_services_iff i seen [] = ((λ _. (tt, tt, tt)), λ _. refl)
  validate_services_iff i seen (none ∷ ss) = (λ h. absurd (cc h), λ h. absurd h.0.0)
  validate_services_iff i seen (some s ∷ ss) =
      let one = validate_service_iff i seen s in
      let ih = validate_services_iff (suc i) (insert s.name true seen) ss in
      let marked = Unseen-insert s.name seen (service_names ss) in
      let both = or_else_iff (validate_service i seen s) _ in
      (
        (λ h.
            let (valid, fresh) = one.0 (both.0 h).0 in
            let (rest, distinct, unseen) = ih.0 (both.0 h).1 in
            let (unseen', apart) = marked.0 unseen in
            ((valid, rest), (apart, distinct), (fresh, unseen'))),
        λ h. both.1 (one.1 (h.0.0, h.2.0), ih.1 (h.0.1, h.1.1, marked.1 (h.2.1, h.1.0))),
      )

  -- `Validate` reports no error exactly on valid settings: every service and checker is present and
  -- named, no two services share a name and no two checkers of one service do, and every checker
  -- has a rate whose period is set and not 0.
  pub validate-iff-IsValid : (s : Settings F) → (validate s ≡ none) ↔ IsValid s
  unfolding validate
  validate-iff-IsValid s =
      let all = validate_services_iff 0 [] s.services in
      (
        (λ h. let (valid, distinct, _) = all.0 h in (valid, distinct)),
        λ h. all.1 (h.0, h.1, Unseen-nil (service_names s.services)),
      )
