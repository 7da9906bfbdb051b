-- ===== src/CheckerCtrl/Normalize.antt =====
-- What the scaling of points leaves as it is, and which services it scales.
use govnilo.Prelude.{
  ◌≡◌, refl, sym, ap, ◌≢◌, string_eq, false, if◌then◌else◌, List, [], ◌∷◌, Option, none, some,
  String, All, arith, inl, inr, Bool-cases, map,
}
use mathlib.Core.Path.{subst}
use govnilo.Floats.{Floats}
use govnilo.RateLimit.{RateLibrary}
use govnilo.Proto.{Settings, ServiceSettings, CheckerSettings}
use govnilo.SettingsProvider.Valid.{
  Distinct, IsValidChecker, IsValidService, IsValid, checker_names, service_names,
}
use govnilo.CheckerCtrl.Points.{
  sum_points, scale_points, coefficient, normalize_in_service, named, normalize_services,
  normalize_points,
}

module _ (fl : Floats) (lib : RateLibrary fl) where
  open fl use {F}

  scale_points_names :
      (p q : F) (cs : List (Option (CheckerSettings F)))
      → checker_names (scale_points fl lib p q cs) ≡ checker_names cs
  unfolding scale_points
  scale_points_names p q [] = refl
  scale_points_names p q (none ∷ cs) = scale_points_names p q cs
  scale_points_names p q (some c ∷ cs) = ap (◌∷◌ c.name) (scale_points_names p q cs)

  scale_points-valid :
      (p q : F) (cs : List (Option (CheckerSettings F)))
      → All IsValidChecker cs
      → All IsValidChecker (scale_points fl lib p q cs)
  unfolding scale_points
  scale_points-valid p q [] h = tt
  scale_points-valid p q (none ∷ cs) h = absurd h.0
  scale_points-valid p q (some c ∷ cs) h = (h.0, scale_points-valid p q cs h.1)

  normalize_in_service-valid :
      (s : ServiceSettings F) (target : F)
      → IsValidService (some s)
      → IsValidService (some (normalize_in_service fl lib s target))
  unfolding normalize_in_service
  normalize_in_service-valid s target h = (
    h.0,
    scale_points-valid _ _ s.checkers h.1,
    subst Distinct (sym (scale_points_names _ _ s.checkers)) h.2,
  )

  normalize_services-valid :
      (ss : List (Option (ServiceSettings F)))
      → All IsValidService ss
      → All IsValidService (normalize_services fl lib ss)
  unfolding normalize_services
  normalize_services-valid [] h = tt
  normalize_services-valid (none ∷ ss) h = absurd h.0
  normalize_services-valid (some s ∷ ss) h = elim (Bool-cases (named fl lib s.name ss)) [
    | inl later ↦ rw later (h.0, normalize_services-valid ss h.1)
    | inr last ↦ rw last (normalize_in_service-valid s _ h.0, normalize_services-valid ss h.1)
  ]

  normalize_services_names :
      (ss : List (Option (ServiceSettings F)))
      → service_names (normalize_services fl lib ss) ≡ service_names ss
  unfolding normalize_services
  normalize_services_names [] = refl
  normalize_services_names (none ∷ ss) = normalize_services_names ss
  normalize_services_names (some s ∷ ss) = elim (Bool-cases (named fl lib s.name ss)) [
    | inl later ↦ rw later (ap (◌∷◌ s.name) (normalize_services_names ss))
    | inr last ↦ rw last (ap (◌∷◌ s.name) (normalize_services_names ss))
  ]

  -- Settings that are valid stay so when their points are scaled.
  pub normalize_points-IsValid : (s : Settings F) → IsValid s → IsValid (normalize_points fl lib s)
  unfolding normalize_points
  normalize_points-IsValid s h = (
    normalize_services-valid s.services h.0,
    subst Distinct (sym (normalize_services_names s.services)) h.1,
  )

  -- Every checker has its points multiplied by one factor and its penalty by another.
  abbrev pub scaled : F → F → Option (CheckerSettings F) → Option (CheckerSettings F)
  scaled p q none = none
  scaled p q (some c) = some (record c {
    success_points = fl.mul c.success_points p;
    fail_penalty = fl.mul c.fail_penalty q;
  })

  -- A service with every checker scaled, by the target over its sum of points per second and over
  -- its sum of penalties per second; the factor is 0 where the sum is.
  abbrev pub rescaled : Option (ServiceSettings F) → Option (ServiceSettings F)
  rescaled none = none
  rescaled (some s) =
      let (points, penalty) = sum_points fl lib s.checkers (fl.of_ℕ 0, fl.of_ℕ 0) in
      let factor = λ (sum : F). if fl.is_zero sum then fl.of_ℕ 0 else fl.div (fl.of_ℕ 1000) sum in
      some (record s { checkers = map (scaled (factor points) (factor penalty)) s.checkers })

  scale_points-map :
      (p q : F) (cs : List (Option (CheckerSettings F)))
      → scale_points fl lib p q cs ≡ map (scaled p q) cs
  unfolding scale_points
  scale_points-map p q [] = refl
  scale_points-map p q (none ∷ cs) = ap (◌∷◌ none) (scale_points-map p q cs)
  scale_points-map p q (some c ∷ cs) = ap (◌∷◌ (scaled p q (some c))) (scale_points-map p q cs)

  named_apart :
      (name : String) (ss : List (Option (ServiceSettings F)))
      → All (λ y. name ≢ y) (service_names ss)
      → named fl lib name ss ≡ false
  unfolding named
  named_apart name [] h = refl
  named_apart name (none ∷ ss) h = named_apart name ss h
  named_apart name (some s ∷ ss) h =
      ground (arith, string_eq.beq_iff s.name name, h.0, named_apart name ss h.1)

  normalize_services-map :
      (ss : List (Option (ServiceSettings F)))
      → Distinct (service_names ss)
      → normalize_services fl lib ss ≡ map rescaled ss
  unfolding normalize_services normalize_in_service coefficient
  normalize_services-map [] h = refl
  normalize_services-map (none ∷ ss) h = ap (◌∷◌ none) (normalize_services-map ss h)
  normalize_services-map (some s ∷ ss) h =
      rw (named_apart s.name ss h.0, scale_points-map)
        (ap (◌∷◌ (rescaled (some s))) (normalize_services-map ss h.1))

  -- Where no two services share a name, every service is rescaled.
  pub normalize_points_all :
      (s : Settings F)
      → Distinct (service_names s.services)
      → (normalize_points fl lib s).services ≡ map rescaled s.services
  unfolding normalize_points
  normalize_points_all s h = normalize_services-map s.services h
