-- ===== src/CheckerCtrl/Described.antt =====
-- What the settings say of a checker, found in what the program goes by.
use govnilo.Prelude.{
  ℤ, ◌≡◌, refl, sym, ap, ◌∙◌, ◌≢◌, string_eq, if◌then◌else◌, List, [], ◌∷◌, Option, none, some,
  String, ◌⊎◌, inl, inr, All, All-mono, map, lookup, insert, lookup-insert_self, lookup-insert_ne,
  ok,
}
use mathlib.Core.Path.{subst}
use govnilo.Floats.{Floats}
use govnilo.RateLimit.{RateLibrary}
use govnilo.Proto.{Settings, ServiceSettings, CheckerSettings}
use govnilo.Proto
use govnilo.RateRunner.{RunOptions}
use govnilo.SettingsProvider.{validate}
use govnilo.SettingsProvider.Valid.{
  Distinct, IsValidService, IsValid, checker_names, service_names, validate-iff-IsValid,
}
use govnilo.CheckerCtrl.Helpers.{
  CheckerId, services_into, service_map, checkers_into, checkers_map, options_of, rate_of_proto,
}
use govnilo.CheckerCtrl.Points.{sum_points, normalize_points}
use govnilo.CheckerCtrl.Normalize.{scaled, rescaled, normalize_points_all, normalize_points-IsValid}
use govnilo.CheckerCtrl.Task.{TaskSettings, update_settings}
use govnilo.CheckerCtrl.{Controller, options_for, sync_state}
use govnilo.CheckerCtrl.Sync.{IsHandled, HasOptions, DistinctHandles, sync_state_applies}

abbrev pub Among : {A : Type 0} → A → List A → Type 0
Among x [] = ⊥
Among x (y ∷ ys) = (y ≡ x) ⊎ Among x ys

Among-map : {A B : Type 0} (f : A → B) (x : A) (xs : List A) → Among x xs → Among (f x) (map f xs)
Among-map f x [] there = elim there [ ]
Among-map f x (y ∷ ys) (inl e) = inl (ap f e)
Among-map f x (y ∷ ys) (inr there) = inr (Among-map f x ys there)

Among-All : {A : Type 0} (P : A → Type 0) (x : A) (xs : List A) → All P xs → Among x xs → P x
Among-All P x [] h there = elim there [ ]
Among-All P x (y ∷ ys) h (inl e) = subst P e h.0
Among-All P x (y ∷ ys) h (inr there) = Among-All P x ys h.1 there

module _ {F : Type 0} where
  services_into_other :
      (k : String) (ss : List (Option (ServiceSettings F))) (m : List (String × ServiceSettings F))
      → All (λ n. k ≢ n) (service_names ss)
      → lookup k (services_into ss m) ≡ lookup k m
  unfolding services_into
  services_into_other k [] m h = refl
  services_into_other k (none ∷ ss) m h = services_into_other k ss m h
  services_into_other k (some s ∷ ss) m h =
      services_into_other k ss (insert s.name s m) h.1
      ∙ lookup-insert_ne s.name k s m (λ e. h.0 (sym e))

  lookup-services_into :
      (s : ServiceSettings F) (ss : List (Option (ServiceSettings F)))
      (m : List (String × ServiceSettings F))
      → Distinct (service_names ss)
      → Among (some s) ss
      → lookup s.name (services_into ss m) ≡ some s
  unfolding services_into
  lookup-services_into s [] m d there = elim there [ ]
  lookup-services_into s (none ∷ ss) m d (inl e) = absurd (cc e)
  lookup-services_into s (none ∷ ss) m d (inr there) = lookup-services_into s ss m d there
  lookup-services_into s (some t ∷ ss) m d (inl e) =
      let it : t ≡ s = cc e in
      rw (← it)
        (services_into_other t.name ss (insert t.name t m) d.0 ∙ lookup-insert_self t.name t m)
  lookup-services_into s (some t ∷ ss) m d (inr there) =
      lookup-services_into s ss (insert t.name t m) d.1 there

  checkers_into_other :
      (k : String) (cs : List (Option (CheckerSettings F))) (m : List (String × CheckerSettings F))
      → All (λ n. k ≢ n) (checker_names cs)
      → lookup k (checkers_into cs m) ≡ lookup k m
  unfolding checkers_into
  checkers_into_other k [] m h = refl
  checkers_into_other k (none ∷ cs) m h = checkers_into_other k cs m h
  checkers_into_other k (some c ∷ cs) m h =
      checkers_into_other k cs (insert c.name c m) h.1
      ∙ lookup-insert_ne c.name k c m (λ e. h.0 (sym e))

  lookup-checkers_into :
      (c : CheckerSettings F) (cs : List (Option (CheckerSettings F)))
      (m : List (String × CheckerSettings F))
      → Distinct (checker_names cs)
      → Among (some c) cs
      → lookup c.name (checkers_into cs m) ≡ some c
  unfolding checkers_into
  lookup-checkers_into c [] m d there = elim there [ ]
  lookup-checkers_into c (none ∷ cs) m d (inl e) = absurd (cc e)
  lookup-checkers_into c (none ∷ cs) m d (inr there) = lookup-checkers_into c cs m d there
  lookup-checkers_into c (some b ∷ cs) m d (inl e) =
      let it : b ≡ c = cc e in
      rw (← it)
        (checkers_into_other b.name cs (insert b.name b m) d.0 ∙ lookup-insert_self b.name b m)
  lookup-checkers_into c (some b ∷ cs) m d (inr there) =
      lookup-checkers_into c cs (insert b.name b m) d.1 there

  module _ (settings : Settings F) (valid : IsValid settings) (svc : ServiceSettings F)
      (c : CheckerSettings F) (listed : Among (some svc) settings.services)
      (within : Among (some c) svc.checkers) where
    found_service : lookup svc.name (service_map settings) ≡ some svc
    unfolding service_map
    found_service = lookup-services_into svc settings.services [] valid.1 listed

    found_checker : lookup c.name (checkers_map svc.checkers) ≡ some c
    unfolding checkers_map
    found_checker =
        let (_, _, distinct) =
          Among-All IsValidService (some svc) settings.services valid.0 listed in
        lookup-checkers_into c svc.checkers [] distinct within

    update_settings_found :
        (last : Option (TaskSettings F))
        → update_settings (record { service = svc.name; name = c.name }) (some settings) last
          ≡ some (record { target = svc.target; settings = c })
    unfolding update_settings
    update_settings_found last = rw found_service (
        ap
          (λ (found : Option (CheckerSettings F)). elim found as (λ _. Option (TaskSettings F)) [
            | none ↦ last
            | some c' ↦ some (record { target = svc.target; settings = c' })
          ])
          found_checker)

    options_for_found :
        options_for settings (record { service = svc.name; name = c.name }) ≡ options_of (some c)
    unfolding options_for
    options_for_found = rw (found_service, options_for) (rw found_checker refl)

options_of_rated :
    {F : Type 0} (c : CheckerSettings F) (o : Proto.RunOptions) (r : Proto.Rate) (per : ℤ)
    → c.run_options ≡ some o
    → o.rate ≡ some r
    → r.per ≡ some per
    → options_of (some c)
      ≡ record { rate = record { times = r.times; per = per }; max_goroutines = o.max_goroutines }
unfolding options_of rate_of_proto
options_of_rated c o r per options rated timed = rw options (rw rated (rw timed refl))

-- A checker as the settings that are in force have it: with the points of a success and the penalty
-- of a failure each multiplied by 1000 over the sum of them per second in the service, or by 0 where
-- that sum is 0.
abbrev pub weighed :
    (fl : Floats) (lib : RateLibrary fl)
    → ServiceSettings fl.F
    → CheckerSettings fl.F
    → CheckerSettings fl.F
weighed fl lib svc c =
    let (points, penalty) = sum_points fl lib svc.checkers (fl.of_ℕ 0, fl.of_ℕ 0) in
    let factor = λ (sum : fl.F). if fl.is_zero sum then fl.of_ℕ 0 else fl.div (fl.of_ℕ 1000) sum in
    record c {
      success_points = fl.mul c.success_points (factor points);
      fail_penalty = fl.mul c.fail_penalty (factor penalty);
    }

module _ {fl : Floats} {lib : RateLibrary fl} where
  HasOptions-at :
      (ask : CheckerId → RunOptions) (r : Controller fl lib) (id : CheckerId) (o : RunOptions)
      → ask id ≡ o
      → All (λ x. HasOptions r.rr (x.1) (ask (x.0))) r.checkers
      → All (λ x. x.0 ≡ id → HasOptions r.rr (x.1) o) r.checkers
  HasOptions-at ask r id o e h =
      All-mono (λ x. HasOptions r.rr (x.1) (ask (x.0))) (λ x. x.0 ≡ id → HasOptions r.rr (x.1) o)
        r.checkers (λ x has same. subst (λ p. HasOptions r.rr (x.1) p) (ap ask same ∙ e) has) h

  -- What valid settings say of a checker of a service takes effect in the round that gets them, with
  -- good and different handles: every registered checker of that service and name has a task with
  -- the rate and the limit that are given, and when the checker next looks up its settings it has
  -- the target of the service, and its points and its penalty, weighed over the service.
  pub described_applies :
      (E : Type 0) (c : Controller fl lib) (settings : Settings fl.F) (svc : ServiceSettings fl.F)
      (k : CheckerSettings fl.F) (o : Proto.RunOptions) (r : Proto.Rate) (per : ℤ)
      (last : Option (TaskSettings fl.F))
      → validate settings ≡ none
      → Among (some svc) settings.services
      → Among (some k) svc.checkers
      → k.run_options ≡ some o
      → o.rate ≡ some r
      → r.per ≡ some per
      → All (λ x. IsHandled c.rr (x.1)) c.checkers
      → DistinctHandles c.checkers
      → let id : CheckerId = record { service = svc.name; name = k.name } in
        let c' = (sync_state {E = E} c (ok settings)).0 in
        (update_settings id c'.current_settings last
          ≡ some (record { target = svc.target; settings = weighed fl lib svc k }))
        × All
            (λ x.
              x.0 ≡ id
              → HasOptions c'.rr (x.1) (record {
                rate = record { times = r.times; per = per };
                max_goroutines = o.max_goroutines;
              }))
            c'.checkers
  described_applies E c settings svc k o r per last passes listed within options rated timed h d =
      let settings' = normalize_points fl lib settings in
      let c' = (sync_state {E = E} c (ok settings)).0 in
      let v = (validate-iff-IsValid settings).0 passes in
      let v' = normalize_points-IsValid fl lib settings v in
      let (_, stored, has) = sync_state_applies {E = E} c settings passes h d in
      let (points, penalty) = sum_points fl lib svc.checkers (fl.of_ℕ 0, fl.of_ℕ 0) in
      let factor =
        λ (sum : fl.F). if fl.is_zero sum then fl.of_ℕ 0 else fl.div (fl.of_ℕ 1000) sum in
      let scale = scaled fl lib (factor points) (factor penalty) in
      let svc' : ServiceSettings fl.F = record svc { checkers = map scale svc.checkers } in
      let k' = weighed fl lib svc k in
      let listed' : Among (some svc') settings'.services =
        subst (λ l. Among (some svc') l) (sym (normalize_points_all fl lib settings v.1))
          (Among-map (rescaled fl lib) (some svc) settings.services listed) in
      let within' : Among (some k') svc'.checkers = Among-map scale (some k) svc.checkers within in
      (
        rw stored (update_settings_found settings' v' svc' k' listed' within' last),
        HasOptions-at (options_for settings') c' (record { service = svc.name; name = k.name }) _
            (options_for_found settings' v' svc' k' listed' within'
              ∙ options_of_rated k' o r per options rated timed)
            has,
      )
