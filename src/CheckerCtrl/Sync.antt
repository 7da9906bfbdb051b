-- ===== src/CheckerCtrl/Sync.antt =====
-- What a round of `syncState` does to the rates.
use govnilo.Prelude.{
  ℕ, ℤ, pos, ◌+◌, ◌==◌, ◌≡◌, refl, sym, ap, ◌∙◌, ◌≢◌, int_eq, nat_eq, string_eq, if◌then◌else◌,
  List, [], ◌∷◌, Option, none, some, String, All, All-mono, lookup, insert, lookup-insert,
  lookup-insert_self, lookup-insert_ne, lookup-nil, forall-insert, ok, arith, inl, inr, Bool-cases,
  Option-cases,
}
use govnilo.Floats.{Floats}
use govnilo.RateLimit.{RateLibrary}
use govnilo.Proto.{Settings, ServiceSettings, CheckerSettings}
use govnilo.Proto
use govnilo.RateRunner.{RateRunner, TaskSpec, RunOptions, set_options}
use govnilo.RateRunner.Register.{set_options_ok}
use govnilo.SettingsProvider.{validate}
use govnilo.SettingsProvider.Valid.{
  IsValidChecker, IsValidService, IsValid, IsRated, IsRate, IsPeriod, validate-iff-IsValid,
}
use govnilo.CheckerCtrl.Helpers.{
  CheckerId, services_into, service_map, checkers_into, checkers_map, options_of, rate_of_proto,
  per_or_zero,
}
use govnilo.CheckerCtrl.Points.{normalize_points}
use govnilo.CheckerCtrl.Normalize.{normalize_points-IsValid}
use govnilo.CheckerCtrl.{
  Controller, options_for, apply_options, set_on_spec, sync_checkers, sync_outcome, sync_state,
}

module _ {F : Type 0} where
  services_into-valid :
      (ss : List (Option (ServiceSettings F))) (m : List (String × ServiceSettings F))
      → All IsValidService ss
      → ((k : String) (s : ServiceSettings F) → lookup k m ≡ some s → IsValidService (some s))
      → (k : String) (s : ServiceSettings F) → lookup k (services_into ss m) ≡ some s
      → IsValidService (some s)
  unfolding services_into
  services_into-valid [] m h v = v
  services_into-valid (none ∷ ss) m h v = absurd h.0
  services_into-valid (some s ∷ ss) m h v =
      services_into-valid ss (insert s.name s m) h.1
        (forall-insert (λ s'. IsValidService (some s')) s.name s m h.0 v)

  checkers_into-valid :
      (cs : List (Option (CheckerSettings F))) (m : List (String × CheckerSettings F))
      → All IsValidChecker cs
      → ((k : String) (c : CheckerSettings F) → lookup k m ≡ some c → IsValidChecker (some c))
      → (k : String) (c : CheckerSettings F) → lookup k (checkers_into cs m) ≡ some c
      → IsValidChecker (some c)
  unfolding checkers_into
  checkers_into-valid [] m h v = v
  checkers_into-valid (none ∷ cs) m h v = absurd h.0
  checkers_into-valid (some c ∷ cs) m h v =
      checkers_into-valid cs (insert c.name c m) h.1
        (forall-insert (λ c'. IsValidChecker (some c')) c.name c m h.0 v)

second_ne_zero : pos 1_000_000_000 ≢ pos 0
second_ne_zero = ground arith

rate_of_proto_per : (r : Option Proto.Rate) → IsRate r → (rate_of_proto r).per ≢ pos 0
unfolding rate_of_proto
rate_of_proto_per none h = absurd h
rate_of_proto_per (some r) h = period r.per h
  where
    period : (d : Option ℤ) → IsPeriod d → per_or_zero d ≢ pos 0
    period none k = absurd k
    period (some d) k = k

module _ {F : Type 0} where
  options_of_per :
      (found : Option (CheckerSettings F))
      → ((c : CheckerSettings F) → found ≡ some c → IsValidChecker (some c))
      → (options_of found).rate.per ≢ pos 0
  unfolding options_of
  options_of_per none h = second_ne_zero
  options_of_per (some c) h = rated c.run_options (h c refl).1
    where
      rated :
          (o : Option _)
          → IsRated o
          → (options_of (some (record c { run_options = o }))).rate.per ≢ pos 0
      rated none k = absurd k
      rated (some o) k = rate_of_proto_per o.rate k

  -- Valid settings ask no checker to run at a period of 0.
  pub options_for_per :
      (s : Settings F) (id : CheckerId) → IsValid s → (options_for s id).rate.per ≢ pos 0
  unfolding options_for service_map checkers_map
  options_for_per s id h = go (lookup id.service (service_map s)) refl
    where
      go :
          (found : Option (ServiceSettings F))
          → lookup id.service (service_map s) ≡ found
          → (options_for s id).rate.per ≢ pos 0
      go none e = rw (e, options_for) (options_of_per none (λ c k. cc k))
      go (some svc) e =
          let valid =
            services_into-valid s.services [] h.0 (λ k s' n. cc (n, lookup-nil k)) id.service svc
              e in
          rw (e, options_for)
            (options_of_per (lookup id.name (checkers_map svc.checkers))
              (checkers_into-valid svc.checkers [] valid.1 (λ k c n. cc (n, lookup-nil k)) id.name))

-- A handle is not nil, and its spec is there.
abbrev pub IsHandled :
    {fl : Floats} {lib : RateLibrary fl} → RateRunner fl lib → Option String → Type 0
IsHandled rr none = ⊥
IsHandled rr (some handle) = lookup handle rr.tasks ≢ none

-- The task that a handle points to has the options.
abbrev pub HasOptions :
    {fl : Floats} {lib : RateLibrary fl} → RateRunner fl lib → Option String → RunOptions → Type 0
HasOptions rr none options = ⊥
HasOptions {fl} {lib} rr (some handle) options =
    (t : TaskSpec fl lib) × (lookup handle rr.tasks ≡ some t) × (t.run_options ≡ options)

-- No two checkers have one handle.
abbrev pub DistinctHandles : List (CheckerId × Option String) → Type 0
DistinctHandles [] = Unit
DistinctHandles ((_, handle) ∷ cs) = All (λ c. handle ≢ c.1) cs × DistinctHandles cs

module _ {fl : Floats} {lib : RateLibrary fl} where
  apply_options_set :
      (rr : RateRunner fl lib) (handle : String) (options : RunOptions) (t t' : TaskSpec fl lib)
      → lookup handle rr.tasks ≡ some t
      → set_options fl lib t options ≡ (t', ok tt)
      → apply_options rr (some handle) options
        ≡ (record rr { tasks = insert handle t' rr.tasks }, 0)
  unfolding apply_options set_on_spec
  apply_options_set rr handle options t t' found set =
      rw (found, apply_options) (ap (set_on_spec rr handle) set)

  write-IsHandled :
      (rr : RateRunner fl lib) (handle : String) (t : TaskSpec fl lib) (other : Option String)
      → IsHandled rr other
      → IsHandled {fl = fl} {lib = lib} (record rr { tasks = insert handle t rr.tasks }) other
  write-IsHandled rr handle t none x = x
  write-IsHandled rr handle t (some k) x =
      let read = lookup-insert handle k t rr.tasks in
      elim (Bool-cases (handle == k)) [
        | inl same ↦ λ e. cc (e, read ∙ ap (λ b. if b then some t else lookup k rr.tasks) same)
        | inr apart ↦
            λ e. x (sym (read ∙ ap (λ b. if b then some t else lookup k rr.tasks) apart) ∙ e)
      ]

  write_others :
      (rr : RateRunner fl lib) (handle : String) (t : TaskSpec fl lib) (other : Option String)
      (o : RunOptions)
      → some handle ≢ other
      → HasOptions rr other o
      → HasOptions {fl = fl} {lib = lib} (record rr { tasks = insert handle t rr.tasks }) other o
  write_others rr handle t none o d x = x
  write_others rr handle t (some k) o d x =
      (x.0, lookup-insert_ne handle k t rr.tasks (λ e. d (ap some e)) ∙ x.1, x.2)

  -- One handle, at a period that is not 0: there is no error, its task gets the options, the others
  -- keep theirs.
  pub apply_options_lem :
      (rr : RateRunner fl lib) (handle : Option String) (options : RunOptions)
      → IsHandled rr handle
      → options.rate.per ≢ pos 0
      → let (rr', failed) = apply_options rr handle options in
        (failed ≡ 0)
        × HasOptions rr' handle options
        × ((other : Option String) → IsHandled rr other → IsHandled rr' other)
        × ((other : Option String) (o : RunOptions)
            → handle ≢ other
            → HasOptions rr other o
            → HasOptions rr' other o)
  apply_options_lem rr none options h n = absurd h
  apply_options_lem rr (some handle) options h n = elim (Option-cases (lookup handle rr.tasks)) [
    | inl gone ↦ absurd (h gone)
    | inr (t, found) ↦
        let (t', set, now) = set_options_ok t options n in
        rw (apply_options_set rr handle options t t' found set) (
          refl,
          (t', lookup-insert_self handle t' rr.tasks, now),
          write-IsHandled rr handle t',
          write_others rr handle t',
        )
  ]

  -- The loop, over handles that are all good and all different.
  sync_checkers_lem :
      (settings : Settings fl.F) (checkers : List (CheckerId × Option String))
      (rr : RateRunner fl lib) (errors : ℕ)
      → IsValid settings
      → All (λ c. IsHandled rr (c.1)) checkers
      → DistinctHandles checkers
      → let (rr', errors') = sync_checkers settings checkers rr errors in
        (errors' ≡ errors)
        × All (λ c. HasOptions rr' (c.1) (options_for settings (c.0))) checkers
        × ((other : Option String) (o : RunOptions)
            → All (λ c. c.1 ≢ other) checkers
            → HasOptions rr other o
            → HasOptions rr' other o)
  unfolding sync_checkers
  sync_checkers_lem settings [] rr errors v h d = (refl, tt, λ other o a x. x)
  sync_checkers_lem settings ((id, handle) ∷ checkers) rr errors v h d =
      let options = options_for settings id in
      let (none_failed, set, stays, kept) =
        apply_options_lem rr handle options h.0 (options_for_per settings id v) in
      let next = apply_options rr handle options in
      let (same, rest, kept') =
        sync_checkers_lem settings checkers (next.0) (errors + next.1) v
          (All-mono _ _ checkers (λ c. stays (c.1)) h.1) d.1 in
      (
        omega (arith, same, none_failed),
        (kept' handle options (All-mono _ _ checkers (λ c n e. n (sym e)) d.0) set, rest),
        λ other o a x. kept' other o a.1 (kept other o a.0 x),
      )

  -- A round with valid settings, over good and different handles, never fails: it stores the
  -- settings with their points scaled, and every checker's task gets the options that they ask of
  -- it, a rate of nothing where they do not mention it.
  pub sync_state_applies :
      {E : Type 0} (c : Controller fl lib) (settings : Settings fl.F)
      → validate settings ≡ none
      → All (λ x. IsHandled c.rr (x.1)) c.checkers
      → DistinctHandles c.checkers
      → let settings' = normalize_points fl lib settings in
        let (c', outcome) = sync_state {E = E} c (ok settings) in
        (outcome ≡ ok tt)
        × (c'.current_settings ≡ some settings')
        × All (λ x. HasOptions c'.rr (x.1) (options_for settings' (x.0))) c'.checkers
  unfolding sync_state sync_outcome
  sync_state_applies c settings valid h d =
      let v = normalize_points-IsValid fl lib settings ((validate-iff-IsValid settings).0 valid) in
      let (same, set, _) =
        sync_checkers_lem (normalize_points fl lib settings) c.checkers c.rr 0 v h d in
      (ap sync_outcome same, refl, set)
