-- ===== src/Configuration/Usable.antt =====
-- What `Validate` accepts, and what `Read` returns.
use govnilo.Prelude.{
  pos, ◌==◌, ◌≡◌, refl, sym, ap, ◌∙◌, ◌≢◌, ◌↔◌, nat_eq, int_eq, string_eq, if◌then◌else◌, Option,
  none, some, String, ◌⊎◌, inl, inr, ok, arith, Bool-cases,
}
use govnilo.Configuration.{
  Redis, FileConfig, Config, validate_redis, validate_providers, Invalid, RedisError, check_redis,
  or_next, validate, default_config, Reader, finish_read, check_parsed, parse_read, read, Provider,
  file_provider, admin_provider, pick_provider,
}

abbrev pub IsUsableRedis : Redis → Type 0
IsUsableRedis r = (r.host ≢ "") × (r.port ≢ pos 0) × (r.username ≢ "") × (r.password ≢ "")

-- One of two is there.
abbrev pub IsEither : {A B : Type 0} → Option A → Option B → Type 0
IsEither none none = ⊥
IsEither none (some _) = Unit
IsEither (some _) none = Unit
IsEither (some _) (some _) = ⊥

validate_redis_iff : (r : Redis) → (validate_redis r ≡ none) ↔ IsUsableRedis r
unfolding validate_redis
validate_redis_iff r = ground (
  arith,
  string_eq.beq_iff r.host "",
  int_eq.beq_iff r.port (pos 0),
  string_eq.beq_iff r.username "",
  string_eq.beq_iff r.password "",
)

check_redis-none : (o : Option RedisError) → (check_redis o ≡ none) ↔ (o ≡ none)
unfolding check_redis
check_redis-none none = ((λ _. refl), λ _. refl)
check_redis-none (some e) = ground arith

or_next_iff : (e f : Option Invalid) → (or_next e f ≡ none) ↔ ((e ≡ none) × (f ≡ none))
unfolding or_next
or_next_iff none f = ((λ h. (refl, h)), λ h. h.1)
or_next_iff (some e) f = ground arith

module _ {A : Type 0} where
  abbrev pub IsUsable : Config A → Type 0
  IsUsable c =
      (c.serve_port ≢ 0)
      × (c.sync_interval ≢ pos 0)
      × (c.metrics_port ≢ 0)
      × IsEither c.from_admin c.from_file
      × IsUsableRedis c.redis

  validate_providers_iff :
      (a : Option A) (f : Option FileConfig) → (validate_providers a f ≡ none) ↔ IsEither a f
  unfolding validate_providers
  validate_providers_iff none none = ((λ h. ground arith), λ h. absurd h)
  validate_providers_iff none (some f) = ((λ _. tt), λ _. refl)
  validate_providers_iff (some a) none = ((λ _. tt), λ _. refl)
  validate_providers_iff (some a) (some f) = ((λ h. ground arith), λ h. absurd h)

  -- `Validate` accepts exactly a configuration with both ports, an interval, one of the two providers
  -- of settings and not the other, and a host, a port, a user and a password for Redis.
  validate-iff-IsUsable : (c : Config A) → (validate c ≡ none) ↔ IsUsable c
  unfolding validate
  validate-iff-IsUsable c =
      let redis = check_redis (validate_redis c.redis) in
      ground (
        arith,
        or_next_iff (validate_providers c.from_admin c.from_file) redis,
        validate_providers_iff c.from_admin c.from_file,
        check_redis-none (validate_redis c.redis),
        validate_redis_iff c.redis,
        int_eq.beq_iff c.sync_interval (pos 0),
      )

  default_config-IsUsable : (c : Config A) → default_config ≡ c → IsUsable c
  default_config-IsUsable c e = rw (← e) (
      ground (
        arith,
        string_eq.beq_iff "localhost" "",
        string_eq.beq_iff "govnilo" "",
        string_eq.beq_iff "govnilo-rulit" "",
      ))

  -- The provider has been given its configuration.
  abbrev pub IsConfigured : Provider A → Type 0
  IsConfigured (file_provider f) = f ≢ none
  IsConfigured (admin_provider a) = a ≢ none

  pick_provider-IsConfigured : (c : Config A) → IsUsable c → IsConfigured (pick_provider c)
  unfolding pick_provider
  pick_provider-IsConfigured c u = go c.from_admin c.from_file u.3
    where
      go :
          (a : Option A) (f : Option FileConfig)
          → IsEither a f
          → IsConfigured (pick_provider (record c { from_admin = a; from_file = f }))
      go none none h = absurd h
      go none (some f) h = ground arith
      go (some a) none h = ground arith
      go (some a) (some f) h = absurd h

  module _ {D E : Type 0} (reader : Reader A D E) where
    finish_read-ok :
        (c c' : Config A) (o : Option Invalid)
        → finish_read reader c o ≡ ok c'
        → (c ≡ c') × (o ≡ none)
    unfolding finish_read
    finish_read-ok c c' none h = (cc h, refl)
    finish_read-ok c c' (some e) h = ground arith

    check_parsed-ok :
        (p : E ⊎ Config A) (c : Config A) → check_parsed reader p ≡ ok c → validate c ≡ none
    unfolding check_parsed
    check_parsed-ok (inl e) c h = ground arith
    check_parsed-ok (inr p) c h =
        let (same, passed) = finish_read-ok p c (validate p) h in rw (← same) passed

    parse_read-ok : (t : E ⊎ D) (c : Config A) → parse_read reader t ≡ ok c → validate c ≡ none
    unfolding parse_read
    parse_read-ok (inl e) c h = ground arith
    parse_read-ok (inr t) c h = check_parsed-ok (reader.parse (reader.expand_env t)) c h

    -- Every configuration that `Read` returns, the default one too, is usable, and the provider of
    -- settings that is picked for it has its configuration.
    pub read-IsUsable :
        (conf_path : String) (c : Config A)
        → read reader conf_path ≡ ok c
        → IsUsable c × IsConfigured (pick_provider c)
    unfolding read
    read-IsUsable conf_path c h = elim (Bool-cases (conf_path == "")) [
      | inl unset ↦
          let both : ok default_config ≡ ok c =
            sym (
              ap
                (λ b.
                  if b then ok default_config else parse_read reader (reader.read_file conf_path))
                unset)
            ∙ h in
          let it : default_config ≡ c = cc both in
          let u = default_config-IsUsable c it in (u, pick_provider-IsConfigured c u)
      | inr given ↦
          let parsed : parse_read reader (reader.read_file conf_path) ≡ ok c =
            sym (
              ap
                (λ b.
                  if b then ok default_config else parse_read reader (reader.read_file conf_path))
                given)
            ∙ h in
          let u =
            (validate-iff-IsUsable c).0 (parse_read-ok (reader.read_file conf_path) c parsed) in
          (u, pick_provider-IsConfigured c u)
    ]
