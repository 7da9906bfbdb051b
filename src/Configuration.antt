-- ===== src/Configuration.antt =====
-- internal/configuration: the configuration of the program, with `Read` and `Validate`, and the
-- choice between the two sources of settings (internal/fxbuild/constructors.go). Reading the file,
-- expanding the environment and parsing YAML are parameters. The host, the port and the user of
-- Redis are only tested for being there.
pub mod Usable
use govnilo.Prelude.{
  ℕ, ℤ, pos, ◌==◌, nat_eq, int_eq, string_eq, Bool, true, false, if◌then◌else◌, Option, none, some,
  String, ◌⊎◌, inl, inr, Outcome, ok, err,
}
use govnilo.Hzlog.Config.{LoggingConfig, default_logging}

pub record Redis : Type 0 where
  pub host : String
  pub port : ℤ  -- int
  pub username : String
  pub password : String
  pub db : ℤ

pub record FileConfig : Type 0 where
  pub path : String

-- `A` is `adminklient.ClientConfig`.
pub record Config (A : Type 0) : Type 0 where
  pub logging : LoggingConfig
  pub serve_port : ℕ  -- uint
  pub sync_interval : ℤ  -- time.Duration
  pub metrics_port : ℕ  -- uint64
  pub from_admin : Option A
  pub from_file : Option FileConfig
  pub redis : Redis

pub data RedisError : Type 0 where
  no_host no_port no_username no_password : RedisError

-- One constructor for each message of `Validate`.
pub data Invalid : Type 0 where
  no_serve_port no_sync_interval no_metrics_port : Invalid
  no_provider two_providers : Invalid
  invalid_redis : RedisError → Invalid

pub data Error (E : Type 0) : Type 0 where
  cannot_read cannot_parse : E → Error E
  invalid : Invalid → Error E

unfoldable pub validate_redis : Redis → Option RedisError
validate_redis r =
    if r.host == ""
    then some no_host
    else if r.port == pos 0
    then some no_port
    else if r.username == ""
    then some no_username
    else if r.password == ""
    then some no_password
    else none

abbrev pub default_redis : Redis
default_redis = record {
  host = "localhost";
  port = pos 6_379;
  username = "govnilo";
  password = "govnilo-rulit";
  db = pos 0;
}

unfoldable pub check_redis : Option RedisError → Option Invalid
check_redis none = none
check_redis (some e) = some (invalid_redis e)

unfoldable pub or_next : Option Invalid → Option Invalid → Option Invalid
or_next none next = next
or_next (some e) next = some e

module _ {A : Type 0} where
  -- The tests on the two providers.
  unfoldable pub validate_providers : Option A → Option FileConfig → Option Invalid
  validate_providers none none = some no_provider
  validate_providers none (some f) = none
  validate_providers (some a) none = none
  validate_providers (some a) (some f) = some two_providers

  unfoldable pub validate : Config A → Option Invalid
  unfolding validate_redis validate_providers check_redis or_next
  validate c =
      if c.serve_port == 0
      then some no_serve_port
      else if c.sync_interval == pos 0
      then some no_sync_interval
      else if c.metrics_port == 0
      then some no_metrics_port
      else or_next (validate_providers c.from_admin c.from_file)
          (check_redis (validate_redis c.redis))

  abbrev pub default_config : Config A
  default_config = record {
    logging = default_logging;
    serve_port = 13_337;
    sync_interval = pos 1_000_000_000;
    metrics_port = 14_448;
    from_admin = none;
    from_file = some (record { path = "/etc/govnilo/settings.yaml" });
    redis = default_redis;
  }

-- `os.ReadFile`, `os.ExpandEnv` and `yaml.Unmarshal`, with the environment as it is.
pub record Reader (A D E : Type 0) : Type 0 where
  pub read_file : String → E ⊎ D
  pub expand_env : D → D
  pub parse : D → E ⊎ Config A

module _ {A D E : Type 0} (reader : Reader A D E) where
  open reader use {read_file, expand_env, parse}

  unfoldable pub finish_read : Config A → Option Invalid → Outcome (Error E) (Config A)
  finish_read c none = ok c
  finish_read c (some e) = err (invalid e)

  unfoldable pub check_parsed : E ⊎ Config A → Outcome (Error E) (Config A)
  unfolding finish_read
  check_parsed (inl e) = err (cannot_parse e)
  check_parsed (inr c) = finish_read c (validate c)

  unfoldable pub parse_read : E ⊎ D → Outcome (Error E) (Config A)
  unfolding check_parsed
  parse_read (inl e) = err (cannot_read e)
  parse_read (inr text) = check_parsed (parse (expand_env text))

  unfoldable pub read : String → Outcome (Error E) (Config A)
  unfolding parse_read
  read conf_path = if conf_path == "" then ok default_config else parse_read (read_file conf_path)

-- The provider that `GetConstructors` picks, with the configuration that it is given.
pub data Provider (A : Type 0) : Type 0 where
  file_provider : Option FileConfig → Provider A
  admin_provider : Option A → Provider A

unfoldable pub pick_provider : {A : Type 0} → Config A → Provider A
pick_provider c = elim c.from_file [
  | some f ↦ file_provider (some f)
  | none ↦ admin_provider c.from_admin
]
