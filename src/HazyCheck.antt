-- ===== src/HazyCheck.antt =====
-- internal/hazycheck and internal/registrar: the registration of the constructors of checkers, and the
-- transport of `NewConnector`; the commands `list-checkers` and `check` (internal/cmd/cmd) that look
-- checkers up. What reflection tells about a constructor is a record; dependency injection, http and
-- the metrics are parameters.
pub mod Registered
pub mod Commands
use govnilo.Prelude.{
  ℕ, ◌+◌, ◌==◌, Bool, true, false, not, if◌then◌else◌, List, [], ◌∷◌, ◌++◌, Option, none, some,
  String, ◌⊎◌, inl, inr, Outcome, ok, err, panic,
}
use govnilo.CheckerCtrl.Helpers.{CheckerId, checker_id_eq}
use govnilo.Hzlog.{Inner, Handler, Attr, with_attrs, text, other}

-- A result type of a constructor: the interfaces that it implements, and what `CheckerID` returns on
-- its zero value; `none` if that panics, as it does on the zero value of an interface.
pub record Out : Type 0 where
  pub is_error : Bool
  pub is_checker : Bool
  pub zero_id : Option CheckerId

-- An argument of a constructor: a `*slog.Logger` or a value of another type.
pub data Arg (L A : Type 0) : Type 0 where
  logger : L → Arg L A
  value : A → Arg L A

pub record Constructor (L A R : Type 0) : Type 0 where
  pub is_func : Bool
  pub outs : List Out
  pub call : List (Arg L A) → R

-- `registeredCheckers`, and the constructors of the registrar.
pub record Registry (L A R : Type 0) : Type 0 where
  pub registered_checkers : List CheckerId
  pub constructors : List (List (Arg L A) → R)

-- The messages of the panics of `RegisterChecker`, and the panic of `CheckerID` itself.
pub data Panic : Type 0 where
  not_func wrong_results not_checker no_id : Panic

-- The attributes that the logger of a checker carries.
abbrev pub checker_attrs : List Attr
checker_attrs =
    record { key = "component"; value = text "business:checker" }
    ∷ (record { key = "checker_id"; value = other } ∷ [])

-- The arguments that the constructor gets in place of those that it is called with.
unfoldable pub with_checker :
    {H A : Type 0} → Inner H → List (Arg (Handler H) A) → List (Arg (Handler H) A)
with_checker inner [] = []
with_checker inner (logger l ∷ args) =
    logger (with_attrs inner checker_attrs l) ∷ with_checker inner args
with_checker inner (value x ∷ args) = value x ∷ with_checker inner args

module _ {H A R : Type 0} (inner : Inner H) where
  -- The end of `RegisterChecker`, by what `CheckerID` returns.
  unfoldable pub add_constructor :
      Registry (Handler H) A R
      → (List (Arg (Handler H) A) → R)
      → Option CheckerId
      → Panic ⊎ Registry (Handler H) A R
  unfolding with_checker
  add_constructor r call none = inl no_id
  add_constructor r call (some id) = inr (record {
    registered_checkers = r.registered_checkers ++ (id ∷ []);
    constructors = r.constructors ++ ((λ args. call (with_checker inner args)) ∷ []);
  })

  unfoldable pub add_checker :
      Registry (Handler H) A R
      → (List (Arg (Handler H) A) → R)
      → Out
      → Panic ⊎ Registry (Handler H) A R
  unfolding add_constructor
  add_checker r call out =
      if out.is_checker then add_constructor r call out.zero_id else inl not_checker

  -- By the result types.
  unfoldable pub add_typed :
      Registry (Handler H) A R
      → (List (Arg (Handler H) A) → R)
      → List Out
      → Panic ⊎ Registry (Handler H) A R
  unfolding add_checker
  add_typed r call (out ∷ []) = add_checker r call out
  add_typed r call (out ∷ (error ∷ [])) =
      if error.is_error then add_checker r call out else inl wrong_results
  add_typed r call [] = inl wrong_results
  add_typed r call (out ∷ (error ∷ (more ∷ outs))) = inl wrong_results

  -- `RegisterChecker`
  unfoldable pub register_checker :
      Registry (Handler H) A R → Constructor (Handler H) A R → Panic ⊎ Registry (Handler H) A R
  unfolding add_typed
  register_checker r c = if c.is_func then add_typed r c.call c.outs else inl not_func

  -- `RegisterConstructor`, which tests nothing.
  unfoldable pub register_constructor :
      Registry (Handler H) A R → (List (Arg (Handler H) A) → R) → Registry (Handler H) A R
  register_constructor r call = record r { constructors = r.constructors ++ (call ∷ []) }

-- `RoundTrip` of the instrumented transport, by the response and the error of the transport within.
-- The status code is read first, whether there is a response or not. The counters are those of
-- failed and of answered requests.
pub record Response (B : Type 0) : Type 0 where
  pub status_code : ℕ
  pub body : B

pub record Counted : Type 0 where
  pub request_errors : ℕ
  pub durations : List ℕ  -- the status codes that a duration was recorded for

unfoldable pub round_trip :
    {B E : Type 0} → Counted → Option (Response B) → Option E → Counted × Outcome E (Response B)
round_trip m none error = (m, panic)
round_trip m (some rsp) (some e) = (record m { request_errors = m.request_errors + 1 }, err e)
round_trip m (some rsp) none = (record m { durations = rsp.status_code ∷ m.durations }, ok rsp)

-- The settings of the transport of `NewConnector`; `J` is a cookie jar.
pub record Transport : Type 0 where
  pub disable_keep_alives : Bool
  pub disable_compression : Bool
  pub max_idle_conns : ℕ
  pub max_idle_conns_per_host : ℕ
  pub max_conns_per_host : ℕ
  pub idle_conn_timeout : ℕ  -- time.Duration

pub record InstrumentedRoundTripper : Type 0 where
  pub inner : Transport
  pub svc : String

pub record Connector : Type 0 where
  pub t : InstrumentedRoundTripper

pub new_connector : String → Connector
new_connector svc = record {
  t = record {
    inner = record {
      disable_keep_alives = false;
      disable_compression = false;
      max_idle_conns = 30;
      max_idle_conns_per_host = 30;
      max_conns_per_host = 30;
      idle_conn_timeout = 300_000_000_000;
    };
    svc = svc;
  };
}

pub record HttpClient (J : Type 0) : Type 0 where
  pub transport : InstrumentedRoundTripper
  pub jar : J
  pub timeout : ℕ

-- `GetHTTPClient`, by what making a jar returns.
pub get_http_client : {E J : Type 0} → Connector → E ⊎ J → Outcome E (HttpClient J)
get_http_client c (inl e) = panic
get_http_client c (inr jar) = ok (record { transport = c.t; jar = jar; timeout = 5_000_000_000 })
