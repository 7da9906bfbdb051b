-- ===== src/Startup/Servers.antt =====
-- The servers that the application starts: that of gRPC (internal/fxbuild/constructors.go) with its
-- interceptor (internal/grpcutil/logging.go), and that of the metrics (internal/metricsrv/server.go).
-- gRPC, net/http and `%d` are parameters; the hooks of the servers only call them.
use Prim.Native.String.{◌++◌ as string_append}
use govnilo.Prelude.{
  ℕ, ◌≡◌, refl, List, [], ◌∷◌, ◌++◌, Option, none, some, String, ◌⊎◌, inl, inr, Outcome, ok, err,
}

-- A line of the interceptor's log, with the method.
pub data Line (E : Type 0) : Type 0 where
  handled : String → Line E
  failed : String → E → Line E

module _ {S R E : Type 0} where
  -- The handler's response is passed on with its error, if there is one.
  after_handler : String → List (Line E) → S × R × Option E → (S × List (Line E)) × R × Option E
  after_handler method log (s, r, none) = ((s, log ++ (handled method ∷ [])), r, none)
  after_handler method log (s, r, some e) = ((s, log ++ (failed method e ∷ [])), r, some e)

  pub logging_unary_interceptor :
      {Q : Type 0}
      → (Q → S → S × R × Option E)
      → String
      → Q
      → S × List (Line E)
      → (S × List (Line E)) × R × Option E
  unfolding after_handler
  logging_unary_interceptor handler method req (s, log) = after_handler method log (handler req s)

  after_handler_same :
      (method : String) (log : List (Line E)) (r : S × R × Option E)
      → let ((s', _), rsp, e) = after_handler method log r in (s', rsp, e) ≡ r
  unfolding after_handler
  after_handler_same method log (s, rsp, none) = refl
  after_handler_same method log (s, rsp, some e) = refl

  -- With the interceptor, a handler does and answers what it does without.
  logging_unary_interceptor_same :
      {Q : Type 0} (handler : Q → S → S × R × Option E) (method : String) (req : Q) (s : S)
      (log : List (Line E))
      → let ((s', _), rsp, e) = logging_unary_interceptor handler method req (s, log) in
        (s', rsp, e) ≡ handler req s
  unfolding logging_unary_interceptor
  logging_unary_interceptor_same handler method req s log =
      after_handler_same method log (handler req s)

-- `0.0.0.0:%d`
abbrev pub any_address : (ℕ → String) → ℕ → String
any_address decimal port = string_append "0.0.0.0:" (decimal port)

-- `NewGRPCServer` up to the server, by what `net.Listen` returns: its error ends the process with
-- code 1.
pub grpc_listener : {E L : Type 0} → (ℕ → String) → ℕ → (String → E ⊎ L) → Outcome E L
grpc_listener decimal port listen = elim (listen (any_address decimal port)) [
  | inl e ↦ err e
  | inr lis ↦ ok lis
]

-- `New` of the metrics server.
pub record MetricsServer : Type 0 where
  pub addr : String

pub new_metrics_server : (ℕ → String) → ℕ → MetricsServer
new_metrics_server decimal port = record { addr = any_address decimal port }
