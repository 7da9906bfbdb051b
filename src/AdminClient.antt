-- ===== src/AdminClient.antt =====
-- pkg/adminka/adminklient: the client of the admin service, and the one that asks it at intervals
-- and answers from what it heard last. The connection and the generated stub are parameters: a
-- dialling, and the replies to the calls. A message may be nil.
pub mod History
use govnilo.Prelude.{
  ℤ, pos, ◌==◌, int_eq, Bool, if◌then◌else◌, List, [], ◌∷◌, Option, none, some, String, ◌⊎◌, inl,
  inr,
}
use govnilo.Proto.{Settings}

pub record AsyncClientConfig : Type 0 where
  pub refresh_interval : ℤ  -- time.Duration
  pub timeout : ℤ

pub record GrpcClientConfig : Type 0 where
  pub target : String

pub record TransportConfig : Type 0 where
  pub grpc : Option GrpcClientConfig

pub record ClientConfig : Type 0 where
  pub async : Option AsyncClientConfig
  pub transport : Option TransportConfig

pub data Error (E : Type 0) : Type 0 where
  no_transport no_grpc not_known : Error E
  cannot_dial cannot_get : E → Error E

-- `NewAsync` replaces settings of 0.
unfoldable pub with_defaults : AsyncClientConfig → AsyncClientConfig
with_defaults c = record {
  refresh_interval = if c.refresh_interval == pos 0 then pos 5_000_000_000 else c.refresh_interval;
  timeout = if c.timeout == pos 0 then pos 3_000_000_000 else c.timeout;
}

-- A client that `New` returns: a connection, and how it is refreshed if it is asynchronous.
pub record Client (C : Type 0) : Type 0 where
  pub connection : C
  pub refreshed : Option AsyncClientConfig

module _ {C E : Type 0} (dial : GrpcClientConfig → E ⊎ C) where
  unfoldable pub dialled : Option AsyncClientConfig → E ⊎ C → Error E ⊎ Client C
  unfolding with_defaults
  dialled async (inl e) = inl (cannot_dial e)
  dialled none (inr c) = inr (record { connection = c; refreshed = none })
  dialled (some conf) (inr c) =
      inr (record { connection = c; refreshed = some (with_defaults conf) })

  unfoldable pub with_transport : Option AsyncClientConfig → TransportConfig → Error E ⊎ Client C
  unfolding dialled
  with_transport async transport = elim transport.grpc [
    | none ↦ inl no_grpc
    | some grpc ↦ dialled async (dial grpc)
  ]

  unfoldable pub new_client : ClientConfig → Error E ⊎ Client C
  unfolding with_transport
  new_client c = elim c.transport [
    | none ↦ inl no_transport
    | some transport ↦ with_transport c.async transport
  ]

module _ {F E : Type 0} where
  -- The stub replies with an error, or with a response that has settings or none.
  -- `GRPCClient.GetConfig`
  unfoldable pub get_config_grpc : E ⊎ Option (Settings F) → Error E ⊎ Option (Settings F)
  get_config_grpc (inl e) = inl (cannot_get e)
  get_config_grpc (inr s) = inr s

  -- What the refresh stores: the settings of the reply, which are nil with an error.
  unfoldable pub store_reply : Error E ⊎ Option (Settings F) → Option (Settings F)
  store_reply (inl e) = none
  store_reply (inr s) = s

  -- `sync` in `run`, on `lastState`.
  unfoldable pub refresh : Option (Settings F) → E ⊎ Option (Settings F) → Option (Settings F)
  unfolding get_config_grpc store_reply
  refresh last r = store_reply (get_config_grpc r)

  -- The loop of `run`, over the replies so far.
  unfoldable pub refresh_all :
      Option (Settings F) → List (E ⊎ Option (Settings F)) → Option (Settings F)
  unfolding refresh
  refresh_all last [] = last
  refresh_all last (r ∷ rs) = refresh_all (refresh last r) rs

  -- `AsyncClient.GetConfig`
  unfoldable pub get_config_async : Option (Settings F) → Error E ⊎ Option (Settings F)
  get_config_async none = inl not_known
  get_config_async (some s) = inr (some s)
