-- ===== src/RedisClient.antt =====
-- internal/fxbuild/redis.go: the client of Redis that the storages of the checkers get, with the hook
-- that logs what it does. The attributes of the lines are left out. The library's client is a
-- parameter; it calls a hook with the function that carries out the operation, which is `next`.
pub mod Hooked
pub mod Answers
use govnilo.Prelude.{ℤ, List, [], ◌∷◌, ◌++◌, Option, none, some, String, ◌⊎◌, inl, inr}
use govnilo.Configuration
use govnilo.RedisBase.{Redis, Reply, value, nil, failed}

pub data Line : Type 0 where
  info error : String → Line

-- The line after the call of `next`: the error of a missing key, `redis.Nil`, is one as well.
abbrev pub command_line : {E A : Type 0} → Reply E A → Line
command_line (value a) = info "command in redis finished"
command_line nil = error "failed to run command in redis"
command_line (failed e) = error "failed to run command in redis"

abbrev pub pipeline_line : {E : Type 0} → Option E → Line
pipeline_line none = info "pipeline in redis finished"
pipeline_line (some e) = error "failed to run pipeline in redis"

abbrev pub dial_line : {E C : Type 0} → E ⊎ C → Line
dial_line (inl e) = error "failed to dial with redis"
dial_line (inr conn) = info "successfully dialed with redis"

module _ {S E : Type 0} where
  pub process_hook :
      {A : Type 0} → (S → S × Reply E A) → S × List Line → (S × List Line) × Reply E A
  process_hook next (s, log) =
      let (s', r) = next s in
      ((s', log ++ (info "trying to run command in redis" ∷ command_line r ∷ [])), r)

  pub process_pipeline_hook : (S → S × Option E) → S × List Line → (S × List Line) × Option E
  process_pipeline_hook next (s, log) =
      let (s', e) = next s in
      ((s', log ++ (info "trying to run pipeline in redis" ∷ pipeline_line e ∷ [])), e)

  pub dial_hook : {C : Type 0} → (S → S × (E ⊎ C)) → S × List Line → (S × List Line) × (E ⊎ C)
  dial_hook next (s, log) =
      let (s', r) = next s in
      ((s', log ++ (info "trying to dial with redis" ∷ dial_line r ∷ [])), r)

-- The client with its hook: single commands go through `ProcessHook`, transactions through
-- `ProcessPipelineHook`.
abbrev pub hooked : {D E : Type 0} → Redis D E → Redis D E
hooked redis = record {
  S = redis.S × List Line;
  get = λ k. process_hook (redis.get k);
  z_rand_member = λ k n. process_hook (redis.z_rand_member k n);
  z_rev_range = λ k i j. process_hook (redis.z_rev_range k i j);
  z_range_by_score = λ k b max. process_hook (redis.z_range_by_score k b max);
  exec = λ cs. process_pipeline_hook (redis.exec cs);
}

pub data Error (E : Type 0) : Type 0 where
  cannot_connect : E → Error E

-- The start and stop hooks of `NewRedisClient`, by what `Ping` and `Close` return.
abbrev pub start_client : {E : Type 0} → Option E → Option (Error E)
start_client none = none
start_client (some e) = some (cannot_connect e)

abbrev pub stop_client : {E : Type 0} → Option E → List Line
stop_client none = info "closing redis client" ∷ info "redis client closed" ∷ []
stop_client (some e) = info "closing redis client" ∷ error "cannot close redis client" ∷ []
