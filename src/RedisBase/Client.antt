-- ===== src/RedisBase/Client.antt =====
-- What internal/redisbase uses of the Redis client (github.com/redis/go-redis), and the interface
-- `Entity` of internal/redisbase/interface.go, whose implementations are the checkers' own.
use govnilo.Prelude.{ℕ, ℤ, List, Option, String, ◌⊎◌}

-- A reply: a value, `redis.Nil`, or another error.
pub data Reply (E A : Type 0) : Type 0 where
  value : A → Reply E A
  nil : Reply E A
  failed : E → Reply E A

-- The commands of a transaction: SET key data ttl, ZADD key score member, DEL key, ZREM key members.
-- A score is a Unix time, which a float64 holds exactly.
pub data Command (D : Type 0) : Type 0 where
  set : String → D → ℤ → Command D
  zadd : String → ℕ → String → Command D
  del : String → Command D
  zrem : String → List String → Command D

-- `S` is all that the replies depend on: the server, its clock, the connection.
pub record Redis (D E : Type 0) : Type 1 where
  pub S : Type 0
  pub get : String → S → S × Reply E D
  pub z_rand_member : String → ℕ → S → S × Reply E (List String)
  pub z_rev_range : String → ℕ → ℕ → S → S × Reply E (List String)
  pub z_range_by_score : String → ℤ → ℤ → S → S × Reply E (List String)  -- key, from -inf to, at most
  pub exec : List (Command D) → S → S × Option E

-- `Decode` fills a new entity.
pub record Entity (T D E : Type 0) : Type 0 where
  pub get_id : T → String
  pub encode : T → E ⊎ D
  pub decode : D → E ⊎ T
