-- ===== src/RedisBase.antt =====
-- internal/redisbase: entities stored in Redis, with a sorted set of their ids by creation time.
-- The Redis client and the encoding of entities are parameters (RedisBase/Client.antt). Times are
-- arguments of the calls, in seconds. `T` is always a pointer type, so `NewStorage`'s test of its
-- kind passes; an error of `Delete` is only logged where `GetRandom` calls it.
mod Client
pub mod Laws
pub mod Keys
pub mod Store
pub mod Removal
pub mod Random
pub mod Routine
pub mod Calls
pub mod Views
pub mod Refinement
pub mod Draws
pub mod Whole
pub mod Saved
pub mod Outage
pub mod Metrics
pub mod Stale
pub mod Finding
use Prim.Native.String.{◌++◌ as string_append}
use govnilo.Prelude.{
  ℕ, zero, suc, ℤ, pos, negsuc, ◌+◌, ◌-◌, ◌/◌, ltb, not, ◌==◌, string_eq, int_eq, Bool, true, false,
  if◌then◌else◌, List, [], ◌∷◌, Option, none, some, String, ◌⊎◌, inl, inr, Outcome, ok, err,
}
unfoldable pub use Client.*

pub record StorageInput : Type 0 where
  pub service_name : String
  pub entity_name_plural : String
  pub ttl : ℤ  -- time.Duration
  pub cleanup_interval : ℤ
  pub cleanup_batch_size : ℤ  -- int64
  pub has_client : Bool

pub record Storage : Type 0 where
  pub storage_name : String
  pub key_prefix : String
  pub exp_z_set_key : String
  pub ttl : ℤ
  pub cleanup_interval : ℤ
  pub cleanup_batch_size : ℤ
  pub cleanup_cancel : Bool  -- whether it is not nil
  pub routines : ℕ  -- the cleanup goroutines that run

pub data Error (E : Type 0) : Type 0 where
  nil_client empty_service_name empty_entity_name : Error E
  empty_id not_found : Error E
  cannot_encode cannot_save cannot_get cannot_decode : E → Error E
  cannot_get_random cannot_get_most_recent cannot_delete : E → Error E
  cannot_list cannot_cleanup : E → Error E

-- A setting of 0 is replaced.
abbrev pub or_default : ℤ → ℤ → ℤ
or_default d x = if x == pos 0 then d else x

-- What `NewStorage` makes of an input that it takes.
unfoldable pub made_storage : StorageInput → Storage
made_storage input =
    let name = string_append input.service_name (string_append ":" input.entity_name_plural) in
    let prefix = string_append name ":" in
    record {
      storage_name = name;
      key_prefix = prefix;
      exp_z_set_key = string_append prefix "exp";
      ttl = or_default (pos 3_600_000_000_000) input.ttl;
      cleanup_interval = or_default (pos 1_000_000_000) input.cleanup_interval;
      cleanup_batch_size = or_default (pos 1_000) input.cleanup_batch_size;
      cleanup_cancel = false;
      routines = 0;
    }

unfoldable pub new_storage : {E : Type 0} → StorageInput → Outcome (Error E) Storage
new_storage input =
    if not input.has_client
    then err nil_client
    else if input.service_name == ""
    then err empty_service_name
    else if input.entity_name_plural == ""
    then err empty_entity_name
    else ok (made_storage input)

abbrev pub key_for : Storage → String → String
key_for st id = string_append st.key_prefix id

-- `now - int64(s.ttl.Seconds())`, where the conversion drops the part of a second.
abbrev pub expired_before : ℕ → ℤ → ℤ
expired_before now (pos t) =
    let seconds = t / 1_000_000_000 in
    if ltb now seconds then negsuc (seconds - now - 1) else pos (now - seconds)
expired_before now (negsuc t) = pos (now + (t + 1) / 1_000_000_000)

-- `startCleanup` and `stopCleanup`, which waits for the goroutine.
pub start_cleanup : Storage → Storage
start_cleanup st =
    if st.cleanup_cancel
    then st
    else record st { cleanup_cancel = true; routines = st.routines + 1 }

pub stop_cleanup : Storage → Storage
stop_cleanup st =
    if st.cleanup_cancel then record st { cleanup_cancel = false; routines = 0 } else st

module _ {T D E : Type 0} (redis : Redis D E) (entity : Entity T D E) (st : Storage) where
  open redis use {S}

  -- What the error of a transaction makes the call return.
  abbrev pub exec_outcome : (E → Error E) → S × Option E → S × Outcome (Error E) (Unit {0})
  exec_outcome wrap (s, none) = (s, ok tt)
  exec_outcome wrap (s, some e) = (s, err (wrap e))

  unfoldable pub save_encoded : String → ℕ → E ⊎ D → S → S × Outcome (Error E) (Unit {0})
  save_encoded id now (inl e) s = (s, err (cannot_encode e))
  save_encoded id now (inr data') s =
      exec_outcome cannot_save
        (redis.exec (set (key_for st id) data' st.ttl ∷ zadd st.exp_z_set_key now id ∷ []) s)

  unfoldable pub save : T → ℕ → S → S × Outcome (Error E) (Unit {0})
  unfolding save_encoded
  save x now s =
      if entity.get_id x == ""
      then (s, err empty_id)
      else save_encoded (entity.get_id x) now (entity.encode x) s

  unfoldable pub decoded : E ⊎ T → Outcome (Error E) T
  decoded (inl e) = err (cannot_decode e)
  decoded (inr x) = ok x

  -- What `GetByID` makes of the reply to `GET`.
  unfoldable pub got : S × Reply E D → S × Outcome (Error E) T
  unfolding decoded
  got (s, nil) = (s, err not_found)
  got (s, failed e) = (s, err (cannot_get e))
  got (s, value data') = (s, decoded (entity.decode data'))

  unfoldable pub get_by_id : String → S → S × Outcome (Error E) T
  unfolding got
  get_by_id id s = if id == "" then (s, err empty_id) else got (redis.get (key_for st id) s)

  unfoldable pub most_recent : S × Reply E (List String) → S × Outcome (Error E) T
  unfolding get_by_id
  most_recent (s, nil) = (s, err not_found)
  most_recent (s, failed e) = (s, err (cannot_get_most_recent e))
  most_recent (s, value []) = (s, err not_found)
  most_recent (s, value (id ∷ _)) = if id == "" then (s, err not_found) else get_by_id id s

  unfoldable pub get_most_recent : S → S × Outcome (Error E) T
  unfolding most_recent
  get_most_recent s = most_recent (redis.z_rev_range st.exp_z_set_key 0 0 s)

  unfoldable pub delete : String → S → S × Outcome (Error E) (Unit {0})
  delete id s =
      if id == ""
      then (s, err empty_id)
      else exec_outcome cannot_delete
          (redis.exec (del (key_for st id) ∷ zrem st.exp_z_set_key (id ∷ []) ∷ []) s)

  -- One attempt of `GetRandom` from the reply to `GET` on; `none` is its `continue`.
  unfoldable pub attempt_decoded : String → S → E ⊎ T → S × Option (Outcome (Error E) T)
  unfolding delete
  attempt_decoded id s (inl e) = ((delete id s).0, none)
  attempt_decoded id s (inr x) = (s, some (ok x))

  unfoldable pub attempt_got : String → S × Reply E D → S × Option (Outcome (Error E) T)
  unfolding attempt_decoded
  attempt_got id (s, nil) = ((delete id s).0, none)
  attempt_got id (s, failed e) = (s, some (err (cannot_get e)))
  attempt_got id (s, value data') = attempt_decoded id s (entity.decode data')

  unfoldable pub attempt_id : S × Reply E (List String) → S × Option (Outcome (Error E) T)
  unfolding attempt_got
  attempt_id (s, nil) = (s, some (err not_found))
  attempt_id (s, failed e) = (s, some (err (cannot_get_random e)))
  attempt_id (s, value []) = (s, some (err not_found))
  attempt_id (s, value (id ∷ _)) =
      if id == "" then (s, some (err not_found)) else attempt_got id (redis.get (key_for st id) s)

  unfoldable pub attempt : S → S × Option (Outcome (Error E) T)
  unfolding attempt_id
  attempt s = attempt_id (redis.z_rand_member st.exp_z_set_key 1 s)

  -- The loop of `GetRandom`, with the number of attempts that the metric gets.
  unfoldable pub random_loop : ℕ → ℕ → S → S × Outcome (Error E) T × ℕ
  unfolding attempt
  random_loop zero attempts s = (s, err not_found, attempts)
  random_loop (suc left) attempts s =
      let (s', outcome) = attempt s in
      elim outcome [ some o ↦ (s', o, suc attempts) | none ↦ random_loop left (suc attempts) s' ]

  unfoldable pub get_random : S → S × Outcome (Error E) T × ℕ
  unfolding random_loop
  get_random s = random_loop 5 0 s

  -- `cleanupExpired` from the reply on.
  unfoldable pub remove_expired : S × Reply E (List String) → S × Outcome (Error E) (Unit {0})
  remove_expired (s, nil) = (s, ok tt)
  remove_expired (s, failed e) = (s, err (cannot_list e))
  remove_expired (s, value []) = (s, ok tt)
  remove_expired (s, value (id ∷ ids)) =
      exec_outcome cannot_cleanup (redis.exec (zrem st.exp_z_set_key (id ∷ ids) ∷ []) s)

  unfoldable pub cleanup_expired : ℕ → ℤ → S → S × Outcome (Error E) (Unit {0})
  unfolding remove_expired
  cleanup_expired now max s =
      remove_expired (redis.z_range_by_score st.exp_z_set_key (expired_before now st.ttl) max s)
