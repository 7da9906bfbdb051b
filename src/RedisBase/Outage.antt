-- ===== src/RedisBase/Outage.antt =====
-- What the calls return when the client of Redis fails, or Redis has nothing.
use govnilo.Prelude.{
  ℕ, ◌≡◌, ◌≢◌, refl, ap, string_eq, beq_ne, List, [], ◌∷◌, Option, none, some, String, ◌⊎◌, inr,
  Outcome, err, arith,
}
use govnilo.RedisBase.{
  Redis, Entity, Storage, Error, Reply, value, nil, failed, set, zadd, key_for, save, save_encoded,
  exec_outcome, get_random, random_loop, attempt, attempt_id, cannot_save, cannot_get_random,
  not_found,
}

module _ {T D E : Type 0} (redis : Redis D E) (entity : Entity T D E) (st : Storage) where
  exec_outcome_failed :
      (wrap : E → Error E) (e : E) (r : redis.S × Option E)
      → r.1 ≡ some e
      → (exec_outcome redis entity st wrap r).1 ≡ err (wrap e)
  exec_outcome_failed wrap e (s, none) h = ground arith
  exec_outcome_failed wrap e (s, some f) h = ap (λ x. err (wrap x)) (cc h)

  pub save_failed :
      (x : T) (d : D) (now : ℕ) (s : redis.S) (e : E)
      → entity.get_id x ≢ ""
      → entity.encode x ≡ inr d
      → (redis.exec
          (set (key_for st (entity.get_id x)) d st.ttl
            ∷ zadd st.exp_z_set_key now (entity.get_id x)
            ∷ [])
          s).1
        ≡ some e
      → (save redis entity st x now s).1 ≡ err (cannot_save e)
  unfolding save save_encoded
  save_failed x d now s e named coded fails =
      rw (beq_ne (entity.get_id x) "" named, coded, save_encoded)
        (exec_outcome_failed cannot_save e
          (redis.exec
            (set (key_for st (entity.get_id x)) d st.ttl
              ∷ zadd st.exp_z_set_key now (entity.get_id x)
              ∷ [])
            s)
          fails)

  attempt_id_failed :
      (e : E) (r : redis.S × Reply E (List String))
      → r.1 ≡ failed e
      → (attempt_id redis entity st r).1 ≡ some (err (cannot_get_random e))
  unfolding attempt_id
  attempt_id_failed e (s, nil) h = ground arith
  attempt_id_failed e (s, failed f) h = ap (λ x. some (err (cannot_get_random x))) (cc h)
  attempt_id_failed e (s, value v) h = ground arith

  attempt_id_empty :
      (r : redis.S × Reply E (List String))
      → (r.1 ≡ nil) ⊎ (r.1 ≡ value [])
      → (attempt_id redis entity st r).1 ≡ some (err not_found)
  unfolding attempt_id
  attempt_id_empty (s, nil) h = refl
  attempt_id_empty (s, failed f) h = ground arith
  attempt_id_empty (s, value []) h = refl
  attempt_id_empty (s, value (id ∷ ids)) h = ground arith

  -- The first attempt decides.
  get_random_first :
      (s : redis.S) (o : Outcome (Error E) T)
      → (attempt redis entity st s).1 ≡ some o
      → (get_random redis entity st s).1 ≡ o
  unfolding get_random random_loop
  get_random_first s o h = rw (h, random_loop) refl

  pub get_random_failed :
      (s : redis.S) (e : E)
      → (redis.z_rand_member st.exp_z_set_key 1 s).1 ≡ failed e
      → (get_random redis entity st s).1 ≡ err (cannot_get_random e)
  unfolding attempt
  get_random_failed s e h =
      get_random_first s (err (cannot_get_random e))
        (attempt_id_failed e (redis.z_rand_member st.exp_z_set_key 1 s) h)

  pub get_random_empty :
      (s : redis.S)
      → ((redis.z_rand_member st.exp_z_set_key 1 s).1 ≡ nil)
        ⊎ ((redis.z_rand_member st.exp_z_set_key 1 s).1 ≡ value [])
      → (get_random redis entity st s).1 ≡ err not_found
  unfolding attempt
  get_random_empty s h =
      get_random_first s (err not_found)
        (attempt_id_empty (redis.z_rand_member st.exp_z_set_key 1 s) h)
