-- ===== src/RedisBase/Random.antt =====
-- What `GetRandom` returns.
use govnilo.Prelude.{
  ℕ, zero, suc, ◌+◌, ◌≤◌, ◌==◌, ◌≡◌, refl, sym, ap, ◌∙◌, ◌≢◌, string_eq, if◌then◌else◌, List, [],
  ◌∷◌, Option, none, some, String, ◌⊎◌, inl, inr, Outcome, ok, err, arith, Bool-cases,
}
use govnilo.RedisBase.{
  Redis, Entity, Reply, value, nil, failed, Storage, Error, key_for, attempt, attempt_id,
  attempt_got, attempt_decoded, random_loop, get_random, not_found,
}
use govnilo.RedisBase.Laws.{Documented}

module _ {T D E : Type 0} {redis : Redis D E} (entity : Entity T D E) (st : Storage)
    (laws : Documented redis) where
  open laws use {values, scores}

  -- Redis held the entity under an id, which the sorted set had just before.
  pub record IsStored (x : T) : Type 0 where
    pub id : String
    pub data' : D
    pub drawn : redis.S
    pub before : redis.S
    pub drew : drawn ≡ (redis.z_rand_member st.exp_z_set_key 1 before).0
    pub tracked : scores before st.exp_z_set_key id ≢ none
    pub held : values drawn (key_for st id) ≡ some data'
    pub decodes : entity.decode data' ≡ inr x

  -- What ends an attempt with an entity.
  attempt_decoded-ok :
      (id : String) (s : redis.S) (r : E ⊎ T) (x : T)
      → (attempt_decoded redis entity st id s r).1 ≡ some (ok x)
      → r ≡ inr x
  unfolding attempt_decoded
  attempt_decoded-ok id s (inl e) x h = ground arith
  attempt_decoded-ok id s (inr y) x h = cc h

  attempt_got-ok :
      (id : String) (r : redis.S × Reply E D) (x : T)
      → (attempt_got redis entity st id r).1 ≡ some (ok x)
      → (d : D) × (r.1 ≡ value d) × (entity.decode d ≡ inr x)
  unfolding attempt_got
  attempt_got-ok id (s, nil) x h = ground arith
  attempt_got-ok id (s, failed e) x h = ground arith
  attempt_got-ok id (s, value d) x h = (d, refl, attempt_decoded-ok id s (entity.decode d) x h)

  attempt_id-ok :
      (r : redis.S × Reply E (List String)) (x : T)
      → (attempt_id redis entity st r).1 ≡ some (ok x)
      → (id : String) × (ids : List String) × (d : D) × (r.1 ≡ value (id ∷ ids))
        × ((redis.get (key_for st id) r.0).1 ≡ value d)
        × (entity.decode d ≡ inr x)
  unfolding attempt_id
  attempt_id-ok (s, nil) x h = ground arith
  attempt_id-ok (s, failed e) x h = ground arith
  attempt_id-ok (s, value []) x h = ground arith
  attempt_id-ok (s, value (id ∷ ids)) x h = elim (Bool-cases (id == "")) [
    | inl empty ↦ ground arith
    | inr named ↦
        let (d, reply, decodes) = attempt_got-ok id (redis.get (key_for st id) s) x (
          sym (
            ap
              (λ b.
                (if b
                  then (s, some (err not_found))
                  else attempt_got redis entity st id (redis.get (key_for st id) s)).1)
              named)
          ∙ h) in
        (id, ids, d, refl, reply, decodes)
  ]

  attempt-IsStored :
      (s : redis.S) (x : T) → (attempt redis entity st s).1 ≡ some (ok x) → IsStored x
  unfolding attempt
  attempt-IsStored s x h =
      let drawn = redis.z_rand_member st.exp_z_set_key 1 s in
      let (id, ids, d, drew, reply, decodes) = attempt_id-ok drawn x h in
      record {
        id = id;
        data' = d;
        drawn = drawn.0;
        before = s;
        drew = refl;
        tracked = laws.rand_member st.exp_z_set_key s id ids drew;
        held = laws.get_value (key_for st id) (drawn.0) d reply;
        decodes = decodes;
      }

  -- What is to hold of the loop with so many attempts left.
  abbrev Ends : ℕ → ℕ → redis.S → Type 0
  Ends left attempts s =
      let (_, outcome, made) = random_loop redis entity st left attempts s in
      (attempts ≤ made) × (made ≤ attempts + left) × ((x : T) → outcome ≡ ok x → IsStored x)

  random_loop-step :
      (left attempts : ℕ) (s : redis.S)
      → ((s' : redis.S) → Ends left (suc attempts) s')
      → (o : Option (Outcome (Error E) T)) → (attempt redis entity st s).1 ≡ o
      → Ends (suc left) attempts s
  unfolding random_loop
  random_loop-step left attempts s rest (some o) e =
      rw (e, random_loop) (omega arith, omega arith, λ x h. attempt-IsStored s x (e ∙ ap some h))
  random_loop-step left attempts s rest none e =
      let (from, to, stored) = rest (attempt redis entity st s).0 in
      rw (e, random_loop) (omega (arith, from), omega (arith, to), stored)

  random_loop-Ends : (left attempts : ℕ) (s : redis.S) → Ends left attempts s
  unfolding random_loop
  random_loop-Ends zero attempts s = (omega arith, omega arith, λ x h. ground arith)
  random_loop-Ends (suc left) attempts s =
      random_loop-step left attempts s (random_loop-Ends left (suc attempts))
        (attempt redis entity st s).1 refl

  -- `GetRandom` makes at most five attempts, and an entity that it returns is one that Redis held
  -- under an id of the sorted set.
  get_random-IsStored :
      (s : redis.S)
      → let (_, outcome, made) = get_random redis entity st s in
        (made ≤ 5) × ((x : T) → outcome ≡ ok x → IsStored x)
  unfolding get_random
  get_random-IsStored s = let (_, most, stored) = random_loop-Ends 5 0 s in (most, stored)
