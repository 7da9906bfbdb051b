-- ===== src/RedisClient/Answers.antt =====
-- A client of the storage does not see the hook.
use govnilo.Prelude.{
  ℕ, zero, suc, ℤ, ◌==◌, ◌≡◌, refl, sym, ap, ◌∙◌, string_eq, if◌then◌else◌, List, [], ◌∷◌, Option,
  none, some, String, ◌⊎◌, inl, inr, Outcome, err,
}
use govnilo.RedisBase.{
  Redis, Entity, Storage, Error, Command, Reply, value, nil, failed, key_for, exec_outcome,
  get_random, random_loop, attempt, attempt_id, attempt_got, attempt_decoded, get_most_recent,
  most_recent, cleanup_expired, remove_expired, expired_before, not_found, zrem, cannot_cleanup,
}
use govnilo.RedisBase.Calls.{
  Call, saves, deletes, finds, draws, newest, cleans, Answer, wrote, found, call, run_calls,
}
use govnilo.RedisClient.{Line, hooked, process_hook}
use govnilo.RedisClient.Hooked.{
  forget, forget_both, forget_if, forget-exec, forget-exec_outcome, forget-save, forget-delete,
  forget-get, forget-get_by_id,
}

module _ {T D E : Type 0} (redis : Redis D E) (entity : Entity T D E) (st : Storage) where
  forget-attempt_decoded :
      (id : String) (p : redis.S × List Line) (r : E ⊎ T)
      → forget (attempt_decoded (hooked redis) entity st id p r)
        ≡ attempt_decoded redis entity st id (p.0) r
  unfolding attempt_decoded
  forget-attempt_decoded id p (inl e) = ap (λ r. (r.0, none)) (forget-delete redis entity st id p)
  forget-attempt_decoded id p (inr x) = refl

  forget-attempt_got :
      (id : String) (r : (redis.S × List Line) × Reply E D)
      → forget (attempt_got (hooked redis) entity st id r)
        ≡ attempt_got redis entity st id (forget r)
  unfolding attempt_got
  forget-attempt_got id (p, nil) = ap (λ r. (r.0, none)) (forget-delete redis entity st id p)
  forget-attempt_got id (p, failed e) = refl
  forget-attempt_got id (p, value d) = forget-attempt_decoded id p (entity.decode d)

  forget-attempt_id :
      (r : (redis.S × List Line) × Reply E (List String))
      → forget (attempt_id (hooked redis) entity st r) ≡ attempt_id redis entity st (forget r)
  unfolding attempt_id
  forget-attempt_id (p, nil) = refl
  forget-attempt_id (p, failed e) = refl
  forget-attempt_id (p, value []) = refl
  forget-attempt_id (p, value (id ∷ ids)) =
      forget_if (id == "") (p, some (err not_found)) _
      ∙ ap (λ r. if id == "" then (p.0, some (err not_found)) else r)
          (forget-attempt_got id ((hooked redis).get (key_for st id) p)
            ∙ ap (attempt_got redis entity st id) (forget-get redis entity st (key_for st id) p))

  forget-rand :
      (key : String) (n : ℕ) (p : redis.S × List Line)
      → forget ((hooked redis).z_rand_member key n p) ≡ redis.z_rand_member key n (p.0)
  unfolding process_hook
  forget-rand key n (s, log) = refl

  forget-attempt :
      (p : redis.S × List Line)
      → forget (attempt (hooked redis) entity st p) ≡ attempt redis entity st (p.0)
  unfolding attempt
  forget-attempt p =
      forget-attempt_id ((hooked redis).z_rand_member st.exp_z_set_key 1 p)
      ∙ ap (attempt_id redis entity st) (forget-rand st.exp_z_set_key 1 p)

  random_loop-step :
      (left attempts : ℕ) (p : redis.S × List Line)
      → ((q : redis.S × List Line)
          → forget_both (random_loop (hooked redis) entity st left (suc attempts) q)
            ≡ random_loop redis entity st left (suc attempts) (q.0))
      → (r : (redis.S × List Line) × Option (Outcome (Error E) T))
      → attempt (hooked redis) entity st p ≡ r
      → forget_both (random_loop (hooked redis) entity st (suc left) attempts p)
        ≡ random_loop redis entity st (suc left) attempts (p.0)
  unfolding random_loop
  random_loop-step left attempts p rest (q, some o) e =
      let e' : attempt redis entity st (p.0) ≡ (q.0, some o) =
        sym (forget-attempt p) ∙ ap forget e in
      rw (e, e', random_loop)
        (ap (λ (r : redis.S × Option (Outcome (Error E) T)). (r.0, o, suc attempts))
          (forget-attempt p))
  random_loop-step left attempts p rest (q, none) e =
      let e' : attempt redis entity st (p.0) ≡ (q.0, none) = sym (forget-attempt p) ∙ ap forget e in
      let q' = (attempt (hooked redis) entity st p).0 in
      rw (e, e', random_loop)
        (rest q'
          ∙ ap
              (λ (r : redis.S × Option (Outcome (Error E) T)).
                random_loop redis entity st left (suc attempts) (r.0))
              (forget-attempt p))

  forget-random_loop :
      (left attempts : ℕ) (p : redis.S × List Line)
      → forget_both (random_loop (hooked redis) entity st left attempts p)
        ≡ random_loop redis entity st left attempts (p.0)
  unfolding random_loop
  forget-random_loop zero attempts p = refl
  forget-random_loop (suc left) attempts p =
      random_loop-step left attempts p (forget-random_loop left (suc attempts))
        (attempt (hooked redis) entity st p) refl

  forget-get_random :
      (p : redis.S × List Line)
      → forget_both (get_random (hooked redis) entity st p) ≡ get_random redis entity st (p.0)
  unfolding get_random
  forget-get_random p = forget-random_loop 5 0 p

  forget-most_recent :
      (r : (redis.S × List Line) × Reply E (List String))
      → forget (most_recent (hooked redis) entity st r) ≡ most_recent redis entity st (forget r)
  unfolding most_recent
  forget-most_recent (p, nil) = refl
  forget-most_recent (p, failed e) = refl
  forget-most_recent (p, value []) = refl
  forget-most_recent (p, value (id ∷ ids)) =
      forget_if (id == "") (p, err not_found) _
      ∙ ap (λ r. if id == "" then (p.0, err not_found) else r)
          (forget-get_by_id redis entity st id p)

  forget-rev :
      (key : String) (i j : ℕ) (p : redis.S × List Line)
      → forget ((hooked redis).z_rev_range key i j p) ≡ redis.z_rev_range key i j (p.0)
  unfolding process_hook
  forget-rev key i j (s, log) = refl

  forget-get_most_recent :
      (p : redis.S × List Line)
      → forget (get_most_recent (hooked redis) entity st p) ≡ get_most_recent redis entity st (p.0)
  unfolding get_most_recent
  forget-get_most_recent p =
      forget-most_recent ((hooked redis).z_rev_range st.exp_z_set_key 0 0 p)
      ∙ ap (most_recent redis entity st) (forget-rev st.exp_z_set_key 0 0 p)

  forget-remove_expired :
      (r : (redis.S × List Line) × Reply E (List String))
      → forget (remove_expired (hooked redis) entity st r)
        ≡ remove_expired redis entity st (forget r)
  unfolding remove_expired
  forget-remove_expired (p, nil) = refl
  forget-remove_expired (p, failed e) = refl
  forget-remove_expired (p, value []) = refl
  forget-remove_expired (p, value (id ∷ ids)) =
      let cs : List (Command D) = zrem st.exp_z_set_key (id ∷ ids) ∷ [] in
      forget-exec_outcome redis entity st cannot_cleanup ((hooked redis).exec cs p)
      ∙ ap (exec_outcome redis entity st cannot_cleanup) (forget-exec redis entity st cs p)

  forget-range :
      (key : String) (b max : ℤ) (p : redis.S × List Line)
      → forget ((hooked redis).z_range_by_score key b max p)
        ≡ redis.z_range_by_score key b max (p.0)
  unfolding process_hook
  forget-range key b max (s, log) = refl

  forget-cleanup_expired :
      (now : ℕ) (max : ℤ) (p : redis.S × List Line)
      → forget (cleanup_expired (hooked redis) entity st now max p)
        ≡ cleanup_expired redis entity st now max (p.0)
  unfolding cleanup_expired
  forget-cleanup_expired now max p =
      let bound = expired_before now st.ttl in
      forget-remove_expired ((hooked redis).z_range_by_score st.exp_z_set_key bound max p)
      ∙ ap (remove_expired redis entity st) (forget-range st.exp_z_set_key bound max p)

  forget-call :
      (c : Call T) (p : redis.S × List Line)
      → forget (call (hooked redis) entity st c p) ≡ call redis entity st c (p.0)
  unfolding call
  forget-call (saves x now) p = ap (λ r. (r.0, wrote (r.1))) (forget-save redis entity st x now p)
  forget-call (deletes id) p = ap (λ r. (r.0, wrote (r.1))) (forget-delete redis entity st id p)
  forget-call (finds id) p = ap (λ r. (r.0, found (r.1))) (forget-get_by_id redis entity st id p)
  forget-call draws p = ap (λ r. (r.0, found (r.1))) (forget-get_random p)
  forget-call newest p = ap (λ r. (r.0, found (r.1))) (forget-get_most_recent p)
  forget-call (cleans now max) p = ap (λ r. (r.0, wrote (r.1))) (forget-cleanup_expired now max p)

  -- With the hook that logs, a client of the storage gets the answers that it gets without, and
  -- Redis goes through the same states, whatever is called and whatever fails.
  pub run_calls-hooked :
      (cs : List (Call T)) (s : redis.S) (log : List Line)
      → let ((s', _), answers) = run_calls (hooked redis) entity st cs (s, log) in
        (s', answers) ≡ run_calls redis entity st cs s
  unfolding run_calls
  run_calls-hooked [] s log = refl
  run_calls-hooked (c ∷ cs) s log =
      let r = call (hooked redis) entity st c (s, log) in
      let now : forget r ≡ call redis entity st c s = forget-call c (s, log) in
      ap (λ (q : redis.S × List (Answer T E)). (q.0, r.1 ∷ q.1))
        (run_calls-hooked cs (r.0.0) (r.0.1))
      ∙ ap
          (λ (q : redis.S × Answer T E).
            let t = run_calls redis entity st cs (q.0) in (t.0, q.1 ∷ t.1))
          now
