-- ===== src/RedisBase/Removal.antt =====
-- What `Delete` and the cleanup take out of the storage.
use govnilo.Prelude.{
  ℕ, ℤ, pos, negsuc, ◌+◌, ◌-◌, ◌/◌, ◌<◌, ◌≤◌, ltb, ◌==◌, ◌≡◌, refl, sym, ap, ◌∙◌, ◌≢◌, string_eq,
  false, if◌then◌else◌, List, [], ◌∷◌, All, none, some, String, ◌⊎◌, inl, inr, ok, arith,
  Bool-cases, beq_ne, ne_of_beq, beq_self,
}
use govnilo.RedisBase.{
  Redis, Entity, del, zrem, Reply, value, nil, failed, Storage, key_for, delete, exec_outcome,
  cannot_delete, cannot_cleanup, cleanup_expired, remove_expired, expired_before,
}
use govnilo.RedisBase.Laws.{Documented, IsAtMost, among}
use govnilo.RedisBase.Keys.{IsReady, key_for_apart}
use govnilo.RedisBase.Store.{exec_done}

young_above :
    (now n k : ℕ)
    → now < n + k
    → ¬ IsAtMost n (if ltb now k then negsuc (k - now - 1) else pos (now - k))
young_above now n k young = elim (Bool-cases (ltb now k)) [
  | inl late ↦ rw late (λ h. h)
  | inr early ↦ rw early (λ h. let past : k ≤ now = ground arith in omega arith)
]

module _ {T D E : Type 0} {redis : Redis D E} (entity : Entity T D E) (st : Storage)
    (laws : Documented redis) where
  open laws use {values, scores}

  module _ (id : String) (s : redis.S) (named : id ≢ "")
      (deleted : (delete redis entity st id s).1 ≡ ok tt) where
    delete_done :
        let r = redis.exec (del (key_for st id) ∷ zrem st.exp_z_set_key (id ∷ []) ∷ []) s in
        (r.1 ≡ none) × ((delete redis entity st id s).0 ≡ r.0)
    unfolding delete
    delete_done =
        let r = redis.exec (del (key_for st id) ∷ zrem st.exp_z_set_key (id ∷ []) ∷ []) s in
        let runs : delete redis entity st id s ≡ exec_outcome redis entity st cannot_delete r =
          rw (beq_ne id "" named) refl in
        let (done, same) =
          exec_done redis entity st cannot_delete r (sym (ap (λ p. p.1) runs) ∙ deleted) in
        (done, ap (λ p. p.0) runs ∙ same)

    delete-values :
        (k : String)
        → (values (delete redis entity st id s).0 k
            ≡ (if key_for st id == k then none else values s k))
          ⊎ (values (delete redis entity st id s).0 k ≡ none)
    delete-values k = let (done, same) = delete_done in rw same (laws.exec_values _ s done k)

    delete-scores :
        (m : String)
        → scores (delete redis entity st id s).0 st.exp_z_set_key m ≡ (
            if id == m
            then none
            else if key_for st id == st.exp_z_set_key
            then none
            else scores s st.exp_z_set_key m)
    delete-scores m =
        let (done, same) = delete_done in
        rw same
          (laws.exec_scores _ s done st.exp_z_set_key m ∙ ground (arith, beq_self st.exp_z_set_key))

    -- A `Delete` that succeeds leaves no value under the id, and no time unless the id is "exp"; of
    -- any other id it changes nothing, but that a value may expire.
    delete_forgets :
        IsReady st
        → let (s', _) = delete redis entity st id s in
          (values s' (key_for st id) ≡ none)
          × ((other : String)
              → id ≢ other
              → (values s' (key_for st other) ≡ values s (key_for st other))
                ⊎ (values s' (key_for st other) ≡ none))
          × (id ≢ "exp"
              → (scores s' st.exp_z_set_key id ≡ none)
                × ((other : String)
                    → id ≢ other
                    → scores s' st.exp_z_set_key other ≡ scores s st.exp_z_set_key other))
    delete_forgets ready =
        let exp = (key_for_apart id id ready).1 in
        (
          elim (delete-values (key_for st id)) [
            | inl h ↦
                h
                ∙ ap (λ b. if b then none else values s (key_for st id)) (beq_self (key_for st id))
            | inr h ↦ h
          ],
          (λ other apart. elim (delete-values (key_for st other)) [
            | inl h ↦ inl (
                h
                ∙ ap (λ b. if b then none else values s (key_for st other))
                    (beq_ne (key_for st id) (key_for st other)
                      (λ e. apart ((key_for_apart id other ready).0.0 e))))
            | inr h ↦ inr h
          ]),
          λ plain. (
            delete-scores id ∙ ground (arith, beq_self id),
            λ other apart.
                delete-scores other
                ∙ ground (
                  arith,
                  string_eq.beq_iff id other,
                  string_eq.beq_iff (key_for st id) st.exp_z_set_key,
                  exp,
                ),
          ),
        )

  -- A `Delete` of the id "exp" that succeeds takes the whole sorted set: no id has a time any more.
  pub delete_exp :
      (s : redis.S)
      → IsReady st
      → (delete redis entity st "exp" s).1 ≡ ok tt
      → (m : String) → scores (delete redis entity st "exp" s).0 st.exp_z_set_key m ≡ none
  delete_exp s ready deleted m =
      delete-scores "exp" s (ne_of_beq "exp" "" refl) deleted m
      ∙ ground (arith, string_eq.beq_iff (key_for st "exp") st.exp_z_set_key, ready.exp_key)

  exec_scores-zrem :
      (ids : List String) (s : redis.S)
      → (exec_outcome redis entity st cannot_cleanup
          (redis.exec (zrem st.exp_z_set_key ids ∷ []) s)).1
        ≡ ok tt
      → (m : String) → among m ids ≡ false
      → scores
          (exec_outcome redis entity st cannot_cleanup
            (redis.exec (zrem st.exp_z_set_key ids ∷ []) s)).0
          st.exp_z_set_key
          m
        ≡ scores s st.exp_z_set_key m
  exec_scores-zrem ids s cleaned m out =
      let r = redis.exec (zrem st.exp_z_set_key ids ∷ []) s in
      let (done, same) = exec_done redis entity st cannot_cleanup r cleaned in
      rw same
        (laws.exec_scores _ s done st.exp_z_set_key m ∙ ground (arith, beq_self st.exp_z_set_key))

  -- A member whose score is above the bound of a range is not in it.
  above_range :
      (s : redis.S) (bound : ℤ) (m : String) (n : ℕ) (ids : List String)
      → scores s st.exp_z_set_key m ≡ some n
      → ¬ IsAtMost n bound
      → All (λ id. (k : ℕ) × (scores s st.exp_z_set_key id ≡ some k) × IsAtMost k bound) ids
      → among m ids ≡ false
  above_range s bound m n [] has above h = refl
  above_range s bound m n (id ∷ ids) has above h =
      let (k, at, low) = h.0 in
      let apart : id ≢ m = (λ e.
        let both : some k ≡ some n = sym at ∙ ap (scores s st.exp_z_set_key) e ∙ has in
        let it : k ≡ n = cc both in above (rw (← it) low)) in
      ground (arith, beq_ne id m apart, above_range s bound m n ids has above h.1)

  remove_expired-keeps :
      (s : redis.S) (bound : ℤ) (m : String) (n : ℕ) (r : redis.S × Reply E (List String))
      → scores s st.exp_z_set_key m ≡ some n
      → ¬ IsAtMost n bound
      → ((ids : List String)
          → r.1 ≡ value ids
          → All (λ id. (k : ℕ) × (scores s st.exp_z_set_key id ≡ some k) × IsAtMost k bound) ids)
      → scores (r.0) st.exp_z_set_key m ≡ scores s st.exp_z_set_key m
      → (remove_expired redis entity st r).1 ≡ ok tt
      → scores (remove_expired redis entity st r).0 st.exp_z_set_key m ≡ some n
  unfolding remove_expired
  remove_expired-keeps s bound m n (s', nil) has above h k cleaned = k ∙ has
  remove_expired-keeps s bound m n (s', failed e) has above h k cleaned = k ∙ has
  remove_expired-keeps s bound m n (s', value []) has above h k cleaned = k ∙ has
  remove_expired-keeps s bound m n (s', value (id ∷ ids)) has above h k cleaned =
      exec_scores-zrem (id ∷ ids) s' cleaned m
        (above_range s bound m n (id ∷ ids) has above (h (id ∷ ids) refl))
      ∙ (k ∙ has)

  -- A cleanup that succeeds keeps the time of every entity saved less than the whole seconds of the
  -- time to live ago.
  pub cleanup_expired-keeps :
      (s : redis.S) (now ttl n : ℕ) (max : ℤ) (m : String)
      → st.ttl ≡ pos ttl
      → scores s st.exp_z_set_key m ≡ some n
      → now < n + ttl / 1_000_000_000
      → (cleanup_expired redis entity st now max s).1 ≡ ok tt
      → scores (cleanup_expired redis entity st now max s).0 st.exp_z_set_key m ≡ some n
  unfolding cleanup_expired
  cleanup_expired-keeps s now ttl n max m lives has young cleaned =
      let bound = expired_before now st.ttl in
      remove_expired-keeps s bound m n (redis.z_range_by_score st.exp_z_set_key bound max s) has
        (rw lives (young_above now n (ttl / 1_000_000_000) young))
        (λ ids. laws.range_bound st.exp_z_set_key bound max s ids)
        (laws.range_keeps st.exp_z_set_key bound max s st.exp_z_set_key m) cleaned
