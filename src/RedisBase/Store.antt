-- ===== src/RedisBase/Store.antt =====
-- What `Save` leaves behind, and what `GetByID` finds of it.
use govnilo.Prelude.{
  ℕ, ◌==◌, ◌≡◌, refl, sym, ap, ◌∙◌, ◌≢◌, string_eq, if◌then◌else◌, List, [], ◌∷◌, Option, none,
  some, String, ◌⊎◌, inl, inr, ok, err, arith, beq_ne, beq_self,
}
use govnilo.RedisBase.{
  Redis, Entity, Command, set, zadd, Reply, value, nil, failed, Storage, Error, key_for, save,
  get_by_id, got, decoded, save_encoded, exec_outcome, cannot_save, cannot_get, not_found,
}
use govnilo.RedisBase.Laws.{Documented}
use govnilo.RedisBase.Keys.{IsReady, key_for_apart}

-- A transaction whose call returns nil was carried out.
pub exec_done :
    {D E T : Type 0} (redis : Redis D E) (entity : Entity T D E) (st : Storage) (wrap : E → Error E)
    (r : redis.S × Option E)
    → (exec_outcome redis entity st wrap r).1 ≡ ok tt
    → (r.1 ≡ none) × ((exec_outcome redis entity st wrap r).0 ≡ r.0)
exec_done redis entity st wrap (s, none) h = (refl, refl)
exec_done redis entity st wrap (s, some e) h = ground arith

module _ {T D E : Type 0} {redis : Redis D E} (entity : Entity T D E) (st : Storage)
    (laws : Documented redis) where
  open laws use {values, scores}

  -- A key that holds `d` unless it expired, and holds something after `GET`: the reply is `d`.
  live_reply :
      (d : D) (s : redis.S) (key : String)
      → (values s key ≡ some d) ⊎ (values s key ≡ none)
      → values (redis.get key s).0 key ≢ none
      → ((redis.get key s).1 ≡ value d) ⊎ ((e : E) × ((redis.get key s).1 ≡ failed e))
  live_reply d s key (inr gone) alive = elim (laws.get_keeps key s key) [
    | inl same ↦ absurd (alive (same ∙ gone))
    | inr lost ↦ absurd (alive lost)
  ]
  live_reply d s key (inl held) alive = elim (laws.get_keeps key s key) [
    | inl same ↦ laws.get_live key s d (same ∙ held)
    | inr lost ↦ absurd (alive lost)
  ]

  got_same :
      (d d' : D) (s : redis.S) (key : String) (x : T)
      → entity.decode d ≡ inr x
      → (values s key ≡ some d) ⊎ (values s key ≡ none)
      → values s key ≡ some d'
      → entity.decode d' ≡ inr x
  got_same d d' s key x round (inl held) found =
      let both : some d ≡ some d' = sym held ∙ found in let it : d ≡ d' = cc both in rw (← it) round
  got_same d d' s key x round (inr gone) found =
      let bad : some d' ≡ none = sym found ∙ gone in ground arith

  got_held :
      (d : D) (s : redis.S) (key : String) (x : T)
      → entity.decode d ≡ inr x
      → (values s key ≡ some d) ⊎ (values s key ≡ none)
      → (r : redis.S × Reply E D) → redis.get key s ≡ r
      → let (s'', found) = got redis entity st r in
        ((found ≡ ok x) ⊎ (found ≡ err not_found) ⊎ ((e : E) × (found ≡ err (cannot_get e))))
        × (values s'' key ≢ none → (found ≡ ok x) ⊎ ((e : E) × (found ≡ err (cannot_get e))))
  unfolding got decoded
  got_held d s key x round held (s'', nil) e = (
    inr (inl refl),
    λ alive. elim (live_reply d s key held (λ k. alive (sym (ap (λ r. values (r.0) key) e) ∙ k))) [
      | inl reply ↦ let bad : value d ≡ nil = sym reply ∙ ap (λ r. r.1) e in ground arith
      | inr (f, reply) ↦ let bad : failed f ≡ nil = sym reply ∙ ap (λ r. r.1) e in ground arith
    ],
  )
  got_held d s key x round held (s'', failed f) e = (inr (inr (f, refl)), λ alive. inr (f, refl))
  got_held d s key x round held (s'', value d') e =
      let same : entity.decode d' ≡ inr x =
        got_same d d' s key x round held (laws.get_value key s d' (ap (λ r. r.1) e)) in
      rw (same, decoded) (inl refl, λ _. inl refl)

  module _ (x : T) (d : D) (now : ℕ) (s : redis.S) (named : entity.get_id x ≢ "")
      (coded : entity.encode x ≡ inr d) (saved : (save redis entity st x now s).1 ≡ ok tt) where
    abbrev saving : List (Command D)
    saving =
        set (key_for st (entity.get_id x)) d st.ttl
        ∷ zadd st.exp_z_set_key now (entity.get_id x)
        ∷ []

    save_runs :
        save redis entity st x now s
        ≡ exec_outcome redis entity st cannot_save (redis.exec saving s)
    unfolding save save_encoded
    save_runs = rw (beq_ne (entity.get_id x) "" named, coded, save_encoded) refl

    -- The transaction went through, and the state after it is that of the call.
    save_done :
        let r = redis.exec saving s in (r.1 ≡ none) × ((save redis entity st x now s).0 ≡ r.0)
    save_done =
        let r = redis.exec saving s in
        let (done, same) =
          exec_done redis entity st cannot_save r (sym (ap (λ p. p.1) save_runs) ∙ saved) in
        (done, ap (λ p. p.0) save_runs ∙ same)

    save-values :
        (k : String)
        → (values (save redis entity st x now s).0 k
            ≡ (if key_for st (entity.get_id x) == k then some d else values s k))
          ⊎ (values (save redis entity st x now s).0 k ≡ none)
    save-values k = let (done, same) = save_done in rw same (laws.exec_values _ s done k)

    save-scores :
        (m : String)
        → scores (save redis entity st x now s).0 st.exp_z_set_key m ≡ (
            if entity.get_id x == m
            then some now
            else if key_for st (entity.get_id x) == st.exp_z_set_key
            then none
            else scores s st.exp_z_set_key m)
    save-scores m =
        let (done, same) = save_done in
        rw same
          (laws.exec_scores _ s done st.exp_z_set_key m ∙ ground (arith, beq_self st.exp_z_set_key))

    save-held :
        let s' = (save redis entity st x now s).0 in
        let key = key_for st (entity.get_id x) in (values s' key ≡ some d) ⊎ (values s' key ≡ none)
    save-held = elim (save-values (key_for st (entity.get_id x))) [
      | inl h ↦ inl (
          h
          ∙ ap (λ b. if b then some d else values s (key_for st (entity.get_id x)))
              (beq_self (key_for st (entity.get_id x))))
      | inr h ↦ inr h
    ]

    -- What `Save` stored is what `GetByID` finds: it returns that entity, or says that it is not
    -- found, or reports an error of the client; and while the key has not expired, the entity is
    -- found unless the client fails.
    pub get_by_id-save :
        entity.decode d ≡ inr x
        → let (s', _) = save redis entity st x now s in
          let (s'', found) = get_by_id redis entity st (entity.get_id x) s' in
          ((found ≡ ok x) ⊎ (found ≡ err not_found) ⊎ ((e : E) × (found ≡ err (cannot_get e))))
          × (values s'' (key_for st (entity.get_id x)) ≢ none
              → (found ≡ ok x) ⊎ ((e : E) × (found ≡ err (cannot_get e))))
    unfolding get_by_id
    get_by_id-save round =
        let s' = (save redis entity st x now s).0 in
        let key = key_for st (entity.get_id x) in
        rw (beq_ne (entity.get_id x) "" named)
          (got_held d s' key x round (save-held) (redis.get key s') refl)

    -- A `Save` changes nothing of an entity with another id, but that it may expire, and the new id
    -- has the time of the call in the sorted set, if that id is not "exp".
    pub save_others :
        IsReady st
        → (other : String) → entity.get_id x ≢ other
        → let (s', _) = save redis entity st x now s in
          ((values s' (key_for st other) ≡ values s (key_for st other))
            ⊎ (values s' (key_for st other) ≡ none))
          × (entity.get_id x ≢ "exp"
              → (scores s' st.exp_z_set_key (entity.get_id x) ≡ some now)
                × (scores s' st.exp_z_set_key other ≡ scores s st.exp_z_set_key other))
    save_others ready other apart =
        let keys = (key_for_apart (entity.get_id x) other ready).0 in
        let exp = (key_for_apart (entity.get_id x) other ready).1 in
        (
          elim (save-values (key_for st other)) [
            | inl h ↦ inl (
                h
                ∙ ap (λ b. if b then some d else values s (key_for st other))
                    (beq_ne (key_for st (entity.get_id x)) (key_for st other)
                      (λ e. apart (keys.0 e))))
            | inr h ↦ inr h
          ],
          λ plain. (
            save-scores (entity.get_id x) ∙ ground (arith, beq_self (entity.get_id x)),
            save-scores other
                ∙ ground (
                  arith,
                  string_eq.beq_iff (entity.get_id x) other,
                  string_eq.beq_iff (key_for st (entity.get_id x)) st.exp_z_set_key,
                  exp,
                ),
          ),
        )
