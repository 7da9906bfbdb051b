-- ===== src/RedisBase/Finding.antt =====
-- When `GetRandom` finds an entity.
use mathlib.Core.Path.{subst}
use govnilo.Prelude.{
  ℕ, zero, suc, ◌<◌, ◌==◌, ◌≡◌, ◌≢◌, refl, sym, ap, ◌∙◌, string_eq, Bool-cases, if◌then◌else◌, List,
  [], ◌∷◌, length, Option, Option-cases, none, some, String, ◌⊎◌, inl, inr, ok, beq_self, beq_ne,
  ne_of_beq, arith,
}
use govnilo.RedisBase.{
  Redis, Entity, Storage, value, nil, failed, del, zrem, Error, key_for, delete, exec_outcome,
  attempt, random_loop, get_random, cannot_delete,
}
use govnilo.RedisBase.Laws.{Documented}
use govnilo.RedisBase.Keys.{IsReady, key_for_apart}
use govnilo.RedisBase.Stale.{
  IsSteady, Listed, without, length-without-Listed, Listed-without, attempt_id_drawn,
  attempt_got_cases,
}

module _ {T D E : Type 0} {redis : Redis D E} (entity : Entity T D E) (st : Storage)
    (laws : Documented redis) where
  open laws use {values, scores}

  exec_outcome_state :
      (wrap : E → Error E) (r : redis.S × Option E) → (exec_outcome redis entity st wrap r).0 ≡ r.0
  exec_outcome_state wrap (s, none) = refl
  exec_outcome_state wrap (s, some e) = refl

  abbrev pub IsAlive : redis.S → String → Type 0
  IsAlive s id = (d : D) × (x : T) × (values s (key_for st id) ≡ some d) × (entity.decode d ≡ inr x)

  -- The sorted set has the id of an entity, and all its ids but those of `stale` are of entities.
  pub record Tracks (stale : List String) (s : redis.S) : Type 0 where
    pub live : String
    pub alive : IsAlive s live
    pub listed : scores s st.exp_z_set_key live ≢ none
    pub each :
        (id : String)
        → scores s st.exp_z_set_key id ≢ none
        → (id ≢ "") × (id ≢ "exp") × (Listed id stale ⊎ IsAlive s id)

  IsAlive-kept :
      (s s' : redis.S) (id : String)
      → values s' (key_for st id) ≡ values s (key_for st id)
      → IsAlive s id
      → IsAlive s' id
  IsAlive-kept s s' id same (d, x, held, decodes) = (d, x, same ∙ held, decodes)

  module _ (ready : IsReady st) (steady : IsSteady laws) (id : String) (named : id ≢ "")
      (plain : id ≢ "exp") (s : redis.S) where
    abbrev deleted : redis.S
    deleted = (delete redis entity st id s).0

    delete_state :
        deleted ≡ (redis.exec (del (key_for st id) ∷ zrem st.exp_z_set_key (id ∷ []) ∷ []) s).0
    unfolding delete
    delete_state =
        let r = redis.exec (del (key_for st id) ∷ zrem st.exp_z_set_key (id ∷ []) ∷ []) s in
        let runs : delete redis entity st id s ≡ exec_outcome redis entity st cannot_delete r =
          rw (beq_ne id "" named) refl in
        ap (λ p. p.0) runs ∙ exec_outcome_state cannot_delete r

    delete-IsAlive : (j : String) → id ≢ j → IsAlive s j → IsAlive deleted j
    delete-IsAlive j apart alive =
        IsAlive-kept s deleted j
          (ap (λ s'. values s' (key_for st j)) delete_state
            ∙ steady.exec_exact _ s (key_for st j)
            ∙ ap (λ b. if b then none else values s (key_for st j))
                (beq_ne (key_for st id) (key_for st j)
                  (λ e. apart ((key_for_apart id j ready).0.0 e))))
          alive

    delete_scores :
        (j : String)
        → scores deleted st.exp_z_set_key j
          ≡ (if id == j then none else scores s st.exp_z_set_key j)
    delete_scores j =
        ap (λ s'. scores s' st.exp_z_set_key j) delete_state
        ∙ laws.exec_scores _ s (steady.execs _ s) st.exp_z_set_key j
        ∙ ground (
          arith,
          beq_self st.exp_z_set_key,
          beq_ne (key_for st id) st.exp_z_set_key (λ e. plain ((key_for_apart id id ready).1.0 e)),
        )

    delete_Tracks :
        (stale : List String) → Tracks stale s → ¬ IsAlive s id → Tracks (without id stale) deleted
    delete_Tracks stale t dead =
        let apart : id ≢ t.live = (λ e. dead (subst (IsAlive s) (sym e) t.alive)) in
        record {
          live = t.live;
          alive = delete-IsAlive t.live apart t.alive;
          listed = λ gone. t.listed (
              sym (
                delete_scores t.live
                ∙ ap (λ b. if b then none else scores s st.exp_z_set_key t.live)
                    (beq_ne id t.live apart))
              ∙ gone);
          each = λ j there. elim (Bool-cases (id == j)) [
            | inl same ↦ absurd (
                there (
                  delete_scores j ∙ ap (λ b. if b then none else scores s st.exp_z_set_key j) same))
            | inr other ↦
                let differs : id ≢ j = ne_of_beq id j other in
                let was =
                  delete_scores j
                  ∙ ap (λ b. if b then none else scores s st.exp_z_set_key j) other in
                let (n, p, known) = t.each j (λ gone. there (was ∙ gone)) in
                (
                  n,
                  p,
                  elim known [
                    | inl stays ↦ inl (Listed-without id j stale differs stays)
                    | inr alive ↦ inr (delete-IsAlive j differs alive)
                  ],
                )
          ];
        }

  Tracks-kept :
      (stale : List String) (s s' : redis.S)
      → ((k : String) → values s' k ≡ values s k)
      → ((m : String) → scores s' st.exp_z_set_key m ≡ scores s st.exp_z_set_key m)
      → Tracks stale s
      → Tracks stale s'
  Tracks-kept stale s s' v z t = record {
    live = t.live;
    alive = IsAlive-kept s s' t.live (v (key_for st t.live)) t.alive;
    listed = λ gone. t.listed (sym (z t.live) ∙ gone);
    each = λ j there.
        let (n, p, known) = t.each j (λ gone. there (z j ∙ gone)) in
        (
          n,
          p,
          elim known [
            | inl stays ↦ inl stays
            | inr alive ↦ inr (IsAlive-kept s s' j (v (key_for st j)) alive)
          ],
        );
  }

  module _ (ready : IsReady st) (steady : IsSteady laws) where
    get_fine : (k : String) (s : redis.S) (e : E) → (redis.get k s).1 ≢ failed e
    get_fine k s e h = elim (Option-cases (values s k)) [
      | inl gone ↦ let bad : nil ≡ failed e = sym (steady.get_none k s gone) ∙ h in ground arith
      | inr (d, held) ↦
          let bad : value d ≡ failed e = sym (steady.get_some k s d held) ∙ h in ground arith
    ]

    -- An attempt finds an entity, or takes a stale id away.
    attempt_step :
        (stale : List String) (s : redis.S)
        → Tracks stale s
        → ((x : T) × ((attempt redis entity st s).1 ≡ some (ok x)))
          ⊎ ((id : String) × Listed id stale
              × ((attempt redis entity st s).1 ≡ none)
              × Tracks (without id stale) (attempt redis entity st s).0)
    unfolding attempt
    attempt_step stale s t =
        let key = st.exp_z_set_key in
        let (id, ids, drew) = steady.draws key s t.live t.listed in
        let s1 = (redis.z_rand_member key 1 s).0 in
        let (named, plain, known) = t.each id (laws.rand_member key s id ids drew) in
        let r = redis.get (key_for st id) s1 in
        let it = attempt_id_drawn entity st laws id ids (redis.z_rand_member key 1 s) named drew in
        elim (attempt_got_cases entity st laws id r (get_fine (key_for st id) s1)) [
          | inl (x, finds) ↦ inl (x, ap (λ p. p.1) it ∙ finds)
          | inr (drops, dead) ↦
              let gone : ¬ IsAlive s id = (λ (d, x, held, decodes).
                dead d x
                  (steady.get_some (key_for st id) s1 d
                    (steady.draw_values key s (key_for st id) ∙ held))
                  decodes) in
              let s2 = r.0 in
              let t2 =
                Tracks-kept stale s s2
                  (λ k. steady.get_values (key_for st id) s1 k ∙ steady.draw_values key s k)
                  (λ m. steady.get_scores (key_for st id) s1 key m ∙ steady.draw_scores key s key m)
                  t in
              let dead2 : ¬ IsAlive s2 id = (λ (d, x, held, decodes). gone (
                d,
                x,
                sym (
                      steady.get_values (key_for st id) s1 (key_for st id)
                      ∙ steady.draw_values key s (key_for st id))
                    ∙ held,
                decodes,
              )) in
              inr (
                id,
                (elim known [ inl there ↦ there | inr alive ↦ absurd (gone alive) ]),
                ap (λ p. p.1) it ∙ ap (λ p. p.1) drops,
                subst (Tracks (without id stale)) (sym (ap (λ p. p.0) it ∙ ap (λ p. p.0) drops))
                    (delete_Tracks ready steady id named plain s2 stale t2 dead2),
              )
        ]

    random_loop_found :
        (left attempts : ℕ) (s : redis.S) (x : T)
        → (attempt redis entity st s).1 ≡ some (ok x)
        → (random_loop redis entity st (suc left) attempts s).1 ≡ ok x
    unfolding random_loop
    random_loop_found left attempts s x h = rw (h, random_loop) refl

    random_loop_next :
        (left attempts : ℕ) (s : redis.S)
        → (attempt redis entity st s).1 ≡ none
        → (random_loop redis entity st (suc left) attempts s).1
          ≡ (random_loop redis entity st left (suc attempts) (attempt redis entity st s).0).1
    unfolding random_loop
    random_loop_next left attempts s h = rw (h, random_loop) refl

    random_loop_finds :
        (left attempts : ℕ) (stale : List String) (s : redis.S)
        → length stale < left
        → Tracks stale s
        → (x : T) × ((random_loop redis entity st left attempts s).1 ≡ ok x)
    random_loop_finds zero attempts stale s few t = absurd (omega (arith, few))
    random_loop_finds (suc left) attempts stale s few t = elim (attempt_step stale s t) [
      | inl (x, finds) ↦ (x, random_loop_found left attempts s x finds)
      | inr (id, there, goes_on, t') ↦
          let (x, finds) =
            random_loop_finds left (suc attempts) (without id stale) (attempt redis entity st s).0
              (omega (arith, few, length-without-Listed id stale there)) t' in
          (x, random_loop_next left attempts s goes_on ∙ finds)
    ]

    -- While Redis does not fail and nothing expires, `GetRandom` finds an entity if the sorted set
    -- has the id of one, and fewer than five ids of none, whatever it draws: an attempt that draws
    -- one of these deletes it. No id of the set is "" or "exp".
    pub get_random_finds :
        (stale : List String) (s : redis.S)
        → length stale < 5
        → Tracks stale s
        → (x : T) × ((get_random redis entity st s).1 ≡ ok x)
    unfolding get_random
    get_random_finds stale s few t = random_loop_finds 5 0 stale s few t
