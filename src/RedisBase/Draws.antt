-- ===== src/RedisBase/Draws.antt =====
-- What `GetRandom` and `GetMostRecent` may find, and what they leave.
use govnilo.Prelude.{
  ℕ, zero, suc, ◌==◌, ◌≡◌, refl, sym, ap, ◌∙◌, string_eq, Bool, Bool-cases, true, false,
  if◌then◌else◌, List, [], ◌∷◌, Option, none, some, String, ◌⊎◌, inl, inr, Outcome, ok, err, arith,
}
use govnilo.RedisBase.{
  Redis, Entity, Storage, Command, Reply, value, nil, failed, del, zrem, Error, key_for, delete,
  attempt, attempt_id, attempt_got, attempt_decoded, random_loop, get_random, get_most_recent,
  most_recent, get_by_id, cannot_delete, not_found,
}
use govnilo.RedisBase.Laws.{Documented}
use govnilo.RedisBase.Views.{
  view, IsReadable, HasFaded, HasFaded-trans, HasFaded-view, HasFaded-IsReadable, view-some,
  MayBeWritten, IsWritten-may,
}
use govnilo.RedisBase.Refinement.{exec_writes, get-HasFaded, get_by_id-HasFaded}

module _ {T D E : Type 0} {redis : Redis D E} (entity : Entity T D E) (st : Storage)
    (laws : Documented redis) where
  open laws use {values}

  abbrev pub Fades : redis.S → redis.S → Type 0
  Fades s s' = HasFaded entity st laws s s'

  abbrev pub Was : redis.S → T → Type 0
  Was s x = (id : String) × (view entity st laws s id ≡ some x)

  MayBeWritten-HasFaded :
      (id : String) (s s' : redis.S) → MayBeWritten entity st laws id none s s' → Fades s s'
  MayBeWritten-HasFaded id s s' h k = elim (h k) [
    | inl kept ↦ inl kept
    | inr (inr gone) ↦ inr gone
    | inr (inl same) ↦ elim (Bool-cases (key_for st id == k)) [
      | inl hit ↦ inr (same ∙ ap (λ b. if b then none else values s k) hit)
      | inr miss ↦ inl (same ∙ ap (λ b. if b then none else values s k) miss)
    ]
  ]

  delete-HasFaded : (id : String) (s : redis.S) → Fades s (delete redis entity st id s).0
  unfolding delete
  delete-HasFaded id s = elim (Bool-cases (id == "")) [
    | inl empty ↦ rw (empty, delete) (λ k. inl refl)
    | inr named ↦
        let cs : List (Command D) = del (key_for st id) ∷ zrem st.exp_z_set_key (id ∷ []) ∷ [] in
        rw (named, delete)
          (elim (exec_writes entity st laws cannot_delete cs id none s (λ k. refl) (redis.exec cs s)
            refl) [
              | inl (e, w) ↦
                  rw e (MayBeWritten-HasFaded id s _ (IsWritten-may entity st laws id none s _ w))
              | inr (f, e, w) ↦ rw e (MayBeWritten-HasFaded id s _ w)
            ])
  ]

  attempt_decoded-HasFaded :
      (id : String) (s : redis.S) (r : E ⊎ T) → Fades s (attempt_decoded redis entity st id s r).0
  unfolding attempt_decoded
  attempt_decoded-HasFaded id s (inl e) = delete-HasFaded id s
  attempt_decoded-HasFaded id s (inr x) = λ k. inl refl

  attempt_decoded-it :
      (id : String) (s : redis.S) (r : E ⊎ T) (x : T)
      → (attempt_decoded redis entity st id s r).1 ≡ some (ok x)
      → r ≡ inr x
  unfolding attempt_decoded
  attempt_decoded-it id s (inl e) x h = ground arith
  attempt_decoded-it id s (inr y) x h = cc h

  -- What one attempt leaves, and what it may find.
  abbrev Draws : redis.S → redis.S × Option (Outcome (Error E) T) → Type 0
  Draws s (s', o) = Fades s s' × ((x : T) → o ≡ some (ok x) → Was s x)

  attempt_got-Draws :
      (id : String) (s : redis.S) (r : redis.S × Reply E D)
      → redis.get (key_for st id) s ≡ r
      → Draws s (attempt_got redis entity st id r)
  unfolding attempt_got
  attempt_got-Draws id s (s', nil) h = (
    HasFaded-trans entity st laws s s' _ (get-HasFaded entity st laws (key_for st id) s _ h)
        (delete-HasFaded id s'),
    λ x e. ground arith,
  )
  attempt_got-Draws id s (s', failed f) h =
      (get-HasFaded entity st laws (key_for st id) s _ h, λ x e. ground arith)
  attempt_got-Draws id s (s', value d) h = (
    HasFaded-trans entity st laws s s' _ (get-HasFaded entity st laws (key_for st id) s _ h)
        (attempt_decoded-HasFaded id s' (entity.decode d)),
    λ x e. (
      id,
      view-some entity st laws s id d x (laws.get_value (key_for st id) s d (ap (λ r. r.1) h))
          (attempt_decoded-it id s' (entity.decode d) x e),
    ),
  )

  Draws-after :
      (s s' : redis.S) (r : redis.S × Option (Outcome (Error E) T))
      → Fades s s'
      → Draws s' r
      → Draws s r
  Draws-after s s' r faded (more, was) = (
    HasFaded-trans entity st laws s s' (r.0) faded more,
    λ x e.
        let (id, it) = was x e in
        elim (HasFaded-view entity st laws s s' faded id) [
          | inl same ↦ (id, sym same ∙ it)
          | inr gone ↦ absurd (cc (gone, it))
        ],
  )

  attempt_id-Draws :
      (r : redis.S × Reply E (List String)) → Draws (r.0) (attempt_id redis entity st r)
  unfolding attempt_id
  attempt_id-Draws (s, nil) = ((λ k. inl refl), λ x e. ground arith)
  attempt_id-Draws (s, failed f) = ((λ k. inl refl), λ x e. ground arith)
  attempt_id-Draws (s, value []) = ((λ k. inl refl), λ x e. ground arith)
  attempt_id-Draws (s, value (id ∷ ids)) = elim (Bool-cases (id == "")) [
    | inl empty ↦ rw (empty, attempt_id) ((λ k. inl refl), λ x e. ground arith)
    | inr named ↦ rw (named, attempt_id) (attempt_got-Draws id s (redis.get (key_for st id) s) refl)
  ]

  attempt-Draws : (s : redis.S) → Draws s (attempt redis entity st s)
  unfolding attempt
  attempt-Draws s =
      Draws-after s (redis.z_rand_member st.exp_z_set_key 1 s).0 _
        (laws.rand_keeps st.exp_z_set_key s)
        (attempt_id-Draws (redis.z_rand_member st.exp_z_set_key 1 s))

  -- What a call leaves, and what it may find.
  abbrev pub Finds : redis.S → redis.S × Outcome (Error E) T → Type 0
  Finds s (s', o) = Fades s s' × ((x : T) → o ≡ ok x → Was s x)

  Finds-after :
      (s s' : redis.S) (r : redis.S × Outcome (Error E) T) → Fades s s' → Finds s' r → Finds s r
  Finds-after s s' r faded (more, was) =
      let (both, had) = Draws-after s s' (r.0, some (r.1)) faded (more, λ x e. was x (cc e)) in
      (both, λ x e. had x (ap some e))

  random_loop-step :
      (left attempts : ℕ) (s : redis.S)
      → ((s' : redis.S)
          → let (s'', o, _) = random_loop redis entity st left (suc attempts) s' in
            Finds s' (s'', o))
      → (r : redis.S × Option (Outcome (Error E) T)) → attempt redis entity st s ≡ r
      → let (s'', o, _) = random_loop redis entity st (suc left) attempts s in Finds s (s'', o)
  unfolding random_loop
  random_loop-step left attempts s rest (s', some o) e =
      let (faded, was) = attempt-Draws s in
      rw (e, random_loop) (faded, λ x h. was x (ap (λ r. r.1) e ∙ ap some h))
  random_loop-step left attempts s rest (s', none) e =
      let s'' = (attempt redis entity st s).0 in
      let (end, o, _) = random_loop redis entity st left (suc attempts) s'' in
      rw (e, random_loop) (Finds-after s s'' (end, o) (attempt-Draws s).0 (rest s''))

  random_loop-Finds :
      (left attempts : ℕ) (s : redis.S)
      → let (s', o, _) = random_loop redis entity st left attempts s in Finds s (s', o)
  unfolding random_loop
  random_loop-Finds zero attempts s = ((λ k. inl refl), λ x e. ground arith)
  random_loop-Finds (suc left) attempts s =
      random_loop-step left attempts s (random_loop-Finds left (suc attempts))
        (attempt redis entity st s) refl

  pub get_random-Finds :
      (s : redis.S) → let (s', o, _) = get_random redis entity st s in Finds s (s', o)
  unfolding get_random
  get_random-Finds s = random_loop-Finds 5 0 s

  unless_empty :
      (b : Bool) (s : redis.S) (r : redis.S × Outcome (Error E) T)
      → Finds s r
      → Finds s (if b then (s, err not_found) else r)
  unless_empty true s r h = ((λ k. inl refl), λ x e. ground arith)
  unless_empty false s r h = h

  most_recent-Finds :
      (r : redis.S × Reply E (List String))
      → IsReadable entity st laws (r.0)
      → Finds (r.0) (most_recent redis entity st r)
  unfolding most_recent
  most_recent-Finds (s, nil) v = ((λ k. inl refl), λ x e. ground arith)
  most_recent-Finds (s, failed f) v = ((λ k. inl refl), λ x e. ground arith)
  most_recent-Finds (s, value []) v = ((λ k. inl refl), λ x e. ground arith)
  most_recent-Finds (s, value (id ∷ ids)) v =
      let (faded, was) = get_by_id-HasFaded entity st laws id s v in
      unless_empty (id == "") s (get_by_id redis entity st id s) (faded, λ x e. (id, was x e))

  pub get_most_recent-Finds :
      (s : redis.S) → IsReadable entity st laws s → Finds s (get_most_recent redis entity st s)
  unfolding get_most_recent
  get_most_recent-Finds s v =
      let r = redis.z_rev_range st.exp_z_set_key 0 0 s in
      let faded = laws.rev_keeps st.exp_z_set_key s in
      Finds-after s (r.0) _ faded
        (most_recent-Finds r (HasFaded-IsReadable entity st laws s (r.0) faded v))
