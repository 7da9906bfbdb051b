-- ===== src/RedisBase/Stale.antt =====
-- What one attempt of `GetRandom` comes to with a Redis that does not fail.
use govnilo.Prelude.{
  ◌<◌, ◌≤◌, ◌==◌, ◌≡◌, ◌≢◌, refl, sym, ap, ◌∙◌, string_eq, Bool-cases, if◌then◌else◌, List, [], ◌∷◌,
  length, none, some, String, ◌⊎◌, inl, inr, ok, beq_self, beq_ne, arith,
}
use govnilo.RedisBase.{
  Redis, Entity, Storage, Command, Reply, value, nil, failed, key_for, delete, attempt_id,
  attempt_got, attempt_decoded,
}
use govnilo.RedisBase.Laws.{Documented, values_after}

-- A Redis that does not fail, while nothing expires.
pub record IsSteady {D E : Type 0} {redis : Redis D E} (laws : Documented redis) : Type 0 where
  pub get_some :
      (k : String) (s : redis.S) (d : D) → laws.values s k ≡ some d → (redis.get k s).1 ≡ value d
  pub get_none : (k : String) (s : redis.S) → laws.values s k ≡ none → (redis.get k s).1 ≡ nil
  pub get_values :
      (k : String) (s : redis.S) (j : String) → laws.values (redis.get k s).0 j ≡ laws.values s j
  pub get_scores :
      (k : String) (s : redis.S) (j m : String)
      → laws.scores (redis.get k s).0 j m ≡ laws.scores s j m
  pub draws :
      (k : String) (s : redis.S) (m : String)
      → laws.scores s k m ≢ none
      → (id : String) × (ids : List String) × ((redis.z_rand_member k 1 s).1 ≡ value (id ∷ ids))
  pub draw_values :
      (k : String) (s : redis.S) (j : String)
      → laws.values (redis.z_rand_member k 1 s).0 j ≡ laws.values s j
  pub draw_scores :
      (k : String) (s : redis.S) (j m : String)
      → laws.scores (redis.z_rand_member k 1 s).0 j m ≡ laws.scores s j m
  pub execs : (cs : List (Command D)) (s : redis.S) → (redis.exec cs s).1 ≡ none
  pub exec_exact :
      (cs : List (Command D)) (s : redis.S) (k : String)
      → laws.values (redis.exec cs s).0 k ≡ values_after cs (laws.values s) k

abbrev pub Listed : String → List String → Type 0
Listed id [] = ⊥
Listed id (x ∷ xs) = (x ≡ id) ⊎ Listed id xs

pub without : String → List String → List String
without id [] = []
without id (x ∷ xs) = let rest = without id xs in if x == id then rest else x ∷ rest

length-without : (id : String) (xs : List String) → length (without id xs) ≤ length xs
unfolding without
length-without id [] = omega arith
length-without id (x ∷ xs) = elim (Bool-cases (x == id)) [
  | inl same ↦ rw same (omega (arith, length-without id xs))
  | inr apart ↦ rw apart (omega (arith, length-without id xs))
]

pub length-without-Listed :
    (id : String) (xs : List String) → Listed id xs → length (without id xs) < length xs
unfolding without
length-without-Listed id [] there = elim there [ ]
length-without-Listed id (x ∷ xs) (inl e) =
    rw (e, beq_self id) (omega (arith, length-without id xs))
length-without-Listed id (x ∷ xs) (inr there) = elim (Bool-cases (x == id)) [
  | inl same ↦ rw same (omega (arith, length-without id xs))
  | inr apart ↦ rw apart (omega (arith, length-without-Listed id xs there))
]

pub Listed-without :
    (id j : String) (xs : List String) → id ≢ j → Listed j xs → Listed j (without id xs)
unfolding without
Listed-without id j [] apart there = elim there [ ]
Listed-without id j (x ∷ xs) apart (inl e) = rw (beq_ne x id (λ same. apart (sym same ∙ e))) (inl e)
Listed-without id j (x ∷ xs) apart (inr there) = elim (Bool-cases (x == id)) [
  | inl same ↦ rw same (Listed-without id j xs apart there)
  | inr other ↦ rw other (inr (Listed-without id j xs apart there))
]

module _ {T D E : Type 0} {redis : Redis D E} (entity : Entity T D E) (st : Storage)
    (laws : Documented redis) where
  open laws use {values, scores}

  pub attempt_id_drawn :
      (id : String) (ids : List String) (r : redis.S × Reply E (List String))
      → id ≢ ""
      → r.1 ≡ value (id ∷ ids)
      → attempt_id redis entity st r
        ≡ attempt_got redis entity st id (redis.get (key_for st id) (r.0))
  unfolding attempt_id
  attempt_id_drawn id ids (s, nil) named h = ground arith
  attempt_id_drawn id ids (s, failed e) named h = ground arith
  attempt_id_drawn id ids (s, value []) named h = ground arith
  attempt_id_drawn id ids (s, value (i ∷ is)) named h =
      let same : i ≡ id = cc h in rw (same, beq_ne id "" named) refl

  abbrev pub Finds : String → redis.S × Reply E D → Type 0
  Finds id r = (x : T) × ((attempt_got redis entity st id r).1 ≡ some (ok x))

  -- Nothing that can be decoded is there, and the id is deleted.
  abbrev pub Drops : String → redis.S × Reply E D → Type 0
  Drops id r =
      (attempt_got redis entity st id r ≡ ((delete redis entity st id (r.0)).0, none))
      × ((d : D) (x : T) → r.1 ≡ value d → ¬ (entity.decode d ≡ inr x))

  attempt_got_decoded :
      (id : String) (s : redis.S) (d : D) (r : E ⊎ T)
      → entity.decode d ≡ r
      → Finds id (s, value d) ⊎ Drops id (s, value d)
  unfolding attempt_got attempt_decoded
  attempt_got_decoded id s d (inr x) e = inl (x, rw (e, attempt_decoded) refl)
  attempt_got_decoded id s d (inl f) e = inr (
    rw (e, attempt_decoded) refl,
    λ d' x same bad.
        let it : d ≡ d' = cc same in
        let both : inl f ≡ inr x = sym e ∙ ap entity.decode it ∙ bad in ground arith,
  )

  pub attempt_got_cases :
      (id : String) (r : redis.S × Reply E D) → ((e : E) → r.1 ≢ failed e) → Finds id r ⊎ Drops id r
  unfolding attempt_got
  attempt_got_cases id (s, nil) fine = inr (refl, λ d x h. ground arith)
  attempt_got_cases id (s, failed e) fine = absurd (fine e refl)
  attempt_got_cases id (s, value d) fine = attempt_got_decoded id s d (entity.decode d) refl
