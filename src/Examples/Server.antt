-- ===== src/Examples/Server.antt =====
-- A Redis server that never fails and where nothing expires, with the entities of one service. It
-- lists the id "a" alone.
use govnilo.Prelude.{
  ℕ, ℤ, pos, negsuc, leb, ◌≡◌, refl, sym, ap, ◌∙◌, Bool-cases, ◌≢◌, Bool, true, false,
  if◌then◌else◌, List, [], ◌∷◌, Option, none, some, String, ◌⊎◌, inl, inr, All, arith,
}
use govnilo.RedisBase.{Redis, Entity, Reply, value, nil, failed}
use govnilo.RedisBase.Laws.{Documented, values_after, scores_after, IsAtMost}

abbrev pub Server : Type 0
Server = (String → Option (String × ℕ)) × (String → String → Option ℕ)

abbrev pub listed : Option ℕ → Reply ℕ (List String)
listed none = nil
listed (some _) = value ("a" ∷ [])

abbrev pub at_most : ℕ → ℤ → Bool
at_most n (pos b) = leb n b
at_most n (negsuc _) = false

abbrev pub in_range : ℤ → Option ℕ → Reply ℕ (List String)
in_range b none = value []
in_range b (some n) = if at_most n b then value ("a" ∷ []) else value []

abbrev pub replied : Option (String × ℕ) → Reply ℕ (String × ℕ)
replied none = nil
replied (some d) = value d

abbrev pub server : Redis (String × ℕ) ℕ
server = record {
  S = Server;
  get = λ k s. (s, replied (s.0 k));
  z_rand_member = λ k n s. (s, listed (s.1 k "a"));
  z_rev_range = λ k i j s. (s, listed (s.1 k "a"));
  z_range_by_score = λ k b max s. (s, in_range b (s.1 k "a"));
  exec = λ cs s. ((values_after cs (s.0), scores_after cs (s.1)), none);
}

abbrev pub entity : Entity (String × ℕ) (String × ℕ) ℕ
entity = record { get_id = λ x. x.0; encode = λ x. inr x; decode = λ d. inr d }

pub replied-value : (o : Option (String × ℕ)) (d : String × ℕ) → replied o ≡ value d → o ≡ some d
replied-value none d h = ground arith
replied-value (some x) d h = cc h

pub replied-live :
    (o : Option (String × ℕ)) (d : String × ℕ)
    → o ≡ some d
    → (replied o ≡ value d) ⊎ ((e : ℕ) × (replied o ≡ failed e))
replied-live none d h = ground arith
replied-live (some x) d h = inl (cc h)

pub listed-tracked :
    (o : Option ℕ) (id : String) (ids : List String)
    → listed o ≡ value (id ∷ ids)
    → (id ≡ "a") × (o ≢ none)
listed-tracked none id ids h = ground arith
listed-tracked (some n) id ids h = (cc h, ground arith)

at_most-IsAtMost : (n : ℕ) (b : ℤ) → at_most n b ≡ true → IsAtMost n b
at_most-IsAtMost n (pos b) h = ground arith
at_most-IsAtMost n (negsuc b) h = ground arith

pub in_range-All :
    (o : Option ℕ) (scores : String → Option ℕ) (b : ℤ) (ids : List String)
    → scores "a" ≡ o
    → in_range b o ≡ value ids
    → All (λ id. (n : ℕ) × (scores id ≡ some n) × IsAtMost n b) ids
in_range-All none scores b ids e h = let it : [] ≡ ids = cc h in rw (← it) tt
in_range-All (some n) scores b ids e h = elim (Bool-cases (at_most n b)) [
  | inl low ↦
      let found : value ("a" ∷ []) ≡ value ids =
        sym (ap (λ t. if t then value ("a" ∷ []) else value []) low) ∙ h in
      let it : "a" ∷ [] ≡ ids = cc found in rw (← it) ((n, e, at_most-IsAtMost n b low), tt)
  | inr high ↦
      let found : value [] ≡ value ids =
        sym (ap (λ t. if t then value ("a" ∷ []) else value []) high) ∙ h in
      let it : [] ≡ ids = cc found in rw (← it) tt
]

pub none-some : (e : ℕ) → ¬ (none ≡ some e)
none-some e h = ground arith

abbrev pub server_laws : Documented server
server_laws = record {
  values = λ s. s.0;
  scores = λ s. s.1;
  exec_values = λ cs s h k. inl refl;
  exec_scores = λ cs s h k m. refl;
  exec_failed = λ cs s e h k. absurd (none-some e h);
  get_value = λ k s d h. replied-value (s.0 k) d h;
  get_live = λ k s d h. replied-live (s.0 k) d h;
  get_keeps = λ k s j. inl refl;
  rand_member =
      λ k s id ids h. let (it, there) = listed-tracked (s.1 k "a") id ids h in rw it there;
  range_bound = λ k b max s ids h. in_range-All (s.1 k "a") (s.1 k) b ids refl h;
  range_keeps = λ k b max s j m. refl;
  rand_keeps = λ k s j. inl refl;
  rev_keeps = λ k s j. inl refl;
  range_values = λ k b max s j. inl refl;
}
