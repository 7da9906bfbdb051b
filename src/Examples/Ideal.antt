-- ===== src/Examples/Ideal.antt =====
-- A Redis server that never fails and where nothing expires, which holds what was done to it; and the
-- storage of users on it, with one id that has lost its entity.
use mathlib.Core.Path.{subst}
use govnilo.Prelude.{
  All, ℕ, ℤ, ◌==◌, ◌≡◌, ◌≢◌, refl, sym, ap, ◌∙◌, string_eq, Bool-cases, false, ◌&&◌, if◌then◌else◌,
  List, [], ◌∷◌, ◌++◌, Option, none, some, String, ◌⊎◌, inl, inr, ok, err, ne_of_beq, arith,
}
use govnilo.RedisBase.{
  Redis, Command, set, zadd, del, zrem, Reply, value, nil, key_for, get_random, made_storage,
  not_found,
}
use govnilo.RedisBase.Laws.{
  Documented, value_after, score_after, values_after, scores_after, among, IsAtMost,
}
use govnilo.RedisBase.Stale.{IsSteady, Listed}
use govnilo.RedisBase.Finding.{Tracks, IsAlive, get_random_finds}
use govnilo.Examples.Server.{entity, replied, replied-value, replied-live, none-some}
use govnilo.Examples.Storages.{users, users-IsReady}

abbrev Log : Type 0
Log = List (Command (String × ℕ))

abbrev held : Log → String → Option (String × ℕ)
held log = values_after log (λ k. none)

abbrev scored : Log → String → String → Option ℕ
scored log = scores_after log (λ k m. none)

abbrev added : Log → List String
added [] = []
added (set k d ttl ∷ cs) = added cs
added (zadd k n m ∷ cs) = m ∷ added cs
added (del k ∷ cs) = added cs
added (zrem k ms ∷ cs) = added cs

abbrev picked : String → Option ℕ → Reply ℕ (List String) → Reply ℕ (List String)
picked m none rest = rest
picked m (some n) rest = value (m ∷ [])

-- The first that has a score.
abbrev pick : (String → Option ℕ) → List String → Reply ℕ (List String)
pick f [] = nil
pick f (m ∷ ms) = picked m (f m) (pick f ms)

picked-tracked :
    (f : String → Option ℕ) (m : String) (o : Option ℕ) (rest : Reply ℕ (List String)) (id : String)
    (ids : List String)
    → f m ≡ o
    → (rest ≡ value (id ∷ ids) → f id ≢ none)
    → picked m o rest ≡ value (id ∷ ids)
    → f id ≢ none
picked-tracked f m none rest id ids e h p = h p
picked-tracked f m (some n) rest id ids e h p =
    let same : m ≡ id = cc p in λ gone. absurd (cc (e, ap f same ∙ gone))

pick-tracked :
    (f : String → Option ℕ) (ms : List String) (id : String) (ids : List String)
    → pick f ms ≡ value (id ∷ ids)
    → f id ≢ none
pick-tracked f [] id ids h = ground arith
pick-tracked f (m ∷ ms) id ids h =
    picked-tracked f m (f m) (pick f ms) id ids refl (pick-tracked f ms id ids) h

abbrev IsPicked : Reply ℕ (List String) → Type 0
IsPicked r = (id : String) × (ids : List String) × (r ≡ value (id ∷ ids))

picked-IsPicked :
    (m : String) (o : Option ℕ) (rest : Reply ℕ (List String))
    → (o ≢ none) ⊎ IsPicked rest
    → IsPicked (picked m o rest)
picked-IsPicked m none rest (inl h) = absurd (h refl)
picked-IsPicked m none rest (inr h) = h
picked-IsPicked m (some n) rest h = (m, [], refl)

pick-IsPicked :
    (f : String → Option ℕ) (ms : List String) (m : String)
    → Listed m ms
    → f m ≢ none
    → IsPicked (pick f ms)
pick-IsPicked f [] m there h = elim there [ ]
pick-IsPicked f (x ∷ ms) m (inl e) h =
    picked-IsPicked x (f x) (pick f ms) (inl (λ gone. h (ap f (sym e) ∙ gone)))
pick-IsPicked f (x ∷ ms) m (inr there) h =
    picked-IsPicked x (f x) (pick f ms) (inr (pick-IsPicked f ms m there h))

-- Only a member that was added has a score.
score_after-added :
    (c : Command (String × ℕ)) (f : String → String → Option ℕ) (k m : String)
    → score_after c f k m ≢ none
    → (f k m ≢ none) ⊎ Listed m (added (c ∷ []))
score_after-added (set j d ttl) f k m h = elim (Bool-cases (j == k)) [
  | inl hit ↦ absurd (h (ap (λ b. if b then none else f k m) hit))
  | inr miss ↦ inl (λ gone. h (ap (λ b. if b then none else f k m) miss ∙ gone))
]
score_after-added (zadd j n l) f k m h = elim (Bool-cases (l == m)) [
  | inl same ↦ inr (inl ((string_eq.beq_iff l m).0 same))
  | inr other ↦ inl (λ gone. h (ground (arith, other, gone)))
]
score_after-added (del j) f k m h = elim (Bool-cases (j == k)) [
  | inl hit ↦ absurd (h (ap (λ b. if b then none else f k m) hit))
  | inr miss ↦ inl (λ gone. h (ap (λ b. if b then none else f k m) miss ∙ gone))
]
score_after-added (zrem j ms) f k m h = elim (Bool-cases (j == k && among m ms)) [
  | inl hit ↦ absurd (h (ap (λ b. if b then none else f k m) hit))
  | inr miss ↦ inl (λ gone. h (ap (λ b. if b then none else f k m) miss ∙ gone))
]

Listed-added :
    (c : Command (String × ℕ)) (cs : Log) (m : String)
    → Listed m (added (c ∷ [])) ⊎ Listed m (added cs)
    → Listed m (added (c ∷ cs))
Listed-added (set k d ttl) cs m (inl there) = elim there [ ]
Listed-added (set k d ttl) cs m (inr there) = there
Listed-added (zadd k n l) cs m (inl (inl e)) = inl e
Listed-added (zadd k n l) cs m (inl (inr there)) = elim there [ ]
Listed-added (zadd k n l) cs m (inr there) = inr there
Listed-added (del k) cs m (inl there) = elim there [ ]
Listed-added (del k) cs m (inr there) = there
Listed-added (zrem k ms) cs m (inl there) = elim there [ ]
Listed-added (zrem k ms) cs m (inr there) = there

scores_after-added :
    (log : Log) (f : String → String → Option ℕ) (k m : String)
    → scores_after log f k m ≢ none
    → (f k m ≢ none) ⊎ Listed m (added log)
scores_after-added [] f k m h = inl h
scores_after-added (c ∷ cs) f k m h = elim (scores_after-added cs (score_after c f) k m h) [
  | inr later ↦ inr (Listed-added c cs m (inr later))
  | inl now ↦ elim (score_after-added c f k m now) [
    | inl before ↦ inl before
    | inr here ↦ inr (Listed-added c cs m (inl here))
  ]
]

values_after-append :
    (a b : Log) (f : String → Option (String × ℕ)) (k : String)
    → values_after (a ++ b) f k ≡ values_after b (values_after a f) k
values_after-append [] b f k = refl
values_after-append (c ∷ a) b f k = values_after-append a b (value_after c f) k

scores_after-append :
    (a b : Log) (f : String → String → Option ℕ) (k m : String)
    → scores_after (a ++ b) f k m ≡ scores_after b (scores_after a f) k m
scores_after-append [] b f k m = refl
scores_after-append (c ∷ a) b f k m = scores_after-append a b (score_after c f) k m

nothing_listed :
    (f : String → Option ℕ) (b : ℤ) (ids : List String)
    → ◌≡◌ {A = Reply ℕ (List String)} (value []) (value ids)
    → All (λ id. (n : ℕ) × (f id ≡ some n) × IsAtMost n b) ids
nothing_listed f b ids h = let same : [] ≡ ids = cc h in rw (← same) tt

was_added : (s : Log) (k m : String) → scored s k m ≢ none → Listed m (added s)
was_added s k m h = elim (scores_after-added s (λ k m. none) k m h) [
  | inl never ↦ absurd (never refl)
  | inr there ↦ there
]

abbrev ideal : Redis (String × ℕ) ℕ
ideal = record {
  S = Log;
  get = λ k s. (s, replied (held s k));
  z_rand_member = λ k n s. (s, pick (scored s k) (added s));
  z_rev_range = λ k i j s. (s, pick (scored s k) (added s));
  z_range_by_score = λ k b max s. (s, value []);
  exec = λ cs s. (s ++ cs, none);
}

abbrev ideal_laws : Documented ideal
ideal_laws = record {
  values = held;
  scores = scored;
  exec_values = λ cs s h k. inl (values_after-append s cs (λ k. none) k);
  exec_scores = λ cs s h k m. scores_after-append s cs (λ k m. none) k m;
  exec_failed = λ cs s e h k. absurd (none-some e h);
  get_value = λ k s d h. replied-value (held s k) d h;
  get_live = λ k s d h. replied-live (held s k) d h;
  get_keeps = λ k s j. inl refl;
  rand_member = λ k s id ids h. pick-tracked (scored s k) (added s) id ids h;
  range_bound = λ k b max s ids h. nothing_listed (scored s k) b ids h;
  range_keeps = λ k b max s j m. refl;
  rand_keeps = λ k s j. inl refl;
  rev_keeps = λ k s j. inl refl;
  range_values = λ k b max s j. inl refl;
}

ideal-IsSteady : IsSteady ideal_laws
ideal-IsSteady = record {
  get_some = λ k s d h. ap replied h;
  get_none = λ k s h. ap replied h;
  get_values = λ k s j. refl;
  get_scores = λ k s j m. refl;
  draws = λ k s m h. pick-IsPicked (scored s k) (added s) m (was_added s k m h) h;
  draw_values = λ k s j. refl;
  draw_scores = λ k s j m. refl;
  execs = λ cs s. refl;
  exec_exact = λ cs s k. values_after-append s cs (λ k. none) k;
}

-- The entity of "b" is gone, that of "a" is there.
abbrev left_over : Log
left_over =
    zadd users.exp_z_set_key 50 "b"
    ∷ set (key_for users "a") ("a", 7) users.ttl
    ∷ zadd users.exp_z_set_key 100 "a"
    ∷ []

IsAlive-a : IsAlive entity users ideal_laws left_over "a"
unfolding made_storage
IsAlive-a = (("a", 7), ("a", 7), refl, refl)

unscored :
    (id : String)
    → ("a" == id) ≡ false
    → ("b" == id) ≡ false
    → scored left_over users.exp_z_set_key id ≡ none
unfolding made_storage
unscored id not_a not_b =
    ap (λ b. if b then some 100 else if "b" == id then some 50 else none) not_a
    ∙ ap (λ b. if b then some 50 else none) not_b

left_over-Tracks : Tracks entity users ideal_laws ("b" ∷ []) left_over
unfolding made_storage
left_over-Tracks = record {
  live = "a";
  alive = IsAlive-a;
  listed = λ gone. ground arith;
  each = λ id there. elim (Bool-cases ("b" == id)) [
    | inl same ↦
        let e = (string_eq.beq_iff "b" id).0 same in
        ((λ h. ne_of_beq "b" "" refl (e ∙ h)), (λ h. ne_of_beq "b" "exp" refl (e ∙ h)), inl (inl e))
    | inr not_b ↦ elim (Bool-cases ("a" == id)) [
      | inl same ↦
          let e = (string_eq.beq_iff "a" id).0 same in
          (
            (λ h. ne_of_beq "a" "" refl (e ∙ h)),
            (λ h. ne_of_beq "a" "exp" refl (e ∙ h)),
            inr (subst (IsAlive entity users ideal_laws left_over) e IsAlive-a),
          )
      | inr not_a ↦ absurd (there (unscored id not_a not_b))
    ]
  ];
}

get_random_finds_example : (x : String × ℕ) × ((get_random ideal entity users left_over).1 ≡ ok x)
get_random_finds_example =
    get_random_finds entity users ideal_laws users-IsReady ideal-IsSteady ("b" ∷ []) left_over
      (omega arith) left_over-Tracks

-- Five ids without an entity come before that of "a": it is there, and not found.
abbrev worn : Log
worn =
    zadd users.exp_z_set_key 50 "b"
    ∷ zadd users.exp_z_set_key 50 "c"
    ∷ zadd users.exp_z_set_key 50 "d"
    ∷ zadd users.exp_z_set_key 50 "e"
    ∷ zadd users.exp_z_set_key 50 "f"
    ∷ set (key_for users "a") ("a", 7) users.ttl
    ∷ zadd users.exp_z_set_key 100 "a"
    ∷ []

worn_there : held worn (key_for users "a") ≡ some ("a", 7)
unfolding made_storage
worn_there = refl

worn_not_found : (get_random ideal entity users worn).1 ≡ err not_found
unfolding get_random made_storage
worn_not_found = refl
