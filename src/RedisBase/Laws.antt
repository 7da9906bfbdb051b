-- ===== src/RedisBase/Laws.antt =====
-- What the documentation of the Redis commands says of them, as far as the storage relies on it. A
-- key's value may expire before, after or between the commands; the members of a sorted set do not.
use govnilo.Prelude.{
  ℕ, ℤ, pos, negsuc, ◌≤◌, ◌==◌, ◌≡◌, string_eq, Bool, false, ◌&&◌, ◌||◌, if◌then◌else◌, List, [],
  ◌∷◌, All, Option, none, some, String, ◌⊎◌, ◌≢◌,
}
use govnilo.RedisBase.{Redis, Command, set, zadd, del, zrem, value, failed}

abbrev pub among : String → List String → Bool
among m [] = false
among m (n ∷ ns) = n == m || among m ns

abbrev pub IsAtMost : ℕ → ℤ → Type 0
IsAtMost n (pos b) = n ≤ b
IsAtMost n (negsuc _) = ⊥

module _ {D : Type 0} where
  -- What the keys hold after a command, and the scores of the members of the sorted sets.
  abbrev pub value_after : Command D → (String → Option D) → String → Option D
  value_after (set k d _) values j = if k == j then some d else values j
  value_after (zadd _ _ _) values j = values j
  value_after (del k) values j = if k == j then none else values j
  value_after (zrem _ _) values j = values j

  abbrev pub score_after : Command D → (String → String → Option ℕ) → String → String → Option ℕ
  score_after (set k _ _) scores j m = if k == j then none else scores j m
  score_after (zadd k n l) scores j m = if k == j && l == m then some n else scores j m
  score_after (del k) scores j m = if k == j then none else scores j m
  score_after (zrem k ls) scores j m = if k == j && among m ls then none else scores j m

  abbrev pub values_after : List (Command D) → (String → Option D) → String → Option D
  values_after [] values = values
  values_after (c ∷ cs) values = values_after cs (value_after c values)

  abbrev pub scores_after :
      List (Command D) → (String → String → Option ℕ) → String → String → Option ℕ
  scores_after [] scores = scores
  scores_after (c ∷ cs) scores = scores_after cs (score_after c scores)

-- `values` and `scores` are what a server in some state holds.
pub record Documented {D E : Type 0} (redis : Redis D E) : Type 0 where
  pub values : redis.S → String → Option D
  pub scores : redis.S → String → String → Option ℕ
  pub exec_values :
      (cs : List (Command D)) (s : redis.S)
      → (redis.exec cs s).1 ≡ none
      → (k : String)
      → (values (redis.exec cs s).0 k ≡ values_after cs (values s) k)
        ⊎ (values (redis.exec cs s).0 k ≡ none)
  pub exec_scores :
      (cs : List (Command D)) (s : redis.S)
      → (redis.exec cs s).1 ≡ none
      → (k m : String) → scores (redis.exec cs s).0 k m ≡ scores_after cs (scores s) k m
  -- A transaction that fails may have been carried out all the same.
  pub exec_failed :
      (cs : List (Command D)) (s : redis.S) (e : E)
      → (redis.exec cs s).1 ≡ some e
      → (k : String)
      → (values (redis.exec cs s).0 k ≡ values s k)
        ⊎ (values (redis.exec cs s).0 k ≡ values_after cs (values s) k)
        ⊎ (values (redis.exec cs s).0 k ≡ none)
  pub get_value :
      (k : String) (s : redis.S) (d : D) → (redis.get k s).1 ≡ value d → values s k ≡ some d
  pub get_live :
      (k : String) (s : redis.S) (d : D)
      → values (redis.get k s).0 k ≡ some d
      → ((redis.get k s).1 ≡ value d) ⊎ ((e : E) × ((redis.get k s).1 ≡ failed e))
  pub get_keeps :
      (k : String) (s : redis.S) (j : String)
      → (values (redis.get k s).0 j ≡ values s j) ⊎ (values (redis.get k s).0 j ≡ none)
  pub rand_member :
      (k : String) (s : redis.S) (id : String) (ids : List String)
      → (redis.z_rand_member k 1 s).1 ≡ value (id ∷ ids)
      → scores s k id ≢ none
  pub range_bound :
      (k : String) (b max : ℤ) (s : redis.S) (ids : List String)
      → (redis.z_range_by_score k b max s).1 ≡ value ids
      → All (λ id. (n : ℕ) × (scores s k id ≡ some n) × IsAtMost n b) ids
  pub range_keeps :
      (k : String) (b max : ℤ) (s : redis.S) (j m : String)
      → scores (redis.z_range_by_score k b max s).0 j m ≡ scores s j m
  -- Queries of a sorted set leave the values as they are.
  pub rand_keeps :
      (k : String) (s : redis.S) (j : String)
      → (values (redis.z_rand_member k 1 s).0 j ≡ values s j)
        ⊎ (values (redis.z_rand_member k 1 s).0 j ≡ none)
  pub rev_keeps :
      (k : String) (s : redis.S) (j : String)
      → (values (redis.z_rev_range k 0 0 s).0 j ≡ values s j)
        ⊎ (values (redis.z_rev_range k 0 0 s).0 j ≡ none)
  pub range_values :
      (k : String) (b max : ℤ) (s : redis.S) (j : String)
      → (values (redis.z_range_by_score k b max s).0 j ≡ values s j)
        ⊎ (values (redis.z_range_by_score k b max s).0 j ≡ none)
