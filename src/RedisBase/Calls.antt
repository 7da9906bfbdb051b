-- ===== src/RedisBase/Calls.antt =====
-- A client that calls the storage again and again, and the finite map of entities that it may take
-- the storage for: an entry of the map may vanish at any time.
use govnilo.Prelude.{
  ℕ, ℤ, ◌==◌, ◌≡◌, string_eq, if◌then◌else◌, List, [], ◌∷◌, Option, none, some, String, ◌⊎◌, inl,
  Outcome, ok, err,
}
use govnilo.RedisBase.{
  Redis, Entity, Storage, Error, save, delete, get_by_id, get_random, get_most_recent,
  cleanup_expired, empty_id, not_found, cannot_encode, cannot_save, cannot_delete, cannot_get,
}

-- The methods of the interface `Storage`, and the round of the cleanup.
pub data Call (T : Type 0) : Type 0 where
  saves : T → ℕ → Call T
  deletes finds : String → Call T
  draws newest : Call T
  cleans : ℕ → ℤ → Call T

pub data Answer (T E : Type 0) : Type 0 where
  wrote : Outcome (Error E) (Unit {0}) → Answer T E
  found : Outcome (Error E) T → Answer T E

module _ {T D E : Type 0} (redis : Redis D E) (entity : Entity T D E) (st : Storage) where
  unfoldable pub call : Call T → redis.S → redis.S × Answer T E
  call (saves x now) s = let (s', o) = save redis entity st x now s in (s', wrote o)
  call (deletes id) s = let (s', o) = delete redis entity st id s in (s', wrote o)
  call (finds id) s = let (s', o) = get_by_id redis entity st id s in (s', found o)
  call draws s = let (s', o, _) = get_random redis entity st s in (s', found o)
  call newest s = let (s', o) = get_most_recent redis entity st s in (s', found o)
  call (cleans now max) s = let (s', o) = cleanup_expired redis entity st now max s in (s', wrote o)

  unfoldable pub run_calls : List (Call T) → redis.S → redis.S × List (Answer T E)
  unfolding call
  run_calls [] s = (s, [])
  run_calls (c ∷ cs) s =
      let (s', a) = call c s in let (end, answers) = run_calls cs s' in (end, a ∷ answers)

abbrev pub Entities : Type 0 → Type 0
Entities T = String → Option T

abbrev pub put : {T : Type 0} → String → Option T → Entities T → Entities T
put id o m j = if id == j then o else m j

-- Each entry of the first is one of the second.
abbrev pub IsLess : {T : Type 0} → Entities T → Entities T → Type 0
IsLess m n = (id : String) → (m id ≡ n id) ⊎ (m id ≡ none)

-- Each entry of the first is one of the second or of the third.
abbrev pub IsEither : {T : Type 0} → Entities T → Entities T → Entities T → Type 0
IsEither m n o = (id : String) → (m id ≡ n id) ⊎ (m id ≡ o id) ⊎ (m id ≡ none)

module _ {T D E : Type 0} (entity : Entity T D E) where
  -- What a call may answer where the map is `m`, and what it may leave of the map.
  pub data IsAllowed (m m' : Entities T) : Call T → Answer T E → Type 0 where
    nameless :
        {x : T} {now : ℕ}
        → entity.get_id x ≡ ""
        → m' ≡ m
        → IsAllowed m m' (saves x now) (wrote (err empty_id))
    unencoded :
        {x : T} {now : ℕ} {e : E}
        → entity.encode x ≡ inl e
        → m' ≡ m
        → IsAllowed m m' (saves x now) (wrote (err (cannot_encode e)))
    saved :
        {x : T} {now : ℕ}
        → IsLess m' (put (entity.get_id x) (some x) m)
        → IsAllowed m m' (saves x now) (wrote (ok tt))
    unsaved :
        {x : T} {now : ℕ} {e : E}
        → IsEither m' m (put (entity.get_id x) (some x) m)
        → IsAllowed m m' (saves x now) (wrote (err (cannot_save e)))
    kept : {id : String} → id ≡ "" → m' ≡ m → IsAllowed m m' (deletes id) (wrote (err empty_id))
    deleted :
        {id : String} → IsLess m' (put id none m) → IsAllowed m m' (deletes id) (wrote (ok tt))
    undeleted :
        {id : String} {e : E}
        → IsEither m' m (put id none m)
        → IsAllowed m m' (deletes id) (wrote (err (cannot_delete e)))
    unasked : {id : String} → id ≡ "" → m' ≡ m → IsAllowed m m' (finds id) (found (err empty_id))
    there :
        {id : String} {x : T}
        → m id ≡ some x
        → IsLess m' m
        → IsAllowed m m' (finds id) (found (ok x))
    missing :
        {id : String}
        → m' id ≡ none
        → IsLess m' m
        → IsAllowed m m' (finds id) (found (err not_found))
    unread :
        {id : String} {e : E} → IsLess m' m → IsAllowed m m' (finds id) (found (err (cannot_get e)))
    drawn :
        {o : Outcome (Error E) T}
        → ((x : T) → o ≡ ok x → (id : String) × (m id ≡ some x))
        → IsLess m' m
        → IsAllowed m m' draws (found o)
    latest :
        {o : Outcome (Error E) T}
        → ((x : T) → o ≡ ok x → (id : String) × (m id ≡ some x))
        → IsLess m' m
        → IsAllowed m m' newest (found o)
    cleaned :
        {now : ℕ} {max : ℤ} {o : Outcome (Error E) (Unit {0})}
        → IsLess m' m
        → IsAllowed m m' (cleans now max) (wrote o)

  -- The same of a list of calls, which leave the map `end`.
  pub data AreAllowed (end : Entities T)
      : Entities T → List (Call T) → List (Answer T E) → Type 0 where
    done : AreAllowed end end [] []
    next :
        {c : Call T} {a : Answer T E} {cs : List (Call T)} {answers : List (Answer T E)}
        (m m' : Entities T)
        → IsAllowed m m' c a
        → AreAllowed end m' cs answers
        → AreAllowed end m (c ∷ cs) (a ∷ answers)
