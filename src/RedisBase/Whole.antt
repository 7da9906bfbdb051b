-- ===== src/RedisBase/Whole.antt =====
-- The storage as a whole: any sequence of calls.
use govnilo.Prelude.{
  ℕ, ℤ, ◌≡◌, refl, sym, ap, ◌∙◌, string_eq, List, [], ◌∷◌, Option, none, some, String, inl, inr,
  Outcome, ok,
}
use govnilo.RedisBase.{
  Redis, Entity, Storage, Reply, value, nil, failed, zrem, Error, exec_outcome, get_random,
  get_most_recent, remove_expired, cleanup_expired, expired_before, cannot_cleanup,
}
use govnilo.RedisBase.Laws.{Documented}
use govnilo.RedisBase.Calls.{
  Call, saves, deletes, finds, draws, newest, cleans, found, call, run_calls, Entities, IsLess,
  IsAllowed, drawn, latest, cleaned, AreAllowed, done, next,
}
use govnilo.RedisBase.Views.{
  view, IsReadable, HasFaded, HasFaded-trans, HasFaded-view, HasFaded-IsReadable,
}
use govnilo.RedisBase.Refinement.{Meets, save-Meets, delete-Meets, get_by_id-Meets}
use govnilo.RedisBase.Draws.{Finds, get_random-Finds, get_most_recent-Finds}

module _ {T D E : Type 0} {redis : Redis D E} (entity : Entity T D E) (st : Storage)
    (laws : Documented redis) where
  open laws use {values}

  exec_zrem-HasFaded :
      (ids : List String) (s : redis.S) (r : redis.S × Option E)
      → redis.exec (zrem st.exp_z_set_key ids ∷ []) s ≡ r
      → HasFaded entity st laws s (exec_outcome redis entity st cannot_cleanup r).0
  exec_zrem-HasFaded ids s (s', none) h k =
      elim (laws.exec_values (zrem st.exp_z_set_key ids ∷ []) s (ap (λ r. r.1) h) k) [
        | inl same ↦ inl (sym (ap (λ r. values (r.0) k) h) ∙ same)
        | inr gone ↦ inr (sym (ap (λ r. values (r.0) k) h) ∙ gone)
      ]
  exec_zrem-HasFaded ids s (s', some e) h k =
      elim (laws.exec_failed (zrem st.exp_z_set_key ids ∷ []) s e (ap (λ r. r.1) h) k) [
        | inl same ↦ inl (sym (ap (λ r. values (r.0) k) h) ∙ same)
        | inr (inl same) ↦ inl (sym (ap (λ r. values (r.0) k) h) ∙ same)
        | inr (inr gone) ↦ inr (sym (ap (λ r. values (r.0) k) h) ∙ gone)
      ]

  remove_expired-HasFaded :
      (r : redis.S × Reply E (List String))
      → HasFaded entity st laws (r.0) (remove_expired redis entity st r).0
  unfolding remove_expired
  remove_expired-HasFaded (s, nil) = λ k. inl refl
  remove_expired-HasFaded (s, failed f) = λ k. inl refl
  remove_expired-HasFaded (s, value []) = λ k. inl refl
  remove_expired-HasFaded (s, value (id ∷ ids)) =
      exec_zrem-HasFaded (id ∷ ids) s (redis.exec (zrem st.exp_z_set_key (id ∷ ids) ∷ []) s) refl

  cleanup_expired-HasFaded :
      (now : ℕ) (max : ℤ) (s : redis.S)
      → HasFaded entity st laws s (cleanup_expired redis entity st now max s).0
  unfolding cleanup_expired
  cleanup_expired-HasFaded now max s =
      let bound = expired_before now st.ttl in
      HasFaded-trans entity st laws s _ _ (laws.range_values st.exp_z_set_key bound max s)
        (remove_expired-HasFaded (redis.z_range_by_score st.exp_z_set_key bound max s))

  queried :
      (c : Call T) (s : redis.S) (r : redis.S × Outcome (Error E) T)
      → IsReadable entity st laws s
      → ((m m' : Entities T)
          → ((x : T) → r.1 ≡ ok x → (id : String) × (m id ≡ some x))
          → IsLess m' m
          → IsAllowed entity m m' c (found (r.1)))
      → Finds entity st laws s r
      → Meets entity st laws s c (r.0, found (r.1))
  queried c s r v allowed (faded, was) = (
    allowed (view entity st laws s) (view entity st laws (r.0)) was
        (HasFaded-view entity st laws s (r.0) faded),
    HasFaded-IsReadable entity st laws s (r.0) faded v,
  )

  module _ (round : (x : T) (d : D) → entity.encode x ≡ inr d → entity.decode d ≡ inr x) where
    call-Meets :
        (c : Call T) (s : redis.S)
        → IsReadable entity st laws s
        → Meets entity st laws s c (call redis entity st c s)
    unfolding call
    call-Meets (saves x now) s v = save-Meets entity st laws x now s (round x) v
    call-Meets (deletes id) s v = delete-Meets entity st laws id s v
    call-Meets (finds id) s v = get_by_id-Meets entity st laws id s v
    call-Meets draws s v =
        let (s', o, _) = get_random redis entity st s in
        queried draws s (s', o) v (λ m m' was less. drawn was less)
          (get_random-Finds entity st laws s)
    call-Meets newest s v =
        queried newest s (get_most_recent redis entity st s) v (λ m m' was less. latest was less)
          (get_most_recent-Finds entity st laws s v)
    call-Meets (cleans now max) s v =
        let faded = cleanup_expired-HasFaded now max s in
        (
          cleaned (HasFaded-view entity st laws s _ faded),
          HasFaded-IsReadable entity st laws s _ faded v,
        )

    run_calls-IsReadable :
        (cs : List (Call T)) (s : redis.S)
        → IsReadable entity st laws s
        → let (s', answers) = run_calls redis entity st cs s in
          AreAllowed entity (view entity st laws s') (view entity st laws s) cs answers
          × IsReadable entity st laws s'
    unfolding run_calls
    run_calls-IsReadable [] s v = (done, v)
    run_calls-IsReadable (c ∷ cs) s v =
        let (allowed, v') = call-Meets c s v in
        let (rest, end) = run_calls-IsReadable cs (call redis entity st c s).0 v' in
        (next (view entity st laws s) _ allowed rest, end)

    -- For a client that calls `Save`, `Delete`, `GetByID`, `GetRandom` and `GetMostRecent` in any
    -- order, and for the cleanup in between, the storage is a finite map of entities, where an entry
    -- may vanish at any time: each answer is one that the map allows, errors of the client of Redis
    -- included. It holds if `Decode` takes what `Encode` makes, and no key of the storage holds what
    -- `Decode` fails on to begin with.
    pub run_calls-AreAllowed :
        (cs : List (Call T)) (s : redis.S)
        → IsReadable entity st laws s
        → let (s', answers) = run_calls redis entity st cs s in
          AreAllowed entity (view entity st laws s') (view entity st laws s) cs answers
    run_calls-AreAllowed cs s v = (run_calls-IsReadable cs s v).0
