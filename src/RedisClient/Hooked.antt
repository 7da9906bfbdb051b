-- ===== src/RedisClient/Hooked.antt =====
-- The hook changes nothing of what the client does.
use govnilo.Prelude.{
  ℕ, ◌==◌, ◌≡◌, refl, ap, ◌∙◌, string_eq, Bool, true, false, if◌then◌else◌, List, [], ◌∷◌, Option,
  none, some, String, ◌⊎◌, inl, inr, err,
}
use govnilo.RedisBase.{
  Redis, Entity, Storage, Error, Command, Reply, value, nil, failed, key_for, exec_outcome, save,
  delete, get_by_id, save_encoded, got, decoded, set, zadd, del, zrem, cannot_save, cannot_delete,
  empty_id,
}
use govnilo.RedisClient.{Line, hooked, process_hook, process_pipeline_hook}

-- Without the log.
abbrev pub forget : {S A : Type 0} → (S × List Line) × A → S × A
forget ((s, log), a) = (s, a)

abbrev pub forget_both : {S A B : Type 0} → (S × List Line) × A × B → S × A × B
forget_both ((s, log), a, b) = (s, a, b)

pub forget_if :
    {S A : Type 0} (b : Bool) (x y : (S × List Line) × A)
    → forget (if b then x else y) ≡ (if b then forget x else forget y)
forget_if true x y = refl
forget_if false x y = refl

module _ {T D E : Type 0} (redis : Redis D E) (entity : Entity T D E) (st : Storage) where
  pub forget-exec :
      (cs : List (Command D)) (p : redis.S × List Line)
      → forget ((hooked redis).exec cs p) ≡ redis.exec cs (p.0)
  unfolding process_pipeline_hook
  forget-exec cs (s, log) = refl

  pub forget-exec_outcome :
      (wrap : E → Error E) (r : (redis.S × List Line) × Option E)
      → forget (exec_outcome (hooked redis) entity st wrap r)
        ≡ exec_outcome redis entity st wrap (forget r)
  forget-exec_outcome wrap ((s, log), none) = refl
  forget-exec_outcome wrap ((s, log), some e) = refl

  -- `SET` and `ZADD` of `Save`.
  forget-save_encoded :
      (id : String) (now : ℕ) (r : E ⊎ D) (p : redis.S × List Line)
      → forget (save_encoded (hooked redis) entity st id now r p)
        ≡ save_encoded redis entity st id now r (p.0)
  unfolding save_encoded
  forget-save_encoded id now (inl e) (s, log) = refl
  forget-save_encoded id now (inr d) p =
      let cs : List (Command D) =
        set (key_for st id) d st.ttl ∷ zadd st.exp_z_set_key now id ∷ [] in
      forget-exec_outcome cannot_save ((hooked redis).exec cs p)
      ∙ ap (exec_outcome redis entity st cannot_save) (forget-exec cs p)

  pub forget-save :
      (x : T) (now : ℕ) (p : redis.S × List Line)
      → forget (save (hooked redis) entity st x now p) ≡ save redis entity st x now (p.0)
  unfolding save
  forget-save x now p =
      forget_if (entity.get_id x == "") (p, err empty_id) _
      ∙ ap (λ r. if entity.get_id x == "" then (p.0, err empty_id) else r)
          (forget-save_encoded (entity.get_id x) now (entity.encode x) p)

  pub forget-delete :
      (id : String) (p : redis.S × List Line)
      → forget (delete (hooked redis) entity st id p) ≡ delete redis entity st id (p.0)
  unfolding delete
  forget-delete id p =
      let cs : List (Command D) = del (key_for st id) ∷ zrem st.exp_z_set_key (id ∷ []) ∷ [] in
      forget_if (id == "") (p, err empty_id) _
      ∙ ap (λ r. if id == "" then (p.0, err empty_id) else r)
          (forget-exec_outcome cannot_delete ((hooked redis).exec cs p)
            ∙ ap (exec_outcome redis entity st cannot_delete) (forget-exec cs p))

  decoded_same : (r : E ⊎ T) → decoded (hooked redis) entity st r ≡ decoded redis entity st r
  unfolding decoded
  decoded_same (inl e) = refl
  decoded_same (inr x) = refl

  forget-got :
      (r : (redis.S × List Line) × Reply E D)
      → forget (got (hooked redis) entity st r) ≡ got redis entity st (forget r)
  unfolding got decoded
  forget-got ((s, log), nil) = refl
  forget-got ((s, log), failed e) = refl
  forget-got ((s, log), value d) = ap (λ o. (s, o)) (decoded_same (entity.decode d))

  pub forget-get :
      (key : String) (p : redis.S × List Line)
      → forget ((hooked redis).get key p) ≡ redis.get key (p.0)
  unfolding process_hook
  forget-get key (s, log) = refl

  pub forget-get_by_id :
      (id : String) (p : redis.S × List Line)
      → forget (get_by_id (hooked redis) entity st id p) ≡ get_by_id redis entity st id (p.0)
  unfolding get_by_id
  forget-get_by_id id p =
      forget_if (id == "") (p, err empty_id) _
      ∙ ap (λ r. if id == "" then (p.0, err empty_id) else r)
          (forget-got ((hooked redis).get (key_for st id) p)
            ∙ ap (got redis entity st) (forget-get (key_for st id) p))
