-- ===== src/RedisBase/Refinement.antt =====
-- The storage does what a finite map of entities does, whose entries may vanish.
use govnilo.Prelude.{
  ℕ, ◌==◌, ◌≡◌, refl, sym, ap, ◌∙◌, string_eq, Bool-cases, if◌then◌else◌, List, [], ◌∷◌, Option,
  Option-cases, none, some, String, ◌⊎◌, inl, inr, Outcome, ok, err, arith,
}
use govnilo.RedisBase.{
  Redis, Entity, Storage, Command, Reply, value, nil, failed, set, zadd, del, zrem, Error, key_for,
  save, save_encoded, exec_outcome, delete, get_by_id, got, decoded, cannot_save, cannot_delete,
}
use govnilo.RedisBase.Laws.{Documented, values_after}
use govnilo.RedisBase.Calls.{
  Call, saves, deletes, finds, Answer, wrote, found, IsAllowed, nameless, unencoded, saved, unsaved,
  kept, deleted, undeleted, unasked, there, missing, unread,
}
use govnilo.RedisBase.Views.{
  view, viewed, IsReadable, HasFaded, HasFaded-view, HasFaded-IsReadable, view-some, IsWritten,
  MayBeWritten, IsWritten-view, IsWritten-may, MayBeWritten-view, MayBeWritten-IsReadable,
}

module _ {T D E : Type 0} {redis : Redis D E} (entity : Entity T D E) (st : Storage)
    (laws : Documented redis) where
  open laws use {values}

  abbrev pub Meets : redis.S → Call T → redis.S × Answer T E → Type 0
  Meets s c r =
      IsAllowed entity (view entity st laws s) (view entity st laws (r.0)) c (r.1)
      × IsReadable entity st laws (r.0)

  -- A transaction that writes the key of one id alone.
  pub exec_writes :
      (wrap : E → Error E) (cs : List (Command D)) (id : String) (o : Option D) (s : redis.S)
      → ((k : String)
          → values_after cs (values s) k ≡ (if key_for st id == k then o else values s k))
      → (r : redis.S × Option E) → redis.exec cs s ≡ r
      → ((exec_outcome redis entity st wrap r ≡ (r.0, ok tt))
          × IsWritten entity st laws id o s (r.0))
        ⊎ ((e : E) × (exec_outcome redis entity st wrap r ≡ (r.0, err (wrap e)))
            × MayBeWritten entity st laws id o s (r.0))
  exec_writes wrap cs id o s after (s', none) h = inl (
    refl,
    λ k. elim (laws.exec_values cs s (ap (λ r. r.1) h) k) [
      | inl same ↦ inl (sym (ap (λ r. values (r.0) k) h) ∙ same ∙ after k)
      | inr gone ↦ inr (sym (ap (λ r. values (r.0) k) h) ∙ gone)
    ],
  )
  exec_writes wrap cs id o s after (s', some e) h = inr (
    e,
    refl,
    λ k. elim (laws.exec_failed cs s e (ap (λ r. r.1) h) k) [
      | inl same ↦ inl (sym (ap (λ r. values (r.0) k) h) ∙ same)
      | inr (inl same) ↦ inr (inl (sym (ap (λ r. values (r.0) k) h) ∙ same ∙ after k))
      | inr (inr gone) ↦ inr (inr (sym (ap (λ r. values (r.0) k) h) ∙ gone))
    ],
  )

  abbrev pub answered : redis.S × Outcome (Error E) (Unit {0}) → redis.S × Answer T E
  answered (s, o) = (s, wrote o)

  save_encoded-Meets :
      (x : T) (now : ℕ) (s : redis.S)
      → ((d : D) → entity.encode x ≡ inr d → entity.decode d ≡ inr x)
      → IsReadable entity st laws s
      → (r : E ⊎ D) → entity.encode x ≡ r
      → Meets s (saves x now) (answered (save_encoded redis entity st (entity.get_id x) now r s))
  unfolding save_encoded
  save_encoded-Meets x now s round v (inl e) h = (unencoded h refl, v)
  save_encoded-Meets x now s round v (inr d) h =
      let id = entity.get_id x in
      let cs = set (key_for st id) d st.ttl ∷ zadd st.exp_z_set_key now id ∷ [] in
      let decodes = round d h in
      let reads : (d' : D) → some d ≡ some d' → (y : T) × (entity.decode d' ≡ inr y) =
        (λ d' e. (x, ap entity.decode (cc e) ∙ decodes)) in
      let is : viewed entity (some d) ≡ some x = rw decodes refl in
      elim (exec_writes cannot_save cs id (some d) s (λ k. refl) (redis.exec cs s) refl) [
        | inl (e, w) ↦ rw e (
          saved (rw (← is) (IsWritten-view entity st laws id (some d) s _ w)),
          MayBeWritten-IsReadable entity st laws id (some d) s _ reads
              (IsWritten-may entity st laws id (some d) s _ w) v,
        )
        | inr (f, e, w) ↦ rw e (
          unsaved (rw (← is) (MayBeWritten-view entity st laws id (some d) s _ w)),
          MayBeWritten-IsReadable entity st laws id (some d) s _ reads w v,
        )
      ]

  pub save-Meets :
      (x : T) (now : ℕ) (s : redis.S)
      → ((d : D) → entity.encode x ≡ inr d → entity.decode d ≡ inr x)
      → IsReadable entity st laws s
      → Meets s (saves x now) (answered (save redis entity st x now s))
  unfolding save
  save-Meets x now s round v = elim (Bool-cases (entity.get_id x == "")) [
    | inl empty ↦
        rw (empty, save) (nameless ((string_eq.beq_iff (entity.get_id x) "").0 empty) refl, v)
    | inr named ↦ rw (named, save) (save_encoded-Meets x now s round v (entity.encode x) refl)
  ]

  pub delete-Meets :
      (id : String) (s : redis.S)
      → IsReadable entity st laws s
      → Meets s (deletes id) (answered (delete redis entity st id s))
  unfolding delete
  delete-Meets id s v = elim (Bool-cases (id == "")) [
    | inl empty ↦ rw (empty, delete) (kept ((string_eq.beq_iff id "").0 empty) refl, v)
    | inr named ↦
        let cs : List (Command D) = del (key_for st id) ∷ zrem st.exp_z_set_key (id ∷ []) ∷ [] in
        let reads : (d : D) → none ≡ some d → (y : T) × (entity.decode d ≡ inr y) =
          (λ d e. absurd (cc e)) in
        rw (named, delete)
          (elim (exec_writes cannot_delete cs id none s (λ k. refl) (redis.exec cs s) refl) [
            | inl (e, w) ↦ rw e (
              deleted (IsWritten-view entity st laws id none s _ w),
              MayBeWritten-IsReadable entity st laws id none s _ reads
                  (IsWritten-may entity st laws id none s _ w) v,
            )
            | inr (f, e, w) ↦ rw e (
              undeleted (MayBeWritten-view entity st laws id none s _ w),
              MayBeWritten-IsReadable entity st laws id none s _ reads w v,
            )
          ])
  ]

  pub get-HasFaded :
      (key : String) (s : redis.S) (r : redis.S × Reply E D)
      → redis.get key s ≡ r
      → HasFaded entity st laws s (r.0)
  get-HasFaded key s r h = rw (← h) (laws.get_keeps key s)

  -- What is missing from a reply is not there any more.
  get-gone : (key : String) (s s' : redis.S) → redis.get key s ≡ (s', nil) → values s' key ≡ none
  get-gone key s s' h = elim (Option-cases (values s' key)) [
    | inl gone ↦ gone
    | inr (d, held) ↦ elim (laws.get_live key s d (ap (λ r. values (r.0) key) h ∙ held)) [
      | inl reply ↦ absurd (cc (reply, ap (λ r. r.1) h))
      | inr (f, reply) ↦ let bad : failed f ≡ nil = sym reply ∙ ap (λ r. r.1) h in ground arith
    ]
  ]

  -- What `GET` says of a state whose values can be decoded.
  got-Meets :
      (id : String) (s : redis.S)
      → IsReadable entity st laws s
      → (r : redis.S × Reply E D) → redis.get (key_for st id) s ≡ r
      → let (s', o) = got redis entity st r in
        HasFaded entity st laws s s'
        × IsAllowed entity (view entity st laws s) (view entity st laws s') (finds id) (found o)
        × ((x : T) → o ≡ ok x → view entity st laws s id ≡ some x)
  unfolding got decoded
  got-Meets id s v (s', nil) h =
      let faded = get-HasFaded (key_for st id) s (s', nil) h in
      (
        faded,
        missing (ap (viewed entity) (get-gone (key_for st id) s s' h))
            (HasFaded-view entity st laws s s' faded),
        λ x e. ground arith,
      )
  got-Meets id s v (s', failed f) h =
      let faded = get-HasFaded (key_for st id) s (s', failed f) h in
      (faded, unread (HasFaded-view entity st laws s s' faded), λ x e. ground arith)
  got-Meets id s v (s', value d) h =
      let faded = get-HasFaded (key_for st id) s (s', value d) h in
      let held = laws.get_value (key_for st id) s d (ap (λ r. r.1) h) in
      let (x, decodes) = v id d held in
      let seen = view-some entity st laws s id d x held decodes in
      rw (decodes, decoded)
        (faded, there seen (HasFaded-view entity st laws s s' faded), λ y e. seen ∙ ap some (cc e))

  abbrev pub answered_found : redis.S × Outcome (Error E) T → redis.S × Answer T E
  answered_found (s, o) = (s, found o)

  pub get_by_id-Meets :
      (id : String) (s : redis.S)
      → IsReadable entity st laws s
      → Meets s (finds id) (answered_found (get_by_id redis entity st id s))
  unfolding get_by_id
  get_by_id-Meets id s v = elim (Bool-cases (id == "")) [
    | inl empty ↦ rw (empty, get_by_id) (unasked ((string_eq.beq_iff id "").0 empty) refl, v)
    | inr named ↦
        let (faded, allowed, _) = got-Meets id s v (redis.get (key_for st id) s) refl in
        rw (named, get_by_id) (allowed, HasFaded-IsReadable entity st laws s _ faded v)
  ]

  pub get_by_id-HasFaded :
      (id : String) (s : redis.S)
      → IsReadable entity st laws s
      → let (s', o) = get_by_id redis entity st id s in
        HasFaded entity st laws s s' × ((x : T) → o ≡ ok x → view entity st laws s id ≡ some x)
  unfolding get_by_id
  get_by_id-HasFaded id s v = elim (Bool-cases (id == "")) [
    | inl empty ↦ rw (empty, get_by_id) ((λ k. inl refl), λ x e. ground arith)
    | inr named ↦
        let (faded, _, was) = got-Meets id s v (redis.get (key_for st id) s) refl in
        rw (named, get_by_id) (faded, was)
  ]
