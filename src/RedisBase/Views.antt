-- ===== src/RedisBase/Views.antt =====
-- What of the storage a client can see: the entities that the keys of the storage hold.
use text.Mathlib.TextLemmas.{append_cancel_left}
use govnilo.Prelude.{
  ◌==◌, ◌≡◌, refl, sym, ap, ◌∙◌, string_eq, Bool-cases, if◌then◌else◌, Option, none, some, String,
  ◌⊎◌, inl, inr, beq_self, beq_ne, ne_of_beq,
}
use govnilo.RedisBase.{Redis, Entity, Storage, key_for}
use govnilo.RedisBase.Laws.{Documented}
use govnilo.RedisBase.Calls.{Entities, put, IsLess, IsEither}

key_beq : (st : Storage) (a b : String) → (key_for st a == key_for st b) ≡ (a == b)
key_beq st a b = elim (Bool-cases (a == b)) [
  | inl same ↦
      ap (λ c. key_for st a == key_for st c) (sym ((string_eq.beq_iff a b).0 same))
      ∙ beq_self (key_for st a)
      ∙ sym same
  | inr apart ↦
      beq_ne (key_for st a) (key_for st b)
        (λ e. ne_of_beq a b apart (append_cancel_left st.key_prefix a b e))
      ∙ sym apart
]

pub IsLess-refl : {T : Type 0} (m : Entities T) → IsLess m m
IsLess-refl m id = inl refl

module _ {T D E : Type 0} (entity : Entity T D E) where
  abbrev pub decoded_or : E ⊎ T → Option T
  decoded_or (inl e) = none
  decoded_or (inr x) = some x

  abbrev pub viewed : Option D → Option T
  viewed none = none
  viewed (some d) = decoded_or (entity.decode d)

module _ {T D E : Type 0} {redis : Redis D E} (entity : Entity T D E) (st : Storage)
    (laws : Documented redis) where
  open laws use {values}

  abbrev pub view : redis.S → Entities T
  view s id = viewed entity (values s (key_for st id))

  -- No key holds what `Decode` fails on.
  abbrev pub IsReadable : redis.S → Type 0
  IsReadable s =
      (id : String) (d : D)
      → values s (key_for st id) ≡ some d
      → (x : T) × (entity.decode d ≡ inr x)

  -- Values may have expired, but nothing else changed.
  abbrev pub HasFaded : redis.S → redis.S → Type 0
  HasFaded s s' = (k : String) → (values s' k ≡ values s k) ⊎ (values s' k ≡ none)

  pub HasFaded-trans : (a b c : redis.S) → HasFaded a b → HasFaded b c → HasFaded a c
  HasFaded-trans a b c ab bc k = elim (bc k) [
    | inr gone ↦ inr gone
    | inl same ↦ elim (ab k) [ inl h ↦ inl (same ∙ h) | inr h ↦ inr (same ∙ h) ]
  ]

  pub HasFaded-view : (s s' : redis.S) → HasFaded s s' → IsLess (view s') (view s)
  HasFaded-view s s' h id = elim (h (key_for st id)) [
    | inl same ↦ inl (ap (viewed entity) same)
    | inr gone ↦ inr (ap (viewed entity) gone)
  ]

  pub HasFaded-IsReadable : (s s' : redis.S) → HasFaded s s' → IsReadable s → IsReadable s'
  HasFaded-IsReadable s s' h v id d there = elim (h (key_for st id)) [
    | inl same ↦ v id d (sym same ∙ there)
    | inr gone ↦ absurd (cc (gone, there))
  ]

  pub view-some :
      (s : redis.S) (id : String) (d : D) (x : T)
      → values s (key_for st id) ≡ some d
      → entity.decode d ≡ inr x
      → view s id ≡ some x
  view-some s id d x there decodes = ap (viewed entity) there ∙ ap (decoded_or entity) decodes

  -- What a write to the key of one id makes of the view.
  written_view :
      (id j : String) (o : Option D) (s : redis.S)
      → viewed entity (if key_for st id == key_for st j then o else values s (key_for st j))
        ≡ put id (viewed entity o) (view s) j
  written_view id j o s =
      rw (key_beq st id j)
        (elim (Bool-cases (id == j)) [ inl same ↦ rw same refl | inr apart ↦ rw apart refl ])

  module _ (id : String) (o : Option D) (s s' : redis.S) where
    -- A write that was done.
    abbrev pub IsWritten : Type 0
    IsWritten =
        (k : String)
        → (values s' k ≡ (if key_for st id == k then o else values s k)) ⊎ (values s' k ≡ none)

    -- A write that was perhaps done.
    abbrev pub MayBeWritten : Type 0
    MayBeWritten =
        (k : String)
        → (values s' k ≡ values s k)
          ⊎ (values s' k ≡ (if key_for st id == k then o else values s k))
          ⊎ (values s' k ≡ none)

    pub IsWritten-view : IsWritten → IsLess (view s') (put id (viewed entity o) (view s))
    IsWritten-view h j = elim (h (key_for st j)) [
      | inl same ↦ inl (ap (viewed entity) same ∙ written_view id j o s)
      | inr gone ↦ inr (ap (viewed entity) gone)
    ]

    pub MayBeWritten-view :
        MayBeWritten → IsEither (view s') (view s) (put id (viewed entity o) (view s))
    MayBeWritten-view h j = elim (h (key_for st j)) [
      | inl kept ↦ inl (ap (viewed entity) kept)
      | inr (inl same) ↦ inr (inl (ap (viewed entity) same ∙ written_view id j o s))
      | inr (inr gone) ↦ inr (inr (ap (viewed entity) gone))
    ]

    pub IsWritten-may : IsWritten → MayBeWritten
    IsWritten-may h k = inr (h k)

    pub MayBeWritten-IsReadable :
        ((d : D) → o ≡ some d → (x : T) × (entity.decode d ≡ inr x))
        → MayBeWritten
        → IsReadable s
        → IsReadable s'
    MayBeWritten-IsReadable fine h v j d there = elim (h (key_for st j)) [
      | inl kept ↦ v j d (sym kept ∙ there)
      | inr (inr gone) ↦ absurd (cc (gone, there))
      | inr (inl same) ↦ elim (Bool-cases (key_for st id == key_for st j)) [
        | inl hit ↦
            fine d (sym (ap (λ b. if b then o else values s (key_for st j)) hit) ∙ sym same ∙ there)
        | inr miss ↦
            v j d (sym (ap (λ b. if b then o else values s (key_for st j)) miss) ∙ sym same ∙ there)
      ]
    ]
