-- ===== src/RedisBase/Saved.antt =====
-- Where the entities come from that a storage answers with.
use govnilo.Prelude.{
  ◌==◌, ◌≡◌, sym, ap, ◌∙◌, string_eq, Bool-cases, if◌then◌else◌, List, [], ◌∷◌, Option, none, some,
  String, ◌⊎◌, inl, inr, ok, All, arith,
}
use govnilo.RedisBase.{Redis, Entity, Storage, key_for}
use govnilo.RedisBase.Laws.{Documented}
use govnilo.RedisBase.Calls.{
  Call, saves, deletes, finds, draws, newest, cleans, Answer, wrote, found, run_calls, Entities,
  put, IsLess, IsEither, IsAllowed, nameless, unencoded, saved, unsaved, kept, deleted, undeleted,
  unasked, there, missing, unread, drawn, latest, cleaned, AreAllowed, done, next,
}
use govnilo.RedisBase.Views.{viewed}
use govnilo.RedisBase.Whole.{run_calls-AreAllowed}

module _ {T : Type 0} where
  abbrev pub Saves : T → Call T → Type 0
  Saves x (saves y now) = y ≡ x
  Saves x (deletes id) = ⊥
  Saves x (finds id) = ⊥
  Saves x draws = ⊥
  Saves x newest = ⊥
  Saves x (cleans now max) = ⊥

  abbrev pub SomeSaves : T → List (Call T) → Type 0
  SomeSaves x [] = ⊥
  SomeSaves x (c ∷ cs) = Saves x c ⊎ SomeSaves x cs

  -- What holds of the entity of an answer, if there is one.
  abbrev pub OfFound : {E : Type 0} → (T → Type 0) → Answer T E → Type 0
  OfFound P (wrote o) = Unit {0}
  OfFound P (found o) = (x : T) → o ≡ ok x → P x

  put-some :
      (m : Entities T) (id j : String) (o : Option T) (x : T)
      → put id o m j ≡ some x
      → (o ≡ some x) ⊎ (m j ≡ some x)
  put-some m id j o x h = elim (Bool-cases (id == j)) [
    | inl hit ↦ inl (sym (ap (λ b. if b then o else m j) hit) ∙ h)
    | inr miss ↦ inr (sym (ap (λ b. if b then o else m j) miss) ∙ h)
  ]

  less_some : (m n : Entities T) (j : String) (x : T) → IsLess m n → m j ≡ some x → n j ≡ some x
  less_some m n j x less h = elim (less j) [
    | inl same ↦ sym same ∙ h
    | inr gone ↦ absurd (cc (gone, h))
  ]

  either_some :
      (m n o : Entities T) (j : String) (x : T)
      → IsEither m n o
      → m j ≡ some x
      → (n j ≡ some x) ⊎ (o j ≡ some x)
  either_some m n o j x either h = elim (either j) [
    | inl same ↦ inl (sym same ∙ h)
    | inr (inl same) ↦ inr (sym same ∙ h)
    | inr (inr gone) ↦ absurd (cc (gone, h))
  ]

module _ {T D E : Type 0} (entity : Entity T D E) where
  -- What is in the map after a call was there before or is what the call saves.
  allowed_origin :
      {m m' : Entities T} {c : Call T} {a : Answer T E}
      → IsAllowed entity m m' c a
      → (j : String) (x : T) → m' j ≡ some x
      → (m j ≡ some x) ⊎ Saves x c
  allowed_origin (nameless h same) j x e = inl (sym (ap (λ n. n j) same) ∙ e)
  allowed_origin (unencoded h same) j x e = inl (sym (ap (λ n. n j) same) ∙ e)
  allowed_origin (kept h same) j x e = inl (sym (ap (λ n. n j) same) ∙ e)
  allowed_origin (unasked h same) j x e = inl (sym (ap (λ n. n j) same) ∙ e)
  allowed_origin {m} {m'} (saved {x = y} less) j x e =
      elim (put-some m _ j (some y) x (less_some m' _ j x less e)) [
        | inl it ↦ inr (cc it)
        | inr before ↦ inl before
      ]
  allowed_origin {m} {m'} (unsaved {x = y} either) j x e = elim (either_some m' m _ j x either e) [
    | inl before ↦ inl before
    | inr after ↦ elim (put-some m _ j (some y) x after) [
      | inl it ↦ inr (cc it)
      | inr before ↦ inl before
    ]
  ]
  allowed_origin {m} {m'} (deleted {id} less) j x e =
      elim (put-some m id j none x (less_some m' _ j x less e)) [
        | inl it ↦ absurd (cc it)
        | inr before ↦ inl before
      ]
  allowed_origin {m} {m'} (undeleted {id} either) j x e = elim (either_some m' m _ j x either e) [
    | inl before ↦ inl before
    | inr after ↦ elim (put-some m id j none x after) [
      | inl it ↦ absurd (cc it)
      | inr before ↦ inl before
    ]
  ]
  allowed_origin {m} {m'} (there h less) j x e = inl (less_some m' m j x less e)
  allowed_origin {m} {m'} (missing h less) j x e = inl (less_some m' m j x less e)
  allowed_origin {m} {m'} (unread less) j x e = inl (less_some m' m j x less e)
  allowed_origin {m} {m'} (drawn h less) j x e = inl (less_some m' m j x less e)
  allowed_origin {m} {m'} (latest h less) j x e = inl (less_some m' m j x less e)
  allowed_origin {m} {m'} (cleaned less) j x e = inl (less_some m' m j x less e)

  -- An entity that is found was in the map.
  allowed_found :
      {m m' : Entities T} {c : Call T} {a : Answer T E}
      → IsAllowed entity m m' c a
      → OfFound (λ x. (id : String) × (m id ≡ some x)) a
  allowed_found (nameless h same) = tt
  allowed_found (unencoded h same) = tt
  allowed_found (kept h same) = tt
  allowed_found (unasked h same) = λ x e. ground arith
  allowed_found (saved less) = tt
  allowed_found (unsaved either) = tt
  allowed_found (deleted less) = tt
  allowed_found (undeleted either) = tt
  allowed_found (there {id} h less) = λ x e. (id, h ∙ ap some (cc e))
  allowed_found (missing h less) = λ x e. ground arith
  allowed_found (unread less) = λ x e. ground arith
  allowed_found (drawn h less) = h
  allowed_found (latest h less) = h
  allowed_found (cleaned less) = tt

  OfFound-map :
      {P Q : T → Type 0} (a : Answer T E) → ((x : T) → P x → Q x) → OfFound P a → OfFound Q a
  OfFound-map (wrote o) f h = tt
  OfFound-map (found o) f h = λ x e. f x (h x e)

  AreAllowed-found :
      (Q : T → Type 0) {end m : Entities T} {cs : List (Call T)} {answers : List (Answer T E)}
      → AreAllowed entity end m cs answers
      → ((j : String) (x : T) → m j ≡ some x → Q x)
      → ((x : T) → SomeSaves x cs → Q x)
      → All (OfFound Q) answers
  AreAllowed-found Q done had gets = tt
  AreAllowed-found Q (next {a} m m' allowed rest) had gets = (
    OfFound-map a (λ x (j, h). had j x h) (allowed_found allowed),
    AreAllowed-found Q rest
        (λ j x h. elim (allowed_origin allowed j x h) [
          | inl before ↦ had j x before
          | inr it ↦ gets x (inl it)
        ])
        (λ x later. gets x (inr later)),
  )

module _ {T D E : Type 0} {redis : Redis D E} (entity : Entity T D E) (st : Storage)
    (laws : Documented redis) where
  open laws use {values}

  -- Where Redis holds nothing at the keys of the storage to begin with, and `Decode` takes what
  -- `Encode` makes, each entity that a call of the list answers with is one that a `Save` of the list
  -- was called with, whatever fails or expires in between.
  pub run_calls_saved :
      ((x : T) (d : D) → entity.encode x ≡ inr d → entity.decode d ≡ inr x)
      → (cs : List (Call T)) (s : redis.S) → ((id : String) → values s (key_for st id) ≡ none)
      → All (OfFound (λ x. SomeSaves x cs)) (run_calls redis entity st cs s).1
  run_calls_saved round cs s nothing =
      AreAllowed-found entity (λ x. SomeSaves x cs)
        (run_calls-AreAllowed entity st laws round cs s (λ id d h. absurd (cc (nothing id, h))))
        (λ j x h. absurd (cc (ap (viewed entity) (nothing j), h))) (λ x h. h)
