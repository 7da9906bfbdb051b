-- ===== src/Prelude/Maps.antt =====
-- Go's maps as association lists. The order of the list stands for the order in which a `range`
-- over the map visits it, which Go leaves open: what is proved for every list holds for every order.
use mathlib.Core.Path.{◌≡◌, refl, sym, ap, ◌∙◌}
use mathlib.Core.Logic.{◌≢◌, ◌↔◌, ◌⊎◌, inl, inr}
use mathlib.Core.Option.{Option, none, some}
use mathlib.Core.List.{List, [], ◌∷◌}
use native.Mathlib.Omega.{arith}
use govnilo.Prelude.Tests.{Eq, ◌==◌, if◌then◌else◌, Bool-cases, beq_self, ne_of_beq}

module _ {ℓ κ} {K : Type ℓ} {V : Type κ} ⦃e : Eq K⦄ where
  -- `m[k]` in its two-value form.
  unfoldable pub lookup : K → List (K × V) → Option V
  lookup k [] = none
  lookup k ((j, v) ∷ m) = if j == k then some v else lookup k m

  -- `m[k] = v`.
  unfoldable pub insert : K → V → List (K × V) → List (K × V)
  insert k v [] = (k, v) ∷ []
  insert k v ((j, w) ∷ m) = if j == k then (k, v) ∷ m else (j, w) ∷ insert k v m

  -- `delete(m, k)`.
  unfoldable pub erase : K → List (K × V) → List (K × V)
  erase k [] = []
  erase k ((j, w) ∷ m) = if j == k then erase k m else (j, w) ∷ erase k m

  pub lookup-insert :
      (at key : K) (new : V) (rest : List (K × V))
      → lookup key (insert at new rest) ≡ (if at == key then some new else lookup key rest)
  unfolding lookup insert
  lookup-insert at key new [] = refl
  lookup-insert at key new ((i, w) ∷ rest) =
      ground
        (arith, e.beq_iff i at, e.beq_iff at key, e.beq_iff i key, lookup-insert at key new rest)

  pub lookup-insert_self : (k : K) (v : V) (m : List (K × V)) → lookup k (insert k v m) ≡ some v
  lookup-insert_self k v m = ground (arith, lookup-insert k k v m, beq_self k)

  pub lookup-insert_ne :
      (k j : K) (v : V) (m : List (K × V)) → k ≢ j → lookup j (insert k v m) ≡ lookup j m
  lookup-insert_ne k j v m h = ground (arith, lookup-insert k j v m, e.beq_iff k j)

  pub lookup-erase :
      (k j : K) (m : List (K × V)) → lookup j (erase k m) ≡ (if k == j then none else lookup j m)
  unfolding lookup erase
  lookup-erase k j [] = ground arith
  lookup-erase k j ((i, w) ∷ m) =
      ground (arith, e.beq_iff k j, e.beq_iff i k, e.beq_iff i j, lookup-erase k j m)

  -- A value that is found after a write is the new one, or was there before at another key.
  pub lookup-insert_cases :
      (k j : K) (v w : V) (m : List (K × V))
      → lookup j (insert k v m) ≡ some w
      → ((k ≡ j) × (v ≡ w)) ⊎ ((k ≢ j) × (lookup j m ≡ some w))
  lookup-insert_cases k j v w m h = elim (Bool-cases (k == j)) [
    | inl same ↦
        let now : some v ≡ some w =
          sym (lookup-insert k j v m ∙ ap (λ b. if b then some v else lookup j m) same) ∙ h in
        inl ((e.beq_iff k j).0 same, cc now)
    | inr apart ↦
        let was : lookup j m ≡ some w =
          sym (lookup-insert k j v m ∙ ap (λ b. if b then some v else lookup j m) apart) ∙ h in
        inr (ne_of_beq k j apart, was)
  ]

  -- A write to a key that is there already adds and removes none.
  pub lookup-insert_known :
      (k j : K) (v w : V) (m : List (K × V))
      → lookup k m ≡ some w
      → (lookup j (insert k v m) ≡ none) ↔ (lookup j m ≡ none)
  lookup-insert_known k j v w m there = elim (Bool-cases (k == j)) [
    | inl same ↦
        let now : lookup j (insert k v m) ≡ some v =
          lookup-insert k j v m ∙ ap (λ b. if b then some v else lookup j m) same in
        let was : lookup j m ≡ some w =
          ap (λ x. lookup x m) (sym ((e.beq_iff k j).0 same)) ∙ there in
        ((λ h. absurd (cc (h, now))), λ h. absurd (cc (h, was)))
    | inr apart ↦
        let kept : lookup j (insert k v m) ≡ lookup j m =
          lookup-insert k j v m ∙ ap (λ b. if b then some v else lookup j m) apart in
        ((λ h. sym kept ∙ h), λ h. kept ∙ h)
  ]

  -- What holds of every value of a map and of a new value holds after the write.
  pub forall-insert {μ} :
      (P : V → Type μ) (k : K) (v : V) (m : List (K × V))
      → P v
      → ((j : K) (w : V) → lookup j m ≡ some w → P w)
      → (j : K) (w : V) → lookup j (insert k v m) ≡ some w
      → P w
  forall-insert P k v m h old j w e = elim (Bool-cases (k == j)) [
    | inl same ↦
        let found : some v ≡ some w =
          sym (lookup-insert k j v m ∙ ap (λ b. if b then some v else lookup j m) same) ∙ e in
        let it : v ≡ w = (cc found) in rw (← it) h
    | inr other ↦
        old j w (sym (lookup-insert k j v m ∙ ap (λ b. if b then some v else lookup j m) other) ∙ e)
  ]

  pub lookup-nil : (k : K) → lookup k [] ≡ none
  unfolding lookup
  lookup-nil k = refl
