-- ===== src/RateRunner/Percentile/Window.antt =====
-- The observations that are kept are those of the window.
use govnilo.Prelude.{
  ℕ, ◌-◌, ◌≤◌, ◌≡◌, refl, sym, ap, ◌∙◌, inl, inr, true, leb, if◌then◌else◌, List, [], ◌∷◌, ◌++◌,
  arith, Bool-cases, All, All-append,
}
use govnilo.Floats.{Floats}
use govnilo.RateRunner.Percentile.{Observation, Percentile, clean_outdated, append, get_stat}

-- The times rise along the list, and none is after `now`.
abbrev pub Ordered : ℕ → List Observation → Type 0
Ordered now [] = Unit
Ordered now (o ∷ os) =
    (o.timestamp ≤ now) × All (λ o'. o.timestamp ≤ o'.timestamp) os × Ordered now os

-- The observations of the last `window` nanoseconds, by a test of each.
unfoldable pub fresh_only : ℕ → ℕ → List Observation → List Observation
fresh_only now window [] = []
fresh_only now window (o ∷ os) =
    if leb (now - o.timestamp) window
    then o ∷ fresh_only now window os
    else fresh_only now window os

fresh_only-All :
    (now window t : ℕ) (os : List Observation)
    → now - t ≤ window
    → All (λ o. t ≤ o.timestamp) os
    → fresh_only now window os ≡ os
unfolding fresh_only
fresh_only-All now window t [] h a = refl
fresh_only-All now window t (o ∷ os) h a =
    let young : leb (now - o.timestamp) window ≡ true = ground arith in
    rw (young, fresh_only-All now window t os h a.1)

pub clean_outdated-fresh_only :
    (now window : ℕ) (os : List Observation)
    → Ordered now os
    → clean_outdated now window os ≡ fresh_only now window os
unfolding clean_outdated fresh_only
clean_outdated-fresh_only now window [] h = refl
clean_outdated-fresh_only now window (o ∷ os) h =
    elim (Bool-cases (leb (now - o.timestamp) window)) [
      | inl young ↦
          rw young (ap (◌∷◌ o) (sym (fresh_only-All now window o.timestamp os (ground arith) h.1)))
      | inr old ↦ rw old (clean_outdated-fresh_only now window os h.2)
    ]

pub Ordered-later :
    (now later : ℕ) (os : List Observation) → now ≤ later → Ordered now os → Ordered later os
Ordered-later now later [] k h = tt
Ordered-later now later (o ∷ os) k h = (omega arith, h.1, Ordered-later now later os k h.2)

All-le-now : (now : ℕ) (os : List Observation) → Ordered now os → All (λ o. o.timestamp ≤ now) os
All-le-now now [] h = tt
All-le-now now (o ∷ os) h = (h.0, All-le-now now os h.2)

Ordered-snoc :
    (now v : ℕ) (os : List Observation)
    → Ordered now os
    → Ordered now (os ++ record { val = v; timestamp = now } ∷ [])
Ordered-snoc now v [] h = omega arith
Ordered-snoc now v (o ∷ os) h = (h.0, All-append _ os _ h.1 (h.0, tt), Ordered-snoc now v os h.2)

Ordered-clean_outdated :
    (now window : ℕ) (os : List Observation)
    → Ordered now os
    → Ordered now (clean_outdated now window os)
unfolding clean_outdated
Ordered-clean_outdated now window [] h = tt
Ordered-clean_outdated now window (o ∷ os) h = elim (Bool-cases (leb (now - o.timestamp) window)) [
  | inl young ↦ rw young h
  | inr old ↦ rw old (Ordered-clean_outdated now window os h.2)
]

pub fresh_only-append :
    (now window : ℕ) (os ps : List Observation)
    → fresh_only now window (os ++ ps) ≡ fresh_only now window os ++ fresh_only now window ps
unfolding fresh_only
fresh_only-append now window [] ps = refl
fresh_only-append now window (o ∷ os) ps = ground (arith, fresh_only-append now window os ps)

pub fresh_only_idem :
    (now window : ℕ) (os : List Observation)
    → fresh_only now window (fresh_only now window os) ≡ fresh_only now window os
unfolding fresh_only
fresh_only_idem now window [] = refl
fresh_only_idem now window (o ∷ os) = ground (arith, fresh_only_idem now window os)

pub fresh_only-now :
    (now window v : ℕ)
    → fresh_only now window (record { val = v; timestamp = now } ∷ [])
      ≡ record { val = v; timestamp = now } ∷ []
unfolding fresh_only
fresh_only-now now window v = ground arith

module _ (fl : Floats) (s : Percentile fl.F) (last now : ℕ) (ordered : Ordered last s.observations)
    (passed : last ≤ now) where
  -- `Append` keeps of the earlier observations exactly those of the window, in order, and adds the
  -- new one behind them; the times still rise.
  pub append_window :
      (v : ℕ)
      → let s' = append fl s now v in
        (s'.observations
          ≡ fresh_only now s.window s.observations ++ record { val = v; timestamp = now } ∷ [])
        × Ordered now s'.observations
  unfolding append
  append_window v =
      let o : Observation = record { val = v; timestamp = now } in
      let risen =
        Ordered-snoc now v s.observations (Ordered-later last now s.observations passed ordered) in
      (
        clean_outdated-fresh_only now s.window (s.observations ++ o ∷ []) risen
            ∙ fresh_only-append now s.window s.observations (o ∷ [])
            ∙ ap (◌++◌ (fresh_only now s.window s.observations)) (fresh_only-now now s.window v),
        Ordered-clean_outdated now s.window (s.observations ++ o ∷ []) risen,
      )

  -- `GetStat` keeps exactly the observations of the window.
  pub get_stat_window :
      (quantile : fl.F → List fl.F → fl.F)
      → (get_stat fl quantile s now).0.observations ≡ fresh_only now s.window s.observations
  unfolding get_stat
  get_stat_window quantile =
      clean_outdated-fresh_only now s.window s.observations
        (Ordered-later last now s.observations passed ordered)
