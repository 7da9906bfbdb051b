-- ===== src/RateRunner/Percentile/Stat.antt =====
-- Which values the statistic is about.
use govnilo.Prelude.{ℕ, ◌≤◌, ◌≡◌, refl, ap, ◌∙◌, List, [], ◌∷◌, ◌++◌, map, Outcome, ok, err, arith}
use govnilo.Floats.{Floats}
use govnilo.RateRunner.Percentile.{
  Observation, Percentile, Error, empty_set, clean_outdated, collect, sort, append, get_stat,
  quantile_of,
}
use govnilo.RateRunner.Percentile.Window.{
  Ordered, fresh_only, append_window, clean_outdated-fresh_only, Ordered-later, fresh_only_idem,
  fresh_only-append, fresh_only-now,
}

collect-snoc :
    (os : List Observation) (o : Observation)
    → collect (os ++ o ∷ []) ≡ map (λ (x : Observation). x.val) os
unfolding collect
collect-snoc [] o = refl
collect-snoc (x ∷ []) o = refl
collect-snoc (x ∷ (y ∷ os)) o = ap (◌∷◌ x.val) (collect-snoc (y ∷ os) o)

module _ (fl : Floats) (quantile : fl.F → List fl.F → fl.F) where
  -- What the statistic of some values is: an error for none, else the quantile of them, sorted.
  abbrev pub StatOf : fl.F → List Observation → Outcome Error fl.F
  StatOf p [] = err empty_set
  StatOf p (o ∷ os) =
      ok (quantile p (map fl.of_ℕ (sort (map (λ (x : Observation). x.val) (o ∷ os)))))

  quantile_of-StatOf :
      (p : fl.F) (os : List Observation)
      → quantile_of fl quantile p (map (λ (x : Observation). x.val) os) ≡ StatOf p os
  unfolding quantile_of
  quantile_of-StatOf p [] = refl
  quantile_of-StatOf p (o ∷ os) = refl

  -- The statistic is that of all observations of the window but the newest one.
  pub get_stat_but_newest :
      (s : Percentile fl.F) (last now : ℕ) (os : List Observation) (o : Observation)
      → Ordered last s.observations
      → last ≤ now
      → fresh_only now s.window s.observations ≡ os ++ o ∷ []
      → (get_stat fl quantile s now).1 ≡ StatOf s.p os
  unfolding get_stat
  get_stat_but_newest s last now os o ordered passed window =
      let kept : clean_outdated now s.window s.observations ≡ os ++ o ∷ [] =
        clean_outdated-fresh_only now s.window s.observations
          (Ordered-later last now s.observations passed ordered)
        ∙ window in
      rw (kept, collect-snoc os o) (quantile_of-StatOf s.p os)

  -- So the value of an append does not count until the next one: right after it, the statistic is
  -- that of the earlier observations of the window, an error if there are none.
  pub get_stat-append :
      (s : Percentile fl.F) (last now v : ℕ)
      → Ordered last s.observations
      → last ≤ now
      → (get_stat fl quantile (append fl s now v) now).1
        ≡ StatOf s.p (fresh_only now s.window s.observations)
  unfolding append
  get_stat-append s last now v ordered passed =
      let (kept, risen) = append_window fl s last now ordered passed v in
      get_stat_but_newest (append fl s now v) now now (fresh_only now s.window s.observations)
        (record { val = v; timestamp = now }) risen (omega arith)
        (ap (fresh_only now s.window) kept
          ∙ fresh_only-append now s.window (fresh_only now s.window s.observations)
              (record { val = v; timestamp = now } ∷ [])
          ∙ rw (fresh_only_idem now s.window s.observations)
              (ap (◌++◌ (fresh_only now s.window s.observations)) (fresh_only-now now s.window v)))
