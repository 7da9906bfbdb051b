-- ===== src/RateRunner/Percentile.antt =====
-- pkg/raterunner/p.go: a quantile of the values observed in a window of time. A time is a number of
-- nanoseconds and an argument of each call; a lock makes each method atomic, but for the sort, which
-- works on a copy.
pub mod Window
pub mod Stat
pub mod Sort
use govnilo.Prelude.{
  ℕ, ◌-◌, Bool, true, false, leb, not, ◌||◌, if◌then◌else◌, List, [], ◌∷◌, ◌++◌, map, Outcome, ok,
  err, panic,
}
use govnilo.Floats.{Floats}

pub record Observation : Type 0 where
  pub val : ℕ
  pub timestamp : ℕ

pub record Percentile (F : Type 0) : Type 0 where
  pub observations : List Observation
  pub window : ℕ
  pub p : F

-- The error is "cannot calculate percentile for empty set of values".
pub data Error : Type 0 where
  empty_set : Error

-- The loop of `cleanOutdatedLocked`. `now.Sub(t)` of a later `t` is negative and so within the
-- window, as is the 0 of `-`.
pub clean_outdated : ℕ → ℕ → List Observation → List Observation
clean_outdated now window [] = []
clean_outdated now window (o ∷ os) =
    if leb (now - o.timestamp) window then o ∷ os else clean_outdated now window os

-- The loop from `Front()` while the element is not `Back()`.
pub collect : List Observation → List ℕ
collect [] = []
collect (o ∷ []) = []
collect (o ∷ (o' ∷ os)) = o.val ∷ collect (o' ∷ os)

-- `slices.Sort`.
pub insert_sorted : ℕ → List ℕ → List ℕ
insert_sorted v [] = v ∷ []
insert_sorted v (w ∷ ws) = if leb v w then v ∷ (w ∷ ws) else w ∷ insert_sorted v ws

pub sort : List ℕ → List ℕ
unfolding insert_sorted
sort [] = []
sort (v ∷ vs) = insert_sorted v (sort vs)

module _ (fl : Floats) where
  open fl use {F, of_ℕ, lt}

  pub new_percentile : F → ℕ → Outcome Error (Percentile F)
  new_percentile p window =
      if lt p (of_ℕ 0) || lt (of_ℕ 1) p
      then panic
      else ok (record { observations = []; window = window; p = p })

  pub append : Percentile F → ℕ → ℕ → Percentile F
  unfolding clean_outdated
  append s now val = record s {
    observations =
        clean_outdated now s.window (s.observations ++ record { val = val; timestamp = now } ∷ []);
  }

  -- `stat.Quantile(p, stat.Empirical, …)` of gonum is the parameter `quantile`.
  module _ (quantile : F → List F → F) where
    pub quantile_of : F → List ℕ → Outcome Error F
    unfolding sort
    quantile_of p [] = err empty_set
    quantile_of p (v ∷ vs) = ok (quantile p (map of_ℕ (sort (v ∷ vs))))

    unfoldable pub get_stat : Percentile F → ℕ → Percentile F × Outcome Error F
    unfolding quantile_of clean_outdated collect
    get_stat s now =
        let kept = clean_outdated now s.window s.observations in
        (record s { observations = kept }, quantile_of s.p (collect kept))
