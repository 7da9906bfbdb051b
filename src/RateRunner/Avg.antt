-- ===== src/RateRunner/Avg.antt =====
-- pkg/raterunner/avg.go: the average of the last values, over a `uint64` sum that may wrap.
pub mod Window
use govnilo.Prelude.{
  ℕ, suc, ℤ, pos, negsuc, ◌+◌, ◌-◌, ◌%◌, ◌^◌, int_of_u64, Bool, true, false, leb, if◌then◌else◌,
  List, [], ◌∷◌, ◌++◌, length, Option, none, some, Outcome, ok, err,
}
use govnilo.Floats.{Floats}

pub record AvgCounter : Type 0 where
  pub window_size : ℕ  -- spec.WindowSize, a uint64
  pub vals : List ℕ
  pub sum : ℕ  -- uint64

abbrev pub u64 : ℕ → ℕ
u64 n = n % 2 ^ 64

pub new_avg_counter : ℕ → AvgCounter
new_avg_counter window_size = record { window_size = window_size; vals = []; sum = 0 }

-- `c.vals.Len() >= int(c.spec.WindowSize)`.
abbrev is_full : ℕ → ℤ → Bool
is_full len (pos w) = leb w len
is_full len (negsuc _) = true

-- The loop that drops values from the front; `none` is the panic at the front of an empty list.
pub evict : ℕ → List ℕ → ℕ → Option (List ℕ × ℕ)
evict w [] sum = if is_full 0 (int_of_u64 w) then none else some ([], sum)
evict w (v ∷ vals) sum =
    if is_full (suc (length vals)) (int_of_u64 w)
    then evict w vals (u64 (sum + 2 ^ 64 - v))
    else some (v ∷ vals, sum)

pub append : AvgCounter → ℕ → Option AvgCounter
unfolding evict
append c val = elim (evict c.window_size c.vals c.sum) [
  | none ↦ none
  | some (vals, sum) ↦ some (record c { vals = vals ++ val ∷ []; sum = u64 (sum + val) })
]

-- The error is "list of values is empty".
pub data Error : Type 0 where
  no_values : Error

module _ (fl : Floats) where
  open fl use {F, of_ℕ, div}

  avg_of : List ℕ → ℕ → Outcome Error F
  avg_of [] sum = err no_values
  avg_of (v ∷ vals) sum = ok (div (of_ℕ sum) (of_ℕ (length (v ∷ vals))))

  get_avg : AvgCounter → Outcome Error F
  unfolding avg_of
  get_avg c = avg_of c.vals c.sum

pub append_all : AvgCounter → List ℕ → Option AvgCounter
append_all c [] = some c
append_all c (v ∷ vs) = elim (append c v) [ none ↦ none | some c' ↦ append_all c' vs ]
