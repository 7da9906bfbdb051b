-- ===== src/Examples/Stats.antt =====
-- A window of two values, and observations 5 apart in a window of 6.
use govnilo.Prelude.{ℕ, ◌≡◌, refl, inl, List, [], ◌∷◌, ◌++◌, none, arith}
use govnilo.RateRunner.Avg.{AvgCounter, new_avg_counter, append_all}
use govnilo.RateRunner.Avg
use govnilo.RateRunner.Avg.Window.{append_panics}
use govnilo.RateRunner.Percentile.{Observation, Percentile, get_stat}
use govnilo.RateRunner.Percentile
use govnilo.RateRunner.Percentile.Window.{fresh_only}
use govnilo.RateRunner.Percentile.Stat.{StatOf, get_stat-append}
use govnilo.Examples.Setting.{numbers}

abbrev no_window : AvgCounter
no_window = record { window_size = 0; vals = []; sum = 0 }

append_panics_example : Avg.append no_window 5 ≡ none
append_panics_example = append_panics no_window 5 (omega arith) (inl refl)

abbrev at : ℕ → ℕ → Observation
at time val = record { val = val; timestamp = time }

abbrev seen : Percentile ℕ
seen = record { observations = at 1 30 ∷ at 6 20 ∷ at 11 10 ∷ []; window = 6; p = 1 }

abbrev smallest : ℕ → List ℕ → ℕ
smallest p [] = 0
smallest p (v ∷ vs) = v

seen_window : fresh_only 12 6 seen.observations ≡ (at 6 20 ∷ []) ++ at 11 10 ∷ []
unfolding fresh_only
seen_window = refl

get_stat-append_example :
    (get_stat numbers smallest (Percentile.append numbers seen 12 40) 12).1
    ≡ StatOf numbers smallest 1 (fresh_only 12 6 seen.observations)
get_stat-append_example = get_stat-append numbers smallest seen 11 12 40 (omega arith) (omega arith)
