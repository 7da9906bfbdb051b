-- ===== src/TaskRunner/Supervise.antt =====
-- The goroutine of one instance.
use govnilo.Prelude.{ℕ, zero, suc, ◌+◌, ◌<◌, ◌≡◌, refl, Bool, true, false, none, some, arith}
use govnilo.TaskRunner.{supervise}

module _ {E : Type 0} (runs : ℕ → E) (stopped : ℕ → Bool) (m : ℕ)
    (up : (i : ℕ) → i < m → stopped i ≡ false) (down : stopped m ≡ true) where
  supervise_from :
      (fuel k d : ℕ) → k + d ≡ m → d < fuel → supervise runs stopped fuel k ≡ some (m, runs m)
  unfolding supervise
  supervise_from zero k d e h = absurd (omega arith)
  supervise_from (suc fuel) k zero e h =
      let same : k ≡ m = omega arith in rw same (rw (down, supervise))
  supervise_from (suc fuel) k (suc d) e h =
      rw (up k (omega arith), supervise) (supervise_from fuel (suc k) d (omega arith) (omega arith))

  -- An instance runs its task again and again until a run ends with the flag up: if that is first
  -- so in round `m`, it sends the result of that round and ends.
  supervise_sends : (fuel : ℕ) → m < fuel → supervise runs stopped fuel 0 ≡ some (m, runs m)
  supervise_sends fuel h = supervise_from fuel 0 m (omega arith) h

-- An instance that is never told to stop is never done, however often its task ends.
supervise_unstopped :
    {E : Type 0} (runs : ℕ → E) (stopped : ℕ → Bool) (fuel k : ℕ)
    → ((i : ℕ) → stopped i ≡ false)
    → supervise runs stopped fuel k ≡ none
unfolding supervise
supervise_unstopped runs stopped zero k up = refl
supervise_unstopped runs stopped (suc fuel) k up =
    rw (up k, supervise) (supervise_unstopped runs stopped fuel (suc k) up)
