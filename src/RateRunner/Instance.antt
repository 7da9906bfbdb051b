-- ===== src/RateRunner/Instance.antt =====
-- One instance of a task of the rate runner: the goroutine of internal/taskrunner/task.go around the
-- closure that `prepareTask` of pkg/raterunner/raterunner.go makes. It goes from one event to the
-- next: the random wait of the closure ends, or a round of its loop does.
use govnilo.Prelude.{
  ℕ, zero, suc, ◌+◌, ◌≤◌, ◌<◌, ◌≡◌, refl, ap, ◌∙◌, Bool, true, false, Option, none, some, ◌⊎◌, inl,
  inr, sym, arith,
}
use govnilo.Floats.{Floats}
use govnilo.RateLimit.{RateLibrary}
use govnilo.RateRunner.{TaskSpec, Round, not_acquired, run_round}

-- What the outside does in event `i`: what `waitFor` returns, if it is a wait, what the round comes
-- to, if it is one, and what the flag `stopped` reads if the closure returns after it.
pub record World (E : Type 0) : Type 0 where
  pub waited : ℕ → Option E
  pub rounds : ℕ → Round E
  pub stopped : ℕ → Bool

-- Where the goroutine is: in the wait, in the loop, or at its end, having sent an error.
pub data Place (E : Type 0) : Type 0 where
  waiting working : Place E
  sent : E → Place E

-- What the goroutine does with the error of its task.
unfoldable pub after_run : {E : Type 0} → Bool → E → Place E
after_run true e = sent e
after_run false e = waiting

abbrev pub goes_on : {E : Type 0} → Bool → Option E → Place E
goes_on flag none = working
goes_on flag (some e) = after_run flag e

module _ {fl : Floats} {lib : RateLibrary fl} {E : Type 0} (w : World E) where
  unfoldable pub instance_step : ℕ → Place E × TaskSpec fl lib → Place E × TaskSpec fl lib
  unfolding after_run
  instance_step i (waiting, t) = (goes_on (w.stopped i) (w.waited i), t)
  instance_step i (working, t) =
      let (t', e) = run_round t (w.rounds i) in (goes_on (w.stopped i) e, t')
  instance_step i (sent e, t) = (sent e, t)

  -- The events from `k` on, so many of them.
  unfoldable pub run_instance : ℕ → ℕ → Place E × TaskSpec fl lib → Place E × TaskSpec fl lib
  unfolding instance_step
  run_instance zero k p = p
  run_instance (suc n) k p = run_instance n (suc k) (instance_step k p)

abbrev pub IsSent : {E : Type 0} → Place E → Type 0
IsSent {E} p = (e : E) × (p ≡ sent e)

waiting-unsent : {E : Type 0} → ¬ IsSent {E = E} waiting
waiting-unsent (e, h) = ground arith

working-unsent : {E : Type 0} → ¬ IsSent {E = E} working
working-unsent (e, h) = ground arith

goes_on-unsent : {E : Type 0} (o : Option E) → ¬ IsSent (goes_on false o)
unfolding after_run
goes_on-unsent none (e, h) = ground arith
goes_on-unsent (some x) (e, h) = ground arith

-- With the flag up, the goroutine ends or is in the loop of the closure.
goes_on-up : {E : Type 0} (o : Option E) → (IsSent (goes_on true o)) ⊎ (goes_on true o ≡ working)
unfolding after_run
goes_on-up none = inr refl
goes_on-up (some e) = inl (e, refl)

module _ {fl : Floats} {lib : RateLibrary fl} {E : Type 0} (w : World E) where
  step-unsent :
      (i : ℕ) (p : Place E × TaskSpec fl lib)
      → w.stopped i ≡ false
      → ¬ IsSent (p.0)
      → ¬ IsSent (instance_step w i p).0
  unfolding instance_step
  step-unsent i (waiting, t) down h = rw down (goes_on-unsent (w.waited i))
  step-unsent i (working, t) down h = rw down (goes_on-unsent (run_round t (w.rounds i)).1)
  step-unsent i (sent e, t) down h = absurd (h (e, refl))

  run_instance-unsent :
      (n k : ℕ) (p : Place E × TaskSpec fl lib)
      → ((i : ℕ) → i < k + n → w.stopped i ≡ false)
      → ¬ IsSent (p.0)
      → ¬ IsSent (run_instance w n k p).0
  unfolding run_instance
  run_instance-unsent zero k p down h = h
  run_instance-unsent (suc n) k p down h =
      run_instance-unsent n (suc k) (instance_step w k p) (λ i l. down i (omega (arith, l)))
        (step-unsent k p (down k (omega arith)) h)

  run_instance-sent :
      (n k : ℕ) (t : TaskSpec fl lib) (e : E) → run_instance w n k (sent e, t) ≡ (sent e, t)
  unfolding run_instance
  run_instance-sent zero k t e = refl
  run_instance-sent (suc n) k t e = run_instance-sent n (suc k) t e

  -- What the goroutine is after an event with the flag up.
  step-up :
      (i : ℕ) (p : Place E × TaskSpec fl lib)
      → w.stopped i ≡ true
      → let (q, _) = instance_step w i p in IsSent q ⊎ (q ≡ working)
  unfolding instance_step
  step-up i (waiting, t) up = rw up (goes_on-up (w.waited i))
  step-up i (working, t) up = rw up (goes_on-up (run_round t (w.rounds i)).1)
  step-up i (sent e, t) up = inl (e, refl)

  step-last :
      (i : ℕ) (t : TaskSpec fl lib) (e : E)
      → w.stopped i ≡ true
      → w.rounds i ≡ not_acquired e
      → instance_step w i (working, t) ≡ (sent e, t)
  unfolding instance_step run_round after_run
  step-last i t e up denied = rw (up, denied) refl

  run_instance_add :
      (a b k : ℕ) (p : Place E × TaskSpec fl lib)
      → run_instance w (a + b) k p ≡ run_instance w b (k + a) (run_instance w a k p)
  unfolding run_instance
  run_instance_add zero b k p =
      let left : zero + b ≡ b = omega arith in
      let right : k + zero ≡ k = omega arith in
      ap (λ j. run_instance w j k p) left ∙ sym (ap (λ j. run_instance w b j p) right)
  run_instance_add (suc a) b k p =
      let moved : suc k + a ≡ k + suc a = omega arith in
      let front : suc a + b ≡ suc (a + b) = omega arith in
      ap (λ j. run_instance w j k p) front
      ∙ run_instance_add a b (suc k) (instance_step w k p)
      ∙ ap (λ j. run_instance w b j (run_instance w a (suc k) (instance_step w k p))) moved

  -- From the event on in which `Acquire` fails.
  from_denied :
      (k n : ℕ) (q : Place E × TaskSpec fl lib)
      → IsSent (q.0) ⊎ (q.0 ≡ working)
      → w.stopped k ≡ true
      → (e : E) × (w.rounds k ≡ not_acquired e)
      → let r = run_instance w (suc n) k q in IsSent (r.0) × (r.1 ≡ q.1)
  unfolding run_instance
  from_denied k n (sent e, t) h up denied = rw (run_instance-sent n (suc k) t e) ((e, refl), refl)
  from_denied k n (working, t) h up (e, denied) =
      let ended : run_instance w (suc n) k (working, t) ≡ (sent e, t) =
        ap (run_instance w n (suc k)) (step-last k t e up denied)
        ∙ run_instance-sent n (suc k) t e in
      ((e, ap (λ r. r.0) ended), ap (λ r. r.1) ended)
  from_denied k n (waiting, t) (inl h) up denied = absurd (waiting-unsent h)
  from_denied k n (waiting, t) (inr h) up denied = ground arith

  -- An instance sends nothing before it is stopped, in event `m`, and has sent the error of its task
  -- two events later, if `Acquire` fails in every round after event `m`, as it does with a context
  -- that has ended; and after event `m` no running time is observed any more.
  pub run_instance_ends :
      (m n : ℕ) (t : TaskSpec fl lib)
      → ((i : ℕ) → i < m → w.stopped i ≡ false)
      → ((i : ℕ) → m ≤ i → w.stopped i ≡ true)
      → ((i : ℕ) → m < i → (e : E) × (w.rounds i ≡ not_acquired e))
      → let r = run_instance w (m + suc (suc n)) 0 (waiting, t) in
        ¬ IsSent (run_instance w m 0 (waiting, t)).0
        × IsSent (r.0)
        × (r.1 ≡ (run_instance w (m + 1) 0 (waiting, t)).1)
  unfolding run_instance
  run_instance_ends m n t down up denied =
      let p = run_instance w m 0 (waiting, t) in
      let zero_m : 0 + m ≡ m = omega arith in
      let (ends, same) =
        from_denied (suc m) n (instance_step w m p) (step-up m p (up m (omega arith)))
          (up (suc m) (omega arith)) (denied (suc m) (omega arith)) in
      (
        run_instance-unsent m 0 (waiting, t) (λ i l. down i (omega (arith, l))) waiting-unsent,
        rw (run_instance_add m (suc (suc n)) 0 (waiting, t), zero_m) ends,
        rw
            (
              run_instance_add m (suc (suc n)) 0 (waiting, t),
              run_instance_add m 1 0 (waiting, t),
              zero_m,
            )
            same,
      )
