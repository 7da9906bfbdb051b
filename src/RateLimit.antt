-- ===== src/RateLimit.antt =====
-- pkg/ratelimit/ratelimit.go: a limiter whose rate can be changed, and set to nothing, while
-- goroutines wait in `Acquire`. Each stretch of code under the mutex is one step; `Cond.Wait` leaves
-- and takes the mutex, so it ends one step and begins another. The test of `ctxDone` after the last
-- `Unlock` is a step of its own.
pub mod Invariant
pub mod Progress
use govnilo.Prelude.{
  ℕ, ℤ, pos, int_eq, nat_eq, ◌==◌, ◌≡◌, ◌⊎◌, Bool, true, false, not, ◌&&◌, if◌then◌else◌, Option,
  none, some,
}
use govnilo.Floats.{Floats}

pub record Spec : Type 0 where
  pub times : ℕ  -- uint64
  pub per : ℤ  -- time.Duration

abbrev pub spec_beq : Spec → Spec → Bool
spec_beq a b = a.times == b.times && a.per == b.per

-- `golang.org/x/time/rate`, and `Duration.Seconds`: a limiter is what `NewLimiter` makes of a limit
-- and a burst.
pub record RateLibrary (fl : Floats) : Type 1 where
  pub Limiter : Type 0
  pub new_limiter : fl.F → ℕ → Limiter
  pub inf : fl.F
  pub seconds : ℤ → fl.F

-- Where a call of `Acquire` stands: not begun, asleep in `Wait`, woken but not back under the
-- mutex, done with the mutex with the limiter that it read, returned with the error of its context,
-- or gone on to wait for the limiter.
pub data Place (L : Type 0) : Type 0 where
  outside waiting woken failed : Place L
  leaving : Option L → Place L
  passed : Option L → Place L

-- The goroutine that a call starts to learn of the end of its context: not started, blocked,
-- between setting `ctxDone` and the broadcast, or over.
pub data Watcher : Type 0 where
  absent parked firing over : Watcher

pub record Call (L : Type 0) : Type 0 where
  pub place : Place L
  pub ctx_ended : Bool  -- the caller's context
  pub ctx_done : Bool  -- the local `ctxDone`
  pub watcher : Watcher

pub record Limiter (L : Type 0) : Type 0 where
  pub spec : Spec
  pub rl : Option L
  pub calls : ℕ → Call L

abbrev pub new_call : {L : Type 0} → Call L
new_call = record { place = outside; ctx_ended = false; ctx_done = false; watcher = absent }

abbrev pub update : {L : Type 0} → (ℕ → Call L) → ℕ → Call L → ℕ → Call L
update calls i c j = if i == j then c else calls j

module _ {L : Type 0} where
  -- `Broadcast` wakes every call that is asleep.
  abbrev wake_place : Place L → Place L
  wake_place waiting = woken
  wake_place outside = outside
  wake_place woken = woken
  wake_place failed = failed
  wake_place (leaving l) = leaving l
  wake_place (passed l) = passed l

  abbrev pub broadcast : (ℕ → Call L) → ℕ → Call L
  broadcast calls i = record (calls i) { place = wake_place (calls i).place }

  -- The test of the loop, and what follows it up to the `Unlock`: the limiter is read.
  unfoldable pub check_loop : Option L → Bool → Place L
  check_loop none false = waiting
  check_loop none true = leaving none
  check_loop (some l) _ = leaving (some l)

  -- After the `Unlock`, by the `ctxDone` of that time.
  unfoldable pub after_unlock : Bool → Option L → Place L
  after_unlock true rl = failed
  after_unlock false rl = passed rl

  -- From the first `Lock` on: a watcher is started if there is no limiter.
  start_watcher : Option L → Watcher
  start_watcher none = parked
  start_watcher (some _) = absent

  unfoldable pub enter : Option L → Call L → Call L
  unfolding check_loop start_watcher
  enter rl c = record c { watcher = start_watcher rl; place = check_loop rl c.ctx_done }

  -- After `Wait` returns.
  unfoldable pub recheck : Option L → Call L → Call L
  unfolding check_loop
  recheck rl c = record c { place = check_loop rl c.ctx_done }

  -- The contexts whose end a watcher sees: the caller's, and its own, which a call cancels when it
  -- goes on or returns.
  abbrev pub has_left : Place L → Bool
  has_left outside = false
  has_left waiting = false
  has_left woken = false
  has_left (leaving _) = false
  has_left failed = true
  has_left (passed _) = true

  unfoldable pub leave : Option L → Call L → Call L
  unfolding after_unlock
  leave rl c = record c { place = after_unlock c.ctx_done rl }

module _ (fl : Floats) (lib : RateLibrary fl) where
  open lib use {new_limiter, inf, seconds}

  unfoldable pub build_rl : Spec → Option lib.Limiter
  build_rl spec =
      if spec.per == pos 0
      then some (new_limiter inf 1)
      else if not (spec.times == 0)
      then some (new_limiter (fl.div (fl.of_ℕ spec.times) (seconds spec.per)) 1)
      else none

  unfoldable pub new : Spec → Limiter lib.Limiter
  unfolding build_rl
  new spec = record { spec = spec; rl = build_rl spec; calls = λ _. new_call }

  unfoldable pub broadcast_if : Option lib.Limiter → (ℕ → Call lib.Limiter) → ℕ → Call lib.Limiter
  broadcast_if none calls = calls
  broadcast_if (some _) calls = broadcast calls

  unfoldable pub set_spec : Limiter lib.Limiter → Spec → Limiter lib.Limiter
  unfolding build_rl broadcast_if
  set_spec s spec =
      if spec_beq s.spec spec
      then s
      else record { spec = spec; rl = build_rl spec; calls = broadcast_if (build_rl spec) s.calls }

  pub data Step (s : Limiter lib.Limiter) : Limiter lib.Limiter → Type 0 where
    sets : (spec : Spec) → Step s (set_spec s spec)
    starts :
        (i : ℕ)
        → (s.calls i).place ≡ outside
        → Step s (record s { calls = update s.calls i (enter s.rl (s.calls i)) })
    resumes :
        (i : ℕ)
        → (s.calls i).place ≡ woken
        → Step s (record s { calls = update s.calls i (recheck s.rl (s.calls i)) })
    leaves :
        (i : ℕ) (rl : Option lib.Limiter)
        → (s.calls i).place ≡ leaving rl
        → Step s (record s { calls = update s.calls i (leave rl (s.calls i)) })
    ends :
        (i : ℕ)
        → Step s (record s { calls = update s.calls i (record (s.calls i) { ctx_ended = true }) })
    fires :
        (i : ℕ)
        → (s.calls i).watcher ≡ parked
        → ((s.calls i).ctx_ended ≡ true) ⊎ (has_left (s.calls i).place ≡ true)
        → Step s (record s {
          calls = update s.calls i (record (s.calls i) { ctx_done = true; watcher = firing });
        })
    broadcasts :
        (i : ℕ)
        → (s.calls i).watcher ≡ firing
        → Step s (record s {
          calls = broadcast (update s.calls i (record (s.calls i) { watcher = over }));
        })

  pub data Reach (s : Limiter lib.Limiter) : Limiter lib.Limiter → Type 0 where
    here : Reach s s
    next : {t u : Limiter lib.Limiter} → Reach s t → Step t u → Reach s u
