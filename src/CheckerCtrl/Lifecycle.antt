-- ===== src/CheckerCtrl/Lifecycle.antt =====
-- internal/checkerctrl/controller.go: `Start` and `Stop`, with the ends of the two loops that `Start`
-- sets going; the one of the rate runner cleans up first. `waits k` is what the wait of round k
-- returns; `waitFor` returns nil or the error of its context.
use govnilo.Prelude.{
  ℕ, zero, suc, ◌+◌, ◌≤◌, ◌≡◌, refl, ap, ◌∙◌, Bool, true, false, if◌then◌else◌, List, [], ◌∷◌,
  Option, none, some, String, ◌⊎◌, inl, inr, arith, Option-cases,
}
use govnilo.Floats.{Floats}
use govnilo.RateLimit.{RateLibrary, Limiter}
use govnilo.RateRunner.{RateRunner, TaskSpec}

pub data ContextError : Type 0 where
  canceled deadline_exceeded : ContextError

pub data Error (E : Type 0) : Type 0 where
  of_context : ContextError → Error E
  cannot_cleanup : List E → Error E
  cannot_wait : ContextError → Error E  -- "cannot wait for stop of checker controller"

-- The loop of `run` and that of `Run`, from round k on: the error of the first wait that fails, and
-- its round; `none`, that the loop still runs after `fuel` rounds.
unfoldable pub loop_end : (ℕ → Option ContextError) → ℕ → ℕ → Option (ℕ × ContextError)
loop_end waits zero k = none
loop_end waits (suc fuel) k = elim (waits k) [
  | some e ↦ some (k, e)
  | none ↦ loop_end waits fuel (suc k)
]

-- `Limiter.Stop` of pkg/ratelimit/ratelimit.go.
abbrev pub stop_limiter : {L : Type 0} (E : Type 0) → Limiter L → Option E
stop_limiter E l = none

unfoldable pub cleanup_errors :
    {fl : Floats} {lib : RateLibrary fl} (E : Type 0) → List (String × TaskSpec fl lib) → List E
cleanup_errors E [] = []
cleanup_errors E ((name, t) ∷ tasks) =
    let rest = cleanup_errors E tasks in
    elim (stop_limiter E t.rate_limitter) [ none ↦ rest | some e ↦ e ∷ rest ]

-- What `cleanup` returns.
abbrev pub cleanup_outcome : {E : Type 0} → List E → Option (Error E)
cleanup_outcome [] = none
cleanup_outcome (e ∷ es) = some (cannot_cleanup (e ∷ es))

abbrev pub or_else : {E : Type 0} → Option (Error E) → ContextError → Error E
or_else none e = of_context e
or_else (some x) e = x

module _ {fl : Floats} {lib : RateLibrary fl} (E : Type 0) where
  unfoldable pub cleanup : RateRunner fl lib → Option (Error E)
  unfolding cleanup_errors
  cleanup r = cleanup_outcome (cleanup_errors E r.tasks)

  -- What `Run` returns, if its wait failed with `e`: the error of the cleanup, or else `e`.
  unfoldable pub run_returns : RateRunner fl lib → ContextError → Error E
  unfolding cleanup
  run_returns r e = or_else (cleanup r) e

-- What the goroutine of `Start` sends for the error of the group: nil for the end of a context.
abbrev pub sent : {E : Type 0} → Error E → Option (Error E)
sent (of_context e) = none
sent (cannot_cleanup es) = some (cannot_cleanup es)
sent (cannot_wait e) = some (cannot_wait e)

-- What the `select` of `Stop` gets: by the message of the goroutine and by the end of the context of
-- `Stop`, as far as they are there, `by_context` being the choice where both are; `none`, that it
-- waits on.
unfoldable pub stop :
    {E : Type 0}
    → Bool
    → Option (Option (Error E))
    → Option ContextError
    → Option (Option (Error E))
stop by_context none none = none
stop by_context none (some e) = some (some (cannot_wait e))
stop by_context (some message) none = some message
stop by_context (some message) (some e) =
    some (if by_context then some (cannot_wait e) else message)

module _ {fl : Floats} {lib : RateLibrary fl} (E : Type 0) where
  -- The error group returns the error of the loop that ended first.
  unfoldable pub group_error : RateRunner fl lib → Bool → ContextError → ContextError → Error E
  unfolding run_returns
  group_error r rates_first rates checkers =
      if rates_first then run_returns E r rates else of_context checkers

  -- The message, if both loops have ended.
  unfoldable pub message :
      RateRunner fl lib
      → Bool
      → Option (ℕ × ContextError)
      → Option (ℕ × ContextError)
      → Option (Option (Error E))
  unfolding group_error
  message r rates_first (some (_, a)) (some (_, b)) = some (sent (group_error r rates_first a b))
  message r rates_first (some _) none = none
  message r rates_first none b = none

loop_end_ends :
    (waits : ℕ → Option ContextError) (n k : ℕ) (e : ContextError)
    → waits (k + n) ≡ some e
    → (m : ℕ) × (x : ContextError) × (loop_end waits (suc n) k ≡ some (m, x)) × (m ≤ k + n)
unfolding loop_end
loop_end_ends waits zero k e h =
    let now : waits k ≡ some e = ap waits (omega arith) ∙ h in
    rw (now, loop_end) (k, e, refl, omega arith)
loop_end_ends waits (suc n) k e h = elim (Option-cases (waits k)) [
  | inr (x, now) ↦ rw (now, loop_end) (k, x, refl, omega arith)
  | inl goes_on ↦
      let (m, x, ends, bound) = loop_end_ends waits n (suc k) e (ap waits (omega arith) ∙ h) in
      rw (goes_on, loop_end) (m, x, ends, omega (arith, bound))
]

cleanup_errors-nil :
    {fl : Floats} {lib : RateLibrary fl} (E : Type 0) (tasks : List (String × TaskSpec fl lib))
    → cleanup_errors E tasks ≡ []
unfolding cleanup_errors
cleanup_errors-nil E [] = refl
cleanup_errors-nil E ((name, t) ∷ tasks) = cleanup_errors-nil E tasks

module _ {fl : Floats} {lib : RateLibrary fl} (E : Type 0) (r : RateRunner fl lib) where
  sent-group_error :
      (rates_first : Bool) (a b : ContextError) → sent (group_error E r rates_first a b) ≡ none
  unfolding group_error run_returns cleanup
  sent-group_error true a b = rw (cleanup_errors-nil E r.tasks) refl
  sent-group_error false a b = refl

  -- Once the contexts that the two loops wait by have ended, in the rounds `a` and `b` at the latest,
  -- whichever loop is first, `Stop` returns: nil, unless its own context has ended and is chosen.
  stop_returns :
      (rates checkers : ℕ → Option ContextError) (a b : ℕ) (rates_first by_context : Bool)
      (x y : ContextError) (ended : Option ContextError)
      → rates a ≡ some x
      → checkers b ≡ some y
      → let got =
          stop by_context
            (message E r rates_first (loop_end rates (suc a) 0) (loop_end checkers (suc b) 0))
            ended in
        (got ≡ some none)
        ⊎ ((e : ContextError) × (ended ≡ some e) × (got ≡ some (some (cannot_wait e))))
  unfolding stop message
  stop_returns rates checkers a b rates_first by_context x y ended h k =
      let (_, _, one, _) = loop_end_ends rates a 0 x (ap rates (omega arith) ∙ h) in
      let (_, _, two, _) = loop_end_ends checkers b 0 y (ap checkers (omega arith) ∙ k) in
      rw (one, two, message, sent-group_error rates_first _ _) (chosen by_context ended)
    where
      chosen :
          (by_context : Bool) (ended : Option ContextError)
          → let got = stop {E = E} by_context (some none) ended in
            (got ≡ some none)
            ⊎ ((e : ContextError) × (ended ≡ some e) × (got ≡ some (some (cannot_wait e))))
      chosen by_context none = inl refl
      chosen true (some e) = inr (e, refl, refl)
      chosen false (some e) = inl refl
