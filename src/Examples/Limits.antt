-- ===== src/Examples/Limits.antt =====
-- A limiter of nothing, on which a call sleeps until a rate is set or its context ends.
use govnilo.Prelude.{ℕ, pos, ◌≡◌, refl, ◌⊎◌, ◌≢◌, true, none, some}
use govnilo.RateLimit.{
  Spec, waiting, woken, failed, passed, parked, firing, Limiter, enter, recheck, build_rl, new,
  set_spec, broadcast_if, leave, check_loop, after_unlock, resumes, leaves, Reach, here, next,
  starts, ends,
}
use govnilo.RateLimit.Invariant.{no_lost_wakeup, acquire_outcome}
use govnilo.RateLimit.Progress.{IsOnItsWay, NeverSets, set_spec_wakes}
use govnilo.Examples.Setting.{numbers, limits}

abbrev pub nothing : Spec
nothing = record { times = 0; per = pos 1_000_000_000 }

abbrev ten : Spec
ten = record { times = 10; per = pos 1_000_000_000 }

asleep_reached :
    (t : Limiter ℕ) × Reach numbers limits (new numbers limits nothing) t
    × ((t.calls 0).place ≡ waiting)
    × ((t.calls 0).ctx_ended ≡ true)
unfolding new build_rl enter
asleep_reached = (_, next (next here (starts 0 refl)) (ends 0), refl, refl)

ten_builds : build_rl numbers limits ten ≡ some 11
unfolding build_rl
ten_builds = refl

no_lost_wakeup_example :
    let t = asleep_reached.0 in
    (t.spec ≡ nothing)
    × (t.rl ≡ build_rl numbers limits nothing)
    × ((t.calls 0).place ≡ waiting
        → (t.rl ≡ none) × (((t.calls 0).watcher ≡ parked) ⊎ ((t.calls 0).watcher ≡ firing)))
unfolding asleep_reached
no_lost_wakeup_example = no_lost_wakeup numbers limits nothing 0 asleep_reached.1

acquire_outcome_example :
    let t = asleep_reached.0 in
    ((t.calls 0).place ≢ passed none) × ((t.calls 0).place ≡ failed → (t.calls 0).ctx_ended ≡ true)
acquire_outcome_example = acquire_outcome numbers limits nothing 0 asleep_reached.1

-- The call that was asleep takes the mutex again, and goes on.
gone_on :
    (u : Limiter ℕ) × (r : Reach numbers limits (set_spec numbers limits asleep_reached.0 ten) u)
    × NeverSets numbers limits r
    × ((u.calls 0).place ≡ passed (some 11))
unfolding asleep_reached set_spec build_rl broadcast_if recheck check_loop leave after_unlock new
    enter
gone_on = (_, next (next here (resumes 0 refl)) (leaves 0 (some 11) refl), ((tt, tt), tt), refl)

set_spec_wakes_example :
    let t = set_spec numbers limits asleep_reached.0 ten in
    ((t.calls 0).place ≡ woken)
    × IsOnItsWay 11 (gone_on.0.calls 0).place
    × ((gone_on.0.calls 0).place ≡ failed → (gone_on.0.calls 0).ctx_ended ≡ true)
set_spec_wakes_example =
    set_spec_wakes numbers limits nothing asleep_reached.1 0 ten asleep_reached.2 ten_builds
      gone_on.1 gone_on.2
