-- ===== src/RateLimit/Invariant.antt =====
-- What holds of a limiter and of every call, whatever the order of the steps.
use govnilo.Prelude.{
  ℕ, int_eq, nat_eq, ◌==◌, ◌≡◌, refl, ap, ◌∙◌, ◌⊎◌, ◌≢◌, inl, inr, true, false, Option, none, some,
  arith, Bool-cases,
}
use govnilo.Floats.{Floats}
use govnilo.RateLimit.{
  Spec, spec_beq, RateLibrary, outside, waiting, woken, failed, passed, absent, parked, firing,
  over, Call, Limiter, update, broadcast, enter, recheck, has_left, build_rl, new, broadcast_if,
  set_spec, Step, sets, starts, resumes, leaves, leaving, leave, ends, fires, broadcasts, Reach,
  here, next,
}

pub spec_beq_eq : (a b : Spec) → spec_beq a b ≡ true → a ≡ b
spec_beq_eq a b h = ground (arith, int_eq.beq_iff a.per b.per)

-- Of one call, at a limiter that is or is not there.
pub record IsSound {L : Type 0} (rl : Option L) (c : Call L) : Type 0 where
  pub sleeps : c.place ≡ waiting → (rl ≡ none) × ((c.watcher ≡ parked) ⊎ (c.watcher ≡ firing))
  pub watched : c.place ≡ woken → c.watcher ≢ absent
  pub fresh : c.place ≡ outside → (c.watcher ≡ absent) × (c.ctx_done ≡ false)
  pub told : c.ctx_done ≡ true → (c.ctx_ended ≡ true) ⊎ (has_left c.place ≡ true)
  pub quiet : (c.watcher ≡ parked) ⊎ (c.watcher ≡ absent) → c.ctx_done ≡ false
  pub loud : (c.watcher ≡ firing) ⊎ (c.watcher ≡ over) → c.ctx_done ≡ true
  pub gave_up : c.place ≡ failed → c.ctx_ended ≡ true
  pub left : c.place ≡ leaving none → c.ctx_done ≡ true
  pub went_on : c.place ≢ passed none

module _ {L : Type 0} (rl : Option L) (c : Call L) (v : IsSound rl c) where
  enter-IsSound : c.place ≡ outside → IsSound rl (enter rl c)
  unfolding enter
  enter-IsSound h = ground arith

  recheck-IsSound : c.place ≡ woken → IsSound rl (recheck rl c)
  unfolding recheck
  recheck-IsSound h = ground arith

  leave-IsSound : (read : Option L) → c.place ≡ leaving read → IsSound rl (leave read c)
  unfolding leave
  leave-IsSound none h = ground arith
  leave-IsSound (some l) h = ground arith

  ends-IsSound : IsSound rl (record c { ctx_ended = true })
  ends-IsSound = ground arith

  fires-IsSound :
      c.watcher ≡ parked
      → (c.ctx_ended ≡ true) ⊎ (has_left c.place ≡ true)
      → IsSound rl (record c { ctx_done = true; watcher = firing })
  fires-IsSound h k = ground arith

  wake-IsSound : (rl' : Option L) → IsSound rl' (broadcast (λ _. c) 0)
  wake-IsSound rl' = ground arith

  over-IsSound : c.watcher ≡ firing → IsSound rl (broadcast (λ _. record c { watcher = over }) 0)
  over-IsSound h = ground arith

  none-IsSound : IsSound none c
  none-IsSound = ground arith

-- One call changes, the others stay.
update-IsSound :
    {L : Type 0} (rl : Option L) (calls : ℕ → Call L) (i : ℕ) (c : Call L)
    → IsSound rl c
    → ((j : ℕ) → IsSound rl (calls j))
    → (j : ℕ) → IsSound rl (update calls i c j)
update-IsSound rl calls i c v w j = elim (Bool-cases (i == j)) [
  | inl same ↦ rw same v
  | inr other ↦ rw other (w j)
]

module _ (fl : Floats) (lib : RateLibrary fl) where
  pub record Inv (s : Limiter lib.Limiter) : Type 0 where
    pub current : s.rl ≡ build_rl fl lib s.spec
    pub sound : (i : ℕ) → IsSound s.rl (s.calls i)

  pub new-Inv : (spec : Spec) → Inv (new fl lib spec)
  unfolding new
  new-Inv spec = record { current = refl; sound = λ i. ground arith }

  -- After `SetSpec` the limiter is that of the rate that was set.
  pub set_spec_current :
      (s : Limiter lib.Limiter) (spec : Spec)
      → s.rl ≡ build_rl fl lib s.spec
      → let t = set_spec fl lib s spec in (t.spec ≡ spec) × (t.rl ≡ build_rl fl lib t.spec)
  unfolding set_spec
  set_spec_current s spec h = elim (Bool-cases (spec_beq s.spec spec)) [
    | inl same ↦ rw (same, set_spec) (spec_beq_eq s.spec spec same, h)
    | inr other ↦ rw (other, set_spec) (refl, refl)
  ]

  pub set_spec-Inv : (s : Limiter lib.Limiter) (spec : Spec) → Inv s → Inv (set_spec fl lib s spec)
  unfolding set_spec
  set_spec-Inv s spec v = elim (Bool-cases (spec_beq s.spec spec)) [
    | inl same ↦ rw (same, set_spec) v
    | inr other ↦ rw (other, set_spec) (changed (build_rl fl lib spec) refl)
  ]
    where
      changed :
          (rl : Option lib.Limiter)
          → build_rl fl lib spec ≡ rl
          → Inv (record {
            spec = spec;
            rl = build_rl fl lib spec;
            calls = broadcast_if fl lib (build_rl fl lib spec) s.calls;
          })
      changed none e = record {
        current = refl;
        sound = λ i. rw (e, broadcast_if) (none-IsSound s.rl (s.calls i) (v.sound i));
      }
      changed (some l) e = record {
        current = refl;
        sound = λ i. rw (e, broadcast_if) (wake-IsSound s.rl (s.calls i) (v.sound i) (some l));
      }

  Step-Inv : {s t : Limiter lib.Limiter} → Step fl lib s t → Inv s → Inv t
  Step-Inv {s} (sets spec) v = set_spec-Inv s spec v
  Step-Inv {s} (starts i h) v = record {
    current = v.current;
    sound = update-IsSound s.rl s.calls i _ (enter-IsSound s.rl (s.calls i) (v.sound i) h) v.sound;
  }
  Step-Inv {s} (resumes i h) v = record {
    current = v.current;
    sound =
        update-IsSound s.rl s.calls i _ (recheck-IsSound s.rl (s.calls i) (v.sound i) h) v.sound;
  }
  Step-Inv {s} (leaves i read h) v = record {
    current = v.current;
    sound =
        update-IsSound s.rl s.calls i _ (leave-IsSound s.rl (s.calls i) (v.sound i) read h) v.sound;
  }
  Step-Inv {s} (ends i) v = record {
    current = v.current;
    sound = update-IsSound s.rl s.calls i _ (ends-IsSound s.rl (s.calls i) (v.sound i)) v.sound;
  }
  Step-Inv {s} (fires i h k) v = record {
    current = v.current;
    sound =
        update-IsSound s.rl s.calls i _ (fires-IsSound s.rl (s.calls i) (v.sound i) h k) v.sound;
  }
  Step-Inv {s} (broadcasts i h) v = record {
    current = v.current;
    sound = λ j. elim (Bool-cases (i == j)) [
      | inl same ↦ rw same (over-IsSound s.rl (s.calls i) (v.sound i) h)
      | inr other ↦ rw other (wake-IsSound s.rl (s.calls j) (v.sound j) s.rl)
    ];
  }

  pub Reach-Inv : {s t : Limiter lib.Limiter} → Inv s → Reach fl lib s t → Inv t
  Reach-Inv v here = v
  Reach-Inv v (next r st) = Step-Inv st (Reach-Inv v r)

  -- The rate that was set last: by `SetSpec`, or else by `New`.
  abbrev set_by : {s t : Limiter lib.Limiter} → Spec → Step fl lib s t → Spec
  set_by last (sets spec) = spec
  set_by last (starts i h) = last
  set_by last (resumes i h) = last
  set_by last (leaves i read h) = last
  set_by last (ends i) = last
  set_by last (fires i h k) = last
  set_by last (broadcasts i h) = last

  abbrev pub last_set : {s t : Limiter lib.Limiter} → Spec → Reach fl lib s t → Spec
  last_set spec here = spec
  last_set spec (next r st) = set_by (last_set spec r) st

  Step-set :
      {s t : Limiter lib.Limiter} (last : Spec) (st : Step fl lib s t)
      → Inv s
      → s.spec ≡ last
      → t.spec ≡ set_by last st
  Step-set {s} last (sets spec) v e = (set_spec_current s spec v.current).0
  Step-set last (starts i h) v e = e
  Step-set last (resumes i h) v e = e
  Step-set last (leaves i read h) v e = e
  Step-set last (ends i) v e = e
  Step-set last (fires i h k) v e = e
  Step-set last (broadcasts i h) v e = e

  Reach-set :
      (spec : Spec) {t : Limiter lib.Limiter} (r : Reach fl lib (new fl lib spec) t)
      → t.spec ≡ last_set spec r
  unfolding new
  Reach-set spec here = refl
  Reach-set spec (next r st) =
      Step-set (last_set spec r) st (Reach-Inv (new-Inv spec) r) (Reach-set spec r)

  -- However the goroutines interleave, the limiter is always the one of the rate that was set last,
  -- by `SetSpec` or else by `New`, and a call that sleeps does so only while the rate is nothing and
  -- while the goroutine that will wake it at the end of its context is still to do so: no wakeup is
  -- lost.
  pub no_lost_wakeup :
      (spec : Spec) {t : Limiter lib.Limiter} (i : ℕ) (r : Reach fl lib (new fl lib spec) t)
      → (t.spec ≡ last_set spec r)
        × (t.rl ≡ build_rl fl lib (last_set spec r))
        × ((t.calls i).place ≡ waiting
            → (t.rl ≡ none) × (((t.calls i).watcher ≡ parked) ⊎ ((t.calls i).watcher ≡ firing)))
  no_lost_wakeup spec i r =
      let v = Reach-Inv (new-Inv spec) r in
      let last = Reach-set spec r in
      (last, v.current ∙ ap (build_rl fl lib) last, (v.sound i).sleeps)

  -- A call that goes on never does so without a limiter, and one that fails has a context that
  -- ended.
  pub acquire_outcome :
      (spec : Spec) {t : Limiter lib.Limiter} (i : ℕ)
      → Reach fl lib (new fl lib spec) t
      → ((t.calls i).place ≢ passed none)
        × ((t.calls i).place ≡ failed → (t.calls i).ctx_ended ≡ true)
  acquire_outcome spec i r =
      let v = Reach-Inv (new-Inv spec) r in ((v.sound i).went_on, (v.sound i).gave_up)
