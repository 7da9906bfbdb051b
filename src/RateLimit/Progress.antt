-- ===== src/RateLimit/Progress.antt =====
-- That calls which sleep get on.
use mathlib.Core.Path.{subst}
use govnilo.Prelude.{
  ℕ, nat_eq, ◌==◌, ◌≡◌, refl, sym, ap, inl, inr, true, false, Option, none, some, arith, Bool-cases,
  Bool, int_eq,
}
use govnilo.Floats.{Floats}
use govnilo.RateLimit.{
  Spec, spec_beq, RateLibrary, Place, Call, outside, waiting, woken, leaving, failed, passed,
  Limiter, enter, recheck, leave, after_unlock, broadcast, update, build_rl, new, broadcast_if,
  set_spec, Step, sets, starts, resumes, leaves, ends, fires, broadcasts, over, Reach, here, next,
}
use govnilo.RateLimit.Invariant.{Reach-Inv, new-Inv, spec_beq_eq}

-- Where a call stands that is not asleep again since a limiter was there.
abbrev pub IsOnItsWay : {L : Type 0} → L → Place L → Type 0
IsOnItsWay l outside = ⊥
IsOnItsWay l waiting = ⊥
IsOnItsWay l woken = Unit
IsOnItsWay l failed = Unit
IsOnItsWay l (leaving rl) = rl ≡ some l
IsOnItsWay l (passed rl) = rl ≡ some l

module _ {L : Type 0} (l : L) (c : Call L) where
  enter-IsOnItsWay :
      c.place ≡ outside → IsOnItsWay l c.place → IsOnItsWay l (enter (some l) c).place
  unfolding enter
  enter-IsOnItsWay h v = refl

  recheck-IsOnItsWay : IsOnItsWay l (recheck (some l) c).place
  unfolding recheck
  recheck-IsOnItsWay = refl

  leave-IsOnItsWay :
      (rl : Option L)
      → c.place ≡ leaving rl
      → IsOnItsWay l c.place
      → IsOnItsWay l (leave rl c).place
  unfolding leave after_unlock
  leave-IsOnItsWay rl h v = after c.ctx_done (subst (IsOnItsWay l) h v)
    where
      after : (b : Bool) → rl ≡ some l → IsOnItsWay l (after_unlock b rl)
      after true e = tt
      after false e = e

  wake-IsOnItsWay : IsOnItsWay l c.place → IsOnItsWay l (broadcast (λ _. c) 0).place
  wake-IsOnItsWay v = ground arith

update-IsOnItsWay :
    {L : Type 0} (l : L) (calls : ℕ → Call L) (i j : ℕ) (c : Call L)
    → IsOnItsWay l (calls i).place
    → (IsOnItsWay l (calls j).place → IsOnItsWay l c.place)
    → IsOnItsWay l (update calls j c i).place
update-IsOnItsWay l calls i j c v f = elim (Bool-cases (j == i)) [
  | inl same ↦
      rw same (f (subst (λ k. IsOnItsWay l (calls k).place) (sym ((nat_eq.beq_iff j i).0 same)) v))
  | inr other ↦ rw other v
]

module _ (fl : Floats) (lib : RateLibrary fl) where
  abbrev IsNoSet : {s t : Limiter lib.Limiter} → Step fl lib s t → Type 0
  IsNoSet (sets spec) = ⊥
  IsNoSet (starts i h) = Unit
  IsNoSet (resumes i h) = Unit
  IsNoSet (leaves i read h) = Unit
  IsNoSet (ends i) = Unit
  IsNoSet (fires i h k) = Unit
  IsNoSet (broadcasts i h) = Unit

  -- None of the steps is a call of `SetSpec`.
  abbrev pub NeverSets : {s t : Limiter lib.Limiter} → Reach fl lib s t → Type 0
  NeverSets here = Unit
  NeverSets (next r st) = NeverSets r × IsNoSet st

  Step-IsOnItsWay :
      {s t : Limiter lib.Limiter} {l : lib.Limiter} (i : ℕ) (st : Step fl lib s t)
      → IsNoSet st
      → s.rl ≡ some l
      → IsOnItsWay l (s.calls i).place
      → (t.rl ≡ some l) × IsOnItsWay l (t.calls i).place
  Step-IsOnItsWay i (sets spec) n e v = absurd n
  Step-IsOnItsWay {s} {l = l} i (starts j h) n e v = (
    e,
    rw e (
        update-IsOnItsWay l s.calls i j (enter (some l) (s.calls j)) v
          (enter-IsOnItsWay l (s.calls j) h)),
  )
  Step-IsOnItsWay {s} {l = l} i (resumes j h) n e v = (
    e,
    rw e (
        update-IsOnItsWay l s.calls i j (recheck (some l) (s.calls j)) v
          (λ _. recheck-IsOnItsWay l (s.calls j))),
  )
  Step-IsOnItsWay {s} {l = l} i (leaves j read h) n e v =
      (e, update-IsOnItsWay l s.calls i j _ v (leave-IsOnItsWay l (s.calls j) read h))
  Step-IsOnItsWay {s} {l = l} i (ends j) n e v = (e, update-IsOnItsWay l s.calls i j _ v (λ x. x))
  Step-IsOnItsWay {s} {l = l} i (fires j h k) n e v =
      (e, update-IsOnItsWay l s.calls i j _ v (λ x. x))
  Step-IsOnItsWay {s} {l = l} i (broadcasts j h) n e v =
      let c = record (s.calls j) { watcher = over } in
      (e, wake-IsOnItsWay l (update s.calls j c i) (update-IsOnItsWay l s.calls i j c v (λ x. x)))

  Reach-IsOnItsWay :
      {s t : Limiter lib.Limiter} {l : lib.Limiter} (i : ℕ) (r : Reach fl lib s t)
      → NeverSets r
      → s.rl ≡ some l
      → IsOnItsWay l (s.calls i).place
      → (t.rl ≡ some l) × IsOnItsWay l (t.calls i).place
  Reach-IsOnItsWay i here n e v = (e, v)
  Reach-IsOnItsWay i (next r st) n e v =
      let (e', v') = Reach-IsOnItsWay i r n.0 e v in Step-IsOnItsWay i st n.1 e' v'

module _ (fl : Floats) (lib : RateLibrary fl) (spec : Spec) {s : Limiter lib.Limiter}
    (reached : Reach fl lib (new fl lib spec) s) (i : ℕ) where
  set_spec-wakes :
      (spec' : Spec) {l : lib.Limiter}
      → (s.calls i).place ≡ waiting
      → build_rl fl lib spec' ≡ some l
      → let t = set_spec fl lib s spec' in (t.rl ≡ some l) × ((t.calls i).place ≡ woken)
  unfolding set_spec broadcast_if
  set_spec-wakes spec' w b =
      let v = Reach-Inv fl lib (new-Inv fl lib spec) reached in
      let changed : spec_beq s.spec spec' ≡ false = ground (
        arith,
        spec_beq_eq s.spec spec',
        (v.sound i).sleeps w,
        v.current,
        λ (e : s.spec ≡ spec'). ap (build_rl fl lib) e,
      ) in
      rw (changed, set_spec) (rw (b, broadcast_if) (ground arith))

  -- A call that sleeps while a rate is set is woken by it, and until the rate is set again, whatever
  -- else happens in whatever order, it does not fall asleep again: it waits for the mutex, has read
  -- the new limiter, goes on with that, or has failed, which it does only if its context ended.
  pub set_spec_wakes :
      (spec' : Spec) {l : lib.Limiter} {u : Limiter lib.Limiter}
      → (s.calls i).place ≡ waiting
      → build_rl fl lib spec' ≡ some l
      → (r : Reach fl lib (set_spec fl lib s spec') u) → NeverSets fl lib r
      → (((set_spec fl lib s spec').calls i).place ≡ woken)
        × IsOnItsWay l (u.calls i).place
        × ((u.calls i).place ≡ failed → (u.calls i).ctx_ended ≡ true)
  set_spec_wakes spec' {l} {u} w b r never =
      let (there, wakes) = set_spec-wakes spec' w b in
      let (_, goes) = Reach-IsOnItsWay fl lib i r never there (rw wakes tt) in
      let v = Reach-Inv fl lib (new-Inv fl lib spec) (next reached (sets spec')) in
      (wakes, goes, ((Reach-Inv fl lib v r).sound i).gave_up)

  -- A call that sleeps with its context at an end can always get out: some steps lead to its
  -- failing.
  pub waiting_can_fail :
      (s.calls i).place ≡ waiting
      → (s.calls i).ctx_ended ≡ true
      → (t : Limiter lib.Limiter) × Reach fl lib s t × ((t.calls i).place ≡ failed)
  unfolding recheck leave after_unlock
  waiting_can_fail w e =
      let v = Reach-Inv fl lib (new-Inv fl lib spec) reached in
      let c = s.calls i in
      let (gone, _) = (v.sound i).sleeps w in
      elim ((v.sound i).sleeps w).1 [
        | inl parks ↦ (
          _,
          next
              (next (next (next here (fires i parks (inl e))) (broadcasts i (ground arith)))
                (resumes i (ground arith)))
              (leaves i none (ground (arith, gone))),
          ground arith,
        )
        | inr fire ↦ (
          _,
          next (next (next here (broadcasts i fire)) (resumes i (ground arith)))
              (leaves i none (ground (arith, gone, (v.sound i).loud (inl fire)))),
          ground (arith, (v.sound i).loud (inl fire)),
        )
      ]
