-- ===== src/TaskRunner/Loops.antt =====
-- The loops of `UpdateTaskInstances` in closed form.
use govnilo.Prelude.{
  ℕ, zero, suc, ◌+◌, ◌-◌, ◌≤◌, ◌==◌, ◌≡◌, refl, sym, ap, ◌∙◌, nat_eq, string_eq, Bool, true, false,
  ◌&&◌, ◌||◌, ltb, leb, if◌then◌else◌, List, [], ◌∷◌, ◌++◌, reverse, length, take, drop, split_last,
  split_last-snoc, take-append-drop, length-drop, length-reverse, none, some, String, ok, err,
  arith,
}
use mathlib.Core.Path.{subst₂}
use mathlib.Core.List.{append-nil, append_assoc, reverse-cons, reverse-reverse}
use native.Mathlib.Nat.{add-zero}
use govnilo.TaskRunner.{
  Instance, Waits, update, stop_flags, stop_returns, count_error, fresh, start_loop, stop_loop,
  stop_outcome, cannot_stop,
}

abbrev pub elem : ℕ → List ℕ → Bool
elem p [] = false
elem p (q ∷ qs) = q == p || elem p qs

-- How many of the instances do not stop in time.
unfoldable pub failures : Waits → List ℕ → ℕ
unfolding stop_returns
failures w [] = 0
failures w (p ∷ ps) = if stop_returns w p then failures w ps else suc (failures w ps)

pub failures-append :
    (w : Waits) (ps qs : List ℕ) → failures w (ps ++ qs) ≡ failures w ps + failures w qs
unfolding failures
failures-append w [] qs = omega arith
failures-append w (p ∷ ps) qs = ground (arith, failures-append w ps qs)

pub failures-reverse : (w : Waits) (ps : List ℕ) → failures w (reverse ps) ≡ failures w ps
unfolding failures
failures-reverse w [] = refl
failures-reverse w (p ∷ ps) =
    rw (reverse-cons p ps, failures-append w (reverse ps) (p ∷ []), failures-reverse w ps)
      (ground arith)

pub elem-append : (q : ℕ) (ps rs : List ℕ) → elem q (ps ++ rs) ≡ (elem q ps || elem q rs)
elem-append q [] rs = refl
elem-append q (p ∷ ps) rs = ground (arith, elem-append q ps rs)

pub elem-reverse : (q : ℕ) (ps : List ℕ) → elem q (reverse ps) ≡ elem q ps
elem-reverse q [] = refl
elem-reverse q (p ∷ ps) =
    rw (reverse-cons p ps, elem-append q (reverse ps) (p ∷ []), elem-reverse q ps) (ground arith)

-- The flags of every instance of a list are up.
unfoldable pub flag_all : List ℕ → (ℕ → Instance) → ℕ → Instance
unfolding stop_flags
flag_all [] heap = heap
flag_all (p ∷ ps) heap = flag_all ps (stop_flags heap p)

pub flag_all_lem :
    (ps : List ℕ) (heap : ℕ → Instance) (q : ℕ)
    → flag_all ps heap q
      ≡ (if elem q ps then record { stopped = true; cancelled = true } else heap q)
unfolding flag_all stop_flags
flag_all_lem [] heap q = refl
flag_all_lem (p ∷ ps) heap q = ground (arith, flag_all_lem ps (stop_flags heap p) q)

pub stop_loop_lem :
    (w : Waits) (keep gone : List ℕ) (heap : ℕ → Instance) (errors : ℕ)
    → stop_loop w (length gone) (keep ++ reverse gone) heap errors
      ≡ (keep, flag_all gone heap, some (errors + failures w gone))
unfolding stop_loop flag_all failures count_error
stop_loop_lem w keep [] heap errors = simp (append-nil, add-zero)
stop_loop_lem w keep (p ∷ gone) heap errors =
    rw (reverse-cons p gone, ← append_assoc keep (reverse gone) (p ∷ []))
      (rw (split_last-snoc (keep ++ reverse gone) p, stop_loop)
        (stop_loop_lem w keep gone (stop_flags heap p) (count_error w p errors)
          ∙ ap (λ n. (keep, flag_all gone (stop_flags heap p), some n)) (ground arith)))

pub start_loop_lem :
    (n : ℕ) (heap : ℕ → Instance) (next : ℕ) (instances : List ℕ)
    → (start_loop n heap next instances).0 ≡ instances ++ fresh next n
unfolding start_loop fresh
start_loop_lem zero heap next instances = sym (append-nil instances)
start_loop_lem (suc n) heap next instances =
    start_loop_lem n _ (suc next) (instances ++ next ∷ [])
    ∙ append_assoc instances (next ∷ []) (fresh (suc next) n)

pub start_loop_next :
    (n : ℕ) (heap : ℕ → Instance) (next : ℕ) (instances : List ℕ)
    → (start_loop n heap next instances).2 ≡ next + n
unfolding start_loop
start_loop_next zero heap next instances = omega arith
start_loop_next (suc n) heap next instances = omega (
  arith,
  start_loop_next n (update heap next (record { stopped = false; cancelled = false })) (suc next)
      (instances ++ next ∷ []),
)

pub start_loop_heap :
    (n : ℕ) (heap : ℕ → Instance) (next : ℕ) (instances : List ℕ) (q : ℕ)
    → (start_loop n heap next instances).1 q ≡ (
        if leb next q && ltb q (next + n)
        then record { stopped = false; cancelled = false }
        else heap q)
unfolding start_loop
start_loop_heap zero heap next instances q = ground arith
start_loop_heap (suc n) heap next instances q = ground (
  arith,
  start_loop_heap n (update heap next (record { stopped = false; cancelled = false })) (suc next)
      (instances ++ next ∷ []) q,
)

pub length-fresh : (next n : ℕ) → length (fresh next n) ≡ n
unfolding fresh
length-fresh next zero = refl
length-fresh next (suc n) = omega (arith, length-fresh (suc next) n)

pub take_all : (ps : List ℕ) → take (length ps) ps ≡ ps
take_all [] = refl
take_all (p ∷ ps) = ap (◌∷◌ p) (take_all ps)

pub drop_all : (ps : List ℕ) → drop (length ps) ps ≡ []
drop_all [] = refl
drop_all (p ∷ ps) = drop_all ps

-- The loop that stops instances, on any list: the first `n` are kept.
pub stop_loop-drop :
    (w : Waits) (n : ℕ) (ps : List ℕ) (heap : ℕ → Instance)
    → n ≤ length ps
    → stop_loop w (length ps - n) ps heap 0
      ≡ (take n ps, flag_all (reverse (drop n ps)) heap, some (failures w (drop n ps)))
stop_loop-drop w n ps heap h =
    subst₂
      (λ k l.
        stop_loop w k l heap 0
        ≡ (take n ps, flag_all (reverse (drop n ps)) heap, some (failures w (drop n ps))))
      (length-reverse (drop n ps) ∙ length-drop n ps)
      (ap (◌++◌ (take n ps)) (reverse-reverse (drop n ps)) ∙ take-append-drop n ps)
      (stop_loop_lem w (take n ps) (reverse (drop n ps)) heap 0
        ∙ ap (λ k. (take n ps, flag_all (reverse (drop n ps)) heap, some k))
            (omega (arith, failures-reverse w (drop n ps))))

-- The loop that stops more instances than there are runs out of them.
stop_loop_empty :
    (w : Waits) (n : ℕ) (heap : ℕ → Instance) (errors : ℕ)
    → (stop_loop w (suc n) [] heap errors).2 ≡ none
unfolding stop_loop split_last
stop_loop_empty w n heap errors = refl

stop_loop_short :
    (w : Waits) (gone : List ℕ) (n : ℕ) (heap : ℕ → Instance) (errors : ℕ)
    → (stop_loop w (suc (length gone + n)) (reverse gone) heap errors).2 ≡ none
unfolding stop_loop split_last
stop_loop_short w [] n heap errors = refl
stop_loop_short w (p ∷ gone) n heap errors =
    let count : length (p ∷ gone) + n ≡ suc (length gone + n) = omega arith in
    rw (reverse-cons p gone, split_last-snoc (reverse gone) p, stop_loop)
      (rw count (stop_loop_short w gone n (stop_flags heap p) (count_error w p errors)))

pub stop_loop_overrun :
    (w : Waits) (ps : List ℕ) (n : ℕ) (heap : ℕ → Instance) (errors : ℕ)
    → (stop_loop w (length ps + n + 1) ps heap errors).2 ≡ none
stop_loop_overrun w ps n heap errors =
    subst₂ (λ k l. (stop_loop w k l heap errors).2 ≡ none) (omega (arith, length-reverse ps))
      (reverse-reverse ps) (stop_loop_short w (reverse ps) n heap errors)

pub stop_outcome_lem :
    (name : String) (n e : ℕ)
    → stop_outcome name n (some e) ≡ (if e == 0 then ok tt else err (cannot_stop e n name))
unfolding stop_outcome
stop_outcome_lem name n zero = refl
stop_outcome_lem name n (suc e) = ground arith
