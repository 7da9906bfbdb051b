-- ===== src/TaskRunner/Shutdown.antt =====
-- What `Stop` does to every instance.
use govnilo.Prelude.{
  ℕ, zero, suc, ◌+◌, ◌==◌, ◌≡◌, refl, ap, ◌∙◌, nat_eq, string_eq, true, if◌then◌else◌, List, [],
  ◌∷◌, ◌++◌, String, ok, err, arith,
}
use govnilo.TaskRunner.{
  Instance, TaskRunner, Waits, cannot_stop_all, stop, stop_tasks, stop_each, stop_flags,
  count_error, stop_all_outcome,
}
use govnilo.TaskRunner.Loops.{elem, elem-append, failures, failures-append, flag_all, flag_all_lem}

-- The instances of all tasks, one task after the other.
unfoldable pub all_ids : List (String × List ℕ) → List ℕ
all_ids [] = []
all_ids ((name, ids) ∷ states) = ids ++ all_ids states

stop_each_lem :
    (w : Waits) (ids : List ℕ) (heap : ℕ → Instance) (errors : ℕ)
    → stop_each w ids heap errors ≡ (flag_all ids heap, errors + failures w ids)
unfolding stop_each flag_all failures count_error
stop_each_lem w [] heap errors = ap (λ n. (heap, n)) (omega arith)
stop_each_lem w (p ∷ ids) heap errors =
    stop_each_lem w ids (stop_flags heap p) (count_error w p errors)
    ∙ ap (λ n. (flag_all ids (stop_flags heap p), n)) (ground arith)

stop_tasks_heap :
    (w : Waits) (states : List (String × List ℕ)) (heap : ℕ → Instance) (errors q : ℕ)
    → (stop_tasks w states heap errors).0 q
      ≡ (if elem q (all_ids states) then record { stopped = true; cancelled = true } else heap q)
unfolding stop_tasks all_ids
stop_tasks_heap w [] heap errors q = refl
stop_tasks_heap w ((name, ids) ∷ states) heap errors q =
    rw (stop_each_lem w ids heap errors, stop_tasks)
      (ground (
        arith,
        stop_tasks_heap w states (flag_all ids heap) (errors + failures w ids) q,
        flag_all_lem ids heap q,
        elem-append q ids (all_ids states),
      ))

stop_tasks_errors :
    (w : Waits) (states : List (String × List ℕ)) (heap : ℕ → Instance) (errors : ℕ)
    → (stop_tasks w states heap errors).1 ≡ errors + failures w (all_ids states)
unfolding stop_tasks all_ids
stop_tasks_errors w [] heap errors = unfold failures in omega arith
stop_tasks_errors w ((name, ids) ∷ states) heap errors =
    rw (stop_each_lem w ids heap errors, stop_tasks)
      (omega (
        arith,
        stop_tasks_errors w states (flag_all ids heap) (errors + failures w ids),
        failures-append w ids (all_ids states),
      ))

stop_all_outcome_lem :
    (e : ℕ) → stop_all_outcome e ≡ (if e == 0 then ok tt else err (cannot_stop_all e))
unfolding stop_all_outcome
stop_all_outcome_lem zero = refl
stop_all_outcome_lem (suc e) = ground arith

-- `Stop` raises the flags of every instance that some task holds, and of no other, also where
-- waits fail; it returns nil exactly if none failed, and else an error with how many did.
pub stop_all :
    {T : Type 0} (w : Waits) (r : TaskRunner T)
    → let (r', outcome) = stop w r in
      let e = failures w (all_ids r.states) in
      (outcome ≡ (if e == 0 then ok tt else err (cannot_stop_all e)))
      × ((q : ℕ)
          → r'.heap q ≡ (
              if elem q (all_ids r.states)
              then record { stopped = true; cancelled = true }
              else r.heap q))
unfolding stop
stop_all w r = (
  ap stop_all_outcome (stop_tasks_errors w r.states r.heap 0 ∙ omega arith)
      ∙ stop_all_outcome_lem (failures w (all_ids r.states)),
  stop_tasks_heap w r.states r.heap 0,
)
