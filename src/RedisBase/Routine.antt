-- ===== src/RedisBase/Routine.antt =====
-- The cleanup goroutine.
use govnilo.Prelude.{◌≡◌, Bool, true, false, if◌then◌else◌, List, [], ◌∷◌, arith}
use govnilo.RedisBase.{Storage, start_cleanup, stop_cleanup}

-- `Start` and `Stop`, one after the other: true is a `Start`.
unfoldable pub run : Storage → List Bool → Storage
unfolding start_cleanup stop_cleanup
run st [] = st
run st (true ∷ calls) = run (start_cleanup st) calls
run st (false ∷ calls) = run (stop_cleanup st) calls

-- Whatever the calls of `Start` and `Stop`, one cleanup goroutine runs while the storage has the
-- means to cancel it, and none while it does not.
pub run_routines :
    (calls : List Bool) (st : Storage)
    → st.routines ≡ (if st.cleanup_cancel then 1 else 0)
    → (run st calls).routines ≡ (if (run st calls).cleanup_cancel then 1 else 0)
unfolding run
run_routines [] st h = h
run_routines (true ∷ calls) st h = run_routines calls (start_cleanup st) (ground arith)
run_routines (false ∷ calls) st h = run_routines calls (stop_cleanup st) (ground arith)
