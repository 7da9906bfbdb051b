-- ===== src/StateStore/Async/Cell.antt =====
-- The store as a variable in memory: what a caller sees of it.
use govnilo.Prelude.{◌≡◌, refl, ap, List, [], ◌∷◌}
use govnilo.StateStore.{FileSystem, Json}
use govnilo.StateStore.Async.{
  AsyncJsonFile, wrap_change, update, sync, Event, retrieves, flushes, ticks, updates, Reply,
  retrieved, updated, flushed, run,
}

module _ {T D E : Type 0} (fs : FileSystem D E) (json : Json T D E) where
  -- The same events on a variable, without a file.
  unfoldable pub cell : List (Event fs json) → T → T × List (Reply fs json)
  cell [] t = (t, [])
  cell (retrieves ∷ es) t = let (end, rs) = cell es t in (end, retrieved t ∷ rs)
  cell (updates f ∷ es) t =
      let (t', e) = f t in let (end, rs) = cell es t' in (end, updated (wrap_change e) ∷ rs)
  cell (flushes ∷ es) t = cell es t
  cell (ticks ∷ es) t = cell es t

  -- The replies to `RetrieveState` and `UpdateState`.
  unfoldable pub heard : List (Reply fs json) → List (Reply fs json)
  heard [] = []
  heard (retrieved t ∷ rs) = retrieved t ∷ heard rs
  heard (updated e ∷ rs) = updated e ∷ heard rs
  heard (flushed e ∷ rs) = heard rs

  -- Whatever the file system does at the flushes and ticks in between, callers of `RetrieveState` and
  -- `UpdateState` hear what a variable in memory would answer, and the state is that of the variable;
  -- as there, an update that fails keeps what its function changed.
  pub run_refines :
      (es : List (Event fs json)) (a : AsyncJsonFile T) (s : fs.S)
      → let ((a', _), rs) = run fs json es a s in
        (a'.last_state ≡ (cell es a.last_state).0)
        × (heard rs ≡ (cell es a.last_state).1)
        × (a'.sync_state ≡ a.sync_state)
  unfolding run cell heard update
  run_refines [] a s = (refl, refl, refl)
  run_refines (retrieves ∷ es) a s =
      let (same, hears, file) = run_refines es a s in
      (same, ap (◌∷◌ (retrieved a.last_state)) hears, file)
  run_refines (updates f ∷ es) a s =
      let (t, e) = f a.last_state in
      let (same, hears, file) = run_refines es (record a { last_state = t }) s in
      (same, ap (◌∷◌ (updated (wrap_change e))) hears, file)
  run_refines (flushes ∷ es) a s = run_refines es a (sync fs json a s).0
  run_refines (ticks ∷ es) a s = run_refines es a (sync fs json a s).0
