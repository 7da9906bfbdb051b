-- ===== src/StateStore/Async.antt =====
-- pkg/common/statestore/async_json_file.go: the state in memory, and its routine that writes it to
-- the file at every tick.
pub mod Cell
pub mod Durable
use govnilo.Prelude.{List, [], ◌∷◌, Option, none, some, String, ◌⊎◌, inl, inr}
use govnilo.StateStore.{
  FileSystem, Json, Error, SyncJsonFile, retrieve_state, update_state, cannot_change, cannot_start,
}

pub record AsyncJsonFile (T : Type 0) : Type 0 where
  pub last_state : T
  pub sync_state : SyncJsonFile T

abbrev pub wrap_change : {E : Type 0} → Option E → Option (Error E)
wrap_change none = none
wrap_change (some e) = some (cannot_change e)

-- `UpdateState` changes the state in place, and wraps the error.
unfoldable pub update :
    {T E : Type 0} → (T → T × Option E) → AsyncJsonFile T → AsyncJsonFile T × Option (Error E)
update f a = let (t, e) = f a.last_state in (record a { last_state = t }, wrap_change e)

module _ {T D E : Type 0} (fs : FileSystem D E) (json : Json T D E) where
  unfoldable pub start_with :
      SyncJsonFile T → fs.S × (Error E ⊎ T) → fs.S × (Error E ⊎ AsyncJsonFile T)
  start_with j (s, inl e) = (s, inl (cannot_start e))
  start_with j (s, inr t) = (s, inr (record { last_state = t; sync_state = j }))

  -- `NewAsyncJsonFile`
  unfoldable pub new_async : SyncJsonFile T → fs.S → fs.S × (Error E ⊎ AsyncJsonFile T)
  unfolding start_with
  new_async j s = start_with j (retrieve_state fs json j s)

  -- `sync`: the state in the file is overwritten by the one in memory.
  unfoldable pub sync : AsyncJsonFile T → fs.S → fs.S × Option (Error E)
  sync a s = update_state fs json a.sync_state (λ _. (a.last_state, none)) s

  -- What happens to a store: the calls of its methods, and the ticks of `syncRoutine`.
  pub data Event : Type 0 where
    retrieves flushes ticks : Event
    updates : (T → T × Option E) → Event

  pub data Reply : Type 0 where
    retrieved : T → Reply
    updated flushed : Option (Error E) → Reply

  -- The error of a tick is only logged.
  unfoldable pub run : List Event → AsyncJsonFile T → fs.S → (AsyncJsonFile T × fs.S) × List Reply
  unfolding update sync
  run [] a s = ((a, s), [])
  run (retrieves ∷ es) a s = let (end, rs) = run es a s in (end, retrieved a.last_state ∷ rs)
  run (updates f ∷ es) a s =
      let (a', e) = update f a in let (end, rs) = run es a' s in (end, updated e ∷ rs)
  run (flushes ∷ es) a s =
      let (s', e) = sync a s in let (end, rs) = run es a s' in (end, flushed e ∷ rs)
  run (ticks ∷ es) a s = let (s', _) = sync a s in run es a s'
