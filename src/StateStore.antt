-- ===== src/StateStore.antt =====
-- pkg/common/statestore: a state kept in a JSON file (sync_json_file.go), and one kept in memory and
-- written to such a file from time to time (async_json_file.go). The file system and the JSON
-- encoding are parameters (StateStore/Files.antt). A function that changes the state in place
-- returns the changed state, and its error if it has one. A mutex makes each method one operation.
mod Files
pub mod Laws
pub mod Atomic
pub mod Async
use govnilo.Prelude.{
  ℕ, ◌==◌, nat_eq, Bool, if◌then◌else◌, List, Option, none, some, String, ◌⊎◌, inl, inr,
}
unfoldable pub use Files.*

pub data Error (E : Type 0) : Type 0 where
  cannot_open cannot_stat cannot_decode : E → Error E
  cannot_change cannot_encode cannot_create_temp cannot_rename : E → Error E
  cannot_retrieve : Error E → Error E  -- "cannot retrieve state for following changes"
  cannot_start : Error E → Error E

pub record SyncJsonFile (T : Type 0) : Type 0 where
  pub path : String
  pub default_val : T

module _ {T D E : Type 0} (fs : FileSystem D E) (json : Json T D E) (j : SyncJsonFile T) where
  open fs use {S}

  abbrev pub wrap_decoded : E ⊎ T → Error E ⊎ T
  wrap_decoded (inl e) = inl (cannot_decode e)
  wrap_decoded (inr t) = inr t

  unfoldable pub decode_read : S × (E ⊎ D) → S × (Error E ⊎ T)
  decode_read (s, inl e) = (s, inl (cannot_decode e))
  decode_read (s, inr d) = (s, wrap_decoded (json.decode d j.default_val))

  -- An empty file leaves the default.
  unfoldable pub read_sized : S × (E ⊎ ℕ) → S × (Error E ⊎ T)
  unfolding decode_read
  read_sized (s, inl e) = (s, inl (cannot_stat e))
  read_sized (s, inr size) =
      if size == 0 then (s, inr j.default_val) else decode_read (fs.read j.path s)

  unfoldable pub read_opened : S × Option E → S × (Error E ⊎ T)
  unfolding read_sized
  read_opened (s, some e) = (s, inl (cannot_open e))
  read_opened (s, none) = read_sized (fs.stat_size j.path s)

  -- `retrieveState`, with the file opened by `operationWithFile`.
  unfoldable pub retrieve_state : S → S × (Error E ⊎ T)
  unfolding read_opened
  retrieve_state s = read_opened (fs.open_or_create j.path s)

  unfoldable pub renamed : S × Option E → S × Option (Error E)
  renamed (s, none) = (s, none)
  renamed (s, some e) = (s, some (cannot_rename e))

  unfoldable pub move_written : String → S × Option E → S × Option (Error E)
  unfolding renamed
  move_written name (s, some e) = (s, some (cannot_encode e))
  move_written name (s, none) = renamed (fs.rename name j.path s)

  -- `Encode` writes only what it could encode.
  unfoldable pub write_encoded : String → E ⊎ D → S → S × Option (Error E)
  unfolding move_written
  write_encoded name (inl e) s = (s, some (cannot_encode e))
  write_encoded name (inr d) s = move_written name (fs.write name d s)

  unfoldable pub write_created : T → S × (E ⊎ String) → S × Option (Error E)
  unfolding write_encoded
  write_created t (s, inl e) = (s, some (cannot_create_temp e))
  write_created t (s, inr name) = write_encoded name (json.encode t) s

  -- `writeStateToTemp` and the renaming.
  unfoldable pub replace_file : T → S → S × Option (Error E)
  unfolding write_created
  replace_file t s = write_created t (fs.create_temp (fs.dir_of j.path) "__json_file_storage" s)

  unfoldable pub write_changed : T × Option E → S → S × Option (Error E)
  unfolding replace_file
  write_changed (t, some e) s = (s, some (cannot_change e))
  write_changed (t, none) s = replace_file t s

  unfoldable pub change_retrieved : (T → T × Option E) → S × (Error E ⊎ T) → S × Option (Error E)
  unfolding write_changed
  change_retrieved f (s, inl e) = (s, some (cannot_retrieve e))
  change_retrieved f (s, inr t) = write_changed (f t) s

  unfoldable pub update_state : (T → T × Option E) → S → S × Option (Error E)
  unfolding change_retrieved
  update_state f s = change_retrieved f (retrieve_state s)
