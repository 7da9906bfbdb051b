-- ===== src/Examples/Stores.antt =====
-- The stores of states, on the file system of Disk.
use govnilo.Prelude.{
  ℕ, ◌+◌, ◌≡◌, refl, List, [], ◌∷◌, Option, none, some, inr, ◌==◌, nat_eq, false, arith,
}
use govnilo.StateStore.{Error, update_state, retrieve_state, cannot_change}
use govnilo.StateStore.Atomic.{update_state_atomic, stored}
use govnilo.StateStore.Async.{
  AsyncJsonFile, Event, retrieves, updates, flushes, ticks, retrieved, updated, run, sync,
  new_async,
}
use govnilo.StateStore.Async.Cell.{cell, heard, run_refines}
use govnilo.StateStore.Async.Durable.{new_async-sync}
use govnilo.Examples.Disk.{Disk, disk, disk_laws, json, file, put}

abbrev start : Disk
start q = none

abbrev add_five : ℕ → ℕ × Option ℕ
add_five n = (n + 5, none)

abbrev spoil : ℕ → ℕ × Option ℕ
spoil n = (0, some 4)

-- From the default 10.
update_state_test : (update_state disk json file add_five start).0 "state.json" ≡ some (some 15)
unfolding update_state retrieve_state put
update_state_test = refl

update_state_atomic_example :
    let (s', e) = update_state disk json file add_five start in
    (e ≡ none
      → (t : ℕ) × (d : Option ℕ) × (stored json file disk_laws start ≡ inr t)
        × ((add_five t).1 ≡ none)
        × (json.encode (add_five t).0 ≡ inr d)
        × (s' "state.json" ≡ some d))
    × ((x : Error ℕ)
        → e ≡ some x
        → stored json file disk_laws s' ≡ stored json file disk_laws start)
update_state_atomic_example = update_state_atomic json file disk_laws add_five start

abbrev memory : AsyncJsonFile ℕ
memory = record { last_state = 10; sync_state = file }

abbrev events : List (Event disk json)
events = updates add_five ∷ ticks ∷ updates spoil ∷ retrieves ∷ flushes ∷ []

cell_test :
    cell disk json events 10
    ≡ (0, updated none ∷ updated (some (cannot_change 4)) ∷ retrieved 0 ∷ [])
unfolding cell
cell_test = refl

run_refines_example :
    let ((a', _), rs) = run disk json events memory start in
    (a'.last_state ≡ (cell disk json events 10).0)
    × (heard disk json rs ≡ (cell disk json events 10).1)
    × (a'.sync_state ≡ file)
run_refines_example = run_refines disk json events memory start

round_trip :
    (t : ℕ) (d : Option ℕ)
    → json.encode t ≡ inr d
    → ((disk_laws.size d == 0) ≡ false) × (json.decode d 10 ≡ inr t)
round_trip t none h = ground arith
round_trip t (some n) h = let same : t ≡ n = cc h in (refl, rw same refl)

abbrev used : AsyncJsonFile ℕ
used = record { last_state = 25; sync_state = file }

flush_ok : (sync disk json used start).1 ≡ none
unfolding sync update_state put retrieve_state
flush_ok = refl

restarted : (new_async disk json file (sync disk json used start).0).1 ≡ inr used
unfolding new_async sync update_state put retrieve_state
restarted = refl

new_async-sync_example : used.last_state ≡ 25
new_async-sync_example = new_async-sync json used disk_laws round_trip start used flush_ok restarted
