-- ===== src/StateStore/Async/Durable.antt =====
-- What a flush makes durable.
use govnilo.Prelude.{
  ◌==◌, ◌≡◌, refl, sym, ap, ◌∙◌, nat_eq, false, if◌then◌else◌, none, ◌⊎◌, inl, inr, arith,
}
use govnilo.StateStore.{FileSystem, Json, Error, SyncJsonFile, retrieve_state}
use govnilo.StateStore.Laws.{Documented}
use govnilo.StateStore.Atomic.{update_state_atomic, retrieve_state-Retrieved, state_of, stored}
use govnilo.StateStore.Async.{AsyncJsonFile, start_with, new_async, sync}

module _ {T D E : Type 0} {fs : FileSystem D E} (json : Json T D E) (a : AsyncJsonFile T)
    (laws : Documented fs)
    -- An encoding is not empty, and is decoded to what was encoded.
    (round_trip : (t : T) (d : D)
      → json.encode t ≡ inr d
      → ((laws.size d == 0) ≡ false) × (json.decode d a.sync_state.default_val ≡ inr t)) where
  start_with-inr :
      (j : SyncJsonFile T) (r : fs.S × (Error E ⊎ T)) (t : T)
      → ((u : T) → r.1 ≡ inr u → u ≡ t)
      → (b : AsyncJsonFile T) → (start_with fs json j r).1 ≡ inr b
      → b.last_state ≡ t
  unfolding start_with
  start_with-inr j (s, inl e) t is b h = ground arith
  start_with-inr j (s, inr u) t is b h =
      let it : record { last_state = u; sync_state = j } ≡ b = cc h in
      sym (ap (λ (x : AsyncJsonFile T). x.last_state) it) ∙ is u refl

  -- On a file system that does what its documentation says, and with encodings that are not empty and
  -- decode to what was encoded, a flush that returns nil is durable: a store that is started on the
  -- file afterwards has the state that was in memory.
  pub new_async-sync :
      (s : fs.S) (b : AsyncJsonFile T)
      → (sync fs json a s).1 ≡ none
      → (new_async fs json a.sync_state (sync fs json a s).0).1 ≡ inr b
      → b.last_state ≡ a.last_state
  unfolding sync new_async
  new_async-sync s b flushed started =
      let s' = (sync fs json a s).0 in
      let (_, d, _, _, coded, holds) =
        (update_state_atomic json a.sync_state laws (λ _. (a.last_state, none)) s).0 flushed in
      let (full, back) = round_trip a.last_state d coded in
      let kept : stored json a.sync_state laws s' ≡ inr a.last_state =
        ap (state_of json a.sync_state laws) holds
        ∙ ap
            (λ c.
              if c then inr a.sync_state.default_val else json.decode d a.sync_state.default_val)
            full
        ∙ back in
      start_with-inr a.sync_state (retrieve_state fs json a.sync_state s') a.last_state
        (λ u h.
          let both : ◌≡◌ {A = E ⊎ T} (inr u) (inr a.last_state) =
            sym ((retrieve_state-Retrieved json a.sync_state laws s').1 u h).0 ∙ kept in
          cc both)
        b started
