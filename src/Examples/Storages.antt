-- ===== src/Examples/Storages.antt =====
-- Users of a shop, stored in Redis for a minute.
use govnilo.Prelude.{
  All, ℕ, pos, ◌≡◌, refl, sym, ap, List, [], ◌∷◌, inr, ◌≢◌, ne_of_beq, string_eq, ◌⊎◌, true,
  if◌then◌else◌, none, some, String, ok, err, arith,
}
use govnilo.RedisBase.{
  cannot_get, Storage, StorageInput, key_for, new_storage, made_storage, save, get_by_id,
  get_random, delete, get_most_recent, cleanup_expired, not_found,
}
use govnilo.RedisBase.Keys.{IsReady, new_storage_outcome}
use govnilo.RedisBase.Store.{get_by_id-save, save_others}
use govnilo.RedisBase.Removal.{delete_exp, cleanup_expired-keeps}
use govnilo.RedisBase.Calls.{
  Call, saves, deletes, finds, draws, newest, cleans, run_calls, AreAllowed, wrote, found,
}
use govnilo.RedisBase.Views.{view, IsReadable}
use govnilo.RedisBase.Whole.{run_calls-AreAllowed}
use govnilo.RedisBase.Saved.{OfFound, SomeSaves, run_calls_saved}
use govnilo.RedisClient.{hooked}
use govnilo.RedisClient.Answers.{run_calls-hooked}
use govnilo.Examples.Server.{Server, server, entity, server_laws}

abbrev pub input : StorageInput
input = record {
  service_name = "shop";
  entity_name_plural = "users";
  ttl = pos 60_000_000_000;
  cleanup_interval = pos 0;
  cleanup_batch_size = pos 0;
  has_client = true;
}

abbrev pub users : Storage
users = made_storage input

abbrev ann : String × ℕ
ann = ("a", 7)

abbrev empty : Server
empty = ((λ k. none), λ k m. none)

abbrev with_ann : Server
with_ann = (save server entity users ann 100 empty).0

pub users-IsReady : IsReady users
unfolding new_storage
users-IsReady = (new_storage_outcome {E = ℕ} input users refl).3

saved : (save server entity users ann 100 empty).1 ≡ ok tt
unfolding save
saved = refl

get_by_id-save_example :
    let (s', _) = save server entity users ann 100 empty in
    let (s'', answer) = get_by_id server entity users "a" s' in
    ((answer ≡ ok ann) ⊎ (answer ≡ err not_found) ⊎ ((e : ℕ) × (answer ≡ err (cannot_get e))))
    × ((s''.0) (key_for users "a") ≢ none
        → (answer ≡ ok ann) ⊎ ((e : ℕ) × (answer ≡ err (cannot_get e))))
get_by_id-save_example =
    get_by_id-save entity users server_laws ann ann 100 empty (ne_of_beq "a" "" refl) refl saved
      refl

save_others_example :
    let (s', _) = save server entity users ann 100 empty in
    (((s'.0) (key_for users "b") ≡ none) ⊎ ((s'.0) (key_for users "b") ≡ none))
    × (◌≢◌ {A = String} "a" "exp"
        → ((s'.1) users.exp_z_set_key "a" ≡ some 100) × ((s'.1) users.exp_z_set_key "b" ≡ none))
save_others_example =
    save_others entity users server_laws ann ann 100 empty (ne_of_beq "a" "" refl) refl saved
      users-IsReady "b" (ne_of_beq "a" "b" refl)

deleted : (delete server entity users "a" with_ann).1 ≡ ok tt
unfolding delete
deleted = refl

deleted_exp : (delete server entity users "exp" with_ann).1 ≡ ok tt
unfolding delete
deleted_exp = refl

delete_exp_example :
    ((delete server entity users "exp" with_ann).0.1) users.exp_z_set_key "a" ≡ none
delete_exp_example = delete_exp entity users server_laws with_ann users-IsReady deleted_exp "a"

tracked : (with_ann.1) users.exp_z_set_key "a" ≡ some 100
unfolding save made_storage
tracked = refl

lives : users.ttl ≡ pos 60_000_000_000
unfolding made_storage
lives = refl

cleaned : (cleanup_expired server entity users 150 (pos 10) with_ann).1 ≡ ok tt
unfolding cleanup_expired save made_storage
cleaned = refl

cleanup_expired-keeps_example :
    ((cleanup_expired server entity users 150 (pos 10) with_ann).0.1) users.exp_z_set_key "a"
    ≡ some 100
cleanup_expired-keeps_example =
    cleanup_expired-keeps entity users server_laws with_ann 150 60_000_000_000 100 (pos 10) "a"
      lives tracked (omega arith) cleaned

-- The attempt finds the entity.
get_random_test : (get_random server entity users with_ann).1 ≡ ok ann
unfolding get_random save made_storage
get_random_test = refl

at_rest : users.routines ≡ (if users.cleanup_cancel then 1 else 0)
unfolding made_storage
at_rest = refl

abbrev visits : List (Call (String × ℕ))
visits =
    saves ann 100 ∷ finds "a" ∷ cleans 150 (pos 10) ∷ draws ∷ deletes "a" ∷ finds "a" ∷ newest ∷ []

-- What the calls answer.
visits_test :
    (run_calls server entity users visits empty).1
    ≡ wrote (ok tt)
      ∷ found (ok ann)
      ∷ wrote (ok tt)
      ∷ found (ok ann)
      ∷ wrote (ok tt)
      ∷ found (err not_found)
      ∷ found (err not_found)
      ∷ []
unfolding run_calls save get_by_id cleanup_expired get_random delete get_most_recent made_storage
visits_test = refl

empty-IsReadable : IsReadable entity users server_laws empty
empty-IsReadable id d held = ground arith

recodes : (x d : String × ℕ) → entity.encode x ≡ inr d → entity.decode d ≡ inr x
recodes x d coded = let same : x ≡ d = cc coded in ap inr (sym same)

run_calls-AreAllowed_example :
    let (s', answers) = run_calls server entity users visits empty in
    AreAllowed entity
      (view entity users server_laws s')
      (view entity users server_laws empty)
      visits
      answers
run_calls-AreAllowed_example =
    run_calls-AreAllowed entity users server_laws recodes visits empty empty-IsReadable

run_calls-hooked_example :
    let ((s', _), answers) = run_calls (hooked server) entity users visits (empty, []) in
    (s', answers) ≡ run_calls server entity users visits empty
run_calls-hooked_example = run_calls-hooked server entity users visits empty []

nothing : (id : String) → (empty.0) (key_for users id) ≡ none
nothing id = refl

run_calls_saved_example :
    All (OfFound (λ x. SomeSaves x visits)) (run_calls server entity users visits empty).1
run_calls_saved_example = run_calls_saved entity users server_laws recodes visits empty nothing
