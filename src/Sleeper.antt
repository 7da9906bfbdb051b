-- ===== src/Sleeper.antt =====
-- _example/checkers/sleeper: two checkers that the repository gives as an example of its use. One
-- stores an entity in Redis (sleeperput.go), the other looks for one (sleeperget.go), by a storage of
-- their own (sleeperstorage.go). Neither calls the target. The trace id and the time that
-- `time.Now().String()` gives are arguments, encoding/json is a parameter.
pub mod Counted
use govnilo.Prelude.{ℕ, pos, ◌≡◌, Bool, true, false, String, Outcome, ok, err, panic}
use govnilo.StateStore.{Json}
use govnilo.RedisBase.{
  Redis, Entity, Storage, StorageInput, Error, new_storage, save, get_random, not_found,
}
use govnilo.CheckerCtrl.Helpers.{CheckerId}
use govnilo.CheckerCtrl.Task.{CheckResult, succeeded, panicked, failed}

pub record SleeperEntity : Type 0 where
  pub id : String
  pub value : String

-- `new(SleeperEntity)`.
abbrev pub zero_entity : SleeperEntity
zero_entity = record { id = ""; value = "" }

module _ {D E : Type 0} (json : Json SleeperEntity D E) where
  abbrev pub sleeper_entity : Entity SleeperEntity D E
  sleeper_entity = record {
    get_id = λ e. e.id;
    encode = json.encode;
    decode = λ data'. json.decode data' zero_entity;
  }

abbrev pub sleeper_input : Bool → StorageInput
sleeper_input has_client = record {
  service_name = "example";
  entity_name_plural = "sleepers";
  ttl = pos 3_600_000_000_000;
  cleanup_interval = pos 1_000_000_000;
  cleanup_batch_size = pos 1_000;
  has_client = has_client;
}

pub data StorageError (E : Type 0) : Type 0 where
  cannot_create : Error E → StorageError E

created : {E : Type 0} → Outcome (Error E) Storage → Outcome (StorageError E) Storage
created (ok st) = ok st
created (err e) = err (cannot_create e)
created panic = panic

-- `NewSleeperStorage`, which does not start the storage.
pub new_sleeper_storage : {E : Type 0} → Bool → Outcome (StorageError E) Storage
unfolding created
new_sleeper_storage has_client = created (new_storage (sleeper_input has_client))

-- `no_entity` is wrapped in `InternalError`.
pub data CheckError (E : Type 0) : Type 0 where
  cannot_save_entity no_entity cannot_get_entity : Error E → CheckError E

-- What the get checker makes of an error, by `errors.Is(err, ErrNotFound)`.
abbrev pub missing_error : {E : Type 0} → Error E → CheckError E
missing_error not_found = no_entity not_found
missing_error e = cannot_get_entity e

-- The results of the checks.
checked :
    {T E : Type 0}
    → (Error E → CheckError E)
    → Outcome (Error E) T
    → Outcome (CheckError E) (Unit {0})
checked wrap (ok _) = ok tt
checked wrap (err e) = err (wrap e)
checked wrap panic = panic

module _ {D E : Type 0} (redis : Redis D E) (json : Json SleeperEntity D E) (st : Storage) where
  -- `SleeperPutChecker.Check`.
  unfoldable pub put_check :
      String → String → ℕ → String → redis.S → redis.S × Outcome (CheckError E) (Unit {0})
  unfolding checked
  put_check trace_id time now target s =
      let x : SleeperEntity = record { id = trace_id; value = time } in
      let (s', o) = save redis (sleeper_entity json) st x now s in
      (s', checked cannot_save_entity o)

  -- `SleeperGetChecker.Check`.
  unfoldable pub get_check : String → redis.S → redis.S × Outcome (CheckError E) (Unit {0})
  unfolding checked
  get_check target s =
      let (s', o, _) = get_random redis (sleeper_entity json) st s in (s', checked missing_error o)

abbrev pub put_checker_id : CheckerId
put_checker_id = record { service = "example"; name = "sleeper-put" }

abbrev pub get_checker_id : CheckerId
get_checker_id = record { service = "example"; name = "sleeper-retrieve" }

-- What the controller learns of a check: whether `errors.As` finds an `InternalErr` in its error.
abbrev pub check_result : {E : Type 0} → Outcome (CheckError E) (Unit {0}) → CheckResult
check_result (ok _) = succeeded
check_result panic = panicked
check_result (err (cannot_save_entity e)) = failed false
check_result (err (no_entity e)) = failed true
check_result (err (cannot_get_entity e)) = failed false
