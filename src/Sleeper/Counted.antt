-- ===== src/Sleeper/Counted.antt =====
-- What the controller counts when Redis fails under the example's checkers, or holds nothing.
use govnilo.Prelude.{
  ℕ, ◌+◌, ◌≡◌, ◌≢◌, ap, false, true, [], ◌∷◌, some, String, ◌⊎◌, inr, Outcome, arith,
}
use govnilo.StateStore.{Json}
use govnilo.RedisBase.{Redis, Storage, value, nil, failed, set, zadd, key_for}
use govnilo.RedisBase.Outage.{save_failed, get_random_failed, get_random_empty}
use govnilo.CheckerCtrl.Task.{Metrics, TaskSettings, CheckResult, CheckRun, check_task}
use govnilo.CheckerCtrl.Task
use govnilo.CheckerCtrl.Counting.{IsCancelled, check_task_counts}
use govnilo.Sleeper.{
  SleeperEntity, sleeper_entity, put_check, get_check, check_result, checked, missing_error,
  cannot_save_entity, CheckError,
}

-- A check that nobody cancelled.
abbrev pub undisturbed : CheckResult → CheckRun
undisturbed r = record { result = r; canceled = false; by_task_runner = false }

undisturbed_runs : (r : CheckResult) → ¬ IsCancelled (undisturbed r)
undisturbed_runs r c = ground arith

module _ {D E : Type 0} (redis : Redis D E) (json : Json SleeperEntity D E) (st : Storage)
    (s : redis.S) (target : String) where
  put_check_fails :
      (trace_id time : String) (now : ℕ) (d : D) (e : E)
      → trace_id ≢ ""
      → json.encode (record { id = trace_id; value = time }) ≡ inr d
      → (redis.exec
          (set (key_for st trace_id) d st.ttl ∷ zadd st.exp_z_set_key now trace_id ∷ [])
          s).1
        ≡ some e
      → check_result (put_check redis json st trace_id time now target s).1 ≡ Task.failed false
  unfolding put_check checked
  put_check_fails trace_id time now d e named coded fails =
      let x : SleeperEntity = record { id = trace_id; value = time } in
      ap (λ o. check_result (checked cannot_save_entity o))
        (save_failed redis (sleeper_entity json) st x d now s e named coded fails)

  get_check_fails :
      (e : E)
      → (redis.z_rand_member st.exp_z_set_key 1 s).1 ≡ failed e
      → check_result (get_check redis json st target s).1 ≡ Task.failed false
  unfolding get_check checked
  get_check_fails e fails =
      ap (λ o. check_result (checked missing_error o))
        (get_random_failed redis (sleeper_entity json) st s e fails)

  get_check_empty :
      ((redis.z_rand_member st.exp_z_set_key 1 s).1 ≡ nil)
        ⊎ ((redis.z_rand_member st.exp_z_set_key 1 s).1 ≡ value [])
      → check_result (get_check redis json st target s).1 ≡ Task.failed true
  unfolding get_check checked
  get_check_empty empty =
      ap (λ o. check_result (checked missing_error o))
        (get_random_empty redis (sleeper_entity json) st s empty)

  module _ {F : Type 0} (add : F → F → F) (settings : TaskSettings F) (m : Metrics F) where
    -- What the metrics are after such a check.
    abbrev pub counted : Outcome (CheckError E) (Unit {0}) → Metrics F
    counted r = (check_task add (some settings) (undisturbed (check_result r)) m).0

    penalty :
        (r : Outcome (CheckError E) (Unit {0}))
        → check_result r ≡ Task.failed false
        → (counted r).fail_check_penalty ≡ add m.fail_check_penalty settings.settings.fail_penalty
    penalty r h =
        let run = undisturbed (check_result r) in
        let (_, _, _, _, fails) = check_task_counts add settings run m (undisturbed_runs _) in
        (fails h).2

    -- While Redis fails, both checkers of the example report what the controller takes for a failure
    -- of the service, with its penalty, although neither has called the service: the put checker if
    -- its transaction fails, for a trace id that is not empty and an entity that can be encoded, and
    -- the get checker if its query of the sorted set fails.
    pub outage_penalty :
        (trace_id time : String) (now : ℕ) (d : D) (e f : E)
        → trace_id ≢ ""
        → json.encode (record { id = trace_id; value = time }) ≡ inr d
        → (redis.exec
            (set (key_for st trace_id) d st.ttl ∷ zadd st.exp_z_set_key now trace_id ∷ [])
            s).1
          ≡ some e
        → (redis.z_rand_member st.exp_z_set_key 1 s).1 ≡ failed f
        → let (_, put) = put_check redis json st trace_id time now target s in
          let (_, get) = get_check redis json st target s in
          let penalised = add m.fail_check_penalty settings.settings.fail_penalty in
          ((counted put).fail_check_penalty ≡ penalised)
          × ((counted get).fail_check_penalty ≡ penalised)
    outage_penalty trace_id time now d e f named coded unsaved unread = (
      penalty (put_check redis json st trace_id time now target s).1
          (put_check_fails trace_id time now d e named coded unsaved),
      penalty (get_check redis json st target s).1 (get_check_fails f unread),
    )

    -- With nothing in the sorted set, the get checker is counted as an internal error, without one.
    empty_internal :
        ((redis.z_rand_member st.exp_z_set_key 1 s).1 ≡ nil)
          ⊎ ((redis.z_rand_member st.exp_z_set_key 1 s).1 ≡ value [])
        → let m' = counted (get_check redis json st target s).1 in
          (m'.internal_errors_total ≡ m.internal_errors_total + 1)
          × (m'.fail_check_penalty ≡ m.fail_check_penalty)
    empty_internal empty =
        let r = (get_check redis json st target s).1 in
        let (_, _, _, internal, _) =
          check_task_counts add settings (undisturbed (check_result r)) m (undisturbed_runs _) in
        let (one, _, kept) = internal (inr (get_check_empty empty)) in (one, kept)
