-- ===== src/Examples/Sleepers.antt =====
-- The checkers of the example, with a Redis that is out of order; and a request to a service that is.
use govnilo.Prelude.{ℕ, ◌+◌, ◌≡◌, refl, ne_of_beq, string_eq, true, some, inr}
use govnilo.StateStore.{Json}
use govnilo.RedisBase.{Redis, Storage, failed, made_storage}
use govnilo.Sleeper.{SleeperEntity, sleeper_input, put_check, get_check}
use govnilo.Sleeper.Counted.{counted, outage_penalty}
use govnilo.Examples.Checkers.{put_settings, zero_counts}

abbrev plain : Json SleeperEntity SleeperEntity ℕ
plain = record { encode = λ x. inr x; decode = λ d x. inr d }

abbrev down : Redis SleeperEntity ℕ
down = record {
  S = Unit {0};
  get = λ k s. (s, failed 4);
  z_rand_member = λ k n s. (s, failed 5);
  z_rev_range = λ k i j s. (s, failed 5);
  z_range_by_score = λ k b max s. (s, failed 5);
  exec = λ cs s. (s, some 6);
}

abbrev sleepers : Storage
sleepers = made_storage (sleeper_input true)

outage_penalty_example :
    let (_, put) = put_check down plain sleepers "4bf92f" "2026-11-25" 100 "10.0.0.1" tt in
    let (_, get) = get_check down plain sleepers "10.0.0.1" tt in
    let count = counted down plain sleepers tt "10.0.0.1" (λ a b. a + b) put_settings zero_counts in
    let penalised = 0 + put_settings.settings.fail_penalty in
    ((count put).fail_check_penalty ≡ penalised) × ((count get).fail_check_penalty ≡ penalised)
outage_penalty_example =
    outage_penalty down plain sleepers tt "10.0.0.1" (λ a b. a + b) put_settings zero_counts
      "4bf92f" "2026-11-25" 100 (record { id = "4bf92f"; value = "2026-11-25" }) 6 5
      (ne_of_beq "4bf92f" "" refl) refl refl refl
