-- ===== src/Examples/Meters.antt =====
-- The metrics of the storage of users.
use Prim.Native.String.{◌++◌ as string_append}
use govnilo.Prelude.{
  ℕ, ◌≡◌, refl, string_eq, Bool-cases, if◌then◌else◌, List, [], ◌∷◌, none, some, String, inl, inr,
  ok, panic, beq_self, arith,
}
use govnilo.RedisBase.{new_storage, made_storage}
use govnilo.RedisBase.Laws.{among}
use govnilo.RedisBase.Metrics.{
  MetricSet, IsMetricSet, storage_metrics, register_metrics, new_storage_metrics, new_storage_twice,
}
use govnilo.Examples.Storages.{input, users}

-- A set of metrics that is the list of their names.
abbrev listing : MetricSet
listing = record {
  M = List String;
  has = λ name m. among name m;
  register = λ name m. if among name m then none else some (name ∷ m);
}

register_fresh :
    (name : String) (m m' : List String) → listing.register name m ≡ some m' → m' ≡ name ∷ m
register_fresh name m m' h = elim (Bool-cases (among name m)) [
  | inl there ↦
      let e : (if among name m then none else some (name ∷ m)) ≡ none = rw there refl in
      absurd (cc (e, h))
  | inr new ↦
      let e : (if among name m then none else some (name ∷ m)) ≡ some (name ∷ m) = rw new refl in
      cc (e, h)
]

listing-IsMetricSet : IsMetricSet listing
listing-IsMetricSet = record {
  known = λ name m h. rw h refl;
  registered = λ name m m' h. rw (register_fresh name m m' h) (ground (arith, beq_self name));
  kept = λ name other m m' h had. rw (register_fresh name m m' h) (ground (arith, had));
}

abbrev quoted : String → String
quoted s = string_append "'" (string_append s "'")

abbrev metric : String → String
metric name =
    string_append "checker_redis_storage_" (string_append name "{storage_name='shop:users'}")

abbrev registered_names : List String
registered_names =
    metric "cleanup_delete_duration"
    ∷ metric "cleanup_returned_batch_size"
    ∷ metric "cleanup_batch_size"
    ∷ metric "get_random_attempts"
    ∷ metric "get_random_duration"
    ∷ metric "get_by_id_duration"
    ∷ metric "save_duration"
    ∷ []

first : new_storage_metrics listing {E = ℕ} quoted input [] ≡ ok (users, registered_names)
unfolding new_storage_metrics storage_metrics register_metrics new_storage made_storage
first = refl

-- The second time, the first of the names is there already.
second : new_storage_metrics listing {E = ℕ} quoted input registered_names ≡ panic
second =
    new_storage_twice listing listing-IsMetricSet ℕ quoted input [] registered_names
      registered_names users first (λ name h. h)
