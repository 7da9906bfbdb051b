-- ===== src/RedisBase/Metrics.antt =====
-- internal/redisbase/metrics.go: the metrics of a storage, which `NewStorage` registers last. The
-- set of registered metrics (github.com/VictoriaMetrics/metrics) and the quoting of `%q` are
-- parameters.
use Prim.Native.String.{◌++◌ as string_append}
use govnilo.Prelude.{
  ◌≡◌, refl, sym, ◌∙◌, string_eq, Bool, true, List, [], ◌∷◌, Option, none, some, String, inl, inr,
  Option-cases, Outcome, ok, err, panic, arith,
}
use govnilo.RedisBase.{Storage, StorageInput, Error, new_storage}

-- `register` registers a name, or panics (`none`).
pub record MetricSet : Type 1 where
  pub M : Type 0
  pub has : String → M → Bool
  pub register : String → M → Option M

-- A name is registered once, and none is taken out.
pub record IsMetricSet (set : MetricSet) : Type 0 where
  pub known : (name : String) (m : set.M) → set.has name m ≡ true → set.register name m ≡ none
  pub registered :
      (name : String) (m m' : set.M) → set.register name m ≡ some m' → set.has name m' ≡ true
  pub kept :
      (name other : String) (m m' : set.M)
      → set.register name m ≡ some m'
      → set.has other m ≡ true
      → set.has other m' ≡ true

-- The names, in the order of `newStorageMetrics`.
unfoldable pub storage_metrics : (String → String) → String → List String
storage_metrics quote storage_name =
    let gen_metric_name : String → String = (λ name. string_append "checker_redis_storage_" (
      string_append name
        (string_append "{storage_name=" (string_append (quote storage_name) "}")))) in
    gen_metric_name "save_duration"
    ∷ gen_metric_name "get_by_id_duration"
    ∷ gen_metric_name "get_random_duration"
    ∷ gen_metric_name "get_random_attempts"
    ∷ gen_metric_name "cleanup_batch_size"
    ∷ gen_metric_name "cleanup_returned_batch_size"
    ∷ gen_metric_name "cleanup_delete_duration"
    ∷ []

module _ (set : MetricSet) where
  unfoldable pub register_metrics : List String → set.M → Option set.M
  register_metrics [] m = some m
  register_metrics (name ∷ names) m = elim (set.register name m) [
    | none ↦ none
    | some m' ↦ register_metrics names m'
  ]

  with_metrics : {E : Type 0} → Storage → Option set.M → Outcome (Error E) (Storage × set.M)
  with_metrics st none = panic
  with_metrics st (some m) = ok (st, m)

  made_with_metrics :
      {E : Type 0}
      → (String → String)
      → Outcome (Error E) Storage
      → set.M
      → Outcome (Error E) (Storage × set.M)
  unfolding with_metrics
  made_with_metrics quote (ok st) m =
      with_metrics st (register_metrics (storage_metrics quote st.storage_name) m)
  made_with_metrics quote (err e) m = err e
  made_with_metrics quote panic m = panic

  -- `NewStorage` with its metrics.
  unfoldable pub new_storage_metrics :
      {E : Type 0} → (String → String) → StorageInput → set.M → Outcome (Error E) (Storage × set.M)
  unfolding made_with_metrics with_metrics
  new_storage_metrics quote input m = made_with_metrics quote (new_storage input) m

module _ (set : MetricSet) where
  register_metrics-first :
      (name : String) (names : List String) (m m' : set.M)
      → register_metrics set (name ∷ names) m ≡ some m'
      → (n : set.M) × (set.register name m ≡ some n) × (register_metrics set names n ≡ some m')
  unfolding register_metrics
  register_metrics-first name names m m' h = elim (Option-cases (set.register name m)) [
    | inl fails ↦
        let e : register_metrics set (name ∷ names) m ≡ none = rw (fails, register_metrics) refl in
        absurd (cc (e, h))
    | inr (n, once) ↦
        let e : register_metrics set (name ∷ names) m ≡ register_metrics set names n =
          rw (once, register_metrics) refl in
        (n, once, sym e ∙ h)
  ]

  -- What was registered stays.
  abbrev pub Grown : set.M → set.M → Type 0
  Grown m m' = (name : String) → set.has name m ≡ true → set.has name m' ≡ true

  module _ (laws : IsMetricSet set) where
    register_metrics-Grown :
        (names : List String) (m m' : set.M) → register_metrics set names m ≡ some m' → Grown m m'
    unfolding register_metrics
    register_metrics-Grown [] m m' h other had = let same : m ≡ m' = cc h in rw (← same) had
    register_metrics-Grown (name ∷ names) m m' h other had =
        let (n, once, rest) = register_metrics-first name names m m' h in
        register_metrics-Grown names n m' rest other (laws.kept name other m n once had)

    register_metrics-again :
        (name : String) (names : List String) (m m' later : set.M)
        → register_metrics set (name ∷ names) m ≡ some m'
        → Grown m' later
        → register_metrics set (name ∷ names) later ≡ none
    unfolding register_metrics
    register_metrics-again name names m m' later h grown =
        let (n, once, rest) = register_metrics-first name names m m' h in
        let there = register_metrics-Grown names n m' rest name (laws.registered name m n once) in
        rw (laws.known name later (grown name there), register_metrics) refl

    made_with_metrics-again :
        {E : Type 0} (quote : String → String) (o : Outcome (Error E) Storage) (m m' later : set.M)
        (st : Storage)
        → made_with_metrics set quote o m ≡ ok (st, m')
        → Grown m' later
        → made_with_metrics set quote o later ≡ panic
    unfolding made_with_metrics with_metrics storage_metrics
    made_with_metrics-again {E} quote (ok made) m m' later st h grown =
        elim (Option-cases (register_metrics set (storage_metrics quote made.storage_name) m)) [
          | inl fails ↦
              let e : made_with_metrics set {E = E} quote (ok made) m ≡ panic = rw fails refl in
              absurd (cc (e, h))
          | inr (n, all) ↦
              let e : made_with_metrics set {E = E} quote (ok made) m ≡ ok (made, n) =
                rw all refl in
              let same : n ≡ m' = cc (e, h) in
              rw
                (register_metrics-again _ _ m n later all
                  (λ name had. grown name (rw (← same) had)))
                refl
        ]
    made_with_metrics-again quote (err e) m m' later st h grown = ground arith
    made_with_metrics-again quote panic m m' later st h grown = refl

    -- Once `NewStorage` has made a storage, it panics whenever it is called with the same input
    -- again in the same process, whatever was registered in between: its metrics are there already.
    pub new_storage_twice :
        (E : Type 0) (quote : String → String) (input : StorageInput) (m m' later : set.M)
        (st : Storage)
        → new_storage_metrics set {E = E} quote input m ≡ ok (st, m')
        → Grown m' later
        → new_storage_metrics set {E = E} quote input later ≡ panic
    unfolding new_storage_metrics
    new_storage_twice E quote input m m' later st h grown =
        made_with_metrics-again quote (new_storage input) m m' later st h grown
