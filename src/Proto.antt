-- ===== src/Proto.antt =====
-- The messages of proto/admin.proto as the Go code holds them (proto/admin.pb.go): a pointer that
-- may be nil is an `Option`, and `F` is the type of `float64`, which the checker does not have.
use govnilo.Prelude.{ℕ, ℤ, List, Option, String}

pub record Rate : Type 0 where
  pub times : ℕ  -- uint64
  pub per : Option ℤ  -- `durationpb.Duration`, by the nanoseconds that `AsDuration` returns

pub record RunOptions : Type 0 where
  pub rate : Option Rate
  pub max_goroutines : ℤ  -- int32

pub record CheckerSettings (F : Type 0) : Type 0 where
  pub name : String
  pub run_options : Option RunOptions
  pub success_points : F
  pub fail_penalty : F

pub record ServiceSettings (F : Type 0) : Type 0 where
  pub name : String
  pub target : String
  pub checkers : List (Option (CheckerSettings F))

pub record Settings (F : Type 0) : Type 0 where
  pub services : List (Option (ServiceSettings F))
