-- ===== src/Floats.antt =====
-- `float64`, which the checker does not have: a type with the operations that the code uses, as a
-- parameter. Nothing is assumed of them but what a theorem names.
use govnilo.Prelude.{ℕ, ℤ, Bool}

pub record Floats : Type 1 where
  pub F : Type 0
  pub of_ℕ : ℕ → F  -- a conversion of a `uint64`, or a constant
  pub of_ℤ : ℤ → F  -- of an `int64`
  pub to_ℕ : F → ℕ  -- a conversion to `uint64`
  pub to_ℤ : F → ℤ  -- to `int64`
  pub add : F → F → F
  pub mul : F → F → F
  pub div : F → F → F
  pub is_zero : F → Bool  -- `x == 0.0`
  pub lt : F → F → Bool
