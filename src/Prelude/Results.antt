-- ===== src/Prelude/Results.antt =====
-- What a Go function that returns an `error` may do: return, return an error, or panic.
pub data Outcome {ℓ κ} (E : Type ℓ) (A : Type κ) : Type (ℓ ⊔ κ) where
  ok : A → Outcome E A
  err : E → Outcome E A
  panic : Outcome E A
