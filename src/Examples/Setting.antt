-- ===== src/Examples/Setting.antt =====
-- Numbers in place of floats, and a limiter that keeps what it was made of.
use govnilo.Prelude.{ℕ, ℤ, pos, negsuc, ◌+◌, ◌*◌, ◌/◌, List, [], ◌∷◌, nat_beq, ltb}
use govnilo.Floats.{Floats}
use govnilo.RateLimit.{RateLibrary}

abbrev pub part : ℤ → ℕ
part (pos n) = n
part (negsuc n) = 0

abbrev pub numbers : Floats
numbers = record {
  F = ℕ;
  of_ℕ = λ n. n;
  of_ℤ = part;
  to_ℕ = λ n. n;
  to_ℤ = pos;
  add = λ a b. a + b;
  mul = λ a b. a * b;
  div = λ a b. a / b;
  is_zero = nat_beq 0;
  lt = ltb;
}

abbrev pub limits : RateLibrary numbers
limits = record {
  Limiter = ℕ;
  new_limiter = λ limit burst. limit + burst;
  inf = 1_000_000;
  seconds = λ d. part d / 1_000_000_000;
}

-- A quantile: the first of the sorted times.
abbrev pub first_or_zero : ℕ → List ℕ → ℕ
first_or_zero p [] = 0
first_or_zero p (x ∷ xs) = x
