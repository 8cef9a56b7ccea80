-- ===== src/Double.antt =====
-- Arithmetic on `double`, a parameter: the operations of the hardware on 64-bit patterns. `a > b` is
-- `b < a`, `a >= b` is `b <= a` and `a != b` is `!(a == b)`, also for a NaN.
use cs660_spring2025_pa.Base.{ℕ, Bool}
use cs660_spring2025_pa.Base.Int.{ℤ}

pub record Double : Type 0 where
  pub eq : ℕ → ℕ → Bool
  pub lt : ℕ → ℕ → Bool
  pub le : ℕ → ℕ → Bool
  pub add : ℕ → ℕ → ℕ
  pub sub : ℕ → ℕ → ℕ
  pub mul : ℕ → ℕ → ℕ
  pub div : ℕ → ℕ → ℕ
  -- `static_cast<double>` of an `int` and of an unsigned number.
  pub of_int : ℤ → ℕ
  pub of_size : ℕ → ℕ
  -- `static_cast<size_t>` and the conversion to `int`, of a value in range.
  pub to_size : ℕ → ℕ
  pub to_int : ℕ → ℤ
