-- ===== src/Spend/Double.antt =====
-- What the code does with a float64: the arithmetic of an estimate, the comparison with a threshold,
-- and the conversions of an integer and of a duration in nanoseconds.
use morsel.Prelude.{Bool, ℤ}

pub record Double {ℓ} (W : Type ℓ) : Type ℓ where
  pub of_int : ℤ → W
  pub hours : ℤ → W
  pub plus : W → W → W
  pub times : W → W → W
  pub over : W → W → W
  pub le : W → W → Bool
