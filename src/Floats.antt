-- ===== src/Floats.antt =====
-- C++ `float`, `double` and the conversions to them: an interface, since the model has no floats.
use hardware_monitor.Prelude.{Bool, ℕ, ℤ}

pub record Floats : Type 1 where
  pub Float : Type 0
  -- static_cast<float>(n) and the division, product and tests of floats.
  pub of_nat : ℕ → Float
  pub of_int : ℤ → Float
  pub div : Float → Float → Float
  pub mul : Float → Float → Float
  pub lt : Float → Float → Bool
  pub le : Float → Float → Bool
  -- The literal with these digits and so many of them behind the point: `lit 1 2` is 0.01f.
  pub lit : ℕ → ℕ → Float
