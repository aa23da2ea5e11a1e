-- ===== src/Base/Float.antt =====
-- `f64`. The divider positions are taken over an abstract type of floats with the operations and
-- literals that the layout code uses. What a theorem needs of them is among its hypotheses.
use mathlib.Core.Bool.{Bool}

pub record FloatOps (F : Type 0) : Type 0 where
  pub zero_point : F  -- 0.0
  pub low : F  -- 0.05
  pub half : F  -- 0.5
  pub high : F  -- 0.95
  pub one : F  -- 1.0
  pub add : F → F → F
  pub neg : F → F
  -- `clamp(self, min, max)`
  pub clamp : F → F → F → F
  pub le : F → F → Bool
  -- `(a - b).abs() > f64::EPSILON`
  pub differs : F → F → Bool
