-- ===== src/Prelude/Float.antt =====
-- float64 and the functions of package math that the program calls. There are no floating-point
-- numbers here, so the type and its operations are given.
use driving_app.Prelude.Int.{ℤ}
use mathlib.Core.Bool.{Bool}

pub record Floats : Type 1 where
  pub Float : Type 0
  pub of_int : ℤ → Float
  pub add : Float → Float → Float
  pub sub : Float → Float → Float
  pub mul : Float → Float → Float
  pub div : Float → Float → Float
  pub lt : Float → Float → Bool
  pub le : Float → Float → Bool
  pub is_nan : Float → Bool
  pub is_inf : Float → Bool
  pub pi : Float
  pub sin : Float → Float
  pub cos : Float → Float
  pub asin : Float → Float
  pub sqrt : Float → Float
