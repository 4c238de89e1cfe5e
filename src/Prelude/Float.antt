-- ===== src/Prelude/Float.antt =====
-- Go's float64, which is not modelled bit by bit: a parameter with the operations that the tools
-- use, of which no law is assumed.
use Prim.Native.Nat.{ℕ}
use Prim.Native.String.{String}
use mathlib.Core.Bool.{Bool}

pub record Float64 : Type 1 where
  pub Float : Type 0
  pub of_nat : ℕ → Float
  pub div : Float → Float → Float
  pub mul : Float → Float → Float
  -- x >= y and x > y
  pub ge : Float → Float → Bool
  pub gt : Float → Float → Bool
  -- the verb %.1f
  pub format1 : Float → String
