-- ===== src/Prelude/Float.antt =====
-- Python's floating-point numbers, of which the program divides two integers, takes a difference and
-- tests the order: a parameter of what computes with them.
use Prim.Native.Nat.{ℕ}
use mathlib.Core.Bool.{Bool}

pub record Floats : Type 1 where
  pub Float : Type 0
  pub ratio : (a b : ℕ) → Float
  pub minus : (x y : Float) → Float
  pub less : (x y : Float) → Bool
  pub nought : Float
  pub tenth : Float
  pub minus_tenth : Float
