-- ===== src/Prelude/Doubles.antt =====
-- An interface for C's `double`.
pub mod Whole
use Prim.Native.Nat.{ℕ}
use mathlib.Core.Bool.{Bool}
use ska_mpi.Prelude.Int.{ℤ}

-- The floating point numbers, with what the sources ask of them: their arithmetic, C's conversions
-- (`truncate` gives the whole part, in the range of `int` or not), `sqrt` of the C library and constants.
pub record Doubles : Type 1 where
  pub Double : Type 0
  pub add : Double → Double → Double
  pub sub : Double → Double → Double
  pub mult : Double → Double → Double
  pub div : Double → Double → Double
  pub negate : Double → Double
  pub fabs : Double → Double
  pub sqrt : Double → Double
  pub less : Double → Double → Bool
  pub less_equal : Double → Double → Bool
  pub equal : Double → Double → Bool
  pub of_int : ℤ → Double
  pub truncate : Double → ℤ
  pub zero : Double
  pub half : Double
  pub one : Double
  pub epsilon : Double
