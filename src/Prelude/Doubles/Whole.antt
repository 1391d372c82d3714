-- ===== src/Prelude/Doubles/Whole.antt =====
-- Whole numbers in the place of `double`, for the tests.
use ska_mpi.Prelude.{if◌then◌else◌}
use ska_mpi.Prelude.Int.{pos, ◌+ℤ◌, ◌-ℤ◌, ◌*ℤ◌, ◌/ℤ◌, leb_ℤ, ltb_ℤ, eqb_ℤ, ℤ}
use ska_mpi.Prelude.Doubles.{Doubles}

abbrev pub doubles : Doubles
doubles = record {
  Double = ℤ;
  add = ◌+ℤ◌;
  sub = ◌-ℤ◌;
  mult = ◌*ℤ◌;
  div = ◌/ℤ◌;
  negate = λ a. pos 0 -ℤ a;
  fabs = λ a. if ltb_ℤ a (pos 0) then pos 0 -ℤ a else a;
  sqrt = λ a. a;
  less = ltb_ℤ;
  less_equal = leb_ℤ;
  equal = eqb_ℤ;
  of_int = λ i. i;
  truncate = λ f. f;
  zero = pos 0;
  half = pos 0;
  one = pos 1;
  epsilon = pos 1;
}
