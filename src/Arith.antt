-- ===== src/Arith.antt =====
-- The integer functions of src/misc.c: imax2, imin2, imax3, isqr, gcd, lcm and
-- round_int_to_multipleof. An `int` is an integer without bounds; counts and alignments, which the
-- callers keep non-negative, are natural numbers.
pub mod Gcd
pub mod Round
mod Tests
use mathlib.Core.Logic.{dite}
use mathlib.Core.WellFounded.{Acc}
use mathlib.Core.WellFounded
use ska_mpi.Prelude.{ℕ, ◌+◌, ◌*◌, ◌/◌, ◌%◌, ◌<◌, arith, dec_lt, ltb, if◌then◌else◌}
use ska_mpi.Prelude.Int.{ℤ, pos, ◌+ℤ◌, ◌-ℤ◌, ◌*ℤ◌, ◌/ℤ◌, ltb_ℤ, leb_ℤ}
use ska_mpi.Prelude.Order.{lt_wf}

-- `imax2`, `imin2` and `imax3`
unfoldable pub imax2 : ℕ → ℕ → ℕ
imax2 a b = if ltb b a then a else b

unfoldable pub imin2 : ℕ → ℕ → ℕ
imin2 a b = if ltb a b then a else b

unfoldable pub imax3 : ℕ → ℕ → ℕ → ℕ
imax3 a b c = if ltb b a then (if ltb a c then c else a) else (if ltb b c then c else b)

-- Euclid's recursion, on the accessibility of the second argument.
unfoldable pub gcd_from : (b : ℕ) → Acc ◌<◌ b → (a : ℕ) → ℕ
gcd_from b (Acc.intro _ next) a =
    dite (dec_lt 0 b) (λ positive. gcd_from (a % b) (next (a % b) (omega arith)) b) (λ _. a)

unfoldable pub gcd : ℕ → ℕ → ℕ
unfolding lt_wf dec_lt gcd_from
gcd a b = gcd_from b (lt_wf.apply b) a

unfoldable pub lcm : ℕ → ℕ → ℕ
lcm a b = a * b / gcd a b

-- `m` is a positive number; `d` is the quotient that C truncates towards zero.
unfoldable pub round_int_to_multipleof : ℤ → ℕ → ℤ
round_int_to_multipleof i m =
    let d = i /ℤ pos m in
    if leb_ℤ (pos 0) i
    then (if leb_ℤ (i -ℤ d *ℤ pos m) ((d +ℤ pos 1) *ℤ pos m -ℤ i)
        then d *ℤ pos m
        else (d +ℤ pos 1) *ℤ pos m)
    else (if ltb_ℤ (i -ℤ (d -ℤ pos 1) *ℤ pos m) (d *ℤ pos m -ℤ i)
        then (d -ℤ pos 1) *ℤ pos m
        else d *ℤ pos m)
