-- ===== src/Autorefine/Start/Whole.antt =====
-- Natural numbers in the place of doubles, for the tests.
use ska_mpi.Prelude.{ℕ, ◌+◌, ◌-◌, ◌*◌, ◌/◌, false}
use ska_mpi.Prelude.Int.{ℤ, pos_part}
use ska_mpi.Prelude.Ordered.{nat_ordered}
use ska_mpi.Autorefine.Start.{Numbers, Node}

abbrev pub numbers : Numbers
numbers = record {
  order = nat_ordered;
  add = λ a b. a + b;
  sub = λ a b. a - b;
  mult = λ a b. a * b;
  div = λ a b. a / b;
  fabs = λ a. a;
  of_int = pos_part;
}

abbrev pub measured : ℕ → ℤ → ℕ → Node numbers
measured id i result = record { id = id; i = i; is_candidate = false; result = result; weight = 0 }
