-- ===== src/Autorefine/Candidates.antt =====
-- src/autorefine.c: the value of a new candidate between two measured ones, for an integer loop
-- variable. The sum of the two values is taken not to overflow.
pub mod Between
use ska_mpi.Prelude.{ℕ, Bool, Option, none, some, if◌then◌else◌, ◌||◌}
use ska_mpi.Prelude.Int.{ℤ, pos, ◌+ℤ◌, ◌/ℤ◌, eqb_ℤ}
use ska_mpi.Arith.{round_int_to_multipleof}

-- `new_int_par` of `insert_candidate`, and `cand->i` of `calculate_weight`
unfoldable pub new_int_par : (left right : ℤ) → (multipleof : ℕ) → ℤ
new_int_par left right multipleof = round_int_to_multipleof ((left +ℤ right) /ℤ pos 2) multipleof

-- The value that `insert_candidate` inserts, or none when it returns at once.
unfoldable pub candidate_between : (left right : ℤ) → (multipleof : ℕ) → Option ℤ
candidate_between left right multipleof =
    let i = new_int_par left right multipleof in
    if eqb_ℤ i left then none else (if eqb_ℤ i right then none else some i)
