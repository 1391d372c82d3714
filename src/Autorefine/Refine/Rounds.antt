-- ===== src/Autorefine/Refine/Rounds.antt =====
-- src/autorefine.c: `set_new_loop_values`, and the loop that it ends, with one measurement in each round.
use ska_mpi.Prelude.{ℕ, zero, suc, Bool, Option, none, some, List, [], ◌∷◌, if◌then◌else◌}
use ska_mpi.Prelude.Int.{ℤ, pos}
use ska_mpi.Autorefine.Start.{Numbers, Node, Number, ◌>>=◌}
use ska_mpi.Autorefine.Refine.{Queue, find, register_measurement_result}

module _ (o : Numbers) where
  -- The file variables, and the number of the next list element, while `autorefining` holds
  pub record Refinement : Type 0 where
    pub results : List (Node o)
    pub candidates : Queue o
    pub registered_measurements : ℕ
    pub regular_measurements : ℕ
    pub fresh : ℕ

  -- Whether there were too few measurements
  abbrev pub continue_loop : (iteration_multiplier : Number o) (regular registered : ℕ) → Bool
  continue_loop iteration_multiplier regular registered =
      o.order.lt (o.of_int (pos registered)) (o.mult (o.of_int (pos regular)) iteration_multiplier)

  -- The value of the first candidate, if the loop goes on
  unfoldable pub set_new_loop_values :
      (iteration_multiplier : Number o) → Refinement → Option (Option ℤ)
  set_new_loop_values iteration_multiplier s =
      if continue_loop iteration_multiplier s.regular_measurements s.registered_measurements
      then (elim s.candidates [
        | [] ↦ some none
        | top ∷ rest ↦ do p ← find o top.0 [] s.results; some (some p.el.i)
      ])
      else some none

  -- `register_measurement_result` with its counter
  unfoldable pub register : (multipleof : ℕ) (result : Number o) → Refinement → Option Refinement
  register multipleof result s = do
    (results, candidates) ←
        register_measurement_result o s.fresh multipleof result s.results s.candidates
    some (record s {
      results = results;
      candidates = candidates;
      registered_measurements = suc s.registered_measurements;
      fresh = suc (suc s.fresh);
    })

  -- The loop; `measure` is what the body measures at a value.
  unfoldable pub refine :
      (multipleof : ℕ) (iteration_multiplier : Number o) (measure : ℤ → Number o) (fuel : ℕ)
      → Refinement
      → Option Refinement
  refine multipleof iteration_multiplier measure zero s = none
  refine multipleof iteration_multiplier measure (suc fuel) s = do
    next ← set_new_loop_values iteration_multiplier s
    elim next [
      | none ↦ some s
      | some i ↦ do
        s ← register multipleof (measure i) s
        refine multipleof iteration_multiplier measure fuel s
    ]
