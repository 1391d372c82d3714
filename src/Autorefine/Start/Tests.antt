-- ===== src/Autorefine/Start/Tests.antt =====
-- A start of the refinement, with numbers in the place of doubles.
use ska_mpi.Prelude.{ℕ, ◌≡◌, refl, Option, none, some, List, [], ◌∷◌}
use ska_mpi.Prelude.Int.{ℤ, pos, ◌+ℤ◌, ◌-ℤ◌, ◌*ℤ◌, ◌/ℤ◌, ◌%ℤ◌}
use ska_mpi.Arith.{round_int_to_multipleof}
use ska_mpi.Autorefine.Candidates.{candidate_between, new_int_par}
use ska_mpi.Autorefine.Start.{
  Node, guard, next_value, calculate_weight, insert_candidate, insert_candidates, init_candidates,
}
use ska_mpi.Autorefine.Start.Whole.{numbers, measured}
use ska_mpi.Autorefine.Start.Chain.{IsStarted, with_guard, init_candidates-IsStarted}

-- Between 4 and 5 there is no candidate.
abbrev three_values : List (Node numbers)
three_values = measured 0 (pos 2) 10 ∷ measured 1 (pos 4) 12 ∷ measured 2 (pos 5) 40 ∷ []

abbrev arguments : Option (List (Node numbers) × List (ℕ × ℕ)) → List ℤ
arguments none = []
arguments (some (els, q)) = arguments_of els
  where
    arguments_of : List (Node numbers) → List ℤ
    arguments_of [] = []
    arguments_of (el ∷ els) = el.i ∷ arguments_of els

init_candidates_runs :
    arguments (init_candidates numbers 3 three_values 1)
    ≡ pos 5 ∷ pos 5 ∷ pos 4 ∷ pos 3 ∷ pos 2 ∷ pos 2 ∷ []
unfolding init_candidates insert_candidates insert_candidate candidate_between new_int_par
    round_int_to_multipleof calculate_weight next_value ◌+ℤ◌ ◌-ℤ◌ ◌/ℤ◌ ◌%ℤ◌ ◌*ℤ◌
init_candidates_runs = refl

init_candidates-IsStarted_example :
    IsStarted numbers 1
      (with_guard numbers
        (measured 1 (pos 4) 12 ∷ measured 2 (pos 5) 40 ∷ [])
        (measured 0 (pos 2) 10 ∷ guard numbers (measured 0 (pos 2) 10) ∷ []))
      (init_candidates numbers 3 three_values 1)
init_candidates-IsStarted_example =
    init_candidates-IsStarted numbers 3 (measured 0 (pos 2) 10) (measured 1 (pos 4) 12)
      (measured 2 (pos 5) 40 ∷ []) 1 (refl, (refl, (refl, tt)))
