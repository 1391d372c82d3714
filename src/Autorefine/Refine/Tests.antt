-- ===== src/Autorefine/Refine/Tests.antt =====
-- A step of the refinement between 2 and 10.
use ska_mpi.Prelude.{ℕ, ◌*◌, ◌≤◌, arith, ◌≡◌, refl, true, false, some, none, Option, List, [], ◌∷◌}
use ska_mpi.Prelude.Int.{ℤ, pos, pos_part, ◌+ℤ◌, ◌-ℤ◌, ◌*ℤ◌, ◌/ℤ◌, ◌%ℤ◌}
use ska_mpi.Arith.{round_int_to_multipleof}
use ska_mpi.Autorefine.Candidates.{candidate_between, new_int_par}
use ska_mpi.Autorefine.Start.{Node, next_value, calculate_weight, insert_candidate}
use ska_mpi.Autorefine.Start.Whole.{numbers, measured}
use ska_mpi.Autorefine.Start.Chain.{values}
use ska_mpi.Autorefine.Refine.{
  Place, find, close, update_weight, update_prev, update_next, insert_prev, insert_next,
  register_at, register_measurement_result,
}
use ska_mpi.Autorefine.Refine.Sides.{Gives, edge, gap}
use ska_mpi.Autorefine.Refine.Step.{HasValues}
use ska_mpi.Autorefine.Refine.Rounds.{Refinement, continue_loop, refine}
use ska_mpi.Autorefine.Refine.Paired.{IsRefining}
use ska_mpi.Autorefine.Refine.Ending.{Ended, refine-Ended}
use ska_mpi.Autorefine.Refine.Found.{chain, register_measurement_result-HasValues}

abbrev six : Node numbers
six = record { id = 5; i = pos 6; is_candidate = true; result = 3; weight = 3 }

-- From the end: the guard, 10, the candidate 6, 2 and the guard.
abbrev list : List (Node numbers)
list =
    measured 4 (pos 10) 40
    ∷ measured 3 (pos 10) 40
    ∷ six
    ∷ measured 1 (pos 2) 8
    ∷ measured 0 (pos 2) 8
    ∷ []

abbrev place : Place numbers
place = record {
  before = measured 1 (pos 2) 8 ∷ measured 0 (pos 2) 8 ∷ [];
  el = six;
  after = measured 3 (pos 10) 40 ∷ measured 4 (pos 10) 40 ∷ [];
}

abbrev arguments : Option (List (Node numbers) × List (ℕ × ℕ)) → List ℤ
arguments none = []
arguments (some (els, q)) = arguments_of els
  where
    arguments_of : List (Node numbers) → List ℤ
    arguments_of [] = []
    arguments_of (el ∷ els) = el.i ∷ arguments_of els

-- There are new candidates at 4 and 8.
refined :
    arguments (register_measurement_result numbers 6 1 20 list ((5, 3) ∷ []))
    ≡ pos 10 ∷ pos 10 ∷ pos 8 ∷ pos 6 ∷ pos 4 ∷ pos 2 ∷ pos 2 ∷ []
unfolding register_measurement_result register_at find close update_weight update_prev update_next
    insert_prev insert_next insert_candidate candidate_between new_int_par round_int_to_multipleof
    calculate_weight next_value ◌+ℤ◌ ◌-ℤ◌ ◌/ℤ◌ ◌%ℤ◌ ◌*ℤ◌
refined = refl

found : find numbers 5 [] list ≡ some place
unfolding find
found = refl

register_measurement_result-HasValues_example :
    (values numbers list ≡ close numbers (values numbers place.before) (values numbers place.after))
    × Gives
        (HasValues numbers (
          close numbers
            (values numbers place.before)
            (record six { is_candidate = false; result = 20 } ∷ values numbers place.after)))
        (register_measurement_result numbers 6 1 20 list ((5, 3) ∷ []))
register_measurement_result-HasValues_example =
    register_measurement_result-HasValues numbers 6 1 20 list (5, 3) [] place
      (chain _ _ refl (gap _ _ _ refl refl (edge _ _ refl refl))) refl found

-- Two measurements were registered before, and four are asked for; each measures twice the value.
abbrev at_start : Refinement numbers
at_start = record {
  results = list;
  candidates = (5, 3) ∷ [];
  registered_measurements = 2;
  regular_measurements = 2;
  fresh = 6;
}

at_start-IsRefining : IsRefining numbers list ((5, 3) ∷ []) 6
at_start-IsRefining = record {
  is_chain = chain _ _ refl (gap _ _ _ refl refl (edge _ _ refl refl));
  queued = λ x. omega arith;
  single = λ x h. ground arith;
  older = λ x h. ground arith;
}

enough : (n : ℕ) → 4 ≤ n → continue_loop numbers 2 2 n ≡ false
enough n h = ground arith

refine-Ended_example :
    Gives (Ended numbers 2 at_start) (refine numbers 1 2 (λ i. pos_part i * 2) 3 at_start)
refine-Ended_example =
    refine-Ended numbers 1 2 (λ i. pos_part i * 2) 4 3 at_start enough at_start-IsRefining
      (omega arith) (omega arith)
