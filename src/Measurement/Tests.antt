-- ===== src/Measurement/Tests.antt =====
-- Small batches, and the theorems at them.
use ska_mpi.Prelude.{
  true, false, ℕ, ◌↔◌, ◌+◌, ◌*◌, ◌≡◌, ◌≤◌, ◌<◌, refl, List, [], ◌∷◌, arith, ◌==◌, if◌then◌else◌,
}
use ska_mpi.Measurement.{
  move_up, get_number_flawed_measurements, move_column, put, book, get_longest_run,
}
use ska_mpi.Arith.{imax2}
use ska_mpi.Measurement.Batch.{Batch, update_batch}
use ska_mpi.Measurement.Flawed.{get_number_flawed_measurements_lem}
use ska_mpi.Measurement.Compact.{MovesUp, move_up-MovesUp, window}
use ska_mpi.Measurement.Longest.{number_late, HasStretch}
use ska_mpi.Measurement.Runs.{get_longest_run_lem}

-- the flags of a batch of five
abbrev flags : List ℕ
flags = 0 ∷ 600 ∷ 601 ∷ 0 ∷ 0 ∷ []

-- the result at each index
abbrev results : ℕ → ℕ
results i = 10 * i

move_up_runs : window ℕ (move_up ℕ flags 2 2 results).all_results 0 5 ≡ 0 ∷ 10 ∷ 20 ∷ 50 ∷ 60 ∷ []
unfolding move_up move_column put book window
move_up_runs = refl

move_up-MovesUp_example : MovesUp ℕ flags 2 2 results (move_up ℕ flags 2 2 results)
move_up-MovesUp_example = move_up-MovesUp ℕ flags 2 results

-- Two processes: the second has two late measurements in a row.
get_longest_run_example :
    let all : List (List ℕ) = (0 ∷ 600 ∷ 0 ∷ 0 ∷ []) ∷ (0 ∷ 600 ∷ 600 ∷ 0 ∷ []) ∷ [] in
    let n = get_longest_run all in (number_late (600 ∷ 600 ∷ []) ≤ n) × (n ≤ 4) × HasStretch all n
get_longest_run_example =
    get_longest_run_lem 4 ((0 ∷ 600 ∷ 0 ∷ 0 ∷ []) ∷ []) [] (0 ∷ []) (600 ∷ 600 ∷ []) (0 ∷ [])
      (refl, (refl, tt)) (omega arith, (omega arith, tt))

-- The flags of two processes for three measurements each: all but the last are flawed.
abbrev two_processes : ℕ → ℕ
two_processes i = if i == 0 then 600 else (if i == 4 then 601 else 0)

get_number_flawed_measurements_example :
    let (n, g') = get_number_flawed_measurements 3 2 two_processes in
    ((g' 1 ≡ 0) ↔ ((p : ℕ) → p < 2 → two_processes (p * 3 + 1) ≡ 0))
    × ((move_up ℕ (window ℕ g' 0 3) 5 5 results).result_index + n ≡ 5 + 3)
get_number_flawed_measurements_example =
    get_number_flawed_measurements_lem 3 2 (omega arith) ℕ two_processes 5 results 1 (omega arith)

-- After 12 results and five late measurements of eight in a row, the next batch is of four.
abbrev eight : Batch
eight = record { max_counter = 8; first_measurement_run = false }

update_batch_runs : (update_batch true 8 5 eight).max_counter ≡ 4
unfolding update_batch imax2
update_batch_runs = refl
