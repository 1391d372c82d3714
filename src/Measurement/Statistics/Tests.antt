-- ===== src/Measurement/Statistics/Tests.antt =====
-- The final results of five measurements.
use mathlib.Core.List.Perm
use ska_mpi.Prelude.{ℕ, ◌≡◌, refl, List, [], ◌∷◌, if◌then◌else◌, ◌==◌}
use ska_mpi.Prelude.Int.{ℤ, pos, ltb_ℤ, ◌+ℤ◌, ◌/ℤ◌}
use ska_mpi.Prelude.Doubles.Whole.{doubles}
use ska_mpi.Measurement.Statistics.{Statistics, sum_at, extract_final_results}
use ska_mpi.Measurement.Statistics.Trimmed.{IsTrimmed, extract_final_results-IsTrimmed}

-- An insertion sort.
abbrev insert : (ℕ → ℤ) → ℕ → List ℕ → List ℕ
insert f i [] = i ∷ []
insert f i (j ∷ js) = let rest = insert f i js in if ltb_ℤ (f j) (f i) then j ∷ rest else i ∷ j ∷ js

abbrev sort : (ℕ → ℤ) → List ℕ → List ℕ
sort f [] = []
sort f (i ∷ is) = insert f i (sort f is)

-- The second result is the smallest, the first one the next; the last one is out of the way.
abbrev statistics : Statistics doubles
statistics = record {
  max_results = λ i.
      if i == 0 then pos 12 else (if i == 1 then pos 4 else (if i == 4 then pos 999 else pos 15));
  sum_of_results = pos 0;
  sum_of_squares = pos 0;
  mean_value = pos 0;
  std_error = pos 0;
}

five :
    (extract_final_results doubles sort (λ i p. statistics.max_results i) 5 statistics).final_result
    ≡ pos 14
unfolding extract_final_results sum_at ◌+ℤ◌ ◌/ℤ◌
five = refl

extract_final_results-IsTrimmed_example :
    IsTrimmed doubles
      (λ i p. statistics.max_results i)
      5
      statistics
      (extract_final_results doubles sort (λ i p. statistics.max_results i) 5 statistics)
extract_final_results-IsTrimmed_example =
    extract_final_results-IsTrimmed doubles sort (λ i p. statistics.max_results i) 5 statistics
      (Perm.swap 0 1 (2 ∷ 3 ∷ 4 ∷ [])) refl
      (
        (refl, (refl, (refl, (refl, tt)))),
        ((refl, (refl, (refl, tt))), ((refl, (refl, tt)), ((refl, tt), (tt, tt)))),
      )
