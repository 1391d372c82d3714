-- ===== src/Synchronize/Differences/Tests.antt =====
-- Three processes, of which the first one's clock is behind.
use ska_mpi.Prelude.{ℕ, zero, suc, ◌+◌, ◌<◌, ◌≡◌, refl, arith}
use ska_mpi.Prelude.Int.{ℤ, pos, negsuc, ◌+ℤ◌, ◌-ℤ◌, ◌/ℤ◌, int_laws}
use ska_mpi.Measurement.{put}
use ska_mpi.Synchronize.{Bounds}
use ska_mpi.Synchronize.Offset.{HasOffset}
use ska_mpi.Synchronize.Differences.{
  estimate, for_ranks, root_differences, other_differences, determine_time_differences,
}
use ska_mpi.Synchronize.Differences.Estimates.{
  IsExact, AreEstimated, determine_time_differences-AreEstimated,
}

abbrev global : ℕ → ℕ
global k = k + 4

abbrev clock : ℕ → ℤ
clock zero = pos 0
clock (suc k) = pos 5

abbrev found : ℕ → Bounds
found k = record { td_min = pos 4; td_max = pos 6; my_time = pos 0 }

-- From 7 units behind to 3 behind.
abbrev own : Bounds
own = record { td_min = negsuc 6; td_max = negsuc 2; my_time = pos 0 }

-- The second process finds itself 0 ahead of itself, and the third one 0 ahead, too.
second_of_three :
    (determine_time_differences global 3 1 found own (λ i. pos 0) (λ i. pos 0)) 6 ≡ pos 0
unfolding determine_time_differences root_differences other_differences for_ranks estimate put ◌+ℤ◌
    ◌/ℤ◌
second_of_three = refl

distinct : (j k : ℕ) → j < 3 → k < 3 → global j ≡ global k → j ≡ k
distinct j k g h e = omega arith

found-IsExact : IsExact global 3 distinct (found 0)
unfolding estimate ◌+ℤ◌ ◌/ℤ◌
found-IsExact = refl

own-IsExact : IsExact global 3 distinct own
unfolding estimate ◌+ℤ◌ ◌/ℤ◌
own-IsExact = refl

found_all :
    (k : ℕ)
    → 0 < k
    → k < 3
    → HasOffset (clock k -ℤ clock 0) (found k) × IsExact global 3 distinct (found k)
found_all zero h l = absurd (omega arith)
found_all (suc k) h l = (record { above = omega int_laws; below = omega int_laws }, found-IsExact)

determine_time_differences-AreEstimated_example :
    AreEstimated global 3 distinct clock 1 found own
      (determine_time_differences global 3 0 found own (λ i. pos 0) (λ i. pos 0))
      (determine_time_differences global 3 1 found own (λ i. pos 0) (λ i. pos 0))
determine_time_differences-AreEstimated_example =
    determine_time_differences-AreEstimated global 3 distinct clock 1 found own (λ i. pos 0)
      (λ i. pos 0) (omega arith) (omega arith) found_all
      (record { above = omega int_laws; below = omega int_laws }) own-IsExact
