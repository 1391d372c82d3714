-- ===== src/Synchronize/Differences.antt =====
-- src/synchronize.c: `determine_time_differences`, which puts the differences of all clocks together. The exchanges
-- are parameters, by the bounds that they found, and an array is a function of the index.
pub mod Estimates
mod Tests
use ska_mpi.Prelude.{ℕ, zero, suc, ◌+◌, ◌-◌, ◌==◌, if◌then◌else◌}
use ska_mpi.Prelude.Int.{ℤ, pos, ◌+ℤ◌, ◌/ℤ◌}
use ska_mpi.Measurement.{put}
use ska_mpi.Synchronize.{Bounds}

-- `(td_min+td_max)/2.0`
unfoldable pub estimate : Bounds → ℤ
estimate b = (b.td_min +ℤ b.td_max) /ℤ pos 2

module _ (get_global_rank : ℕ → ℕ) where
  -- A loop of `rest` rounds from the rank `i` on, which sets what is kept for each rank.
  unfoldable pub for_ranks : (value : (ℕ → ℤ) → ℕ → ℤ) (i rest : ℕ) → (ℕ → ℤ) → ℕ → ℤ
  for_ranks value i zero tds = tds
  for_ranks value i (suc rest) tds =
      for_ranks value (suc i) rest (put (get_global_rank i) (value tds i) tds)

  -- The exchanges of the process 0, whose bounds for each other process are given.
  unfoldable pub root_differences : (size : ℕ) (found : ℕ → Bounds) → (ℕ → ℤ) → ℕ → ℤ
  root_differences size found tds = for_ranks (λ tds i. estimate (found i)) 1 (size - 1) tds

  -- Another process, whose exchange found `own`; `tmp_tds` is what the process 0 sends to all.
  unfoldable pub other_differences : (size : ℕ) (own : Bounds) (tmp_tds : ℕ → ℤ) → (ℕ → ℤ) → ℕ → ℤ
  other_differences size own tmp_tds tds =
      for_ranks (λ tds i. tmp_tds i +ℤ tds (get_global_rank 0)) 1 (size - 1)
        (put (get_global_rank 0) (estimate own) tds)

  -- The array of the process with the rank `rank` afterwards, where `root_tds` and `tds` were those of the
  -- process 0 and of this one.
  unfoldable pub determine_time_differences :
      (size rank : ℕ) (found : ℕ → Bounds) (own : Bounds) (root_tds tds : ℕ → ℤ) → ℕ → ℤ
  determine_time_differences size rank found own root_tds tds =
      let root = root_differences size found root_tds in
      if rank == 0 then root else other_differences size own (λ i. root (get_global_rank i)) tds
