-- ===== src/Measurement/Batch.antt =====
-- src/measurement.c: the sizes of the batches of `measurement_loop`.
use ska_mpi.Prelude.{ℕ, ◌+◌, ◌-◌, ◌*◌, ◌/◌, Bool, false, ltb, if◌then◌else◌}
use ska_mpi.Arith.{imax2, imin2}

pub record Batch : Type 0 where
  pub max_counter : ℕ
  pub first_measurement_run : Bool

abbrev pub first_max_counter : ℕ
first_max_counter = 4

-- `max_rep_hard_limit`; the conversion to `int` cuts the fraction off.
unfoldable pub hard_limit : (max_repetitions : ℕ) → ℕ
hard_limit max_repetitions = imax2 first_max_counter ((3 * max_repetitions + 1) / 2)

-- At the start of a batch, no more measurements than there is room for results.
unfoldable pub start_batch : (limit result_index : ℕ) → Batch → Batch
start_batch limit result_index b = record b {
  max_counter = imin2 (limit - result_index) b.max_counter;
}

-- The changes that `update_batch_params` makes to `max_counter` and `first_measurement_run`.
unfoldable pub update_batch : (sync_real : Bool) (min_repetitions longest_run : ℕ) → Batch → Batch
update_batch sync_real min_repetitions longest_run b =
    if sync_real
    then (if b.first_measurement_run
        then record b { first_measurement_run = false; max_counter = min_repetitions }
        else (if ltb (b.max_counter / 2) longest_run
            then record b { max_counter = imax2 (b.max_counter / 2) first_max_counter }
            else b))
    else record b { max_counter = imax2 4 min_repetitions }
