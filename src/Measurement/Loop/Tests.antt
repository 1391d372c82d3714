-- ===== src/Measurement/Loop/Tests.antt =====
-- Small measurement loops, and the theorems at them.
use ska_mpi.Prelude.{
  ℕ, zero, suc, map, ◌<◌, ◌+◌, ◌*◌, ◌≡◌, refl, true, false, Option, none, some, [], ◌∷◌, ◌++◌, ◌==◌,
  if◌then◌else◌, arith,
}
use ska_mpi.Prelude.Int.{pos}
use ska_mpi.Prelude.Doubles.Whole.{doubles}
use ska_mpi.Measurement.{get_number_flawed_measurements, move_up, move_column, put, book}
use ska_mpi.Arith.{imax2}
use ska_mpi.Measurement.Compact.{window}
use ska_mpi.Measurement.Statistics.{Statistics, reset_sums, update_std_error}
use ska_mpi.Measurement.Loop.{
  Settings, Report, Progress, Reports, run_batch, keep, keep_valid, gather, flags_of,
  measurement_loop,
}
use ska_mpi.Measurement.Loop.Rounds.{AreProductive}
use ska_mpi.Measurement.Loop.Termination.{Ends, IsDone, measurement_loop-Ends}
use ska_mpi.Measurement.Loop.Kept.{kept, added, run_batch-kept}

-- Two processes, three to eight repetitions, with windows.
abbrev settings : Settings doubles
settings = record {
  min_repetitions = 3;
  max_repetitions = 8;
  max_relative_standard_error = pos 0;
  size = 2;
  sync_real = true;
}

-- Measurement `i` takes the time `i` on one process and `i + 10` on the other one, which is too late for
-- the second measurement of each batch.
abbrev report : ℕ → Report doubles
report n = record {
  results = λ i p. if p == 0 then pos i else pos (i + 10);
  global_invalid = λ k. if k == n + 1 then 600 else 0;
  global_stop_batch = pos 100;
  next_start = pos 100;
}

abbrev reports : Reports doubles
reports p = report p.batch.max_counter

abbrev nothing : Statistics doubles
nothing = record {
  max_results = λ i. pos 0;
  sum_of_results = pos 7;
  sum_of_squares = pos 7;
  mean_value = pos 0;
  std_error = pos 0;
}

abbrev start : Progress doubles
start = record {
  all_results = λ i p. pos 0;
  result_index = 0;
  batch = record { max_counter = 3; first_measurement_run = true };
  interval = pos 20;
  start_batch = pos 0;
  statistics = nothing;
  postings = [];
}

abbrev index_of : Option (Progress doubles) → ℕ
index_of none = 0
index_of (some p) = p.result_index

-- Of three measurements the first and the last one are kept.
batch_of_three :
    map (λ column. column 1) (kept doubles settings (run_batch doubles settings (report 3) start))
    ≡ pos 10 ∷ pos 12 ∷ []
unfolding run_batch keep keep_valid update_std_error get_number_flawed_measurements move_up window
    gather flags_of move_column put book imax2
batch_of_three = refl

first_valid : (n p : ℕ) → p < 2 → (report n).global_invalid (p * n + 0) ≡ 0
first_valid n zero h = let e : (0 * n + 0 == n + 1) ≡ false = ground arith in rw e refl
first_valid n (suc zero) h = let e : (1 * n + 0 == n + 1) ≡ false = ground arith in rw e refl
first_valid n (suc (suc p)) h = absurd (omega arith)

reports_productive : AreProductive doubles settings reports
reports_productive _ p h = (0, (h, first_valid p.batch.max_counter))

-- Witnesses.
run_batch-kept_example :
    kept doubles settings (run_batch doubles settings (report 3) start)
    ≡ kept doubles settings start ++ added doubles settings (report 3) 3
run_batch-kept_example = run_batch-kept doubles settings (report 3) start (omega arith)

measurement_loop-Ends_example :
    Ends doubles settings reports
      (IsDone doubles settings reports (reset_sums doubles nothing))
      (measurement_loop doubles settings 8 reports start)
measurement_loop-Ends_example =
    measurement_loop-Ends doubles settings reports (omega arith) (omega arith) reports_productive 8
      start (omega arith) (omega arith) (omega arith)
