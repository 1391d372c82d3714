-- ===== src/Measurement/Loop.antt =====
-- src/measurement.c: `measurement_loop`, as the process sees it that gathers the results. What the
-- processes report of a batch is a parameter: it is what their clocks and the measured calls gave.
pub mod Rounds
pub mod Termination
pub mod Kept
mod Tests
use ska_mpi.Prelude.{
  ℕ, zero, suc, ◌+◌, ◌-◌, ◌*◌, ◌/◌, Bool, true, false, ◌&&◌, ◌||◌, Option, none, some, List, [],
  ◌∷◌, ◌++◌, ltb, leb, if◌then◌else◌,
}
use ska_mpi.Prelude.Doubles.{Doubles}
use ska_mpi.Measurement.{
  Booking, over_time, comm_and_wait_time, Moved, move_up, get_longest_run,
  get_number_flawed_measurements,
}
use ska_mpi.Measurement.Batch.{Batch, hard_limit, start_batch, update_batch}
use ska_mpi.Measurement.Compact.{window}
use ska_mpi.Measurement.Statistics.{
  Column, Statistics, of_nat, fmax2, max_result, update_std_error, reset_sums,
}

module _ (d : Doubles) where
  open d use {Double, add, sub, mult, div, less, less_equal, of_int}

  -- What the script sets, the number of processes, and whether windows of time are kept.
  pub record Settings : Type 0 where
    pub min_repetitions : ℕ
    pub max_repetitions : ℕ
    pub max_relative_standard_error : Double
    pub size : ℕ
    pub sync_real : Bool

  -- What is gathered of a batch: the results of measurement `i`, the flags of all processes one behind the
  -- other, the last end of the batch, and the clock at the start of the next one.
  pub record Report : Type 0 where
    pub results : ℕ → Column d
    pub global_invalid : ℕ → ℕ
    pub global_stop_batch : Double
    pub next_start : Double

  -- What is added to the accounts.
  pub data Posting : Type 0 where
    to_over_time : Double → Posting
    to_comm_time : Double → Posting
    to_wait_time : Double → Posting

  pub record Progress : Type 0 where
    pub all_results : ℕ → Column d
    pub result_index : ℕ
    pub batch : Batch
    pub interval : Double
    pub start_batch : Double
    pub statistics : Statistics d
    pub postings : List Posting

  -- The batch with its size and the state in front of it.
  abbrev pub Reports : Type 0
  Reports = Progress → Report

  module _ (c : Settings) where
    -- MPI_Gatherv, of `n` results from `start` on
    unfoldable pub gather : (start n : ℕ) → (ℕ → Column d) → (ℕ → Column d) → ℕ → Column d
    gather start n results all j =
        if leb start j then (if ltb j (start + n) then results (j - start) else all j) else all j

    -- The flags of each process.
    unfoldable pub flags_of : (max_counter p rest : ℕ) → (ℕ → ℕ) → List (List ℕ)
    flags_of max_counter p zero g = []
    flags_of max_counter p (suc rest) g =
        window ℕ g (p * max_counter) max_counter ∷ flags_of max_counter (suc p) rest g

    unfoldable pub post : (interval : Double) → List (Booking (Column d)) → List Posting
    post interval [] = []
    post interval (over_time ∷ bs) = to_over_time interval ∷ post interval bs
    post interval (comm_and_wait_time column ∷ bs) =
        let m = max_result d column 0 c.size d.zero in
        to_comm_time m ∷ to_wait_time (sub interval m) ∷ post interval bs

    -- The `interval` that `update_batch_params` sets, twice as long at least.
    unfoldable pub update_interval :
        (flawed_measurements max_counter : ℕ) → (elapsed interval : Double) → Double
    update_interval flawed_measurements max_counter elapsed interval =
        if ltb (max_counter / 4) flawed_measurements
        then fmax2 d (mult (of_nat d 2) interval)
            (mult (div elapsed (of_nat d (max_counter + 1))) (div (of_nat d 3) (of_nat d 2)))
        else interval

    -- The windows of a batch: its valid results are moved up.
    unfoldable pub keep_valid : Report → (start n : ℕ) → Progress → Progress
    keep_valid r start n p =
        let longest_run = get_longest_run (flags_of n 0 c.size r.global_invalid) in
        let (flawed_measurements, g) = get_number_flawed_measurements n c.size r.global_invalid in
        let elapsed = sub r.global_stop_batch p.start_batch in
        let moved = move_up (Column d) (window ℕ g 0 n) start start p.all_results in
        record p {
          all_results = moved.all_results;
          result_index = moved.result_index;
          batch = update_batch true c.min_repetitions longest_run p.batch;
          interval = update_interval flawed_measurements n elapsed p.interval;
          start_batch = r.next_start;
          postings =
              p.postings
              ++ post p.interval moved.bookings
              ++ to_over_time (sub elapsed (mult (of_nat d n) p.interval)) ∷ [];
        }

    -- What is kept of a batch of `n` results behind the first `start`.
    unfoldable pub keep : Report → (start n : ℕ) → Progress → Progress
    keep r start n p = if c.sync_real then keep_valid r start n p else record p {
      result_index = start + n;
      batch = update_batch false c.min_repetitions 0 p.batch;
    }

    -- In front of a batch, no more measurements than there is room for results.
    unfoldable pub ask : Progress → Progress
    ask p = record p { batch = start_batch (hard_limit c.max_repetitions) p.result_index p.batch }

    -- A batch that was asked for, its results, and what they change.
    unfoldable pub run_batch : Report → Progress → Progress
    run_batch r p =
        let start = p.result_index in
        let n = p.batch.max_counter in
        let p =
          keep r start n (record p { all_results = gather start n r.results p.all_results }) in
        record p {
          statistics = update_std_error d c.size p.all_results start p.result_index p.statistics;
        }

    -- One round of the loop.
    unfoldable pub round : Reports → Progress → Progress
    round reports p = let p = ask p in run_batch (reports p) p

    unfoldable pub is_precise : Statistics d → Bool
    is_precise s = less_equal s.std_error (mult c.max_relative_standard_error s.mean_value)

    unfoldable pub stop : Progress → Bool
    stop p =
        leb c.max_repetitions p.result_index
        || leb c.min_repetitions p.result_index && is_precise p.statistics

    -- `do ... while( !stop )`; no result stands for a loop that goes on.
    unfoldable pub rounds : ℕ → Reports → Progress → Option Progress
    rounds zero reports p = none
    rounds (suc fuel) reports p =
        let p = round reports p in elim (stop p) [ true ↦ some p | false ↦ rounds fuel reports p ]

    -- The start: `init_synchronization` is called by the measured function; the rest is reset here.
    abbrev pub begin : Progress → Progress
    begin p = record p { result_index = 0; statistics = reset_sums d p.statistics; postings = [] }

    -- `measurement_loop`, with the assertion at its start.
    unfoldable pub measurement_loop : ℕ → Reports → Progress → Option Progress
    measurement_loop fuel reports p =
        if leb c.min_repetitions c.max_repetitions then rounds fuel reports (begin p) else none
