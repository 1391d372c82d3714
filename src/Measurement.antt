-- ===== src/Measurement.antt =====
-- src/measurement.c: what is done with the results of a batch. `all_results` and `global_invalid` are
-- arrays: functions of the index. A flag is 0 for a valid measurement, 600 or 601 otherwise.
pub mod Batch
pub mod Compact
pub mod Flawed
pub mod Longest
pub mod Runs
pub mod Statistics
pub mod Loop
pub mod Windows
pub mod Execute
pub mod Elements
pub mod Tests
use ska_mpi.Prelude.{
  ℕ, zero, suc, ◌+◌, ◌-◌, ◌*◌, ◌/◌, List, [], ◌∷◌, ◌++◌, ltb, ◌==◌, if◌then◌else◌,
}
use ska_mpi.Arith.{imax2}

-- `INVALID_STARTED_LATE` and `INVALID_TOOK_TOO_LONG`
abbrev pub invalid_started_late : ℕ
invalid_started_late = 600

abbrev pub invalid_took_too_long : ℕ
invalid_took_too_long = 601

-- An assignment to an element.
unfoldable pub put {ℓ} : {A : Type ℓ} → ℕ → A → (ℕ → A) → ℕ → A
put i v all j = if j == i then v else all j

module _ (Column : Type 0) where
  -- What is booked on the accounts: the interval of a measurement that took too long, or what a valid
  -- one took, which is the largest of its column, and the rest of its interval.
  pub data Booking : Type 0 where
    over_time : Booking
    comm_and_wait_time : Column → Booking

  pub record Moved : Type 0 where
    pub all_results : ℕ → Column
    pub result_index : ℕ
    pub bookings : List Booking

  unfoldable pub book : Booking → Moved → Moved
  book x m = record m { bookings = x ∷ m.bookings }

  -- A column of `all_results` holds the results of all processes for one measurement.
  unfoldable pub move_column : ℕ → ℕ → (ℕ → Column) → ℕ → Column
  unfolding put
  move_column source dest all = if source == dest then all else put dest (all source) all

  -- The loop that moves the valid results up, on the flags from `source` to the old `result_index`.
  unfoldable pub move_up : (flags : List ℕ) (source dest : ℕ) → (ℕ → Column) → Moved
  unfolding book move_column
  move_up [] source dest all = record { all_results = all; result_index = dest; bookings = [] }
  move_up (flag ∷ flags) source dest all =
      let skipped = move_up flags (suc source) dest all in
      let kept = move_up flags (suc source) (suc dest) (move_column source dest all) in
      if flag == 0
      then book (comm_and_wait_time (all source)) kept
      else (if flag == invalid_took_too_long then book over_time skipped else skipped)

-- The worst flag of measurement `i`, over `rest` processes from `p` on. The flags of a process are
-- `max_counter` elements of `global_invalid`.
unfoldable pub flawed_at : (max_counter i p rest flawed : ℕ) → (ℕ → ℕ) → ℕ
flawed_at max_counter i p zero flawed global_invalid = flawed
flawed_at max_counter i p (suc rest) flawed global_invalid =
    flawed_at max_counter i (suc p) rest (imax2 flawed (global_invalid (p * max_counter + i)))
      global_invalid

-- The outer loop, over `rest` measurements from `i` on: the number of flawed ones, and the flags.
unfoldable pub number_from : (max_counter size i rest : ℕ) → ℕ → (ℕ → ℕ) → ℕ × (ℕ → ℕ)
unfolding flawed_at put
number_from max_counter size i zero flawed_measurements global_invalid =
    (flawed_measurements, global_invalid)
number_from max_counter size i (suc rest) flawed_measurements global_invalid =
    let flawed = flawed_at max_counter i 0 size 0 global_invalid in
    let next =
      number_from max_counter size (suc i) rest (suc flawed_measurements)
        (put i flawed global_invalid) in
    let same = number_from max_counter size (suc i) rest flawed_measurements global_invalid in
    if flawed == 0 then same else next

unfoldable pub get_number_flawed_measurements : (max_counter size : ℕ) → (ℕ → ℕ) → ℕ × (ℕ → ℕ)
unfolding number_from
get_number_flawed_measurements max_counter size global_invalid =
    number_from max_counter size 0 max_counter 0 global_invalid

-- The inner loop of `get_longest_run`, over the flags of a process.
unfoldable pub run_of : List ℕ → (longest_run run_counter : ℕ) → ℕ
unfolding imax2
run_of [] longest_run run_counter = imax2 longest_run run_counter
run_of (flag ∷ flags) longest_run run_counter =
    let valid = run_of flags (imax2 longest_run run_counter) 0 in
    let late = run_of flags longest_run (suc run_counter) in
    let other = run_of flags longest_run run_counter in
    if flag == 0 then valid else (if flag == invalid_started_late then late else other)

-- The flags of each process in turn.
unfoldable pub longest_from : List (List ℕ) → ℕ → ℕ
unfolding run_of
longest_from [] longest_run = longest_run
longest_from (p ∷ ps) longest_run = longest_from ps (run_of p longest_run 0)

unfoldable pub get_longest_run : List (List ℕ) → ℕ
unfolding longest_from
get_longest_run ps = longest_from ps 0

-- The index into the sorted results that `extract_quantiles` reads for the quantile `p`.
unfoldable pub quantile_index : (ms max_nr_node_times p : ℕ) → ℕ
quantile_index ms max_nr_node_times p =
    if ltb 1 max_nr_node_times
    then (if ltb p (max_nr_node_times - 1) then ms * p / (max_nr_node_times - 1) else ms - 1)
    else ms / 2
