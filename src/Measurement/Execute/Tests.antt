-- ===== src/Measurement/Execute/Tests.antt =====
-- A measurement with two batches.
use ska_mpi.Prelude.{ℕ, ◌≡◌, refl, [], ◌∷◌, true, false, some, none, Option}
use ska_mpi.Prelude.Int.{pos}
use ska_mpi.Arith.{imax2, imin2}
use ska_mpi.Buffer.{Buffer, is_buffer_too_small, set_send_buffer_usage, set_recv_buffer_usage}
use ska_mpi.Buffer.Slice.{set_send_buffer_slice_usage, set_recv_buffer_slice_usage}
use ska_mpi.Measurement.Batch.{hard_limit, start_batch}
use ska_mpi.Measurement.Windows.{Window, sync_barrier, sync_nosync}
use ska_mpi.Measurement.Execute.{
  Process, Measured, Setting, send_buffer_usage, reported_message_size, synchronization,
  execute_measurement, prepare, requests, request, init_synchronization, forget_usages, warn,
  conclude, measure_batches, batches, one_batch, calls, call_once,
}
use ska_mpi.Measurement.Execute.Calls.{calls_in}

-- 96 bytes at 1028, with alignments of 4.
abbrev memory : Buffer
memory = record {
  skampi_buffer = 1028;
  real_skampi_buffer = 1024;
  allocation_method = 0;
  send_buffer_usage = 0;
  recv_buffer_usage = 0;
  send_buffer_alignment = 4;
  recv_buffer_alignment = 4;
  skampi_buffer_alignment = 4;
  fresh_ptr = 1028;
  skampi_buffer_size = 64;
  skampi_real_buffer_size = 96;
  buffer_cycling = true;
  send_buffer_slice = 0;
  recv_buffer_slice = 0;
  send_buffer_slice_usage = 0;
  recv_buffer_slice_usage = 0;
  send_buffer = 1028;
  recv_buffer = 1028;
}

abbrev window : Window
window = record {
  current_synchronization = sync_nosync;
  counter = 0;
  interval = pos 0;
  start_batch = pos 0;
  tds = pos 0;
  invalid = λ i. 0;
  start_sync = pos 0;
  stop_sync = pos 0;
  stop_batch = pos 0;
}

abbrev process : Process
process = record {
  buffer = memory;
  window = window;
  batch = record { max_counter = 0; first_measurement_run = false };
  result_index = 0;
  reported_message_size = 0;
  just_entered_measurement_block = true;
  events = [];
}

abbrev setting : Setting
setting = record {
  min_repetitions = 3;
  max_repetitions = 8;
  lrootproc = true;
  others_too_small = false;
  form_of_synchronization = sync_barrier;
  mpi_wtime_is_global = true;
  determine_time_differences = pos 0;
  first_start = pos 0;
}

-- Sends `n` bytes.
abbrev sending : ℕ → Measured
sending n = record {
  init_fp = some (send_buffer_usage n ∷ reported_message_size n ∷ synchronization ∷ []);
  finalize = false;
  call_fp = λ p. (0, (0, p.window));
}

abbrev Returned : (code calls : ℕ) → Option (ℕ × Process) → Type 0
Returned code calls none = ⊥
Returned code calls (some (code', p)) = (code' ≡ code) × (calls_in p.events ≡ calls)

-- Sixteen bytes fit twice, and there are a batch of four calls and one of three; a hundred do not.
sends_sixteen : Returned 0 7 (
    execute_measurement setting
      (sending 16)
      true
      (record { result_index = 4; max_counter = 3; interval = pos 0; start_batch = pos 0 } ∷ [])
      process)
unfolding execute_measurement prepare requests request init_synchronization forget_usages warn
    conclude measure_batches batches one_batch calls call_once hard_limit start_batch imax2 imin2
    is_buffer_too_small set_send_buffer_usage set_recv_buffer_usage set_send_buffer_slice_usage
    set_recv_buffer_slice_usage
sends_sixteen = (refl, refl)

sends_hundred : Returned 2 0 (execute_measurement setting (sending 100) true [] process)
unfolding execute_measurement prepare requests request init_synchronization forget_usages warn
    conclude measure_batches batches one_batch calls call_once hard_limit start_batch imax2 imin2
    is_buffer_too_small set_send_buffer_usage set_recv_buffer_usage set_send_buffer_slice_usage
    set_recv_buffer_slice_usage
sends_hundred = (refl, refl)

-- More repetitions than the most: the assertion fails, but a measurement without room is refused before it.
abbrev out_of_order : Setting
out_of_order = record setting { min_repetitions = 9 }

assertion_fails :
    (execute_measurement out_of_order (sending 16) true [] process ≡ none)
    × Returned 2 0 (execute_measurement out_of_order (sending 100) true [] process)
unfolding execute_measurement prepare requests request init_synchronization forget_usages warn
    conclude measure_batches is_buffer_too_small set_send_buffer_usage set_recv_buffer_usage
    set_send_buffer_slice_usage set_recv_buffer_slice_usage
assertion_fails = (refl, (refl, refl))
