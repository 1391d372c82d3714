-- ===== src/Measurement/Execute.antt =====
-- src/measurement.c: `execute_measurement` on one process, with the communication buffer of src/mem.c. What
-- the other processes say, the clocks and what a measured call leaves are parameters. The assertion that
-- the loop begins with is kept: `none` is an abort.
pub mod Calls
pub mod Prepared
pub mod Safe
mod Tests
use mathlib.Core.Option
use ska_mpi.Prelude.{
  ℕ, zero, suc, ◌+◌, Bool, true, false, ◌||◌, ◌&&◌, List, [], ◌∷◌, Option, none, some,
  if◌then◌else◌, leb,
}
use ska_mpi.Prelude.Int.{ℤ, pos}
use ska_mpi.Buffer.{
  Buffer, init_buffer, check_buffer, is_buffer_too_small, set_send_buffer_usage,
  set_recv_buffer_usage,
}
use ska_mpi.Buffer.Slice.{set_send_buffer_slice_usage, set_recv_buffer_slice_usage}
use ska_mpi.Measurement.Batch.{Batch, first_max_counter, hard_limit, start_batch}
use ska_mpi.Measurement.Windows.{SyncType, sync_real, sync_nosync, Window}

-- What happens, with the buffer at each call of the measured function.
pub data Event : Type 0 where
  total_started total_stopped warned finalized flushed : Event
  called : Buffer → Event

pub record Process : Type 0 where
  pub buffer : Buffer
  pub window : Window
  pub batch : Batch
  pub result_index : ℕ
  pub reported_message_size : ℕ
  pub just_entered_measurement_block : Bool
  -- the latest first
  pub events : List Event

-- What the function that prepares a measurement calls.
pub data Request : Type 0 where
  send_buffer_usage recv_buffer_usage send_buffer_slice_usage recv_buffer_slice_usage : ℕ → Request
  reported_message_size : ℕ → Request
  synchronization : Request

-- `init_fp` is NULL, or the calls it makes; `finalize_fp` is not NULL. A measured call leaves its slices
-- of the buffers, and what it does with its window.
pub record Measured : Type 0 where
  pub init_fp : Option (List Request)
  pub finalize : Bool
  pub call_fp : Process → ℕ × (ℕ × Window)

-- What the process that gathers the results tells the others behind a batch.
pub record Broadcast : Type 0 where
  pub result_index : ℕ
  pub max_counter : ℕ
  pub interval : ℤ
  pub start_batch : ℤ

pub record Setting : Type 0 where
  pub min_repetitions : ℕ
  pub max_repetitions : ℕ
  pub lrootproc : Bool
  -- of any other process of the measurement
  pub others_too_small : Bool
  pub form_of_synchronization : SyncType
  pub mpi_wtime_is_global : Bool
  pub determine_time_differences : ℤ
  pub first_start : ℤ

abbrev pub say : Event → Process → Process
say e p = record p { events = e ∷ p.events }

module _ (c : Setting) where
  -- Where windows are kept, the difference of the clocks is found and a batch begins.
  unfoldable pub start_windows : Window → Window
  start_windows w = record w {
    tds = if c.mpi_wtime_is_global then w.tds else c.determine_time_differences;
    start_batch = c.first_start;
  }

  unfoldable pub init_synchronization : Process → Process
  init_synchronization p =
      let w = record p.window {
        current_synchronization = c.form_of_synchronization;
        interval = pos 0;
      } in
      record p {
        batch = record { max_counter = first_max_counter; first_measurement_run = true };
        window = elim c.form_of_synchronization [ sync_real ↦ start_windows w | _ ↦ w ];
      }

  unfoldable pub request : Request → Process → Process
  unfolding set_send_buffer_usage set_recv_buffer_usage set_send_buffer_slice_usage
      set_recv_buffer_slice_usage
  request (send_buffer_usage n) p = record p { buffer = set_send_buffer_usage n p.buffer }
  request (recv_buffer_usage n) p = record p { buffer = set_recv_buffer_usage n p.buffer }
  request (send_buffer_slice_usage n) p = record p {
    buffer = set_send_buffer_slice_usage n p.buffer;
  }
  request (recv_buffer_slice_usage n) p = record p {
    buffer = set_recv_buffer_slice_usage n p.buffer;
  }
  request (reported_message_size n) p = record p { reported_message_size = n }
  request synchronization p = init_synchronization p

  unfoldable pub requests : List Request → Process → Process
  requests [] p = p
  requests (r ∷ rs) p = requests rs (request r p)

  -- The usages and sizes are 0, and nothing is synchronised, until `init_fp` changes it.
  unfoldable pub forget_usages : Process → Process
  forget_usages p = record p {
    buffer = set_recv_buffer_slice_usage 0 (
        set_send_buffer_slice_usage 0 (set_recv_buffer_usage 0 (set_send_buffer_usage 0 p.buffer)));
    reported_message_size = 0;
    window = record p.window { current_synchronization = sync_nosync };
    batch = record p.batch { max_counter = c.min_repetitions };
  }

  module _ (t : Measured) where
    unfoldable pub prepare : Process → Process
    prepare p = elim t.init_fp [ none ↦ forget_usages p | some rs ↦ requests rs (forget_usages p) ]

    -- One call, with new buffers.
    unfoldable pub call_once : ℕ → Process → Process
    call_once counter p =
        let p = record p {
          buffer = check_buffer p.buffer;
          window = record p.window { counter = counter };
        } in
        let (send, (recv, w)) = t.call_fp p in
        record p {
          buffer = record p.buffer { send_buffer_slice = send; recv_buffer_slice = recv };
          window = w;
          result_index = suc p.result_index;
          events = called p.buffer ∷ p.events;
        }

    -- The calls of a batch.
    unfoldable pub calls : (counter rest : ℕ) → Process → Process
    calls counter zero p = p
    calls counter (suc rest) p = calls (suc counter) rest (call_once counter p)

    unfoldable pub one_batch : Process → Process
    one_batch p =
        let p = record p {
          batch = start_batch (hard_limit c.max_repetitions) p.result_index p.batch;
        } in
        calls 0 p.batch.max_counter p

    abbrev pub follow : Broadcast → Process → Process
    follow b p = record p {
      result_index = b.result_index;
      batch = record p.batch { max_counter = b.max_counter };
      window = record p.window { interval = b.interval; start_batch = b.start_batch };
    }

    -- A batch, and one more after each message that does not stop.
    unfoldable pub batches : List Broadcast → Process → Process
    batches [] p = one_batch p
    batches (b ∷ bs) p = batches bs (follow b (one_batch p))

    -- The assertion before the batches fails, or they are done, on a buffer that starts again.
    unfoldable pub measure_batches : List Broadcast → Process → Option Process
    measure_batches bs p =
        if leb c.min_repetitions c.max_repetitions
        then some (batches bs (record p { result_index = 0; buffer = init_buffer p.buffer }))
        else none

    abbrev pub is_too_small : Process → Bool
    is_too_small p = is_buffer_too_small p.buffer || c.others_too_small

    unfoldable pub warn : Bool → Process → Process
    warn too_small p =
        if c.lrootproc && p.just_entered_measurement_block && too_small
        then say warned p
        else record p { just_entered_measurement_block = false }

    -- Behind the measurement, up to `acc_stop_total`.
    abbrev pub finish : Process → Process
    finish p =
        let p = if t.finalize then say finalized p else p in
        if c.lrootproc then say total_stopped p else p

    -- Behind the question whether the buffer is too small, up to `acc_stop_total`. The assertion of the
    -- measurement loop is met only if the buffer is large enough.
    unfoldable pub conclude : (too_small : Bool) → List Broadcast → Process → Option Process
    conclude too_small bs p =
        let p = warn too_small p in
        let measured = measure_batches bs p in
        if too_small then some (finish p) else Option.map finish measured

    -- With the result MEAS_BUFFER_TOO_SMALL or MEAS_OK.
    unfoldable pub execute_measurement :
        (in_comm : Bool) → List Broadcast → Process → Option (ℕ × Process)
    execute_measurement in_comm bs p =
        let q = prepare (if c.lrootproc then say total_started p else p) in
        let too_small = is_too_small q in
        if in_comm
        then Option.map (λ r. (if too_small then 2 else 0, say flushed r)) (conclude too_small bs q)
        else some (0, say flushed p)
