-- ===== src/Coll/Tests.antt =====
-- The blocks of three processes.
use ska_mpi.Prelude.{ℕ, ◌≤◌, ◌≡◌, map, refl, false, true, [], ◌∷◌, none, arith}
use ska_mpi.Prelude.Int.{pos}
use ska_mpi.Buffer.{
  limit, check_buffer, is_buffer_too_small, set_send_buffer_usage, set_recv_buffer_usage,
}
use ska_mpi.Buffer.Slice.{set_send_buffer_slice_usage, set_recv_buffer_slice_usage}
use ska_mpi.Measurement.{put}
use ska_mpi.Measurement.Compact.{window}
use ska_mpi.Measurement.Windows.{sync_barrier, sync_nosync}
use ska_mpi.Measurement.Execute.{
  Process, Setting, Measured, prepare, forget_usages, request, requests, init_synchronization,
}
use ska_mpi.Coll.{add_rest, initialize_counts, initialize_displs, init_Alltoallv, get_extent}
use ska_mpi.Coll.Blocks.{AreBlocks, initialize_counts-AreBlocks}
use ska_mpi.Coll.Gather.{Receive, init_Gather_using_Send_Recv, gather_receives, alltoall_receives}
use ska_mpi.Coll.Gather.Places.{Behind, gathered, gather_receives-fit, alltoall_receives-Behind}
use ska_mpi.Coll.Alltoallv.{Fits, vectors, measured, init_Alltoallv-Fits}

-- Eight elements for five processes.
eight_for_five : window ℕ (initialize_counts 5 8) 0 5 ≡ 2 ∷ 2 ∷ 1 ∷ 2 ∷ 1 ∷ []
unfolding initialize_counts add_rest put window
eight_for_five = refl

abbrev garbage : ℕ → ℕ
garbage i = 77

initialize_counts-AreBlocks_example :
    AreBlocks 5 8 (initialize_counts 5 8) (initialize_displs garbage 5 (initialize_counts 5 8))
initialize_counts-AreBlocks_example = initialize_counts-AreBlocks garbage 5 8 (omega arith)

-- 200 bytes at 1028, with alignments of 4.
abbrev process : Process
process = record {
  buffer = record {
    skampi_buffer = 1028;
    real_skampi_buffer = 1024;
    allocation_method = 0;
    send_buffer_usage = 0;
    recv_buffer_usage = 0;
    send_buffer_alignment = 4;
    recv_buffer_alignment = 4;
    skampi_buffer_alignment = 4;
    fresh_ptr = 1028;
    skampi_buffer_size = 168;
    skampi_real_buffer_size = 200;
    buffer_cycling = true;
    send_buffer_slice = 0;
    recv_buffer_slice = 0;
    send_buffer_slice_usage = 0;
    recv_buffer_slice_usage = 0;
    send_buffer = 1028;
    recv_buffer = 1028;
  };
  window = record {
    current_synchronization = sync_nosync;
    counter = 0;
    interval = pos 0;
    start_batch = pos 0;
    tds = pos 0;
    invalid = λ i. 0;
    start_sync = pos 0;
    stop_sync = pos 0;
    stop_batch = pos 0;
  };
  batch = record { max_counter = 0; first_measurement_run = false };
  result_index = 0;
  reported_message_size = 0;
  just_entered_measurement_block = true;
  events = [];
}

abbrev setting : Setting
setting = record {
  min_repetitions = 3;
  max_repetitions = 8;
  lrootproc = true;
  others_too_small = false;
  form_of_synchronization = sync_barrier;
  mpi_wtime_is_global = true;
  determine_time_differences = pos 0;
  first_start = pos 0;
}

abbrev any : Measured
any = record { init_fp = none; finalize = false; call_fp = λ p. (0, (0, p.window)) }

-- Two elements of four bytes for each of three processes, and three of the same.
room :
    is_buffer_too_small (prepare setting (measured setting any garbage 3 2 4 3 4) process).buffer
    ≡ false
unfolding prepare requests request init_synchronization forget_usages init_Alltoallv get_extent
    is_buffer_too_small set_send_buffer_usage set_recv_buffer_usage set_send_buffer_slice_usage
    set_recv_buffer_slice_usage
room = refl

init_Alltoallv-Fits_example :
    let q = prepare setting (measured setting any garbage 3 2 4 3 4) process in
    let b = check_buffer q.buffer in
    let v = vectors setting any garbage 3 2 4 3 4 in
    Fits 3 4 b.send_buffer b.recv_buffer v.send_counts v.send_displs
    × Fits 3 4 b.recv_buffer (limit q.buffer) v.recv_counts v.recv_displs
init_Alltoallv-Fits_example =
    init_Alltoallv-Fits setting any garbage 3 2 4 3 4 process (omega arith)
      (record { send_positive = omega arith; recv_positive = omega arith; fresh_in = omega arith })
      room

-- The root 1 of three processes, three elements of four bytes from each.
gather_room :
    is_buffer_too_small (prepare setting (gathered setting any 3 1 3 4 3 4) process).buffer ≡ false
unfolding prepare requests request init_synchronization forget_usages init_Gather_using_Send_Recv
    get_extent is_buffer_too_small set_send_buffer_usage set_recv_buffer_usage
    set_send_buffer_slice_usage set_recv_buffer_slice_usage
gather_room = refl

gather_receives-fit_example :
    let q = prepare setting (gathered setting any 3 1 3 4 3 4) process in
    let b = check_buffer q.buffer in
    (map Receive.source (gather_receives 1 3 4 b.recv_buffer 3 0) ≡ 0 ∷ 2 ∷ [])
    × Behind b.recv_buffer (limit q.buffer) (gather_receives 1 3 4 b.recv_buffer 3 0)
gather_receives-fit_example =
    gather_receives-fit setting any 3 1 3 4 3 4 process
      (record { send_positive = omega arith; recv_positive = omega arith; fresh_in = omega arith })
      gather_room

-- One element of four bytes from each of two processes.
alltoall_receives-Behind_example : 1 ≤ 1
unfolding alltoall_receives
alltoall_receives-Behind_example =
    alltoall_receives-Behind 1 4 1000 1008 2 (omega arith) (omega arith)
      ((omega arith, (omega arith, (omega arith, (omega arith, tt)))))
