-- ===== src/Buffer/Tests.antt =====
-- The buffer of src/mem.c on small buffers, and the theorems at them.
use ska_mpi.Prelude.{ℕ, ◌+◌, ◌≤◌, ◌<◌, ◌≡◌, refl, arith, true, false, some, [], ◌∷◌, ◌++◌}
use ska_mpi.Prelude.Int.{pos}
use ska_mpi.Arith.{gcd, lcm}
use ska_mpi.Align.{alignment_fix, align_ptr}
use ska_mpi.Align.Least.{IsAligned, align_ptr_lem}
use ska_mpi.Buffer.{Buffer, check_buffer, is_buffer_too_small}
use ska_mpi.Buffer.Alloc.{at_least_one, set_send_buffer_alignment}
use ska_mpi.Buffer.Placement.{IsPlaced, check_buffer-IsPlaced}
use ska_mpi.Buffer.Overrun.{third_buffer_overruns}
use ska_mpi.Buffer.Blocks.{IsCommon, set_send_buffer_alignment-IsCommon}
use ska_mpi.Buffer.Slice.{slice_fix, get_send_buffer_min_size}
use ska_mpi.Buffer.Slices.{positions, send_slices, send_slices_exact}

-- A block of 96 bytes at 1024 with alignments of 4, and a receive buffer of 32 bytes, cycling.
abbrev cycling : Buffer
cycling = record {
  skampi_buffer = 1028;
  real_skampi_buffer = 1024;
  allocation_method = 0;
  send_buffer_usage = 0;
  recv_buffer_usage = 32;
  send_buffer_alignment = 4;
  recv_buffer_alignment = 4;
  skampi_buffer_alignment = 4;
  fresh_ptr = 1028;
  skampi_buffer_size = 64;
  skampi_real_buffer_size = 96;
  buffer_cycling = true;
  send_buffer_slice = 0;
  recv_buffer_slice = 0;
  send_buffer_slice_usage = 5;
  recv_buffer_slice_usage = 5;
  send_buffer = 1028;
  recv_buffer = 1028;
}

-- Both parts have room for two slices of 5 bytes.
abbrev sliced : Buffer
sliced = record cycling { send_buffer_usage = 16; recv_buffer_usage = 16 }

at_4096 : ℕ → ℕ
at_4096 n = 4096

align_ptr_runs : align_ptr 1024 4 ≡ 1028
unfolding align_ptr alignment_fix
align_ptr_runs = refl

align_ptr_lem_example :
    IsAligned (align_ptr 1030 4) 4 × (1030 ≤ align_ptr 1030 4) × (align_ptr 1030 4 ≤ 1044)
align_ptr_lem_example = align_ptr_lem 1030 4 1044 (omega arith) (omega arith) (omega arith) refl

cycling-big : is_buffer_too_small cycling ≡ false
unfolding is_buffer_too_small
cycling-big = refl

check_buffer-IsPlaced_example : IsPlaced cycling (check_buffer cycling)
check_buffer-IsPlaced_example = check_buffer-IsPlaced cycling (omega arith) cycling-big

third_buffer_overruns_example :
    let b = check_buffer (check_buffer (check_buffer cycling)) in
    (is_buffer_too_small cycling ≡ false) × (b.recv_buffer + b.recv_buffer_usage ≡ 1124)
third_buffer_overruns_example =
    third_buffer_overruns 1024 4 32 (omega arith) (omega arith) 4 cycling
      (record {
        block = refl;
        start = refl;
        send_alignment = refl;
        recv_alignment = refl;
        send_usage = refl;
        recv_usage = refl;
        size = refl;
        cycling = refl;
        fresh = refl;
      })
      refl refl (omega arith) (omega arith)

send_slices_exact_example :
    send_slices 3 sliced ≡ some (positions 1028 (5 + slice_fix 4 5) 0 2 ++ 0 ∷ [])
unfolding get_send_buffer_min_size
send_slices_exact_example =
    send_slices_exact sliced 2 (omega arith) (omega arith) (omega arith) refl refl (omega arith)
      refl

set_send_buffer_alignment-IsCommon_example :
    IsCommon cycling × (0 < 4) × (4 ≡ at_least_one (pos 4)) × (4 ≡ cycling.recv_buffer_alignment)
unfolding set_send_buffer_alignment lcm gcd
set_send_buffer_alignment-IsCommon_example =
    set_send_buffer_alignment-IsCommon at_4096 (pos 4) cycling {b' = cycling} {released = []}
      (omega arith) refl
