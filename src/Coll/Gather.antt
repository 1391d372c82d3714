-- ===== src/Coll/Gather.antt =====
-- src/measurements/coll.c: the receives of MPI_Gather by MPI_Send and MPI_Recv, and those of MPI_Alltoall by
-- MPI_Isend and MPI_Irecv, with the places in the receive buffer.
pub mod Places
use ska_mpi.Prelude.{ℕ, zero, suc, ◌+◌, ◌*◌, List, [], ◌∷◌, ◌==◌, if◌then◌else◌}
use ska_mpi.Measurement.Execute.{
  Request, send_buffer_usage, recv_buffer_usage, reported_message_size, synchronization,
}
use ska_mpi.Coll.{get_extent}

-- A receive from a process: what it brings is written to `bytes` bytes from an address on.
pub record Receive : Type 0 where
  pub source : ℕ
  pub address : ℕ
  pub bytes : ℕ

unfoldable pub init_Gather_using_Send_Recv :
    (size rank send_count send_extent recv_count recv_extent root : ℕ) → List Request
init_Gather_using_Send_Recv size rank send_count send_extent recv_count recv_extent root =
    send_buffer_usage (get_extent send_count send_extent)
    ∷ reported_message_size (get_extent send_count send_extent)
    ∷ (if rank == root
        then recv_buffer_usage (size * get_extent recv_count recv_extent)
        else recv_buffer_usage 0)
    ∷ synchronization
    ∷ []

-- The loop of the root over `left` processes from `i` on, for its receive buffer
unfoldable pub gather_receives : (root recv_count recv_dt_extent buffer left i : ℕ) → List Receive
gather_receives root recv_count recv_dt_extent buffer zero i = []
gather_receives root recv_count recv_dt_extent buffer (suc left) i =
    let rest = gather_receives root recv_count recv_dt_extent buffer left (i + 1) in
    if i == root
    then rest
    else record {
      source = i;
      address = buffer + i * recv_count * recv_dt_extent;
      bytes = recv_count * recv_dt_extent;
    }
      ∷ rest

-- The loop over the calls of `MPI_Irecv` in `measure_Alltoall_using_Isend_Irecv`
unfoldable pub alltoall_receives : (recv_count recv_dt_extent buffer left i : ℕ) → List Receive
alltoall_receives recv_count recv_dt_extent buffer zero i = []
alltoall_receives recv_count recv_dt_extent buffer (suc left) i =
    record {
      source = i;
      address = buffer + i * recv_dt_extent;
      bytes = recv_count * recv_dt_extent;
    }
    ∷ alltoall_receives recv_count recv_dt_extent buffer left (i + 1)
