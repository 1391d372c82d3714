-- ===== src/Coll.antt =====
-- src/measurements/coll.c: the blocks of a buffer for the processes of a collective operation, and the sizes of
-- the buffers of MPI_Alltoallv. An array is a function of the index, and what `malloc` leaves is a parameter.
pub mod Blocks
pub mod Alltoallv
pub mod Broadcast
pub mod Gather
mod Tests
use ska_mpi.Prelude.{ℕ, zero, suc, ◌+◌, ◌-◌, ◌*◌, ◌/◌, ◌%◌, List, [], ◌∷◌}
use ska_mpi.Measurement.{put}
use ska_mpi.Measurement.Execute.{
  Request, send_buffer_usage, recv_buffer_usage, reported_message_size, synchronization,
}

-- The second loop, of `rest` rounds from `i` on, where `r` is `count % get_measurement_size()`.
unfoldable pub add_rest : (size r i rest : ℕ) → (ℕ → ℕ) → ℕ → ℕ
add_rest size r i zero counts = counts
add_rest size r i (suc rest) counts =
    let j = i * size / r in add_rest size r (suc i) rest (put j (suc (counts j)) counts)

unfoldable pub initialize_counts : (size count : ℕ) → ℕ → ℕ
initialize_counts size count = add_rest size (count % size) 0 (count % size) (λ i. count / size)

-- The loop, of `rest` rounds from `i` on.
unfoldable pub add_displs : (counts : ℕ → ℕ) (i rest : ℕ) → (ℕ → ℕ) → ℕ → ℕ
add_displs counts i zero displs = displs
add_displs counts i (suc rest) displs =
    add_displs counts (suc i) rest (put i (displs (i - 1) + counts (i - 1)) displs)

unfoldable pub initialize_displs : (fresh : ℕ → ℕ) (size : ℕ) → (ℕ → ℕ) → ℕ → ℕ
initialize_displs fresh size counts = add_displs counts 1 (size - 1) (put 0 0 fresh)

-- `get_extent` of src/mem.c; the extent of a data type is what MPI says.
unfoldable pub get_extent : (count extent : ℕ) → ℕ
get_extent count extent = count * extent

-- The file variables that `init_Alltoallv` sets.
pub record Vectors : Type 0 where
  pub send_counts : ℕ → ℕ
  pub send_displs : ℕ → ℕ
  pub recv_counts : ℕ → ℕ
  pub recv_displs : ℕ → ℕ

-- With the extents of both types, and the calls it makes.
unfoldable pub init_Alltoallv :
    (fresh : ℕ → ℕ) (size send_count send_extent recv_count recv_extent : ℕ)
    → Vectors × List Request
init_Alltoallv fresh size send_count send_extent recv_count recv_extent =
    let send_counts = initialize_counts size (send_count * size) in
    let recv_counts = initialize_counts size (recv_count * size) in
    (
      record {
        send_counts = send_counts;
        send_displs = initialize_displs fresh size send_counts;
        recv_counts = recv_counts;
        recv_displs = initialize_displs fresh size recv_counts;
      },
      send_buffer_usage (size * get_extent send_count send_extent)
          ∷ recv_buffer_usage (size * get_extent recv_count recv_extent)
          ∷ reported_message_size (get_extent send_count send_extent)
          ∷ synchronization
          ∷ [],
    )
