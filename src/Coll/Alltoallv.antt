-- ===== src/Coll/Alltoallv.antt =====
-- What MPI_Alltoallv reads and writes lies in the buffers that are given to it.
use ska_mpi.Prelude.{ℕ, suc, ◌+◌, ◌*◌, ◌≤◌, ◌<◌, ◌≡◌, refl, false, arith, some}
use ska_mpi.Align.Least.{mul_le}
use ska_mpi.Buffer.{
  limit, check_buffer, is_buffer_too_small, set_send_buffer_usage, set_recv_buffer_usage,
}
use ska_mpi.Buffer.Slice.{set_send_buffer_slice_usage, set_recv_buffer_slice_usage}
use ska_mpi.Buffer.Placement.{IsReady, check_buffer-IsPlaced}
use ska_mpi.Measurement.Execute.{
  Process, Setting, Measured, prepare, forget_usages, request, requests, init_synchronization,
}
use ska_mpi.Coll.{Vectors, get_extent, init_Alltoallv}
use ska_mpi.Coll.Blocks.{AreBlocks, initialize_counts-AreBlocks}

-- A block for each process, between the start of a buffer of `usage` bytes and its end.
pub record Fits (size extent base top : ℕ) (counts displs : ℕ → ℕ) : Type 0 where
  pub apart :
      (p : ℕ)
      → suc p < size
      → base + (displs p + counts p) * extent ≡ base + displs (suc p) * extent
  pub inside : (p : ℕ) → p < size → base + (displs p + counts p) * extent ≤ top

AreBlocks-Fits :
    (size count extent base top : ℕ) (counts displs : ℕ → ℕ)
    → AreBlocks size (count * size) counts displs
    → base + size * (count * extent) ≤ top
    → Fits size extent base top counts displs
AreBlocks-Fits size count extent base top counts displs b h = record {
  apart = λ p l. let e = b.next p l in rw e refl;
  inside = λ p l.
      let m = mul_le extent (displs p + counts p) (count * size) (b.inside p l) in grind arith;
}

module _ (c : Setting) (t : Measured) (fresh : ℕ → ℕ)
    (size send_count send_extent recv_count recv_extent : ℕ) where
  -- The vectors, and the buffers of the next call.
  abbrev pub vectors : Vectors
  vectors = (init_Alltoallv fresh size send_count send_extent recv_count recv_extent).0

  abbrev pub measured : Measured
  measured = record t {
    init_fp = some (init_Alltoallv fresh size send_count send_extent recv_count recv_extent).1;
  }

  -- For at least one process, a buffer that is ready, and a communication buffer that is not too small for
  -- what init_Alltoallv asks for: at a call behind it, the blocks that MPI_Alltoallv sends lie one behind the
  -- other between the start of the send buffer and the receive buffer, and those that it receives between
  -- the start of the receive buffer and the limit that check_buffer keeps to.
  pub init_Alltoallv-Fits :
      (p : Process)
      → 0 < size
      → IsReady p.buffer
      → is_buffer_too_small (prepare c measured p).buffer ≡ false
      → let b = check_buffer (prepare c measured p).buffer in
        Fits size send_extent b.send_buffer b.recv_buffer vectors.send_counts vectors.send_displs
        × Fits size recv_extent b.recv_buffer
            (limit (prepare c measured p).buffer)
            vectors.recv_counts
            vectors.recv_displs
  unfolding init_Alltoallv prepare requests request init_synchronization forget_usages get_extent
      set_send_buffer_usage set_recv_buffer_usage set_send_buffer_slice_usage
      set_recv_buffer_slice_usage
  init_Alltoallv-Fits p h v big =
      let ready : IsReady (prepare c measured p).buffer = record {
        send_positive = v.send_positive;
        recv_positive = v.recv_positive;
        fresh_in = v.fresh_in;
      } in
      let w = check_buffer-IsPlaced (prepare c measured p).buffer ready big in
      (
        AreBlocks-Fits size send_count send_extent _ _ vectors.send_counts vectors.send_displs
            (initialize_counts-AreBlocks fresh size (send_count * size) h) w.apart,
        AreBlocks-Fits size recv_count recv_extent _ _ vectors.recv_counts vectors.recv_displs
            (initialize_counts-AreBlocks fresh size (recv_count * size) h) w.recv_in,
      )
