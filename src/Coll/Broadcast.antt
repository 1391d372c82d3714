-- ===== src/Coll/Broadcast.antt =====
-- src/measurements/coll.c: the broadcast by MPI_Send and MPI_Recv along a tree, on all processes. MPI_Send is
-- taken to wait until its message is received, which MPI allows; the sizes and the clocks are left out.
pub mod Rank
pub mod Tree
pub mod Invariant
pub mod Finish
mod Tests
use ska_mpi.Prelude.{
  ℕ, suc, ◌+◌, ◌-◌, ◌*◌, ◌/◌, ◌%◌, ◌≡◌, Bool, List, [], ◌∷◌, ◌++◌, ltb, ◌==◌, if◌then◌else◌,
}
use ska_mpi.Measurement.{put}

-- The rank in `mycomm`, where MPI_Comm_split sorts the processes by this key, and the keys are different.
unfoldable pub new_rank : (size root rank : ℕ) → ℕ
new_rank size root rank = (rank + size - root) % size

-- The calls of a process, with the rank of the other one.
pub data PointToPoint : Type 0 where
  mpi_send mpi_recv : ℕ → PointToPoint

abbrev pub parent : ℕ → ℕ
parent myrank = (myrank - 1) / 2

-- What `measure_Bcast_using_Send_Recv` calls on the process `myrank`.
unfoldable pub receive_first : (myrank : ℕ) → List PointToPoint
receive_first myrank = if myrank == 0 then [] else mpi_recv (parent myrank) ∷ []

unfoldable pub send_on : (size myrank : ℕ) → List PointToPoint
send_on size myrank =
    let second = if ltb (2 * myrank + 2) size then mpi_send (2 * myrank + 2) ∷ [] else [] in
    if ltb (2 * myrank + 1) size then mpi_send (2 * myrank + 1) ∷ second else second

unfoldable pub measure_Bcast_using_Send_Recv : (size myrank : ℕ) → List PointToPoint
measure_Bcast_using_Send_Recv size myrank = receive_first myrank ++ send_on size myrank

module _ (A : Type 0) where
  -- What each process has still to call, and what is in its send buffer.
  pub record Processes : Type 0 where
    pub rest : ℕ → List PointToPoint
    pub buffer : ℕ → A

  unfoldable pub begin_broadcast : (size : ℕ) → (ℕ → A) → Processes
  begin_broadcast size buffer = record {
    rest = measure_Bcast_using_Send_Recv size;
    buffer = buffer;
  }

  -- A message from `p` to `q`, with what the two call next.
  abbrev pub transfer : (p q : ℕ) → (ps qs : List PointToPoint) → Processes → Processes
  transfer p q ps qs s = record {
    rest = put q qs (put p ps s.rest);
    buffer = put q (s.buffer p) s.buffer;
  }

  -- The states that are reached from a start, with the number of messages.
  pub data Underway (start : Processes) : ℕ → Processes → Type 0 where
    begin : Underway start 0 start
    message :
        {n : ℕ} {s : Processes} (p q : ℕ) (ps qs : List PointToPoint)
        → s.rest p ≡ mpi_send q ∷ ps
        → s.rest q ≡ mpi_recv p ∷ qs
        → Underway start n s
        → Underway start (suc n) (transfer p q ps qs s)
