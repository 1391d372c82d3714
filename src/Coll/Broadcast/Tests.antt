-- ===== src/Coll/Broadcast/Tests.antt =====
-- Runs of the broadcast, and its properties on them.
use ska_mpi.Prelude.{ℕ, ◌+◌, ◌<◌, ◌≡◌, refl, arith, ◌⊎◌, [], ◌∷◌}
use ska_mpi.Coll.Broadcast.{
  new_rank, mpi_send, mpi_recv, measure_Bcast_using_Send_Recv, send_on, receive_first, Processes,
  Underway, begin, begin_broadcast,
}
use ska_mpi.Coll.Broadcast.Finish.{
  Finished, Enabled, finished_run, measure_Bcast_using_Send_Recv-Enabled,
  measure_Bcast_using_Send_Recv-data,
}

test_calls : measure_Bcast_using_Send_Recv 4 1 ≡ mpi_recv 0 ∷ mpi_send 3 ∷ []
unfolding measure_Bcast_using_Send_Recv send_on receive_first
test_calls = refl

test_rank : new_rank 4 3 1 ≡ 2
unfolding new_rank
test_rank = refl

measure_Bcast_using_Send_Recv-Enabled_example :
    (0 < 4) × (Finished 4 (begin_broadcast ℕ 4 (λ r. r)) ⊎ Enabled (begin_broadcast ℕ 4 (λ r. r)))
measure_Bcast_using_Send_Recv-Enabled_example =
    measure_Bcast_using_Send_Recv-Enabled 4 3 (λ r. r) (omega arith) begin

abbrev one_run :
    (m : ℕ) × ((t : Processes ℕ) × (Underway ℕ (begin_broadcast ℕ 4 (λ r. r + 10)) m t
        × Finished 4 t))
one_run = finished_run 4 3 (λ r. r + 10) (omega arith)

measure_Bcast_using_Send_Recv-data_example :
    (one_run.0 + 1 ≡ 4)
    × ((rank : ℕ) → one_run.1.0.buffer (new_rank 4 3 rank) ≡ new_rank 4 3 3 + 10)
measure_Bcast_using_Send_Recv-data_example =
    measure_Bcast_using_Send_Recv-data 4 3 (λ r. r + 10) (omega arith) one_run.1.1.0 one_run.1.1.1
