-- ===== src/Synchronize/Protocol/Tests.antt =====
-- An exchange of two processes whose clocks differ by 5.
use ska_mpi.Prelude.{◌≡◌, refl, [], ◌∷◌, arith}
use ska_mpi.Prelude.Int.{int_laws, pos, negsuc, ◌+ℤ◌, ◌-ℤ◌}
use ska_mpi.Synchronize.{tighten, fmax2, fmin2, is_enough}
use ska_mpi.Synchronize.Protocol.{
  System, first_round, first_receives, Reached, begin, pass, first_receive, first_exchange,
}
use ska_mpi.Synchronize.Protocol.Live.{IsLive, Reached-IsLive}

abbrev begun : System
begun = first_exchange (pos 5) (negsuc 0) (negsuc 0) (pos 0) (pos 1) (pos 2) (pos 3)

-- The first process gets the message one unit later, and the second one its answer another unit later.
abbrev at_four : System
at_four = first_receives (pos 5) (pos 8) [] (record begun { now = pos 4 })

bounds_at_four :
    (at_four.first.bounds ≡ record { td_min = pos 4; td_max = pos 6; my_time = pos 4 })
    × (at_four.to_second ≡ pos 4 ∷ [])
unfolding first_exchange first_receives first_round tighten fmax2 fmin2 is_enough ◌+ℤ◌ ◌-ℤ◌
bounds_at_four = (refl, refl)

one_answer : Reached (pos 5) begun 1 at_four
unfolding first_exchange ◌+ℤ◌
one_answer = first_receive (pos 8) [] refl refl (pass (pos 4) (omega arith) begin)

Reached-IsLive_example :
    IsLive
      (pos 5)
      (negsuc 0)
      (negsuc 0)
      (pos 0)
      (pos 1)
      (pos 2)
      (pos 3)
      (omega arith)
      (omega arith)
      (omega arith)
      (omega arith)
      (omega int_laws)
      1
      at_four
Reached-IsLive_example =
    Reached-IsLive (pos 5) (negsuc 0) (negsuc 0) (pos 0) (pos 1) (pos 2) (pos 3) (omega arith)
      (omega arith) (omega arith) (omega arith) (omega int_laws) 1 at_four one_answer
