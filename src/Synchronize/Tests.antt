-- ===== src/Synchronize/Tests.antt =====
-- An exchange with a clock that is ahead by 5.
use ska_mpi.Prelude.{◌≡◌, refl, some, [], ◌∷◌}
use ska_mpi.Prelude.Int.{pos, negsuc, ◌-ℤ◌, ◌*ℤ◌}
use ska_mpi.Synchronize.{tighten, fmax2, fmin2, is_enough, rounds, ping_pong}

-- The other process stops after its second message.
stops_early :
    ping_pong (negsuc 0) (pos 10) (pos 17, pos 13) ((pos 19, pos 15) ∷ (negsuc 0, pos 16) ∷ [])
    ≡ some (record { td_min = pos 4; td_max = pos 6; my_time = pos 15 })
unfolding ping_pong rounds tighten fmax2 fmin2 is_enough ◌-ℤ◌ ◌*ℤ◌
stops_early = refl
