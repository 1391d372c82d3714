-- ===== src/Measurement/Windows/Tests.antt =====
-- A measurement in its window of time.
use ska_mpi.Prelude.{◌≡◌, [], ◌∷◌, some, arith, refl}
use ska_mpi.Prelude.Int.{pos, int_laws, ◌≤ℤ◌, ◌+ℤ◌, ◌-ℤ◌, ◌*ℤ◌}
use ska_mpi.Measurement.Windows.{Window, sync_real}
use ska_mpi.Measurement.Windows.Valid.{
  measured, due, IsMeasured, afterwards, at_once, measured-IsMeasured,
}

-- The second window of ten units behind the start of the batch, on a process whose clock is between one
-- and five units behind the one of the root.
abbrev second : Window
second = record {
  current_synchronization = sync_real;
  counter = 1;
  interval = pos 10;
  start_batch = pos 100;
  tds = pos 3;
  invalid = λ i. 0;
  start_sync = pos 0;
  stop_sync = pos 0;
  stop_batch = pos 0;
}

at_117 : due second ≤ℤ pos 118
unfolding ◌+ℤ◌ ◌-ℤ◌ ◌*ℤ◌
at_117 = omega arith

-- The clock is read until it has reached 117; the call ends at 125.
measured-IsMeasured_example :
    (w' : Window) × ((measured second (pos 110 ∷ pos 116 ∷ pos 118 ∷ []) (pos 125) ≡ some w')
      × IsMeasured second
          (record { td_min = pos 1; td_max = pos 5; my_time = pos 0 })
          (pos 4)
          (pos 110)
          (pos 125)
          w')
measured-IsMeasured_example =
    measured-IsMeasured second (record { td_min = pos 1; td_max = pos 5; my_time = pos 0 }) (pos 4)
      (pos 110) (pos 125) refl (record { above = omega arith; below = omega arith })
      (omega int_laws) (pos 116 ∷ pos 118 ∷ []) (afterwards (at_once at_117))
