-- ===== src/Accounting/Tests.antt =====
-- Runs of the accounting.
use ska_mpi.Prelude.{◌≡◌, refl, List, [], ◌∷◌, arith}
use ska_mpi.Prelude.Int.{pos, negsuc, ◌+ℤ◌, ◌-ℤ◌}
use ska_mpi.Accounting.{
  sync, comm, wait, start, put_kind, raise, init_user_accounting, add_to_time, acc_start, acc_stop,
  Call, inits, starts, stops, adds, run,
}
use ska_mpi.Accounting.Totals.{log, spent_on, behind_reset, spent_since, run-totals}

-- The communication takes 4 units before the second reset, and 2 behind it.
abbrev calls : List Call
calls =
    adds wait (pos 1)
    ∷ inits
    ∷ starts sync (pos 3)
    ∷ adds comm (pos 4)
    ∷ stops sync (pos 10)
    ∷ inits
    ∷ adds comm (pos 2)
    ∷ []

calls_sync : (run calls start).acc sync ≡ pos 7
unfolding run init_user_accounting add_to_time acc_start acc_stop put_kind raise ◌+ℤ◌ ◌-ℤ◌
calls_sync = refl

no_calls : (run [] start).user_acc comm ≡ negsuc 0
unfolding run
no_calls = refl

run-totals_example :
    ((run calls start).acc comm ≡ spent_on comm (log start.started calls))
    × ((run calls start).user_acc comm ≡ spent_since comm (behind_reset (log start.started calls)))
unfolding log put_kind ◌-ℤ◌
run-totals_example =
    run-totals comm calls (omega arith, (omega arith, (omega arith, (omega arith, tt))))
