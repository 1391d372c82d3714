-- ===== src/Accounting.antt =====
-- src/accounting.c: how much time went into which kind of work. A time is a whole number of units, so
-- that sums are exact; the clock readings are arguments.
pub mod Totals
mod Tests
use ska_mpi.Prelude.{ℕ, Bool, true, false, List, [], ◌∷◌, if◌then◌else◌}
use ska_mpi.Prelude.Int.{ℤ, pos, negsuc, ◌+ℤ◌, ◌-ℤ◌, leb_ℤ}

pub data Kind : Type 0 where
  sync comm late over unec wait total : Kind

abbrev pub same_kind : Kind → Kind → Bool
same_kind sync sync = true
same_kind comm comm = true
same_kind late late = true
same_kind over over = true
same_kind unec unec = true
same_kind wait wait = true
same_kind total total = true
same_kind _ _ = false

-- The file variables `acc_..._time` and `user_acc_..._time`, and the clock at the last start. A negative
-- time is not accounted.
pub record Times : Type 0 where
  pub acc : Kind → ℤ
  pub user_acc : Kind → ℤ
  pub started : Kind → ℤ

abbrev pub start : Times
start = record { acc = λ k. pos 0; user_acc = λ k. negsuc 0; started = λ k. pos 0 }

unfoldable pub put_kind : Kind → ℤ → (Kind → ℤ) → Kind → ℤ
put_kind k v f j = if same_kind j k then v else f j

unfoldable pub raise : ℤ → ℤ → ℤ
raise t time = if leb_ℤ (pos 0) time then time +ℤ t else time

unfoldable pub init_user_accounting : Times → Times
init_user_accounting s = record s { user_acc = λ k. pos 0 }

-- `add_to_comm_time`, `add_to_late_time`, `add_to_over_time` and `add_to_wait_time`
unfoldable pub add_to_time : Kind → ℤ → Times → Times
add_to_time k t s = record s {
  acc = put_kind k (raise t (s.acc k)) s.acc;
  user_acc = put_kind k (raise t (s.user_acc k)) s.user_acc;
}

-- `acc_start_sync`, `acc_start_total` and `acc_start_unec`, with the clock `now`
unfoldable pub acc_start : Kind → (now : ℤ) → Times → ℤ × Times
acc_start k now s = (now, record s { started = put_kind k now s.started })

-- `acc_stop_sync`, `acc_stop_total` and `acc_stop_unec`
unfoldable pub acc_stop : Kind → (now : ℤ) → Times → ℤ × Times
acc_stop k now s = (now -ℤ s.started k, add_to_time k (now -ℤ s.started k) s)

-- The calls of the other parts.
pub data Call : Type 0 where
  inits : Call
  starts : Kind → ℤ → Call
  stops : Kind → ℤ → Call
  adds : Kind → ℤ → Call

unfoldable pub run : List Call → Times → Times
run [] s = s
run (inits ∷ cs) s = run cs (init_user_accounting s)
run (starts k now ∷ cs) s = run cs (acc_start k now s).1
run (stops k now ∷ cs) s = run cs (acc_stop k now s).1
run (adds k t ∷ cs) s = run cs (add_to_time k t s)
