-- ===== src/Measurement/Windows.antt =====
-- src/measurement.c: the windows of time in which the processes measure. A time is a whole number of units
-- and the clock is the list of its next readings.
pub mod Valid
mod Tests
use ska_mpi.Prelude.{ℕ, ◌+◌, Bool, true, false, Option, none, some, List, [], ◌∷◌, if◌then◌else◌}
use ska_mpi.Prelude.Int.{ℤ, pos, ◌+ℤ◌, ◌-ℤ◌, ◌*ℤ◌, ltb_ℤ}
use ska_mpi.Measurement.{put, invalid_started_late, invalid_took_too_long}

pub data SyncType : Type 0 where
  sync_barrier sync_real sync_nosync : SyncType

-- The file variables of a process, with `tds[get_global_rank(0)]`.
pub record Window : Type 0 where
  pub current_synchronization : SyncType
  pub counter : ℕ
  pub interval : ℤ
  pub start_batch : ℤ
  pub tds : ℤ
  pub invalid : ℕ → ℕ
  pub start_sync : ℤ
  pub stop_sync : ℤ
  pub stop_batch : ℤ

-- The loop until the clock has reached the time: its reading, and what follows. A clock that never does
-- has no result.
unfoldable pub spin : (time_stamp : ℤ) → List ℤ → Option (ℤ × List ℤ)
spin time_stamp [] = none
spin time_stamp (now ∷ clock) =
    let later = spin time_stamp clock in if ltb_ℤ now time_stamp then later else some (now, clock)

-- Whether the process was in time, the last reading, and what follows.
unfoldable pub wait_till : (time_stamp : ℤ) → List ℤ → Option (Bool × ℤ × List ℤ)
wait_till time_stamp [] = none
wait_till time_stamp (now ∷ clock) =
    if ltb_ℤ time_stamp now then some (false, now, clock) else elim (spin time_stamp clock) [
      | none ↦ none
      | some (last, clock) ↦ some (true, last, clock)
    ]

abbrev pub should_wait_till : (counter : ℕ) → (interval offset start_batch : ℤ) → ℤ
should_wait_till counter interval offset start_batch =
    pos (counter + 1) *ℤ interval +ℤ start_batch +ℤ offset

-- The next reading.
unfoldable pub read : List ℤ → Option (ℤ × List ℤ)
read [] = none
read (now ∷ clock) = some (now, clock)

-- What a wait and a reading set.
abbrev pub set_flag : Window → Option (Bool × ℤ × List ℤ) → Option (Window × List ℤ)
set_flag w none = none
set_flag w (some (in_time, now, clock)) = some (
  record w {
    start_sync = now;
    invalid = put w.counter (if in_time then 0 else invalid_started_late) w.invalid;
  },
  clock,
)

abbrev pub set_start : Window → Option (ℤ × List ℤ) → Option (Window × List ℤ)
set_start w none = none
set_start w (some (now, clock)) = some (record w { start_sync = now }, clock)

-- `current_synchronization` is one of the three; the barrier itself is no change of the state.
unfoldable pub start_synchronization : Window → List ℤ → Option (Window × List ℤ)
start_synchronization w clock = elim w.current_synchronization [
  | sync_real ↦
      set_flag w
        (wait_till (should_wait_till w.counter w.interval (pos 0 -ℤ w.tds) w.start_batch) clock)
  | _ ↦ set_start w (read clock)
]

-- With the clock `now`.
unfoldable pub stop_synchronization : (now : ℤ) → Window → Window
stop_synchronization now w =
    let w = record w { stop_batch = now; stop_sync = now } in
    elim w.current_synchronization [
      | sync_real ↦
          if ltb_ℤ w.interval (w.stop_sync -ℤ w.start_sync)
          then record w { invalid = put w.counter invalid_took_too_long w.invalid }
          else w
      | _ ↦ w
    ]
