-- ===== src/Synchronize.antt =====
-- src/synchronize.c: the difference of two clocks, from an exchange of messages (of the MPI version).
-- A time is a whole number of units, so that sums and differences are exact.
pub mod Offset
pub mod Protocol
pub mod Differences
mod Tests
use ska_mpi.Prelude.{
  ℕ, suc, ◌+◌, Bool, ◌&&◌, Option, none, some, List, [], ◌∷◌, leb, ◌==◌, if◌then◌else◌,
}
use ska_mpi.Prelude.Int.{ℤ, pos, ◌+ℤ◌, ◌-ℤ◌, ◌*ℤ◌, leb_ℤ, ltb_ℤ}

abbrev pub number_ping_pongs : ℕ
number_ping_pongs = 100

abbrev pub minimum_ping_pongs : ℕ
minimum_ping_pongs = 8

unfoldable pub fmax2 : ℤ → ℤ → ℤ
fmax2 a b = if ltb_ℤ b a then a else b

unfoldable pub fmin2 : ℤ → ℤ → ℤ
fmin2 a b = if ltb_ℤ a b then a else b

-- `td_min`, `td_max` and `my_time` of `ping_pong`
pub record Bounds : Type 0 where
  pub td_min : ℤ
  pub td_max : ℤ
  pub my_time : ℤ

-- A message with the other clock, which is received at `my_time`.
unfoldable pub tighten : (other_time my_time : ℤ) → Bounds → Bounds
tighten other_time my_time b = record {
  td_min = fmax2 b.td_min (other_time -ℤ my_time);
  td_max = fmin2 b.td_max (other_time -ℤ b.my_time);
  my_time = my_time;
}

-- Whether a round is hardly longer than the best exchange: less than 11 tenths of it.
unfoldable pub is_enough : (min_time : ℤ) → (i : ℕ) → (my_time my_last_time : ℤ) → Bool
is_enough min_time i my_time my_last_time =
    leb_ℤ (pos 0) min_time
    && leb minimum_ping_pongs i
    && ltb_ℤ ((my_time -ℤ my_last_time) *ℤ pos 10) (min_time *ℤ pos 11)

-- The loop of the first process, on the messages that it receives, each with the clock behind it. A
-- process that waits for another message has no result.
unfoldable pub rounds : (min_time : ℤ) → (i : ℕ) → Bounds → List (ℤ × ℤ) → Option Bounds
rounds min_time i b [] = none
rounds min_time i b ((other_time, my_time) ∷ messages) =
    let tightened = tighten other_time my_time b in
    let rest = rounds min_time (suc i) tightened messages in
    if ltb_ℤ other_time (pos 0)
    then some b
    else (if is_enough min_time i my_time b.my_time
        then some tightened
        else (if suc i == number_ping_pongs then some tightened else rest))

-- `ping_pong` on the process `p1`: the clock at the first sending, the first message and the others.
unfoldable pub ping_pong : (min_time my_last_time : ℤ) → ℤ × ℤ → List (ℤ × ℤ) → Option Bounds
ping_pong min_time my_last_time (other_time, my_time) messages =
    rounds min_time 1
      (record {
        td_min = other_time -ℤ my_time;
        td_max = other_time -ℤ my_last_time;
        my_time = my_time;
      })
      messages

-- `ping_pong_min_time` behind an exchange
unfoldable pub new_min_time : (min_time : ℤ) → Bounds → ℤ
new_min_time min_time b =
    if ltb_ℤ min_time (pos 0) then b.td_max -ℤ b.td_min else fmin2 min_time (b.td_max -ℤ b.td_min)
