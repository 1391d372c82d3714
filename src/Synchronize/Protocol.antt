-- ===== src/Synchronize/Protocol.antt =====
-- src/synchronize.c: both processes of `ping_pong`, with the messages on their way, in steps that may follow
-- each other in any order. The clock of the second process is ahead of the one of the first by `d`.
pub mod Invariant
pub mod Live
mod Tests
use ska_mpi.Prelude.{
  ℕ, zero, suc, ◌+◌, ◌≡◌, Bool, true, false, List, [], ◌∷◌, ◌++◌, ◌==◌, if◌then◌else◌,
}
use ska_mpi.Prelude.Int.{ℤ, pos, negsuc, ◌+ℤ◌, ◌-ℤ◌, ◌≤ℤ◌, ltb_ℤ}
use ska_mpi.Synchronize.{number_ping_pongs, fmax2, Bounds, tighten, is_enough}

-- The variables of a process, with `ping_pong_min_time` of the other one, and whether it has left its loop.
pub record Process : Type 0 where
  pub bounds : Bounds
  pub i : ℕ
  pub min_time : ℤ
  pub ended : Bool

-- The time by the first clock, the processes, and the messages on their way.
pub record System : Type 0 where
  pub now : ℤ
  pub first : Process
  pub second : Process
  pub to_first : List ℤ
  pub to_second : List ℤ

abbrev pub invalid_time : ℤ
invalid_time = negsuc 0

-- A round of the loop of the process `p1`, from a received message to the next one it waits for, and what it
-- sends.
unfoldable pub first_round : (other_time my_time : ℤ) → Process → Process × List ℤ
first_round other_time my_time p =
    let tightened = tighten other_time my_time p.bounds in
    if ltb_ℤ other_time (pos 0)
    then (record p { ended = true }, [])
    else (if is_enough p.min_time p.i my_time p.bounds.my_time
        then (record p { bounds = tightened; ended = true }, invalid_time ∷ [])
        else (if suc p.i == number_ping_pongs
            then (record p { bounds = tightened; i = suc p.i; ended = true }, invalid_time ∷ [])
            else (record p { bounds = tightened; i = suc p.i }, my_time ∷ [])))

-- The same of the process `p2`, with the sending at the head of the next round. It does not count to 100.
unfoldable pub second_round : (other_time my_time : ℤ) → Process → Process × List ℤ
second_round other_time my_time p =
    let tightened = tighten other_time my_time p.bounds in
    if ltb_ℤ other_time (pos 0)
    then (record p { ended = true }, [])
    else (if is_enough p.min_time p.i my_time p.bounds.my_time
        then (record p { bounds = tightened; ended = true }, invalid_time ∷ [])
        else (record p { bounds = tightened; i = suc p.i }, my_time ∷ []))

module _ (d : ℤ) where
  unfoldable pub first_receives : (other_time : ℤ) → List ℤ → System → System
  first_receives other_time waiting s =
      let (p, sent) = first_round other_time s.now s.first in
      record s { first = p; to_first = waiting; to_second = s.to_second ++ sent }

  unfoldable pub second_receives : (other_time : ℤ) → List ℤ → System → System
  second_receives other_time waiting s =
      let (p, sent) = second_round other_time (s.now +ℤ d) s.second in
      record s { second = p; to_second = waiting; to_first = s.to_first ++ sent }

  -- What can follow the state `start`, with the number of messages received.
  pub data Reached (start : System) : ℕ → System → Type 0 where
    begin : Reached start 0 start
    pass :
        {n : ℕ} {s : System} (t : ℤ)
        → s.now ≤ℤ t
        → Reached start n s
        → Reached start n (record s { now = t })
    first_receive :
        {n : ℕ} {s : System} (m : ℤ) (ms : List ℤ)
        → s.first.ended ≡ false
        → s.to_first ≡ m ∷ ms
        → Reached start n s
        → Reached start (suc n) (first_receives m ms s)
    second_receive :
        {n : ℕ} {s : System} (m : ℤ) (ms : List ℤ)
        → s.second.ended ≡ false
        → s.to_second ≡ m ∷ ms
        → Reached start n s
        → Reached start (suc n) (second_receives m ms s)

  -- The state behind the unrolled first round, in which the first clock was read at `t₀` and `t₁` and the second
  -- one, between and behind, when the first would have shown `u₀` and `u₁`.
  unfoldable pub first_exchange : (min_time min_time' t₀ u₀ t₁ u₁ : ℤ) → System
  first_exchange min_time min_time' t₀ u₀ t₁ u₁ =
      let first : Bounds = record {
        td_min = u₀ +ℤ d -ℤ t₁;
        td_max = u₀ +ℤ d -ℤ t₀;
        my_time = t₁;
      } in
      let second : Bounds = record {
        td_min = fmax2 (t₀ -ℤ (u₀ +ℤ d)) (t₁ -ℤ (u₁ +ℤ d));
        td_max = t₁ -ℤ (u₀ +ℤ d);
        my_time = u₁ +ℤ d;
      } in
      record {
        now = u₁;
        first = record { bounds = first; i = 1; min_time = min_time; ended = false };
        second = record { bounds = second; i = 1; min_time = min_time'; ended = false };
        to_first = (u₁ +ℤ d) ∷ [];
        to_second = [];
      }
