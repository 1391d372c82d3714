-- ===== src/Synchronize/Protocol/Live.antt =====
-- An exchange ends on both processes.
use ska_mpi.Prelude.{
  ℕ, zero, suc, ◌+◌, ◌≤◌, ◌≡◌, refl, ◌⊎◌, inl, inr, true, false, List, [], ◌∷◌, arith,
}
use ska_mpi.Prelude.Int.{ℤ, pos, ◌+ℤ◌, ◌-ℤ◌, ◌≤ℤ◌, int_laws}
use ska_mpi.Synchronize.Offset.{HasOffset, fmax2-le}
use ska_mpi.Synchronize.Protocol.{
  System, first_exchange, first_receives, second_receives, Reached, begin, pass, first_receive,
  second_receive,
}
use ska_mpi.Synchronize.Protocol.Invariant.{
  Phase, at_first, at_second, stops_first, stops_second, both_ended, IsExchanging,
  pass-IsExchanging, first_receives-IsExchanging, second_receives-IsExchanging,
}

-- Both processes have left their loops, and no message is left.
pub record HasEnded (s : System) : Type 0 where
  pub first_ended : s.first.ended ≡ true
  pub second_ended : s.second.ended ≡ true
  pub no_message : (s.to_first ≡ []) × (s.to_second ≡ [])

-- A process waits for a message that has been sent.
pub data CanReceive (s : System) : Type 0 where
  can_first : (m : ℤ) (ms : List ℤ) → s.first.ended ≡ false → s.to_first ≡ m ∷ ms → CanReceive s
  can_second : (m : ℤ) (ms : List ℤ) → s.second.ended ≡ false → s.to_second ≡ m ∷ ms → CanReceive s

module _ (d min_time min_time' t₀ u₀ t₁ u₁ : ℤ) (sent : t₀ ≤ℤ u₀) (answered : u₀ ≤ℤ t₁)
    (sent_again : t₁ ≤ℤ u₁) (first_clock : pos 0 ≤ℤ t₀) (second_clock : pos 0 ≤ℤ u₀ +ℤ d) where
  abbrev pub start : System
  start = first_exchange d min_time min_time' t₀ u₀ t₁ u₁

  pub record IsLive (n : ℕ) (s : System) : Type 0 where
    pub first_offset : HasOffset d s.first.bounds
    pub second_offset : HasOffset (pos 0 -ℤ d) s.second.bounds
    pub bounded : n ≤ 198
    pub goes_on : HasEnded s ⊎ CanReceive s
    pub finishes : (n' : ℕ) × ((s' : System) × (Reached d start n' s' × HasEnded s'))

  start-IsExchanging : IsExchanging d 0 start
  unfolding first_exchange
  start-IsExchanging = record {
    clocks = (omega int_laws, omega int_laws);
    first_offset = record { above = omega int_laws; below = omega int_laws };
    second_offset = record {
      above = fmax2-le _ _ (pos 0 -ℤ d) (omega int_laws) (omega int_laws);
      below = omega int_laws;
    };
    phase =
        at_first u₁ refl refl refl refl (omega int_laws, omega int_laws)
          (omega int_laws, omega int_laws) (omega arith, omega arith);
  }

  Reached-IsExchanging : (n : ℕ) (s : System) → Reached d start n s → IsExchanging d n s
  Reached-IsExchanging _ _ begin = start-IsExchanging
  Reached-IsExchanging n _ (pass t h r) = pass-IsExchanging d n _ t h (Reached-IsExchanging n _ r)
  Reached-IsExchanging _ _ (first_receive {n} {s} m ms h e r) =
      first_receives-IsExchanging d n s m ms h e (Reached-IsExchanging n s r)
  Reached-IsExchanging _ _ (second_receive {n} {s} m ms h e r) =
      second_receives-IsExchanging d n s m ms h e (Reached-IsExchanging n s r)

  Phase-goes_on : (n : ℕ) (s : System) → Phase d n s → (n ≤ 198) × (HasEnded s ⊎ CanReceive s)
  Phase-goes_on n s (at_first u e f g k l o (a, b)) = (omega arith, inr (can_first _ [] e g))
  Phase-goes_on n s (at_second t e f g k l o (a, b)) = (omega arith, inr (can_second _ [] f k))
  Phase-goes_on n s (stops_first e f g k l) = (omega arith, inr (can_first _ [] e g))
  Phase-goes_on n s (stops_second e f g k l) = (omega arith, inr (can_second _ [] f k))
  Phase-goes_on n s (both_ended e f g k l) =
      (l, inl (record { first_ended = e; second_ended = f; no_message = (g, k) }))

  -- Receiving what can be received comes to the end.
  can_finish :
      (fuel n : ℕ) (s : System)
      → 199 ≤ n + fuel
      → Reached d start n s
      → (n' : ℕ) × ((s' : System) × (Reached d start n' s' × HasEnded s'))
  can_finish zero n s l r =
      let (b, _) = Phase-goes_on n s (Reached-IsExchanging n s r).phase in absurd (omega arith)
  can_finish (suc fuel) n s l r = elim (Phase-goes_on n s (Reached-IsExchanging n s r).phase).1 [
    | inl e ↦ (n, (s, (r, e)))
    | inr (can_first m ms h e) ↦
        can_finish fuel (suc n) (first_receives d m ms s) (omega arith) (first_receive m ms h e r)
    | inr (can_second m ms h e) ↦
        can_finish fuel (suc n) (second_receives d m ms s) (omega arith) (second_receive m ms h e r)
  ]

  -- For two clocks with a fixed difference that show no negative times, whatever the times are that pass between
  -- the steps: in every state that follows the unrolled first round of ping_pong, the bounds of each process hold
  -- the difference to the clock of the other one, at most 198 messages were received, and either both
  -- processes have left their loops with no message left, or one of them can receive a message; from
  -- there both leave their loops.
  pub Reached-IsLive : (n : ℕ) (s : System) → Reached d start n s → IsLive n s
  Reached-IsLive n s r =
      let v = Reached-IsExchanging n s r in
      let (b, g) = Phase-goes_on n s v.phase in
      record {
        first_offset = v.first_offset;
        second_offset = v.second_offset;
        bounded = b;
        goes_on = g;
        finishes = can_finish 199 n s (omega arith) r;
      }
