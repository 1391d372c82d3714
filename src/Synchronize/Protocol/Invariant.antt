-- ===== src/Synchronize/Protocol/Invariant.antt =====
-- What holds in every state of an exchange.
use ska_mpi.Prelude.{
  ℕ, suc, ◌+◌, ◌≤◌, ◌<◌, ◌≡◌, refl, sym, subst, ap, true, false, List, [], ◌∷◌, ◌++◌, ◌==◌, if_elim,
  arith,
}
use ska_mpi.Prelude.Int.{ℤ, pos, ◌+ℤ◌, ◌-ℤ◌, ◌≤ℤ◌, ltb_ℤ, int_laws}
use ska_mpi.Synchronize.{number_ping_pongs, Bounds, tighten, is_enough}
use ska_mpi.Synchronize.Offset.{HasOffset, fmax2-le, fmin2-ge, tighten-HasOffset}
use ska_mpi.Synchronize.Protocol.{
  Process, System, invalid_time, first_round, second_round, first_receives, second_receives,
}

-- A message of the first process bounds the difference on both sides, too.
tighten-behind :
    (d t my : ℤ) (b : Bounds)
    → b.my_time ≤ℤ t +ℤ d
    → t +ℤ d ≤ℤ my
    → HasOffset (pos 0 -ℤ d) b
    → HasOffset (pos 0 -ℤ d) (tighten t my b)
unfolding tighten
tighten-behind d t my b h k c = record {
  above = fmax2-le b.td_min _ (pos 0 -ℤ d) c.above (omega int_laws);
  below = fmin2-ge b.td_max _ (pos 0 -ℤ d) c.below (omega int_laws);
}

tighten-now :
    (other_time my_time : ℤ) (b : Bounds) → (tighten other_time my_time b).my_time ≤ℤ my_time
unfolding tighten
tighten-now other_time my_time b = omega int_laws

module _ (d : ℤ) where
  -- Where the message is, with `n` messages received before.
  pub data Phase (n : ℕ) (s : System) : Type 0 where
    at_first :
        (u : ℤ)
        → s.first.ended ≡ false
        → s.second.ended ≡ false
        → s.to_first ≡ (u +ℤ d) ∷ []
        → s.to_second ≡ []
        → (s.first.bounds.my_time ≤ℤ u) × (u ≤ℤ s.now)
        → (pos 0 ≤ℤ u +ℤ d) × (s.second.bounds.my_time ≤ℤ u +ℤ d)
        → (n + 2 ≤ s.first.i + s.first.i) × (s.first.i < number_ping_pongs)
        → Phase n s
    at_second :
        (t : ℤ)
        → s.first.ended ≡ false
        → s.second.ended ≡ false
        → s.to_first ≡ []
        → s.to_second ≡ t ∷ []
        → (s.second.bounds.my_time ≤ℤ t +ℤ d) × (t ≤ℤ s.now)
        → (pos 0 ≤ℤ t) × (s.first.bounds.my_time ≤ℤ t)
        → (n + 3 ≤ s.first.i + s.first.i) × (s.first.i < number_ping_pongs)
        → Phase n s
    stops_first :
        s.first.ended ≡ false
        → s.second.ended ≡ true
        → s.to_first ≡ invalid_time ∷ []
        → s.to_second ≡ []
        → n ≤ 197
        → Phase n s
    stops_second :
        s.first.ended ≡ true
        → s.second.ended ≡ false
        → s.to_first ≡ []
        → s.to_second ≡ invalid_time ∷ []
        → n ≤ 197
        → Phase n s
    both_ended :
        s.first.ended ≡ true
        → s.second.ended ≡ true
        → s.to_first ≡ []
        → s.to_second ≡ []
        → n ≤ 198
        → Phase n s

  pub record IsExchanging (n : ℕ) (s : System) : Type 0 where
    pub clocks : (pos 0 ≤ℤ s.now) × (pos 0 ≤ℤ s.now +ℤ d)
    pub first_offset : HasOffset d s.first.bounds
    pub second_offset : HasOffset (pos 0 -ℤ d) s.second.bounds
    pub phase : Phase n s

  pub pass-IsExchanging :
      (n : ℕ) (s : System) (t : ℤ)
      → s.now ≤ℤ t
      → IsExchanging n s
      → IsExchanging n (record s { now = t })
  pass-IsExchanging n s t h v =
      let (a, b) = v.clocks in
      record {
        clocks = (omega int_laws, omega int_laws);
        first_offset = v.first_offset;
        second_offset = v.second_offset;
        phase = go v.phase;
      }
    where
      go : Phase n s → Phase n (record s { now = t })
      go (at_first u e f g k (l, m) o p) = at_first u e f g k (l, omega int_laws) o p
      go (at_second u e f g k (l, m) o p) = at_second u e f g k (l, omega int_laws) o p
      go (stops_first e f g k l) = stops_first e f g k l
      go (stops_second e f g k l) = stops_second e f g k l
      go (both_ended e f g k l) = both_ended e f g k l

  module _ (n : ℕ) (s : System) (m : ℤ) (ms : List ℤ) where
    -- The first process behind a round.
    abbrev first_gives : Process × List ℤ → System
    first_gives (p, sent) = record s { first = p; to_first = ms; to_second = s.to_second ++ sent }

    abbrev FirstGives : Process × List ℤ → Type 0
    FirstGives g = IsExchanging (suc n) (first_gives g)

    pub first_receives-IsExchanging :
        s.first.ended ≡ false
        → s.to_first ≡ m ∷ ms
        → IsExchanging n s
        → IsExchanging (suc n) (first_receives d m ms s)
    unfolding first_receives first_round
    first_receives-IsExchanging h r v = go v.phase
      where
        go : Phase n s → FirstGives (first_round m s.now s.first)
        go (at_first u e f g k (l, w) (o, q) (a, b)) =
            let em : m ≡ u +ℤ d = cc in
            let es : ms ≡ [] = cc in
            let (a₁, b₁) = v.clocks in
            let c : HasOffset d (tighten m s.now s.first.bounds) =
              subst (λ k. HasOffset d (tighten k s.now s.first.bounds)) (sym em)
                (tighten-HasOffset d u s.now s.first.bounds l w v.first_offset) in
            if_elim FirstGives (ltb_ℤ m (pos 0)) (λ neg. absurd (ground arith))
              (λ _.
                if_elim FirstGives
                  (is_enough s.first.min_time s.first.i s.now s.first.bounds.my_time)
                  (λ _. record {
                    clocks = v.clocks;
                    first_offset = c;
                    second_offset = v.second_offset;
                    phase =
                        stops_second refl f es (ap (λ l. l ++ invalid_time ∷ []) k) (omega arith);
                  })
                  (λ _.
                    if_elim FirstGives (suc s.first.i == number_ping_pongs)
                      (λ _. record {
                        clocks = v.clocks;
                        first_offset = c;
                        second_offset = v.second_offset;
                        phase =
                            stops_second refl f es (ap (λ l. l ++ invalid_time ∷ []) k)
                              (omega arith);
                      })
                      (λ more. record {
                        clocks = v.clocks;
                        first_offset = c;
                        second_offset = v.second_offset;
                        phase =
                            at_second s.now e f es (ap (λ l. l ++ s.now ∷ []) k)
                              (omega int_laws, omega int_laws)
                              (a₁, tighten-now m s.now s.first.bounds) (omega arith, ground arith);
                      })))
        go (at_second t e f g k l o p) = cc
        go (stops_first e f g k l) =
            let em : m ≡ invalid_time = cc in
            let es : ms ≡ [] = cc in
            if_elim FirstGives (ltb_ℤ m (pos 0))
              (λ _. record {
                clocks = v.clocks;
                first_offset = v.first_offset;
                second_offset = v.second_offset;
                phase = both_ended refl f es (ap (λ l. l ++ []) k) (omega arith);
              })
              (λ late. absurd (
                let x : ltb_ℤ invalid_time (pos 0) ≡ false =
                  subst (λ k. ltb_ℤ k (pos 0) ≡ false) em late in
                cc))
        go (stops_second e f g k l) = cc
        go (both_ended e f g k l) = cc

    -- The second process behind a round.
    abbrev second_gives : Process × List ℤ → System
    second_gives (p, sent) = record s { second = p; to_second = ms; to_first = s.to_first ++ sent }

    abbrev SecondGives : Process × List ℤ → Type 0
    SecondGives g = IsExchanging (suc n) (second_gives g)

    pub second_receives-IsExchanging :
        s.second.ended ≡ false
        → s.to_second ≡ m ∷ ms
        → IsExchanging n s
        → IsExchanging (suc n) (second_receives d m ms s)
    unfolding second_receives second_round
    second_receives-IsExchanging h r v = go v.phase
      where
        go : Phase n s → SecondGives (second_round m (s.now +ℤ d) s.second)
        go (at_second t e f g k (l, w) (o, q) (a, b)) =
            let em : m ≡ t = cc in
            let es : ms ≡ [] = cc in
            let (a₁, b₁) = v.clocks in
            let c : HasOffset (pos 0 -ℤ d) (tighten m (s.now +ℤ d) s.second.bounds) =
              subst (λ k. HasOffset (pos 0 -ℤ d) (tighten k (s.now +ℤ d) s.second.bounds)) (sym em)
                (tighten-behind d t (s.now +ℤ d) s.second.bounds l (omega int_laws)
                  v.second_offset) in
            if_elim SecondGives (ltb_ℤ m (pos 0)) (λ neg. absurd (ground arith))
              (λ _.
                if_elim SecondGives
                  (is_enough s.second.min_time s.second.i (s.now +ℤ d) s.second.bounds.my_time)
                  (λ _. record {
                    clocks = v.clocks;
                    first_offset = v.first_offset;
                    second_offset = c;
                    phase =
                        stops_first e refl (ap (λ l. l ++ invalid_time ∷ []) g) es (omega arith);
                  })
                  (λ _. record {
                    clocks = v.clocks;
                    first_offset = v.first_offset;
                    second_offset = c;
                    phase =
                        at_first s.now e f (ap (λ l. l ++ (s.now +ℤ d) ∷ []) g) es
                          (omega int_laws, omega int_laws)
                          (b₁, tighten-now m (s.now +ℤ d) s.second.bounds) (omega arith, b);
                  }))
        go (at_first t e f g k l o p) = cc
        go (stops_second e f g k l) =
            let em : m ≡ invalid_time = cc in
            let es : ms ≡ [] = cc in
            if_elim SecondGives (ltb_ℤ m (pos 0))
              (λ _. record {
                clocks = v.clocks;
                first_offset = v.first_offset;
                second_offset = v.second_offset;
                phase = both_ended e refl (ap (λ l. l ++ []) g) es (omega arith);
              })
              (λ late. absurd (
                let x : ltb_ℤ invalid_time (pos 0) ≡ false =
                  subst (λ k. ltb_ℤ k (pos 0) ≡ false) em late in
                cc))
        go (stops_first e f g k l) = cc
        go (both_ended e f g k l) = cc
