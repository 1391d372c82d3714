-- ===== src/Synchronize/Offset.antt =====
-- The bounds hold the difference of the clocks.
use ska_mpi.Prelude.{
  ℕ, suc, ◌+◌, ◌≤◌, ◌<◌, Option, none, some, List, [], ◌∷◌, ◌==◌, if_elim, arith, length,
}
use ska_mpi.Prelude.Int.{ℤ, pos, negsuc, ◌+ℤ◌, ◌-ℤ◌, ltb_ℤ, ◌≤ℤ◌, int_laws}
use ska_mpi.Synchronize.{
  number_ping_pongs, fmax2, fmin2, Bounds, tighten, is_enough, rounds, ping_pong, new_min_time,
}

-- The messages, for a clock of the other process that is ahead by `d`: each is sent at a time `t` between
-- the clock before the wait for it and the clock behind it, and holds the other clock at that time. A
-- negative time is the last message.
pub data IsExchange (d : ℤ) : ℤ → List (ℤ × ℤ) → Type 0 where
  silent : {last : ℤ} → IsExchange d last []
  stopped : {last : ℤ} (my : ℤ) (ms : List (ℤ × ℤ)) → IsExchange d last ((negsuc 0, my) ∷ ms)
  reply :
      {last : ℤ} (t my : ℤ) {ms : List (ℤ × ℤ)}
      → last ≤ℤ t
      → t ≤ℤ my
      → IsExchange d my ms
      → IsExchange d last ((t +ℤ d, my) ∷ ms)

-- The difference lies within the bounds.
pub record HasOffset (d : ℤ) (b : Bounds) : Type 0 where
  pub above : b.td_min ≤ℤ d
  pub below : d ≤ℤ b.td_max

pub fmax2-le : (a b d : ℤ) → a ≤ℤ d → b ≤ℤ d → fmax2 a b ≤ℤ d
unfolding fmax2
fmax2-le a b d h k = if_elim (λ c. c ≤ℤ d) (ltb_ℤ b a) (λ _. h) (λ _. k)

pub fmin2-ge : (a b d : ℤ) → d ≤ℤ a → d ≤ℤ b → d ≤ℤ fmin2 a b
unfolding fmin2
fmin2-ge a b d h k = if_elim (λ c. d ≤ℤ c) (ltb_ℤ a b) (λ _. h) (λ _. k)

-- A message that is sent at `t` bounds the difference on both sides.
pub sent_below : (t my d : ℤ) → t ≤ℤ my → t +ℤ d -ℤ my ≤ℤ d
sent_below t my d h = omega int_laws

pub sent_above : (t last d : ℤ) → last ≤ℤ t → d ≤ℤ t +ℤ d -ℤ last
sent_above t last d h = omega int_laws

pub tighten-HasOffset :
    (d t my : ℤ) (b : Bounds)
    → b.my_time ≤ℤ t
    → t ≤ℤ my
    → HasOffset d b
    → HasOffset d (tighten (t +ℤ d) my b)
unfolding tighten
tighten-HasOffset d t my b h k c = record {
  above = fmax2-le b.td_min _ d c.above (sent_below t my d k);
  below = fmin2-ge b.td_max _ d c.below (sent_above t b.my_time d h);
}

-- A result with bounds that hold the difference.
abbrev pub Found : ℤ → Option Bounds → Type 0
Found d none = ⊥
Found d (some b) = HasOffset d b

rounds-Found :
    (min_time d : ℤ) (i : ℕ) (b : Bounds) (ms : List (ℤ × ℤ))
    → IsExchange d b.my_time ms
    → HasOffset d b
    → i < number_ping_pongs
    → number_ping_pongs ≤ i + length ms
    → Found d (rounds min_time i b ms)
unfolding rounds tighten
rounds-Found min_time d i b [] silent c h k = absurd (omega arith)
rounds-Found min_time d i b (_ ∷ _) (stopped my ms) c h k = c
rounds-Found min_time d i b (_ ∷ ms) (reply t my p q e) c h k =
    let c' = tighten-HasOffset d t my b p q c in
    if_elim (Found d) (ltb_ℤ (t +ℤ d) (pos 0)) (λ _. c)
      (λ _.
        if_elim (Found d) (is_enough min_time i my b.my_time) (λ _. c')
          (λ _.
            if_elim (Found d) (suc i == number_ping_pongs) (λ _. c')
              (λ n.
                rounds-Found min_time d (suc i) (tighten (t +ℤ d) my b) ms e c' (ground arith)
                  (omega arith))))

new_min_time-ge : (min_time d : ℤ) (b : Bounds) → HasOffset d b → pos 0 ≤ℤ new_min_time min_time b
unfolding new_min_time fmin2
new_min_time-ge min_time d b c =
    let p = c.above in
    let q = c.below in
    let r : pos 0 ≤ℤ b.td_max -ℤ b.td_min = omega int_laws in
    if_elim (λ v. pos 0 ≤ℤ v) (ltb_ℤ min_time (pos 0)) (λ _. r)
      (λ n.
        if_elim (λ v. pos 0 ≤ℤ v) (ltb_ℤ min_time (b.td_max -ℤ b.td_min)) (λ _. ground arith)
          (λ _. r))

-- A result of an exchange: its bounds hold the difference of the clocks, and the new best exchange is
-- accounted as one.
abbrev pub FoundBy : ℤ → ℤ → Option Bounds → Type 0
FoundBy min_time d none = ⊥
FoundBy min_time d (some b) = HasOffset d b × (pos 0 ≤ℤ new_min_time min_time b)

abbrev first_bounds : (d last t my : ℤ) → Bounds
first_bounds d last t my = record { td_min = t +ℤ d -ℤ my; td_max = t +ℤ d -ℤ last; my_time = my }

-- For a clock of the other process that is ahead by a fixed difference, and messages that are sent before
-- they are received: after at most 100 messages ping_pong ends, with bounds that hold the difference, and
-- the width of the best exchange is not negative.
pub ping_pong-FoundBy :
    (min_time d last t my : ℤ) (ms : List (ℤ × ℤ))
    → last ≤ℤ t
    → t ≤ℤ my
    → IsExchange d my ms
    → 99 ≤ length ms
    → FoundBy min_time d (ping_pong min_time last (t +ℤ d, my) ms)
unfolding ping_pong
ping_pong-FoundBy min_time d last t my ms h k e l =
    go (rounds min_time 1 (first_bounds d last t my) ms) (
      rounds-Found min_time d 1 (first_bounds d last t my) ms e
        (record { above = sent_below t my d k; below = sent_above t last d h }) (omega arith)
        (omega arith))
  where
    go : (r : Option Bounds) → Found d r → FoundBy min_time d r
    go none c = absurd c
    go (some b) c = (c, new_min_time-ge min_time d b c)
