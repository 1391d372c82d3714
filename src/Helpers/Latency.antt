-- ===== src/Helpers/Latency.antt =====
-- src/measurements/helpers.c: the pair of processes that `func_comm2_max_latency_with_root` joins, chosen
-- by the process that has the times of all exchanges. A time is a value of an order.
use ska_mpi.Prelude.{
  ℕ, zero, suc, ◌+◌, ◌-◌, ◌*◌, ◌<◌, ◌≡◌, refl, subst, ◌⊎◌, inl, inr, true, false, Bool-cases,
  ℕ_discrete, if◌then◌else◌, arith,
}
use ska_mpi.Prelude.Ordered.{Ordered}

module _ (w : Ordered) (plus : w.Value → w.Value → w.Value) (size : ℕ)
    (all_ping_pong_min_times : ℕ → w.Value) where
  open w use {Value, lt}

  -- `max_time` and `max_procs`
  pub record Farthest : Type 0 where
    pub max_time : Value
    pub proc_0 : ℕ
    pub proc_1 : ℕ

  abbrev pub latency : ℕ → ℕ → Value
  latency i j =
      plus (all_ping_pong_min_times (i * size + j)) (all_ping_pong_min_times (j * size + i))

  unfoldable pub compare_with : (i left j : ℕ) → Farthest → Farthest
  compare_with i zero j m = m
  compare_with i (suc left) j m = compare_with i left (j + 1) (
      if lt m.max_time (latency i j)
      then record { max_time = latency i j; proc_0 = i; proc_1 = j }
      else m)

  unfoldable pub compare_all : (left i : ℕ) → Farthest → Farthest
  compare_all zero i m = m
  compare_all (suc left) i m = compare_all left (i + 1) (compare_with i (size - (i + 1)) (i + 1) m)

  unfoldable pub max_procs : (zero_time : Value) → Farthest
  max_procs zero_time = compare_all size 0 (record { max_time = zero_time; proc_0 = 0; proc_1 = 1 })

  -- `a` is not later than `b`.
  abbrev Le : Value → Value → Type 0
  Le a b = lt b a ≡ false

  Le_trans : (a b c : Value) → Le a b → Le b c → Le a c
  Le_trans a b c h k = elim (Bool-cases (lt c a)) [
    | inr n ↦ n
    | inl l ↦ elim (Bool-cases (lt b c)) [
      | inl m ↦ absurd (let t = w.lt_trans b c a m l in ground arith)
      | inr m ↦ absurd (let s = subst (λ x. lt x a ≡ false) (w.lt_total b c m k) h in ground arith)
    ]
  ]

  lt-Le : (a b : Value) → lt a b ≡ true → Le a b
  lt-Le a b h = w.lt_asymm a b h

  Le_refl : (a : Value) → Le a a
  Le_refl a = elim (Bool-cases (lt a a)) [ inr n ↦ n | inl l ↦ w.lt_asymm a a l ]

  -- What was found is the time of a pair, or nothing was found.
  abbrev pub IsFound : Value → Farthest → Type 0
  IsFound z m =
      ((m.proc_0 < m.proc_1) × ((m.proc_1 < size) × (m.max_time ≡ latency m.proc_0 m.proc_1)))
      ⊎ ((m.max_time ≡ z) × ((m.proc_0 ≡ 0) × (m.proc_1 ≡ 1)))

  -- Of the pairs up to here none takes longer.
  record Largest (z : Value) (seen : ℕ → ℕ → Type 0) (m : Farthest) : Type 0 where
    found : IsFound z m
    no_more : (i j : ℕ) → seen i j → Le (latency i j) m.max_time

  take_larger : (i j : ℕ) → Farthest → Farthest
  take_larger i j m =
      if lt m.max_time (latency i j)
      then record { max_time = latency i j; proc_0 = i; proc_1 = j }
      else m

  take_larger-Largest :
      (z : Value) (seen next : ℕ → ℕ → Type 0) (i j : ℕ) (m : Farthest)
      → i < j
      → j < size
      → ((a b : ℕ) → next a b → seen a b ⊎ ((a ≡ i) × (b ≡ j)))
      → Largest z seen m
      → Largest z next (take_larger i j m)
  unfolding take_larger
  take_larger-Largest z seen next i j m l b split inv =
      elim (Bool-cases (lt m.max_time (latency i j))) [
        | inl more ↦ rw more (record {
          found = inl (l, (b, refl));
          no_more = λ p q s. elim (split p q s) [
            | inl old ↦ Le_trans _ _ _ (inv.no_more p q old) (lt-Le _ _ more)
            | inr (e, f) ↦ rw (e, f) (Le_refl (latency i j))
          ];
        })
        | inr less ↦ rw less (record {
          found = inv.found;
          no_more = λ p q s. elim (split p q s) [
            | inl old ↦ inv.no_more p q old
            | inr (e, f) ↦ rw (e, f) less
          ];
        })
      ]

  -- The pairs before the one of `i` and `j`.
  abbrev Seen : ℕ → ℕ → ℕ → ℕ → Type 0
  Seen i j a b = (a < b) × ((b < size) × ((a < i) ⊎ ((a ≡ i) × (b < j))))

  Largest-fewer :
      (z : Value) (seen next : ℕ → ℕ → Type 0) (m : Farthest)
      → ((a b : ℕ) → next a b → seen a b)
      → Largest z seen m
      → Largest z next m
  Largest-fewer z seen next m f inv = record {
    found = inv.found;
    no_more = λ a b s. inv.no_more a b (f a b s);
  }

  Seen-next : (i j a b : ℕ) → Seen i (j + 1) a b → Seen i j a b ⊎ ((a ≡ i) × (b ≡ j))
  Seen-next i j a b (l, (s, inl h)) = inl (l, (s, inl h))
  Seen-next i j a b (l, (s, inr (e, h))) = elim (ℕ_discrete b j) [
    | yes f ↦ inr (e, f)
    | no n ↦ inl (l, (s, inr (e, omega arith)))
  ]

  Seen-row : (i a b : ℕ) → Seen (i + 1) (i + 1 + 1) a b → Seen i size a b
  Seen-row i a b (l, (s, inl h)) = elim (ℕ_discrete a i) [
    | yes e ↦ (l, (s, inr (e, s)))
    | no n ↦ (l, (s, inl (omega arith)))
  ]
  Seen-row i a b (l, (s, inr (e, h))) = absurd (omega arith)

  none-Seen : (a b : ℕ) → Seen 0 1 a b → ⊥
  none-Seen a b (l, (s, inl h)) = omega arith
  none-Seen a b (l, (s, inr (e, h))) = omega arith

  compare_with-Largest :
      (z : Value) (i left j : ℕ) (m : Farthest)
      → i < j
      → j + left ≡ size
      → Largest z (Seen i j) m
      → Largest z (Seen i size) (compare_with i left j m)
  unfolding compare_with take_larger
  compare_with-Largest z i zero j m l e inv =
      let same : j ≡ size = omega arith in subst (λ k. Largest z (Seen i k) m) same inv
  compare_with-Largest z i (suc left) j m l e inv =
      compare_with-Largest z i left (j + 1) (take_larger i j m) (omega arith) (omega arith) (
        take_larger-Largest z (Seen i j) (Seen i (j + 1)) i j m l (omega arith) (Seen-next i j) inv)

  compare_all-Largest :
      (z : Value) (left i : ℕ) (m : Farthest)
      → i + left ≡ size
      → Largest z (Seen i (i + 1)) m
      → Largest z (λ a b. (a < b) × (b < size)) (compare_all left i m)
  unfolding compare_all
  compare_all-Largest z zero i m e inv =
      Largest-fewer z (Seen i (i + 1)) _ m (λ a b (l, s). (l, (s, inl (omega arith)))) inv
  compare_all-Largest z (suc left) i m e inv = compare_all-Largest z left (i + 1) _ (omega arith) (
      Largest-fewer z (Seen i size) _ _ (λ a b s. Seen-row i a b s)
        (compare_with-Largest z i (size - (i + 1)) (i + 1) m (omega arith) (omega arith) inv))

  -- No pair of processes takes longer, there and back, than the time that `func_comm2_max_latency_with_root`
  -- ends with; and that is the time of the pair that it joins, or it is the initial time and it joins the
  -- processes 0 and 1.
  pub max_procs-IsLargest :
      (zero_time : Value) (i j : ℕ)
      → i < j
      → j < size
      → (lt (max_procs zero_time).max_time (latency i j) ≡ false)
        × IsFound zero_time (max_procs zero_time)
  unfolding max_procs
  max_procs-IsLargest z i j l s =
      let inv =
        compare_all-Largest z size 0 (record { max_time = z; proc_0 = 0; proc_1 = 1 }) (omega arith)
          (record {
            found = inr (refl, (refl, refl));
            no_more = λ a b s. absurd (none-Seen a b s);
          }) in
      (inv.no_more i j (l, s), inv.found)
