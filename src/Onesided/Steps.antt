-- ===== src/Onesided/Steps.antt =====
-- One round of the border exchange is one step of the simulation on the ring.
use ska_mpi.Prelude.{
  ℕ, ◌+◌, ◌-◌, ◌*◌, ◌≤◌, ◌<◌, ◌≡◌, refl, sym, ap, subst, ◌∙◌, true, ℕ_discrete, arith,
}
use ska_mpi.Onesided.{
  next_rank, prev_rank, Cells, row_of, onesided_exchange_buffers, simulate_outer_cells,
  simulate_inner_cells,
}
use ska_mpi.Onesided.Ring.{
  above, below, stencil, above_later, below_earlier, above_first, below_last, mul_below,
  prev_rank_lt, next_rank_lt,
}
use ska_mpi.Onesided.Rows.{
  Exchanges, outer_from, outer_first, outer_last, inner_between, inner_outside,
}

-- The own rows of the processes are those of the ring, one process behind the other.
abbrev pub IsOwn : {A : Type 0} (size rows : ℕ) → (ℕ → ℕ → ℕ → A) → (ℕ → ℕ → A) → Type 0
IsOwn size rows b ring =
    (rank k : ℕ) → rank < size → 0 < k → k ≤ rows → b rank k ≡ ring (rank * rows + (k - 1))

-- The rows around them are those of the neighbours.
pub record IsRing {A : Type 0} (size rows : ℕ) (b : ℕ → ℕ → ℕ → A) (ring : ℕ → ℕ → A) : Type 0 where
  pub own : IsOwn size rows b ring
  pub first : (rank : ℕ) → rank < size → b rank 0 ≡ ring (above (size * rows) (rank * rows))
  pub last :
      (rank : ℕ)
      → rank < size
      → b rank (rows + 1) ≡ ring (below (size * rows) (rank * rows + (rows - 1)))

module _ {A : Type 0} (size rows : ℕ) (exchange : Cells A → Cells A)
    (laws : Exchanges size rows exchange) (enough : 3 ≤ rows) where
  pub exchange-IsRing :
      (c : Cells A) (ring : ℕ → ℕ → A)
      → IsOwn size rows c.to_buffer ring
      → IsRing size rows (exchange c).to_buffer ring
  exchange-IsRing c ring own = record {
    own = λ rank k h l m. laws.own rank h c k l m ∙ own rank k h l m;
    first = λ rank h.
        laws.first rank h c
        ∙ (own (prev_rank size rank) rows (prev_rank_lt size rank h) (omega arith) (omega arith)
            ∙ ap ring (sym (above_first size rows rank h (omega arith))));
    last = λ rank h.
        laws.last rank h c
        ∙ (own (next_rank size rank) 1 (next_rank_lt size rank h) (omega arith) (omega arith)
            ∙ ap ring (omega (arith, below_last size rows rank h (omega arith))));
  }

  module _ (plus : A → A → A) (third : A → A) where
    abbrev after : (ℕ → ℕ → A) → ℕ → ℕ → A
    after = stencil plus third (size * rows)

    row_of-stencil :
        (b : ℕ → ℕ → ℕ → A) (ring : ℕ → ℕ → A)
        → IsRing size rows b ring
        → (rank k : ℕ) → rank < size
        → 0 < k
        → k ≤ rows
        → row_of plus third (b rank) k ≡ after ring (rank * rows + (k - 1))
    row_of-stencil b ring inv rank k h l m = rw (up, here, down) refl
      where
        here : b rank k ≡ ring (rank * rows + (k - 1))
        here = inv.own rank k h l m

        up : b rank (k - 1) ≡ ring (above (size * rows) (rank * rows + (k - 1)))
        up = elim (ℕ_discrete k 1) [
          | yes e ↦
              let z : k - 1 ≡ 0 = omega arith in
              let g : rank * rows ≡ rank * rows + (k - 1) = omega arith in
              ap (b rank) z ∙ (inv.first rank h ∙ ap (λ g. ring (above (size * rows) g)) g)
          | no ne ↦
              inv.own rank (k - 1) h (omega arith) (omega arith)
              ∙ ap ring
                  (omega (arith, above_later (size * rows) (rank * rows + (k - 1)) (omega arith)))
        ]

        down : b rank (k + 1) ≡ ring (below (size * rows) (rank * rows + (k - 1)))
        down = elim (ℕ_discrete k rows) [
          | yes e ↦
              let z : k + 1 ≡ rows + 1 = omega arith in
              let g : rank * rows + (rows - 1) ≡ rank * rows + (k - 1) = omega arith in
              ap (b rank) z ∙ (inv.last rank h ∙ ap (λ g. ring (below (size * rows) g)) g)
          | no ne ↦
              inv.own rank (k + 1) h (omega arith) (omega arith)
              ∙ ap ring (
                  omega (
                    arith,
                    below_earlier (size * rows) (rank * rows + (k - 1))
                        (omega (arith, mul_below size rows rank h)),
                  ))
        ]

    -- The inner cells, where the outer ones are ready.
    inner_all :
        (c d : Cells A) (rank : ℕ)
        → d.from_buffer ≡ c.from_buffer
        → d.to_buffer rank 1 ≡ row_of plus third (c.from_buffer rank) 1
        → d.to_buffer rank rows ≡ row_of plus third (c.from_buffer rank) rows
        → (k : ℕ) → 0 < k
        → k ≤ rows
        → (simulate_inner_cells plus third rows true d).to_buffer rank k
          ≡ row_of plus third (c.from_buffer rank) k
    inner_all c d rank same first last k l m = elim (ℕ_discrete k 1) [
      | yes e ↦
          subst (λ k. inner_d k ≡ row_of plus third (c.from_buffer rank) k) (sym e)
            (inner_outside plus third rows rank enough d 1 (λ h. absurd (omega arith)) ∙ first)
      | no n1 ↦ elim (ℕ_discrete k rows) [
        | yes e ↦
            subst (λ k. inner_d k ≡ row_of plus third (c.from_buffer rank) k) (sym e)
              (inner_outside plus third rows rank enough d rows (λ h. omega arith) ∙ last)
        | no n2 ↦
            inner_between plus third rows rank enough d k (omega arith) (omega arith)
            ∙ ap (λ f. row_of plus third (f rank) k) same
      ]
    ]
      where
        inner_d : ℕ → ℕ → A
        inner_d k = (simulate_inner_cells plus third rows true d).to_buffer rank k

    module _ (c : Cells A) (ring : ℕ → ℕ → A) (inv : IsRing size rows c.from_buffer ring) where
      abbrev ready : Cells A
      ready = simulate_outer_cells plus third rows true c

      abbrev fetched : Cells A
      fetched = exchange ready

      ready_first :
          (rank : ℕ)
          → rank < size
          → ready.to_buffer rank 1 ≡ row_of plus third (c.from_buffer rank) 1
      ready_first rank h = outer_first plus third rows rank enough c

      ready_last :
          (rank : ℕ)
          → rank < size
          → ready.to_buffer rank rows ≡ row_of plus third (c.from_buffer rank) rows
      ready_last rank h = outer_last plus third rows rank enough c

      -- The last round, without an exchange.
      pub last_round :
          IsOwn size rows (simulate_inner_cells plus third rows true ready).to_buffer (after ring)
      last_round rank k h l m =
          inner_all c ready rank (outer_from plus third rows rank enough c) (ready_first rank h)
            (ready_last rank h) k l m
          ∙ row_of-stencil c.from_buffer ring inv rank k h l m

      -- A round of the loop.
      pub round :
          IsRing size rows
            (onesided_exchange_buffers
              (simulate_inner_cells plus third rows true fetched)).from_buffer
            (after ring)
      unfolding onesided_exchange_buffers
      round = record {
        own = λ rank k h l m.
            inner_all c fetched rank
              (laws.same_from ready ∙ outer_from plus third rows rank enough c)
              (laws.own rank h ready 1 (omega arith) (omega arith) ∙ ready_first rank h)
              (laws.own rank h ready rows (omega arith) (omega arith) ∙ ready_last rank h) k l m
            ∙ row_of-stencil c.from_buffer ring inv rank k h l m;
        first = λ rank h.
            let r = prev_rank_lt size rank h in
            inner_outside plus third rows rank enough fetched 0 (λ l. absurd (omega arith))
            ∙ (laws.first rank h ready
                ∙ (ready_last _ r
                    ∙ (row_of-stencil c.from_buffer ring inv _ rows r (omega arith) (omega arith)
                        ∙ ap (after ring) (sym (above_first size rows rank h (omega arith))))));
        last = λ rank h.
            let r = next_rank_lt size rank h in
            inner_outside plus third rows rank enough fetched (rows + 1) (λ l. omega arith)
            ∙ (laws.last rank h ready
                ∙ (ready_first _ r
                    ∙ (row_of-stencil c.from_buffer ring inv _ 1 r (omega arith) (omega arith)
                        ∙ ap (after ring)
                            (omega (arith, below_last size rows rank h (omega arith))))));
      }
