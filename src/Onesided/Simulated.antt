-- ===== src/Onesided/Simulated.antt =====
-- What the measurements of the border exchange compute.
use native.Mathlib.Nat.{mul-add-div_right, mul-add-mod_self_right, div-eq_of_lt, mod-eq_of_lt}
use ska_mpi.Prelude.{
  ℕ, zero, suc, ◌+◌, ◌-◌, ◌*◌, ◌≤◌, ◌<◌, ◌≡◌, refl, ◌/◌, ◌%◌, ap, subst, ◌∙◌, leb, ltb, true, arith,
}
use ska_mpi.Onesided.{
  Cells, onesided_exchange_buffers, border_loop, borderexchange, measure_onesided_borderexchange,
}
use ska_mpi.Onesided.Ring.{stencils}
use ska_mpi.Onesided.Rows.{Exchanges, onesided-Exchanges}
use ska_mpi.Onesided.Steps.{IsOwn, IsRing, exchange-IsRing, last_round, round}

module _ {A : Type 0} (size rows : ℕ) (exchange : Cells A → Cells A)
    (laws : Exchanges size rows exchange) (enough : 3 ≤ rows) (plus : A → A → A)
    (third : A → A) where
  abbrev after_rounds : ℕ → (ℕ → ℕ → A) → ℕ → ℕ → A
  after_rounds = stencils plus third (size * rows)

  border_loop-IsRing :
      (n : ℕ) (c : Cells A) (ring : ℕ → ℕ → A)
      → IsRing size rows c.from_buffer ring
      → IsRing size rows
          (border_loop plus third exchange rows true n c).from_buffer
          (after_rounds n ring)
  unfolding border_loop
  border_loop-IsRing zero c ring inv = inv
  border_loop-IsRing (suc n) c ring inv =
      border_loop-IsRing n _ _ (round size rows exchange laws enough plus third c ring inv)

  stencils-suc :
      (n : ℕ) (ring : ℕ → ℕ → A) → after_rounds 1 (after_rounds n ring) ≡ after_rounds (suc n) ring
  stencils-suc zero ring = refl
  stencils-suc (suc n) ring = stencils-suc n (after_rounds 1 ring)

  pub borderexchange-IsOwn :
      (cols n : ℕ) (c : Cells A) (ring : ℕ → ℕ → A)
      → 1 < cols
      → IsOwn size rows c.from_buffer ring
      → IsOwn size rows
          (borderexchange plus third exchange rows true cols n c).to_buffer
          (after_rounds (suc n) ring)
  unfolding borderexchange onesided_exchange_buffers
  borderexchange-IsOwn cols n c ring l own =
      let many : leb 3 rows ≡ true = ground arith in
      let wide : ltb 1 cols ≡ true = ground arith in
      rw (many, wide)
        (subst (IsOwn size rows _) (stencils-suc n ring) (
          last_round size rows exchange laws enough plus third _ (after_rounds n ring) (
            border_loop-IsRing n _ ring
              (exchange-IsRing size rows exchange laws enough _ ring own))))

-- The rows of all processes, one process behind the other.
abbrev pub all_rows : {A : Type 0} (rows : ℕ) → (ℕ → ℕ → ℕ → A) → ℕ → ℕ → A
all_rows rows b g = b (g / rows) (g % rows + 1)

all_rows-IsOwn :
    {A : Type 0} (size rows : ℕ) (b : ℕ → ℕ → ℕ → A)
    → 0 < rows
    → IsOwn size rows b (all_rows rows b)
all_rows-IsOwn size rows b p rank k h l m = rw (quotient, rest) refl
  where
    quotient : (rank * rows + (k - 1)) / rows ≡ rank
    quotient =
        mul-add-div_right p rank (k - 1)
        ∙ omega (arith, div-eq_of_lt {n = k - 1} {m = rows} (omega arith))

    rest : (rank * rows + (k - 1)) % rows + 1 ≡ k
    rest = omega (
      arith,
      mul-add-mod_self_right rank rows (k - 1),
      mod-eq_of_lt {n = k - 1} {m = rows} (omega arith),
    )

-- Whatever exchanges the border cells.
pub borderexchange-stencils :
    {A : Type 0} (size rows cols n : ℕ) (exchange : Cells A → Cells A)
    → Exchanges size rows exchange
    → (plus : A → A → A) (third : A → A) (c : Cells A) → 3 ≤ rows
    → 1 < cols
    → IsOwn size rows
        (borderexchange plus third exchange rows true cols n c).to_buffer
        (stencils plus third (size * rows) (suc n) (all_rows rows c.from_buffer))
borderexchange-stencils size rows cols n exchange laws plus third c enough wide =
    borderexchange-IsOwn size rows exchange laws enough plus third cols n c
      (all_rows rows c.from_buffer) wide (all_rows-IsOwn size rows c.from_buffer (omega arith))

-- With at least three rows and two columns, and with computation: each own row of each process holds at
-- the end what one step more than `iteration_count` makes of it, where a step replaces each row of the
-- ring of all processes' rows, as they stood in the first buffer, by the third of the sum with its neighbours.
pub measure_onesided_borderexchange-stencils :
    {A : Type 0} (size border_rows border_cols iteration_count : ℕ) (plus : A → A → A)
    (third : A → A) (c : Cells A) (rank k : ℕ)
    → 3 ≤ border_rows
    → 1 < border_cols
    → rank < size
    → 0 < k
    → k ≤ border_rows
    → (measure_onesided_borderexchange plus third size border_rows border_cols iteration_count true
          c).to_buffer
        rank k
      ≡ stencils plus third
          (size * border_rows)
          (iteration_count + 1)
          (all_rows border_rows c.from_buffer)
          (rank * border_rows + (k - 1))
unfolding measure_onesided_borderexchange
measure_onesided_borderexchange-stencils size rows cols n plus third c rank k enough wide h l m =
    let e : suc n ≡ n + 1 = omega arith in
    borderexchange-stencils size rows cols n _ (onesided-Exchanges size rows) plus third c enough
      wide rank k h l m
    ∙ ap
        (λ i.
          stencils plus third (size * rows) i (all_rows rows c.from_buffer) (rank * rows + (k - 1)))
        e
