-- ===== src/Onesided/Rows.antt =====
-- What the rows of a buffer hold behind each call.
use ska_mpi.Prelude.{
  ℕ, zero, suc, ◌+◌, ◌-◌, ◌≤◌, ◌<◌, ◌≡◌, refl, subst, ◌∙◌, true, ℕ_discrete, arith,
}
use ska_mpi.Measurement.{put}
use ska_mpi.Measurement.Elements.{put-at, put-other}
use ska_mpi.Onesided.{
  next_rank, prev_rank, Cells, onesided_exchange_border_cells, row_of, simulate_outer_cells,
  inner_rows, simulate_inner_cells,
}

module _ {A : Type 0} (plus : A → A → A) (third : A → A) where
  inner_rows-outside :
      (n i k : ℕ) (from to : ℕ → ℕ → A)
      → (i ≤ k → i + n ≤ k)
      → inner_rows plus third n i from to k ≡ to k
  unfolding inner_rows
  inner_rows-outside zero i k from to h = refl
  inner_rows-outside (suc n) i k from to h =
      inner_rows-outside n (i + 1) k from _ (λ l. ground arith)
      ∙ put-other i k (row_of plus third from i) to (λ e. let l = h (omega arith) in omega arith)

  inner_rows-inside :
      (n i k : ℕ) (from to : ℕ → ℕ → A)
      → i ≤ k
      → k < i + n
      → inner_rows plus third n i from to k ≡ row_of plus third from k
  unfolding inner_rows
  inner_rows-inside zero i k from to l m = absurd (omega arith)
  inner_rows-inside (suc n) i k from to l m = elim (ℕ_discrete i k) [
    | yes e ↦
        subst
          (λ r.
            inner_rows plus third n (i + 1) from (put i (row_of plus third from i) to) r
            ≡ row_of plus third from r)
          e
          (inner_rows-outside n (i + 1) i from _ (λ c. absurd (omega arith))
            ∙ put-at i (row_of plus third from i) to)
    | no ne ↦ inner_rows-inside n (i + 1) k from _ (omega arith) (omega arith)
  ]

  module _ (border_rows rank : ℕ) (enough : 3 ≤ border_rows) (c : Cells A) where
    abbrev pub outer : Cells A
    outer = simulate_outer_cells plus third border_rows true c

    abbrev pub inner : Cells A
    inner = simulate_inner_cells plus third border_rows true c

    pub outer_from : outer.from_buffer ≡ c.from_buffer
    unfolding simulate_outer_cells
    outer_from = refl

    pub outer_first : outer.to_buffer rank 1 ≡ row_of plus third (c.from_buffer rank) 1
    unfolding simulate_outer_cells
    outer_first = put-other border_rows 1 _ _ (λ e. omega arith) ∙ put-at 1 _ _

    pub outer_last :
        outer.to_buffer rank border_rows ≡ row_of plus third (c.from_buffer rank) border_rows
    unfolding simulate_outer_cells
    outer_last = put-at border_rows _ _

    pub inner_from : inner.from_buffer ≡ c.from_buffer
    unfolding simulate_inner_cells
    inner_from = refl

    pub inner_between :
        (k : ℕ)
        → 2 ≤ k
        → k < border_rows
        → inner.to_buffer rank k ≡ row_of plus third (c.from_buffer rank) k
    unfolding simulate_inner_cells
    inner_between k l m = inner_rows-inside (border_rows - 2) 2 k _ _ l (omega arith)

    pub inner_outside :
        (k : ℕ) → (2 ≤ k → border_rows ≤ k) → inner.to_buffer rank k ≡ c.to_buffer rank k
    unfolding simulate_inner_cells
    inner_outside k h =
        inner_rows-outside (border_rows - 2) 2 k _ _ (λ l. let m = h l in omega arith)

-- What an exchange of the border cells does on every process.
pub record Exchanges {A : Type 0} (size border_rows : ℕ) (exchange : Cells A → Cells A)
    : Type 0 where
  pub first :
      (rank : ℕ)
      → rank < size
      → (c : Cells A)
      → (exchange c).to_buffer rank 0 ≡ c.to_buffer (prev_rank size rank) border_rows
  pub last :
      (rank : ℕ)
      → rank < size
      → (c : Cells A)
      → (exchange c).to_buffer rank (border_rows + 1) ≡ c.to_buffer (next_rank size rank) 1
  pub own :
      (rank : ℕ)
      → rank < size
      → (c : Cells A) (k : ℕ) → 0 < k
      → k ≤ border_rows
      → (exchange c).to_buffer rank k ≡ c.to_buffer rank k
  pub same_from : (c : Cells A) → (exchange c).from_buffer ≡ c.from_buffer

pub onesided-Exchanges :
    {A : Type 0} (size border_rows : ℕ)
    → Exchanges {A = A} size border_rows (onesided_exchange_border_cells size border_rows)
unfolding onesided_exchange_border_cells
onesided-Exchanges size border_rows = record {
  first = λ rank h c. put-other (border_rows + 1) 0 _ _ (λ e. omega arith) ∙ put-at 0 _ _;
  last = λ rank h c. put-at (border_rows + 1) _ _;
  own = λ rank h c k l m.
      put-other (border_rows + 1) k _ _ (λ e. omega arith) ∙ put-other 0 k _ _ (λ e. omega arith);
  same_from = λ c. refl;
}
