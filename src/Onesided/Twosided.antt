-- ===== src/Onesided/Twosided.antt =====
-- src/measurements/onesided.c: the border exchange by MPI_Isend and MPI_Irecv, which gives the same rows.
use ska_mpi.Prelude.{
  ℕ, ◌+◌, ◌≤◌, ◌<◌, ◌≡◌, refl, sym, ◌∙◌, Bool, true, ◌&&◌, Option, none, some, List, [], ◌∷◌, ◌==◌,
  if◌then◌else◌, arith,
}
use ska_mpi.Measurement.{put}
use ska_mpi.Measurement.Elements.{put-at, put-other}
use ska_mpi.Onesided.{next_rank, prev_rank, Cells, borderexchange, measure_onesided_borderexchange}
use ska_mpi.Onesided.Ring.{next-prev, prev-next}
use ska_mpi.Onesided.Rows.{Exchanges, onesided-Exchanges}
use ska_mpi.Onesided.Simulated.{borderexchange-stencils}

-- A message that a process has sent.
pub record Isend (A : Type 0) : Type 0 where
  pub dest : ℕ
  pub tag : ℕ
  pub row : ℕ → A

-- The two calls of `MPI_Isend`, with the copies in `sendbuf1` and `sendbuf2`.
unfoldable pub border_isends :
    {A : Type 0} (size border_rows rank : ℕ) → (ℕ → ℕ → A) → List (Isend A)
border_isends size border_rows rank to_buffer =
    record { dest = prev_rank size rank; tag = 1; row = to_buffer 1 }
    ∷ record { dest = next_rank size rank; tag = 0; row = to_buffer border_rows }
    ∷ []

-- The first message that fits a call of `MPI_Irecv`.
unfoldable pub arriving : {A : Type 0} (me tag : ℕ) → List (Isend A) → Option (ℕ → A)
arriving me tag [] = none
arriving me tag (s ∷ rest) =
    if s.dest == me && s.tag == tag then some s.row else arriving me tag rest

-- A receive without a message would leave its row as it is.
abbrev pub irecv : {A : Type 0} → Option (ℕ → A) → (i : ℕ) → (ℕ → ℕ → A) → ℕ → ℕ → A
irecv none i b = b
irecv (some r) i b = put i r b

unfoldable pub twosided_exchange_border_cells :
    {A : Type 0} (size border_rows : ℕ) → Cells A → Cells A
twosided_exchange_border_cells {A} size border_rows c = record c {
  to_buffer = λ rank.
      irecv (arriving rank 1 (sent (next_rank size rank))) (border_rows + 1)
        (irecv (arriving rank 0 (sent (prev_rank size rank))) 0 (c.to_buffer rank));
}
  where
    sent : ℕ → List (Isend A)
    sent rank = border_isends size border_rows rank (c.to_buffer rank)

unfoldable pub measure_twosided_borderexchange :
    {A : Type 0} (plus : A → A → A) (third : A → A)
    (size border_rows border_cols iteration_count : ℕ) (compute : Bool)
    → Cells A
    → Cells A
measure_twosided_borderexchange plus third size border_rows border_cols iteration_count compute =
    borderexchange plus third (twosided_exchange_border_cells size border_rows) border_rows compute
      border_cols iteration_count

module _ {A : Type 0} (size rows rank : ℕ) (h : rank < size) (to_buffer : ℕ → ℕ → ℕ → A) where
  from_prev :
      arriving rank 0
        (border_isends size rows (prev_rank size rank) (to_buffer (prev_rank size rank)))
      ≡ some (to_buffer (prev_rank size rank) rows)
  unfolding arriving border_isends
  from_prev = let e = next-prev size rank h in ground arith

  from_next :
      arriving rank 1
        (border_isends size rows (next_rank size rank) (to_buffer (next_rank size rank)))
      ≡ some (to_buffer (next_rank size rank) 1)
  unfolding arriving border_isends
  from_next = let e = prev-next size rank h in ground arith

twosided-Exchanges :
    {A : Type 0} (size rows : ℕ)
    → Exchanges {A = A} size rows (twosided_exchange_border_cells size rows)
unfolding twosided_exchange_border_cells
twosided-Exchanges size rows = record {
  first = λ rank h c.
      rw (from_prev size rows rank h c.to_buffer, from_next size rows rank h c.to_buffer)
        (put-other (rows + 1) 0 _ _ (λ e. omega arith) ∙ put-at 0 _ _);
  last = λ rank h c. rw (from_next size rows rank h c.to_buffer) (put-at (rows + 1) _ _);
  own = λ rank h c k l m.
      rw (from_prev size rows rank h c.to_buffer, from_next size rows rank h c.to_buffer)
        (put-other (rows + 1) k _ _ (λ e. omega arith) ∙ put-other 0 k _ _ (λ e. omega arith));
  same_from = λ c. refl;
}

-- With at least three rows and two columns, and with computation: the two-sided measurement leaves the
-- same own rows on each process as the one-sided one.
pub measure_twosided_borderexchange-same :
    {A : Type 0} (size border_rows border_cols iteration_count : ℕ) (plus : A → A → A)
    (third : A → A) (c : Cells A) (rank k : ℕ)
    → 3 ≤ border_rows
    → 1 < border_cols
    → rank < size
    → 0 < k
    → k ≤ border_rows
    → (measure_twosided_borderexchange plus third size border_rows border_cols iteration_count true
          c).to_buffer
        rank k
      ≡ (measure_onesided_borderexchange plus third size border_rows border_cols iteration_count
            true c).to_buffer
          rank k
unfolding measure_twosided_borderexchange measure_onesided_borderexchange
measure_twosided_borderexchange-same size rows cols n plus third c rank k enough wide h l m =
    borderexchange-stencils size rows cols n _ (twosided-Exchanges size rows) plus third c enough
      wide rank k h l m
    ∙ sym (
        borderexchange-stencils size rows cols n _ (onesided-Exchanges size rows) plus third c
          enough wide rank k h l m)
