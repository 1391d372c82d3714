-- ===== src/Onesided.antt =====
-- src/measurements/onesided.c: the exchange of border cells, one-sided and two-sided, on all processes. A
-- process keeps `border_rows` rows of a ring of rows between two rows for those of its neighbours. Row `i`
-- and column `j` of a buffer stand for the element `i * border_cols + j`; the arithmetic of doubles is a
-- parameter, and the clocks are left out. Each call is modelled on all processes before the next one:
-- the rows that are fetched are not written until the wait for them, which is what lets a process go ahead.
pub mod Ring
pub mod Rows
pub mod Steps
pub mod Simulated
pub mod Twosided
mod Tests
use ska_mpi.Prelude.{ℕ, zero, suc, ◌+◌, ◌-◌, ◌*◌, ◌%◌, Bool, ◌&&◌, ltb, leb, if◌then◌else◌}
use ska_mpi.Measurement.{put}

unfoldable pub next_rank : (size rank : ℕ) → ℕ
next_rank size rank = (rank + 1) % size

unfoldable pub prev_rank : (size rank : ℕ) → ℕ
prev_rank size rank = (rank + size - 1) % size

-- The buffers of every process: by rank, row and column.
pub record Cells (A : Type 0) : Type 0 where
  pub to_buffer : ℕ → ℕ → ℕ → A
  pub from_buffer : ℕ → ℕ → ℕ → A

unfoldable pub onesided_exchange_buffers : {A : Type 0} → Cells A → Cells A
onesided_exchange_buffers c = record { to_buffer = c.from_buffer; from_buffer = c.to_buffer }

-- The two calls of `MPI_Get`, with what they bring when they are complete.
unfoldable pub onesided_exchange_border_cells :
    {A : Type 0} (size border_rows : ℕ) → Cells A → Cells A
onesided_exchange_border_cells size border_rows c = record c {
  to_buffer = λ rank.
      put (border_rows + 1) (c.to_buffer (next_rank size rank) 1)
        (put 0 (c.to_buffer (prev_rank size rank) border_rows) (c.to_buffer rank));
}

module _ {A : Type 0} (plus : A → A → A) (third : A → A) where
  -- The loop over the columns, for one row.
  abbrev pub simulate_row : (above own below : ℕ → A) → ℕ → A
  simulate_row above own below j = third (plus (plus (above j) (own j)) (below j))

  abbrev pub row_of : (ℕ → ℕ → A) → ℕ → ℕ → A
  row_of from i = simulate_row (from (i - 1)) (from i) (from (i + 1))

  unfoldable pub simulate_outer_cells : (border_rows : ℕ) (compute : Bool) → Cells A → Cells A
  simulate_outer_cells border_rows compute c =
      if compute
      then record c {
        to_buffer = λ rank.
            put border_rows (row_of (c.from_buffer rank) border_rows)
              (put 1 (row_of (c.from_buffer rank) 1) (c.to_buffer rank));
      }
      else c

  -- `n` rows from `i` on
  unfoldable pub inner_rows : (n i : ℕ) (from to : ℕ → ℕ → A) → ℕ → ℕ → A
  inner_rows zero i from to = to
  inner_rows (suc n) i from to = inner_rows n (i + 1) from (put i (row_of from i) to)

  unfoldable pub simulate_inner_cells : (border_rows : ℕ) (compute : Bool) → Cells A → Cells A
  simulate_inner_cells border_rows compute c =
      if compute
      then record c {
        to_buffer = λ rank. inner_rows (border_rows - 2) 2 (c.from_buffer rank) (c.to_buffer rank);
      }
      else c

  module _ (exchange : Cells A → Cells A) (border_rows : ℕ) (compute : Bool) where
    unfoldable pub border_loop : (iteration_count : ℕ) → Cells A → Cells A
    border_loop zero c = c
    border_loop (suc n) c = border_loop n (
        onesided_exchange_buffers (
          simulate_inner_cells border_rows compute
            (exchange (simulate_outer_cells border_rows compute c))))

    -- What the three measurements share, `exchange` apart.
    unfoldable pub borderexchange : (border_cols iteration_count : ℕ) → Cells A → Cells A
    borderexchange border_cols iteration_count c =
        if leb 3 border_rows && ltb 1 border_cols
        then simulate_inner_cells border_rows compute (
            simulate_outer_cells border_rows compute (
              border_loop iteration_count
                (onesided_exchange_buffers (exchange (onesided_exchange_buffers c)))))
        else c

  unfoldable pub measure_onesided_borderexchange :
      (size border_rows border_cols iteration_count : ℕ) (compute : Bool) → Cells A → Cells A
  measure_onesided_borderexchange size border_rows border_cols iteration_count compute =
      borderexchange (onesided_exchange_border_cells size border_rows) border_rows compute
        border_cols iteration_count
