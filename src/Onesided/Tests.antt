-- ===== src/Onesided/Tests.antt =====
-- The border exchange on small buffers, and its properties on them.
use ska_mpi.Prelude.{ℕ, ◌+◌, ◌*◌, ◌/◌, ◌≡◌, refl, true, arith}
use ska_mpi.Measurement.{put}
use ska_mpi.Onesided.{
  next_rank, prev_rank, Cells, onesided_exchange_buffers, onesided_exchange_border_cells,
  simulate_outer_cells, simulate_inner_cells, inner_rows, border_loop, borderexchange,
  measure_onesided_borderexchange,
}
use ska_mpi.Onesided.Ring.{stencils}
use ska_mpi.Onesided.Simulated.{all_rows, measure_onesided_borderexchange-stencils}
use ska_mpi.Onesided.Twosided.{
  measure_twosided_borderexchange, measure_twosided_borderexchange-same,
}

abbrev start : Cells ℕ
start = record { to_buffer = λ rank i j. 0; from_buffer = λ rank i j. 100 * rank + 10 * i + j }

abbrev plus_ℕ : ℕ → ℕ → ℕ
plus_ℕ a b = a + b

abbrev third_ℕ : ℕ → ℕ
third_ℕ a = a / 3

-- The row above the first one comes from the other process.
test_first_row :
    (measure_onesided_borderexchange plus_ℕ third_ℕ 2 3 4 0 true start).to_buffer 0 1 2
    ≡ (132 + 12 + 22) / 3
unfolding measure_onesided_borderexchange borderexchange border_loop simulate_inner_cells
    simulate_outer_cells inner_rows onesided_exchange_buffers onesided_exchange_border_cells
    prev_rank next_rank put
test_first_row = refl

measure_onesided_borderexchange-stencils_example :
    (measure_onesided_borderexchange plus_ℕ third_ℕ 2 3 4 5 true start).to_buffer 1 3
    ≡ stencils plus_ℕ third_ℕ (2 * 3) (5 + 1) (all_rows 3 start.from_buffer) (1 * 3 + 2)
measure_onesided_borderexchange-stencils_example =
    measure_onesided_borderexchange-stencils 2 3 4 5 plus_ℕ third_ℕ start 1 3 (omega arith)
      (omega arith) (omega arith) (omega arith) (omega arith)

measure_twosided_borderexchange-same_example :
    (measure_twosided_borderexchange plus_ℕ third_ℕ 2 3 4 5 true start).to_buffer 1 3
    ≡ (measure_onesided_borderexchange plus_ℕ third_ℕ 2 3 4 5 true start).to_buffer 1 3
measure_twosided_borderexchange-same_example =
    measure_twosided_borderexchange-same 2 3 4 5 plus_ℕ third_ℕ start 1 3 (omega arith)
      (omega arith) (omega arith) (omega arith) (omega arith)
