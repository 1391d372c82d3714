-- ===== src/Arith/Tests.antt =====
-- The functions of src/misc.c on numbers, and the theorems at them.
use ska_mpi.Prelude.{◌≡◌, refl}
use ska_mpi.Prelude.Int.{negsuc, ◌+ℤ◌, ◌-ℤ◌, ◌*ℤ◌, ◌/ℤ◌}
use ska_mpi.Arith.{gcd, lcm, imax3, round_int_to_multipleof}

lcm_runs : lcm 32 48 ≡ 96
unfolding lcm gcd
lcm_runs = refl

imax3_runs : imax3 4 9 7 ≡ 9
unfolding imax3
imax3_runs = refl

round_runs : round_int_to_multipleof (negsuc 9) 8 ≡ negsuc 7
unfolding round_int_to_multipleof ◌+ℤ◌ ◌-ℤ◌ ◌*ℤ◌ ◌/ℤ◌
round_runs = refl
