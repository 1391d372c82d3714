-- ===== src/Align.antt =====
-- `alignment_fix` and `align_ptr` of src/mem.c. An address is an `unsigned long` of 64 bits, and
-- the address that `MPI_Get_address` reports is the pointer itself.
pub mod Least
use ska_mpi.Prelude.{ℕ, ◌+◌, ◌-◌, ◌*◌, ◌%◌, ◌^◌, ◌==◌, if◌then◌else◌}

abbrev pub word : ℕ
word = 2 ^ 64

-- The addition `address+fix` wraps at the word size; `a` is the alignment, and no alignment is asked
-- for when it is 0.
unfoldable pub alignment_fix : ℕ → ℕ → ℕ
alignment_fix p a =
    if a == 0
    then 0
    else (let fix = (a - p % a) % a in if (p + fix) % word % (2 * a) == 0 then fix + a else fix)

unfoldable pub align_ptr : ℕ → ℕ → ℕ
align_ptr p a = p + alignment_fix p a
