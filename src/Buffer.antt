-- ===== src/Buffer.antt =====
-- src/mem.c: the communication buffer, its send and receive parts, and the buffer pointers of
-- src/misc.c that it sets. A pointer is an address, 0 is NULL, and byte counts are numbers. Where
-- the source compares differences of pointers or of counts, the subtracted terms stand on the other
-- side of the comparison, which is the same test of integers.
pub mod Alloc
pub mod Placement
pub mod Blocks
pub mod Overrun
pub mod Slice
pub mod Slices
mod Tests
use ska_mpi.Prelude.{ℕ, ◌+◌, ◌*◌, Bool, true, false, ltb, leb, ◌==◌, if◌then◌else◌}
use ska_mpi.Align.{align_ptr}

-- The file's static variables, in their order, then the two pointers of src/misc.c.
pub record Buffer : Type 0 where
  pub skampi_buffer : ℕ
  pub real_skampi_buffer : ℕ
  pub allocation_method : ℕ
  pub send_buffer_usage : ℕ
  pub recv_buffer_usage : ℕ
  pub send_buffer_alignment : ℕ
  pub recv_buffer_alignment : ℕ
  pub skampi_buffer_alignment : ℕ
  pub fresh_ptr : ℕ
  pub skampi_buffer_size : ℕ
  pub skampi_real_buffer_size : ℕ
  pub buffer_cycling : Bool
  pub send_buffer_slice : ℕ
  pub recv_buffer_slice : ℕ
  pub send_buffer_slice_usage : ℕ
  pub recv_buffer_slice_usage : ℕ
  pub send_buffer : ℕ
  pub recv_buffer : ℕ

abbrev pub null : ℕ
null = 0

-- `set_send_buffer`, `set_recv_buffer` of src/misc.c
unfoldable pub set_send_buffer : ℕ → Buffer → Buffer
set_send_buffer p b = record b { send_buffer = p }

unfoldable pub set_recv_buffer : ℕ → Buffer → Buffer
set_recv_buffer p b = record b { recv_buffer = p }

unfoldable pub init_send_buffer_slice : Buffer → Buffer
init_send_buffer_slice b = record b { send_buffer_slice = null }

unfoldable pub init_recv_buffer_slice : Buffer → Buffer
init_recv_buffer_slice b = record b { recv_buffer_slice = null }

unfoldable pub init_buffer : Buffer → Buffer
init_buffer b = record b { fresh_ptr = b.skampi_buffer }

-- the last address that `check_buffer` lets a buffer reach
abbrev pub limit : Buffer → ℕ
limit b = b.skampi_buffer + b.skampi_real_buffer_size

-- The first half of `check_buffer`: start again at the front when the two buffers do not fit behind
-- `fresh_ptr`.
unfoldable pub recycle : Buffer → Buffer
unfolding init_buffer
recycle b =
    if ltb (limit b) (b.fresh_ptr + b.send_buffer_alignment)
    then init_buffer b
    else (let tmp_ptr = align_ptr b.fresh_ptr b.send_buffer_alignment in
        if ltb (limit b) (tmp_ptr + b.send_buffer_usage + b.recv_buffer_alignment)
        then init_buffer b
        else (let tmp_ptr = align_ptr (tmp_ptr + b.send_buffer_usage) b.recv_buffer_alignment in
            if ltb (limit b) (tmp_ptr + b.recv_buffer_usage) then init_buffer b else b))

-- The second half: place the send buffer, the receive buffer behind it, and move `fresh_ptr` on if
-- cycling is on.
unfoldable pub place : Buffer → Buffer
unfolding set_send_buffer set_recv_buffer init_send_buffer_slice init_recv_buffer_slice
place b =
    let send = align_ptr b.fresh_ptr b.send_buffer_alignment in
    let b = init_send_buffer_slice (set_send_buffer send b) in
    let recv = align_ptr (send + b.send_buffer_usage) b.recv_buffer_alignment in
    let b = init_recv_buffer_slice (set_recv_buffer recv b) in
    if b.buffer_cycling then record b { fresh_ptr = b.recv_buffer + b.recv_buffer_usage } else b

unfoldable pub check_buffer : Buffer → Buffer
unfolding recycle place
check_buffer b = place (recycle b)

unfoldable pub switch_buffer_cycling_on : Buffer → Buffer
switch_buffer_cycling_on b = record b { buffer_cycling = true }

unfoldable pub switch_buffer_cycling_off : Buffer → Buffer
switch_buffer_cycling_off b = record b { buffer_cycling = false }

unfoldable pub set_send_buffer_usage : ℕ → Buffer → Buffer
set_send_buffer_usage n b = record b { send_buffer_usage = n }

unfoldable pub set_recv_buffer_usage : ℕ → Buffer → Buffer
set_recv_buffer_usage n b = record b { recv_buffer_usage = n }

unfoldable pub is_buffer_too_small : Buffer → Bool
is_buffer_too_small b =
    let needed =
      b.send_buffer_usage
      + 2 * b.send_buffer_alignment
      + b.recv_buffer_usage
      + 2 * b.recv_buffer_alignment in
    if b.buffer_cycling
    then ltb b.skampi_real_buffer_size (2 * needed)
    else ltb b.skampi_real_buffer_size needed
