-- ===== src/Buffer/Slice.antt =====
-- src/mem.c: the slices of the send and of the receive buffer, and the sizes that hold a number of
-- them. `none` is the call of `error_with_abort` without a slice size.
use ska_mpi.Prelude.{ℕ, ◌+◌, ◌-◌, ◌*◌, ◌%◌, Option, none, some, leb, ◌==◌, if◌then◌else◌}
use ska_mpi.Align.{align_ptr}
use ska_mpi.Buffer.{Buffer, null}

unfoldable pub set_send_buffer_slice_usage : ℕ → Buffer → Buffer
set_send_buffer_slice_usage n b = record b { send_buffer_slice_usage = n }

unfoldable pub set_recv_buffer_slice_usage : ℕ → Buffer → Buffer
set_recv_buffer_slice_usage n b = record b { recv_buffer_slice_usage = n }

-- The slice after `slice` in the buffer of `usage` bytes at `buffer`.
unfoldable pub next_slice : (buffer usage alignment slice slice_usage : ℕ) → ℕ
next_slice buffer usage alignment slice slice_usage =
    if slice == null
    then (if leb slice_usage usage then buffer else slice)
    else (let tmp_ptr = align_ptr (slice + slice_usage) alignment in
        if leb (tmp_ptr + slice_usage) (usage + buffer) then tmp_ptr else null)

unfoldable pub get_send_buffer_slice : Buffer → Option (ℕ × Buffer)
unfolding next_slice
get_send_buffer_slice b =
    let slice =
      next_slice b.send_buffer b.send_buffer_usage b.send_buffer_alignment b.send_buffer_slice
        b.send_buffer_slice_usage in
    if leb b.send_buffer_slice_usage 0
    then none
    else some (slice, record b { send_buffer_slice = slice })

unfoldable pub get_recv_buffer_slice : Buffer → Option (ℕ × Buffer)
unfolding next_slice
get_recv_buffer_slice b =
    let slice =
      next_slice b.recv_buffer b.recv_buffer_usage b.recv_buffer_alignment b.recv_buffer_slice
        b.recv_buffer_slice_usage in
    if leb b.recv_buffer_slice_usage 0
    then none
    else some (slice, record b { recv_buffer_slice = slice })

-- What a slice takes beyond its size, at the alignment `a`.
unfoldable pub slice_fix : (a slice_size : ℕ) → ℕ
slice_fix a slice_size =
    let fix = (a - slice_size % a) % a in
    if (a + slice_size + fix) % (2 * a) == 0 then fix + a else fix

unfoldable pub get_send_buffer_min_size : Buffer → (slice_size n : ℕ) → ℕ
unfolding slice_fix
get_send_buffer_min_size b slice_size n =
    (slice_size + slice_fix b.send_buffer_alignment slice_size) * n

unfoldable pub get_recv_buffer_min_size : Buffer → (slice_size n : ℕ) → ℕ
unfolding slice_fix
get_recv_buffer_min_size b slice_size n =
    (slice_size + slice_fix b.recv_buffer_alignment slice_size) * n
