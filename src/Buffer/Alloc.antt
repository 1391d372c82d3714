-- ===== src/Buffer/Alloc.antt =====
-- src/mem.c: the allocation of the communication buffer, and the alignments. The allocator is a
-- parameter: it maps the size that is asked for to an address, NULL if it has none. What the
-- functions give back to it is part of their result. `none` is a failed assertion, or a sum or a
-- product that leaves the range of `int`.
use ska_mpi.Prelude.{
  ℕ, ◌+◌, ◌-◌, ◌*◌, ◌^◌, Option, none, some, List, [], ◌∷◌, ltb, ◌==◌, if◌then◌else◌,
}
use ska_mpi.Prelude.Int.{ℤ, pos, negsuc}
use ska_mpi.Arith.{lcm}
use ska_mpi.Align.{align_ptr}
use ska_mpi.Buffer.{Buffer, null, init_buffer}

abbrev pub int_max : ℕ
int_max = 2 ^ 31 - 1

-- a call that gives memory back
pub data Release : Type 0 where
  free : ℕ → Release
  mpi_free_mem : ℕ → Release

-- What both functions do once they have the block `p`.
unfoldable pub install : ℕ → ℕ → ℕ → ℕ → Buffer → Buffer
unfolding init_buffer
install method size alignments p b = init_buffer (record b {
  real_skampi_buffer = p;
  allocation_method = method;
  skampi_buffer_size = size;
  skampi_real_buffer_size = size + alignments;
  skampi_buffer = align_ptr p b.skampi_buffer_alignment;
})

-- `free` or `MPI_Free_mem` of `p`, as the block was allocated.
unfoldable pub release : ℕ → Buffer → List Release
release p b =
    if b.skampi_buffer == null
    then []
    else (if b.allocation_method == 0
        then free p ∷ []
        else (if b.allocation_method == 1 then mpi_free_mem p ∷ [] else []))

-- An alignment below 1 becomes 1.
unfoldable pub at_least_one : ℤ → ℕ
at_least_one (pos n) = if ltb n 1 then 1 else n
at_least_one (negsuc n) = 1

module _ (malloc : ℕ → ℕ) where
  unfoldable pub set_skampi_buffer : ℕ → Buffer → Option (Buffer × List Release)
  unfolding install release
  set_skampi_buffer size b =
      let released = release b.real_skampi_buffer b in
      let alignments = 8 * b.skampi_buffer_alignment in
      if ltb int_max (size + alignments)
      then none
      else (let p = malloc (size + alignments) in
          if p == null then none else some (install 0 size alignments p b, released))

  -- Here `malloc` stands for `MPI_Alloc_mem`, whose failure is the NULL of the assertions.
  unfoldable pub set_skampi_buffer_mpi_alloc_mem : ℕ → Buffer → Option (Buffer × List Release)
  unfolding install release
  set_skampi_buffer_mpi_alloc_mem size b =
      let released = release b.skampi_buffer b in
      let alignments = 8 * b.skampi_buffer_alignment in
      if ltb int_max (size + alignments)
      then none
      else (let p = malloc (size + alignments) in
          if p == null then none else some (install 1 size alignments p b, released))

  -- The common end of the two functions that set an alignment.
  unfoldable pub realign : Buffer → Option (Buffer × List Release)
  unfolding set_skampi_buffer lcm
  realign b =
      if ltb int_max (b.send_buffer_alignment * b.recv_buffer_alignment)
      then none
      else (let new_alignment = lcm b.send_buffer_alignment b.recv_buffer_alignment in
          if new_alignment == b.skampi_buffer_alignment
          then some (b, [])
          else set_skampi_buffer b.skampi_buffer_size
              (record b { skampi_buffer_alignment = new_alignment }))

  unfoldable pub set_send_buffer_alignment : ℤ → Buffer → Option (Buffer × List Release)
  unfolding realign at_least_one
  set_send_buffer_alignment a b = realign (record b { send_buffer_alignment = at_least_one a })

  unfoldable pub set_recv_buffer_alignment : ℤ → Buffer → Option (Buffer × List Release)
  unfolding realign at_least_one
  set_recv_buffer_alignment a b = realign (record b { recv_buffer_alignment = at_least_one a })
