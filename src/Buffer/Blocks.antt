-- ===== src/Buffer/Blocks.antt =====
-- What the allocation functions install and what they give back.
use ska_mpi.Prelude.{ℕ, ◌+◌, ◌*◌, ◌≤◌, ◌<◌, ◌≡◌, ◌≢◌, ◌∣◌, ◌↔◌, arith, ap, ◌∙◌, some, List, [], ◌∷◌}
use ska_mpi.Prelude.Int.{ℤ, pos, negsuc}
use ska_mpi.Arith.{lcm}
use ska_mpi.Arith.Gcd.{lcm_least}
use ska_mpi.Align.{align_ptr}
use ska_mpi.Buffer.{Buffer, null}
use ska_mpi.Buffer.Alloc.{
  int_max, Release, free, set_skampi_buffer, set_skampi_buffer_mpi_alloc_mem, realign,
  set_send_buffer_alignment, at_least_one,
}

-- A fresh buffer of `size` bytes in the block at `p`.
pub record IsFresh (p size : ℕ) (b : Buffer) : Type 0 where
  pub block : b.real_skampi_buffer ≡ p
  pub live : p ≢ null
  pub aligned : b.skampi_buffer ≡ align_ptr p b.skampi_buffer_alignment
  pub start : b.fresh_ptr ≡ b.skampi_buffer
  pub room : b.skampi_real_buffer_size ≡ size + 8 * b.skampi_buffer_alignment
  pub in_range : b.skampi_real_buffer_size ≤ int_max
  pub stated : b.skampi_buffer_size ≡ size

-- The alignment of the whole buffer is the least common multiple of the other two: its multiples are
-- the common multiples of both.
abbrev pub IsCommon : Buffer → Type 0
IsCommon b =
    (d : ℕ)
    → (b.skampi_buffer_alignment ∣ d)
      ↔ ((b.send_buffer_alignment ∣ d) × (b.recv_buffer_alignment ∣ d))

at_least_one-pos : (a : ℤ) → 0 < at_least_one a
unfolding at_least_one
at_least_one-pos (pos n) = ground arith
at_least_one-pos (negsuc n) = omega arith

module _ (malloc : ℕ → ℕ) where
  -- Whenever `set_skampi_buffer` succeeds, the buffer is a fresh one in a new block, freed by `free`.
  pub set_skampi_buffer-IsFresh :
      (size : ℕ) (b : Buffer) {b' : Buffer} {released : List Release}
      → set_skampi_buffer malloc size b ≡ some (b', released)
      → IsFresh (malloc (size + 8 * b.skampi_buffer_alignment)) size b'
        × (b'.allocation_method ≡ 0)
        × (b'.skampi_buffer_alignment ≡ b.skampi_buffer_alignment)
  unfolding set_skampi_buffer
  set_skampi_buffer-IsFresh size b h = ground arith

  -- What a buffer from `malloc` gives back.
  released_by :
      (size : ℕ) (b : Buffer) {b' : Buffer} {released : List Release}
      → set_skampi_buffer malloc size b ≡ some (b', released)
      → b.skampi_buffer ≢ null
      → b.allocation_method ≡ 0
      → released ≡ free b.real_skampi_buffer ∷ []
  unfolding set_skampi_buffer
  released_by size b h live method = ground arith

  released_by_mpi :
      (size : ℕ) (b : Buffer) {b' : Buffer} {released : List Release}
      → set_skampi_buffer_mpi_alloc_mem malloc size b ≡ some (b', released)
      → b.skampi_buffer ≢ null
      → b.allocation_method ≡ 0
      → released ≡ free b.skampi_buffer ∷ []
  unfolding set_skampi_buffer_mpi_alloc_mem
  released_by_mpi size b h live method = ground arith

  fresh-live : {p size : ℕ} {b : Buffer} → IsFresh p size b → b.skampi_buffer ≢ null
  unfolding align_ptr
  fresh-live f = omega (arith, f.aligned, f.live)

  -- After a buffer of `size` bytes was set, setting another one with `set_skampi_buffer` frees
  -- exactly the block that `malloc` returned; setting one with `set_skampi_buffer_mpi_alloc_mem`
  -- frees the aligned pointer into that block instead. All three calls are assumed to succeed.
  pub second_release :
      (size again : ℕ) (b : Buffer) {b' c d : Buffer} {released by_malloc by_mpi : List Release}
      → set_skampi_buffer malloc size b ≡ some (b', released)
      → set_skampi_buffer malloc again b' ≡ some (c, by_malloc)
      → set_skampi_buffer_mpi_alloc_mem malloc again b' ≡ some (d, by_mpi)
      → let p = malloc (size + 8 * b.skampi_buffer_alignment) in
        (by_malloc ≡ free p ∷ []) × (by_mpi ≡ free (align_ptr p b.skampi_buffer_alignment) ∷ [])
  second_release size again b {b'} h k l =
      let (f, method, same) = set_skampi_buffer-IsFresh size b h in
      (
        released_by again b' k (fresh-live f) method ∙ ap (λ q. free q ∷ []) f.block,
        released_by_mpi again b' l (fresh-live f) method
            ∙ ap (λ q. free q ∷ []) (f.aligned ∙ ap (align_ptr _) same),
      )

  realign-lcm :
      (b : Buffer) {b' : Buffer} {released : List Release}
      → realign malloc b ≡ some (b', released)
      → (b'.skampi_buffer_alignment ≡ lcm b.send_buffer_alignment b.recv_buffer_alignment)
        × (b'.send_buffer_alignment ≡ b.send_buffer_alignment)
        × (b'.recv_buffer_alignment ≡ b.recv_buffer_alignment)
  unfolding realign
  realign-lcm b k = ground arith

  -- For a positive alignment of the receive buffer: whenever `set_send_buffer_alignment` succeeds, with
  -- whatever number, the alignment of the whole buffer is the least common multiple of the alignments of its
  -- parts, in the sense that its multiples are their common multiples. The alignment of the send buffer is
  -- positive, the given number or 1, and that of the receive buffer stays.
  pub set_send_buffer_alignment-IsCommon :
      (a : ℤ) (b : Buffer) {b' : Buffer} {released : List Release}
      → 0 < b.recv_buffer_alignment
      → set_send_buffer_alignment malloc a b ≡ some (b', released)
      → IsCommon b'
        × (0 < b'.send_buffer_alignment)
        × (b'.send_buffer_alignment ≡ at_least_one a)
        × (b'.recv_buffer_alignment ≡ b.recv_buffer_alignment)
  unfolding set_send_buffer_alignment
  set_send_buffer_alignment-IsCommon a b h k =
      let n = at_least_one a in
      let (whole, send, recv) = realign-lcm (record b { send_buffer_alignment = n }) k in
      (
        rw (whole, send, recv) (lcm_least n b.recv_buffer_alignment (at_least_one-pos a) h),
        omega (arith, at_least_one-pos a),
        send,
        recv,
      )
