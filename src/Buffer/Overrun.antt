-- ===== src/Buffer/Overrun.antt =====
-- `check_buffer` measures from the aligned start of the communication buffer, which is not the start
-- of the block: what this does to the end of the receive buffer.
use native.Mathlib.Nat.{add-mul-mod_self_left}
use ska_mpi.Prelude.{ℕ, ◌+◌, ◌*◌, ◌≤◌, ◌<◌, ◌≡◌, true, false, arith, ◌∙◌, ap₂, ltb}
use ska_mpi.Align.{word, align_ptr}
use ska_mpi.Align.Least.{IsAligned, align_ptr_lem}
use ska_mpi.Buffer.{Buffer, limit, recycle, check_buffer, is_buffer_too_small}

-- A pointer that is aligned stays where it is.
align_ptr_self : (p a : ℕ) → 0 < a → p + a ≤ word → IsAligned p a → align_ptr p a ≡ p
align_ptr_self p a h fits al =
    let (_, low, least) = align_ptr_lem p a p h fits (omega arith) al in omega (arith, low, least)

-- A buffer of `3 * u` bytes in the block at `p`, the aligned start `a` bytes behind the start of the
-- block, with an empty send buffer and a receive buffer of `u` bytes, cycling, at `f`.
pub record IsCycling (p a u f : ℕ) (b : Buffer) : Type 0 where
  pub block : b.real_skampi_buffer ≡ p
  pub start : b.skampi_buffer ≡ p + a
  pub send_alignment : b.send_buffer_alignment ≡ a
  pub recv_alignment : b.recv_buffer_alignment ≡ a
  pub send_usage : b.send_buffer_usage ≡ 0
  pub recv_usage : b.recv_buffer_usage ≡ u
  pub size : b.skampi_real_buffer_size ≡ 3 * u
  pub cycling : b.buffer_cycling ≡ true
  pub fresh : b.fresh_ptr ≡ f

-- When both buffers fit, `recycle` leaves the state alone.
recycle_self :
    (b : Buffer) (s r : ℕ)
    → align_ptr b.fresh_ptr b.send_buffer_alignment ≡ s
    → align_ptr (s + b.send_buffer_usage) b.recv_buffer_alignment ≡ r
    → b.fresh_ptr + b.send_buffer_alignment ≤ limit b
    → s + b.send_buffer_usage + b.recv_buffer_alignment ≤ limit b
    → r + b.recv_buffer_usage ≤ limit b
    → recycle b ≡ b
unfolding recycle
recycle_self b s r es er h k l =
    let t : ltb (limit b) (b.fresh_ptr + b.send_buffer_alignment) ≡ false = ground arith in
    let t' : ltb (limit b) (s + b.send_buffer_usage + b.recv_buffer_alignment) ≡ false =
      ground arith in
    let t'' : ltb (limit b) (r + b.recv_buffer_usage) ≡ false = ground arith in
    rw (es, t, t', er, t'')

module _ (p a u : ℕ) (ha : 0 < a) (big : a ≤ u) where
  cycle :
      (b : Buffer) (f : ℕ)
      → IsCycling p a u f b
      → IsAligned f a
      → f + u ≤ p + a + 3 * u
      → f + a ≤ word
      → IsCycling p a u (f + u) (check_buffer b) × ((check_buffer b).recv_buffer ≡ f)
  unfolding check_buffer
  cycle b f c al inside fits =
      let same : align_ptr f a ≡ f = align_ptr_self f a ha fits al in
      let send : align_ptr b.fresh_ptr b.send_buffer_alignment ≡ f =
        ap₂ align_ptr c.fresh c.send_alignment ∙ same in
      let recv : align_ptr (f + b.send_buffer_usage) b.recv_buffer_alignment ≡ f =
        ap₂ align_ptr (omega arith) c.recv_alignment ∙ same in
      rw (recycle_self b f f send recv (omega arith) (omega arith) (omega arith))
        (ground (arith, send, recv))

  -- one more multiple of twice the alignment
  next_IsAligned : (f q : ℕ) → IsAligned f a → u ≡ 2 * a * q → IsAligned (f + u) a
  next_IsAligned f q al e = rw (e, add-mul-mod_self_left f (2 * a) q) al

  -- For a block at `p` of three times the size `u` of the receive buffer, with the communication buffer one
  -- alignment `a` behind `p` and aligned, no send buffer, both alignments `a` and positive, buffers that
  -- cycle and none of them used yet; where `u` is a multiple of twice the alignment and at least eight alignments,
  -- and two alignments behind the block are still addresses: `is_buffer_too_small` is false, and after
  -- three calls of `check_buffer` the receive buffer ends `a` bytes behind the end of the block.
  pub third_buffer_overruns :
      (q : ℕ) (b : Buffer)
      → IsCycling p a u (p + a) b
      → IsAligned (p + a) a
      → u ≡ 2 * a * q
      → 8 * a ≤ u
      → p + 3 * u + 2 * a ≤ word
      → let b' = check_buffer (check_buffer (check_buffer b)) in
        (is_buffer_too_small b ≡ false)
        × (b'.recv_buffer + b'.recv_buffer_usage
            ≡ b.real_skampi_buffer + b.skampi_real_buffer_size + a)
  unfolding is_buffer_too_small
  third_buffer_overruns q b c al e wide fits =
      let (c1, _) = cycle b (p + a) c al (omega arith) (omega arith) in
      let al1 = next_IsAligned (p + a) q al e in
      let (c2, _) = cycle _ (p + a + u) c1 al1 (omega arith) (omega arith) in
      let al2 = next_IsAligned (p + a + u) q al1 e in
      let (c3, last) = cycle _ (p + a + u + u) c2 al2 (omega arith) (omega arith) in
      (ground arith, omega (arith, c3.recv_usage))
