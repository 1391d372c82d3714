-- ===== src/Buffer/Placement.antt =====
-- `check_buffer` hands out two aligned, disjoint buffers below the limit it checks against.
use ska_mpi.Prelude.{ℕ, ◌+◌, ◌*◌, ◌≤◌, ◌<◌, ◌≡◌, false, arith, ltb, if_elim, ltb_false→le}
use ska_mpi.Align.{word, align_ptr}
use ska_mpi.Align.Least.{IsAligned, alignment_fix-lt, align_ptr-IsAligned}
use ska_mpi.Buffer.{Buffer, null, limit, init_buffer, place, check_buffer, is_buffer_too_small}

align_ptr_bounds : (p a : ℕ) → 0 < a → (p ≤ align_ptr p a) × (align_ptr p a < p + 2 * a)
unfolding align_ptr
align_ptr_bounds p a h = omega (arith, alignment_fix-lt p a h)

-- The two buffers fit behind `fresh_ptr`.
record Fits (b : Buffer) (top : ℕ) : Type 0 where
  from : b.skampi_buffer ≤ b.fresh_ptr
  send_aligns : b.fresh_ptr + b.send_buffer_alignment ≤ top
  recv_aligns :
      align_ptr b.fresh_ptr b.send_buffer_alignment + b.send_buffer_usage + b.recv_buffer_alignment
      ≤ top
  both :
      align_ptr
          (align_ptr b.fresh_ptr b.send_buffer_alignment + b.send_buffer_usage)
          b.recv_buffer_alignment
        + b.recv_buffer_usage
      ≤ top

-- What `check_buffer` needs of its state.
pub record IsReady (b : Buffer) : Type 0 where
  pub send_positive : 0 < b.send_buffer_alignment
  pub recv_positive : 0 < b.recv_buffer_alignment
  pub fresh_in : b.skampi_buffer ≤ b.fresh_ptr

-- What `check_buffer` gives: the two buffers lie in order between the start of the communication
-- buffer and the limit, and its state is ready for the next call.
pub record IsPlaced (b b' : Buffer) : Type 0 where
  pub send_in : b.skampi_buffer ≤ b'.send_buffer
  pub apart : b'.send_buffer + b.send_buffer_usage ≤ b'.recv_buffer
  pub recv_in : b'.recv_buffer + b.recv_buffer_usage ≤ limit b
  pub send_aligned : limit b ≤ word → IsAligned b'.send_buffer b.send_buffer_alignment
  pub recv_aligned : limit b ≤ word → IsAligned b'.recv_buffer b.recv_buffer_alignment
  pub send_unsliced : b'.send_buffer_slice ≡ null
  pub recv_unsliced : b'.recv_buffer_slice ≡ null
  pub ready : IsReady b'
  pub still_big : is_buffer_too_small b' ≡ false

module _ (b : Buffer) (v : IsReady b) (big : is_buffer_too_small b ≡ false) where
  -- The placement starts at `f`.
  place-IsPlaced :
      (f : ℕ)
      → Fits (record b { fresh_ptr = f }) (limit b)
      → IsPlaced b (place (record b { fresh_ptr = f }))
  unfolding place is_buffer_too_small
  place-IsPlaced f w =
      let s = align_ptr f b.send_buffer_alignment in
      let send = align_ptr_bounds f b.send_buffer_alignment v.send_positive in
      let recv =
        align_ptr_bounds (s + b.send_buffer_usage) b.recv_buffer_alignment v.recv_positive in
      record {
        send_in = ground (arith, send);
        apart = ground (arith, recv);
        recv_in = ground arith;
        send_aligned = λ h.
            ground
              (arith, align_ptr-IsAligned f b.send_buffer_alignment v.send_positive (omega arith));
        recv_aligned = λ h. ground (
          arith,
          align_ptr-IsAligned (s + b.send_buffer_usage) b.recv_buffer_alignment v.recv_positive
              (omega arith),
        );
        send_unsliced = ground arith;
        recv_unsliced = ground arith;
        ready = ground (arith, send, recv);
        still_big = ground arith;
      }

  room :
      b.send_buffer_usage
        + 2 * b.send_buffer_alignment
        + b.recv_buffer_usage
        + 2 * b.recv_buffer_alignment
      ≤ b.skampi_real_buffer_size
  unfolding is_buffer_too_small
  room = ground arith

  restart-IsPlaced : IsPlaced b (place (init_buffer b))
  unfolding init_buffer
  restart-IsPlaced =
      let s = align_ptr b.skampi_buffer b.send_buffer_alignment in
      place-IsPlaced b.skampi_buffer (
        omega (
          arith,
          room,
          align_ptr_bounds b.skampi_buffer b.send_buffer_alignment v.send_positive,
          align_ptr_bounds (s + b.send_buffer_usage) b.recv_buffer_alignment v.recv_positive,
        ))

  -- For every state with positive alignments that is large enough for both buffers, `check_buffer`
  -- places the send buffer and, behind it, the receive buffer between the start of the communication
  -- buffer and its limit, both aligned if the limit is an address; it forgets the slices, and leaves
  -- a state that is again ready and large enough.
  pub check_buffer-IsPlaced : IsPlaced b (check_buffer b)
  unfolding check_buffer
  check_buffer-IsPlaced =
      let P = λ (c : Buffer). IsPlaced b (place c) in
      let s = align_ptr b.fresh_ptr b.send_buffer_alignment in
      let r = align_ptr (s + b.send_buffer_usage) b.recv_buffer_alignment in
      if_elim P (ltb (limit b) (b.fresh_ptr + b.send_buffer_alignment)) (λ _. restart-IsPlaced)
        λ sends.
          if_elim P (ltb (limit b) (s + b.send_buffer_usage + b.recv_buffer_alignment))
            (λ _. restart-IsPlaced)
            λ recvs.
              if_elim P (ltb (limit b) (r + b.recv_buffer_usage)) (λ _. restart-IsPlaced)
                λ ends. place-IsPlaced b.fresh_ptr (record {
                  from = v.fresh_in;
                  send_aligns = ltb_false→le _ _ sends;
                  recv_aligns = ltb_false→le _ _ recvs;
                  both = ltb_false→le _ _ ends;
                })
