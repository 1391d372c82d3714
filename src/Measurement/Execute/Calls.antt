-- ===== src/Measurement/Execute/Calls.antt =====
-- Calls of the measured function, each with new buffers.
use ska_mpi.Prelude.{
  ℕ, zero, suc, ◌+◌, ◌≤◌, ◌<◌, ◌≡◌, refl, sym, subst, ap, false, List, [], ◌∷◌, if_elim, arith, ltb,
}
use ska_mpi.Arith.{imax2, imin2}
use ska_mpi.Align.{align_ptr}
use ska_mpi.Align.Least.{IsAligned}
use ska_mpi.Buffer.{Buffer, limit, init_buffer, recycle, place, check_buffer, is_buffer_too_small}
use ska_mpi.Buffer.Placement.{IsReady, IsPlaced, check_buffer-IsPlaced}
use ska_mpi.Measurement.Batch.{hard_limit, start_batch}
use ska_mpi.Measurement.Execute.{
  Event, called, Process, Measured, Broadcast, Setting, call_once, calls, one_batch, follow,
  batches,
}

-- What `check_buffer` leaves as it is.
record SameFrame (b b' : Buffer) : Type 0 where
  base : b'.skampi_buffer ≡ b.skampi_buffer
  size : b'.skampi_real_buffer_size ≡ b.skampi_real_buffer_size
  send_usage : b'.send_buffer_usage ≡ b.send_buffer_usage
  recv_usage : b'.recv_buffer_usage ≡ b.recv_buffer_usage
  send_alignment : b'.send_buffer_alignment ≡ b.send_buffer_alignment
  recv_alignment : b'.recv_buffer_alignment ≡ b.recv_buffer_alignment

place-SameFrame : (b : Buffer) → SameFrame b (place b)
unfolding place
place-SameFrame b =
    if_elim (SameFrame b) b.buffer_cycling
      (λ _. record {
        base = refl;
        size = refl;
        send_usage = refl;
        recv_usage = refl;
        send_alignment = refl;
        recv_alignment = refl;
      })
      (λ _. record {
        base = refl;
        size = refl;
        send_usage = refl;
        recv_usage = refl;
        send_alignment = refl;
        recv_alignment = refl;
      })

restart-SameFrame : (b : Buffer) → SameFrame b (place (init_buffer b))
unfolding init_buffer
restart-SameFrame b =
    let s = place-SameFrame (init_buffer b) in
    record {
      base = s.base;
      size = s.size;
      send_usage = s.send_usage;
      recv_usage = s.recv_usage;
      send_alignment = s.send_alignment;
      recv_alignment = s.recv_alignment;
    }

check_buffer-SameFrame : (b : Buffer) → SameFrame b (check_buffer b)
unfolding check_buffer recycle
check_buffer-SameFrame b =
    let P = λ (c : Buffer). SameFrame b (place c) in
    let s = align_ptr b.fresh_ptr b.send_buffer_alignment in
    let r = align_ptr (s + b.send_buffer_usage) b.recv_buffer_alignment in
    if_elim P (ltb (limit b) (b.fresh_ptr + b.send_buffer_alignment)) (λ _. restart-SameFrame b)
      λ _.
        if_elim P (ltb (limit b) (s + b.send_buffer_usage + b.recv_buffer_alignment))
          (λ _. restart-SameFrame b)
          λ _.
            if_elim P (ltb (limit b) (r + b.recv_buffer_usage)) (λ _. restart-SameFrame b)
              (λ _. place-SameFrame b)

-- The placement, as the placed state itself tells it.
IsPlaced-self : (b b' : Buffer) → SameFrame b b' → IsPlaced b b' → IsPlaced b' b'
IsPlaced-self b b' s p =
    let e₁ = s.base in
    let e₂ = s.size in
    let e₃ = s.send_usage in
    let e₄ = s.recv_usage in
    record {
      send_in = omega (arith, p.send_in);
      apart = omega (arith, p.apart);
      recv_in = omega (arith, p.recv_in);
      send_aligned = λ h.
          subst (IsAligned b'.send_buffer) (sym s.send_alignment) (p.send_aligned (omega arith));
      recv_aligned = λ h.
          subst (IsAligned b'.recv_buffer) (sym s.recv_alignment) (p.recv_aligned (omega arith));
      send_unsliced = p.send_unsliced;
      recv_unsliced = p.recv_unsliced;
      ready = p.ready;
      still_big = p.still_big;
    }

-- The buffers at all calls are placed.
abbrev pub AllPlaced : List Event → Type 0
AllPlaced [] = Unit
AllPlaced (called b ∷ es) = IsPlaced b b × AllPlaced es
AllPlaced (_ ∷ es) = AllPlaced es

abbrev pub calls_in : List Event → ℕ
calls_in [] = 0
calls_in (called b ∷ es) = suc (calls_in es)
calls_in (_ ∷ es) = calls_in es

-- A state in which the function can be called, and the calls so far.
pub record CanCall (n : ℕ) (p : Process) : Type 0 where
  pub ready : IsReady p.buffer
  pub big : is_buffer_too_small p.buffer ≡ false
  pub placed : AllPlaced p.events
  pub counted : calls_in p.events ≡ n

module _ (c : Setting) (t : Measured) where
  call_once-CanCall :
      (counter n : ℕ) (p : Process) → CanCall n p → CanCall (suc n) (call_once c t counter p)
  unfolding call_once is_buffer_too_small
  call_once-CanCall counter n p v =
      let b = check_buffer p.buffer in
      let w = check_buffer-IsPlaced p.buffer v.ready v.big in
      let r = w.ready in
      record {
        ready = record {
          send_positive = r.send_positive;
          recv_positive = r.recv_positive;
          fresh_in = r.fresh_in;
        };
        big = w.still_big;
        placed = (IsPlaced-self p.buffer b (check_buffer-SameFrame p.buffer) w, v.placed);
        counted = ap suc v.counted;
      }

  calls-CanCall :
      (counter rest n : ℕ) (p : Process)
      → CanCall n p
      → CanCall (rest + n) (calls c t counter rest p)
  unfolding calls
  calls-CanCall counter zero n p v = let e : 0 + n ≡ n = omega arith in rw e v
  calls-CanCall counter (suc rest) n p v =
      let e : suc rest + n ≡ rest + suc n = omega arith in
      rw e (calls-CanCall (suc counter) rest (suc n) _ (call_once-CanCall counter n p v))

  abbrev size_of : Process → ℕ
  size_of p = (start_batch (hard_limit c.max_repetitions) p.result_index p.batch).max_counter

  one_batch-CanCall :
      (n : ℕ) (p : Process) → CanCall n p → CanCall (size_of p + n) (one_batch c t p)
  unfolding one_batch
  one_batch-CanCall n p v =
      calls-CanCall 0 (size_of p) n _
        (record { ready = v.ready; big = v.big; placed = v.placed; counted = v.counted })

  -- There are the calls of the first batch at least.
  batches-CanCall :
      (bs : List Broadcast) (n : ℕ) (p : Process)
      → CanCall n p
      → (m : ℕ) × (CanCall m (batches c t bs p) × (size_of p + n ≤ m))
  unfolding batches
  batches-CanCall [] n p v = (size_of p + n, (one_batch-CanCall n p v, omega arith))
  batches-CanCall (b ∷ bs) n p v =
      let w = one_batch-CanCall n p v in
      let (m, (u, l)) =
        batches-CanCall bs (size_of p + n) (follow c t b (one_batch c t p))
          (record { ready = w.ready; big = w.big; placed = w.placed; counted = w.counted }) in
      (m, (u, omega arith))

  -- The batches have a call.
  pub batches-start :
      (bs : List Broadcast) (n : ℕ) (p : Process)
      → CanCall n p
      → 0 < p.batch.max_counter
      → let q = record p { result_index = 0; buffer = init_buffer p.buffer } in
        (m : ℕ) × (CanCall m (batches c t bs q) × (n < m))
  unfolding init_buffer start_batch is_buffer_too_small hard_limit imax2 imin2
  batches-start bs n p v h =
      let (m, (u, l)) =
        batches-CanCall bs n (record p { result_index = 0; buffer = init_buffer p.buffer })
          (record {
            ready =
                let r = v.ready in
                record {
                  send_positive = r.send_positive;
                  recv_positive = r.recv_positive;
                  fresh_in = omega arith;
                };
            big = v.big;
            placed = v.placed;
            counted = v.counted;
          }) in
      (m, (u, ground arith))
