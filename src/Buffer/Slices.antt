-- ===== src/Buffer/Slices.antt =====
-- The slices of a buffer of the minimum size: exactly as many as asked for.
use native.Mathlib.Nat.{mod-add-mod, mod-lt, add_assoc, mod_self, mod-eq_of_lt}
use ska_mpi.Prelude.{
  ℕ, zero, suc, ◌+◌, ◌-◌, ◌*◌, ◌%◌, ◌≤◌, ◌<◌, ◌≡◌, ◌≢◌, ◌∙◌, refl, ap, sym, subst, arith, Option,
  none, some, List, [], ◌∷◌, ◌++◌, false, leb, ◌==◌,
}
use ska_mpi.Align.{word, alignment_fix, align_ptr}
use ska_mpi.Align.Least.{mul_le, IsAligned, mod_half, align_ptr-IsAligned}
use ska_mpi.Buffer.{Buffer, null}
use ska_mpi.Buffer.Slice.{
  next_slice, slice_fix, get_send_buffer_slice, get_recv_buffer_slice, get_send_buffer_min_size,
  get_recv_buffer_min_size,
}

zero_add : (n : ℕ) → 0 + n ≡ n
zero_add n = omega arith

-- From an aligned slice to the next one it is the slice's size and what `slice_fix` says.
alignment_fix-slice :
    (s a n : ℕ) → 0 < a → IsAligned s a → s + n + a ≤ word → alignment_fix (s + n) a ≡ slice_fix a n
unfolding alignment_fix slice_fix
alignment_fix-slice s a n h al fits =
    let nz : (a == 0) ≡ false = ground arith in
    let s0 : s % a ≡ 0 = mod_half s a ∙ ap (λ r. r % a) al ∙ mod_self a in
    let e : (s + n) % a ≡ n % a =
      sym (mod-add-mod s a n) ∙ ap (λ r. (r + n) % a) s0 ∙ ap (λ r. r % a) (zero_add n) in
    let f : ℕ = (a - n % a) % a in
    let small : f < a = mod-lt (a - n % a) h in
    let e' : (s + n + f) % word % (2 * a) ≡ (a + n + f) % (2 * a) =
      rw
        (
          mod-eq_of_lt {n = s + n + f} {m = word} (omega arith),
          add_assoc s n f,
          ← mod-add-mod s (2 * a) (n + f),
          al,
          add_assoc a n f,
        )
        refl in
    rw (nz, e, e')

-- The addresses of `k` slices from the one with index `i` on, `d` bytes apart.
unfoldable pub positions : (buffer d i k : ℕ) → List ℕ
positions buffer d i zero = []
positions buffer d i (suc k) = (buffer + d * i) ∷ positions buffer d (i + 1) k

-- What `k` requests in a row give, from the slice that the last one gave.
unfoldable pub slices_from : (buffer usage alignment slice_usage slice : ℕ) → ℕ → List ℕ
slices_from buffer usage alignment slice_usage slice zero = []
slices_from buffer usage alignment slice_usage slice (suc k) =
    let s = next_slice buffer usage alignment slice slice_usage in
    s ∷ slices_from buffer usage alignment slice_usage s k

module _ (buffer usage a slice n t : ℕ) (h : slice ≢ null) (e : align_ptr (slice + n) a ≡ t) where
  next_slice-fits : t + n ≤ usage + buffer → next_slice buffer usage a slice n ≡ t
  unfolding next_slice
  next_slice-fits k = ground arith

  next_slice-over : usage + buffer < t + n → next_slice buffer usage a slice n ≡ null
  unfolding next_slice
  next_slice-over k = ground arith

next_slice-first : (buffer usage a n : ℕ) → n ≤ usage → next_slice buffer usage a null n ≡ buffer
unfolding next_slice
next_slice-first buffer usage a n h = ground arith

next_slice-none : (buffer usage a n : ℕ) → usage < n → next_slice buffer usage a null n ≡ null
unfolding next_slice
next_slice-none buffer usage a n h = ground arith

module _ (buffer a n count : ℕ) (ha : 0 < a) (hn : 0 < n) (hb : buffer ≢ null)
    (fits : buffer + (n + slice_fix a n) * count + a ≤ word) where
  d : ℕ
  d = n + slice_fix a n

  n-le-d : n ≤ d
  unfolding d
  n-le-d = omega arith

  -- the step from slice `i` to slice `i + 1`
  step-IsAligned :
      (i : ℕ)
      → i < count
      → IsAligned (buffer + d * i) a
      → (align_ptr (buffer + d * i + n) a ≡ buffer + d * (i + 1))
        × IsAligned (buffer + d * (i + 1)) a
  unfolding align_ptr d
  step-IsAligned i h al =
      let p = buffer + d * i in
      let inside : p + n + a ≤ word = omega (arith, mul_le d (i + 1) count (omega arith)) in
      let e : align_ptr (p + n) a ≡ buffer + d * (i + 1) =
        omega (arith, alignment_fix-slice p a n ha al inside) in
      (e, subst (λ q. IsAligned q a) e (align_ptr-IsAligned (p + n) a ha inside))

  rest :
      (k i : ℕ)
      → i + suc k ≡ count
      → IsAligned (buffer + d * i) a
      → slices_from buffer (d * count) a n (buffer + d * i) (suc k)
        ≡ positions buffer d (i + 1) k ++ null ∷ []
  unfolding slices_from positions
  rest zero i e al =
      let (next, al') = step-IsAligned i (omega arith) al in
      let e' : i + 1 ≡ count = omega arith in
      rw (
        next_slice-over buffer (d * count) a (buffer + d * i) n _ (omega arith) next
          (rw (← e') (omega arith)))
  rest (suc k) i e al =
      let (next, al') = step-IsAligned i (omega arith) al in
      rw
        (next_slice-fits buffer (d * count) a (buffer + d * i) n _ (omega arith) next
          (omega (arith, n-le-d, mul_le d (i + 2) count (omega arith))))
        (ap (λ l. (buffer + d * (i + 1)) ∷ l) (rest k (i + 1) (omega arith) al'))

-- From no slice on.
all_slices :
    (buffer a n count : ℕ)
    → 0 < a
    → 0 < n
    → buffer ≢ null
    → buffer + (n + slice_fix a n) * count + a ≤ word
    → IsAligned buffer a
    → slices_from buffer ((n + slice_fix a n) * count) a n null (suc count)
      ≡ positions buffer (n + slice_fix a n) 0 count ++ null ∷ []
unfolding slices_from positions d
all_slices buffer a n zero ha hn hb fits al =
    rw (next_slice-none buffer ((n + slice_fix a n) * 0) a n (omega arith))
all_slices buffer a n (suc k) ha hn hb fits al =
    let u = (n + slice_fix a n) * suc k in
    let first : n ≤ u = omega (arith, mul_le (n + slice_fix a n) 1 (suc k) (omega arith)) in
    let at : buffer + (n + slice_fix a n) * 0 ≡ buffer = omega arith in
    rw (next_slice-first buffer u a n first, at)
      (ap (λ l. buffer ∷ l)
        (rw at at (rest buffer a n (suc k) ha hn hb fits k 0 (omega arith) (rw at al))))

abbrev pub cons_some : ℕ → Option (List ℕ) → Option (List ℕ)
cons_some p none = none
cons_some p (some ps) = some (p ∷ ps)

-- What `k` calls of `get_send_buffer_slice` in a row return.
unfoldable pub send_slices : ℕ → Buffer → Option (List ℕ)
send_slices zero b = some []
send_slices (suc k) b = elim (get_send_buffer_slice b) [
  | none ↦ none
  | some (p, b') ↦ cons_some p (send_slices k b')
]

send_slice-some :
    (b : Buffer)
    → 0 < b.send_buffer_slice_usage
    → let slice =
        next_slice b.send_buffer b.send_buffer_usage b.send_buffer_alignment b.send_buffer_slice
          b.send_buffer_slice_usage in
      get_send_buffer_slice b ≡ some (slice, record b { send_buffer_slice = slice })
unfolding get_send_buffer_slice
send_slice-some b h = let t : leb b.send_buffer_slice_usage 0 ≡ false = ground arith in rw t

send_slices-eq :
    (k : ℕ) (b : Buffer)
    → 0 < b.send_buffer_slice_usage
    → send_slices k b
      ≡ some (
          slices_from b.send_buffer b.send_buffer_usage b.send_buffer_alignment
            b.send_buffer_slice_usage b.send_buffer_slice k)
unfolding send_slices slices_from
send_slices-eq zero b h = refl
send_slices-eq (suc k) b h =
    let slice =
      next_slice b.send_buffer b.send_buffer_usage b.send_buffer_alignment b.send_buffer_slice
        b.send_buffer_slice_usage in
    rw (send_slice-some b h, send_slices)
      (ap (cons_some slice) (send_slices-eq k (record b { send_buffer_slice = slice }) h))

-- For an aligned send buffer of the size that `get_send_buffer_min_size` gives for `count` slices,
-- no slice taken yet and all addresses inside the address space, the next calls of
-- `get_send_buffer_slice` return `count` slices one behind the other, then NULL.
pub send_slices_exact :
    (b : Buffer) (count : ℕ)
    → 0 < b.send_buffer_alignment
    → 0 < b.send_buffer_slice_usage
    → b.send_buffer ≢ null
    → b.send_buffer_slice ≡ null
    → b.send_buffer_usage ≡ get_send_buffer_min_size b b.send_buffer_slice_usage count
    → b.send_buffer + b.send_buffer_usage + b.send_buffer_alignment ≤ word
    → IsAligned b.send_buffer b.send_buffer_alignment
    → send_slices (suc count) b
      ≡ some (
          positions b.send_buffer
            (b.send_buffer_slice_usage
              + slice_fix b.send_buffer_alignment b.send_buffer_slice_usage)
            0
            count
          ++ null ∷ [])
unfolding get_send_buffer_min_size
send_slices_exact b count ha hn hb hs hu fits al =
    rw (send_slices-eq (suc count) b hn, hs, hu)
      (ap some (
        all_slices b.send_buffer b.send_buffer_alignment b.send_buffer_slice_usage count ha hn hb
          (rw hu at fits) al))

-- What `k` calls of `get_recv_buffer_slice` in a row return.
unfoldable pub recv_slices : ℕ → Buffer → Option (List ℕ)
recv_slices zero b = some []
recv_slices (suc k) b = elim (get_recv_buffer_slice b) [
  | none ↦ none
  | some (p, b') ↦ cons_some p (recv_slices k b')
]

recv_slice-some :
    (b : Buffer)
    → 0 < b.recv_buffer_slice_usage
    → let slice =
        next_slice b.recv_buffer b.recv_buffer_usage b.recv_buffer_alignment b.recv_buffer_slice
          b.recv_buffer_slice_usage in
      get_recv_buffer_slice b ≡ some (slice, record b { recv_buffer_slice = slice })
unfolding get_recv_buffer_slice
recv_slice-some b h = let t : leb b.recv_buffer_slice_usage 0 ≡ false = ground arith in rw t

recv_slices-eq :
    (k : ℕ) (b : Buffer)
    → 0 < b.recv_buffer_slice_usage
    → recv_slices k b
      ≡ some (
          slices_from b.recv_buffer b.recv_buffer_usage b.recv_buffer_alignment
            b.recv_buffer_slice_usage b.recv_buffer_slice k)
unfolding recv_slices slices_from
recv_slices-eq zero b h = refl
recv_slices-eq (suc k) b h =
    let slice =
      next_slice b.recv_buffer b.recv_buffer_usage b.recv_buffer_alignment b.recv_buffer_slice
        b.recv_buffer_slice_usage in
    rw (recv_slice-some b h, recv_slices)
      (ap (cons_some slice) (recv_slices-eq k (record b { recv_buffer_slice = slice }) h))

-- For an aligned receive buffer of the size that `get_recv_buffer_min_size` gives for `count` slices,
-- no slice taken yet and all addresses inside the address space, the next calls of
-- `get_recv_buffer_slice` return `count` slices one behind the other, then NULL.
pub recv_slices_exact :
    (b : Buffer) (count : ℕ)
    → 0 < b.recv_buffer_alignment
    → 0 < b.recv_buffer_slice_usage
    → b.recv_buffer ≢ null
    → b.recv_buffer_slice ≡ null
    → b.recv_buffer_usage ≡ get_recv_buffer_min_size b b.recv_buffer_slice_usage count
    → b.recv_buffer + b.recv_buffer_usage + b.recv_buffer_alignment ≤ word
    → IsAligned b.recv_buffer b.recv_buffer_alignment
    → recv_slices (suc count) b
      ≡ some (
          positions b.recv_buffer
            (b.recv_buffer_slice_usage
              + slice_fix b.recv_buffer_alignment b.recv_buffer_slice_usage)
            0
            count
          ++ null ∷ [])
unfolding get_recv_buffer_min_size
recv_slices_exact b count ha hn hb hs hu fits al =
    rw (recv_slices-eq (suc count) b hn, hs, hu)
      (ap some (
        all_slices b.recv_buffer b.recv_buffer_alignment b.recv_buffer_slice_usage count ha hn hb
          (rw hu at fits) al))
