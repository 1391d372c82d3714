-- ===== src/Coll/Gather/Places.antt =====
-- Where the receives write.
use ska_mpi.Prelude.{
  ℕ, zero, suc, ◌+◌, ◌*◌, ◌≤◌, ◌<◌, ◌≡◌, refl, ap, subst, if_elim, dec_lt, Bool-cases, inl, inr,
  true, false, arith, some, List, [], ◌∷◌, map, ◌==◌, if◌then◌else◌,
}
use native.Mathlib.Nat.{mul-le-mul_right}
use ska_mpi.Buffer.{
  limit, check_buffer, is_buffer_too_small, set_send_buffer_usage, set_recv_buffer_usage,
}
use ska_mpi.Buffer.Slice.{set_send_buffer_slice_usage, set_recv_buffer_slice_usage}
use ska_mpi.Buffer.Placement.{IsReady, check_buffer-IsPlaced}
use ska_mpi.Measurement.Execute.{
  Process, Setting, Measured, Request, send_buffer_usage, recv_buffer_usage, reported_message_size,
  synchronization, prepare, forget_usages, request, requests, init_synchronization,
}
use ska_mpi.Coll.{get_extent}
use ska_mpi.Coll.Gather.{Receive, init_Gather_using_Send_Recv, gather_receives, alltoall_receives}

-- The receives write one behind the other, from `from` on and not beyond `top`.
abbrev pub Behind : (from top : ℕ) → List Receive → Type 0
Behind from top [] = Unit
Behind from top (r ∷ rs) =
    (from ≤ r.address) × ((r.address + r.bytes ≤ top) × Behind (r.address + r.bytes) top rs)

-- Without the root
abbrev pub others : (root left i : ℕ) → List ℕ
others root zero i = []
others root (suc left) i =
    if i == root then others root left (i + 1) else i ∷ others root left (i + 1)

Behind-earlier :
    (from' from top : ℕ) (rs : List Receive)
    → from' ≤ from
    → Behind from top rs
    → Behind from' top rs
Behind-earlier from' from top [] l h = tt
Behind-earlier from' from top (r ∷ rs) l (a, h) = (omega arith, h)

next_place : (i c e : ℕ) → i * c * e + c * e ≡ (i + 1) * c * e
next_place i c e = grind arith

gather_receives-Behind :
    (root c e buffer top left i : ℕ)
    → buffer + (i + left) * c * e ≤ top
    → Behind (buffer + i * c * e) top (gather_receives root c e buffer left i)
unfolding gather_receives
gather_receives-Behind root c e buffer top zero i h = tt
gather_receives-Behind root c e buffer top (suc left) i h =
    let same : (i + suc left) * c * e ≡ (i + 1 + left) * c * e =
      ap (λ n. n * c * e) (omega arith) in
    let rest = gather_receives-Behind root c e buffer top left (i + 1) (omega arith) in
    let step = next_place i c e in
    let below =
      mul-le-mul_right {m = (i + 1) * c} {n = (i + suc left) * c} e
        (mul-le-mul_right {m = i + 1} {n = i + suc left} c (omega arith)) in
    if_elim (Behind (buffer + i * c * e) top) (i == root)
      (λ _. Behind-earlier _ (buffer + (i + 1) * c * e) top _ (omega arith) rest)
      (λ _. (omega arith, (omega arith, Behind-earlier _ _ top _ (omega arith) rest)))

gather_receives-others :
    (root c e buffer left i : ℕ)
    → map Receive.source (gather_receives root c e buffer left i) ≡ others root left i
unfolding gather_receives
gather_receives-others root c e buffer zero i = refl
gather_receives-others root c e buffer (suc left) i = elim (Bool-cases (i == root)) [
  | inl e' ↦ rw e' (gather_receives-others root c e buffer left (i + 1))
  | inr e' ↦ rw e' (ap (λ l. i ∷ l) (gather_receives-others root c e buffer left (i + 1)))
]

-- With at least two processes and a positive extent, the receives of measure_Alltoall_using_Isend_Irecv lie
-- one behind the other only where each process sends at most one element: else they overlap.
pub alltoall_receives-Behind :
    (recv_count recv_dt_extent buffer top size : ℕ)
    → 2 ≤ size
    → 0 < recv_dt_extent
    → Behind buffer top (alltoall_receives recv_count recv_dt_extent buffer size 0)
    → recv_count ≤ 1
unfolding alltoall_receives
alltoall_receives-Behind c e buffer top zero l h b = absurd (omega arith)
alltoall_receives-Behind c e buffer top (suc zero) l h b = absurd (omega arith)
alltoall_receives-Behind c e buffer top (suc (suc left)) l h (_, (_, (b, _))) = elim (dec_lt c 2) [
  | yes k ↦ omega arith
  | no n ↦ let twice = mul-le-mul_right {m = 2} {n = c} e (omega arith) in absurd (omega arith)
]

module _ (c : Setting) (t : Measured)
    (size root send_count send_extent recv_count recv_extent : ℕ) where
  -- The root, with the buffers of its next call.
  abbrev pub gathered : Measured
  gathered = record t {
    init_fp =
        some (
          init_Gather_using_Send_Recv size root send_count send_extent recv_count recv_extent root);
  }

  -- Its requests.
  abbrev asked : List Request
  asked =
      send_buffer_usage (get_extent send_count send_extent)
      ∷ reported_message_size (get_extent send_count send_extent)
      ∷ recv_buffer_usage (size * get_extent recv_count recv_extent)
      ∷ synchronization
      ∷ []

  init-root :
      asked
      ≡ init_Gather_using_Send_Recv size root send_count send_extent recv_count recv_extent root
  unfolding init_Gather_using_Send_Recv
  init-root = let same : (root == root) ≡ true = ground arith in rw same refl

  abbrev IsFit : Process → List Request → Type 0
  IsFit p rs =
      let q = prepare c (record t { init_fp = some rs }) p in
      is_buffer_too_small q.buffer ≡ false
      → let b = check_buffer q.buffer in
        (map Receive.source (gather_receives root recv_count recv_extent b.recv_buffer size 0)
          ≡ others root size 0)
        × Behind b.recv_buffer (limit q.buffer)
            (gather_receives root recv_count recv_extent b.recv_buffer size 0)

  asked-IsFit : (p : Process) → IsReady p.buffer → IsFit p asked
  unfolding prepare requests request init_synchronization forget_usages get_extent
      set_send_buffer_usage set_recv_buffer_usage set_send_buffer_slice_usage
      set_recv_buffer_slice_usage
  asked-IsFit p v big =
      let q = (prepare c (record t { init_fp = some asked }) p).buffer in
      let ready : IsReady q = record {
        send_positive = v.send_positive;
        recv_positive = v.recv_positive;
        fresh_in = v.fresh_in;
      } in
      let w = check_buffer-IsPlaced q ready big in
      let room = w.recv_in in
      let none_before : 0 * recv_count * recv_extent ≡ 0 = grind arith in
      let all : (0 + size) * recv_count * recv_extent ≡ size * (recv_count * recv_extent) =
        grind arith in
      (
        gather_receives-others root recv_count recv_extent _ size 0,
        Behind-earlier _ _ _ _ (omega arith) (
            gather_receives-Behind root recv_count recv_extent (check_buffer q).recv_buffer
              (limit q) size 0 (omega arith)),
      )

  -- For a buffer that is ready, and a communication buffer that is not too small for what
  -- init_Gather_using_Send_Recv asks for on the root: at a call behind it, the root receives once from each
  -- other process in the order of their ranks, and the receives write one behind the other between the start
  -- of the receive buffer and the limit that check_buffer keeps to.
  pub gather_receives-fit :
      (p : Process)
      → IsReady p.buffer
      → is_buffer_too_small (prepare c gathered p).buffer ≡ false
      → let b = check_buffer (prepare c gathered p).buffer in
        (map Receive.source (gather_receives root recv_count recv_extent b.recv_buffer size 0)
          ≡ others root size 0)
        × Behind b.recv_buffer
            (limit (prepare c gathered p).buffer)
            (gather_receives root recv_count recv_extent b.recv_buffer size 0)
  gather_receives-fit p v big = subst (IsFit p) init-root (asked-IsFit p v) big
