-- ===== src/Coll/Broadcast/Finish.antt =====
-- That a broadcast neither stops early nor delivers anything else, and how many messages it takes.
use ska_mpi.Prelude.{
  ℕ, zero, suc, ◌+◌, ◌*◌, ◌≤◌, ◌<◌, ◌≡◌, refl, sym, ap, ◌∙◌, ◌⊎◌, inl, inr, true, List, [], ◌∷◌,
  ◌==◌, ℕ_discrete, arith,
}
use ska_mpi.Coll.Broadcast.{
  PointToPoint, mpi_send, mpi_recv, parent, new_rank, Processes, Underway, begin, message,
  begin_broadcast,
}
use ska_mpi.Coll.Broadcast.Rank.{new_rank_root, new_rank_lt}
use ska_mpi.Coll.Broadcast.Tree.{
  waits, will_send, At, at_receive, at_first, at_second, at_end, Sending, sending, At-Sending,
}
use ska_mpi.Coll.Broadcast.Invariant.{Inv, waiting, Underway-Inv}

-- No process has anything left to call.
abbrev pub Finished : (size : ℕ) {A : Type 0} → Processes A → Type 0
Finished size s = (r : ℕ) → r < size → s.rest r ≡ []

-- A message can go from one process to another.
pub record Enabled {A : Type 0} (s : Processes A) : Type 0 where
  pub sender : ℕ
  pub receiver : ℕ
  pub then_sender : List PointToPoint
  pub then_receiver : List PointToPoint
  pub at_sender : s.rest sender ≡ mpi_send receiver ∷ then_sender
  pub at_receiver : s.rest receiver ≡ mpi_recv sender ∷ then_receiver

waits_only_receive :
    {size r : ℕ} {cs : List PointToPoint}
    → At size r cs
    → waits cs ≡ true
    → (qs : List PointToPoint) × (cs ≡ mpi_recv (parent r) ∷ qs)
waits_only_receive (at_receive h) w = (_, refl)
waits_only_receive (at_first _ _ _) w = absurd (ground arith)
waits_only_receive (at_second _) w = absurd (ground arith)
waits_only_receive at_end w = absurd (ground arith)

module _ (A : Type 0) (size n : ℕ) (x : A) (s : Processes A) (inv : Inv A size x n s) where
  -- Who sends, sends to a process that waits for it.
  matched :
      (p q : ℕ) (ps : List PointToPoint)
      → s.rest p ≡ mpi_send q ∷ ps
      → Sending size p q ps
      → Enabled s
  matched p q ps e (sending h l up once quiet a) =
      let w : waits (s.rest q) ≡ true =
        inv.paired q h l
        ∙ ap (λ k. will_send q (s.rest k)) up
        ∙ ap (will_send q) e
        ∙ (let f : (q == q) ≡ true = ground arith in rw f refl) in
      let (qs, er) = waits_only_receive (inv.place q) w in
      record {
        sender = p;
        receiver = q;
        then_sender = ps;
        then_receiver = qs;
        at_sender = e;
        at_receiver = er ∙ ap (λ k. mpi_recv k ∷ qs) up;
      }

  -- The first process that is not finished can send.
  at_first_left :
      (r : ℕ) {cs : List PointToPoint}
      → r < size
      → ((k : ℕ) → k < r → s.rest k ≡ [])
      → At size r cs
      → s.rest r ≡ cs
      → (s.rest r ≡ []) ⊎ Enabled s
  at_first_left r l below (at_receive h) e = absurd (
      let never = inv.paired r h l ∙ ap (will_send r) (below (parent r) (omega arith)) in
      let w = ap waits e in ground arith)
  at_first_left r l below (at_first cs m c) e =
      inr (matched r (2 * r + 1) cs e (At-Sending (at_first cs m c)))
  at_first_left r l below (at_second m) e =
      inr (matched r (2 * r + 2) [] e (At-Sending (at_second m)))
  at_first_left r l below at_end e = inl e

  progress_below : (k : ℕ) → k ≤ size → ((r : ℕ) → r < k → s.rest r ≡ []) ⊎ Enabled s
  progress_below zero l = inl (λ r h. absurd (omega arith))
  progress_below (suc k) l = elim (progress_below k (omega arith)) [
    | inr next ↦ inr next
    | inl below ↦ elim (at_first_left k l below (inv.place k) refl) [
      | inr next ↦ inr next
      | inl done ↦ inl (λ r h. elim (ℕ_discrete r k) [
        | yes same ↦ ap s.rest same ∙ done
        | no ne ↦ below r (omega arith)
      ])
    ]
  ]

  Inv-Enabled : Finished size s ⊎ Enabled s
  Inv-Enabled = progress_below size (omega arith)

  none_waiting : Finished size s → (k : ℕ) → k ≤ size → waiting s.rest k ≡ 0
  none_waiting done zero l = refl
  none_waiting done (suc k) l = rw (done k l, none_waiting done k (omega arith)) refl

run-Inv :
    {A : Type 0} (size root : ℕ) (buffer : ℕ → A) {n : ℕ} {s : Processes A}
    → root < size
    → Underway A (begin_broadcast A size buffer) n s
    → Inv A size (buffer (new_rank size root root)) n s
run-Inv {A} size root buffer h reached =
    Underway-Inv A size (buffer (new_rank size root root)) buffer (omega arith)
      (ap buffer (sym (new_rank_root size root h))) reached

-- For a root below the number of processes, in every state that they reach: fewer messages were sent
-- than there are processes, and all have finished or a message can go, so that no order of the messages
-- ends in a deadlock.
pub measure_Bcast_using_Send_Recv-Enabled :
    {A : Type 0} (size root : ℕ) (buffer : ℕ → A) {n : ℕ} {s : Processes A}
    → root < size
    → Underway A (begin_broadcast A size buffer) n s
    → (n < size) × (Finished size s ⊎ Enabled s)
measure_Bcast_using_Send_Recv-Enabled {A} size root buffer {n} {s} h reached =
    let inv = run-Inv size root buffer h reached in
    (omega (arith, inv.count), Inv-Enabled A size n _ s inv)

-- For a root below the number of processes, in every state that they reach and in which all have
-- finished: every rank has what the root had in its buffer at the start, and one message fewer was sent
-- than there are processes.
pub measure_Bcast_using_Send_Recv-data :
    {A : Type 0} (size root : ℕ) (buffer : ℕ → A) {n : ℕ} {s : Processes A}
    → root < size
    → Underway A (begin_broadcast A size buffer) n s
    → Finished size s
    → (n + 1 ≡ size)
      × ((rank : ℕ) → s.buffer (new_rank size root rank) ≡ buffer (new_rank size root root))
measure_Bcast_using_Send_Recv-data {A} size root buffer {n} {s} h reached done =
    let inv = run-Inv size root buffer h reached in
    (
      omega (arith, inv.count, none_waiting A size n _ s inv done size (omega arith)),
      λ rank.
          let l = new_rank_lt size root rank (omega arith) in
          inv.delivered _ (ap waits (done _ l)) l,
    )

-- From every state that is reached, with fuel for the messages that are left.
to_end :
    {A : Type 0} (size root : ℕ) (buffer : ℕ → A) (h : root < size) (left : ℕ) {n : ℕ}
    {s : Processes A}
    → Underway A (begin_broadcast A size buffer) n s
    → size ≤ n + left
    → (m : ℕ) × ((t : Processes A) × (Underway A (begin_broadcast A size buffer) m t
          × Finished size t))
to_end size root buffer h zero reached l =
    let (below, _) = measure_Bcast_using_Send_Recv-Enabled size root buffer h reached in
    absurd (omega arith)
to_end size root buffer h (suc left) reached l =
    let (_, go) = measure_Bcast_using_Send_Recv-Enabled size root buffer h reached in
    elim go [
      | inl done ↦ (_, (_, (reached, done)))
      | inr e ↦
          to_end size root buffer h left
            (message e.sender e.receiver e.then_sender e.then_receiver e.at_sender e.at_receiver
              reached)
            (omega arith)
    ]

pub finished_run :
    {A : Type 0} (size root : ℕ) (buffer : ℕ → A)
    → root < size
    → (m : ℕ) × ((t : Processes A) × (Underway A (begin_broadcast A size buffer) m t
          × Finished size t))
finished_run size root buffer h = to_end size root buffer h size begin (omega arith)
