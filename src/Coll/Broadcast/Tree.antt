-- ===== src/Coll/Broadcast/Tree.antt =====
-- What holds in every state of a broadcast.
use ska_mpi.Prelude.{
  ℕ, zero, suc, ◌+◌, ◌*◌, ◌≤◌, ◌<◌, ◌≡◌, refl, sym, subst, ap, ◌⊎◌, inl, inr, Bool, true, false,
  ◌||◌, List, [], ◌∷◌, ltb, ◌==◌, if_elim, ℕ_discrete, dec_lt, ltb→lt, ltb_false→le, arith,
}
use ska_mpi.Coll.Broadcast.{
  PointToPoint, mpi_send, mpi_recv, parent, receive_first, send_on, measure_Bcast_using_Send_Recv,
}

-- The process waits for a message.
abbrev pub waits : List PointToPoint → Bool
waits (mpi_recv p ∷ cs) = true
waits _ = false

-- It has still to send to `q`.
abbrev pub will_send : ℕ → List PointToPoint → Bool
will_send q [] = false
will_send q (mpi_send k ∷ cs) = k == q || will_send q cs
will_send q (mpi_recv k ∷ cs) = will_send q cs

-- What a process can have still to call.
pub data At (size r : ℕ) : List PointToPoint → Type 0 where
  at_receive : 0 < r → At size r (mpi_recv (parent r) ∷ send_on size r)
  at_first :
      (cs : List PointToPoint)
      → 2 * r + 1 < size
      → (cs ≡ []) ⊎ ((2 * r + 2 < size) × (cs ≡ mpi_send (2 * r + 2) ∷ []))
      → At size r (mpi_send (2 * r + 1) ∷ cs)
  at_second : 2 * r + 2 < size → At size r (mpi_send (2 * r + 2) ∷ [])
  at_end : At size r []

parent_first : (r : ℕ) → parent (2 * r + 1) ≡ r
parent_first r = omega arith

parent_second : (r : ℕ) → parent (2 * r + 2) ≡ r
parent_second r = omega arith

-- A child is one of two.
pub child : (q : ℕ) → 0 < q → (q ≡ 2 * parent q + 1) ⊎ (q ≡ 2 * parent q + 2)
child q h = elim (ℕ_discrete q (2 * parent q + 1)) [ yes e ↦ inl e | no ne ↦ inr (omega arith) ]

data Sends (size r : ℕ) : List PointToPoint → Type 0 where
  no_child : size ≤ 2 * r + 1 → Sends size r []
  one_child : 2 * r + 2 ≡ size → Sends size r (mpi_send (2 * r + 1) ∷ [])
  two_children : 2 * r + 2 < size → Sends size r (mpi_send (2 * r + 1) ∷ mpi_send (2 * r + 2) ∷ [])

send_on-Sends : (size r : ℕ) → Sends size r (send_on size r)
unfolding send_on dec_lt
send_on-Sends size r =
    if_elim (Sends size r) (ltb (2 * r + 1) size)
      (λ first.
        if_elim (λ t. Sends size r (mpi_send (2 * r + 1) ∷ t)) (ltb (2 * r + 2) size)
          (λ second. two_children (ltb→lt (2 * r + 2) size second))
          (λ second.
            one_child
              (omega (arith, ltb→lt (2 * r + 1) size first, ltb_false→le (2 * r + 2) size second))))
      (λ first.
        let le = ltb_false→le (2 * r + 1) size first in
        if_elim (Sends size r) (ltb (2 * r + 2) size)
          (λ second. absurd (omega (arith, ltb→lt (2 * r + 2) size second)))
          (λ second. no_child le))

Sends-At : {size r : ℕ} {cs : List PointToPoint} → Sends size r cs → At size r cs
Sends-At (no_child h) = at_end
Sends-At (one_child e) = at_first [] (omega arith) (inl refl)
Sends-At (two_children h) = at_first _ (omega arith) (inr (h, refl))

pub send_on-At : (size r : ℕ) → At size r (send_on size r)
send_on-At size r = Sends-At (send_on-Sends size r)

waits-Sends : {size r : ℕ} {cs : List PointToPoint} → Sends size r cs → waits cs ≡ false
waits-Sends (no_child h) = refl
waits-Sends (one_child e) = refl
waits-Sends (two_children h) = refl

pub waits-send_on : (size r : ℕ) → waits (send_on size r) ≡ false
waits-send_on size r = waits-Sends (send_on-Sends size r)

will_send-Sends :
    {size : ℕ} (q : ℕ) {cs : List PointToPoint}
    → 0 < q
    → q < size
    → Sends size (parent q) cs
    → will_send q cs ≡ true
will_send-Sends q h l (no_child le) = absurd (omega arith)
will_send-Sends q h l (one_child e) = let first : q ≡ 2 * parent q + 1 = omega arith in ground arith
will_send-Sends q h l (two_children le) = elim (child q h) [
  | inl e ↦ ground arith
  | inr e ↦ ground arith
]

pub will_send-send_on :
    (size q : ℕ) → 0 < q → q < size → will_send q (send_on size (parent q)) ≡ true
will_send-send_on size q h l = will_send-Sends q h l (send_on-Sends size (parent q))

-- A process that sends.
pub data Sending (size p q : ℕ) (ps : List PointToPoint) : Type 0 where
  sending :
      0 < q
      → q < size
      → parent q ≡ p
      → will_send q ps ≡ false
      → waits ps ≡ false
      → At size p ps
      → Sending size p q ps

pub At-Sending :
    {size p q : ℕ} {ps : List PointToPoint} → At size p (mpi_send q ∷ ps) → Sending size p q ps
At-Sending {p} (at_first cs l (inl e)) =
    subst (Sending _ p (2 * p + 1)) (sym e)
      (sending (omega arith) l (parent_first p) refl refl at_end)
At-Sending {p} (at_first cs l (inr (m, e))) =
    subst (Sending _ p (2 * p + 1)) (sym e)
      (sending (omega arith) l (parent_first p) (ground arith) refl (at_second m))
At-Sending {p} (at_second l) = sending (omega arith) l (parent_second p) refl refl at_end

-- A process that waits.
pub At-receiving :
    {size q p : ℕ} {qs : List PointToPoint}
    → At size q (mpi_recv p ∷ qs)
    → (0 < q) × (p ≡ parent q) × (qs ≡ send_on size q)
At-receiving (at_receive h) = (h, refl, refl)

-- What the function calls, on the process 0 and on another.
pub measure-root : (size : ℕ) → measure_Bcast_using_Send_Recv size 0 ≡ send_on size 0
unfolding measure_Bcast_using_Send_Recv receive_first
measure-root size = refl

pub measure-other :
    (size r : ℕ)
    → 0 < r
    → measure_Bcast_using_Send_Recv size r ≡ mpi_recv (parent r) ∷ send_on size r
unfolding measure_Bcast_using_Send_Recv receive_first
measure-other size r h = let e : (r == 0) ≡ false = ground arith in rw e refl

pub will_send-measure :
    (size q r : ℕ)
    → will_send q (measure_Bcast_using_Send_Recv size r) ≡ will_send q (send_on size r)
will_send-measure size q zero = ap (will_send q) (measure-root size)
will_send-measure size q (suc r) = ap (will_send q) (measure-other size (suc r) (omega arith))
