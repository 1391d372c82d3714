-- ===== src/Coll/Broadcast/Invariant.antt =====
-- What every message of a broadcast keeps.
use ska_mpi.Prelude.{
  ℕ, zero, suc, ◌+◌, ◌<◌, ◌≡◌, refl, sym, subst, ap, ◌∙◌, true, false, List, ◌∷◌, ◌==◌,
  if◌then◌else◌, ℕ_discrete, arith,
}
use ska_mpi.Measurement.{put}
use ska_mpi.Measurement.Elements.{put-at, put-other}
use ska_mpi.Coll.Broadcast.{
  PointToPoint, mpi_send, mpi_recv, parent, send_on, measure_Bcast_using_Send_Recv, Processes,
  Underway, begin, message, begin_broadcast, transfer,
}
use ska_mpi.Coll.Broadcast.Tree.{
  waits, will_send, At, at_receive, send_on-At, waits-send_on, will_send-send_on, Sending, sending,
  At-Sending, At-receiving, measure-root, measure-other, will_send-measure,
}

-- The processes below `size` that wait.
abbrev pub waiting : (ℕ → List PointToPoint) → ℕ → ℕ
waiting rest zero = 0
waiting rest (suc n) = (if waits (rest n) then 1 else 0) + waiting rest n

-- The calls that are left fit together, and who does not wait has the data.
pub record Inv (A : Type 0) (size : ℕ) (x : A) (n : ℕ) (s : Processes A) : Type 0 where
  pub place : (r : ℕ) → At size r (s.rest r)
  pub paired : (r : ℕ) → 0 < r → r < size → waits (s.rest r) ≡ will_send r (s.rest (parent r))
  pub delivered : (r : ℕ) → waits (s.rest r) ≡ false → r < size → s.buffer r ≡ x
  pub count : n + suc (waiting s.rest size) ≡ size

waiting-same :
    (f g : ℕ → List PointToPoint) (n : ℕ)
    → ((r : ℕ) → r < n → waits (g r) ≡ waits (f r))
    → waiting g n ≡ waiting f n
waiting-same f g zero h = refl
waiting-same f g (suc n) h =
    rw (h n (omega arith), waiting-same f g n (λ r l. h r (omega arith))) refl

waiting-less :
    (f g : ℕ → List PointToPoint) (q n : ℕ)
    → q < n
    → waits (f q) ≡ true
    → waits (g q) ≡ false
    → ((r : ℕ) → (r ≡ q → ⊥) → waits (g r) ≡ waits (f r))
    → suc (waiting g n) ≡ waiting f n
waiting-less f g q zero l a b h = absurd (omega arith)
waiting-less f g q (suc n) l a b h = elim (ℕ_discrete q n) [
  | yes e ↦
      let same = waiting-same f g n (λ r k. h r (λ c. omega arith)) in
      let now : waits (g n) ≡ false = subst (λ k. waits (g k) ≡ false) e b in
      let before : waits (f n) ≡ true = subst (λ k. waits (f k) ≡ true) e a in
      rw (now, before, same) omega arith
  | no ne ↦
      let less = waiting-less f g q n (omega arith) a b h in
      rw (h n (λ e. ne (sym e)), sym less) omega arith
]

waiting-all :
    (f : ℕ → List PointToPoint) (n : ℕ)
    → waits (f 0) ≡ false
    → ((r : ℕ) → waits (f (suc r)) ≡ true)
    → waiting f (suc n) ≡ n
waiting-all f zero h k = rw h refl
waiting-all f (suc n) h k = rw (k n, waiting-all f n h k) omega arith

module _ (A : Type 0) (size : ℕ) (x : A) where
  -- One message, on the lists of calls.
  module _ (s : Processes A) (p q : ℕ) (ps qs : List PointToPoint) (ep : s.rest p ≡ mpi_send q ∷ ps)
      (eq : s.rest q ≡ mpi_recv p ∷ qs) where
    abbrev after : Processes A
    after = transfer A p q ps qs s

    at_q : after.rest q ≡ qs
    at_q = put-at q qs (put p ps s.rest)

    at_p : (p ≡ q → ⊥) → after.rest p ≡ ps
    at_p ne = put-other q p qs (put p ps s.rest) ne ∙ put-at p ps s.rest

    elsewhere : (r : ℕ) → (r ≡ q → ⊥) → (r ≡ p → ⊥) → after.rest r ≡ s.rest r
    elsewhere r nq np = put-other q r qs (put p ps s.rest) nq ∙ put-other p r ps s.rest np

    -- What holds of every list but the receiver's goes over.
    carried :
        {B : Type 0} (f : List PointToPoint → B)
        → (p ≡ q → ⊥)
        → f ps ≡ f (mpi_send q ∷ ps)
        → (r : ℕ) → (r ≡ q → ⊥)
        → f (after.rest r) ≡ f (s.rest r)
    carried f ne e r nq = elim (ℕ_discrete r p) [
      | yes same ↦
          subst (λ k. f (after.rest k) ≡ f (s.rest k)) (sym same)
            (ap f (at_p ne) ∙ e ∙ sym (ap f ep))
      | no np ↦ ap f (elsewhere r nq np)
    ]

    kept_from :
        {n : ℕ}
        → Sending size p q ps
        → qs ≡ send_on size q
        → Inv A size x n s
        → Inv A size x (suc n) after
    kept_from {n} (sending h l up once quiet_p a) eqs inv = record {
      place = placed;
      paired = pairs;
      delivered = delivers;
      count = counts;
    }
      where
        ne : p ≡ q → ⊥
        ne c = omega arith

        quiet_q : waits (after.rest q) ≡ false
        quiet_q = ap waits (at_q ∙ eqs) ∙ waits-send_on size q

        placed : (r : ℕ) → At size r (after.rest r)
        placed r = elim (ℕ_discrete r q) [
          | yes same ↦
              subst (λ k. At size k (after.rest k)) (sym same)
                (subst (At size q) (sym (at_q ∙ eqs)) (send_on-At size q))
          | no nq ↦ elim (ℕ_discrete r p) [
            | yes same ↦
                subst (λ k. At size k (after.rest k)) (sym same)
                  (subst (At size p) (sym (at_p ne)) a)
            | no np ↦ subst (At size r) (sym (elsewhere r nq np)) (inv.place r)
          ]
        ]

        waits_as : (r : ℕ) → (r ≡ q → ⊥) → waits (after.rest r) ≡ waits (s.rest r)
        waits_as = carried waits ne quiet_p

        sends_as : (r k : ℕ) → (r ≡ q → ⊥) → will_send r (after.rest k) ≡ will_send r (s.rest k)
        sends_as r k nr = elim (ℕ_discrete k q) [
          | yes same ↦
              subst (λ k. will_send r (after.rest k) ≡ will_send r (s.rest k)) (sym same)
                (ap (will_send r) at_q ∙ sym (ap (will_send r) eq))
          | no nq ↦
              carried (will_send r) ne (let f : (q == r) ≡ false = ground arith in rw f refl) k nq
        ]

        pairs :
            (r : ℕ) → 0 < r → r < size → waits (after.rest r) ≡ will_send r (after.rest (parent r))
        pairs r hr lr = elim (ℕ_discrete r q) [
          | yes same ↦
              subst (λ k. waits (after.rest k) ≡ will_send k (after.rest (parent k))) (sym same)
                (rw up (quiet_q ∙ sym (ap (will_send q) (at_p ne) ∙ once)))
          | no nq ↦ waits_as r nq ∙ inv.paired r hr lr ∙ sym (sends_as r (parent r) nq)
        ]

        from_p : s.buffer p ≡ x
        from_p = inv.delivered p (ap waits ep) (omega arith)

        delivers : (r : ℕ) → waits (after.rest r) ≡ false → r < size → after.buffer r ≡ x
        delivers r w lr = elim (ℕ_discrete r q) [
          | yes same ↦
              subst (λ k. after.buffer k ≡ x) (sym same) (put-at q (s.buffer p) s.buffer ∙ from_p)
          | no nq ↦
              put-other q r (s.buffer p) s.buffer nq ∙ inv.delivered r (sym (waits_as r nq) ∙ w) lr
        ]

        counts : suc n + suc (waiting after.rest size) ≡ size
        counts = omega (
          arith,
          inv.count,
          waiting-less s.rest after.rest q size l (ap waits eq) quiet_q waits_as,
        )

    pub kept : {n : ℕ} → Inv A size x n s → Inv A size x (suc n) after
    kept {n} inv =
        let (_, _, eqs) = At-receiving (subst (At size q) eq (inv.place q)) in
        kept_from (At-Sending (subst (At size p) ep (inv.place p))) eqs inv

  pub begun :
      (buffer : ℕ → A) → 0 < size → buffer 0 ≡ x → Inv A size x 0 (begin_broadcast A size buffer)
  unfolding begin_broadcast
  begun buffer h e = record {
    place = placed;
    paired = pairs;
    delivered = delivers;
    count = omega (arith, counts size h);
  }
    where
      placed : (r : ℕ) → At size r (measure_Bcast_using_Send_Recv size r)
      placed zero = subst (At size 0) (sym (measure-root size)) (send_on-At size 0)
      placed (suc r) =
          subst (At size (suc r)) (sym (measure-other size (suc r) (omega arith)))
            (at_receive (omega arith))

      waits_other : (r : ℕ) → 0 < r → waits (measure_Bcast_using_Send_Recv size r) ≡ true
      waits_other r hr = ap waits (measure-other size r hr)

      pairs :
          (r : ℕ)
          → 0 < r
          → r < size
          → waits (measure_Bcast_using_Send_Recv size r)
            ≡ will_send r (measure_Bcast_using_Send_Recv size (parent r))
      pairs r hr lr =
          waits_other r hr
          ∙ sym (will_send-measure size r (parent r) ∙ will_send-send_on size r hr lr)

      delivers :
          (r : ℕ) → waits (measure_Bcast_using_Send_Recv size r) ≡ false → r < size → buffer r ≡ x
      delivers zero w lr = e
      delivers (suc r) w lr = let o = waits_other (suc r) (omega arith) in absurd (ground arith)

      counts : (k : ℕ) → 0 < k → suc (waiting (measure_Bcast_using_Send_Recv size) k) ≡ k
      counts zero l = absurd (omega arith)
      counts (suc k) l = ap suc (
          waiting-all (measure_Bcast_using_Send_Recv size) k
            (ap waits (measure-root size) ∙ waits-send_on size 0)
            (λ r. waits_other (suc r) (omega arith)))

  pub Underway-Inv :
      (buffer : ℕ → A) {n : ℕ} {s : Processes A}
      → 0 < size
      → buffer 0 ≡ x
      → Underway A (begin_broadcast A size buffer) n s
      → Inv A size x n s
  Underway-Inv buffer h e begin = begun buffer h e
  Underway-Inv buffer h e (message {s = s} p q ps qs ep eq so_far) =
      kept s p q ps qs ep eq (Underway-Inv buffer h e so_far)
