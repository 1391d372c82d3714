-- ===== src/Autorefine/Refine/Paired.antt =====
-- The list and the queue fit together, and a step keeps it so.
use ska_mpi.Prelude.{
  ℕ, suc, ◌+◌, ◌≤◌, ◌≡◌, refl, ap, Bool, true, false, ◌&&◌, dec_lt, ℕ_discrete, Bool-cases, inl,
  inr, Option, none, some, List, [], ◌∷◌, ◌==◌, arith,
}
use ska_mpi.Autorefine.Start.{Numbers, Node, Number}
use ska_mpi.Autorefine.Refine.{Queue, Place, find, close, register_at, register_measurement_result}
use ska_mpi.Autorefine.Refine.Sides.{Gives}
use ska_mpi.Autorefine.Refine.Found.{IsChain, IsPlace, chain-IsPlace}
use ska_mpi.Autorefine.Refine.Counts.{hit, candidate_times, times, queue_times}
use ska_mpi.Autorefine.Refine.Counted.{
  Stepped, register_at-Stepped, close-candidate_times, close-times,
}

pub weaken-Gives :
    {A : Type 0} (P Q : A → Type 0) (m : Option A) → ((a : A) → P a → Q a) → Gives P m → Gives Q m
weaken-Gives P Q none f h = h
weaken-Gives P Q (some a) f h = f a h

module _ (o : Numbers) where
  -- The list is one of values with candidates between them; the queue holds exactly its candidates; no
  -- other element has the number of a candidate, nor any element one that is still free.
  pub record IsRefining (els : List (Node o)) (q : Queue o) (fresh : ℕ) : Type 0 where
    pub is_chain : IsChain o els
    pub queued : (x : ℕ) → queue_times o x q ≡ candidate_times o x els
    pub single : (x : ℕ) → 1 ≤ candidate_times o x els → times o x els ≤ 1
    pub older : (x : ℕ) → fresh ≤ x → times o x els ≡ 0

  candidate_times-le : (x : ℕ) (els : List (Node o)) → candidate_times o x els ≤ times o x els
  candidate_times-le x [] = omega arith
  candidate_times-le x (el ∷ els) =
      let rest = candidate_times-le x els in
      let here : hit (el.is_candidate && el.id == x) ≤ hit (el.id == x) = ground arith in
      omega arith

  pub find-candidate :
      (id : ℕ) (after els : List (Node o))
      → 1 ≤ candidate_times o id els
      → times o id els ≤ 1
      → (p : Place o) × ((find o id after els ≡ some p)
          × ((p.el.is_candidate ≡ true) × (p.el.id ≡ id)))
  unfolding find
  find-candidate id after [] h k = absurd (omega arith)
  find-candidate id after (el ∷ before) h k = elim (Bool-cases (el.id == id)) [
    | inl e ↦
        let le = candidate_times-le id before in
        let same : el.id ≡ id = ground arith in
        let one : hit (el.id == id) ≡ 1 = rw e refl in
        let is : el.is_candidate ≡ true = elim (Bool-cases el.is_candidate) [
          | inl c ↦ c
          | inr c ↦
              let zero_here : hit (el.is_candidate && el.id == id) ≡ 0 = rw c refl in
              absurd (omega arith)
        ] in
        rw e (record { before = before; el = el; after = after }, (refl, (is, same)))
    | inr n ↦
        let none_here : hit (el.id == id) ≡ 0 = rw n refl in
        let le : hit (el.is_candidate && el.id == id) ≤ hit (el.id == id) = ground arith in
        rw n (find-candidate id (el ∷ after) before (omega arith) (omega arith))
  ]

  hit_other : (b : Bool) (a x : ℕ) → (a ≡ x → ⊥) → hit (b && a == x) ≡ 0
  hit_other b a x n = let e : (a == x) ≡ false = ground arith in rw e (and_false b)
    where
      and_false : (b : Bool) → hit (b && false) ≡ 0
      and_false true = refl
      and_false false = refl

  hit_and : (b c : Bool) → hit (b && c) ≤ hit c
  hit_and true c = omega arith
  hit_and false c = omega arith

  -- Two numbers that are different.
  hits_once : (b c : Bool) (n x : ℕ) → hit (b && n == x) + hit (c && suc n == x) ≤ 1
  hits_once b c n x = elim (ℕ_discrete n x) [
    | yes e ↦
        omega (arith, hit_other c (suc n) x (λ f. omega arith), hit_and b (n == x), hit_le (n == x))
    | no ne ↦ omega (arith, hit_other b n x ne, hit_and c (suc n == x), hit_le (suc n == x))
  ]
    where
      hit_le : (b : Bool) → hit b ≤ 1
      hit_le true = omega arith
      hit_le false = omega arith

  around :
      (els : List (Node o)) (p : Place o) (x : ℕ)
      → close o p.before (p.el ∷ p.after) ≡ els
      → p.el.is_candidate ≡ true
      → candidate_times o x p.before + (hit (p.el.id == x) + candidate_times o x p.after)
        ≡ candidate_times o x els
  around els p x whole c =
      let one : hit (p.el.is_candidate && p.el.id == x) ≡ hit (p.el.id == x) = rw c refl in
      omega
        (arith, close-candidate_times o x p.before (p.el ∷ p.after), ap (candidate_times o x) whole)

  Stepped-IsRefining :
      (fresh : ℕ) (els : List (Node o)) (q : Queue o) (p : Place o) (r : List (Node o) × Queue o)
      → IsRefining els q fresh
      → close o p.before (p.el ∷ p.after) ≡ els
      → p.el.is_candidate ≡ true
      → Stepped o fresh p r
      → IsRefining r.0 r.1 (suc (suc fresh))
  unfolding close
  Stepped-IsRefining fresh els q p r inv whole c t = record {
    is_chain = t.is_chain;
    queued = λ x. omega (arith, t.in_queue x, t.candidates x);
    single = single;
    older = λ x h. omega (
      arith,
      inv.older x (omega arith),
      t.elements x,
      all_times x,
      hit_other t.first fresh x (λ e. omega arith),
      hit_other t.second (suc fresh) x (λ e. omega arith),
    );
  }
    where
      all_times :
          (x : ℕ) → times o x p.before + (hit (p.el.id == x) + times o x p.after) ≡ times o x els
      all_times x = omega (arith, close-times o x p.before (p.el ∷ p.after), ap (times o x) whole)

      single : (x : ℕ) → 1 ≤ candidate_times o x r.0 → times o x r.0 ≤ 1
      single x h = elim (dec_lt x fresh) [
        | yes l ↦ omega (
          arith,
          inv.single x (
              omega (
                arith,
                around els p x whole c,
                t.candidates x,
                hit_other t.first fresh x (λ e. omega arith),
                hit_other t.second (suc fresh) x (λ e. omega arith),
              )),
          t.elements x,
          all_times x,
          hit_other t.first fresh x (λ e. omega arith),
          hit_other t.second (suc fresh) x (λ e. omega arith),
        )
        | no n ↦ omega (
          arith,
          inv.older x (omega arith),
          t.elements x,
          all_times x,
          hits_once t.first t.second fresh x,
        )
      ]

  -- A step from the first candidate of the queue
  pub register-IsRefining :
      (m : ℕ) (result : Number o) (els : List (Node o)) (q : Queue o) (fresh : ℕ) (id : ℕ)
      (w : Number o)
      → IsRefining els ((id, w) ∷ q) fresh
      → Gives
          (λ r. IsRefining r.0 r.1 (suc (suc fresh)))
          (register_measurement_result o fresh m result els ((id, w) ∷ q))
  unfolding register_measurement_result
  register-IsRefining m result els q fresh id w inv =
      let self : hit (id == id) ≡ 1 = ground arith in
      let here : 1 ≤ candidate_times o id els = omega (arith, inv.queued id) in
      let (p, (e, (c, same))) = find-candidate id [] els here (inv.single id here) in
      let place = chain-IsPlace o id els p inv.is_chain c e in rw e (step p place c)
    where
      step :
          (p : Place o)
          → IsPlace o els p
          → p.el.is_candidate ≡ true
          → Gives
              (λ r. IsRefining r.0 r.1 (suc (suc fresh)))
              (register_at o fresh m result p ((id, w) ∷ q))
      step p place c =
          weaken-Gives (Stepped o fresh p) (λ r. IsRefining r.0 r.1 (suc (suc fresh)))
            (register_at o fresh m result p ((id, w) ∷ q))
            (λ r. Stepped-IsRefining fresh els ((id, w) ∷ q) p r inv place.whole c)
            (register_at-Stepped o fresh m result p ((id, w) ∷ q) place.side_before place.side_after
              (λ x. omega (arith, around els p x place.whole c, inv.queued x)))
