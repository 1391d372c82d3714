-- ===== src/Measurement/Flawed.antt =====
-- The flawed measurements of a batch.
use ska_mpi.Prelude.{
  ℕ, zero, suc, ◌+◌, ◌*◌, ◌≤◌, ◌<◌, ◌≡◌, refl, ap, ◌∙◌, true, ◌==◌, arith, if_elim, ◌↔◌, ℕ_discrete,
  ==_iff,
}
use ska_mpi.Arith.{imax2}
use ska_mpi.Measurement.{put, flawed_at, number_from, get_number_flawed_measurements, move_up}
use ska_mpi.Measurement.Runs.{imax2-ge}
use ska_mpi.Measurement.Compact.{window, number_valid, move_up-MovesUp}

module _ (max_counter size : ℕ) where
  flawed_at-ge : (g : ℕ → ℕ) (i p rest f : ℕ) → f ≤ flawed_at max_counter i p rest f g
  unfolding flawed_at
  flawed_at-ge g i p zero f = omega arith
  flawed_at-ge g i p (suc rest) f =
      let r = flawed_at-ge g i (suc p) rest (imax2 f (g (p * max_counter + i))) in
      omega (arith, (imax2-ge f (g (p * max_counter + i))).0)

  flawed_at-put :
      (g : ℕ → ℕ) (k v i p rest f : ℕ)
      → k < i
      → flawed_at max_counter i p rest f (put k v g) ≡ flawed_at max_counter i p rest f g
  unfolding flawed_at put
  flawed_at-put g k v i p zero f h = refl
  flawed_at-put g k v i p (suc rest) f h =
      let e : put k v g (p * max_counter + i) ≡ g (p * max_counter + i) = ground arith in
      rw e (flawed_at-put g k v i (suc p) rest _ h)

  put-other : (k i v : ℕ) (g : ℕ → ℕ) → k < i → put i v g k ≡ g k
  unfolding put
  put-other k i v g h = ground arith

  put_self : (i v : ℕ) (g : ℕ → ℕ) → put i v g i ≡ v
  unfolding put
  put_self i v g = ground arith

  number_from-below :
      (k i rest n : ℕ) (g : ℕ → ℕ) → k < i → (number_from max_counter size i rest n g).1 k ≡ g k
  unfolding number_from
  number_from-below k i zero n g h = refl
  number_from-below k i (suc rest) n g h =
      let f = flawed_at max_counter i 0 size 0 g in
      if_elim (λ (r : ℕ × (ℕ → ℕ)). r.1 k ≡ g k) (f == 0)
        (λ _. number_from-below k (suc i) rest n g (omega arith))
        (λ _.
          number_from-below k (suc i) rest (suc n) (put i f g) (omega arith) ∙ put-other k i f g h)

  every_flag-le :
      (g : ℕ → ℕ) (i p rest f q : ℕ)
      → p ≤ q
      → q < p + rest
      → g (q * max_counter + i) ≤ flawed_at max_counter i p rest f g
  unfolding flawed_at
  every_flag-le g i p zero f q h k = absurd (omega arith)
  every_flag-le g i p (suc rest) f q h k =
      let now = g (p * max_counter + i) in
      elim (ℕ_discrete q p) [
        | yes e ↦
            let r = flawed_at-ge g i (suc p) rest (imax2 f now) in
            rw e (omega (arith, (imax2-ge f now).1))
        | no d ↦ every_flag-le g i (suc p) rest (imax2 f now) q (omega arith) (omega arith)
      ]

  -- The flag of process 0 is one of those compared.
  first_flag-le : (g : ℕ → ℕ) (i rest : ℕ) → 0 < rest → g i ≤ flawed_at max_counter i 0 rest 0 g
  first_flag-le g i rest h =
      let e : 0 * max_counter + i ≡ i = omega arith in
      omega (arith, ap g e, every_flag-le g i 0 rest 0 0 (omega arith) (omega arith))

  all_zero :
      (g : ℕ → ℕ) (i p rest : ℕ)
      → ((q : ℕ) → q < p + rest → g (q * max_counter + i) ≡ 0)
      → flawed_at max_counter i p rest 0 g ≡ 0
  unfolding flawed_at imax2
  all_zero g i p zero z = refl
  all_zero g i p (suc rest) z =
      rw (z p (omega arith)) (all_zero g i (suc p) rest (λ q h. z q (omega arith)))

  module _ (some_process : 0 < size) where
    head_valid :
        (g : ℕ → ℕ) (i : ℕ)
        → (flawed_at max_counter i 0 size 0 g == 0) ≡ true
        → g i ≡ flawed_at max_counter i 0 size 0 g
    head_valid g i t = omega (arith, (==_iff _ _).0 t, first_flag-le g i size some_process)

    number_from-head :
        (i rest n : ℕ) (g : ℕ → ℕ)
        → (number_from max_counter size i (suc rest) n g).1 i ≡ flawed_at max_counter i 0 size 0 g
    unfolding number_from
    number_from-head i rest n g =
        let f = flawed_at max_counter i 0 size 0 g in
        if_elim (λ (r : ℕ × (ℕ → ℕ)). r.1 i ≡ f) (f == 0)
          (λ t. number_from-below i (suc i) rest n g (omega arith) ∙ head_valid g i t)
          (λ _. number_from-below i (suc i) rest (suc n) (put i f g) (omega arith) ∙ put_self i f g)

    number_from-at :
        (k i rest n : ℕ) (g : ℕ → ℕ)
        → i ≤ k
        → k < i + rest
        → (number_from max_counter size i rest n g).1 k ≡ flawed_at max_counter k 0 size 0 g
    unfolding number_from
    number_from-at k i zero n g h l = absurd (omega arith)
    number_from-at k i (suc rest) n g h l =
        let f = flawed_at max_counter i 0 size 0 g in
        let P = λ (r : ℕ × (ℕ → ℕ)). r.1 k ≡ flawed_at max_counter k 0 size 0 g in
        elim (ℕ_discrete k i) [
          | yes e ↦ rw e (number_from-head i rest n g)
          | no d ↦
              if_elim P (f == 0)
                (λ _. number_from-at k (suc i) rest n g (omega arith) (omega arith))
                (λ _.
                  number_from-at k (suc i) rest (suc n) (put i f g) (omega arith) (omega arith)
                  ∙ flawed_at-put g i f k 0 size 0 (omega arith))
        ]

    number_from-count :
        (i rest n : ℕ) (g : ℕ → ℕ)
        → let (n', g') = number_from max_counter size i rest n g in
          number_valid (window ℕ g' i rest) + n' ≡ n + rest
    unfolding number_from number_valid window
    number_from-count i zero n g = omega arith
    number_from-count i (suc rest) n g =
        let f = flawed_at max_counter i 0 size 0 g in
        let P =
          λ (r : ℕ × (ℕ → ℕ)). number_valid (window ℕ r.1 i (suc rest)) + r.0 ≡ n + suc rest in
        if_elim P (f == 0)
          (λ t.
            let head : (number_from max_counter size (suc i) rest n g).1 i ≡ f =
              number_from-below i (suc i) rest n g (omega arith) ∙ head_valid g i t in
            rw (head, t) (omega (arith, number_from-count (suc i) rest n g)))
          (λ t.
            let head : (number_from max_counter size (suc i) rest (suc n) (put i f g)).1 i ≡ f =
              number_from-below i (suc i) rest (suc n) (put i f g) (omega arith) ∙ put_self i f g in
            rw (head, t) (omega (arith, number_from-count (suc i) rest (suc n) (put i f g))))

    -- For at least one process: after `get_number_flawed_measurements` the flag of a measurement is 0
    -- exactly if the flag of every process for it was, and when the results are moved up afterwards,
    -- those of the flawed measurements, as many as it returns, are left out and all others are kept.
    pub get_number_flawed_measurements_lem :
        (Column : Type 0) (g : ℕ → ℕ) (start : ℕ) (all : ℕ → Column) (k : ℕ)
        → k < max_counter
        → let (n, g') = get_number_flawed_measurements max_counter size g in
          ((g' k ≡ 0) ↔ ((p : ℕ) → p < size → g (p * max_counter + k) ≡ 0))
          × ((move_up Column (window ℕ g' 0 max_counter) start start all).result_index + n
              ≡ start + max_counter)
    unfolding get_number_flawed_measurements
    get_number_flawed_measurements_lem Column g start all k h =
        let (n, g') = number_from max_counter size 0 max_counter 0 g in
        let moved = move_up-MovesUp Column (window ℕ g' 0 max_counter) start all in
        let e = number_from-at k 0 max_counter 0 g (omega arith) (omega arith) in
        let count = number_from-count 0 max_counter 0 g in
        (
          (
            λ z p l. omega (arith, e, z, every_flag-le g k 0 size 0 p (omega arith) (omega arith)),
            λ z. e ∙ all_zero g k 0 size (λ q l. z q (omega arith)),
          ),
          omega (arith, moved.counted, count),
        )
