-- ===== src/Synchronize/Differences/Estimates.antt =====
-- How far the differences are from those of the clocks.
use ska_mpi.Prelude.{
  ℕ, zero, suc, ◌+◌, ◌-◌, ◌≤◌, ◌<◌, ◌≡◌, false, refl, ap, ◌∙◌, ℕ_discrete, arith, ◌==◌,
}
use ska_mpi.Prelude.Int.{ℤ, ◌+ℤ◌, ◌-ℤ◌, ◌≤ℤ◌, int_laws, pos_part, neg_part}
use ska_mpi.Measurement.{put}
use ska_mpi.Measurement.Elements.{put-at, put-other}
use ska_mpi.Synchronize.{Bounds}
use ska_mpi.Synchronize.Offset.{HasOffset}
use ska_mpi.Synchronize.Differences.{
  estimate, for_ranks, root_differences, other_differences, determine_time_differences,
}

module _ (get_global_rank : ℕ → ℕ) (size : ℕ)
    (distinct : (j k : ℕ)
      → j < size
      → k < size
      → get_global_rank j ≡ get_global_rank k
      → j ≡ k) where
  abbrev rank : ℕ → ℕ
  rank = get_global_rank

  put-rank :
      (i j : ℕ) (v : ℤ) (tds : ℕ → ℤ)
      → i < size
      → j < size
      → (j ≡ i → ⊥)
      → put (rank i) v tds (rank j) ≡ tds (rank j)
  put-rank i j v tds h k n = put-other (rank i) (rank j) v tds (λ e. n (distinct j i k h e))

  for_ranks-other :
      (value : (ℕ → ℤ) → ℕ → ℤ) (i rest : ℕ) (tds : ℕ → ℤ) (j : ℕ)
      → i + rest ≤ size
      → j < i
      → for_ranks rank value i rest tds (rank j) ≡ tds (rank j)
  unfolding for_ranks
  for_ranks-other value i zero tds j h l = refl
  for_ranks-other value i (suc rest) tds j h l =
      for_ranks-other value (suc i) rest _ j (omega arith) (omega arith)
      ∙ put-rank i j _ tds (omega arith) (omega arith) (λ e. omega arith)

  -- For values that depend on the difference to the process 0 only.
  for_ranks-at :
      (value : (ℕ → ℤ) → ℕ → ℤ) (i rest : ℕ) (tds : ℕ → ℤ) (k : ℕ)
      → ((tds tds' : ℕ → ℤ) → tds (rank 0) ≡ tds' (rank 0) → value tds k ≡ value tds' k)
      → 0 < i
      → i + rest ≤ size
      → i ≤ k
      → k < i + rest
      → for_ranks rank value i rest tds (rank k) ≡ value tds k
  unfolding for_ranks
  for_ranks-at value i zero tds k f p h a b = absurd (omega arith)
  for_ranks-at value i (suc rest) tds k f p h a b = elim (ℕ_discrete k i) [
    | yes e ↦
        for_ranks-other value (suc i) rest _ k (omega arith) (omega arith)
        ∙ rw e (put-at (rank i) (value tds i) tds)
    | no n ↦
        for_ranks-at value (suc i) rest _ k f (omega arith) (omega arith) (omega arith)
          (omega arith)
        ∙ f _ tds (put-rank i 0 _ tds (omega arith) (omega arith) (λ e. omega arith))
  ]

  -- The middle of the bounds is a whole number of units.
  abbrev pub IsExact : Bounds → Type 0
  IsExact b = estimate b +ℤ estimate b ≡ b.td_min +ℤ b.td_max

  -- Twice the distance between an estimate and a difference is at most `width`.
  pub record IsWithin (width value difference : ℤ) : Type 0 where
    pub not_above : value +ℤ value ≤ℤ difference +ℤ difference +ℤ width
    pub not_below : difference +ℤ difference ≤ℤ value +ℤ value +ℤ width

  abbrev pub width : Bounds → ℤ
  width b = b.td_max -ℤ b.td_min

  root-at :
      (found : ℕ → Bounds) (tds : ℕ → ℤ) (k : ℕ)
      → 0 < k
      → k < size
      → root_differences rank size found tds (rank k) ≡ estimate (found k)
  unfolding root_differences
  root-at found tds k h l =
      for_ranks-at _ 1 (size - 1) tds k (λ t t' e. refl) (omega arith) (omega arith) (omega arith)
        (omega arith)

  other-at :
      (own : Bounds) (tmp_tds tds : ℕ → ℤ) (k : ℕ)
      → 0 < k
      → k < size
      → other_differences rank size own tmp_tds tds (rank k) ≡ tmp_tds k +ℤ estimate own
  unfolding other_differences
  other-at own tmp_tds tds k h l =
      for_ranks-at _ 1 (size - 1) _ k (λ t t' e. ap (λ x. tmp_tds k +ℤ x) e) (omega arith)
        (omega arith) (omega arith) (omega arith)
      ∙ ap (λ x. tmp_tds k +ℤ x) (put-at (rank 0) (estimate own) tds)

  other-root :
      (own : Bounds) (tmp_tds tds : ℕ → ℤ)
      → 0 < size
      → other_differences rank size own tmp_tds tds (rank 0) ≡ estimate own
  unfolding other_differences
  other-root own tmp_tds tds h =
      for_ranks-other _ 1 (size - 1) _ 0 (omega arith) (omega arith)
      ∙ put-at (rank 0) (estimate own) tds

  sum-IsWithin :
      (a b : Bounds) (x y : ℤ)
      → HasOffset x a
      → HasOffset y b
      → IsExact a
      → IsExact b
      → IsWithin (width a +ℤ width b) (estimate a +ℤ estimate b) (x +ℤ y)
  sum-IsWithin a b x y h k e f =
      let p = ap pos_part e in
      let q = ap neg_part e in
      let r = ap pos_part f in
      let s = ap neg_part f in record { not_above = omega int_laws; not_below = omega int_laws }

  -- Over a third clock.
  between :
      (x y z width value : ℤ)
      → IsWithin width value (x -ℤ y +ℤ (y -ℤ z))
      → IsWithin width value (x -ℤ z)
  between x y z width value w =
      let a = w.not_above in
      let b = w.not_below in record { not_above = omega int_laws; not_below = omega int_laws }

  one-IsWithin :
      (a : Bounds) (x : ℤ) → HasOffset x a → IsExact a → IsWithin (width a) (estimate a) x
  one-IsWithin a x h e =
      let p = ap pos_part e in
      let q = ap neg_part e in record { not_above = omega int_laws; not_below = omega int_laws }

  -- What the process 0 and the process `r` keep behind determine_time_differences, for clocks that are ahead by `clock`.
  pub record AreEstimated (clock : ℕ → ℤ) (r : ℕ) (found : ℕ → Bounds) (own : Bounds)
      (root_tds tds : ℕ → ℤ) : Type 0 where
    pub of_root :
        (k : ℕ)
        → 0 < k
        → k < size
        → IsWithin (width (found k)) (root_tds (rank k)) (clock k -ℤ clock 0)
    pub to_root : IsWithin (width own) (tds (rank 0)) (clock 0 -ℤ clock r)
    pub others :
        (k : ℕ)
        → 0 < k
        → k < size
        → IsWithin (width (found k) +ℤ width own) (tds (rank k)) (clock k -ℤ clock r)

  -- For processes with different global ranks, and exchanges whose bounds hold the differences of the clocks and
  -- have their middles at whole units: behind determine_time_differences, what the process 0 keeps of each other
  -- one, and what that one keeps of the process 0, is wrong by at most half the width of the bounds; what it keeps
  -- of any other process, though they have exchanged nothing, by at most half the widths of both exchanges
  -- with the process 0 together.
  pub determine_time_differences-AreEstimated :
      (clock : ℕ → ℤ) (r : ℕ) (found : ℕ → Bounds) (own : Bounds) (root_tds tds : ℕ → ℤ)
      → 0 < r
      → r < size
      → ((k : ℕ) → 0 < k → k < size → HasOffset (clock k -ℤ clock 0) (found k) × IsExact (found k))
      → HasOffset (clock 0 -ℤ clock r) own
      → IsExact own
      → AreEstimated clock r found own
          (determine_time_differences rank size 0 found own root_tds tds)
          (determine_time_differences rank size r found own root_tds tds)
  unfolding determine_time_differences
  determine_time_differences-AreEstimated clock r found own root_tds tds h l f o e =
      let t : (r == 0) ≡ false = ground arith in
      rw t (record {
        of_root = λ k p q.
            let (a, b) = f k p q in
            rw (root-at found root_tds k p q) (one-IsWithin (found k) _ a b);
        to_root = rw (other-root own _ tds (omega arith)) (one-IsWithin own _ o e);
        others = λ k p q.
            let (a, b) = f k p q in
            rw (other-at own _ tds k p q, root-at found root_tds k p q)
              (between (clock k) (clock 0) (clock r) _ _ (sum-IsWithin (found k) own _ _ a o b e));
      })
