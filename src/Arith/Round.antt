-- ===== src/Arith/Round.antt =====
-- `round_int_to_multipleof` gives a nearest multiple.
use native.Mathlib.Nat.{div-add-mod, mod-lt}
use ska_mpi.Prelude.{ℕ, suc, ◌+◌, ◌*◌, ◌/◌, ◌≤◌, ◌<◌, ◌≡◌, arith, if_elim}
use ska_mpi.Prelude.Int.{
  ℤ, pos, negsuc, pos_part, neg_part, ◌-ℤ◌, ◌*ℤ◌, ◌/ℤ◌, neg_ℕ, pos-add, pos-mul, neg_ℕ-mul,
  neg_ℕ-sub_one, -ℤ_parts, leb_ℤ, ltb_ℤ,
}
use ska_mpi.Arith.{round_int_to_multipleof}

-- `r` is a multiple of `m`, at a distance of at most half of `m` from `i`.
pub record IsNearMultiple (i : ℤ) (m : ℕ) (r : ℤ) : Type 0 where
  pub factor : (q : ℤ) × (r ≡ q *ℤ pos m)
  pub above : 2 * (pos_part r + neg_part i) ≤ 2 * (pos_part i + neg_part r) + m
  pub below : 2 * (pos_part i + neg_part r) ≤ 2 * (pos_part r + neg_part i) + m

near_pos :
    (n m q : ℕ)
    → 2 * (q * m) ≤ 2 * n + m
    → 2 * n ≤ 2 * (q * m) + m
    → IsNearMultiple (pos n) m (pos (q * m))
near_pos n m q h k = record {
  factor = (pos q, rw pos-mul);
  above = omega arith;
  below = omega arith;
}

near_neg :
    (n m q : ℕ)
    → 2 * (q * m) ≤ 2 * suc n + m
    → 2 * suc n ≤ 2 * (q * m) + m
    → IsNearMultiple (negsuc n) m (neg_ℕ (q * m))
near_neg n m q h k = record {
  factor = (neg_ℕ q, rw neg_ℕ-mul);
  above = ground arith;
  below = ground arith;
}

round-pos : (n m : ℕ) → 0 < m → IsNearMultiple (pos n) m (round_int_to_multipleof (pos n) m)
unfolding round_int_to_multipleof ◌/ℤ◌
round-pos n m h =
    simp (pos-add, pos-mul)
      (if_elim (IsNearMultiple (pos n) m) (leb_ℤ (pos 0) (pos n))
        (λ t.
          if_elim (IsNearMultiple (pos n) m)
            (leb_ℤ (pos n -ℤ pos (n / m * m)) (pos ((n / m + 1) * m) -ℤ pos n))
            (λ u. near_pos n m (n / m) (omega (arith, div-add-mod n m)) (
              ground (
                arith,
                div-add-mod n m,
                -ℤ_parts (pos n) (pos (n / m * m)),
                -ℤ_parts (pos ((n / m + 1) * m)) (pos n),
              )))
            (λ u.
              near_pos n m (n / m + 1)
                (ground (
                  arith,
                  div-add-mod n m,
                  -ℤ_parts (pos n) (pos (n / m * m)),
                  -ℤ_parts (pos ((n / m + 1) * m)) (pos n),
                ))
                (omega (arith, div-add-mod n m, mod-lt n h))))
        (λ t. absurd (ground arith)))

round-negsuc :
    (n m : ℕ) → 0 < m → IsNearMultiple (negsuc n) m (round_int_to_multipleof (negsuc n) m)
unfolding round_int_to_multipleof ◌/ℤ◌
round-negsuc n m h =
    simp (neg_ℕ-sub_one, neg_ℕ-mul)
      (if_elim (IsNearMultiple (negsuc n) m) (leb_ℤ (pos 0) (negsuc n)) (λ t. absurd (ground arith))
        (λ t.
          if_elim (IsNearMultiple (negsuc n) m)
            (ltb_ℤ (negsuc n -ℤ neg_ℕ ((suc n / m + 1) * m)) (neg_ℕ (suc n / m * m) -ℤ negsuc n))
            (λ u.
              near_neg n m (suc n / m + 1)
                (ground (
                  arith,
                  div-add-mod (suc n) m,
                  -ℤ_parts (negsuc n) (neg_ℕ ((suc n / m + 1) * m)),
                  -ℤ_parts (neg_ℕ (suc n / m * m)) (negsuc n),
                ))
                (omega (arith, div-add-mod (suc n) m, mod-lt (suc n) h)))
            (λ u. near_neg n m (suc n / m) (omega (arith, div-add-mod (suc n) m)) (
              ground (
                arith,
                div-add-mod (suc n) m,
                -ℤ_parts (negsuc n) (neg_ℕ ((suc n / m + 1) * m)),
                -ℤ_parts (neg_ℕ (suc n / m * m)) (negsuc n),
              )))))

-- For a positive multiple, the result is a multiple of it at a distance of at most half of it.
pub round_int_to_multipleof-IsNearMultiple :
    (i : ℤ) (m : ℕ) → 0 < m → IsNearMultiple i m (round_int_to_multipleof i m)
round_int_to_multipleof-IsNearMultiple (pos n) m h = round-pos n m h
round_int_to_multipleof-IsNearMultiple (negsuc n) m h = round-negsuc n m h
