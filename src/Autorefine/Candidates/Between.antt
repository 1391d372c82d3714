-- ===== src/Autorefine/Candidates/Between.antt =====
-- Where a new candidate lies.
use ska_mpi.Prelude.{ℕ, suc, ◌+◌, ◌*◌, ◌/◌, ◌≤◌, ◌<◌, ◌≡◌, ap, ◌∙◌, none, some, arith, dec_lt}
use ska_mpi.Prelude.Int.{
  ℤ, pos, negsuc, ◌/ℤ◌, ◌*ℤ◌, pos-mul, neg_ℕ-mul, neg_ℕ, pos_part, neg_part, pos-add,
}
use ska_mpi.Align.Least.{mul_le}
use ska_mpi.Arith.Round.{IsNearMultiple, round_int_to_multipleof-IsNearMultiple}
use ska_mpi.Autorefine.Candidates.{new_int_par, candidate_between}

-- A multiple near a number is a number, the one nearest to it.
record Nearest (n m : ℕ) (r : ℤ) : Type 0 where
  factor : ℕ
  value : r ≡ pos (factor * m)
  above : 2 * (factor * m) ≤ 2 * n + m
  below : 2 * n ≤ 2 * (factor * m) + m

whole_factor : (n m : ℕ) (r : ℤ) → 0 < m → IsNearMultiple (pos n) m r → Nearest n m r
whole_factor n m r h v = go v.factor.0 v.factor.1
  where
    go : (q : ℤ) → r ≡ q *ℤ pos m → Nearest n m r
    go (pos k) e =
        let s : r ≡ pos (k * m) = e ∙ pos-mul k m in
        record {
          factor = k;
          value = s;
          above = omega (arith, ap pos_part s, ap neg_part s, v.above);
          below = omega (arith, ap pos_part s, ap neg_part s, v.below);
        }
    go (negsuc k) e =
        let n' : negsuc k ≡ neg_ℕ (k + 1) = ground arith in
        let s : r ≡ neg_ℕ ((k + 1) * m) = e ∙ (ap (λ x. x *ℤ pos m) n' ∙ neg_ℕ-mul (k + 1) m) in
        let far = mul_le m 1 (k + 1) (omega arith) in
        let gone : neg_part (neg_ℕ ((k + 1) * m)) ≡ (k + 1) * m = ground (arith, far) in
        let lies : pos_part (neg_ℕ ((k + 1) * m)) ≡ 0 = ground (arith, far) in
        absurd (omega (arith, far, gone, lies, ap pos_part s, ap neg_part s, v.below))

between :
    (a b m k : ℕ)
    → 0 < m
    → suc a < b
    → 2 * (k * m) ≤ 2 * ((a * m + b * m) / 2) + m
    → 2 * ((a * m + b * m) / 2) ≤ 2 * (k * m) + m
    → (a < k) × (k < b)
between a b m k h room above below =
    let gap = mul_le m (a + 2) b (omega arith) in
    (
      elim (dec_lt a k) [
        | yes t ↦ t
        | no t ↦ absurd (omega (arith, gap, mul_le m k a (omega arith)))
      ],
      elim (dec_lt k b) [
        | yes t ↦ t
        | no t ↦ absurd (omega (arith, gap, mul_le m b k (omega arith)))
      ],
    )

new_int_par-Nearest :
    (a b m : ℕ)
    → 0 < m
    → Nearest ((a * m + b * m) / 2) m (new_int_par (pos (a * m)) (pos (b * m)) m)
unfolding new_int_par ◌/ℤ◌
new_int_par-Nearest a b m h =
    rw pos-add (
      whole_factor _ m _ h (round_int_to_multipleof-IsNearMultiple (pos ((a * m + b * m) / 2)) m h))

-- For a positive `multipleof`: between two multiples of it that are more than one multiple apart, a candidate is always
-- inserted: a multiple that lies strictly between them.
pub candidate_between-strict :
    (a b m : ℕ)
    → 0 < m
    → suc a < b
    → (k : ℕ) × ((candidate_between (pos (a * m)) (pos (b * m)) m ≡ some (pos (k * m)))
        × ((a < k) × (k < b)))
unfolding candidate_between
candidate_between-strict a b m h room =
    let near = new_int_par-Nearest a b m h in
    let (low, high) = between a b m near.factor h room near.above near.below in
    let left = mul_le m (a + 1) near.factor (omega arith) in
    let right = mul_le m (near.factor + 1) b (omega arith) in
    (near.factor, (rw near.value (ground (arith, left, right)), (low, high)))

-- For a positive `multipleof`: between a multiple and the next one, no candidate is inserted.
candidate_between-none :
    (a m : ℕ) → 0 < m → candidate_between (pos (a * m)) (pos ((a + 1) * m)) m ≡ none
unfolding candidate_between
candidate_between-none a m h =
    let near = new_int_par-Nearest a (a + 1) m h in
    rw near.value (elim (dec_lt a near.factor) [
      | yes t ↦
          let last : near.factor ≡ a + 1 = elim (dec_lt (a + 1) near.factor) [
            | yes u ↦ absurd (omega (arith, near.above, mul_le m (a + 2) near.factor (omega arith)))
            | no u ↦ omega arith
          ] in
          rw last (ground arith)
      | no t ↦
          let first : near.factor ≡ a = elim (dec_lt near.factor a) [
            | yes u ↦ absurd (omega (arith, near.below, mul_le m (near.factor + 1) a (omega arith)))
            | no u ↦ omega arith
          ] in
          rw first (ground arith)
    ])
