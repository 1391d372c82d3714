-- ===== src/Measurement/Runs.antt =====
-- Late measurements in a row, and the quantiles.
use native.Mathlib.Nat.{div-lt_iff_lt-mul, le-div_iff_mul-le, div-mul-le_self}
use ska_mpi.Align.Least.{mul_le}
use ska_mpi.Prelude.{
  ℕ, suc, ◌+◌, ◌-◌, ◌*◌, ◌/◌, ◌≤◌, ◌<◌, List, [], ◌∷◌, ◌++◌, ◌==◌, arith, if_elim, length, sym,
  subst, inl, inr,
}
use ska_mpi.Arith.{imax2}
use ska_mpi.Measurement.{
  run_of, longest_from, get_longest_run, invalid_started_late, quantile_index,
}
use ska_mpi.Measurement.Longest.{
  NoneValid, number_late, HasStretch, no_late, longest_from-HasStretch,
}

pub imax2-ge : (a b : ℕ) → (a ≤ imax2 a b) × (b ≤ imax2 a b)
unfolding imax2
imax2-ge a b = ground arith

imax2-le : (a b n : ℕ) → a ≤ n → b ≤ n → imax2 a b ≤ n
unfolding imax2
imax2-le a b n h k = ground arith

run_of-ge : (flags : List ℕ) (l r : ℕ) → (l ≤ run_of flags l r) × (r ≤ run_of flags l r)
unfolding run_of imax2
run_of-ge [] l r = ground arith
run_of-ge (flag ∷ flags) l r =
    let P = λ (n : ℕ). (l ≤ n) × (r ≤ n) in
    let (al, ar) = imax2-ge l r in
    let (vl, vr) = run_of-ge flags (imax2 l r) 0 in
    let (sl, sr) = run_of-ge flags l (suc r) in
    if_elim P (flag == 0) (λ _. (omega arith, omega arith))
      (λ _.
        if_elim P (flag == invalid_started_late) (λ _. (sl, omega arith))
          (λ _. run_of-ge flags l r))

run_of-stretch :
    (stretch rest : List ℕ) (l r : ℕ)
    → NoneValid stretch
    → r + number_late stretch ≤ run_of (stretch ++ rest) l r
unfolding run_of number_late
run_of-stretch [] rest l r n = omega (arith, (run_of-ge rest l r).1)
run_of-stretch (flag ∷ stretch) rest l r n =
    let late = run_of-stretch stretch rest l (suc r) n.1 in
    let other = run_of-stretch stretch rest l r n.1 in rw n.0 (ground (arith, late, other))

run_of-inside :
    (before stretch rest : List ℕ) (l r : ℕ)
    → NoneValid stretch
    → number_late stretch ≤ run_of (before ++ stretch ++ rest) l r
unfolding run_of
run_of-inside [] stretch rest l r n = omega (arith, run_of-stretch stretch rest l r n)
run_of-inside (flag ∷ before) stretch rest l r n =
    let P = λ (k : ℕ). number_late stretch ≤ k in
    if_elim P (flag == 0) (λ _. run_of-inside before stretch rest (imax2 l r) 0 n)
      (λ _.
        if_elim P (flag == invalid_started_late)
          (λ _. run_of-inside before stretch rest l (suc r) n)
          (λ _. run_of-inside before stretch rest l r n))

longest_from-ge : (ps : List (List ℕ)) (l : ℕ) → l ≤ longest_from ps l
unfolding longest_from
longest_from-ge [] l = omega arith
longest_from-ge (p ∷ ps) l = omega (arith, longest_from-ge ps (run_of p l 0), (run_of-ge p l 0).0)

longest_from-inside :
    (ps qs : List (List ℕ)) (before stretch rest : List ℕ) (l : ℕ)
    → NoneValid stretch
    → number_late stretch ≤ longest_from (ps ++ (before ++ stretch ++ rest) ∷ qs) l
unfolding longest_from
longest_from-inside [] qs before stretch rest l n =
    let p = before ++ stretch ++ rest in
    omega (arith, longest_from-ge qs (run_of p l 0), run_of-inside before stretch rest l 0 n)
longest_from-inside (p ∷ ps) qs before stretch rest l n =
    longest_from-inside ps qs before stretch rest (run_of p l 0) n

run_of-le : (flags : List ℕ) (l r n : ℕ) → l ≤ n → r + length flags ≤ n → run_of flags l r ≤ n
unfolding run_of imax2
run_of-le [] l r n h k = ground arith
run_of-le (flag ∷ flags) l r n h k =
    let P = λ (m : ℕ). m ≤ n in
    if_elim P (flag == 0)
      (λ _. run_of-le flags (imax2 l r) 0 n (imax2-le l r n h (omega arith)) (omega arith))
      (λ _.
        if_elim P (flag == invalid_started_late) (λ _. run_of-le flags l (suc r) n h (omega arith))
          (λ _. run_of-le flags l r n h (omega arith)))

-- Each process has flags for at most `max_counter` measurements.
abbrev pub AllWithin : ℕ → List (List ℕ) → Type 0
AllWithin n [] = Unit
AllWithin n (p ∷ ps) = (length p ≤ n) × AllWithin n ps

longest_from-le :
    (n : ℕ) (ps : List (List ℕ)) (l : ℕ) → l ≤ n → AllWithin n ps → longest_from ps l ≤ n
unfolding longest_from
longest_from-le n [] l h a = h
longest_from-le n (p ∷ ps) l h a =
    longest_from-le n ps (run_of p l 0) (run_of-le p l 0 n h (omega (arith, a.0))) a.1

-- For flags of at least one process, none with more than `max_counter`: the number that `get_longest_run`
-- gives is the largest number of late measurements in a stretch of one process's flags without a valid
-- measurement. No such stretch has more, some stretch has as many, and it is at most `max_counter`.
pub get_longest_run_lem :
    (max_counter : ℕ) (ps qs : List (List ℕ)) (before stretch rest : List ℕ)
    → NoneValid stretch
    → AllWithin max_counter (ps ++ (before ++ stretch ++ rest) ∷ qs)
    → let all = ps ++ (before ++ stretch ++ rest) ∷ qs in
      let n = get_longest_run all in
      (number_late stretch ≤ n) × (n ≤ max_counter) × HasStretch all n
unfolding get_longest_run
get_longest_run_lem max_counter ps qs before stretch rest n a =
    let all = ps ++ (before ++ stretch ++ rest) ∷ qs in
    (
      longest_from-inside ps qs before stretch rest 0 n,
      longest_from-le max_counter all 0 (omega arith) a,
      elim (longest_from-HasStretch all 0) [
        | inr h ↦ h
        | inl e ↦ subst (HasStretch all) (sym e) (no_late ps qs (before ++ stretch ++ rest))
      ],
    )

quantile-lt : (ms d p : ℕ) → 0 < ms → p < d → ms * p / d < ms
quantile-lt ms d p h k =
    (div-lt_iff_lt-mul (omega arith)).1 (omega (arith, mul_le ms (p + 1) d (omega arith)))

quantile-le : (ms d p q : ℕ) → 0 < d → p ≤ q → ms * p / d ≤ ms * q / d
quantile-le ms d p q h k =
    (le-div_iff_mul-le h).1 (omega (arith, div-mul-le_self (ms * p) d, mul_le ms p q k))

-- For at least one process, `extract_quantiles` reads only inside of the sorted results, for every
-- quantile, and a later quantile never from a lower index.
pub quantile_index_lem :
    (ms max_nr_node_times p q : ℕ)
    → 0 < ms
    → p ≤ q
    → let i = quantile_index ms max_nr_node_times in (i p ≤ i q) × (i q < ms)
unfolding quantile_index
quantile_index_lem ms n p q h k =
    let before = λ (t : q < n - 1). quantile-lt ms (n - 1) q h t in
    let order = λ (t : q < n - 1). quantile-le ms (n - 1) p q (omega (arith, t)) k in
    let lower = λ (t : p < n - 1). quantile-lt ms (n - 1) p h t in
    ground (arith, before, order, lower, half)
  where
    half : ms / 2 < ms
    half = omega arith
