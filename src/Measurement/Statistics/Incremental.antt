-- ===== src/Measurement/Statistics/Incremental.antt =====
-- The sums that grow with each batch are those of all results.
use ska_mpi.Prelude.{ℕ, zero, suc, ◌+◌, ◌-◌, ◌≤◌, ◌<◌, ◌≡◌, refl, sym, ap, subst, ◌∙◌, arith}
use ska_mpi.Prelude.Doubles.{Doubles}
use ska_mpi.Measurement.Statistics.{Column, Statistics, add_results, update_std_error}

module _ (d : Doubles) (size : ℕ) where
  -- Two arrays with the same columns in the range.
  pub add_results-same :
      (all all' : ℕ → Column d) (i rest : ℕ) (s : Statistics d)
      → ((j : ℕ) → j < i + rest → all' j ≡ all j)
      → add_results d size all' i rest s ≡ add_results d size all i rest s
  unfolding add_results
  add_results-same all all' i zero s e = refl
  add_results-same all all' i (suc rest) s e =
      rw (e i (omega arith)) (add_results-same all all' (suc i) rest _ (λ j h. e j (omega arith)))

  -- Two ranges, one behind the other.
  pub add_results-append :
      (all : ℕ → Column d) (i m rest : ℕ) (s : Statistics d)
      → add_results d size all (i + m) rest (add_results d size all i m s)
        ≡ add_results d size all i (m + rest) s
  unfolding add_results
  add_results-append all i zero rest s =
      let e : i + 0 ≡ i = omega arith in let e' : 0 + rest ≡ rest = omega arith in rw (e, e') refl
  add_results-append all i (suc m) rest s =
      let e : i + suc m ≡ suc i + m = omega arith in
      let e' : suc m + rest ≡ suc (m + rest) = omega arith in
      rw (e, e') (add_results-append all (suc i) m rest _)

  -- The sums of a state, with the mean and the error of another one.
  abbrev pub with_sums : Statistics d → Statistics d → Statistics d
  with_sums sums s = record s {
    max_results = sums.max_results;
    sum_of_results = sums.sum_of_results;
    sum_of_squares = sums.sum_of_squares;
  }

  add_results-with_sums :
      (all : ℕ → Column d) (i rest : ℕ) (s t : Statistics d)
      → add_results d size all i rest (with_sums s t)
        ≡ with_sums (add_results d size all i rest s) t
  unfolding add_results
  add_results-with_sums all i zero s t = refl
  add_results-with_sums all i (suc rest) s t = add_results-with_sums all (suc i) rest _ t

  -- The sums of a state are those of the first `n` results, on top of those of `start`.
  abbrev pub IsSummed : (ℕ → Column d) → ℕ → Statistics d → Statistics d → Type 0
  IsSummed all n start s = s ≡ with_sums (add_results d size all 0 n start) s

  pub IsSummed-same :
      (all all' : ℕ → Column d) (n : ℕ) (start s : Statistics d)
      → ((j : ℕ) → j < n → all' j ≡ all j)
      → IsSummed all n start s
      → IsSummed all' n start s
  IsSummed-same all all' n start s e h =
      h
      ∙ ap (λ sums. with_sums sums s)
          (sym (add_results-same all all' 0 n start (λ j k. e j (omega arith))))

  -- An update with the results behind the first `a` is the update with all of them.
  pub update_std_error-IsSummed :
      (all : ℕ → Column d) (a n : ℕ) (start s : Statistics d)
      → a ≤ n
      → IsSummed all a start s
      → update_std_error d size all a n s ≡ update_std_error d size all 0 n start
  unfolding update_std_error
  update_std_error-IsSummed all a n start s h e =
      let sums = add_results d size all 0 a start in
      let joined : add_results d size all a (n - a) sums ≡ add_results d size all 0 n start =
        let z : 0 + a ≡ a = omega arith in
        let t : a + (n - a) ≡ n = omega arith in
        subst (λ k. add_results d size all k (n - a) sums ≡ add_results d size all 0 n start) z
          (add_results-append all 0 a (n - a) start
            ∙ ap (λ k. add_results d size all 0 k start) t) in
      let grown : add_results d size all a (n - a) s
          ≡ with_sums (add_results d size all 0 n start) s =
        ap (add_results d size all a (n - a)) e
        ∙ add_results-with_sums all a (n - a) sums s
        ∙ ap (λ t. with_sums t s) joined in
      let z : n - 0 ≡ n = omega arith in rw (grown, z) refl

  pub updated-IsSummed :
      (all : ℕ → Column d) (n : ℕ) (start : Statistics d)
      → IsSummed all n start (update_std_error d size all 0 n start)
  unfolding update_std_error
  updated-IsSummed all n start = let z : n - 0 ≡ n = omega arith in rw z refl

  pub IsSummed-zero : (all : ℕ → Column d) (start : Statistics d) → IsSummed all 0 start start
  unfolding add_results
  IsSummed-zero all start = refl
