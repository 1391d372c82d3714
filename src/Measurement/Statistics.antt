-- ===== src/Measurement/Statistics.antt =====
-- src/measurement.c: the mean of the results and its standard error, as they grow with each batch, and the
-- final results.
pub mod Incremental
pub mod Trimmed
mod Tests
use ska_mpi.Prelude.{
  ℕ, zero, suc, ◌+◌, ◌-◌, ◌*◌, ◌/◌, Bool, List, [], ◌∷◌, map, take, drop, if◌then◌else◌,
}
use ska_mpi.Prelude.Int.{pos}
use ska_mpi.Prelude.Doubles.{Doubles}
use ska_mpi.Measurement.{put}

module _ (d : Doubles) where
  open d use {Double, add, sub, mult, div, fabs, sqrt, less, of_int}

  abbrev pub of_nat : ℕ → Double
  of_nat n = of_int (pos n)

  -- `fmax2` and `fsqr` of src/misc.c
  unfoldable pub fmax2 : Double → Double → Double
  fmax2 a b = if less b a then a else b

  unfoldable pub fsqr : Double → Double
  fsqr a = mult a a

  -- The results of the processes for one measurement.
  abbrev pub Column : Type 0
  Column = ℕ → Double

  -- The file variables of the statistics.
  pub record Statistics : Type 0 where
    pub max_results : ℕ → Double
    pub sum_of_results : Double
    pub sum_of_squares : Double
    pub mean_value : Double
    pub std_error : Double

  -- The largest result of `rest` processes from `p` on.
  unfoldable pub max_result : Column → (p rest : ℕ) → Double → Double
  max_result column p zero m = m
  max_result column p (suc rest) m = max_result column (suc p) rest (fmax2 m (column p))

  -- The loop over `rest` columns from `i` on.
  unfoldable pub add_results : (size : ℕ) → (ℕ → Column) → (i rest : ℕ) → Statistics → Statistics
  add_results size all i zero s = s
  add_results size all i (suc rest) s =
      let m = max_result (all i) 0 size d.zero in
      add_results size all (suc i) rest (record s {
        max_results = put i m s.max_results;
        sum_of_results = add s.sum_of_results m;
        sum_of_squares = add s.sum_of_squares (fsqr m);
      })

  -- The standard error of the mean of `n` values.
  unfoldable pub error_of : (sum squares : Double) → ℕ → Double
  error_of sum squares n =
      sqrt (div (fabs (sub squares (div (fsqr sum) (of_nat n)))) (of_nat (n * (n - 1))))

  unfoldable pub update_std_error : (size : ℕ) → (ℕ → Column) → (a n : ℕ) → Statistics → Statistics
  update_std_error size all a n s =
      let s = add_results size all a (n - a) s in
      record s {
        mean_value = div s.sum_of_results (of_nat n);
        std_error = error_of s.sum_of_results s.sum_of_squares n;
      }

  -- `sum_of_results = 0.0; sum_of_squares = 0.0;` in front of the loop; the rest is as it was.
  abbrev pub reset_sums : Statistics → Statistics
  reset_sums s = record s { sum_of_results = d.zero; sum_of_squares = d.zero }

  -- What is at some indices, added from the left.
  unfoldable pub sum_at : (ℕ → Double) → List ℕ → Double → Double
  sum_at f [] acc = acc
  sum_at f (i ∷ is) acc = sum_at f is (add acc (f i))

  abbrev pub upto_from : (i rest : ℕ) → List ℕ
  upto_from i zero = []
  upto_from i (suc rest) = i ∷ upto_from (suc i) rest

  -- The indices `n/4` to `n - n/4 - 1` of the sorted ones.
  abbrev pub middle : ℕ → List ℕ → List ℕ
  middle n indices = take (n - n / 4 - n / 4) (drop (n / 4) indices)

  pub record Final : Type 0 where
    pub final_results : Column
    pub final_result : Double
    pub statistics : Statistics

  -- `qsort` gets the values by which it sorts the indices.
  unfoldable pub extract_final_results :
      ((ℕ → Double) → List ℕ → List ℕ) → (ℕ → Column) → (n : ℕ) → Statistics → Final
  extract_final_results qsort all n s =
      let k = n - n / 4 - n / 4 in
      let kept = middle n (qsort s.max_results (upto_from 0 n)) in
      let sum = sum_at s.max_results kept d.zero in
      let squares = sum_at (λ i. fsqr (s.max_results i)) kept d.zero in
      record {
        final_results = λ p. div (sum_at (λ i. all i p) kept d.zero) (of_nat k);
        final_result = div sum (of_nat k);
        statistics = record s {
          sum_of_results = sum;
          sum_of_squares = squares;
          std_error = error_of sum squares k;
        };
      }
