-- ===== src/Measurement/Statistics/Trimmed.antt =====
-- The final results leave out the smallest and the largest quarter.
use mathlib.Core.List.{Perm}
use ska_mpi.Prelude.{
  ℕ, ◌+◌, ◌-◌, ◌/◌, ◌≡◌, refl, sym, subst, ap, ◌∙◌, false, List, [], ◌∷◌, ◌++◌, arith, length, take,
  drop, take-append-drop, length-take, length-drop,
}
use ska_mpi.Prelude.Doubles.{Doubles}
use ska_mpi.Measurement.Statistics.{
  Column, Statistics, of_nat, fsqr, error_of, sum_at, upto_from, Final, extract_final_results,
}

module _ (d : Doubles) where
  open d use {Double, div, less}

  module _ (f : ℕ → Double) where
    -- No value at the indices is less than `v`.
    abbrev pub NoneLess : Double → List ℕ → Type 0
    NoneLess v [] = Unit
    NoneLess v (i ∷ is) = (less (f i) v ≡ false) × NoneLess v is

    abbrev pub AllBefore : List ℕ → List ℕ → Type 0
    AllBefore [] js = Unit
    AllBefore (i ∷ is) js = NoneLess (f i) js × AllBefore is js

    abbrev pub IsSorted : List ℕ → Type 0
    IsSorted [] = Unit
    IsSorted (i ∷ is) = NoneLess (f i) is × IsSorted is

    NoneLess-split :
        (v : Double) (is js : List ℕ) → NoneLess v (is ++ js) → NoneLess v is × NoneLess v js
    NoneLess-split v [] js h = (tt, h)
    NoneLess-split v (i ∷ is) js (h, hs) = let (a, b) = NoneLess-split v is js hs in ((h, a), b)

    IsSorted-split : (is js : List ℕ) → IsSorted (is ++ js) → AllBefore is js × IsSorted js
    IsSorted-split [] js h = (tt, h)
    IsSorted-split (i ∷ is) js (h, hs) =
        let (a, b) = NoneLess-split (f i) is js h in
        let (c, e) = IsSorted-split is js hs in ((b, c), e)

    AllBefore-left : (is js ks : List ℕ) → AllBefore is (js ++ ks) → AllBefore is js
    AllBefore-left [] js ks h = tt
    AllBefore-left (i ∷ is) js ks (h, hs) =
        ((NoneLess-split (f i) js ks h).0, AllBefore-left is js ks hs)

  -- The results, those of the statistics and those for each process, are means over the measurements `kept`. The
  -- others are a quarter that is not larger and a quarter that is not smaller.
  pub record IsTrimmed (all : ℕ → Column d) (n : ℕ) (s : Statistics d) (r : Final d) : Type 0 where
    pub low : List ℕ
    pub kept : List ℕ
    pub high : List ℕ
    pub parts : Perm (low ++ (kept ++ high)) (upto_from d 0 n)
    pub quarters : (length low ≡ n / 4) × (length high ≡ n / 4)
    pub rest : length kept + length low + length high ≡ n
    pub not_larger : AllBefore s.max_results low kept
    pub not_smaller : AllBefore s.max_results kept high
    pub mean : r.final_result ≡ div (sum_at d s.max_results kept d.zero) (of_nat d (length kept))
    pub means :
        (p : ℕ)
        → r.final_results p ≡ div (sum_at d (λ i. all i p) kept d.zero) (of_nat d (length kept))
    pub error :
        r.statistics.std_error
        ≡ error_of d
            (sum_at d s.max_results kept d.zero)
            (sum_at d (λ i. fsqr d (s.max_results i)) kept d.zero)
            (length kept)

  -- When qsort reorders the indices of the results so that none has a smaller result than one before it:
  -- extract_final_results divides them into a quarter with the smallest results, a quarter with the largest
  -- ones, and those between, and its results are the means over those between and their standard error, each
  -- divided by the right number.
  pub extract_final_results-IsTrimmed :
      (qsort : (ℕ → Double) → List ℕ → List ℕ) (all : ℕ → Column d) (n : ℕ) (s : Statistics d)
      → Perm (qsort s.max_results (upto_from d 0 n)) (upto_from d 0 n)
      → length (qsort s.max_results (upto_from d 0 n)) ≡ n
      → IsSorted s.max_results (qsort s.max_results (upto_from d 0 n))
      → IsTrimmed all n s (extract_final_results d qsort all n s)
  unfolding extract_final_results
  extract_final_results-IsTrimmed qsort all n s p l h =
      let is = qsort s.max_results (upto_from d 0 n) in
      let q = n / 4 in
      let k = n - q - q in
      let low = take q is in
      let kept = take k (drop q is) in
      let high = drop k (drop q is) in
      let e : low ++ (kept ++ high) ≡ is =
        ap (λ r. low ++ r) (take-append-drop k (drop q is)) ∙ take-append-drop q is in
      let (a, b) =
        IsSorted-split s.max_results low (kept ++ high)
          (subst (IsSorted s.max_results) (sym e) h) in
      let (a', b') = IsSorted-split s.max_results kept high b in
      let ll : length low ≡ q = length-take q is ∙ omega (arith, l) in
      let ld : length (drop q is) ≡ n - q = length-drop q is ∙ omega (arith, l) in
      let lk : length kept ≡ k = length-take k (drop q is) ∙ omega (arith, ld) in
      let lh : length high ≡ q = length-drop k (drop q is) ∙ omega (arith, ld) in
      record {
        low = low;
        kept = kept;
        high = high;
        parts = subst (λ r. Perm r (upto_from d 0 n)) (sym e) p;
        quarters = (ll, lh);
        rest = omega arith;
        not_larger = AllBefore-left s.max_results low kept high a;
        not_smaller = a';
        mean = rw lk refl;
        means = λ p. rw lk refl;
        error = rw lk refl;
      }
