-- ===== src/Measurement/Loop/Rounds.antt =====
-- What one round of the measurement loop does.
use ska_mpi.Prelude.{
  ℕ, zero, suc, ◌+◌, ◌*◌, ◌≤◌, ◌<◌, ◌≡◌, refl, sym, ap, ◌∙◌, Bool, true, false, leb, ◌==◌, if_elim,
  arith, ℕ_discrete,
}
use ska_mpi.Prelude.Doubles.{Doubles}
use ska_mpi.Arith.{imax2, imin2}
use ska_mpi.Measurement.{get_number_flawed_measurements}
use ska_mpi.Measurement.Batch.{Batch, hard_limit, start_batch, update_batch}
use ska_mpi.Measurement.Compact.{window, number_valid, move_up-MovesUp}
use ska_mpi.Measurement.Flawed.{get_number_flawed_measurements_lem}
use ska_mpi.Measurement.Statistics.{Column, update_std_error}
use ska_mpi.Measurement.Loop.{
  Settings, Report, Progress, Reports, gather, keep_valid, keep, ask, run_batch, round,
}

number_valid-le : (g : ℕ → ℕ) (i n : ℕ) → number_valid (window ℕ g i n) ≤ n
unfolding number_valid window
number_valid-le g i zero = omega arith
number_valid-le g i (suc n) =
    let r = number_valid-le g (suc i) n in
    if_elim (λ v. v ≤ suc n) (g i == 0) (λ _. omega arith) (λ _. omega arith)

number_valid-positive :
    (g : ℕ → ℕ) (k i n : ℕ) → i ≤ k → k < i + n → g k ≡ 0 → 0 < number_valid (window ℕ g i n)
unfolding number_valid window
number_valid-positive g k i zero h l e = absurd (omega arith)
number_valid-positive g k i (suc n) h l e = elim (ℕ_discrete k i) [
  | yes same ↦ let t : (g i == 0) ≡ true = rw (sym same, e) refl in rw t (omega arith)
  | no other ↦
      let r = number_valid-positive g k (suc i) n (omega arith) (omega arith) e in
      if_elim (λ v. 0 < v) (g i == 0) (λ _. omega arith) (λ _. r)
]

module _ (d : Doubles) (c : Settings d) where
  pub gather-below :
      (start n j : ℕ) (new all : ℕ → Column d) → j < start → gather d c start n new all j ≡ all j
  unfolding gather
  gather-below start n j new all h = let t : leb start j ≡ false = ground arith in rw t refl

  -- A report in which all processes flag some measurement of the batch as valid.
  abbrev pub IsProductive : ℕ → Report d → Type 0
  IsProductive n r = (i : ℕ) × ((i < n) × ((p : ℕ) → p < c.size → r.global_invalid (p * n + i) ≡ 0))

  -- What is kept of a batch of `n` results behind the first `start`.
  pub record Keeps (start n : ℕ) (p p' : Progress d) : Type 0 where
    pub grows : start ≤ p'.result_index
    pub fits : p'.result_index ≤ start + n
    pub older : (j : ℕ) → j < start → p'.all_results j ≡ p.all_results j
    pub same : p'.statistics ≡ p.statistics

  pub keep_valid-Keeps :
      (r : Report d) (start n : ℕ) (p : Progress d) → Keeps start n p (keep_valid d c r start n p)
  unfolding keep_valid
  keep_valid-Keeps r start n p =
      let (k, g) = get_number_flawed_measurements n c.size r.global_invalid in
      let m = move_up-MovesUp (Column d) (window ℕ g 0 n) start p.all_results in
      let l = number_valid-le g 0 n in
      let e = m.counted in
      record { grows = omega arith; fits = omega arith; older = m.below; same = refl }

  keep_valid-forward :
      (r : Report d) (start n : ℕ) (p : Progress d)
      → 0 < c.size
      → IsProductive n r
      → start < (keep_valid d c r start n p).result_index
  unfolding keep_valid
  keep_valid-forward r start n p h (i, (l, z)) =
      let (k, g) = get_number_flawed_measurements n c.size r.global_invalid in
      let m = move_up-MovesUp (Column d) (window ℕ g 0 n) start p.all_results in
      let e = m.counted in
      let v = number_valid-positive g i 0 n (omega arith) (omega arith) (
        (get_number_flawed_measurements_lem n c.size h (Column d) r.global_invalid start
            p.all_results i l).0.1
          z) in
      omega arith

  -- Each batch with windows has a measurement that is valid on all processes.
  abbrev pub AreProductive : Reports d → Type 0
  AreProductive reports =
      c.sync_real ≡ true
      → (p : Progress d) → 0 < p.batch.max_counter
      → IsProductive p.batch.max_counter (reports p)

  -- What is needed in front of a round, and what is known behind it.
  pub record IsReady (p : Progress d) : Type 0 where
    pub more : 0 < p.batch.max_counter
    pub early : p.result_index < c.max_repetitions

  pub record Advances (p p' : Progress d) : Type 0 where
    pub forward : p.result_index < p'.result_index
    pub fits : p'.result_index ≤ hard_limit c.max_repetitions
    pub more : 0 < p'.batch.max_counter
    pub older : (j : ℕ) → j < p.result_index → p'.all_results j ≡ p.all_results j
    pub summed :
        p'.statistics
        ≡ update_std_error d c.size p'.all_results p.result_index p'.result_index p.statistics

  -- The size of the next batch.
  abbrev size_of : Progress d → ℕ
  size_of p = (start_batch (hard_limit c.max_repetitions) p.result_index p.batch).max_counter

  size_of-fits :
      (p : Progress d)
      → IsReady p
      → (0 < size_of p) × (p.result_index + size_of p ≤ hard_limit c.max_repetitions)
  unfolding start_batch hard_limit imax2 imin2
  size_of-fits p r = let m = r.more in let e = r.early in ground arith

  update_batch-more :
      (real : Bool) (run : ℕ) (b : Batch)
      → 0 < c.min_repetitions
      → 0 < b.max_counter
      → 0 < (update_batch real c.min_repetitions run b).max_counter
  unfolding update_batch imax2
  update_batch-more real run b h k = ground arith

  pub keep-Keeps :
      (r : Report d) (start n : ℕ) (p : Progress d) → Keeps start n p (keep d c r start n p)
  unfolding keep
  keep-Keeps r start n p =
      if_elim (Keeps start n p) c.sync_real (λ _. keep_valid-Keeps r start n p)
        (λ _. record { grows = omega arith; fits = omega arith; older = λ j h. refl; same = refl })

  keep-forward :
      (r : Report d) (start n : ℕ) (p : Progress d)
      → 0 < c.size
      → 0 < n
      → (c.sync_real ≡ true → IsProductive n r)
      → start < (keep d c r start n p).result_index
  unfolding keep
  keep-forward r start n p h k productive =
      if_elim (λ (p : Progress d). start < p.result_index) c.sync_real
        (λ e. keep_valid-forward r start n p h (productive e)) (λ _. omega arith)

  keep-more :
      (r : Report d) (start n : ℕ) (p : Progress d)
      → 0 < c.min_repetitions
      → 0 < p.batch.max_counter
      → 0 < (keep d c r start n p).batch.max_counter
  unfolding keep keep_valid
  keep-more r start n p h k =
      if_elim (λ (p : Progress d). 0 < p.batch.max_counter) c.sync_real
        (λ _. update_batch-more true _ p.batch h k) (λ _. update_batch-more false 0 p.batch h k)

  run_batch-Advances :
      (r : Report d) (p : Progress d)
      → 0 < c.size
      → 0 < c.min_repetitions
      → 0 < p.batch.max_counter
      → p.result_index + p.batch.max_counter ≤ hard_limit c.max_repetitions
      → (c.sync_real ≡ true → IsProductive p.batch.max_counter r)
      → Advances p (run_batch d c r p)
  unfolding run_batch
  run_batch-Advances r p h k more room productive =
      let start = p.result_index in
      let n = p.batch.max_counter in
      let p₁ : Progress d = record p { all_results = gather d c start n r.results p.all_results } in
      let kept = keep-Keeps r start n p₁ in
      let f = kept.fits in
      record {
        forward = keep-forward r start n p₁ h more productive;
        fits = omega arith;
        more = keep-more r start n p₁ k more;
        older = λ j l. kept.older j l ∙ gather-below start n j r.results p.all_results l;
        summed =
            ap
              (update_std_error d c.size (keep d c r start n p₁).all_results start
                (keep d c r start n p₁).result_index)
              kept.same;
      }

  pub round-Advances :
      (reports : Reports d) (p : Progress d)
      → 0 < c.size
      → 0 < c.min_repetitions
      → AreProductive reports
      → IsReady p
      → Advances p (round d c reports p)
  unfolding round ask
  round-Advances reports p h k productive ready =
      let (a, b) = size_of-fits p ready in
      let asked : Progress d = record p {
        batch = start_batch (hard_limit c.max_repetitions) p.result_index p.batch;
      } in
      let v = run_batch-Advances (reports asked) asked h k a b (λ e. productive e asked a) in
      record {
        forward = v.forward;
        fits = v.fits;
        more = v.more;
        older = v.older;
        summed = v.summed;
      }
