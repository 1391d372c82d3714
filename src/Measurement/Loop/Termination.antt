-- ===== src/Measurement/Loop/Termination.antt =====
-- The measurement loop ends, with statistics of all its results.
use ska_mpi.Prelude.{
  ◌⊎◌, inl, inr, dec_lt, ℕ, zero, suc, ◌+◌, ◌≤◌, ◌<◌, ◌≡◌, refl, sym, subst, ◌∙◌, Bool, true, false,
  ◌||◌, ◌&&◌, Option, none, some, leb, arith,
}
use ska_mpi.Prelude.Doubles.{Doubles}
use ska_mpi.Measurement.Batch.{hard_limit}
use ska_mpi.Measurement.Statistics.{Statistics, update_std_error, reset_sums}
use ska_mpi.Measurement.Statistics.Incremental.{
  IsSummed, IsSummed-same, update_std_error-IsSummed, updated-IsSummed, IsSummed-zero,
}
use ska_mpi.Measurement.Loop.{
  Settings, Progress, Reports, begin, round, rounds, stop, is_precise, measurement_loop,
}
use ska_mpi.Measurement.Loop.Rounds.{AreProductive, IsReady, Advances, round-Advances}

module _ (d : Doubles) (c : Settings d) (reports : Reports d) where
  -- The state behind the loop.
  pub record IsDone (start : Statistics d) (p : Progress d) : Type 0 where
    pub enough :
        (c.max_repetitions ≤ p.result_index)
        ⊎ ((c.min_repetitions ≤ p.result_index) × (is_precise d c p.statistics ≡ true))
    pub fits : p.result_index ≤ hard_limit c.max_repetitions
    pub summed : p.statistics ≡ update_std_error d c.size p.all_results 0 p.result_index start

  abbrev pub Ends : (Progress d → Type 0) → Option (Progress d) → Type 0
  Ends P none = ⊥
  Ends P (some p) = P p

  Ends-case :
      (P : Progress d → Type 0) (b : Bool) (x : Progress d) (y : Option (Progress d))
      → (b ≡ true → P x)
      → (b ≡ false → Ends P y)
      → Ends P (elim b [ true ↦ some x | false ↦ y ])
  Ends-case P true x y f g = f refl
  Ends-case P false x y f g = g refl

  or-split : (a b : Bool) → (a || b) ≡ true → (a ≡ true) ⊎ (b ≡ true)
  or-split true b h = inl refl
  or-split false b h = inr h

  and-split : (a b : Bool) → (a && b) ≡ true → (a ≡ true) × (b ≡ true)
  and-split true b h = (refl, h)
  and-split false b h = cc

  stop-enough :
      (p : Progress d)
      → stop d c p ≡ true
      → (c.max_repetitions ≤ p.result_index)
        ⊎ ((c.min_repetitions ≤ p.result_index) × (is_precise d c p.statistics ≡ true))
  unfolding stop
  stop-enough p h = elim (or-split (leb c.max_repetitions p.result_index) _ h) [
    | inl a ↦ inl (ground arith)
    | inr b ↦
        let (e, f) = and-split (leb c.min_repetitions p.result_index) _ b in inr (ground arith, f)
  ]

  go_on-early : (p : Progress d) → stop d c p ≡ false → p.result_index < c.max_repetitions
  unfolding stop
  go_on-early p h = elim (dec_lt p.result_index c.max_repetitions) [
    | yes l ↦ l
    | no n ↦
        let t : leb c.max_repetitions p.result_index ≡ true = ground arith in
        let u : (true || leb c.min_repetitions p.result_index && is_precise d c p.statistics)
            ≡ false =
          subst
            (λ b.
              (b || leb c.min_repetitions p.result_index && is_precise d c p.statistics) ≡ false)
            t h in
        cc
  ]

  Advances-summed :
      (start : Statistics d) (p p' : Progress d)
      → Advances d c p p'
      → IsSummed d c.size p.all_results p.result_index start p.statistics
      → p'.statistics ≡ update_std_error d c.size p'.all_results 0 p'.result_index start
  Advances-summed start p p' a e =
      let f = a.forward in
      a.summed
      ∙ update_std_error-IsSummed d c.size p'.all_results p.result_index p'.result_index start
          p.statistics (omega arith)
          (IsSummed-same d c.size p.all_results p'.all_results p.result_index start p.statistics
            a.older e)

  module _ (h : 0 < c.size) (k : 0 < c.min_repetitions)
      (productive : AreProductive d c reports) where
    rounds-Ends :
        (fuel : ℕ) (start : Statistics d) (p : Progress d)
        → IsReady d c p
        → c.max_repetitions ≤ p.result_index + fuel
        → IsSummed d c.size p.all_results p.result_index start p.statistics
        → Ends (IsDone start) (rounds d c fuel reports p)
    unfolding rounds
    rounds-Ends zero start p ready l e = let a = ready.early in absurd (omega arith)
    rounds-Ends (suc fuel) start p ready l e =
        let p' = round d c reports p in
        let a = round-Advances d c reports p h k productive ready in
        let f = a.forward in
        let s = Advances-summed start p p' a e in
        Ends-case (IsDone start) (stop d c p') p' (rounds d c fuel reports p')
          (λ t. record { enough = stop-enough p' t; fits = a.fits; summed = s })
          (λ t.
            rounds-Ends fuel start p' (record { more = a.more; early = go_on-early p' t })
              (omega arith)
              (subst (IsSummed d c.size p'.all_results p'.result_index start) (sym s)
                (updated-IsSummed d c.size p'.all_results p'.result_index start)))

    -- For at least one process and one repetition, `min_repetitions` at most `max_repetitions`, a first batch
    -- that is not empty, batches of which each has a measurement that all processes flag as valid when
    -- windows of time are kept, and fuel for `max_repetitions` batches: no assertion fails, and the loop
    -- ends after at most `max_repetitions` batches. It has the maximal number of results, or the minimal one
    -- and a small enough error; they fit into the arrays; and the mean, its error and the sums behind
    -- them, which grow with each batch, are those that one pass over all kept results gives.
    pub measurement_loop-Ends :
        (fuel : ℕ) (p : Progress d)
        → c.min_repetitions ≤ c.max_repetitions
        → 0 < p.batch.max_counter
        → c.max_repetitions ≤ fuel
        → Ends (IsDone (reset_sums d p.statistics)) (measurement_loop d c fuel reports p)
    unfolding measurement_loop
    measurement_loop-Ends fuel p l m f =
        let t : leb c.min_repetitions c.max_repetitions ≡ true = ground arith in
        rw t (
          rounds-Ends fuel (reset_sums d p.statistics) (begin d c p)
            (record { more = m; early = omega arith }) (omega arith)
            (IsSummed-zero d c.size p.all_results (reset_sums d p.statistics)))
