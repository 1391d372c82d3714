-- ===== src/Measurement/Compact.antt =====
-- The valid results of a batch.
use ska_mpi.Prelude.{
  ℕ, zero, suc, ◌+◌, ◌≤◌, ◌<◌, ◌≡◌, refl, ◌∙◌, true, false, List, [], ◌∷◌, ◌==◌, if◌then◌else◌,
  arith, if_elim,
}
use ska_mpi.Measurement.{Moved, Booking, put, book, move_column, move_up, invalid_took_too_long}

unfoldable pub number_valid : List ℕ → ℕ
number_valid [] = 0
number_valid (flag ∷ flags) = let rest = number_valid flags in if flag == 0 then suc rest else rest

module _ (Column : Type 0) where
  -- `n` elements from `i` on
  unfoldable pub window : (ℕ → Column) → ℕ → ℕ → List Column
  window all i zero = []
  window all i (suc n) = all i ∷ window all (suc i) n

  -- The elements from `i` on whose flag is 0.
  unfoldable pub valid : List ℕ → (ℕ → Column) → ℕ → List Column
  valid [] all i = []
  valid (flag ∷ flags) all i =
      let rest = valid flags all (suc i) in if flag == 0 then all i ∷ rest else rest

  -- Two arrays with the same elements from `i` on have the same valid ones.
  valid-same :
      (flags : List ℕ) (all all' : ℕ → Column) (i : ℕ)
      → ((j : ℕ) → i ≤ j → all' j ≡ all j)
      → valid flags all' i ≡ valid flags all i
  unfolding valid
  valid-same [] all all' i e = refl
  valid-same (flag ∷ flags) all all' i e =
      let r = valid-same flags all all' (suc i) (λ j h. e j (omega arith)) in
      rw (e i (omega arith), r) refl

  move_column-above :
      (source dest j : ℕ) (all : ℕ → Column)
      → dest ≤ source
      → source < j
      → move_column Column source dest all j ≡ all j
  unfolding move_column put
  move_column-above source dest j all h k = ground arith

  move_column-below :
      (source dest j : ℕ) (all : ℕ → Column)
      → j < dest
      → move_column Column source dest all j ≡ all j
  unfolding move_column put
  move_column-below source dest j all h = ground arith

  move_column-at :
      (source dest : ℕ) (all : ℕ → Column) → move_column Column source dest all dest ≡ all source
  unfolding move_column put
  move_column-at source dest all = ground arith

  -- What `move_up` does from `source` and `dest` on.
  pub record MovesUp (flags : List ℕ) (source dest : ℕ) (all : ℕ → Column) (m : Moved Column)
      : Type 0 where
    pub counted : m.result_index ≡ dest + number_valid flags
    pub kept : window m.all_results dest (number_valid flags) ≡ valid flags all source
    pub below : (j : ℕ) → j < dest → m.all_results j ≡ all j

  book-MovesUp :
      {flags : List ℕ} {source dest : ℕ} {all : ℕ → Column} {m : Moved Column} (x : Booking Column)
      → MovesUp flags source dest all m
      → MovesUp flags source dest all (book Column x m)
  unfolding book
  book-MovesUp x v = record { counted = v.counted; kept = v.kept; below = v.below }

  step_valid :
      {flag : ℕ} (flags : List ℕ) (source dest : ℕ) (all : ℕ → Column) {m : Moved Column}
      → dest ≤ source
      → (flag == 0) ≡ true
      → MovesUp flags (suc source) (suc dest) (move_column Column source dest all) m
      → MovesUp (flag ∷ flags) source dest all m
  unfolding number_valid valid window
  step_valid flags source dest all {m} h e v =
      let same =
        valid-same flags all (move_column Column source dest all) (suc source)
          (λ j k. move_column-above source dest j all h (omega (arith, k))) in
      let first : m.all_results dest ≡ all source =
        v.below dest (omega arith) ∙ move_column-at source dest all in
      record {
        counted = rw e (omega (arith, v.counted));
        kept = rw e (rw (first, v.kept, same) refl);
        below = λ j k. v.below j (omega (arith, k)) ∙ move_column-below source dest j all k;
      }

  step_invalid :
      {flag : ℕ} (flags : List ℕ) (source dest : ℕ) (all : ℕ → Column) {m : Moved Column}
      → (flag == 0) ≡ false
      → MovesUp flags (suc source) dest all m
      → MovesUp (flag ∷ flags) source dest all m
  unfolding number_valid valid
  step_invalid flags source dest all e v = record {
    counted = rw e v.counted;
    kept = rw e v.kept;
    below = v.below;
  }

  move_up-from :
      (flags : List ℕ) (source dest : ℕ) (all : ℕ → Column)
      → dest ≤ source
      → MovesUp flags source dest all (move_up Column flags source dest all)
  unfolding move_up number_valid valid window
  move_up-from [] source dest all h = record {
    counted = omega arith;
    kept = refl;
    below = λ j k. refl;
  }
  move_up-from (flag ∷ flags) source dest all h =
      let P = MovesUp (flag ∷ flags) source dest all in
      let skip = move_up-from flags (suc source) dest all (omega arith) in
      if_elim P (flag == 0)
        (λ e. book-MovesUp _ (
          step_valid flags source dest all h e (
            move_up-from flags (suc source) (suc dest) (move_column Column source dest all)
              (omega arith))))
        (λ e.
          if_elim P (flag == invalid_took_too_long)
            (λ _. book-MovesUp _ (step_invalid flags source dest all e skip))
            (λ _. step_invalid flags source dest all e skip))

  -- After the results of a batch that starts at `start` were moved up, the array holds from `start`
  -- on exactly the valid results of the batch, in their order, `result_index` counts them, and the
  -- results of earlier batches are as they were.
  pub move_up-MovesUp :
      (flags : List ℕ) (start : ℕ) (all : ℕ → Column)
      → MovesUp flags start start all (move_up Column flags start start all)
  move_up-MovesUp flags start all = move_up-from flags start start all (omega arith)
