-- ===== src/Autorefine/Refine/Ending.antt =====
-- The refinement of a loop ends, in order.
use ska_mpi.Prelude.{
  ℕ, zero, suc, ◌+◌, ◌≤◌, ◌<◌, ◌≡◌, refl, sym, ap, subst, ◌∙◌, true, false, dec_lt, ◌⊎◌, inl, inr,
  Option, none, some, [], ◌∷◌, ◌==◌, if◌then◌else◌, if_elim, arith,
}
use ska_mpi.Prelude.Int.{ℤ}
use ska_mpi.Autorefine.Start.{Numbers, Number, ◌>>=◌}
use ska_mpi.Autorefine.Refine.{Queue, find, register_measurement_result}
use ska_mpi.Autorefine.Refine.Sides.{Gives, bind-Gives}
use ska_mpi.Autorefine.Refine.Counts.{hit, candidate_times, queue_times}
use ska_mpi.Autorefine.Refine.Rounds.{
  Refinement, continue_loop, set_new_loop_values, register, refine,
}
use ska_mpi.Autorefine.Refine.Paired.{weaken-Gives, IsRefining, find-candidate, register-IsRefining}

module _ (o : Numbers) where
  -- The loop has ended in order: with no candidate left, or enough measurements.
  pub record Ended (iteration_multiplier : Number o) (before after : Refinement o) : Type 0 where
    pub is_refining : IsRefining o after.results after.candidates after.fresh
    pub regular_kept : after.regular_measurements ≡ before.regular_measurements
    pub more : before.registered_measurements ≤ after.registered_measurements
    pub reason :
        (after.candidates ≡ [])
        ⊎ (continue_loop o iteration_multiplier after.regular_measurements
              after.registered_measurements
            ≡ false)

  register-Gives :
      (m : ℕ) (result : Number o) (id : ℕ) (w : Number o) (q : Queue o) (s : Refinement o)
      → s.candidates ≡ (id, w) ∷ q
      → IsRefining o s.results s.candidates s.fresh
      → Gives
          (λ t.
            IsRefining o t.results t.candidates t.fresh
            × ((t.regular_measurements ≡ s.regular_measurements)
                × (t.registered_measurements ≡ suc s.registered_measurements)))
          (register o m result s)
  unfolding register
  register-Gives m result id w q s e inv =
      bind-Gives (λ r. IsRefining o r.0 r.1 (suc (suc s.fresh))) _
        (register_measurement_result o s.fresh m result s.results s.candidates) _
        (subst
          (λ c.
            Gives (λ r. IsRefining o r.0 r.1 (suc (suc s.fresh)))
              (register_measurement_result o s.fresh m result s.results c))
          (sym e)
          (register-IsRefining o m result s.results q s.fresh id w
            (subst (λ c. IsRefining o s.results c s.fresh) e inv)))
        (λ (els, q') i. (i, (refl, refl)))

  -- What `set_new_loop_values` says.
  data Says (iteration_multiplier : Number o) (s : Refinement o) : Option (Option ℤ) → Type 0 where
    stops :
        (s.candidates ≡ [])
          ⊎ (continue_loop o iteration_multiplier s.regular_measurements s.registered_measurements
              ≡ false)
        → Says iteration_multiplier s (some none)
    continues :
        (id : ℕ) (w : Number o) (q : Queue o) (i : ℤ)
        → s.candidates ≡ (id, w) ∷ q
        → continue_loop o iteration_multiplier s.regular_measurements s.registered_measurements
          ≡ true
        → Says iteration_multiplier s (some (some i))

  set_new_loop_values-Says :
      (iteration_multiplier : Number o) (s : Refinement o)
      → IsRefining o s.results s.candidates s.fresh
      → Says iteration_multiplier s (set_new_loop_values o iteration_multiplier s)
  unfolding set_new_loop_values
  set_new_loop_values-Says iteration_multiplier s inv = go s.candidates refl
    where
      go :
          (q : Queue o)
          → s.candidates ≡ q
          → Says iteration_multiplier s (
              if continue_loop o iteration_multiplier s.regular_measurements
                s.registered_measurements
              then (elim q [
                | [] ↦ some none
                | top ∷ rest ↦ do p ← find o top.0 [] s.results; some (some p.el.i)
              ])
              else some none)
      go [] e =
          if_elim (Says iteration_multiplier s)
            (continue_loop o iteration_multiplier s.regular_measurements s.registered_measurements)
            (λ _. stops (inl e)) (λ _. stops (inl e))
      go ((id, w) ∷ q) e =
          if_elim (Says iteration_multiplier s)
            (continue_loop o iteration_multiplier s.regular_measurements s.registered_measurements)
            (λ g.
              let self : hit (id == id) ≡ 1 = ground arith in
              let count = inv.queued id ∙ refl in
              let same = ap (queue_times o id) e in
              let here : 1 ≤ candidate_times o id s.results = omega (arith, inv.queued id, same) in
              let (p, (f, _)) = find-candidate o id [] s.results here (inv.single id here) in
              rw f (continues id w q p.el.i e g))
            (λ g. stops (inr g))

  -- For a list and a queue that fit together, and a number of measurements from which on there are enough:
  -- with fuel for one measurement more than are missing, the loop of the refinement, with one measurement in
  -- each round, ends and follows no NULL pointer, list and queue fit together behind it, and no candidate is
  -- left, or there are enough measurements.
  pub refine-Ended :
      (m : ℕ) (iteration_multiplier : Number o) (measure : ℤ → Number o) (most fuel : ℕ)
      (s : Refinement o)
      → ((n : ℕ) → most ≤ n → continue_loop o iteration_multiplier s.regular_measurements n ≡ false)
      → IsRefining o s.results s.candidates s.fresh
      → 0 < fuel
      → most < s.registered_measurements + fuel
      → Gives (Ended iteration_multiplier s) (refine o m iteration_multiplier measure fuel s)
  unfolding refine
  refine-Ended m f measure most zero s enough inv positive l = absurd (omega arith)
  refine-Ended m f measure most (suc fuel) s enough inv positive l =
      next (set_new_loop_values o f s) (set_new_loop_values-Says f s inv)
        (λ t enough still positive l. refine-Ended m f measure most fuel t enough still positive l)
    where
      next :
          (r : Option (Option ℤ))
          → Says f s r
          → ((t : Refinement o)
              → ((n : ℕ) → most ≤ n → continue_loop o f t.regular_measurements n ≡ false)
              → IsRefining o t.results t.candidates t.fresh
              → 0 < fuel
              → most < t.registered_measurements + fuel
              → Gives (Ended f t) (refine o m f measure fuel t))
          → Gives (Ended f s) (do
            next ← r
            elim next [
              | none ↦ some s
              | some i ↦ do s ← register o m (measure i) s; refine o m f measure fuel s
            ])
      next _ (stops why) rest = record {
        is_refining = inv;
        regular_kept = refl;
        more = omega arith;
        reason = why;
      }
      next _ (continues id w q i e g) rest =
          bind-Gives
            (λ t.
              IsRefining o t.results t.candidates t.fresh
              × ((t.regular_measurements ≡ s.regular_measurements)
                  × (t.registered_measurements ≡ suc s.registered_measurements)))
            (Ended f s) (register o m (measure i) s) (refine o m f measure fuel)
            (register-Gives m (measure i) id w q s e inv)
            (λ t (still, (same, one_more)).
              let few : s.registered_measurements < most =
                elim (dec_lt s.registered_measurements most) [
                  | yes k ↦ k
                  | no n ↦
                      absurd
                        (let stop = enough s.registered_measurements (omega arith) in ground arith)
                ] in
              weaken-Gives (Ended f t) (Ended f s) (refine o m f measure fuel t)
                (λ r end. record {
                  is_refining = end.is_refining;
                  regular_kept = end.regular_kept ∙ same;
                  more = omega (arith, end.more);
                  reason = end.reason;
                })
                (rest t (λ n k. subst (λ a. continue_loop o f a n ≡ false) (sym same) (enough n k))
                  still (omega arith) (omega arith)))
