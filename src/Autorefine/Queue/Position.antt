-- ===== src/Autorefine/Queue/Position.antt =====
-- Where a candidate is inserted.
use mathlib.Core.List.{Perm}
use mathlib.Core.List.Perm
use ska_mpi.Prelude.{if_elim, false, not, ◌≡◌, ap, List, [], ◌∷◌, ◌++◌}
use ska_mpi.Prelude.Ordered.{Ordered}
use ska_mpi.Autorefine.Queue.{Candidate, insert_before_stop, insert_candidate_in_priority_queue}

-- Each of the candidates weighs at least `v`.
abbrev pub AllAtLeast : (w : Ordered) → w.Value → List (Candidate w) → Type 0
AllAtLeast w v [] = Unit
AllAtLeast w v (c ∷ cs) = (w.lt c.1 v ≡ false) × AllAtLeast w v cs

module _ (w : Ordered) (cand : Candidate w) where
  scan :
      (top : Candidate w) (cs : List (Candidate w)) (last : Candidate w)
      → w.lt top.1 cand.1 ≡ false
      → AllAtLeast w cand.1 cs
      → insert_before_stop w cand top (cs ++ last ∷ []) ≡ top ∷ cs ++ cand ∷ last ∷ []
  unfolding insert_before_stop
  scan top [] last h all = rw h
  scan top (c ∷ cs) last h all = rw h (ap (λ l. top ∷ l) (scan c cs last all.0 all.1))

  -- In a queue of at least two candidates of which all but the last weigh at least as much as the
  -- new one, the new one is put before the last, whatever the last one weighs.
  pub insert_before_last :
      (top : Candidate w) (cs : List (Candidate w)) (last : Candidate w)
      → w.lt top.1 cand.1 ≡ false
      → AllAtLeast w cand.1 cs
      → insert_candidate_in_priority_queue w cand (top ∷ cs ++ last ∷ [])
        ≡ top ∷ cs ++ cand ∷ last ∷ []
  unfolding insert_candidate_in_priority_queue
  insert_before_last top [] last h all = rw h (scan top [] last h all)
  insert_before_last top (c ∷ cs) last h all = rw h (scan top (c ∷ cs) last h all)

  -- No candidate is lost, and the new one is added once, wherever it is put.
  stop-perm :
      (top : Candidate w) (cs : List (Candidate w))
      → Perm (insert_before_stop w cand top cs) (cand ∷ top ∷ cs)
  unfolding insert_before_stop
  stop-perm top [] = Perm.refl _
  stop-perm top (c ∷ cs) =
      if_elim (λ l. Perm l (cand ∷ top ∷ c ∷ cs)) (not (w.lt top.1 cand.1))
        (λ _. Perm.trans (Perm.cons top (stop-perm c cs)) (Perm.swap cand top (c ∷ cs)))
        (λ _. Perm.refl _)

  pub insert_candidate-perm :
      (cs : List (Candidate w)) → Perm (insert_candidate_in_priority_queue w cand cs) (cand ∷ cs)
  unfolding insert_candidate_in_priority_queue
  insert_candidate-perm [] = Perm.refl _
  insert_candidate-perm (top ∷ []) =
      if_elim (λ l. Perm l (cand ∷ top ∷ [])) (w.lt top.1 cand.1) (λ _. Perm.refl _)
        (λ _. Perm.swap cand top [])
  insert_candidate-perm (top ∷ c ∷ cs) =
      if_elim (λ l. Perm l (cand ∷ top ∷ c ∷ cs)) (w.lt top.1 cand.1) (λ _. Perm.refl _)
        (λ _. stop-perm top (c ∷ cs))
