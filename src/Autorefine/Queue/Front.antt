-- ===== src/Autorefine/Queue/Front.antt =====
-- The front of the queue is a candidate of the greatest weight, as long as candidates are only added.
use ska_mpi.Prelude.{true, false, ◌≡◌, List, [], ◌∷◌, if_elim, not, inl, inr, Bool-cases}
use ska_mpi.Prelude.Ordered.{Ordered}
use ska_mpi.Autorefine.Queue.{Candidate, insert_before_stop, insert_candidate_in_priority_queue}

-- None of the candidates weighs more than `v`.
abbrev pub NoneAbove : (w : Ordered) → w.Value → List (Candidate w) → Type 0
NoneAbove w v [] = Unit
NoneAbove w v (c ∷ cs) = (w.lt v c.1 ≡ false) × NoneAbove w v cs

abbrev pub HasTopInFront : (w : Ordered) → List (Candidate w) → Type 0
HasTopInFront w [] = Unit
HasTopInFront w (c ∷ cs) = NoneAbove w c.1 cs

module _ (w : Ordered) where
  open w use {Value, lt, lt_asymm, lt_trans}

  below_both : (a b c : Value) → lt a b ≡ true → lt a c ≡ false → lt b c ≡ false
  below_both a b c h k = elim (Bool-cases (lt b c)) [ inl e ↦ cc (lt_trans a b c h e) | inr e ↦ e ]

  raise :
      (a b : Value) (cs : List (Candidate w)) → lt a b ≡ true → NoneAbove w a cs → NoneAbove w b cs
  raise a b [] h n = tt
  raise a b (c ∷ cs) h n = (below_both a b c.1 h n.0, raise a b cs h n.1)

  module _ (cand : Candidate w) where
    stop-NoneAbove :
        (v : Value) (top : Candidate w) (cs : List (Candidate w))
        → lt v cand.1 ≡ false
        → lt v top.1 ≡ false
        → NoneAbove w v cs
        → NoneAbove w v (insert_before_stop w cand top cs)
    unfolding insert_before_stop
    stop-NoneAbove v top [] h k n = (h, (k, tt))
    stop-NoneAbove v top (c ∷ cs) h k n =
        if_elim (NoneAbove w v) (not (lt top.1 cand.1)) (λ _. (k, stop-NoneAbove v c cs h n.0 n.1))
          (λ _. (h, (k, n)))

    stop-front :
        (top c : Candidate w) (cs : List (Candidate w))
        → lt top.1 cand.1 ≡ false
        → NoneAbove w top.1 (c ∷ cs)
        → HasTopInFront w (insert_before_stop w cand top (c ∷ cs))
    unfolding insert_before_stop
    stop-front top c cs h n = rw h (stop-NoneAbove top.1 c cs h n.0 n.1)

    -- For a queue with no candidate heavier than its first, the same holds after an insertion.
    pub insert-HasTopInFront :
        (cs : List (Candidate w))
        → HasTopInFront w cs
        → HasTopInFront w (insert_candidate_in_priority_queue w cand cs)
    unfolding insert_candidate_in_priority_queue
    insert-HasTopInFront [] n = tt
    insert-HasTopInFront (top ∷ []) n =
        if_elim (HasTopInFront w) (lt top.1 cand.1) (λ h. (lt_asymm top.1 cand.1 h, tt))
          (λ h. (h, tt))
    insert-HasTopInFront (top ∷ c ∷ cs) n =
        if_elim (HasTopInFront w) (lt top.1 cand.1)
          (λ h. (lt_asymm top.1 cand.1 h, raise top.1 cand.1 (c ∷ cs) h n))
          (λ h. stop-front top c cs h n)
