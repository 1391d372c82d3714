-- ===== src/Autorefine/Queue.antt =====
-- src/autorefine.c: the list at `candidates`, linked by `next_prior` and `prev_prior`, which holds
-- each candidate with its weight. A weight is a double that is not NaN, so `>=` is the negation of
-- `<`.
pub mod Front
pub mod Position
use ska_mpi.Prelude.{ℕ, Bool, not, List, [], ◌∷◌, ◌==◌, if◌then◌else◌}
use ska_mpi.Prelude.Ordered.{Ordered}

module _ (w : Ordered) where
  open w use {Value, lt}

  -- A candidate is the number of its list element.
  abbrev pub Candidate : Type 0
  Candidate = ℕ × Value

  -- `cl->weight >= w`
  abbrev pub ge : Value → Value → Bool
  ge a b = not (lt a b)

  -- The `for` loop, from `cl` on, with the insertion before the element where it stops.
  unfoldable pub insert_before_stop : Candidate → Candidate → List Candidate → List Candidate
  insert_before_stop cand cl [] = cand ∷ cl ∷ []
  insert_before_stop cand cl (next ∷ rest) =
      if ge cl.1 cand.1 then cl ∷ insert_before_stop cand next rest else cand ∷ cl ∷ next ∷ rest

  unfoldable pub insert_candidate_in_priority_queue : Candidate → List Candidate → List Candidate
  insert_candidate_in_priority_queue cand [] = cand ∷ []
  insert_candidate_in_priority_queue cand (top ∷ []) =
      if lt top.1 cand.1 then cand ∷ top ∷ [] else top ∷ cand ∷ []
  insert_candidate_in_priority_queue cand (top ∷ next ∷ rest) =
      if lt top.1 cand.1
      then cand ∷ top ∷ next ∷ rest
      else insert_before_stop cand top (next ∷ rest)

  unfoldable pub remove_candidate_from_prior_queue : ℕ → List Candidate → List Candidate
  remove_candidate_from_prior_queue id [] = []
  remove_candidate_from_prior_queue id (c ∷ cs) =
      if id == c.0 then cs else c ∷ remove_candidate_from_prior_queue id cs

  unfoldable pub reposition_candidate_priority_queue : Candidate → List Candidate → List Candidate
  unfolding remove_candidate_from_prior_queue insert_candidate_in_priority_queue
  reposition_candidate_priority_queue cand cs =
      insert_candidate_in_priority_queue cand (remove_candidate_from_prior_queue cand.0 cs)
