-- ===== src/Autorefine/Refine.antt =====
-- src/autorefine.c: a step of the refinement, for an integer loop variable. The list is held by its end, as
-- Autorefine/Start leaves it: each element is followed by the one before it.
pub mod Sides
pub mod Step
pub mod Found
pub mod Counts
pub mod Counted
pub mod Rounds
pub mod Paired
pub mod Ending
mod Tests
use ska_mpi.Prelude.{
  ℕ, suc, ◌+◌, Bool, true, false, Option, none, some, List, [], ◌∷◌, ◌==◌, ltb, if◌then◌else◌,
}
use ska_mpi.Prelude.Int.{ℤ}
use ska_mpi.Autorefine.Queue.{
  Candidate, remove_candidate_from_prior_queue, reposition_candidate_priority_queue,
}
use ska_mpi.Autorefine.Start.{Numbers, Node, Number, calculate_weight, insert_candidate, ◌>>=◌}

module _ (o : Numbers) where
  abbrev pub Queue : Type 0
  Queue = List (Candidate o.order)

  -- An element with what lies before and after it, the nearest first.
  pub record Place : Type 0 where
    pub before : List (Node o)
    pub el : Node o
    pub after : List (Node o)

  -- Where the pointer to the element with the number `id` leads.
  unfoldable pub find : (id : ℕ) (after : List (Node o)) → List (Node o) → Option Place
  find id after [] = none
  find id after (el ∷ before) =
      let rest = find id (el ∷ after) before in
      if el.id == id then some (record { before = before; el = el; after = after }) else rest

  -- The list, by its end.
  unfoldable pub close : List (Node o) → List (Node o) → List (Node o)
  close before [] = before
  close before (el ∷ after) = close (el ∷ before) after

  -- `update_weight` of a candidate between `left` and `right`.
  unfoldable pub update_weight :
      (multipleof : ℕ) (cand left right : Node o) (before after : List (Node o))
      → Queue
      → Option (Node o × Queue)
  update_weight multipleof cand left right before after candidates =
      if cand.is_candidate
      then (do
        (i, weight) ← calculate_weight o left right before after multipleof
        some (
          record cand { i = i; weight = weight },
          reposition_candidate_priority_queue o.order (cand.id, weight) candidates,
        ))
      else some (cand, candidates)

  -- `update_weight(el->prev->prev)`, with the element `el` behind the list. NULL is left as it is.
  unfoldable pub update_prev :
      (multipleof : ℕ) (el : Node o) (after before : List (Node o))
      → Queue
      → Option (List (Node o) × Queue)
  update_prev multipleof el after (right ∷ cand ∷ left ∷ rest) candidates = do
    (cand, candidates) ← update_weight multipleof cand left right rest (el ∷ after) candidates
    some (right ∷ cand ∷ left ∷ rest, candidates)
  update_prev multipleof el after before candidates = some (before, candidates)

  -- `update_weight(el->next->next)`
  unfoldable pub update_next :
      (multipleof : ℕ) (el : Node o) (before after : List (Node o))
      → Queue
      → Option (List (Node o) × Queue)
  update_next multipleof el before (left ∷ cand ∷ right ∷ rest) candidates = do
    (cand, candidates) ← update_weight multipleof cand left right (el ∷ before) rest candidates
    some (left ∷ cand ∷ right ∷ rest, candidates)
  update_next multipleof el before after candidates = some (after, candidates)

  -- `insert_candidate(el->prev, el)`
  unfoldable pub insert_prev :
      (fresh multipleof : ℕ) (el : Node o) (before after : List (Node o))
      → Queue
      → Option (List (Node o) × Queue)
  insert_prev fresh multipleof el [] after candidates = none
  insert_prev fresh multipleof el (left ∷ before) after candidates =
      insert_candidate o fresh left el before after multipleof candidates

  -- `insert_candidate(el, el->next)`, which gives the list up to the element behind `el`.
  unfoldable pub insert_next :
      (fresh multipleof : ℕ) (el : Node o) (before after : List (Node o))
      → Queue
      → Option (List (Node o) × Queue)
  insert_next fresh multipleof el before [] candidates = none
  insert_next fresh multipleof el before (right ∷ after) candidates =
      insert_candidate o fresh el right before after multipleof candidates

  -- `register_measurement_result` while it refines: the result of the candidate at `el`.
  unfoldable pub register_at :
      (fresh multipleof : ℕ) (result : Number o) → Place → Queue → Option (List (Node o) × Queue)
  register_at fresh multipleof result p candidates = do
    let candidates = remove_candidate_from_prior_queue o.order p.el.id candidates
    let el : Node o = record p.el { is_candidate = false; result = result }
    (before, candidates) ← update_prev multipleof el p.after p.before candidates
    (after, candidates) ← update_next multipleof el before p.after candidates
    (before, candidates) ← insert_prev fresh multipleof el before after candidates
    (before, candidates) ← insert_next (suc fresh) multipleof el before after candidates
    some (close before after, candidates)

  -- With the first candidate of the queue, which the loop variable was set to.
  unfoldable pub register_measurement_result :
      (fresh multipleof : ℕ) (result : Number o)
      → List (Node o)
      → Queue
      → Option (List (Node o) × Queue)
  register_measurement_result fresh multipleof result els [] = none
  register_measurement_result fresh multipleof result els (top ∷ candidates) = do
    p ← find top.0 [] els
    register_at fresh multipleof result p (top ∷ candidates)
