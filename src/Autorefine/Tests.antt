-- ===== src/Autorefine/Tests.antt =====
-- Small lists of results and queues of candidates, weighed by numbers, and the theorems at them.
use ska_mpi.Prelude.{ℕ, ◌≡◌, refl, some, List, [], ◌∷◌}
use ska_mpi.Prelude.Ordered.{nat_ordered}
use ska_mpi.Autorefine.Queue.{
  Candidate, insert_before_stop, insert_candidate_in_priority_queue,
  remove_candidate_from_prior_queue, reposition_candidate_priority_queue,
}
use ska_mpi.Autorefine.Results.{Chain, insert_after, insert_element}
use ska_mpi.Autorefine.Results.Sorted.{Inserted, insert_element-IsSorted}

abbrev queue : List (Candidate nat_ordered)
queue = (1, 9) ∷ (2, 6) ∷ (3, 5) ∷ []

reposition_runs :
    reposition_candidate_priority_queue nat_ordered (3, 7) queue ≡ (1, 9) ∷ (3, 7) ∷ (2, 6) ∷ []
unfolding reposition_candidate_priority_queue remove_candidate_from_prior_queue
    insert_candidate_in_priority_queue insert_before_stop
reposition_runs = refl

-- The results of a loop over 4, 8, 2 and 16: a value and what was measured.
abbrev chain : Chain nat_ordered ℕ
chain = record { before = (2, 30) ∷ []; last_result = (4, 10); after = (8, 20) ∷ (16, 40) ∷ [] }

insert_element_runs :
    insert_element nat_ordered ℕ (12, 50) (some chain)
    ≡ record chain { after = (8, 20) ∷ (12, 50) ∷ (16, 40) ∷ [] }
unfolding insert_element insert_after
insert_element_runs = refl

insert_element-IsSorted_example :
    Inserted nat_ordered ℕ (12, 50) chain (insert_element nat_ordered ℕ (12, 50) (some chain))
insert_element-IsSorted_example =
    insert_element-IsSorted nat_ordered ℕ (12, 50) chain
      (record { rising = (refl, (refl, tt)); falling = (refl, tt) })
      (refl, (refl, (refl, (refl, tt))))
