-- ===== src/Autorefine/Refine/Counts.antt =====
-- How often an element is in the list and in the queue.
use ska_mpi.Prelude.{
  ℕ, ◌+◌, ◌≤◌, ◌≡◌, refl, ◌∙◌, Bool, true, false, ◌&&◌, Bool-cases, inl, inr, Option, none, some,
  List, [], ◌∷◌, ◌==◌, if_elim, arith,
}
use ska_mpi.Prelude.Int.{ℤ}
use ska_mpi.Autorefine.Candidates.{candidate_between}
use ska_mpi.Autorefine.Queue.{
  Candidate, ge, insert_before_stop, insert_candidate_in_priority_queue,
  remove_candidate_from_prior_queue, reposition_candidate_priority_queue,
}
use ska_mpi.Autorefine.Start.{Numbers, Node, calculate_weight, insert_candidate, ◌>>=◌}
use ska_mpi.Autorefine.Refine.{Queue, update_weight, update_prev, update_next}

-- What is given, if anything is.
abbrev pub IfGives : {A : Type 0} → (A → Type 0) → Option A → Type 0
IfGives P none = Unit
IfGives P (some a) = P a

pub bind-IfGives :
    {A B : Type 0} (P : A → Type 0) (Q : B → Type 0) (m : Option A) (k : A → Option B)
    → IfGives P m
    → ((a : A) → P a → IfGives Q (k a))
    → IfGives Q (m >>= k)
bind-IfGives P Q none k h f = tt
bind-IfGives P Q (some a) k h f = f a h

pub if_any : {A : Type 0} (m : Option A) → IfGives (λ a. Unit) m
if_any none = tt
if_any (some a) = tt

abbrev pub hit : (b : Bool) → ℕ
hit true = 1
hit false = 0

module _ (o : Numbers) where
  abbrev pub candidate_times : ℕ → List (Node o) → ℕ
  candidate_times x [] = 0
  candidate_times x (el ∷ els) = hit (el.is_candidate && el.id == x) + candidate_times x els

  abbrev pub times : ℕ → List (Node o) → ℕ
  times x [] = 0
  times x (el ∷ els) = hit (el.id == x) + times x els

  abbrev pub queue_times : ℕ → Queue o → ℕ
  queue_times x [] = 0
  queue_times x (c ∷ cs) = hit (c.0 == x) + queue_times x cs

  insert_before_stop-times :
      (x : ℕ) (c top : Candidate o.order) (q : Queue o)
      → queue_times x (insert_before_stop o.order c top q)
        ≡ hit (c.0 == x) + (hit (top.0 == x) + queue_times x q)
  unfolding insert_before_stop
  insert_before_stop-times x c top [] = refl
  insert_before_stop-times x c top (next ∷ rest) =
      if_elim
        (λ l.
          queue_times x l
          ≡ hit (c.0 == x) + (hit (top.0 == x) + (hit (next.0 == x) + queue_times x rest)))
        (ge o.order top.1 c.1) (λ _. omega (arith, insert_before_stop-times x c next rest))
        (λ _. refl)

  pub insert-times :
      (x : ℕ) (c : Candidate o.order) (q : Queue o)
      → queue_times x (insert_candidate_in_priority_queue o.order c q)
        ≡ hit (c.0 == x) + queue_times x q
  unfolding insert_candidate_in_priority_queue
  insert-times x c [] = refl
  insert-times x c (top ∷ []) =
      if_elim (λ l. queue_times x l ≡ hit (c.0 == x) + (hit (top.0 == x) + 0))
        (o.order.lt top.1 c.1) (λ _. refl) (λ _. omega arith)
  insert-times x c (top ∷ next ∷ rest) =
      if_elim
        (λ l.
          queue_times x l
          ≡ hit (c.0 == x) + (hit (top.0 == x) + (hit (next.0 == x) + queue_times x rest)))
        (o.order.lt top.1 c.1) (λ _. refl) (λ _. insert_before_stop-times x c top (next ∷ rest))

  hit_same : (a b x : ℕ) → (a == b) ≡ true → hit (a == x) ≡ hit (b == x)
  hit_same a b x h = ground arith

  pub remove-times :
      (x id : ℕ) (q : Queue o)
      → 1 ≤ queue_times id q
      → hit (id == x) + queue_times x (remove_candidate_from_prior_queue o.order id q)
        ≡ queue_times x q
  unfolding remove_candidate_from_prior_queue
  remove-times x id [] h = absurd (omega arith)
  remove-times x id (c ∷ cs) h = elim (Bool-cases (id == c.0)) [
    | inl e ↦ rw e (omega (arith, hit_same id c.0 x e))
    | inr n ↦
        let other : hit (c.0 == id) ≡ 0 = ground arith in
        rw n (omega (arith, remove-times x id cs (omega arith)))
  ]

  pub reposition-times :
      (x : ℕ) (c : Candidate o.order) (q : Queue o)
      → 1 ≤ queue_times c.0 q
      → queue_times x (reposition_candidate_priority_queue o.order c q) ≡ queue_times x q
  unfolding reposition_candidate_priority_queue
  reposition-times x c q h = insert-times x c _ ∙ remove-times x c.0 q h

  -- The element keeps its number, and whether it is a candidate; the queue its elements.
  pub record SameCounts (cand : Node o) (q : Queue o) (r : Node o × Queue o) : Type 0 where
    pub same_id : r.0.id ≡ cand.id
    pub same_kind : r.0.is_candidate ≡ cand.is_candidate
    pub same_queue : (x : ℕ) → queue_times x r.1 ≡ queue_times x q

  update_weight-SameCounts :
      (m : ℕ) (cand left right : Node o) (before after : List (Node o)) (q : Queue o)
      → (cand.is_candidate ≡ true → 1 ≤ queue_times cand.id q)
      → IfGives (SameCounts cand q) (update_weight o m cand left right before after q)
  unfolding update_weight
  update_weight-SameCounts m cand left right before after q h =
      if_elim (IfGives (SameCounts cand q)) cand.is_candidate
        (λ e.
          bind-IfGives (λ r. Unit) (SameCounts cand q)
            (calculate_weight o left right before after m) _
            (if_any (calculate_weight o left right before after m))
            (λ (i, weight) u. record {
              same_id = refl;
              same_kind = refl;
              same_queue = λ x. reposition-times x (cand.id, weight) q (h e);
            }))
        (λ e. record { same_id = refl; same_kind = refl; same_queue = λ x. refl })

  -- The same counts in a list and in the queue.
  pub record SameTimes (els : List (Node o)) (q : Queue o) (r : List (Node o) × Queue o)
      : Type 0 where
    pub same_candidates : (x : ℕ) → candidate_times x r.0 ≡ candidate_times x els
    pub same_elements : (x : ℕ) → times x r.0 ≡ times x els
    pub same_queue : (x : ℕ) → queue_times x r.1 ≡ queue_times x q

  SameTimes-refl : (els : List (Node o)) (q : Queue o) → SameTimes els q (els, q)
  SameTimes-refl els q = record {
    same_candidates = λ x. refl;
    same_elements = λ x. refl;
    same_queue = λ x. refl;
  }

  queued :
      (v cand : Node o) (els : List (Node o)) (q : Queue o)
      → ((x : ℕ) → candidate_times x (v ∷ cand ∷ els) ≤ queue_times x q)
      → cand.is_candidate ≡ true
      → 1 ≤ queue_times cand.id q
  queued v cand els q h e =
      let self : hit (cand.is_candidate && cand.id == cand.id) ≡ 1 = ground arith in
      omega (arith, h cand.id)

  second :
      (v cand cand' : Node o) (els : List (Node o)) (q q' : Queue o)
      → SameCounts cand q (cand', q')
      → SameTimes (v ∷ cand ∷ els) q (v ∷ cand' ∷ els, q')
  second v cand cand' els q q' h = record {
    same_candidates = λ x. rw (h.same_id, h.same_kind) refl;
    same_elements = λ x. rw h.same_id refl;
    same_queue = h.same_queue;
  }

  pub update_prev-SameTimes :
      (m : ℕ) (el : Node o) (after before : List (Node o)) (q : Queue o)
      → ((x : ℕ) → candidate_times x before ≤ queue_times x q)
      → IfGives (SameTimes before q) (update_prev o m el after before q)
  unfolding update_prev
  update_prev-SameTimes m el after [] q h = SameTimes-refl [] q
  update_prev-SameTimes m el after (v ∷ []) q h = SameTimes-refl (v ∷ []) q
  update_prev-SameTimes m el after (v ∷ c ∷ []) q h = SameTimes-refl (v ∷ c ∷ []) q
  update_prev-SameTimes m el after (v ∷ c ∷ left ∷ rest) q h =
      bind-IfGives (SameCounts c q) (SameTimes (v ∷ c ∷ left ∷ rest) q) _ _
        (update_weight-SameCounts m c left v rest (el ∷ after) q (queued v c (left ∷ rest) q h))
        (λ (c', q') k. second v c c' (left ∷ rest) q q' k)

  pub update_next-SameTimes :
      (m : ℕ) (el : Node o) (before after : List (Node o)) (q : Queue o)
      → ((x : ℕ) → candidate_times x after ≤ queue_times x q)
      → IfGives (SameTimes after q) (update_next o m el before after q)
  unfolding update_next
  update_next-SameTimes m el before [] q h = SameTimes-refl [] q
  update_next-SameTimes m el before (v ∷ []) q h = SameTimes-refl (v ∷ []) q
  update_next-SameTimes m el before (v ∷ c ∷ []) q h = SameTimes-refl (v ∷ c ∷ []) q
  update_next-SameTimes m el before (v ∷ c ∷ right ∷ rest) q h =
      bind-IfGives (SameCounts c q) (SameTimes (v ∷ c ∷ right ∷ rest) q) _ _
        (update_weight-SameCounts m c v right (el ∷ before) rest q (queued v c (right ∷ rest) q h))
        (λ (c', q') k. second v c c' (right ∷ rest) q q' k)

  -- Nothing is inserted, or a candidate with the number `fresh`.
  pub data Inserted (fresh : ℕ) (els : List (Node o)) (q : Queue o)
      : List (Node o) × Queue o → Type 0 where
    nothing_new : Inserted fresh els q (els, q)
    new_candidate :
        (c : Node o) (q' : Queue o)
        → c.is_candidate ≡ true
        → c.id ≡ fresh
        → ((x : ℕ) → queue_times x q' ≡ hit (fresh == x) + queue_times x q)
        → Inserted fresh els q (c ∷ els, q')

  pub insert_candidate-Inserted :
      (fresh m : ℕ) (left right : Node o) (before after : List (Node o)) (q : Queue o)
      → IfGives
          (Inserted fresh (left ∷ before) q)
          (insert_candidate o fresh left right before after m q)
  unfolding insert_candidate
  insert_candidate-Inserted fresh m left right before after q =
      go (candidate_between left.i right.i m)
    where
      go :
          (c : Option ℤ)
          → IfGives (Inserted fresh (left ∷ before) q) (elim c [
            | none ↦ some (left ∷ before, q)
            | some _ ↦ do
              (i, weight) ← calculate_weight o left right before after m
              let cand : Node o = record {
                id = fresh;
                i = i;
                is_candidate = true;
                result = weight;
                weight = weight;
              }
              some (
                cand ∷ left ∷ before,
                insert_candidate_in_priority_queue o.order (fresh, weight) q,
              )
          ])
      go none = nothing_new
      go (some _) =
          bind-IfGives (λ r. Unit) (Inserted fresh (left ∷ before) q)
            (calculate_weight o left right before after m) _
            (if_any (calculate_weight o left right before after m))
            (λ (i, weight) u. new_candidate _ _ refl refl (λ x. insert-times x (fresh, weight) q))
