-- ===== src/Autorefine/Refine/Counted.antt =====
-- A step keeps the list and the queue in step with each other.
use ska_mpi.Prelude.{
  ℕ, suc, ◌+◌, ◌≡◌, refl, Bool, true, false, ◌&&◌, Option, none, some, List, [], ◌∷◌, ◌==◌, arith,
}
use ska_mpi.Autorefine.Queue.{remove_candidate_from_prior_queue}
use ska_mpi.Autorefine.Start.{Numbers, Node, Number}
use ska_mpi.Autorefine.Refine.{
  Queue, Place, close, update_prev, update_next, insert_prev, insert_next, register_at,
}
use ska_mpi.Autorefine.Refine.Sides.{
  Gives, Side, edge, solid, gap, SameSide, bind-Gives, Side-HasValue,
}
use ska_mpi.Autorefine.Refine.Step.{
  InFront, update_prev-SameSide, update_next-SameSide, insert_prev-InFront, insert_next-InFront,
}
use ska_mpi.Autorefine.Refine.Found.{IsChain, chain}
use ska_mpi.Autorefine.Refine.Counts.{
  IfGives, hit, candidate_times, times, queue_times, remove-times, SameTimes, update_prev-SameTimes,
  update_next-SameTimes, Inserted, nothing_new, new_candidate, insert_candidate-Inserted,
}

-- Both of what is given, and what is given if anything is.
both :
    {A : Type 0} (P Q : A → Type 0) (m : Option A)
    → Gives P m
    → IfGives Q m
    → Gives (λ a. P a × Q a) m
both P Q none p q = p
both P Q (some a) p q = (p, q)

module _ (o : Numbers) where
  -- Values can be put in front.
  abbrev Open : List (Node o) → Type 0
  Open els = (v : Node o) → v.is_candidate ≡ false → Side o (v ∷ els)

  close-IsChain :
      (els after : List (Node o)) → Open els → Side o after → IsChain o (close o els after)
  unfolding close
  close-IsChain els _ h (edge v g e f) = chain g (v ∷ els) f (h v e)
  close-IsChain els _ h (solid v after e s) =
      close-IsChain (v ∷ els) after (λ v' e'. solid v' (v ∷ els) e' (h v e)) s
  close-IsChain els _ h (gap v c after e f s) =
      close-IsChain (c ∷ v ∷ els) after (λ v' e'. gap v' c (v ∷ els) e' f (h v e)) s

  pub close-candidate_times :
      (x : ℕ) (els after : List (Node o))
      → candidate_times o x (close o els after)
        ≡ candidate_times o x els + candidate_times o x after
  unfolding close
  close-candidate_times x els [] = omega arith
  close-candidate_times x els (el ∷ after) = omega (arith, close-candidate_times x (el ∷ els) after)

  pub close-times :
      (x : ℕ) (els after : List (Node o))
      → times o x (close o els after) ≡ times o x els + times o x after
  unfolding close
  close-times x els [] = omega arith
  close-times x els (el ∷ after) = omega (arith, close-times x (el ∷ els) after)

  -- What an insertion adds.
  record Added (fresh : ℕ) (els : List (Node o)) (q : Queue o) (r : List (Node o) × Queue o)
      : Type 0 where
    is_new : Bool
    candidates :
        (x : ℕ) → candidate_times o x r.0 ≡ candidate_times o x els + hit (is_new && fresh == x)
    elements : (x : ℕ) → times o x r.0 ≡ times o x els + hit (is_new && fresh == x)
    in_queue : (x : ℕ) → queue_times o x r.1 ≡ queue_times o x q + hit (is_new && fresh == x)
    side_behind : (v : Node o) → v.is_candidate ≡ false → Side o els → Side o (v ∷ r.0)

  Inserted-Added :
      (fresh : ℕ) (els : List (Node o)) (q : Queue o) (r : List (Node o) × Queue o)
      → Inserted o fresh els q r
      → Added fresh els q r
  Inserted-Added fresh els q _ nothing_new = record {
    is_new = false;
    candidates = λ x. omega arith;
    elements = λ x. omega arith;
    in_queue = λ x. omega arith;
    side_behind = λ v e s. solid v els e s;
  }
  Inserted-Added fresh els q _ (new_candidate c q' e f k) = record {
    is_new = true;
    candidates = λ x. rw (e, f) omega arith;
    elements = λ x. rw f omega arith;
    in_queue = λ x. omega (arith, k x);
    side_behind = λ v e' s. gap v c els e' e s;
  }

  added :
      (fresh : ℕ) (els : List (Node o)) (q : Queue o) (m : Option (List (Node o) × Queue o))
      → IfGives (Inserted o fresh els q) m
      → IfGives (Added fresh els q) m
  added fresh els q none h = tt
  added fresh els q (some r) h = Inserted-Added fresh els q r h

  insert_prev-Added :
      (fresh m : ℕ) (el : Node o) (before after : List (Node o)) (q : Queue o)
      → IfGives (Added fresh before q) (insert_prev o fresh m el before after q)
  unfolding insert_prev
  insert_prev-Added fresh m el [] after q = tt
  insert_prev-Added fresh m el (left ∷ before) after q =
      added fresh (left ∷ before) q _ (insert_candidate-Inserted o fresh m left el before after q)

  insert_next-Added :
      (fresh m : ℕ) (el : Node o) (before after : List (Node o)) (q : Queue o)
      → IfGives (Added fresh (el ∷ before) q) (insert_next o fresh m el before after q)
  unfolding insert_next
  insert_next-Added fresh m el before [] q = tt
  insert_next-Added fresh m el before (right ∷ after) q =
      added fresh (el ∷ before) q _ (insert_candidate-Inserted o fresh m el right before after q)

  -- What a step leaves of the place that it began with.
  pub record Stepped (fresh : ℕ) (p : Place o) (r : List (Node o) × Queue o) : Type 0 where
    pub is_chain : IsChain o r.0
    pub first : Bool
    pub second : Bool
    pub candidates :
        (x : ℕ)
        → candidate_times o x r.0
          ≡ candidate_times o x p.before
            + candidate_times o x p.after
            + hit (first && fresh == x)
            + hit (second && suc fresh == x)
    pub elements :
        (x : ℕ)
        → times o x r.0
          ≡ times o x p.before
            + times o x p.after
            + hit (p.el.id == x)
            + hit (first && fresh == x)
            + hit (second && suc fresh == x)
    pub in_queue :
        (x : ℕ)
        → queue_times o x r.1
          ≡ candidate_times o x p.before
            + candidate_times o x p.after
            + hit (first && fresh == x)
            + hit (second && suc fresh == x)

  pub register_at-Stepped :
      (fresh m : ℕ) (result : Number o) (p : Place o) (q : Queue o)
      → Side o p.before
      → Side o p.after
      → ((x : ℕ)
          → hit (p.el.id == x) + (candidate_times o x p.before + candidate_times o x p.after)
            ≡ queue_times o x q)
      → Gives (Stepped fresh p) (register_at o fresh m result p q)
  unfolding register_at
  register_at-Stepped fresh m result p q s s' h =
      let el : Node o = record p.el { is_candidate = false; result = result } in
      let q₀ = remove_candidate_from_prior_queue o.order p.el.id q in
      let self : hit (p.el.id == p.el.id) ≡ 1 = ground arith in
      let left : (x : ℕ)
          → queue_times o x q₀ ≡ candidate_times o x p.before + candidate_times o x p.after =
        λ x. omega (arith, h x, remove-times o x p.el.id q (omega (arith, h p.el.id))) in
      bind-Gives (λ r. SameSide o p.before r × SameTimes o p.before q₀ r) (Stepped fresh p) _ _
        (both (SameSide o p.before) (SameTimes o p.before q₀)
          (update_prev o m el p.after p.before q₀)
          (update_prev-SameSide o m el refl p.after p.before q₀ s)
          (update_prev-SameTimes o m el p.after p.before q₀ (λ x. omega (arith, left x))))
        (λ (before, q₁) ((b, _), t₁).
          bind-Gives (λ r. SameSide o p.after r × SameTimes o p.after q₁ r) (Stepped fresh p) _ _
            (both (SameSide o p.after) (SameTimes o p.after q₁)
              (update_next o m el before p.after q₁)
              (update_next-SameSide o m el refl before p.after q₁ s')
              (update_next-SameTimes o m el before p.after q₁
                (λ x. omega (arith, left x, t₁.same_queue x))))
            (λ (after, q₂) ((a, _), t₂).
              bind-Gives (λ r. InFront o before r × Added fresh before q₂ r) (Stepped fresh p) _ _
                (both (InFront o before) (Added fresh before q₂)
                  (insert_prev o fresh m el before after q₂)
                  (insert_prev-InFront o fresh m el before after q₂ b (Side-HasValue o after a))
                  (insert_prev-Added fresh m el before after q₂))
                (λ (before', q₃) ((v, _), t₃).
                  bind-Gives
                    (λ r. InFront o (el ∷ before') r × Added (suc fresh) (el ∷ before') q₃ r)
                    (Stepped fresh p) _ _
                    (both (InFront o (el ∷ before')) (Added (suc fresh) (el ∷ before') q₃)
                      (insert_next o (suc fresh) m el before' after q₃)
                      (insert_next-InFront o (suc fresh) m el before' after q₃ refl v a)
                      (insert_next-Added (suc fresh) m el before' after q₃))
                    (λ (before'', q₄) (_, t₄).
                      let stepped : Stepped fresh p (close o before'' after, q₄) = record {
                        is_chain =
                            close-IsChain before'' after
                              (λ v' e. t₄.side_behind v' e (t₃.side_behind el refl b)) a;
                        first = t₃.is_new;
                        second = t₄.is_new;
                        candidates = λ x. omega (
                          arith,
                          close-candidate_times x before'' after,
                          t₁.same_candidates x,
                          t₂.same_candidates x,
                          t₃.candidates x,
                          t₄.candidates x,
                        );
                        elements = λ x. omega (
                          arith,
                          close-times x before'' after,
                          t₁.same_elements x,
                          t₂.same_elements x,
                          t₃.elements x,
                          t₄.elements x,
                        );
                        in_queue = λ x. omega (
                          arith,
                          left x,
                          t₁.same_queue x,
                          t₂.same_queue x,
                          t₃.in_queue x,
                          t₄.in_queue x,
                        );
                      } in
                      stepped))))
