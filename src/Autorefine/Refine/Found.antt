-- ===== src/Autorefine/Refine/Found.antt =====
-- Where the candidate of a list is found, and what its result changes.
use ska_mpi.Prelude.{
  ℕ, ◌≡◌, refl, sym, subst, ap, ◌∙◌, true, false, some, List, [], ◌∷◌, ◌==◌, if_elim,
}
use ska_mpi.Autorefine.Queue.{Candidate}
use ska_mpi.Autorefine.Start.{Numbers, Node, Number}
use ska_mpi.Autorefine.Start.Chain.{values}
use ska_mpi.Autorefine.Refine.{Queue, Place, find, close, register_measurement_result}
use ska_mpi.Autorefine.Refine.Sides.{Gives, Side, edge, solid, gap, values-candidate, values-close}
use ska_mpi.Autorefine.Refine.Step.{HasValues, register_at-HasValues}

module _ (o : Numbers) where
  -- A guard at both ends, and between them values, of which two can have a candidate between them.
  pub data IsChain : List (Node o) → Type 0 where
    chain :
        (g : Node o) (els : List (Node o)) → g.is_candidate ≡ false → Side o els → IsChain (g ∷ els)

  -- A value can be put in front.
  PreSide : List (Node o) → Type 0
  PreSide els = (v : Node o) → v.is_candidate ≡ false → Side o (v ∷ els)

  -- The place of a candidate, in the list that is closed to `els`.
  pub record IsPlace (els : List (Node o)) (p : Place o) : Type 0 where
    pub side_before : Side o p.before
    pub side_after : Side o p.after
    pub whole : close o p.before (p.el ∷ p.after) ≡ els

  -- The search goes on behind an element that is no candidate.
  pass_value :
      (id : ℕ) (after : List (Node o)) (v : Node o) (before : List (Node o)) (p : Place o)
      (P : Type 0)
      → v.is_candidate ≡ false
      → p.el.is_candidate ≡ true
      → find o id after (v ∷ before) ≡ some p
      → (find o id (v ∷ after) before ≡ some p → P)
      → P
  unfolding find
  pass_value id after v before p P h k e f =
      if_elim (λ r. r ≡ some p → P) (v.id == id) (λ _ e. absurd cc) (λ _ e. f e) e

  find-IsPlace :
      (id : ℕ) (after els : List (Node o)) (p : Place o)
      → PreSide after
      → Side o els
      → p.el.is_candidate ≡ true
      → find o id after els ≡ some p
      → IsPlace (close o els after) p
  unfolding PreSide find close
  find-IsPlace id after _ p b (edge v g h k) c e =
      pass_value id after v (g ∷ []) p _ h c e
        (λ e. pass_value id (v ∷ after) g [] p _ k c e (λ e. absurd cc))
  find-IsPlace id after _ p b (solid v els h s) c e =
      pass_value id after v els p _ h c e
        (λ e. find-IsPlace id (v ∷ after) els p (λ v' h'. solid v' (v ∷ after) h' (b v h)) s c e)
  find-IsPlace id after _ p b (gap v x els h k s) c e =
      pass_value id after v (x ∷ els) p _ h c e (λ e.
        if_elim (λ r. r ≡ some p → IsPlace (close o (v ∷ x ∷ els) after) p) (x.id == id)
          (λ _ e.
            let here : Place o = record { before = els; el = x; after = v ∷ after } in
            let same : here ≡ p = cc in
            subst (IsPlace (close o (v ∷ x ∷ els) after)) same
              (record { side_before = s; side_after = b v h; whole = refl }))
          (λ _ e.
            find-IsPlace id (x ∷ v ∷ after) els p (λ v' h'. gap v' x (v ∷ after) h' k (b v h)) s c
              e)
          e)

  pub chain-IsPlace :
      (id : ℕ) (els : List (Node o)) (p : Place o)
      → IsChain els
      → p.el.is_candidate ≡ true
      → find o id [] els ≡ some p
      → IsPlace els p
  unfolding close PreSide
  chain-IsPlace id _ p (chain g els h s) c e =
      pass_value id [] g els p _ h c e
        (λ e. find-IsPlace id (g ∷ []) els p (λ v k. edge v g k h) s c e)

  -- For a list of values with candidates between them and a guard at each end, in which the first candidate of
  -- the queue is found at a place: register_measurement_result, while it refines, follows no NULL pointer. The
  -- values are then those of before, in their order, with the candidate and its result among them at its place.
  pub register_measurement_result-HasValues :
      (fresh m : ℕ) (result : Number o) (els : List (Node o)) (top : Candidate o.order)
      (q : Queue o) (p : Place o)
      → IsChain els
      → p.el.is_candidate ≡ true
      → find o top.0 [] els ≡ some p
      → (values o els ≡ close o (values o p.before) (values o p.after))
        × Gives
            (HasValues o (
              close o
                (values o p.before)
                (record p.el { is_candidate = false; result = result } ∷ values o p.after)))
            (register_measurement_result o fresh m result els (top ∷ q))
  unfolding register_measurement_result close
  register_measurement_result-HasValues fresh m result els top q p h c e =
      let w = chain-IsPlace top.0 els p h c e in
      (
        ap (values o) (sym w.whole)
            ∙ values-close o (p.el ∷ p.before) p.after
            ∙ ap (λ l. close o l (values o p.after)) (values-candidate o p.el p.before c),
        rw e (register_at-HasValues o fresh m result p (top ∷ q) w.side_before w.side_after),
      )
