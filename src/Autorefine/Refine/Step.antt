-- ===== src/Autorefine/Refine/Step.antt =====
-- A step of the refinement turns its candidate into a value.
use ska_mpi.Prelude.{
  ℕ, suc, ◌≡◌, refl, sym, ap, ap₂, ◌∙◌, Bool, true, false, Option, none, some, List, [], ◌∷◌,
  if_elim,
}
use ska_mpi.Prelude.Int.{ℤ}
use ska_mpi.Autorefine.Candidates.{candidate_between}
use ska_mpi.Autorefine.Queue.{insert_candidate_in_priority_queue}
use ska_mpi.Autorefine.Start.{Numbers, Node, Number, calculate_weight, insert_candidate, ◌>>=◌}
use ska_mpi.Autorefine.Start.Chain.{values}
use ska_mpi.Autorefine.Refine.{
  Queue, Place, close, update_weight, update_prev, update_next, insert_prev, insert_next,
  register_at,
}
use ska_mpi.Autorefine.Refine.Sides.{
  Gives, Side, gap, HasValue, SameSide, bind-Gives, value_first, value_behind, Side-HasValue,
  tail-HasValue, head-measured, behind_candidate, values-measured, values-candidate, values-close,
  calculated,
}

module _ (o : Numbers) where
  -- A candidate stays one, and all else is as it was.
  abbrev KeepsCandidate : Node o → Node o × Queue o → Type 0
  KeepsCandidate cand (cand', q) =
      (cand'.is_candidate ≡ cand.is_candidate) × (cand.is_candidate ≡ false → cand' ≡ cand)

  update_weight-Gives :
      (m : ℕ) (cand left right : Node o) (before after : List (Node o)) (q : Queue o)
      → (cand.is_candidate ≡ true → HasValue o before × HasValue o after)
      → Gives (KeepsCandidate cand) (update_weight o m cand left right before after q)
  unfolding update_weight
  update_weight-Gives m cand left right before after q h =
      if_elim (Gives (KeepsCandidate cand)) cand.is_candidate
        (λ e.
          let ((lp, a), (rn, b)) = h e in
          let (w, c) = calculated o left right lp rn before after m a b in
          rw c (refl, λ f. absurd cc))
        (λ e. (refl, λ f. refl))

  -- The second element of a side is replaced.
  replaced :
      (v c c' : Node o) (els : List (Node o))
      → Side o (v ∷ c ∷ els)
      → c'.is_candidate ≡ c.is_candidate
      → (c.is_candidate ≡ false → c' ≡ c)
      → Side o (v ∷ c' ∷ els) × (values o (v ∷ c' ∷ els) ≡ values o (v ∷ c ∷ els))
  replaced v c c' els s e f = go c.is_candidate refl
    where
      go :
          (b : Bool)
          → c.is_candidate ≡ b
          → Side o (v ∷ c' ∷ els) × (values o (v ∷ c' ∷ els) ≡ values o (v ∷ c ∷ els))
      go true t =
          let h = head-measured o v (c ∷ els) s in
          (
            gap v c' els h (e ∙ t) (behind_candidate o v c els t s),
            values-measured o v (c' ∷ els) h
                ∙ ap (λ l. v ∷ l)
                    (values-candidate o c' els (e ∙ t) ∙ sym (values-candidate o c els t))
                ∙ sym (values-measured o v (c ∷ els) h),
          )
      go false t = rw (f t) (s, refl)

  module _ (m : ℕ) (el : Node o) (measured : el.is_candidate ≡ false) where
    pub update_prev-SameSide :
        (after before : List (Node o)) (q : Queue o)
        → Side o before
        → Gives (SameSide o before) (update_prev o m el after before q)
    unfolding update_prev
    update_prev-SameSide after [] q s = (s, refl)
    update_prev-SameSide after (v ∷ []) q s = (s, refl)
    update_prev-SameSide after (v ∷ c ∷ []) q s = (s, refl)
    update_prev-SameSide after (v ∷ c ∷ left ∷ rest) q s =
        bind-Gives (KeepsCandidate c) (SameSide o (v ∷ c ∷ left ∷ rest)) _ _
          (update_weight-Gives m c left v rest (el ∷ after) q (λ e. (
            tail-HasValue o left rest (behind_candidate o v c (left ∷ rest) e s),
            value_first o el after measured,
          )))
          (λ (c', q') (e, f). replaced v c c' (left ∷ rest) s e f)

    pub update_next-SameSide :
        (before after : List (Node o)) (q : Queue o)
        → Side o after
        → Gives (SameSide o after) (update_next o m el before after q)
    unfolding update_next
    update_next-SameSide before [] q s = (s, refl)
    update_next-SameSide before (v ∷ []) q s = (s, refl)
    update_next-SameSide before (v ∷ c ∷ []) q s = (s, refl)
    update_next-SameSide before (v ∷ c ∷ right ∷ rest) q s =
        bind-Gives (KeepsCandidate c) (SameSide o (v ∷ c ∷ right ∷ rest)) _ _
          (update_weight-Gives m c v right (el ∷ before) rest q (λ e. (
            value_first o el before measured,
            tail-HasValue o right rest (behind_candidate o v c (right ∷ rest) e s),
          )))
          (λ (c', q') (e, f). replaced v c c' (right ∷ rest) s e f)

  -- What an insertion leaves has the same values.
  abbrev pub InFront : List (Node o) → List (Node o) × Queue o → Type 0
  InFront els (els', q) = HasValue o els' × (values o els' ≡ values o els)

  insert_candidate-InFront :
      (fresh m : ℕ) (left right : Node o) (before after : List (Node o)) (q : Queue o)
      → left.is_candidate ≡ false
      → HasValue o before
      → HasValue o after
      → Gives (InFront (left ∷ before)) (insert_candidate o fresh left right before after m q)
  unfolding insert_candidate
  insert_candidate-InFront fresh m left right before after q h (lp, a) (rn, b) =
      go (candidate_between left.i right.i m)
    where
      go :
          (c : Option ℤ)
          → Gives (InFront (left ∷ before)) (elim c [
            | none ↦ some (left ∷ before, q)
            | some _ ↦ do
              (i, weight) ← calculate_weight o left right before after m
              let cand : Node o = record {
                id = fresh;
                i = i;
                is_candidate = true;
                result = weight;
                weight = weight;
              }
              some (
                cand ∷ left ∷ before,
                insert_candidate_in_priority_queue o.order (fresh, weight) q,
              )
          ])
      go none = (value_first o left before h, refl)
      go (some _) =
          let (w, e) = calculated o left right lp rn before after m a b in
          rw e (
            value_behind o _ (left ∷ before) refl (value_first o left before h),
            values-candidate o _ (left ∷ before) refl,
          )

  pub insert_prev-InFront :
      (fresh m : ℕ) (el : Node o) (before after : List (Node o)) (q : Queue o)
      → Side o before
      → HasValue o after
      → Gives (InFront before) (insert_prev o fresh m el before after q)
  unfolding insert_prev
  insert_prev-InFront fresh m el [] after q s h = elim s [ ]
  insert_prev-InFront fresh m el (left ∷ before) after q s h =
      insert_candidate-InFront fresh m left el before after q (head-measured o left before s)
        (tail-HasValue o left before s) h

  pub insert_next-InFront :
      (fresh m : ℕ) (el : Node o) (before after : List (Node o)) (q : Queue o)
      → el.is_candidate ≡ false
      → HasValue o before
      → Side o after
      → Gives (InFront (el ∷ before)) (insert_next o fresh m el before after q)
  unfolding insert_next
  insert_next-InFront fresh m el before [] q e h s = elim s [ ]
  insert_next-InFront fresh m el before (right ∷ after) q e h s =
      insert_candidate-InFront fresh m el right before after q e h (tail-HasValue o right after s)

  -- The values of the list that a step leaves.
  abbrev pub HasValues : List (Node o) → List (Node o) × Queue o → Type 0
  HasValues vs (els, q) = values o els ≡ vs

  -- For a candidate whose neighbours are values, with values and candidates between them on both sides up to a
  -- guard: register_measurement_result follows no NULL pointer. The candidate becomes a value with its result, all
  -- other values stay as they are, in the same order, and all else in the list are candidates.
  pub register_at-HasValues :
      (fresh m : ℕ) (result : Number o) (p : Place o) (q : Queue o)
      → Side o p.before
      → Side o p.after
      → Gives
          (HasValues (
            close o
              (values o p.before)
              (record p.el { is_candidate = false; result = result } ∷ values o p.after)))
          (register_at o fresh m result p q)
  unfolding register_at close
  register_at-HasValues fresh m result p q s s' =
      let el : Node o = record p.el { is_candidate = false; result = result } in
      let vs = close o (values o p.before) (el ∷ values o p.after) in
      bind-Gives (SameSide o p.before) (HasValues vs) _ _
        (update_prev-SameSide m el refl p.after p.before _ s)
        (λ (before, q₁) (b, e).
          bind-Gives (SameSide o p.after) (HasValues vs) _ _
            (update_next-SameSide m el refl before p.after q₁ s')
            (λ (after, q₂) (a, f).
              bind-Gives (InFront before) (HasValues vs) _ _
                (insert_prev-InFront fresh m el before after q₂ b (Side-HasValue o after a))
                (λ (before', q₃) (v, g).
                  bind-Gives (InFront (el ∷ before')) (HasValues vs) _ _
                    (insert_next-InFront (suc fresh) m el before' after q₃ refl v a)
                    (λ (before'', q₄) (_, g').
                      values-close o before'' after
                      ∙ ap₂ (close o)
                          (g' ∙ values-measured o el before' refl ∙ ap (λ l. el ∷ l) (g ∙ e)) f))))
