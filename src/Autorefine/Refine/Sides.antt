-- ===== src/Autorefine/Refine/Sides.antt =====
-- The elements on one side of a place in the list.
use ska_mpi.Prelude.{ℕ, ◌≡◌, refl, ap, ◌∙◌, true, false, Option, none, some, List, [], ◌∷◌, if_elim}
use ska_mpi.Prelude.Int.{ℤ}
use ska_mpi.Autorefine.Candidates.{new_int_par}
use ska_mpi.Autorefine.Start.{
  Numbers, Node, Number, next_value, calculate_key_int, calculate_weight, ◌>>=◌,
}
use ska_mpi.Autorefine.Start.Chain.{values}
use ska_mpi.Autorefine.Refine.{Queue, close}

abbrev pub Gives : {A : Type 0} → (A → Type 0) → Option A → Type 0
Gives P none = ⊥
Gives P (some a) = P a

pub bind-Gives :
    {A B : Type 0} (P : A → Type 0) (Q : B → Type 0) (m : Option A) (k : A → Option B)
    → Gives P m
    → ((a : A) → P a → Gives Q (k a))
    → Gives Q (m >>= k)
bind-Gives P Q none k h f = absurd h
bind-Gives P Q (some a) k h f = f a h

module _ (o : Numbers) where
  -- One side of an element, the nearest first: values, between them candidates or not, and the guard.
  pub data Side : List (Node o) → Type 0 where
    edge : (v g : Node o) → v.is_candidate ≡ false → g.is_candidate ≡ false → Side (v ∷ g ∷ [])
    solid : (v : Node o) (els : List (Node o)) → v.is_candidate ≡ false → Side els → Side (v ∷ els)
    gap :
        (v c : Node o) (els : List (Node o))
        → v.is_candidate ≡ false
        → c.is_candidate ≡ true
        → Side els
        → Side (v ∷ c ∷ els)

  abbrev pub HasValue : List (Node o) → Type 0
  HasValue els = (p : Node o) × (next_value o els ≡ some p)

  pub value_first : (v : Node o) (els : List (Node o)) → v.is_candidate ≡ false → HasValue (v ∷ els)
  unfolding next_value
  value_first v els h = (v, rw h refl)

  pub value_behind :
      (c : Node o) (els : List (Node o)) → c.is_candidate ≡ true → HasValue els → HasValue (c ∷ els)
  unfolding next_value
  value_behind c els h (p, e) = (p, rw h e)

  pub Side-HasValue : (els : List (Node o)) → Side els → HasValue els
  Side-HasValue _ (edge v g h k) = value_first v (g ∷ []) h
  Side-HasValue _ (solid v els h s) = value_first v els h
  Side-HasValue _ (gap v c els h k s) = value_first v (c ∷ els) h

  pub tail-HasValue : (v : Node o) (els : List (Node o)) → Side (v ∷ els) → HasValue els
  tail-HasValue _ _ (edge v g h k) = value_first g [] k
  tail-HasValue _ _ (solid v els h s) = Side-HasValue els s
  tail-HasValue _ _ (gap v c els h k s) = value_behind c els k (Side-HasValue els s)

  pub head-measured : (v : Node o) (els : List (Node o)) → Side (v ∷ els) → v.is_candidate ≡ false
  head-measured _ _ (edge v g h k) = h
  head-measured _ _ (solid v els h s) = h
  head-measured _ _ (gap v c els h k s) = h

  pub behind_candidate :
      (v c : Node o) (els : List (Node o)) → c.is_candidate ≡ true → Side (v ∷ c ∷ els) → Side els
  behind_candidate _ _ _ e (edge v g h k) = absurd cc
  behind_candidate _ c els e (solid v _ h s) = let f = head-measured c els s in absurd cc
  behind_candidate _ _ _ e (gap v c els h k s) = s

  pub values-measured :
      (v : Node o) (els : List (Node o))
      → v.is_candidate ≡ false
      → values o (v ∷ els) ≡ v ∷ values o els
  unfolding values
  values-measured v els h = rw h refl

  pub values-candidate :
      (c : Node o) (els : List (Node o)) → c.is_candidate ≡ true → values o (c ∷ els) ≡ values o els
  unfolding values
  values-candidate c els h = rw h refl

  pub values-close :
      (before after : List (Node o))
      → values o (close o before after) ≡ close o (values o before) (values o after)
  unfolding close values
  values-close before [] = refl
  values-close before (el ∷ after) =
      let r = values-close (el ∷ before) after in
      if_elim (λ els. values o (close o (el ∷ before) after) ≡ close o (values o before) els)
        el.is_candidate
        (λ e. r ∙ ap (λ els. close o els (values o after)) (values-candidate el before e))
        (λ e. r ∙ ap (λ els. close o els (values o after)) (values-measured el before e))

  -- A side that has the same values.
  abbrev pub SameSide : List (Node o) → List (Node o) × Queue o → Type 0
  SameSide els (els', q) = Side els' × (values o els' ≡ values o els)

  pub calculated :
      (left right lp rn : Node o) (before after : List (Node o)) (m : ℕ)
      → next_value o before ≡ some lp
      → next_value o after ≡ some rn
      → (w : ℤ × Number o) × (calculate_weight o left right before after m ≡ some w)
  unfolding calculate_weight
  calculated left right lp rn before after m e f =
      ((new_int_par left.i right.i m, calculate_key_int o lp left right rn), rw (e, f) refl)
