-- ===== src/Autorefine/Start/Chain.antt =====
-- The list and the queue behind the start of the refinement.
use mathlib.Core.List.{Perm}
use mathlib.Core.List.Perm
use ska_mpi.Prelude.{
  ℕ, suc, ◌≡◌, refl, sym, subst, ap, ◌∙◌, true, false, Option, none, some, List, [], ◌∷◌,
  if◌then◌else◌,
}
use ska_mpi.Prelude.Int.{ℤ}
use ska_mpi.Autorefine.Candidates.{candidate_between, new_int_par}
use ska_mpi.Autorefine.Queue.{Candidate, insert_candidate_in_priority_queue}
use ska_mpi.Autorefine.Queue.Position.{insert_candidate-perm}
use ska_mpi.Autorefine.Start.{
  Numbers, Node, guard, next_value, calculate_key_int, calculate_weight, insert_candidate,
  insert_candidates, init_candidates, ◌>>=◌,
}
use ska_mpi.Autorefine.Start.Filled.{
  Filled, first, apart, between, Filled-IsNext, candidate_between-new_int_par,
}

module _ (o : Numbers) where
  abbrev pub Queue : Type 0
  Queue = List (Candidate o.order)

  -- The elements that are no candidates, and the candidates as the queue holds them.
  unfoldable pub values : List (Node o) → List (Node o)
  values [] = []
  values (el ∷ els) = if el.is_candidate then values els else el ∷ values els

  unfoldable pub waiting : List (Node o) → Queue
  waiting [] = []
  waiting (el ∷ els) = if el.is_candidate then (el.id, el.weight) ∷ waiting els else waiting els

  -- Measured values behind others, with a guard at the end, from the end backwards.
  unfoldable pub with_guard : List (Node o) → List (Node o) → List (Node o)
  with_guard [] acc = acc
  with_guard (vl ∷ []) acc = guard o vl ∷ vl ∷ acc
  with_guard (vl ∷ next ∷ rest) acc = with_guard (next ∷ rest) (vl ∷ acc)

  abbrev pub AreMeasured : List (Node o) → Type 0
  AreMeasured [] = Unit
  AreMeasured (el ∷ els) = (el.is_candidate ≡ false) × AreMeasured els

  next_value-measured :
      (el : Node o) (els : List (Node o))
      → el.is_candidate ≡ false
      → next_value o (el ∷ els) ≡ some el
  unfolding next_value
  next_value-measured el els h = rw h refl

  -- A measured value behind some elements.
  values-cons :
      (el : Node o) (els : List (Node o))
      → el.is_candidate ≡ false
      → values (el ∷ els) ≡ el ∷ values els
  unfolding values
  values-cons el els h = rw h refl

  waiting-cons :
      (el : Node o) (els : List (Node o))
      → el.is_candidate ≡ false
      → waiting (el ∷ els) ≡ waiting els
  unfolding waiting
  waiting-cons el els h = rw h refl

  -- The whole list with its queue: the values are as stated, the candidates stand between them, and the
  -- queue holds the candidates.
  pub data IsStarted (m : ℕ) (vs : List (Node o)) : Option (List (Node o) × Queue) → Type 0 where
    started :
        (last : Node o) (before : List (Node o)) (q : Queue)
        → values (guard o last ∷ last ∷ before) ≡ vs
        → Filled o m (guard o last) last (values before) before
        → Perm q (waiting (guard o last ∷ last ∷ before))
        → IsStarted m vs (some (guard o last ∷ last ∷ before, q))

  -- What one insertion leaves in front of `right`.
  data IsInserted (m : ℕ) (next left right : Node o) (before : List (Node o))
      : Option (List (Node o) × Queue) → Type 0 where
    inserted :
        (els : List (Node o)) (q : Queue)
        → values els ≡ values (left ∷ before)
        → Perm q (waiting els)
        → Filled o m next right (values els) els
        → IsInserted m next left right before (some (els, q))

  insert_candidate-IsInserted :
      (fresh : ℕ) (next left right : Node o) (before after : List (Node o)) (m : ℕ) (q : Queue)
      → left.is_candidate ≡ false
      → next_value o after ≡ some next
      → Filled o m right left (values before) before
      → Perm q (waiting (left ∷ before))
      → IsInserted m next left right before (insert_candidate o fresh left right before after m q)
  unfolding insert_candidate calculate_weight values waiting
  insert_candidate-IsInserted fresh next left right before after m q h f b g =
      go (candidate_between left.i right.i m) refl
    where
      go :
          (c : Option ℤ)
          → candidate_between left.i right.i m ≡ c
          → IsInserted m next left right before (elim c [
            | none ↦ some (left ∷ before, q)
            | some _ ↦ do
              (i, weight) ← calculate_weight o left right before after m
              let cand : Node o = record {
                id = fresh;
                i = i;
                is_candidate = true;
                result = weight;
                weight = weight;
              }
              some (
                cand ∷ left ∷ before,
                insert_candidate_in_priority_queue o.order (fresh, weight) q,
              )
          ])
      go none e = inserted _ _ refl g (
          subst (λ l. Filled o m next right l (left ∷ before)) (sym (values-cons left before h))
            (apart next right left (values before) before h e b))
      go (some i) e =
          let n = Filled-IsNext o m b in
          let weight = calculate_key_int o n.prev left right next in
          let cand : Node o = record {
            id = fresh;
            i = new_int_par left.i right.i m;
            is_candidate = true;
            result = weight;
            weight = weight;
          } in
          rw (n.found, f)
            (inserted _ _ refl (Perm.trans (insert_candidate-perm o.order _ q) (Perm.cons _ g)) (
              subst (λ l. Filled o m next right l (cand ∷ left ∷ before))
                (sym (values-cons left before h ∙ ap (λ l. left ∷ l) n.same))
                (between next right cand left n.prev n.others before h
                  (e ∙ ap some (sym (candidate_between-new_int_par o m left.i right.i i e))) refl
                  refl (subst (λ l. Filled o m right left l before) n.same b))))

  bind-IsStarted :
      {m : ℕ} {next left right : Node o} {before vs : List (Node o)}
      {x : Option (List (Node o) × Queue)}
      (k : List (Node o) × Queue → Option (List (Node o) × Queue))
      → IsInserted m next left right before x
      → ((els : List (Node o)) (q : Queue)
          → values els ≡ values (left ∷ before)
          → Perm q (waiting els)
          → Filled o m next right (values els) els
          → IsStarted m vs (k (els, q)))
      → IsStarted m vs (x >>= k)
  bind-IsStarted k (inserted els q a b c) f = f els q a b c

  relabel-IsStarted :
      {m : ℕ} {vs vs' : List (Node o)} {x : Option (List (Node o) × Queue)}
      → vs ≡ vs'
      → IsStarted m vs x
      → IsStarted m vs' x
  relabel-IsStarted e (started last before q a f b) = started last before q (a ∙ e) f b

  insert_candidates-IsStarted :
      (fresh : ℕ) (left : Node o) (before : List (Node o)) (vl : Node o) (rest : List (Node o))
      (m : ℕ) (q : Queue)
      → left.is_candidate ≡ false
      → Filled o m vl left (values before) before
      → AreMeasured (vl ∷ rest)
      → Perm q (waiting (left ∷ before))
      → IsStarted m
          (with_guard (vl ∷ rest) (values (left ∷ before)))
          (insert_candidates o fresh left before (vl ∷ rest) m q)
  unfolding insert_candidates with_guard
  insert_candidates-IsStarted fresh left before vl [] m q h b (hv, _) g =
      bind-IsStarted _
        (insert_candidate-IsInserted fresh (guard o vl) left vl before _ m q h
          (next_value-measured _ [] refl) b g)
        (λ els q' e g' b'.
          started vl els q'
            (rw (values-cons (guard o vl) (vl ∷ els) refl, values-cons vl els hv, e) refl) b'
            (rw (waiting-cons (guard o vl) (vl ∷ els) refl, waiting-cons vl els hv) g'))
  insert_candidates-IsStarted fresh left before vl (next ∷ rest) m q h b (hv, hr) g =
      bind-IsStarted _
        (insert_candidate-IsInserted fresh next left vl before _ m q h
          (next_value-measured next rest hr.0) b g)
        (λ els q' e g' b'.
          relabel-IsStarted
            (ap (with_guard (next ∷ rest)) (values-cons vl els hv ∙ ap (λ l. vl ∷ l) e))
            (insert_candidates-IsStarted (suc fresh) vl els next rest m q' hv b' hr
              (rw (waiting-cons vl els hv) g')))

  -- For at least two measured values: init_candidates follows no NULL pointer. The values in its list
  -- are the measured ones in their order, with a guard at each end. Between two of them that follow each other
  -- stands the candidate that the code finds for them, weighed with the values on both sides, or nothing
  -- if it finds none, and no candidate stands next to a guard. The queue holds exactly these candidates,
  -- each once, with its weight.
  pub init_candidates-IsStarted :
      (fresh : ℕ) (v second : Node o) (rest : List (Node o)) (m : ℕ)
      → AreMeasured (v ∷ second ∷ rest)
      → IsStarted m
          (with_guard (second ∷ rest) (v ∷ guard o v ∷ []))
          (init_candidates o fresh (v ∷ second ∷ rest) m)
  unfolding init_candidates values waiting
  init_candidates-IsStarted fresh v second rest m (h, hs) =
      relabel-IsStarted
        (ap (with_guard (second ∷ rest))
          (values-cons v (guard o v ∷ []) h ∙ ap (λ l. v ∷ l) (values-cons (guard o v) [] refl)))
        (insert_candidates-IsStarted fresh v (guard o v ∷ []) second rest m [] h
          (subst (λ l. Filled o m second v l (guard o v ∷ []))
            (sym (values-cons (guard o v) [] refl)) (first second v))
          hs
          (rw (waiting-cons v (guard o v ∷ []) h, waiting-cons (guard o v) [] refl) (Perm.refl _)))
