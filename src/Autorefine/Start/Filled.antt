-- ===== src/Autorefine/Start/Filled.antt =====
-- Where the first candidates of src/autorefine.c stand: each between two measured values that follow each other.
use ska_mpi.Prelude.{ℕ, ◌≡◌, refl, true, false, some, List, [], ◌∷◌, none, arith}
use ska_mpi.Prelude.Int.{ℤ}
use ska_mpi.Autorefine.Candidates.{candidate_between, new_int_par}
use ska_mpi.Autorefine.Start.{Numbers, Node, guard, next_value, calculate_key_int}

module _ (o : Numbers) (m : ℕ) where
  -- The elements `els` before the measured value `v`, for the values `vs` before it, the nearest first, and the
  -- value `next` behind it. Between two values that follow each other stands the candidate that the
  -- code finds for them, weighed with the values on both sides, or nothing if it finds none. No candidate
  -- stands between the guard and the first value.
  pub data Filled : (next v : Node o) → (vs els : List (Node o)) → Type 0 where
    first : (next v : Node o) → Filled next v (guard o v ∷ []) (guard o v ∷ [])
    apart :
        (next v left : Node o) (vs els : List (Node o))
        → left.is_candidate ≡ false
        → candidate_between left.i v.i m ≡ none
        → Filled v left vs els
        → Filled next v (left ∷ vs) (left ∷ els)
    between :
        (next v cand left prev : Node o) (vs els : List (Node o))
        → left.is_candidate ≡ false
        → candidate_between left.i v.i m ≡ some cand.i
        → cand.is_candidate ≡ true
        → cand.weight ≡ calculate_key_int o prev left v next
        → Filled v left (prev ∷ vs) els
        → Filled next v (left ∷ prev ∷ vs) (cand ∷ left ∷ els)

  -- The first of the values is the one that `next_value` finds.
  pub record IsNext (vs els : List (Node o)) : Type 0 where
    pub prev : Node o
    pub others : List (Node o)
    pub same : vs ≡ prev ∷ others
    pub found : next_value o els ≡ some prev

  pub Filled-IsNext :
      {next v : Node o} {vs els : List (Node o)} → Filled next v vs els → IsNext vs els
  unfolding next_value
  Filled-IsNext (first next v) = record { prev = guard o v; others = []; same = refl; found = refl }
  Filled-IsNext (apart next v left vs els h c f) = record {
    prev = left;
    others = vs;
    same = refl;
    found = rw h refl;
  }
  Filled-IsNext (between next v cand left prev vs els h c k w f) = record {
    prev = left;
    others = prev ∷ vs;
    same = refl;
    found = rw (k, h) refl;
  }

  -- The value of the candidate.
  pub candidate_between-new_int_par :
      (left right i : ℤ) → candidate_between left right m ≡ some i → new_int_par left right m ≡ i
  unfolding candidate_between
  candidate_between-new_int_par left right i e = ground arith
