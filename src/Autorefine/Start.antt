-- ===== src/Autorefine/Start.antt =====
-- src/autorefine.c: the start of the refinement, for an integer loop variable: the first candidates
-- between the measured values, and their weights. A NULL pointer that is followed is `none`.
pub mod Filled
pub mod Chain
pub mod Whole
mod Tests
use ska_mpi.Prelude.{ℕ, suc, Bool, true, false, Option, none, some, List, [], ◌∷◌, if◌then◌else◌}
use ska_mpi.Prelude.Int.{ℤ, pos}
use ska_mpi.Prelude.Ordered.{Ordered}
use ska_mpi.Autorefine.Candidates.{candidate_between, new_int_par}
use ska_mpi.Autorefine.Queue.{Candidate, insert_candidate_in_priority_queue}

infixl 5 ◌>>=◌
abbrev pub ◌>>=◌ {ℓ κ} : {A : Type ℓ} {B : Type κ} → Option A → (A → Option B) → Option B
none >>= k = none
some a >>= k = k a

-- The doubles, none of them NaN, with what the weighing asks of them.
pub record Numbers : Type 1 where
  pub order : Ordered
  pub add : order.Value → order.Value → order.Value
  pub sub : order.Value → order.Value → order.Value
  pub mult : order.Value → order.Value → order.Value
  pub div : order.Value → order.Value → order.Value
  pub fabs : order.Value → order.Value
  pub of_int : ℤ → order.Value

module _ (o : Numbers) where
  open o use {add, sub, mult, div, fabs, of_int}

  abbrev pub Number : Type 0
  Number = o.order.Value

  -- `struct value_list`, with the number of the element.
  pub record Node : Type 0 where
    pub id : ℕ
    pub i : ℤ
    pub is_candidate : Bool
    pub result : Number
    pub weight : Number

  unfoldable pub linear_interpolate : (arg_inter arg1 arg2 res1 res2 : Number) → Number
  linear_interpolate arg_inter arg1 arg2 res1 res2 =
      if o.order.eq arg1 arg2
      then div (add res1 res2) (of_int (pos 2))
      else add res1 (div (mult (sub arg_inter arg1) (sub res2 res1)) (sub arg2 arg1))

  unfoldable pub fmax2 : Number → Number → Number
  fmax2 a b = if o.order.lt b a then a else b

  -- The value `x` of the candidate is not read.
  unfoldable pub calculate_key : (a ar b br c cr d dr : Number) → Number
  calculate_key a ar b br c cr d dr =
      let diff_left = fabs (mult (sub (linear_interpolate b c d cr dr) br) (sub d a)) in
      let diff_right = fabs (mult (sub (linear_interpolate c a b ar br) cr) (sub d a)) in
      fmax2 diff_left diff_right

  unfoldable pub calculate_key_int : (a b c d : Node) → Number
  calculate_key_int a b c d =
      calculate_key (of_int a.i) a.result (of_int b.i) b.result (of_int c.i) c.result (of_int d.i)
        d.result

  -- `prev_value` and `next_value`: the first element on one side that is no candidate.
  unfoldable pub next_value : List Node → Option Node
  next_value [] = none
  next_value (el ∷ els) = if el.is_candidate then next_value els else some el

  -- The candidate between `left` and `right`, with what lies beyond each of them, the nearest first.
  unfoldable pub calculate_weight :
      (left right : Node) (before after : List Node) (multipleof : ℕ) → Option (ℤ × Number)
  calculate_weight left right before after multipleof = do
    left_prev ← next_value before
    right_next ← next_value after
    some (new_int_par left.i right.i multipleof, calculate_key_int left_prev left right right_next)

  -- The list up to `right`, from the new element backwards, and the queue.
  unfoldable pub insert_candidate :
      (fresh : ℕ) (left right : Node) (before after : List Node) (multipleof : ℕ)
      → List (Candidate o.order)
      → Option (List Node × List (Candidate o.order))
  insert_candidate fresh left right before after multipleof candidates =
      elim (candidate_between left.i right.i multipleof) [
        | none ↦ some (left ∷ before, candidates)
        | some _ ↦ do
          (i, weight) ← calculate_weight left right before after multipleof
          let cand : Node = record {
            id = fresh;
            i = i;
            is_candidate = true;
            result = weight;
            weight = weight;
          }
          some (
            cand ∷ left ∷ before,
            insert_candidate_in_priority_queue o.order (fresh, weight) candidates,
          )
      ]

  -- A guard has the value and the result of an element; its number and weight are not read.
  abbrev pub guard : Node → Node
  guard el = record el { is_candidate = false }

  -- The loop, with the element before `vl` and what lies before it. The list ends up backwards.
  unfoldable pub insert_candidates :
      (fresh : ℕ) (left : Node) (before : List Node)
      → List Node
      → (multipleof : ℕ) → List (Candidate o.order)
      → Option (List Node × List (Candidate o.order))
  insert_candidates fresh left before [] multipleof candidates = none
  insert_candidates fresh left before (vl ∷ []) multipleof candidates = do
    (before, candidates) ←
        insert_candidate fresh left vl before (guard vl ∷ []) multipleof candidates
    some (guard vl ∷ vl ∷ before, candidates)
  insert_candidates fresh left before (vl ∷ next ∷ rest) multipleof candidates = do
    (before, candidates) ← insert_candidate fresh left vl before (next ∷ rest) multipleof candidates
    insert_candidates (suc fresh) vl before (next ∷ rest) multipleof candidates

  unfoldable pub init_candidates :
      (fresh : ℕ) → List Node → (multipleof : ℕ) → Option (List Node × List (Candidate o.order))
  init_candidates fresh [] multipleof = none
  init_candidates fresh (first ∷ results) multipleof =
      insert_candidates fresh first (guard first ∷ []) results multipleof []
