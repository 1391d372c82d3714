-- ===== src/Autorefine/Results.antt =====
-- src/autorefine.c: the list at `results`, linked by `next` and `prev`, as it is built before the
-- refinement starts. `last_result` points to the element that was inserted first; the list is kept
-- as that element, what lies before it, the nearest first, and what lies behind it. The values are
-- those of `i` or of `f`, as `using_int_params` says.
pub mod Sorted
use ska_mpi.Prelude.{Bool, Option, none, some, List, [], ◌∷◌, if◌then◌else◌}
use ska_mpi.Prelude.Ordered.{Ordered}

module _ (o : Ordered) (Result : Type 0) where
  open o use {Value, lt, eq}

  -- `less_than`, `equal` and `greater_than`
  abbrev pub less_than : Value → Value → Bool
  less_than a b = lt a b

  abbrev pub equal : Value → Value → Bool
  equal a b = eq a b

  abbrev pub greater_than : Value → Value → Bool
  greater_than a b = lt b a

  abbrev pub Element : Type 0
  Element = Value × Result

  pub record Chain : Type 0 where
    pub before : List Element
    pub last_result : Element
    pub after : List Element

  -- The walk along `next`, from the element `vl` on: the list from `vl` on, with `new` put in. The
  -- caller writes the value and the result of `new` into the element that it is given, which is `vl`
  -- itself when the next one has the value.
  unfoldable pub insert_after : Element → Element → List Element → List Element
  insert_after new vl [] = vl ∷ new ∷ []
  insert_after new vl (next ∷ rest) =
      if less_than next.0 new.0
      then vl ∷ insert_after new next rest
      else (if equal next.0 new.0 then new ∷ next ∷ rest else vl ∷ new ∷ next ∷ rest)

  -- The walk along `prev`, likewise.
  unfoldable pub insert_before : Element → Element → List Element → List Element
  insert_before new vl [] = vl ∷ new ∷ []
  insert_before new vl (prev ∷ rest) =
      if greater_than prev.0 new.0
      then vl ∷ insert_before new prev rest
      else (if equal prev.0 new.0 then new ∷ prev ∷ rest else vl ∷ new ∷ prev ∷ rest)

  -- The first element of a walk's result is `last_result` again.
  unfoldable pub behind : Chain → List Element → Chain
  behind c [] = c
  behind c (vl ∷ rest) = record c { last_result = vl; after = rest }

  unfoldable pub in_front : Chain → List Element → Chain
  in_front c [] = c
  in_front c (vl ∷ rest) = record c { last_result = vl; before = rest }

  -- `insert_element`, with the assignment of the result by `register_measurement_result`.
  unfoldable pub insert_element : Element → Option Chain → Chain
  unfolding behind in_front
  insert_element new none = record { before = []; last_result = new; after = [] }
  insert_element new (some c) =
      if less_than c.last_result.0 new.0
      then behind c (insert_after new c.last_result c.after)
      else (if equal c.last_result.0 new.0
          then record c { last_result = new }
          else in_front c (insert_before new c.last_result c.before))
