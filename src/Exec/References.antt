-- ===== src/Exec/References.antt =====
-- The sharing of MPI objects and arrays between variables, by counters of references.
pub mod Holders
pub mod Counted
pub mod Held
pub mod Copies
pub mod Runs
pub mod Aliases
mod Tests
use ska_mpi.Prelude.{
  ℕ, zero, suc, ◌+◌, ◌-◌, Bool, true, false, ◌||◌, Option, none, some, List, [], ◌∷◌, ◌==◌,
  if◌then◌else◌,
}
use ska_mpi.SymbolTable.{
  VarType, integer, double, string, datatype, comm, op, info, void, iarray, darray,
}

-- `struct variable`: its type, the object that it refers to as a number, and the address of its counter.
pub record Variable : Type 0 where
  pub type : VarType
  pub object : ℕ
  pub ref_counter : Option ℕ

-- The variables by their numbers, and the counters by their addresses. An address below `fresh` has been
-- given out, and is not given out again; `freed` holds the objects that were freed, the last one first.
pub record Store : Type 0 where
  pub vars : ℕ → Variable
  pub counts : ℕ → ℕ
  pub fresh : ℕ
  pub freed : List ℕ

unfoldable pub needs_reference_counter : VarType → Bool
needs_reference_counter datatype = true
needs_reference_counter comm = true
needs_reference_counter op = true
needs_reference_counter iarray = true
needs_reference_counter darray = true
needs_reference_counter info = true
needs_reference_counter _ = false

-- An array of C, with one element changed.
unfoldable pub put {ℓ} : {A : Type ℓ} → ℕ → A → (ℕ → A) → ℕ → A
put x v f y = if y == x then v else f y

unfoldable pub increase_reference : ℕ → Store → Store
increase_reference x s =
    if needs_reference_counter (s.vars x).type
    then (elim (s.vars x).ref_counter [
      | none ↦ record s {
        vars = put x (record (s.vars x) { ref_counter = some s.fresh }) s.vars;
        counts = put s.fresh 1 s.counts;
        fresh = suc s.fresh;
      }
      | some a ↦ record s { counts = put a (s.counts a + 1) s.counts }
    ])
    else s

-- A counter that a variable refers to is at least 1.
unfoldable pub decrease_reference : ℕ → Store → Store
decrease_reference x s =
    if needs_reference_counter (s.vars x).type
    then (elim (s.vars x).ref_counter [
      | none ↦ s
      | some a ↦ record s {
        vars = put x (record (s.vars x) { ref_counter = none }) s.vars;
        counts = put a (s.counts a - 1) s.counts;
        freed = if s.counts a == 1 then (s.vars x).object ∷ s.freed else s.freed;
      }
    ])
    else s

-- TERM_VALUE of `evaluate_term`: the variable `result` gets the value of `source`, which may be itself.
unfoldable pub copy_variable : (result source : ℕ) → Store → Store
copy_variable result source s =
    let s = decrease_reference result s in
    increase_reference result (record s { vars = put result (s.vars source) s.vars })

-- TERM_FUNC: the function sets the result's type and object, and leaves it without a counter.
unfoldable pub store_result : (result : ℕ) → VarType → (object : ℕ) → Store → Store
store_result result type object s =
    let s = decrease_reference result s in
    let v : Variable = record { type = type; object = object; ref_counter = none } in
    increase_reference result (record s { vars = put result v s.vars })
