-- ===== src/Exec/Statement.antt =====
-- Statements and their execution.
use ska_mpi.Prelude.{
  ℕ, Bool, true, false, ◌&&◌, ◌||◌, not, Option, none, some, List, [], ◌∷◌, ltb, if◌then◌else◌,
  length,
}
use ska_mpi.Prelude.Int.{pos}
use ska_mpi.SymbolTable.{VarType}
use ska_mpi.Exec.{Op, op_add, not_a_multiple, stack_full, Result, ok, err, ◌>>=◌, check}
use ska_mpi.Exec.Value.{
  Doubles, Value, no_value, intv, cast_variable, Sign, cmp_var, sign_var, greater_than_one,
  cast_variable_to_multipleof,
}
use ska_mpi.Exec.Term.{Term, Terms, Env, Calls, assign}

-- `struct statement`; `Block` is a list linked by `next`. A measurement and an iterator are numbers, and
-- a term that the script leaves out is `none`.
mutual
  pub data Statement : Type 0 where
    st_assignment : ℕ → Term → Statement
    st_print : Bool → Terms → Statement
    st_flush : Statement
    st_measure : ℕ → Statement
    st_arithm_var :
        (loopvar : ℕ) (refine : Bool) (first : Term) (last : Option Term) (step : Term) (op : Op)
        (multipleof : Option Term)
        → Block
        → Statement
    st_list_var : ℕ → Terms → Block → Statement
    st_iterator_var : ℕ → ℕ → List VarType → Terms → Block → Statement
    st_if_then : Term → Block → Block → Statement

  pub data Block : Type 0 where
    nop : Block
    seq : Statement → Block → Block

module _ (d : Doubles) where
  -- What the run tells the other parts: `print_output` (of the rank, of a value and of the end of the
  -- line), `flush_output`, `execute_measurement`,
  -- `starting_new_iteration`, the start and the end of a refinement, and `sort_and_print_output`.
  pub data Event : Type 0 where
    prints_rank : Event
    prints : Value d → Event
    prints_newline : Event
    flushes : Event
    measures : ℕ → Event
    iterates : Event
    refines : ℕ → Event
    finalizes : Event
    sorts : Event

  -- The last event stands first.
  pub record State : Type 0 where
    pub env : Env d
    pub abort_inner_loop : Bool
    pub loopvar_stack : List ℕ
    pub events : List Event

  -- The parts that the interpreter calls: functions, iterators (no value at the end of the iteration),
  -- `execute_measurement` with the error bits of all processes, and `set_new_loop_values`.
  pub record World : Type 0 where
    pub call_fp : Calls d
    pub iterator_fp : ℕ → List (Value d) → Option ℕ → Env d → Result (Option (ℕ × Value d) × Env d)
    pub execute_measurement : ℕ → Env d → Result (ℕ × Env d)
    pub set_new_loop_values : ℕ → Env d → Option (Value d)

  -- What stays the same in an arithmetic loop.
  pub record Loop : Type 0 where
    pub loopvar : ℕ
    pub last : Value d
    pub step : Term
    pub op : Op
    pub multipleof : Option ℕ
    pub first_type : VarType
    pub increasing : Bool
    pub body : Block

  abbrev pub tell : Event → State → State
  tell e s = record s { events = e ∷ s.events }

  abbrev pub set_variable : ℕ → Value d → State → State
  set_variable x v s = record s { env = assign d x v s.env }

  abbrev pub push_variable : ℕ → State → Result State
  push_variable x s =
      check (ltb (length s.loopvar_stack) 10) stack_full
        (ok (record s { loopvar_stack = x ∷ s.loopvar_stack }))

  abbrev pub tail_of : List ℕ → List ℕ
  tail_of [] = []
  tail_of (_ ∷ xs) = xs

  abbrev pub pop_variable : State → State
  pop_variable s = record s { loopvar_stack = tail_of s.loopvar_stack }

  abbrev pub clear_abort : State → State
  clear_abort s = record s { abort_inner_loop = false }

  abbrev pub is_positive : Sign → Bool
  is_positive Sign.positive = true
  is_positive _ = false

  abbrev pub is_negative : Sign → Bool
  is_negative Sign.negative = true
  is_negative _ = false

  -- `increasing`, from the operator, the first value and the step.
  unfoldable pub is_increasing : Op → Value d → Value d → Result Bool
  is_increasing op_add first step = do s ← sign_var d step; ok (is_positive s)
  is_increasing _ first step = do
    s ← sign_var d first
    g ← greater_than_one d step
    ok (is_positive s && g || is_negative s && not g)

  -- Whether a loop goes on, for the value of its variable.
  unfoldable pub within_last : Loop → Value d → Result Bool
  within_last l v = elim l.last [
    | no_value ↦ ok true
    | last ↦ do
      c ← cmp_var d v last
      ok (if l.increasing then not (is_positive c) else not (is_negative c))
  ]

  -- Whether the value of the loop variable differs from the one of the round before.
  unfoldable pub is_new_value : (last_loopvar : Value d) → Value d → Result Bool
  is_new_value no_value v = ok true
  is_new_value last_loopvar v = do c ← cmp_var d last_loopvar v; ok (is_positive c || is_negative c)

  -- The value that the user sees, for that of the internal variable.
  unfoldable pub visible_value : Loop → Value d → Result (Value d)
  visible_value l v = elim l.multipleof [
    | none ↦ cast_variable d l.first_type v
    | some m ↦ cast_variable_to_multipleof d m v
  ]

  unfoldable pub multiple_of : Value d → Result ℕ
  multiple_of (intv (pos m)) = ok m
  multiple_of _ = err not_a_multiple
