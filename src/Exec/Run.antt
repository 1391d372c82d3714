-- ===== src/Exec/Run.antt =====
-- `execute_statement`, with the loops inside of it. Scripts need not end, so that the run is on fuel.
pub mod Holds
pub mod Frame
pub mod Counting
use ska_mpi.Prelude.{
  ℕ, zero, suc, ◌+◌, ◌%◌, Bool, true, false, ◌&&◌, ◌||◌, not, Option, none, some, List, [], ◌∷◌,
  ◌++◌, ◌==◌, if◌then◌else◌,
}
use ska_mpi.SymbolTable.{VarType}
use ska_mpi.Exec.{Op, Fault, out_of_fuel, unspecified, Result, ok, err, ◌>>=◌, check}
use ska_mpi.Exec.Value.{
  Doubles, Value, no_value, same_type, type_of, binary_op, equal_zero, cast_variable_to_multipleof,
}
use ska_mpi.Exec.Term.{Term, Terms, end, next, Env, evaluate_term, evaluate_params}
use ska_mpi.Exec.Statement.{
  Statement, st_assignment, st_print, st_flush, st_measure, st_arithm_var, st_list_var,
  st_iterator_var, st_if_then, Block, nop, seq, Event, prints_rank, prints, prints_newline, flushes,
  measures, iterates, refines, finalizes, sorts, State, World, Loop, tell, set_variable,
  push_variable, pop_variable, clear_abort, is_increasing, within_last, is_new_value, visible_value,
  multiple_of,
}

module _ (d : Doubles) (w : World d) where
  -- A term, with its effects on the variables.
  unfoldable pub value_of : Term → State d → Result (Value d × State d)
  value_of t s = do (v, env) ← evaluate_term d w.call_fp t s.env; ok (v, record s { env = env })

  -- A term that the script may leave out.
  unfoldable pub value_of_option : Option Term → State d → Result (Value d × State d)
  value_of_option none s = ok (no_value, s)
  value_of_option (some t) s = value_of t s

  unfoldable pub multiple_of_option : Option Term → State d → Result (Option ℕ × State d)
  multiple_of_option none s = ok (none, s)
  multiple_of_option (some t) s = do (v, s) ← value_of t s; m ← multiple_of d v; ok (some m, s)

  unfoldable pub print_terms : Terms → State d → Result (State d)
  print_terms end s = ok s
  print_terms (next t ts) s = do (v, s) ← value_of t s; print_terms ts (tell d (prints v) s)

  -- MEAS_BUFFER_TOO_SMALL and MEAS_OUT_OF_BOUNDS are the two lowest bits.
  unfoldable pub measure : ℕ → State d → Result (State d)
  measure m s = do
    (error_code, env) ← w.execute_measurement m s.env
    ok (tell d (measures m) (record s { env = env; abort_inner_loop = not (error_code % 4 == 0) }))

  -- The value of the loop variable, rounded when the loop has `multipleof`.
  unfoldable pub rounded : Option ℕ → Value d → Result (Value d)
  rounded none v = ok v
  rounded (some m) v = cast_variable_to_multipleof d m v

  -- The internal variable has the type of the first evaluation and the union of the second.
  unfoldable pub same_again : Value d → Value d → Result (Value d)
  same_again first again =
      check (same_type (type_of d first) (type_of d again)) unspecified (ok again)

  abbrev pub refining : ℕ → Bool → State d → State d
  refining x true s = tell d (refines x) s
  refining x false s = s

  -- The next value of the internal variable and of the loop variable.
  unfoldable pub advance : Loop d → Value d → State d → Result (Value d × State d)
  advance l internal s = do
    (step, s) ← value_of l.step s
    internal ← binary_op d l.op internal step
    v ← visible_value d l internal
    ok (internal, set_variable d l.loopvar v s)

  unfoldable mutual
    -- A list of statements.
    pub execute_statement : ℕ → Block → State d → Result (State d)
    execute_statement zero b s = err out_of_fuel
    execute_statement (suc f) nop s = ok s
    execute_statement (suc f) (seq st b) s = do s ← execute_one f st s; execute_statement f b s

    pub execute_one : ℕ → Statement → State d → Result (State d)
    execute_one zero st s = err out_of_fuel
    execute_one (suc f) (st_assignment x t) s = do (v, s) ← value_of t s; ok (set_variable d x v s)
    execute_one (suc f) (st_print flush ts) s = do
      s ← print_terms ts (tell d prints_rank s)
      let s = tell d prints_newline s
      ok (if flush then tell d flushes s else s)
    execute_one (suc f) st_flush s = ok (tell d flushes s)
    execute_one (suc f) (st_measure m) s = measure m s
    execute_one (suc f) (st_arithm_var x refine first last step op multipleof body) s = do
      (first_value, s) ← value_of first s
      (last, s) ← value_of_option last s
      (step_value, s) ← value_of step s
      (m, s) ← multiple_of_option multipleof s
      s ← push_variable d x s
      (internal, s) ← value_of first s
      internal ← same_again first_value internal
      increasing ← is_increasing d op first_value step_value
      v ← rounded m internal
      v ← rounded m v
      let l : Loop d = record {
        loopvar = x;
        last = last;
        step = step;
        op = op;
        multipleof = m;
        first_type = type_of d first_value;
        increasing = increasing;
        body = body;
      }
      s ←
          arithm_loop f l no_value internal
            (clear_abort d (refining x refine (set_variable d x v s)))
      s ← (if refine then refine_loop f x body s else ok s)
      ok (pop_variable d (clear_abort d (tell d sorts s)))
    execute_one (suc f) (st_list_var x ts body) s = do
      s ← push_variable d x s
      s ← list_loop f x ts body (clear_abort d s)
      ok (pop_variable d (clear_abort d s))
    execute_one (suc f) (st_iterator_var x i interface ts body) s = do
      s ← push_variable d x s
      s ← iterator_loop f x i interface ts body none (clear_abort d s)
      ok (pop_variable d (clear_abort d s))
    execute_one (suc f) (st_if_then condition then_body else_body) s = do
      (v, s) ← value_of condition s
      z ← equal_zero d v
      execute_statement f (if z then else_body else then_body) s

    -- The `while` loop of ST_ARITHM_VAR.
    pub arithm_loop : ℕ → Loop d → Value d → Value d → State d → Result (State d)
    arithm_loop zero l last_loopvar internal s = err out_of_fuel
    arithm_loop (suc f) l last_loopvar internal s = elim s.abort_inner_loop [
      | true ↦ ok s
      | false ↦ do
        go ← within_last d l (s.env l.loopvar)
        elim go [
          | false ↦ ok s
          | true ↦ do
            new ← is_new_value d last_loopvar (s.env l.loopvar)
            s ← elim new [ true ↦ execute_statement f l.body (tell d iterates s) | false ↦ ok s ]
            let last_loopvar = s.env l.loopvar
            (internal, s) ← advance l internal s
            arithm_loop f l last_loopvar internal s
        ]
    ]

    -- The loop of a refinement.
    pub refine_loop : ℕ → ℕ → Block → State d → Result (State d)
    refine_loop zero x body s = err out_of_fuel
    refine_loop (suc f) x body s = elim (w.set_new_loop_values x s.env) [
      | none ↦ ok (tell d finalizes s)
      | some v ↦ do
        s ← execute_statement f body (tell d iterates (set_variable d x v s))
        refine_loop f x body s
    ]

    pub list_loop : ℕ → ℕ → Terms → Block → State d → Result (State d)
    list_loop zero x ts body s = err out_of_fuel
    list_loop (suc f) x end body s = ok s
    list_loop (suc f) x (next t ts) body s = elim s.abort_inner_loop [
      | true ↦ ok s
      | false ↦ do
        (v, s) ← value_of t s
        s ← execute_statement f body (set_variable d x v s)
        list_loop f x ts body s
    ]

    pub iterator_loop :
        ℕ → ℕ → ℕ → List VarType → Terms → Block → Option ℕ → State d → Result (State d)
    iterator_loop zero x i interface ts body self s = err out_of_fuel
    iterator_loop (suc f) x i interface ts body self s = do
      (params, env) ← evaluate_params d w.call_fp ts 0 interface s.env
      (r, env) ← w.iterator_fp i params self env
      elim r [
        | none ↦ ok (record s { env = env })
        | some (self, v) ↦ do
          s ← execute_statement f body (set_variable d x v (record s { env = env }))
          elim s.abort_inner_loop [
            | true ↦ ok s
            | false ↦ iterator_loop f x i interface ts body (some self) s
          ]
      ]
