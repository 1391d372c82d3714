-- ===== src/Exec/Tests.antt =====
-- Runs of the interpreter, with integers in the place of doubles.
use ska_mpi.Prelude.{
  ℕ, zero, suc, ◌≡◌, refl, true, false, none, some, [], ◌∷◌, ◌==◌, if◌then◌else◌, arith,
}
use ska_mpi.Prelude.Int.{pos, ◌+ℤ◌, ◌*ℤ◌}
use ska_mpi.Prelude.Doubles.Whole.{doubles}
use ska_mpi.SymbolTable.{VarType, integer, double, void}
use ska_mpi.Exec.{op_add, op_mult, unspecified, Result, ok, err}
use ska_mpi.Exec.Value.{
  Value, no_value, intv, doublev, iarrv, binary_op, cast_variable, same_type, op_of_type, int_op,
  store_int, sign_var, cmp_var,
}
use ska_mpi.Exec.Term.{
  Term, term_value, term_binary, term_array, end, next, Env, assign, evaluate_term, array_of,
  ints_of,
}
use ska_mpi.Exec.Statement.{
  Statement, st_assignment, st_measure, st_arithm_var, st_list_var, Block, nop, seq, State, World,
  is_increasing, within_last, is_new_value, visible_value,
}
use ska_mpi.Exec.Run.{
  value_of, value_of_option, multiple_of_option, rounded, same_again, advance, measure,
  execute_statement, execute_one,
}
use ska_mpi.Exec.Run.Frame.{execute_statement-stack, loop_ends_abort}
use ska_mpi.Exec.Run.Counting.{Ends, ends, EndsWith, KeptIn, execute_one-Ends}

-- No functions and no iterators; the second measurement finds its buffer too small.
abbrev world : World doubles
world = record {
  call_fp = λ f params env. err unspecified;
  iterator_fp = λ i params self env. err unspecified;
  execute_measurement = λ m env. ok (if m == 2 then 1 else 0, env);
  set_new_loop_values = λ x env. none;
}

-- The constants 0, 5 and 2 have the numbers 0, 1 and 2; 3 is a double.
abbrev variables : Env doubles
variables zero = intv (pos 0)
variables (suc zero) = intv (pos 5)
variables (suc (suc zero)) = intv (pos 2)
variables (suc (suc (suc zero))) = doublev (pos 3)
variables _ = no_value

abbrev types : ℕ → VarType
types zero = integer
types (suc zero) = integer
types (suc (suc zero)) = integer
types (suc (suc (suc zero))) = double
types _ = void

abbrev begin : State doubles
begin = record { env = variables; abort_inner_loop = true; loopvar_stack = []; events = [] }

-- `[5 + 2, 5 * 2]`
abbrev two_numbers : Term
two_numbers = term_array (
    next (term_binary op_add (term_value 1) (term_value 2))
      (next (term_binary op_mult (term_value 1) (term_value 2)) end))

-- `y = x`, for the loop variable x, 4, and y, 5.
abbrev copy : Block
copy = seq (st_assignment 5 (term_value 4)) nop

-- `for x = 0 to 5 step +2`
abbrev to_five : Statement
to_five = st_arithm_var 4 false (term_value 0) (some (term_value 1)) (term_value 2) op_add none copy

-- A list loop whose second round is aborted by the measurement in its first one.
abbrev aborted : Statement
aborted = st_list_var 4 (next (term_value 0) (next (term_value 1) end)) (seq (st_measure 2) copy)

abbrev held : ℕ → Result (State doubles) → Value doubles
held x (ok s) = s.env x
held x (err e) = no_value

two_numbers_value :
    evaluate_term doubles world.call_fp two_numbers variables
    ≡ ok (iarrv (pos 7 ∷ pos 10 ∷ []), variables)
unfolding evaluate_term array_of ints_of binary_op cast_variable same_type op_of_type int_op
    store_int ◌+ℤ◌ ◌*ℤ◌
two_numbers_value = refl

-- The rounds are those of 0, 2 and 4.
to_five_last : held 5 (execute_one doubles world 20 to_five begin) ≡ intv (pos 4)
unfolding execute_statement value_of value_of_option multiple_of_option rounded same_again
    is_increasing within_last is_new_value visible_value advance evaluate_term binary_op
    cast_variable same_type op_of_type int_op store_int assign ◌+ℤ◌ sign_var cmp_var
to_five_last = refl

aborted_last : held 4 (execute_one doubles world 20 aborted begin) ≡ intv (pos 0)
unfolding execute_statement value_of measure evaluate_term assign
aborted_last = refl

-- The constants of the loop.
abbrev Kept : Env doubles → Type 0
Kept env = (env 0 ≡ intv (pos 0)) × ((env 1 ≡ intv (pos 5)) × (env 2 ≡ intv (pos 2)))

assign-Kept_4 : (v : Value doubles) (env : Env doubles) → Kept env → Kept (assign doubles 4 v env)
unfolding assign
assign-Kept_4 v env k = k

assign-Kept_5 : (v : Value doubles) (env : Env doubles) → Kept env → Kept (assign doubles 5 v env)
unfolding assign
assign-Kept_5 v env k = k

copy_ends : EndsWith doubles world Kept 2 copy
unfolding execute_statement value_of evaluate_term
copy_ends zero s h k = absurd (omega arith)
copy_ends (suc zero) s h k = absurd (omega arith)
copy_ends (suc (suc f)) s h k = ends (assign-Kept_5 (s.env 4) s.env k)

execute_one-Ends_example :
    Ends (KeptIn doubles world Kept) (execute_one doubles world 10 to_five begin)
unfolding evaluate_term
execute_one-Ends_example =
    execute_one-Ends doubles world Kept 4 0 5 1 2 10 (term_value 0) (term_value 1) (term_value 2)
      copy begin (λ env k. rw (k.0) refl) (λ env k. rw (k.1.0) refl) (λ env k. rw (k.1.1) refl)
      assign-Kept_4 (omega arith) copy_ends (omega arith) (refl, (refl, refl))

abbrev state_of : Result (State doubles) → State doubles
state_of (ok s) = s
state_of (err e) = begin

abbrev after_five : State doubles
after_five = state_of (execute_statement doubles world 20 (seq to_five nop) begin)

abbrev after_abort : State doubles
after_abort = state_of (execute_one doubles world 20 aborted begin)

execute_statement-stack_example : after_five.loopvar_stack ≡ []
unfolding execute_statement value_of value_of_option multiple_of_option rounded same_again
    is_increasing within_last is_new_value visible_value advance evaluate_term binary_op
    cast_variable same_type op_of_type int_op store_int assign ◌+ℤ◌ sign_var cmp_var
execute_statement-stack_example =
    execute_statement-stack doubles world 20 (seq to_five nop) begin after_five refl

loop_ends_abort_example : (after_abort.abort_inner_loop ≡ false) × (after_abort.loopvar_stack ≡ [])
unfolding execute_statement value_of measure evaluate_term assign
loop_ends_abort_example = loop_ends_abort doubles world 20 aborted begin after_abort refl refl
