-- ===== src/Exec/Typing.antt =====
-- Which terms have a value, and of which type.
pub mod Ops
pub mod Sound
use mathlib.Core.Option.{some_inj}
use ska_mpi.Prelude.{
  ℕ, zero, suc, ◌+◌, ◌≡◌, refl, sym, ap, ◌∙◌, subst, Bool, true, false, ◌&&◌, Option, none, some,
  List, [], ◌∷◌, if◌then◌else◌, arith, if_elim,
}
use ska_mpi.Prelude.Int.{ℤ, pos, ◌-ℤ◌, eqb_ℤ, ◌/ℤ◌}
use ska_mpi.SymbolTable.{
  VarType, integer, double, string, datatype, comm, op, info, void, iarray, darray,
}
use ska_mpi.Exec.{
  Op, op_add, op_sub, op_mult, op_div, op_mod, op_lt, op_le, op_gt, op_ge, op_eq, op_neq, op_and,
  op_band, op_or, op_bor, op_not, op_bnot, Fault, overflow, division_by_zero, unspecified, Result,
  ok, err, ◌>>=◌,
}
use ska_mpi.Exec.Value.{
  Doubles, Value, no_value, intv, doublev, stringv, datatypev, commv, opv, infov, iarrv, darrv,
  type_of, get_result_type2, in_range, store_int, same_type, convert, cast_variable,
  negate_variable, unary_op, int_op, double_op, op_of_type, binary_op, truth,
}
use ska_mpi.Exec.Term.{
  Term, Terms, term_value, term_unary, term_binary, term_func, term_array, end, next, Env, Calls,
  evaluate_term, evaluate_params, evaluate_array, ints_of, datatypes_of, array_of,
}

-- The type of an operation, if the operands' types have it.
abbrev pub type_unary : Op → VarType → Option VarType
type_unary op_sub integer = some integer
type_unary op_sub double = some double
type_unary op_not integer = some integer
type_unary op_bnot integer = some integer
type_unary _ _ = none

-- Two integers can be operands of each binary operation, other numbers of four.
abbrev pub type_int : Op → Option VarType
type_int op_not = none
type_int op_bnot = none
type_int _ = some integer

abbrev pub type_double : Op → Option VarType
type_double op_add = some double
type_double op_sub = some double
type_double op_mult = some double
type_double op_div = some double
type_double _ = none

abbrev pub type_binary : Op → VarType → VarType → Option VarType
type_binary o integer integer = type_int o
type_binary o integer double = type_double o
type_binary o double integer = type_double o
type_binary o double double = type_double o
type_binary o _ _ = none

abbrev pub type_array : Option VarType → Bool → Bool → Option VarType
type_array (some integer) true _ = some iarray
type_array (some datatype) _ true = some darray
type_array _ _ _ = none

abbrev pub is_type : VarType → Option VarType → Bool
is_type type none = false
is_type type (some other) = same_type type other

-- The type of a term without calls, in variables of given types.
unfoldable mutual
  pub infer : (ℕ → VarType) → Term → Option VarType
  infer types (term_value x) = some (types x)
  infer types (term_unary o t) = elim (infer types t) [ none ↦ none | some s ↦ type_unary o s ]
  infer types (term_binary o l r) = elim (infer types l) [
    | none ↦ none
    | some s ↦ elim (infer types r) [ none ↦ none | some s' ↦ type_binary o s s' ]
  ]
  infer types (term_func _ _ _) = none
  infer types (term_array ts) = infer_array types ts

  pub infer_array : (ℕ → VarType) → Terms → Option VarType
  infer_array types end = some iarray
  infer_array types (next t ts) =
      type_array (infer types t) (all_of types integer ts) (all_of types datatype ts)

  pub all_of : (ℕ → VarType) → VarType → Terms → Bool
  all_of types type end = true
  all_of types type (next t ts) = is_type type (infer types t) && all_of types type ts
