-- ===== src/Exec/Typing/Ops.antt =====
-- The types of the values of operations.
use mathlib.Core.Option.{some_inj}
use ska_mpi.Prelude.{◌≡◌, refl, subst, Bool, true, false, some, if_elim}
use ska_mpi.Prelude.Int.{ℤ, pos, ◌-ℤ◌, eqb_ℤ, ◌/ℤ◌}
use ska_mpi.SymbolTable.{VarType, integer}
use ska_mpi.Exec.{
  Op, op_add, op_sub, op_mult, op_div, op_mod, op_band, op_bor, op_not, op_bnot, overflow,
  division_by_zero, Result, ok, err,
}
use ska_mpi.Exec.Value.{
  Doubles, Value, intv, doublev, type_of, in_range, store_int, same_type, convert, cast_variable,
  negate_variable, unary_op, int_op, double_op, op_of_type, binary_op, truth,
}
use ska_mpi.Exec.Typing.{type_unary, type_int, type_double, type_binary}

module _ (d : Doubles) where
  -- A value of the type, or the fault of undefined arithmetic.
  pub data IsSafe (A : Type 0) (P : A → Type 0) : Result A → Type 0 where
    value : (a : A) → P a → IsSafe A P (ok a)
    overflows : IsSafe A P (err overflow)
    divides : IsSafe A P (err division_by_zero)

  abbrev pub HasType : VarType → Result (Value d) → Type 0
  HasType type = IsSafe (Value d) (λ v. type_of d v ≡ type)

  store_int-HasType : (i : ℤ) → HasType integer (store_int d i)
  unfolding store_int
  store_int-HasType i = if_elim (HasType integer) (in_range i) (λ _. value _ refl) (λ _. overflows)

  truth-HasType : (b : Bool) → HasType integer (ok (truth d b))
  truth-HasType true = value _ refl
  truth-HasType false = value _ refl

  retype :
      {s type : VarType} {r : Result (Value d)} → some s ≡ some type → HasType s r → HasType type r
  retype {r = r} h v = subst (λ t. HasType t r) ((some_inj.0 h)) v

  pub unary_op-HasType :
      (o : Op) (v : Value d) (type : VarType)
      → type_unary o (type_of d v) ≡ some type
      → HasType type (unary_op d o v)
  unfolding unary_op negate_variable ◌-ℤ◌
  unary_op-HasType op_sub (intv i) type h = retype h (store_int-HasType _)
  unary_op-HasType op_sub (doublev f) type h = retype h (value _ refl)
  unary_op-HasType op_not (intv i) type h = retype h (truth-HasType _)
  unary_op-HasType op_bnot (intv i) type h = retype h (value _ refl)
  unary_op-HasType _ _ type h = cc

  int_op-HasType :
      (o : Op) (a b : ℤ) (type : VarType) → type_int o ≡ some type → HasType type (int_op d o a b)
  unfolding int_op
  int_op-HasType op_add a b type h = retype h (store_int-HasType _)
  int_op-HasType op_sub a b type h = retype h (store_int-HasType _)
  int_op-HasType op_mult a b type h = retype h (store_int-HasType _)
  int_op-HasType op_div a b type h =
      retype h
        (if_elim (HasType integer) (eqb_ℤ b (pos 0)) (λ _. divides) (λ _. store_int-HasType _))
  int_op-HasType op_mod a b type h = retype h (
      if_elim (HasType integer) (eqb_ℤ b (pos 0)) (λ _. divides)
        (λ _. if_elim (HasType integer) (in_range (a /ℤ b)) (λ _. value _ refl) (λ _. overflows)))
  int_op-HasType op_not a b type h = cc
  int_op-HasType op_bnot a b type h = cc
  int_op-HasType op_band a b type h = retype h (value _ refl)
  int_op-HasType op_bor a b type h = retype h (value _ refl)
  int_op-HasType _ a b type h = retype h (truth-HasType _)

  double_op-HasType :
      (o : Op) (a b : d.Double) (type : VarType)
      → type_double o ≡ some type
      → HasType type (double_op d o a b)
  unfolding double_op
  double_op-HasType op_add a b type h = retype h (value _ refl)
  double_op-HasType op_sub a b type h = retype h (value _ refl)
  double_op-HasType op_mult a b type h = retype h (value _ refl)
  double_op-HasType op_div a b type h = retype h (value _ refl)
  double_op-HasType _ a b type h = cc

  pub binary_op-HasType :
      (o : Op) (v w : Value d) (type : VarType)
      → type_binary o (type_of d v) (type_of d w) ≡ some type
      → HasType type (binary_op d o v w)
  unfolding binary_op cast_variable same_type convert op_of_type
  binary_op-HasType o (intv a) (intv b) type h = int_op-HasType o a b type h
  binary_op-HasType o (intv a) (doublev b) type h = double_op-HasType o (d.of_int a) b type h
  binary_op-HasType o (doublev a) (intv b) type h = double_op-HasType o a (d.of_int b) type h
  binary_op-HasType o (doublev a) (doublev b) type h = double_op-HasType o a b type h
  binary_op-HasType o _ _ type h = cc
