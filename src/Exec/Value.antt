-- ===== src/Exec/Value.antt =====
-- The values of variables, and the operations on them.
use Prim.Native.Nat.{bit_and, bit_or}
use ska_mpi.Prelude.{
  ℕ, ◌-◌, ◌%◌, Bool, true, false, ◌&&◌, ◌||◌, not, List, ltb, ◌==◌, if◌then◌else◌,
}
use ska_mpi.Prelude.Int.{ℤ, pos, negsuc, ◌+ℤ◌, ◌-ℤ◌, ◌*ℤ◌, ◌/ℤ◌, ◌%ℤ◌, leb_ℤ, ltb_ℤ, eqb_ℤ}
pub use ska_mpi.Prelude.Doubles.{Doubles}
use ska_mpi.Arith.{round_int_to_multipleof}
use ska_mpi.SymbolTable.{
  VarType, integer, double, string, datatype, comm, op, info, void, iarray, darray,
}
use ska_mpi.Exec.{
  Op, op_add, op_sub, op_mult, op_div, op_mod, op_lt, op_le, op_gt, op_ge, op_eq, op_neq, op_and,
  op_band, op_or, op_bor, op_not, op_bnot, overflow, division_by_zero, cannot_cast,
  assertion_failed, unspecified, Result, ok, err, ◌>>=◌,
}

-- The range of `int`, of 32 bits.
abbrev pub in_range : ℤ → Bool
in_range i = leb_ℤ (negsuc 2_147_483_647) i && leb_ℤ i (pos 2_147_483_647)

-- The bits of an `int`, and the `int` of some bits.
unfoldable pub to_word : ℤ → ℕ
to_word (pos n) = n % 4_294_967_296
to_word (negsuc n) = 4_294_967_295 - n % 4_294_967_296

unfoldable pub of_word : ℕ → ℤ
of_word n = if ltb n 2_147_483_648 then pos n else negsuc (4_294_967_295 - n)

abbrev pub get_result_type2 : VarType → VarType → VarType
get_result_type2 integer integer = integer
get_result_type2 _ _ = double

unfoldable pub same_type : VarType → VarType → Bool
same_type integer integer = true
same_type double double = true
same_type string string = true
same_type datatype datatype = true
same_type comm comm = true
same_type op op = true
same_type info info = true
same_type void void = true
same_type iarray iarray = true
same_type darray darray = true
same_type _ _ = false

module _ (d : Doubles) where
  open d use {Double}

  -- The union `u` of `struct variable`; an MPI object, a string and the like is a number.
  pub data Value : Type 0 where
    no_value : Value
    intv : ℤ → Value
    doublev : Double → Value
    stringv : ℕ → Value
    datatypev : ℕ → Value
    commv : ℕ → Value
    opv : ℕ → Value
    infov : ℕ → Value
    iarrv : List ℤ → Value
    darrv : List ℕ → Value

  abbrev pub type_of : Value → VarType
  type_of no_value = void
  type_of (intv _) = integer
  type_of (doublev _) = double
  type_of (stringv _) = string
  type_of (datatypev _) = datatype
  type_of (commv _) = comm
  type_of (opv _) = op
  type_of (infov _) = info
  type_of (iarrv _) = iarray
  type_of (darrv _) = darray

  -- The `int` that a test gives.
  abbrev pub truth : Bool → Value
  truth b = if b then intv (pos 1) else intv (pos 0)

  abbrev pub non_zero : ℤ → Bool
  non_zero i = not (eqb_ℤ i (pos 0))

  unfoldable pub store_int : ℤ → Result Value
  store_int i = if in_range i then ok (intv i) else err overflow

  -- The conversions between the two types of numbers.
  unfoldable pub convert : VarType → Value → Result Value
  convert double (intv i) = ok (doublev (d.of_int i))
  convert integer (doublev f) = store_int (d.truncate (d.add f d.half))
  convert _ _ = err cannot_cast

  unfoldable pub cast_variable : VarType → Value → Result Value
  cast_variable type v = if same_type type (type_of v) then ok v else convert type v

  unfoldable pub negate_variable : Value → Result Value
  negate_variable (intv i) = store_int (pos 0 -ℤ i)
  negate_variable (doublev f) = ok (doublev (d.negate f))
  negate_variable _ = err unspecified

  -- The cases of TERM_UNARY.
  unfoldable pub unary_op : Op → Value → Result Value
  unary_op op_sub v = negate_variable v
  unary_op op_not (intv i) = ok (truth (not (non_zero i)))
  unary_op op_not _ = err assertion_failed
  unary_op op_bnot (intv i) = ok (intv (pos 0 -ℤ i -ℤ pos 1))
  unary_op op_bnot _ = err assertion_failed
  unary_op _ v = ok v

  -- The cases of TERM_BINARY for two integers. INT_MIN % -1 overflows as the division does.
  unfoldable pub int_op : Op → ℤ → ℤ → Result Value
  int_op op_add a b = store_int (a +ℤ b)
  int_op op_sub a b = store_int (a -ℤ b)
  int_op op_mult a b = store_int (a *ℤ b)
  int_op op_div a b = if eqb_ℤ b (pos 0) then err division_by_zero else store_int (a /ℤ b)
  int_op op_mod a b =
      if eqb_ℤ b (pos 0)
      then err division_by_zero
      else (if in_range (a /ℤ b) then ok (intv (a %ℤ b)) else err overflow)
  int_op op_lt a b = ok (truth (ltb_ℤ a b))
  int_op op_le a b = ok (truth (leb_ℤ a b))
  int_op op_gt a b = ok (truth (ltb_ℤ b a))
  int_op op_ge a b = ok (truth (leb_ℤ b a))
  int_op op_eq a b = ok (truth (eqb_ℤ a b))
  int_op op_neq a b = ok (truth (not (eqb_ℤ a b)))
  int_op op_and a b = ok (truth (non_zero a && non_zero b))
  int_op op_band a b = ok (intv (of_word (bit_and (to_word a) (to_word b))))
  int_op op_or a b = ok (truth (non_zero a || non_zero b))
  int_op op_bor a b = ok (intv (of_word (bit_or (to_word a) (to_word b))))
  int_op _ a b = err unspecified

  -- Those for two doubles.
  unfoldable pub double_op : Op → Double → Double → Result Value
  double_op op_add a b = ok (doublev (d.add a b))
  double_op op_sub a b = ok (doublev (d.sub a b))
  double_op op_mult a b = ok (doublev (d.mult a b))
  double_op op_div a b = ok (doublev (d.div a b))
  double_op _ a b = err unspecified

  unfoldable pub op_of_type : Op → Value → Value → Result Value
  op_of_type o (intv a) (intv b) = int_op o a b
  op_of_type o (doublev a) (doublev b) = double_op o a b
  op_of_type o _ _ = err unspecified

  unfoldable pub binary_op : Op → Value → Value → Result Value
  binary_op o left right = do
    let type = get_result_type2 (type_of left) (type_of right)
    left ← cast_variable type left
    right ← cast_variable type right
    op_of_type o left right

-- The sign of a number, and how two numbers compare.
pub data Sign : Type 0 where
  negative zero positive : Sign

module _ (d : Doubles) where
  unfoldable pub cmp_double : d.Double → d.Double → Sign
  cmp_double a b =
      if d.less (d.fabs (d.sub a b)) d.epsilon
      then zero
      else (if d.less a b then negative else positive)

  -- Other types than those of numbers leave the member that is read unset.
  unfoldable pub cmp_var : Value d → Value d → Result Sign
  cmp_var (intv a) (intv b) =
      ok (if eqb_ℤ a b then zero else (if ltb_ℤ a b then negative else positive))
  cmp_var (intv a) (doublev b) = ok (cmp_double (d.of_int a) b)
  cmp_var (doublev a) (intv b) = ok (cmp_double a (d.of_int b))
  cmp_var (doublev a) (doublev b) = ok (cmp_double a b)
  cmp_var _ _ = err unspecified

  unfoldable pub sign_var : Value d → Result Sign
  sign_var (intv i) =
      ok (if ltb_ℤ (pos 0) i then positive else (if eqb_ℤ i (pos 0) then zero else negative))
  sign_var (doublev f) =
      ok (if d.less d.zero f then positive else (if d.equal f d.zero then zero else negative))
  sign_var _ = err unspecified

  unfoldable pub greater_than_one : Value d → Result Bool
  greater_than_one (intv _) = ok true
  greater_than_one (doublev f) = ok (d.less d.one f)
  greater_than_one _ = err unspecified

  unfoldable pub equal_zero : Value d → Result Bool
  equal_zero (intv i) = ok (eqb_ℤ i (pos 0))
  equal_zero _ = err assertion_failed

  -- The quotient and the products are taken not to overflow.
  unfoldable pub round_double_to_multipleof : d.Double → ℕ → ℤ
  round_double_to_multipleof f m =
      let q = d.truncate (d.div f (d.of_int (pos m))) in
      let here = q *ℤ pos m in
      let above = (q +ℤ pos 1) *ℤ pos m in
      let below = (q -ℤ pos 1) *ℤ pos m in
      if d.less_equal d.zero f
      then (if d.less_equal (d.sub f (d.of_int here)) (d.sub (d.of_int above) f)
          then here
          else above)
      else (if d.less (d.sub f (d.of_int below)) (d.sub (d.of_int here) f) then below else here)

  -- The multiple is not negative; C leaves the division by 0 undefined.
  unfoldable pub cast_variable_to_multipleof : ℕ → Value d → Result (Value d)
  cast_variable_to_multipleof m (intv i) =
      if m == 0 then err division_by_zero else ok (intv (round_int_to_multipleof i m))
  cast_variable_to_multipleof m (doublev f) =
      if m == 0 then err division_by_zero else ok (intv (round_double_to_multipleof f m))
  cast_variable_to_multipleof m _ = err assertion_failed
