-- ===== src/Exec/Term.antt =====
-- Terms and their evaluation.
use ska_mpi.Prelude.{ℕ, suc, List, [], ◌∷◌, ltb, ◌==◌, if◌then◌else◌}
use ska_mpi.Prelude.Int.{ℤ}
use ska_mpi.SymbolTable.{VarType}
use ska_mpi.Exec.{Op, cannot_cast, assertion_failed, unspecified, Result, ok, err, ◌>>=◌, check}
use ska_mpi.Exec.Value.{
  Doubles, Value, intv, datatypev, iarrv, darrv, cast_variable, unary_op, binary_op,
}

-- `struct term`: a variable by its number, and a function by the number of its pointer, with the types
-- that its interface asks for. `Terms` is a list linked by `next`.
mutual
  pub data Term : Type 0 where
    term_value : ℕ → Term
    term_unary : Op → Term → Term
    term_binary : Op → Term → Term → Term
    term_func : ℕ → List VarType → Terms → Term
    term_array : Terms → Term

  pub data Terms : Type 0 where
    end : Terms
    next : Term → Terms → Terms

abbrev pub max_number_params : ℕ
max_number_params = 10

module _ (d : Doubles) where
  -- What each variable holds.
  abbrev pub Env : Type 0
  Env = ℕ → Value d

  unfoldable pub assign : ℕ → Value d → Env → Env
  assign x v env y = if y == x then v else env y

  -- The type that a value must have next in an interface: a character behind its end is no type.
  unfoldable pub cast_param : List VarType → Value d → Result (Value d)
  cast_param [] v = err cannot_cast
  cast_param (type ∷ _) v = cast_variable d type v

  abbrev pub rest_of : List VarType → List VarType
  rest_of [] = []
  rest_of (_ ∷ types) = types

  -- An array of the values: the first one determines its type.
  unfoldable pub ints_of : List (Value d) → Result (List ℤ)
  ints_of [] = ok []
  ints_of (intv i ∷ vs) = do is ← ints_of vs; ok (i ∷ is)
  ints_of (_ ∷ vs) = err unspecified

  unfoldable pub datatypes_of : List (Value d) → Result (List ℕ)
  datatypes_of [] = ok []
  datatypes_of (datatypev t ∷ vs) = do ts ← datatypes_of vs; ok (t ∷ ts)
  datatypes_of (_ ∷ vs) = err unspecified

  unfoldable pub array_of : List (Value d) → Result (Value d)
  array_of [] = ok (iarrv [])
  array_of (intv i ∷ vs) = do is ← ints_of (intv i ∷ vs); ok (iarrv is)
  array_of (datatypev t ∷ vs) = do ts ← datatypes_of (datatypev t ∷ vs); ok (darrv ts)
  array_of (_ ∷ vs) = err unspecified

  -- The functions of the measurement library; such a function may assign to variables.
  abbrev pub Calls : Type 0
  Calls = ℕ → List (Value d) → Env → Result (Value d × Env)

  module _ (call_fp : Calls) where
    -- `evaluate_term`: the value that the result variable gets. `evaluate_params` is on the
    -- terms from the parameter `i` on; `evaluate_array` on the elements of an array.
    unfoldable mutual
      pub evaluate_term : Term → Env → Result (Value d × Env)
      evaluate_term (term_value x) env = ok (env x, env)
      evaluate_term (term_unary o t) env = do
        (v, env) ← evaluate_term t env
        w ← unary_op d o v
        ok (w, env)
      evaluate_term (term_binary o l r) env = do
        (left, env) ← evaluate_term l env
        (right, env) ← evaluate_term r env
        w ← binary_op d o left right
        ok (w, env)
      evaluate_term (term_func f interface ts) env = do
        (params, env) ← evaluate_params ts 0 interface env
        call_fp f params env
      evaluate_term (term_array ts) env = do
        (vs, env) ← evaluate_array ts env
        w ← array_of vs
        ok (w, env)

      pub evaluate_params : Terms → ℕ → List VarType → Env → Result (List (Value d) × Env)
      evaluate_params end i interface env = ok ([], env)
      evaluate_params (next t ts) i interface env =
          check (ltb i max_number_params) assertion_failed do
            (v, env) ← evaluate_term t env
            w ← cast_param interface v
            (ws, env) ← evaluate_params ts (suc i) (rest_of interface) env
            ok (w ∷ ws, env)

      pub evaluate_array : Terms → Env → Result (List (Value d) × Env)
      evaluate_array end env = ok ([], env)
      evaluate_array (next t ts) env = do
        (v, env) ← evaluate_term t env
        (vs, env) ← evaluate_array ts env
        ok (v ∷ vs, env)
