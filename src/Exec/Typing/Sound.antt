-- ===== src/Exec/Typing/Sound.antt =====
-- A term that has a type has a value of it, or its arithmetic is undefined.
use mathlib.Core.Option.{some_inj}
use ska_mpi.Prelude.{
  ℕ, ◌≡◌, refl, sym, ap, ap₂, ◌∙◌, subst, Bool, true, false, ◌&&◌, Option, none, some, List, [],
  ◌∷◌,
}
use ska_mpi.Prelude.Int.{ℤ}
use ska_mpi.SymbolTable.{
  VarType, integer, double, string, datatype, comm, op, info, void, iarray, darray,
}
use ska_mpi.Exec.{
  Op, op_add, op_sub, op_mult, op_div, op_lt, op_le, op_gt, op_ge, op_eq, op_neq, unspecified,
  Result, ok, err, ◌>>=◌,
}
use ska_mpi.Exec.Value.{
  Doubles, Value, intv, doublev, datatypev, type_of, get_result_type2, same_type, convert,
  cast_variable, double_op, op_of_type, binary_op,
}
use ska_mpi.Exec.Typing.{type_unary, type_binary, type_array, is_type, infer, all_of}
use ska_mpi.Exec.Typing.Ops.{
  IsSafe, value, overflows, divides, HasType, unary_op-HasType, binary_op-HasType,
}
use ska_mpi.Exec.Term.{
  Term, Terms, term_value, term_unary, term_binary, term_func, term_array, end, next, Env, Calls,
  evaluate_term, evaluate_array, ints_of, datatypes_of, array_of,
}

bind-eq-some :
    {A B : Type 0} (o : Option A) (k : A → Option B) {b : B}
    → elim o [ none ↦ none | some a ↦ k a ] ≡ some b
    → (a : A) × ((o ≡ some a) × (k a ≡ some b))
bind-eq-some none k h = cc
bind-eq-some (some a) k h = (a, (refl, h))

and_true : (a b : Bool) → (a && b) ≡ true → (a ≡ true) × (b ≡ true)
and_true true b h = (refl, h)
and_true false b h = cc

is_type-some : (type : VarType) (o : Option VarType) → is_type type o ≡ true → o ≡ some type
unfolding same_type
is_type-some type none h = cc
is_type-some type (some other) h = ap some (sym (go type other h))
  where
    go : (s t : VarType) → same_type s t ≡ true → s ≡ t
    go integer integer h = refl
    go double double h = refl
    go string string h = refl
    go datatype datatype h = refl
    go comm comm h = refl
    go op op h = refl
    go info info h = refl
    go void void h = refl
    go iarray iarray h = refl
    go darray darray h = refl
    go _ _ h = cc

module _ (d : Doubles) (call_fp : Calls d) where
  bind-IsSafe :
      {A B : Type 0} {P : A → Type 0} {Q : B → Type 0} {r : Result A} (k : A → Result B)
      → IsSafe d A P r
      → ((a : A) → P a → IsSafe d B Q (k a))
      → IsSafe d B Q (r >>= k)
  bind-IsSafe k (value a p) f = f a p
  bind-IsSafe k overflows f = overflows
  bind-IsSafe k divides f = divides

  abbrev pub Typed : VarType → Env d → Value d × Env d → Type 0
  Typed type env p = (type_of d p.0 ≡ type) × (p.1 ≡ env)

  abbrev AllHave : VarType → List (Value d) → Type 0
  AllHave type [] = Unit
  AllHave type (v ∷ vs) = (type_of d v ≡ type) × AllHave type vs

  abbrev Full : VarType → List (Value d) → Type 0
  Full type [] = ⊥
  Full type (v ∷ vs) = (type_of d v ≡ type) × AllHave type vs

  -- The types of arrays, of integers or of datatypes.
  data ArrayOf : VarType → VarType → Type 0 where
    ints : ArrayOf integer iarray
    datatypes : ArrayOf datatype darray

  ints_of_ints : (vs : List (Value d)) → AllHave integer vs → (is : List ℤ) × (ints_of d vs ≡ ok is)
  unfolding ints_of
  ints_of_ints [] h = ([], refl)
  ints_of_ints (intv i ∷ vs) h = let (is, e) = ints_of_ints vs h.1 in (i ∷ is, rw e refl)
  ints_of_ints (_ ∷ vs) h = cc (h.0)

  datatypes_of_datatypes :
      (vs : List (Value d)) → AllHave datatype vs → (ts : List ℕ) × (datatypes_of d vs ≡ ok ts)
  unfolding datatypes_of
  datatypes_of_datatypes [] h = ([], refl)
  datatypes_of_datatypes (datatypev t ∷ vs) h =
      let (ts, e) = datatypes_of_datatypes vs h.1 in (t ∷ ts, rw e refl)
  datatypes_of_datatypes (_ ∷ vs) h = cc (h.0)

  array_of-HasType :
      (s type : VarType)
      → ArrayOf s type
      → (vs : List (Value d)) → Full s vs
      → HasType d type (array_of d vs)
  unfolding array_of
  array_of-HasType s type k [] h = absurd h
  array_of-HasType s type ints (intv i ∷ vs) h =
      let (is, e) = ints_of_ints (intv i ∷ vs) h in rw e (value _ refl)
  array_of-HasType s type datatypes (datatypev t ∷ vs) h =
      let (ts, e) = datatypes_of_datatypes (datatypev t ∷ vs) h in rw e (value _ refl)
  array_of-HasType s type ints (_ ∷ vs) h = cc (h.0)
  array_of-HasType s type datatypes (_ ∷ vs) h = cc (h.0)

  module _ (types : ℕ → VarType) (env : Env d) (typed : (x : ℕ) → type_of d (env x) ≡ types x) where
    infer_next :
        (t : Term) (ts : Terms) (type : VarType)
        → type_array (infer types t) (all_of types integer ts) (all_of types datatype ts)
          ≡ some type
        → (s : VarType) × ((infer types t ≡ some s) × ((all_of types s ts ≡ true) × ArrayOf s type))
    infer_next t ts type h =
        go (infer types t) (all_of types integer ts) (all_of types datatype ts) refl refl refl h
      where
        go :
            (o : Option VarType) (a b : Bool)
            → infer types t ≡ o
            → all_of types integer ts ≡ a
            → all_of types datatype ts ≡ b
            → type_array o a b ≡ some type
            → (s : VarType) × ((infer types t ≡ some s)
                × ((all_of types s ts ≡ true) × ArrayOf s type))
        go (some integer) true b e f g k =
            (integer, (e, (f, subst (ArrayOf integer) (some_inj.0 k) ints)))
        go (some datatype) a true e f g k =
            (datatype, (e, (g, subst (ArrayOf datatype) (some_inj.0 k) datatypes)))
        go _ _ _ e f g k = cc

    mutual
      unfolding infer evaluate_term array_of

      term-IsSafe :
          (t : Term) (type : VarType)
          → infer types t ≡ some type
          → IsSafe d (Value d × Env d) (Typed type env) (evaluate_term d call_fp t env)
      term-IsSafe (term_value x) type h = value _ (typed x ∙ (some_inj.0 h), refl)
      term-IsSafe (term_unary o t) type h =
          let (s, (e, k)) = bind-eq-some (infer types t) (type_unary o) h in
          bind-IsSafe _ (term-IsSafe t s e) (λ (v, env') (tv, same).
            bind-IsSafe _ (unary_op-HasType d o v type (ap (type_unary o) tv ∙ k))
              (λ w tw. value _ (tw, same)))
      term-IsSafe (term_binary o l r) type h =
          let (s, (e, k)) = bind-eq-some (infer types l) _ h in
          let (s', (e', k')) = bind-eq-some (infer types r) (type_binary o s) k in
          bind-IsSafe _ (term-IsSafe l s e) (λ (v, env') (tv, same). rw same (
            bind-IsSafe _ (term-IsSafe r s' e') (λ (w, env'') (tw, same').
              bind-IsSafe _ (binary_op-HasType d o v w type (ap₂ (type_binary o) tv tw ∙ k'))
                (λ u tu. value _ (tu, same')))))
      term-IsSafe (term_func _ _ _) type h = cc
      term-IsSafe (term_array end) type h = value _ (some_inj.0 h, refl)
      term-IsSafe (term_array (next t ts)) type h =
          let (s, (e, (all, ok_type))) = infer_next t ts type h in
          bind-IsSafe _
            (bind-IsSafe {Q = λ (p : List (Value d) × Env d). Full s p.0 × (p.1 ≡ env)} _
              (term-IsSafe t s e)
              (λ (v, env') (tv, same). rw same (
                bind-IsSafe _ (array-IsSafe ts s all)
                  (λ (vs, env'') (tvs, same'). value _ ((tv, tvs), same')))))
            (λ (vs, env') (full, same).
              bind-IsSafe _ (array_of-HasType s type ok_type vs full) (λ w tw. value _ (tw, same)))

      array-IsSafe :
          (ts : Terms) (type : VarType)
          → all_of types type ts ≡ true
          → IsSafe d
              (List (Value d) × Env d)
              (λ p. AllHave type p.0 × (p.1 ≡ env))
              (evaluate_array d call_fp ts env)
      array-IsSafe end type h = value _ (tt, refl)
      array-IsSafe (next t ts) type h =
          let (a, b) = and_true _ _ h in
          bind-IsSafe _ (term-IsSafe t type (is_type-some type _ a)) (λ (v, env') (tv, same).
            rw same (
              bind-IsSafe _ (array-IsSafe ts type b)
                (λ (vs, env'') (tvs, same'). value _ ((tv, tvs), same'))))

-- A comparison.
abbrev pub is_comparison : Op → Bool
is_comparison op_lt = true
is_comparison op_le = true
is_comparison op_gt = true
is_comparison op_ge = true
is_comparison op_eq = true
is_comparison op_neq = true
is_comparison _ = false

abbrev pub is_number : VarType → Bool
is_number integer = true
is_number double = true
is_number _ = false

double_op_comparison :
    (d : Doubles) (o : Op) (a b : d.Double)
    → is_comparison o ≡ true
    → double_op d o a b ≡ err unspecified
unfolding double_op
double_op_comparison d op_add a b h = cc
double_op_comparison d op_sub a b h = cc
double_op_comparison d op_mult a b h = cc
double_op_comparison d op_div a b h = cc
double_op_comparison d _ a b h = refl

-- A comparison of two numbers of which one is a double sets no value.
pub comparison_of_doubles :
    (d : Doubles) (o : Op) (v w : Value d)
    → is_comparison o ≡ true
    → is_number (type_of d v) ≡ true
    → is_number (type_of d w) ≡ true
    → get_result_type2 (type_of d v) (type_of d w) ≡ double
    → binary_op d o v w ≡ err unspecified
unfolding binary_op cast_variable same_type convert op_of_type
comparison_of_doubles d o (intv a) (intv b) h k l e = cc
comparison_of_doubles d o (intv a) (doublev b) h k l e = double_op_comparison d o (d.of_int a) b h
comparison_of_doubles d o (doublev a) (intv b) h k l e = double_op_comparison d o a (d.of_int b) h
comparison_of_doubles d o (doublev a) (doublev b) h k l e = double_op_comparison d o a b h
comparison_of_doubles d o (intv _) _ h k l e = cc
comparison_of_doubles d o (doublev _) _ h k l e = cc
comparison_of_doubles d o _ _ h k l e = cc
