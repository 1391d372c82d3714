-- ===== src/Exec/Run/Counting.antt =====
-- Loops over numbers end.
use ska_mpi.Prelude.{
  ℕ, zero, suc, ◌+◌, ◌-◌, ◌≤◌, ◌<◌, ◌≡◌, ◌≢◌, refl, sym, subst, Bool, true, false, none, some, ◌∷◌,
  ltb, ◌==◌, if◌then◌else◌, arith, dec_lt, length,
}
use ska_mpi.Prelude.Int.{pos, pos-add, ltb_ℤ}
use ska_mpi.SymbolTable.{integer}
use ska_mpi.Exec.{op_add, Fault, stack_full, out_of_fuel, Result, ok, err, ◌>>=◌, check}
use ska_mpi.Exec.Value.{
  Doubles, Value, no_value, intv, doublev, in_range, store_int, binary_op, cast_variable, same_type,
  op_of_type, int_op, cmp_var, sign_var,
}
use ska_mpi.Exec.Term.{Term, Env, assign, evaluate_term}
use ska_mpi.Exec.Statement.{
  st_arithm_var, Block, State, World, Loop, iterates, tell, is_increasing, push_variable,
  within_last, is_new_value, visible_value,
}
use ska_mpi.Exec.Run.{
  value_of, value_of_option, multiple_of_option, rounded, same_again, advance, execute_statement,
  execute_one, arithm_loop,
}

-- A run that does not lack fuel, with a property of the value.
pub data Ends {A : Type 0} (P : A → Type 0) : Result A → Type 0 where
  ends : {a : A} → P a → Ends P (ok a)
  stops : {e : Fault} → e ≢ out_of_fuel → Ends P (err e)

bind-Ends :
    {A B : Type 0} {P : A → Type 0} {Q : B → Type 0} {r : Result A} (k : A → Result B)
    → Ends P r
    → ((a : A) → P a → Ends Q (k a))
    → Ends Q (r >>= k)
bind-Ends k (ends p) f = f _ p
bind-Ends k (stops n) f = stops n

bool-Ends :
    {A : Type 0} {P : A → Type 0} (b : Bool) {x y : Result A}
    → Ends P x
    → Ends P y
    → Ends P (elim b [ true ↦ x | false ↦ y ])
bool-Ends true hx hy = hx
bool-Ends false hx hy = hy

abbrev pub Always : {A : Type 0} → A → Type 0
Always _ = Unit

module _ (d : Doubles) (w : World d) where
  cmp_var-Ends : (u v : Value d) → Ends Always (cmp_var d u v)
  unfolding cmp_var
  cmp_var-Ends (intv a) (intv b) = ends tt
  cmp_var-Ends (intv a) (doublev b) = ends tt
  cmp_var-Ends (doublev a) (intv b) = ends tt
  cmp_var-Ends (doublev a) (doublev b) = ends tt
  cmp_var-Ends _ _ = stops (λ e. cc)

  is_new_value-Ends : (u v : Value d) → Ends Always (is_new_value d u v)
  unfolding is_new_value
  is_new_value-Ends no_value v = ends tt
  is_new_value-Ends _ v = bind-Ends _ (cmp_var-Ends _ v) (λ _ _. ends tt)

  push-Ends : (x : ℕ) (s : State d) → Ends (λ s'. s'.env ≡ s.env) (push_variable d x s)
  push-Ends x s = go (ltb (length s.loopvar_stack) 10)
    where
      go :
          (b : Bool)
          → Ends
              (λ s'. s'.env ≡ s.env)
              (check b stack_full (ok (record s { loopvar_stack = x ∷ s.loopvar_stack })))
      go true = ends refl
      go false = stops (λ e. cc)

  assigned : (x : ℕ) (v : Value d) (env : Env d) → assign d x v env x ≡ v
  unfolding assign
  assigned x v env = let same : (x == x) ≡ true = ground arith in rw same refl

  -- What the loop keeps of the variables, whatever its own variable holds.
  module _ (Kept : Env d → Type 0) where
    -- A term with one value, which it leaves the variables for.
    abbrev pub IsConstant : Term → Value d → Type 0
    IsConstant t v = (env : Env d) → Kept env → evaluate_term d w.call_fp t env ≡ ok (v, env)

    abbrev pub IsFree : ℕ → Type 0
    IsFree x = (v : Value d) (env : Env d) → Kept env → Kept (assign d x v env)

    abbrev pub KeptIn : State d → Type 0
    KeptIn s = Kept s.env

    -- A block that ends with so much fuel.
    abbrev pub EndsWith : ℕ → Block → Type 0
    EndsWith fuel body =
        (f : ℕ) (s : State d) → fuel ≤ f → KeptIn s → Ends KeptIn (execute_statement d w f body s)

    module _ (x n k fuel : ℕ) (step : Term) (body : Block)
        (step_value : IsConstant step (intv (pos (suc k)))) (free : IsFree x)
        (room : n + suc k ≤ 2_147_483_647) (body_ends : EndsWith fuel body) where
      -- `for x = ... to n step +(k + 1)`
      abbrev counting : Loop d
      counting = record {
        loopvar = x;
        last = intv (pos n);
        step = step;
        op = op_add;
        multipleof = none;
        first_type = integer;
        increasing = true;
        body = body;
      }

      within :
          (i : ℕ) → within_last d counting (intv (pos i)) ≡ ok (if ltb n i then false else true)
      unfolding within_last cmp_var
      within i = ground arith

      -- A value of the loop, which is the one that its variable holds.
      abbrev At : ℕ → Value d × State d → Type 0
      At i p = (p.0 ≡ intv (pos i)) × ((p.1.env x ≡ intv (pos i)) × KeptIn p.1)

      -- The next round is at `i + (k + 1)`.
      advances :
          (i : ℕ) (s : State d)
          → i ≤ n
          → KeptIn s
          → Ends (At (i + suc k)) (advance d w counting (intv (pos i)) s)
      unfolding advance value_of binary_op cast_variable same_type op_of_type int_op store_int
          visible_value
      advances i s h kept =
          let t : in_range (pos (i + suc k)) ≡ true = ground arith in
          rw (step_value s.env kept, pos-add i (suc k), t)
            (ends (refl, (assigned x _ s.env, free _ s.env kept)))

      -- The loop from the value `i` of its variable on, with more fuel than the body and the rounds need.
      arithm_loop-Ends :
          (f i : ℕ) (last_loopvar : Value d) (s : State d)
          → fuel + (n + 1 - i) < f
          → s.env x ≡ intv (pos i)
          → KeptIn s
          → Ends KeptIn (arithm_loop d w f counting last_loopvar (intv (pos i)) s)
      unfolding execute_statement
      arithm_loop-Ends zero i v s h e kept = absurd (omega arith)
      arithm_loop-Ends (suc f) i v s h e kept = bool-Ends s.abort_inner_loop (ends kept) (
          rw (e, within i)
            (elim (dec_lt n i) [
              | yes t ↦ let u : ltb n i ≡ true = ground arith in rw u (ends kept)
              | no t ↦
                  let u : ltb n i ≡ false = ground arith in
                  rw u (
                    bind-Ends _ (is_new_value-Ends v (s.env x)) (λ new _.
                      bind-Ends _
                        (bool-Ends new (body_ends f (tell d iterates s) (omega arith) kept)
                          (ends kept))
                        (λ s₁ kept₁.
                          bind-Ends _ (advances i s₁ (omega arith) kept₁)
                            (λ (v₂, s₂) (a, (b, kept₂)). rw a (
                              arithm_loop-Ends f (i + suc k) (s₁.env x) s₂ (omega arith) b
                                kept₂)))))
            ]))

    -- `for x = a to n step +(k + 1)`, with no `multipleof` and no refinement, where the first number `a` and the
    -- last number `n` are not negative, the step is positive, and their sum `n + (k + 1)` is in the range of
    -- `int`. There is a property of the variables that holds at the start, that assignments to the loop
    -- variable and the body keep, and under which the three terms have these values and change no variable.
    -- The body, started with at least the fuel `fuel`, ends. Then the loop ends, whatever its body does to the
    -- loop variable: a run with more fuel than `fuel + n + 2` is not out of fuel, and keeps the property.
    pub execute_one-Ends :
        (x a n k fuel f : ℕ) (first last step : Term) (body : Block) (s : State d)
        → IsConstant first (intv (pos a))
        → IsConstant last (intv (pos n))
        → IsConstant step (intv (pos (suc k)))
        → IsFree x
        → n + suc k ≤ 2_147_483_647
        → EndsWith fuel body
        → fuel + n + 2 < f
        → KeptIn s
        → Ends KeptIn
            (execute_one d w f (st_arithm_var x false first (some last) step op_add none body) s)
    unfolding execute_statement value_of value_of_option multiple_of_option rounded is_increasing
        sign_var same_again same_type
    execute_one-Ends x a n k fuel zero first last step body s p q r free room b h kept =
        absurd (omega arith)
    execute_one-Ends x a n k fuel (suc f) first last step body s p q r free room b h kept =
        rw (p s.env kept, q s.env kept, r s.env kept)
          (bind-Ends _ (push-Ends x s) (λ s₁ e.
            let up : ltb_ℤ (pos 0) (pos (suc k)) ≡ true = ground arith in
            let kept₁ : Kept s₁.env = subst Kept (sym e) kept in
            rw (p s₁.env kept₁) (
              rw up (
                bind-Ends _
                  (arithm_loop-Ends x n k fuel step body r free room b f a no_value _ (omega arith)
                    (assigned x _ s₁.env) (free _ _ kept₁))
                  (λ _ k. ends k)))))
