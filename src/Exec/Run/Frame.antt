-- ===== src/Exec/Run/Frame.antt =====
-- What every statement leaves as it found it.
use ska_mpi.Prelude.{
  ℕ, zero, suc, ◌≡◌, refl, ap, Bool, true, false, Option, none, some, List, ◌∷◌, if◌then◌else◌,
  if_elim, ltb, length,
}
use ska_mpi.SymbolTable.{VarType}
use ska_mpi.Exec.{stack_full, Result, ok, check}
use ska_mpi.Exec.Value.{Doubles, Value, no_value, binary_op, equal_zero}
use ska_mpi.Exec.Term.{Term, Terms, end, next, evaluate_term, evaluate_params}
use ska_mpi.Exec.Statement.{
  Statement, st_assignment, st_print, st_flush, st_measure, st_arithm_var, st_list_var,
  st_iterator_var, st_if_then, Block, nop, seq, State, World, Loop, push_variable, clear_abort,
  tail_of, within_last, is_new_value, set_variable, tell, prints_rank, iterates, multiple_of,
  visible_value, is_increasing,
}
use ska_mpi.Exec.Run.Holds.{
  Holds, holds, fails, bind-Holds, any_bind, bool_case, bool_back, option_case, holds_ok,
}
use ska_mpi.Exec.Run.{
  value_of, same_again, refining, value_of_option, multiple_of_option, print_terms, measure,
  rounded, advance, execute_statement, execute_one, arithm_loop, refine_loop, list_loop,
  iterator_loop,
}

module _ (d : Doubles) (w : World d) where
  module _ (xs : List ℕ) where
    -- The state has the stack `xs`; so has that of a pair.
    abbrev pub On : State d → Type 0
    On s = s.loopvar_stack ≡ xs

    abbrev pub OnSecond : {A : Type 0} → A × State d → Type 0
    OnSecond p = p.1.loopvar_stack ≡ xs

    value_of-On : (t : Term) (s : State d) → On s → Holds OnSecond (value_of d w t s)
    unfolding value_of
    value_of-On t s e = any_bind (evaluate_term d w.call_fp t s.env) _ (λ _. holds e)

    option-On : (t : Option Term) (s : State d) → On s → Holds OnSecond (value_of_option d w t s)
    unfolding value_of_option
    option-On none s e = holds e
    option-On (some t) s e = value_of-On t s e

    multiple-On :
        (t : Option Term) (s : State d) → On s → Holds OnSecond (multiple_of_option d w t s)
    unfolding multiple_of_option
    multiple-On none s e = holds e
    multiple-On (some t) s e =
        bind-Holds _ (value_of-On t s e) (λ (v, s') e. any_bind (multiple_of d v) _ (λ _. holds e))

    print_terms-On : (ts : Terms) (s : State d) → On s → Holds On (print_terms d w ts s)
    unfolding print_terms
    print_terms-On end s e = holds e
    print_terms-On (next t ts) s e =
        bind-Holds _ (value_of-On t s e) (λ (v, s') e. print_terms-On ts _ e)

    measure-On : (m : ℕ) (s : State d) → On s → Holds On (measure d w m s)
    unfolding measure
    measure-On m s e = any_bind (w.execute_measurement m s.env) _ (λ _. holds e)

    advance-On :
        (l : Loop d) (v : Value d) (s : State d) → On s → Holds OnSecond (advance d w l v s)
    unfolding advance
    advance-On l v s e = bind-Holds _ (value_of-On l.step s e) (λ (step, s') e.
        any_bind (binary_op d l.op v step) _ (λ u. any_bind (visible_value d l u) _ (λ _. holds e)))

  push-On :
      (xs : List ℕ) (x : ℕ) (s : State d) → On xs s → Holds (On (x ∷ xs)) (push_variable d x s)
  push-On xs x s e = go (ltb (length s.loopvar_stack) 10)
    where
      go :
          (b : Bool)
          → Holds
              (On (x ∷ xs))
              (check b stack_full (ok (record s { loopvar_stack = x ∷ s.loopvar_stack })))
      go true = holds (ap (λ ys. x ∷ ys) e)
      go false = fails

  refining-On :
      (xs : List ℕ) (x : ℕ) (b : Bool) (s : State d) → On xs s → On xs (refining d w x b s)
  refining-On xs x true s e = e
  refining-On xs x false s e = e

  -- One of the three loops.
  abbrev pub is_loop : Statement → Bool
  is_loop (st_arithm_var _ _ _ _ _ _ _ _) = true
  is_loop (st_list_var _ _ _) = true
  is_loop (st_iterator_var _ _ _ _ _) = true
  is_loop _ = false

  -- What a statement leaves: the stack, and for a loop a flag that is not set.
  abbrev Left : List ℕ → Statement → State d → Type 0
  Left xs st s = (s.loopvar_stack ≡ xs) × (is_loop st ≡ true → s.abort_inner_loop ≡ false)

  no_loop :
      {xs : List ℕ} (st : Statement) {r : Result (State d)}
      → is_loop st ≡ false
      → Holds (On xs) r
      → Holds (Left xs st) r
  no_loop st n (holds p) = holds (p, λ h. cc)
  no_loop st n fails = fails

  mutual
    unfolding execute_statement

    block-On :
        (xs : List ℕ) (f : ℕ) (b : Block) (s : State d)
        → On xs s
        → Holds (On xs) (execute_statement d w f b s)
    block-On xs zero b s e = fails
    block-On xs (suc f) nop s e = holds e
    block-On xs (suc f) (seq st b) s e =
        bind-Holds _ (one-On xs f st s e) (λ s' e. block-On xs f b s' e.0)

    one-On :
        (xs : List ℕ) (f : ℕ) (st : Statement) (s : State d)
        → On xs s
        → Holds (Left xs st) (execute_one d w f st s)
    one-On xs zero st s e = fails
    one-On xs (suc f) (st_assignment x t) s e =
        no_loop (st_assignment x t) refl (bind-Holds _ (value_of-On xs t s e) (λ _ e. holds e))
    one-On xs (suc f) (st_print flush ts) s e = no_loop (st_print flush ts) refl (
        bind-Holds _ (print_terms-On xs ts (tell d prints_rank s) e)
          (λ s' e. holds (if_elim (On xs) flush (λ _. e) (λ _. e))))
    one-On xs (suc f) st_flush s e = no_loop st_flush refl (holds e)
    one-On xs (suc f) (st_measure m) s e = no_loop (st_measure m) refl (measure-On xs m s e)
    one-On xs (suc f) (st_arithm_var x refine first last step op m body) s e =
        bind-Holds _ (value_of-On xs first s e) (λ (v₁, s₁) e₁.
          bind-Holds _ (option-On xs last s₁ e₁) (λ (v₂, s₂) e₂.
            bind-Holds _ (value_of-On xs step s₂ e₂) (λ (v₃, s₃) e₃.
              bind-Holds _ (multiple-On xs m s₃ e₃) (λ (v₄, s₄) e₄.
                bind-Holds _ (push-On xs x s₄ e₄) (λ s₅ e₅.
                  bind-Holds _ (value_of-On (x ∷ xs) first s₅ e₅) (λ (again, s₆) e₆.
                    any_bind (same_again d w v₁ again) _ (λ v₆.
                      any_bind (is_increasing d op v₁ v₃) _ (λ up.
                        any_bind (rounded d w v₄ v₆) _ (λ v₇. any_bind (rounded d w v₄ v₇) _ (λ v₉.
                          bind-Holds _
                            (arithm-On (x ∷ xs) f _ no_value v₆ _
                              (refining-On (x ∷ xs) x refine _ e₆))
                            (λ s₈ e₈.
                              bind-Holds _
                                (if_elim (Holds (On (x ∷ xs))) refine
                                  (λ _. refine-On (x ∷ xs) f x body s₈ e₈) (λ _. holds e₈))
                                (λ _ e. holds (ap (tail_of d) e, λ _. refl)))))))))))))
    one-On xs (suc f) (st_list_var x ts body) s e = bind-Holds _ (push-On xs x s e) (λ s' e.
        bind-Holds _ (list-On (x ∷ xs) f x ts body (clear_abort d s') e)
          (λ _ e. holds (ap (tail_of d) e, λ _. refl)))
    one-On xs (suc f) (st_iterator_var x i interface ts body) s e =
        bind-Holds _ (push-On xs x s e) (λ s' e.
          bind-Holds _ (iterator-On (x ∷ xs) f x i interface ts body none (clear_abort d s') e)
            (λ _ e. holds (ap (tail_of d) e, λ _. refl)))
    one-On xs (suc f) (st_if_then c t u) s e = no_loop (st_if_then c t u) refl (
        bind-Holds _ (value_of-On xs c s e)
          (λ (v, s') e. any_bind (equal_zero d v) _ (λ z. block-On xs f (if z then u else t) s' e)))

    arithm-On :
        (xs : List ℕ) (f : ℕ) (l : Loop d) (v u : Value d) (s : State d)
        → On xs s
        → Holds (On xs) (arithm_loop d w f l v u s)
    arithm-On xs zero l v u s e = fails
    arithm-On xs (suc f) l v u s e = bool_case s.abort_inner_loop (holds e) (
        any_bind (within_last d l (s.env l.loopvar)) _ (λ go. bool_back go (holds e) (
          any_bind (is_new_value d v (s.env l.loopvar)) _ (λ new.
            bind-Holds _ (bool_case new (block-On xs f l.body (tell d iterates s) e) (holds e))
              (λ s₁ e₁.
                bind-Holds _ (advance-On xs l u s₁ e₁)
                  (λ (u', s₂) e₂. arithm-On xs f l (s₁.env l.loopvar) u' s₂ e₂))))))

    refine-On :
        (xs : List ℕ) (f x : ℕ) (b : Block) (s : State d)
        → On xs s
        → Holds (On xs) (refine_loop d w f x b s)
    refine-On xs zero x b s e = fails
    refine-On xs (suc f) x b s e = option_case (w.set_new_loop_values x s.env) (holds e) (λ v.
        bind-Holds _ (block-On xs f b (tell d iterates (set_variable d x v s)) e)
          (λ s' e'. refine-On xs f x b s' e'))

    list-On :
        (xs : List ℕ) (f x : ℕ) (ts : Terms) (b : Block) (s : State d)
        → On xs s
        → Holds (On xs) (list_loop d w f x ts b s)
    list-On xs zero x ts b s e = fails
    list-On xs (suc f) x end b s e = holds e
    list-On xs (suc f) x (next t ts) b s e = bool_case s.abort_inner_loop (holds e) (
        bind-Holds _ (value_of-On xs t s e) (λ (v, s₁) e₁.
          bind-Holds _ (block-On xs f b (set_variable d x v s₁) e₁)
            (λ s₂ e₂. list-On xs f x ts b s₂ e₂)))

    iterator-On :
        (xs : List ℕ) (f x i : ℕ) (interface : List VarType) (ts : Terms) (b : Block)
        (self : Option ℕ) (s : State d)
        → On xs s
        → Holds (On xs) (iterator_loop d w f x i interface ts b self s)
    iterator-On xs zero x i interface ts b self s e = fails
    iterator-On xs (suc f) x i interface ts b self s e =
        any_bind (evaluate_params d w.call_fp ts 0 interface s.env) _ (λ (params, env).
          any_bind (w.iterator_fp i params self env) _ (λ (r, env).
            option_case r (holds e) (λ (self, v).
              bind-Holds _ (block-On xs f b (set_variable d x v (record s { env = env })) e)
                (λ s' e'.
                  bool_case s'.abort_inner_loop (holds e')
                    (iterator-On xs f x i interface ts b (some self) s' e')))))

  -- Every run of statements that ends without a fault leaves the stack of loop variables as it found it,
  -- loops that a measurement aborted among them.
  pub execute_statement-stack :
      (f : ℕ) (b : Block) (s s' : State d)
      → execute_statement d w f b s ≡ ok s'
      → s'.loopvar_stack ≡ s.loopvar_stack
  execute_statement-stack f b s s' e = holds_ok (block-On s.loopvar_stack f b s refl) e

  -- A loop that a measurement in its body aborts does not abort the loop around it: every loop that ends
  -- without a fault leaves the flag cleared, and the stack of loop variables as it was.
  pub loop_ends_abort :
      (f : ℕ) (st : Statement) (s s' : State d)
      → is_loop st ≡ true
      → execute_one d w f st s ≡ ok s'
      → (s'.abort_inner_loop ≡ false) × (s'.loopvar_stack ≡ s.loopvar_stack)
  loop_ends_abort f st s s' h e =
      let (stack, flag) = holds_ok (one-On s.loopvar_stack f st s refl) e in (flag h, stack)
