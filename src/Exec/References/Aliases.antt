-- ===== src/Exec/References/Aliases.antt =====
-- Two assignments that free an object which a variable still refers to.
use ska_mpi.Prelude.{
  ℕ, suc, ◌≡◌, ◌≢◌, refl, sym, ap, ◌∙◌, true, false, none, some, List, ◌∷◌, ◌==◌, arith,
}
use ska_mpi.SymbolTable.{integer}
use ska_mpi.Exec.References.{
  Store, needs_reference_counter, put, increase_reference, decrease_reference, copy_variable,
  store_result,
}
use ska_mpi.Exec.References.Holders.{is_freed, put-eq, put-ne}
use ska_mpi.Exec.References.Copies.{given, counted_at, increase_none, increase_free}

-- The object of a variable that is given up, the last holder or one without a counter.
decrease_last :
    (x a : ℕ) (s : Store)
    → needs_reference_counter (s.vars x).type ≡ true
    → (s.vars x).ref_counter ≡ some a
    → s.counts a ≡ 1
    → decrease_reference x s ≡ record s {
      vars = put x (record (s.vars x) { ref_counter = none }) s.vars;
      counts = put a 0 s.counts;
      freed = (s.vars x).object ∷ s.freed;
    }
unfolding decrease_reference
decrease_last x a s t r last = rw (t, r, last) refl

decrease_free :
    (x : ℕ) (s : Store)
    → needs_reference_counter (s.vars x).type ≡ false
    → decrease_reference x s ≡ s
unfolding decrease_reference
decrease_free x s t = rw t refl

freed_now : (o : ℕ) (l : List ℕ) → is_freed o (o ∷ l) ≡ true
unfolding is_freed
freed_now o l = let t : (o == o) ≡ true = ground arith in rw t refl

-- An assignment of a variable to itself, when it is the last holder of its object, frees the object, and
-- the variable refers to it with a new counter.
pub copy_to_itself :
    (x a : ℕ) (s : Store)
    → needs_reference_counter (s.vars x).type ≡ true
    → (s.vars x).ref_counter ≡ some a
    → s.counts a ≡ 1
    → (is_freed (s.vars x).object (copy_variable x x s).freed ≡ true)
      × ((copy_variable x x s).vars x ≡ record (s.vars x) { ref_counter = some s.fresh })
unfolding copy_variable
copy_to_itself x a s t r last =
    let v = given (s.vars x).type (s.vars x).object in
    let t' : Store = record s {
      vars = put x v s.vars;
      counts = put a 0 s.counts;
      freed = (s.vars x).object ∷ s.freed;
    } in
    rw
      (
        decrease_last x a s t r last,
        put-eq x v s.vars,
        increase_none x (s.vars x).type (s.vars x).object t' t,
      )
      (freed_now _ _, put-eq x _ _)

-- The store behind the copy of a variable whose object has no counter.
abbrev copied : (x y : ℕ) → Store → Store
copied x y s = record s {
  vars = put x (counted_at (s.vars y).type (s.vars y).object s.fresh) s.vars;
  counts = put s.fresh 1 s.counts;
  fresh = suc s.fresh;
}

copy_variable-none :
    (x y : ℕ) (s : Store)
    → needs_reference_counter (s.vars y).type ≡ true
    → (s.vars y).ref_counter ≡ none
    → needs_reference_counter (s.vars x).type ≡ false
    → copy_variable x y s ≡ copied x y s
unfolding copy_variable
copy_variable-none x y s t r u = rw (decrease_free x s u) (
    ap
      (λ r.
        increase_reference x
          (record s { vars = put x (record (s.vars y) { ref_counter = r }) s.vars }))
      r
    ∙ increase_none x (s.vars y).type (s.vars y).object s t)

-- The store behind an integer for a variable that is the last holder.
store_integer_last :
    (x a i : ℕ) (s : Store)
    → needs_reference_counter (s.vars x).type ≡ true
    → (s.vars x).ref_counter ≡ some a
    → s.counts a ≡ 1
    → store_result x integer i s ≡ record s {
      vars = put x (given integer i) (put x (record (s.vars x) { ref_counter = none }) s.vars);
      counts = put a 0 s.counts;
      freed = (s.vars x).object ∷ s.freed;
    }
unfolding store_result needs_reference_counter
store_integer_last x a i s t r last =
    rw (decrease_last x a s t r last) (increase_free x (given integer i) _ refl)

-- A variable whose object has no counter, as an array that was written out, is copied to another one, which
-- is then given an integer by a function: the object is freed, and the first variable refers to it.
pub copy_uncounted :
    (x y i : ℕ) (s : Store)
    → x ≢ y
    → needs_reference_counter (s.vars y).type ≡ true
    → (s.vars y).ref_counter ≡ none
    → needs_reference_counter (s.vars x).type ≡ false
    → (is_freed (s.vars y).object (store_result x integer i (copy_variable x y s)).freed ≡ true)
      × ((store_result x integer i (copy_variable x y s)).vars y ≡ s.vars y)
copy_uncounted x y i s n' t r u =
    let w = counted_at (s.vars y).type (s.vars y).object s.fresh in
    rw
      (
        copy_variable-none x y s t r u,
        store_integer_last x s.fresh i (copied x y s) (rw (put-eq x w s.vars) t)
            (rw (put-eq x w s.vars) refl) (put-eq s.fresh 1 s.counts),
        put-eq x w s.vars,
      )
      (freed_now _ _, put-ne x _ _ y n'' ∙ put-ne x _ _ y n'' ∙ put-ne x _ _ y n'')
  where
    n'' : y ≢ x
    n'' e = n' (sym e)
