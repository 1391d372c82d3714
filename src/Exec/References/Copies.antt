-- ===== src/Exec/References/Copies.antt =====
-- Copies of variables, and results of functions.
use ska_mpi.Prelude.{
  ℕ, suc, ◌+◌, ◌-◌, ◌<◌, ◌≡◌, ◌≢◌, refl, sym, subst, Bool, true, false, Option, none, some, ◌∷◌,
  ◌==◌, if◌then◌else◌, if_elim, arith, ℕ_discrete, dec_lt,
}
use ska_mpi.SymbolTable.{VarType}
use ska_mpi.Exec.References.{
  Variable, Store, needs_reference_counter, put, increase_reference, decrease_reference,
  copy_variable, store_result,
}
use ska_mpi.Exec.References.Holders.{counter, is_freed, put-eq, put-ne, holders-positive}
use ska_mpi.Exec.References.Counted.{
  IsCounted, forget-IsCounted, forget_holders, counter-some, counter-none,
  decrease_reference-IsCounted,
}
use ska_mpi.Exec.References.Held.{hold-IsCounted, put_twice}

-- What decrease_reference does, by the counter of the variable.
data Decreased (x : ℕ) (s : Store) : Store → Type 0 where
  stays : counter (s.vars x) ≡ none → Decreased x s s
  drops :
      (a : ℕ)
      → counter (s.vars x) ≡ some a
      → Decreased x s (record s {
        vars = put x (record (s.vars x) { ref_counter = none }) s.vars;
        counts = put a (s.counts a - 1) s.counts;
        freed = if s.counts a == 1 then (s.vars x).object ∷ s.freed else s.freed;
      })

decrease_reference-Decreased : (x : ℕ) (s : Store) → Decreased x s (decrease_reference x s)
unfolding decrease_reference counter
decrease_reference-Decreased x s =
    go (needs_reference_counter (s.vars x).type) (s.vars x).ref_counter refl refl
  where
    go :
        (b : Bool) (o : Option ℕ)
        → needs_reference_counter (s.vars x).type ≡ b
        → (s.vars x).ref_counter ≡ o
        → Decreased x s (decrease_reference x s)
    go false o t r = rw t (stays (rw t refl))
    go true none t r = rw (t, r) (stays (rw (t, r) refl))
    go true (some a) t r = rw (t, r) (drops a (rw (t, r) refl))

module _ {x : ℕ} {s : Store} where
  other_kept : {t : Store} → Decreased x s t → (y : ℕ) → y ≢ x → t.vars y ≡ s.vars y
  other_kept (stays e) y n' = refl
  other_kept (drops a e) y n' = put-ne x _ s.vars y n'

  counter_dropped : {t : Store} → Decreased x s t → counter (t.vars x) ≡ none
  counter_dropped (stays e) = e
  counter_dropped (drops a e) = rw (put-eq x _ s.vars) (counter-none _ refl)

  still_live :
      {t : Store}
      → Decreased x s t
      → (o : ℕ) → is_freed o s.freed ≡ false
      → ((a : ℕ) → counter (s.vars x) ≡ some a → (s.vars x).object ≢ o)
      → is_freed o t.freed ≡ false
  unfolding is_freed
  still_live (stays e) o f g = f
  still_live (drops a e) o f g =
      if_elim (λ l. is_freed o l ≡ false) (s.counts a == 1)
        (λ _.
          let p = g a e in
          let q : (o == (s.vars x).object) ≡ false = ground arith in rw (q, f) refl)
        (λ _. f)

-- A variable gets a value that needs no counter.
give_up-IsCounted :
    (n x : ℕ) (s : Store) (v : Variable)
    → x < n
    → IsCounted n s
    → counter v ≡ none
    → IsCounted n (record s { vars = put x v s.vars })
give_up-IsCounted n x s v h c e =
    forget-IsCounted n x s v h c e s.counts s.freed
      (λ a. let p = forget_holders n x s v h c e a in let q = c.enough a in omega arith)
      (λ z a t _ k. c.live z a t k)

no_counter : (v : Variable) → needs_reference_counter v.type ≡ false → counter v ≡ none
unfolding counter
no_counter v t = rw t refl

-- A variable gets the value of one that is counted, or that needs no counter.
increase_reference-copied :
    (n x y : ℕ) (s : Store)
    → x < n
    → y < n
    → IsCounted n s
    → counter (s.vars x) ≡ none
    → (needs_reference_counter (s.vars y).type ≡ true → (a : ℕ) × ((s.vars y).ref_counter ≡ some a))
    → IsCounted n (increase_reference x (record s { vars = put x (s.vars y) s.vars }))
unfolding increase_reference
increase_reference-copied n x y s h k c e tracked =
    go (needs_reference_counter (s.vars y).type) refl
  where
    go :
        (b : Bool)
        → needs_reference_counter (s.vars y).type ≡ b
        → IsCounted n (increase_reference x (record s { vars = put x (s.vars y) s.vars }))
    go false t =
        rw (put-eq x (s.vars y) s.vars, t)
          (give_up-IsCounted n x s (s.vars y) h c (no_counter (s.vars y) t))
    go true t =
        let (a, r) = tracked t in
        rw (put-eq x (s.vars y) s.vars, t, r)
          (let e' = counter-some (s.vars y) a t r in
            hold-IsCounted n x a s (s.vars y) (put a (s.counts a + 1) s.counts) s.fresh h c e e'
              (c.live y a k e') (λ z b t l o. c.one z y b a t k l e' o)
              (rw (put-eq a (s.counts a + 1) s.counts) (let p = c.enough a in omega arith))
              (λ b n'. rw (put-ne a (s.counts a + 1) s.counts b n') (omega arith))
              (let p = holders-positive n a y s.vars k e' in
                elim (dec_lt a s.fresh) [
                  | yes l ↦ l
                  | no l ↦ let q = c.unused a (omega arith) in absurd (omega arith)
                ])
              (omega arith))

abbrev pub given : VarType → ℕ → Variable
given type o = record { type = type; object = o; ref_counter = none }

abbrev pub counted_at : VarType → ℕ → ℕ → Variable
counted_at type o a = record { type = type; object = o; ref_counter = some a }

-- A counter for a variable that gets an object without one.
pub increase_none :
    (x : ℕ) (type : VarType) (o : ℕ) (s : Store)
    → needs_reference_counter type ≡ true
    → increase_reference x (record s { vars = put x (given type o) s.vars }) ≡ record s {
      vars = put x (counted_at type o s.fresh) s.vars;
      counts = put s.fresh 1 s.counts;
      fresh = suc s.fresh;
    }
unfolding increase_reference
increase_none x type o s t =
    rw (put-eq x (given type o) s.vars, t)
      (rw
        (
          put-eq x (given type o) s.vars,
          put_twice x (given type o) (counted_at type o s.fresh) s.vars,
        )
        refl)

pub increase_free :
    (x : ℕ) (v : Variable) (s : Store)
    → needs_reference_counter v.type ≡ false
    → increase_reference x (record s { vars = put x v s.vars }) ≡ record s { vars = put x v s.vars }
unfolding increase_reference
increase_free x v s t = rw (put-eq x v s.vars, t) refl

-- A variable gets a new object.
increase_reference-new :
    (n x : ℕ) (type : VarType) (o : ℕ) (s : Store)
    → x < n
    → IsCounted n s
    → counter (s.vars x) ≡ none
    → is_freed o s.freed ≡ false
    → ((y a : ℕ) → y < n → counter (s.vars y) ≡ some a → (s.vars y).object ≢ o)
    → IsCounted n (increase_reference x (record s { vars = put x (given type o) s.vars }))
increase_reference-new n x type o s h c e f g = go (needs_reference_counter type) refl
  where
    go :
        (b : Bool)
        → needs_reference_counter type ≡ b
        → IsCounted n (increase_reference x (record s { vars = put x (given type o) s.vars }))
    go false t =
        rw (increase_free x (given type o) s t)
          (give_up-IsCounted n x s (given type o) h c (no_counter (given type o) t))
    go true t =
        let w = counted_at type o s.fresh in
        rw (increase_none x type o s t) (
          hold-IsCounted n x s.fresh s w (put s.fresh 1 s.counts) (suc s.fresh) h c e
            (counter-some w s.fresh t refl) f (λ y b t k same. absurd (g y b t k same))
            (rw (put-eq s.fresh 1 s.counts) (let p = c.unused s.fresh (omega arith) in omega arith))
            (λ b n'. rw (put-ne s.fresh 1 s.counts b n') (omega arith)) (omega arith) (omega arith))

-- The copy of a variable that is counted, or that needs no counter, to another one keeps the counters:
-- an object that the old value was the last holder of is freed, and no object that is still held.
pub copy_variable-IsCounted :
    (n x y : ℕ) (s : Store)
    → x < n
    → y < n
    → y ≢ x
    → IsCounted n s
    → (needs_reference_counter (s.vars y).type ≡ true → (a : ℕ) × ((s.vars y).ref_counter ≡ some a))
    → IsCounted n (copy_variable x y s)
unfolding copy_variable
copy_variable-IsCounted n x y s h k n' c tracked =
    let cases = decrease_reference-Decreased x s in
    let same = other_kept cases y n' in
    increase_reference-copied n x y (decrease_reference x s) h k
      (decrease_reference-IsCounted n x s h c) (counter_dropped cases)
      (subst (λ v. needs_reference_counter v.type ≡ true → (a : ℕ) × (v.ref_counter ≡ some a))
        (sym same) tracked)

-- So does the storing of a new object.
pub store_result-IsCounted :
    (n x : ℕ) (type : VarType) (o : ℕ) (s : Store)
    → x < n
    → IsCounted n s
    → is_freed o s.freed ≡ false
    → ((y a : ℕ) → y < n → counter (s.vars y) ≡ some a → (s.vars y).object ≢ o)
    → IsCounted n (store_result x type o s)
unfolding store_result
store_result-IsCounted n x type o s h c f g =
    let cases = decrease_reference-Decreased x s in
    increase_reference-new n x type o (decrease_reference x s) h
      (decrease_reference-IsCounted n x s h c) (counter_dropped cases)
      (still_live cases o f (λ a. g x a h)) still_new
  where
    still_new :
        (y a : ℕ)
        → y < n
        → counter ((decrease_reference x s).vars y) ≡ some a
        → ((decrease_reference x s).vars y).object ≢ o
    still_new y a t k = elim (ℕ_discrete y x) [
      | yes p ↦
          let q : counter ((decrease_reference x s).vars x) ≡ some a =
            subst (λ z. counter ((decrease_reference x s).vars z) ≡ some a) p k in
          let r = counter_dropped (decrease_reference-Decreased x s) in cc
      | no p ↦
          let same = other_kept (decrease_reference-Decreased x s) y p in
          rw same (g y a t (subst (λ v. counter v ≡ some a) same k))
    ]
