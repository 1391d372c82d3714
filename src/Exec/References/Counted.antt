-- ===== src/Exec/References/Counted.antt =====
-- No object is freed while a variable is counted as one of its holders.
use ska_mpi.Prelude.{
  ℕ, ◌+◌, ◌-◌, ◌≤◌, ◌<◌, ◌≡◌, ◌≢◌, refl, sym, ap, ◌∙◌, subst, Bool, true, false, Option, none, some,
  List, ◌∷◌, ◌==◌, if◌then◌else◌, if_elim, arith, ℕ_discrete,
}
use ska_mpi.Exec.References.{Variable, Store, needs_reference_counter, put, decrease_reference}
use ska_mpi.Exec.References.Holders.{
  counter, holds, holders, is_freed, put-eq, put-ne, holders-put, holders-positive,
}

-- The counters of the first `n` variables: none is below the number of variables that it counts, and
-- a new one has none. A variable with a counter refers to an object that is not freed, and two of
-- them that refer to one object have one counter.
pub record IsCounted (n : ℕ) (s : Store) : Type 0 where
  pub enough : (a : ℕ) → holders n a s.vars ≤ s.counts a
  pub unused : (a : ℕ) → s.fresh ≤ a → holders n a s.vars ≡ 0
  pub live :
      (y a : ℕ) → y < n → counter (s.vars y) ≡ some a → is_freed (s.vars y).object s.freed ≡ false
  pub one :
      (y z a b : ℕ)
      → y < n
      → z < n
      → counter (s.vars y) ≡ some a
      → counter (s.vars z) ≡ some b
      → (s.vars y).object ≡ (s.vars z).object
      → a ≡ b

-- A variable that is given up.
module _ (n x : ℕ) (s : Store) (v : Variable) (h : x < n) (c : IsCounted n s)
    (e : counter v ≡ none) where
  pub forget_holders :
      (a : ℕ) → holders n a (put x v s.vars) + holds a (counter (s.vars x)) ≡ holders n a s.vars
  unfolding holds
  forget_holders a =
      let p = holders-put n a x v s.vars h in
      subst
        (λ o.
          holders n a (put x v s.vars) + holds a (counter (s.vars x))
          ≡ holders n a s.vars + holds a o)
        e p
      ∙ (omega arith)

  -- Another variable that is counted.
  other : (y a : ℕ) → counter (put x v s.vars y) ≡ some a → (y ≢ x) × (put x v s.vars y ≡ s.vars y)
  other y a k = elim (ℕ_discrete y x) [
    | yes same ↦
        let p : counter v ≡ some a =
          subst (λ w. counter w ≡ some a) (put-eq x v s.vars)
            (subst (λ z. counter (put x v s.vars z) ≡ some a) same k) in
        cc
    | no n' ↦ (n', put-ne x v s.vars y n')
  ]

  pub forget-IsCounted :
      (counts : ℕ → ℕ) (freed : List ℕ)
      → ((a : ℕ) → holders n a (put x v s.vars) ≤ counts a)
      → ((y a : ℕ)
          → y < n
          → y ≢ x
          → counter (s.vars y) ≡ some a
          → is_freed (s.vars y).object freed ≡ false)
      → IsCounted n (record s { vars = put x v s.vars; counts = counts; freed = freed })
  forget-IsCounted counts freed enough live = record {
    enough = enough;
    unused = λ a t. let p = c.unused a t in let q = forget_holders a in omega arith;
    live = λ y a t k.
        let (n', same) = other y a k in
        rw same (live y a t n' (subst (λ w. counter w ≡ some a) same k));
    one = λ y z a b t u k l o.
        let (_, same) = other y a k in
        let (_, same') = other z b l in
        c.one y z a b t u (subst (λ w. counter w ≡ some a) same k)
          (subst (λ w. counter w ≡ some b) same' l)
          (subst (λ w. w.object ≡ (s.vars z).object) same
            (subst (λ w. (put x v s.vars y).object ≡ w.object) same' o));
  }

-- The counter of a variable that is counted.
pub counter-some :
    (v : Variable) (a : ℕ)
    → needs_reference_counter v.type ≡ true
    → v.ref_counter ≡ some a
    → counter v ≡ some a
unfolding counter
counter-some v a t r = rw (t, r) refl

pub counter-none : (v : Variable) → v.ref_counter ≡ none → counter v ≡ none
unfolding counter
counter-none v r =
    rw r (if_elim (λ o. o ≡ none) (needs_reference_counter v.type) (λ _. refl) (λ _. refl))

module _ (n x a : ℕ) (s : Store) (h : x < n) (c : IsCounted n s)
    (e : counter (s.vars x) ≡ some a) where
  -- The variable without its counter.
  abbrev dropped : Variable
  dropped = record (s.vars x) { ref_counter = none }

  dropped-none : counter dropped ≡ none
  dropped-none = counter-none dropped refl

  one_less : holders n a (put x dropped s.vars) + 1 ≡ holders n a s.vars
  unfolding holds
  one_less =
      let p = forget_holders n x s dropped h c dropped-none a in
      let t : (a == a) ≡ true = ground arith in
      let q : holds a (counter (s.vars x)) ≡ 1 = rw (e, t) refl in omega arith

  enough_left : (b : ℕ) → holders n b (put x dropped s.vars) ≤ put a (s.counts a - 1) s.counts b
  enough_left b = elim (ℕ_discrete b a) [
    | yes same ↦
        subst (λ z. holders n z (put x dropped s.vars) ≤ put a (s.counts a - 1) s.counts z)
          (sym same)
          (rw (put-eq a (s.counts a - 1) s.counts)
            (let p = one_less in let q = c.enough a in omega arith))
    | no n' ↦ rw (put-ne a (s.counts a - 1) s.counts b n') (
        let p = forget_holders n x s dropped h c dropped-none b in
        let q = c.enough b in omega arith)
  ]

  -- The last holder of an object leaves no other one.
  no_other :
      (y b : ℕ)
      → y < n
      → y ≢ x
      → counter (s.vars y) ≡ some b
      → s.counts a ≡ 1
      → (s.vars y).object ≢ (s.vars x).object
  no_other y b t n' k last o =
      let same : b ≡ a = c.one y x b a t h k e o in
      let left : 1 ≤ holders n a (put x dropped s.vars) =
        holders-positive n a y (put x dropped s.vars) t
          (rw (put-ne x dropped s.vars y n') (k ∙ ap some same)) in
      let p = one_less in let q = c.enough a in omega arith

  live_left :
      (y b : ℕ)
      → y < n
      → y ≢ x
      → counter (s.vars y) ≡ some b
      → is_freed
          (s.vars y).object
          (if s.counts a == 1 then (s.vars x).object ∷ s.freed else s.freed)
        ≡ false
  unfolding is_freed
  live_left y b t n' k =
      if_elim (λ l. is_freed (s.vars y).object l ≡ false) (s.counts a == 1)
        (λ last.
          let p = no_other y b t n' k (ground arith) in
          let q : ((s.vars y).object == (s.vars x).object) ≡ false = ground arith in
          rw (q, c.live y b t k) refl)
        (λ _. c.live y b t k)

pub decrease_reference-IsCounted :
    (n x : ℕ) (s : Store) → x < n → IsCounted n s → IsCounted n (decrease_reference x s)
unfolding decrease_reference
decrease_reference-IsCounted n x s h c =
    go (needs_reference_counter (s.vars x).type) (s.vars x).ref_counter refl refl
  where
    go :
        (b : Bool) (o : Option ℕ)
        → needs_reference_counter (s.vars x).type ≡ b
        → (s.vars x).ref_counter ≡ o
        → IsCounted n (decrease_reference x s)
    go false o t r = rw t c
    go true none t r = rw (t, r) c
    go true (some a) t r =
        let e = counter-some (s.vars x) a t r in
        rw (t, r)
          (forget-IsCounted n x s (dropped n x a s h c e) h c (dropped-none n x a s h c e) _ _
            (enough_left n x a s h c e) (live_left n x a s h c e))
