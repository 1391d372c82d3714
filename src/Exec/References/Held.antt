-- ===== src/Exec/References/Held.antt =====
-- A variable that becomes a holder of an object.
use std.Path.{fun_ext}
use mathlib.Core.Option.{some_inj}
use ska_mpi.Prelude.{
  ℕ, ◌+◌, ◌≤◌, ◌<◌, ◌≡◌, ◌≢◌, refl, sym, ap, ◌∙◌, subst, true, false, none, some, ◌==◌,
  if◌then◌else◌, if_elim, arith, ℕ_discrete,
}
use ska_mpi.Exec.References.{Variable, Store, put}
use ska_mpi.Exec.References.Holders.{counter, holds, holders, is_freed, put-eq, put-ne, holders-put}
use ska_mpi.Exec.References.Counted.{IsCounted}

-- A variable without a counter gets the value `w`, which is counted at `a`.
pub hold-IsCounted :
    (n x a : ℕ) (s : Store) (w : Variable) (counts : ℕ → ℕ) (fresh : ℕ)
    → x < n
    → IsCounted n s
    → counter (s.vars x) ≡ none
    → counter w ≡ some a
    → is_freed w.object s.freed ≡ false
    → ((y b : ℕ) → y < n → counter (s.vars y) ≡ some b → (s.vars y).object ≡ w.object → b ≡ a)
    → holders n a s.vars + 1 ≤ counts a
    → ((b : ℕ) → b ≢ a → s.counts b ≤ counts b)
    → a < fresh
    → s.fresh ≤ fresh
    → IsCounted n (record s { vars = put x w s.vars; counts = counts; fresh = fresh })
unfolding holds
hold-IsCounted n x a s w counts fresh h c e f live same more others below grown = record {
  enough = λ b. elim (ℕ_discrete b a) [
    | yes t ↦
        subst (λ b. holders n b (put x w s.vars) ≤ counts b) (sym t)
          (let p = holders_of a in let q = at_a in omega arith)
    | no t ↦
        let p = holders_of b in
        let q = at_other b t in let r = others b t in let u = c.enough b in omega arith
  ];
  unused = λ b t.
      let u : b ≢ a = λ e. omega arith in
      let p = holders_of b in
      let q = at_other b u in let r = c.unused b (omega arith) in omega arith;
  live = λ y b t k. elim (ℕ_discrete y x) [
    | yes u ↦
        subst (λ z. is_freed (put x w s.vars z).object s.freed ≡ false) (sym u)
          (rw (put-eq x w s.vars) live)
    | no u ↦ rw (put-ne x w s.vars y u) (c.live y b t (old y b u k))
  ];
  one = λ y z b b' t u k l o. elim (ℕ_discrete y x) [
    | yes p ↦ elim (ℕ_discrete z x) [
      | yes q ↦ new y b p k ∙ sym (new z b' q l)
      | no q ↦
          new y b p k
          ∙ sym (same z b' u (old z b' q l) (sym (object_of z q) ∙ sym o ∙ object_x y p))
    ]
    | no p ↦ elim (ℕ_discrete z x) [
      | yes q ↦
          same y b t (old y b p k) (sym (object_of y p) ∙ o ∙ object_x z q) ∙ sym (new z b' q l)
      | no q ↦
          c.one y z b b' t u (old y b p k) (old z b' q l) (sym (object_of y p) ∙ o ∙ object_of z q)
    ]
  ];
}
  where
    holders_of : (b : ℕ) → holders n b (put x w s.vars) ≡ holders n b s.vars + holds b (some a)
    holders_of b =
        let p : holders n b (put x w s.vars) + 0 ≡ holders n b s.vars + holds b (some a) =
          subst
            (λ o. holders n b (put x w s.vars) + holds b o ≡ holders n b s.vars + holds b (some a))
            e
            (subst
              (λ o.
                holders n b (put x w s.vars) + holds b (counter (s.vars x))
                ≡ holders n b s.vars + holds b o)
              f (holders-put n b x w s.vars h)) in
        omega arith

    at_a : holds a (some a) ≡ 1
    at_a = let t : (a == a) ≡ true = ground arith in rw t refl

    at_other : (b : ℕ) → b ≢ a → holds b (some a) ≡ 0
    at_other b n' = let t : (a == b) ≡ false = ground arith in rw t refl

    old : (y b : ℕ) → y ≢ x → counter (put x w s.vars y) ≡ some b → counter (s.vars y) ≡ some b
    old y b n' k = subst (λ v. counter v ≡ some b) (put-ne x w s.vars y n') k

    new : (y b : ℕ) → y ≡ x → counter (put x w s.vars y) ≡ some b → b ≡ a
    new y b p k =
        let q : counter w ≡ some b =
          subst (λ v. counter v ≡ some b) (ap (put x w s.vars) p ∙ put-eq x w s.vars) k in
        some_inj.0 (sym q ∙ f)

    object_of : (y : ℕ) → y ≢ x → (put x w s.vars y).object ≡ (s.vars y).object
    object_of y p = ap (λ v. v.object) (put-ne x w s.vars y p)

    object_x : (y : ℕ) → y ≡ x → (put x w s.vars y).object ≡ w.object
    object_x y p = ap (λ v. v.object) (ap (put x w s.vars) p ∙ put-eq x w s.vars)

pub put_twice {ℓ} : {A : Type ℓ} (x : ℕ) (v w : A) (f : ℕ → A) → put x w (put x v f) ≡ put x w f
unfolding put
put_twice x v w f =
    fun_ext (λ y.
      if_elim (λ a. a ≡ (if y == x then w else f y)) (y == x) (λ t. rw t refl) (λ t. rw t refl))
