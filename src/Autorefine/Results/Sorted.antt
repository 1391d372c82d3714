-- ===== src/Autorefine/Results/Sorted.antt =====
-- The order of the results.
use mathlib.Core.List.{Perm, perm_middle}
use mathlib.Core.List.Perm
use ska_mpi.Prelude.{
  Bool, true, false, ◌≡◌, refl, ap, ◌∙◌, some, List, [], ◌∷◌, ◌++◌, if_elim, inl, inr, Bool-cases,
}
use ska_mpi.Prelude.Ordered.{Ordered}
use ska_mpi.Autorefine.Results.{
  Element, Chain, insert_after, insert_before, insert_element, behind, in_front,
}

module _ (o : Ordered) (Result : Type 0) where
  open o use {Value, lt, eq, lt_trans, lt_total, eq_iff}

  -- The values rise from `v` on.
  abbrev pub IsRising : Value → List (Element o Result) → Type 0
  IsRising v [] = Unit
  IsRising v (x ∷ xs) = (lt v x.0 ≡ true) × IsRising x.0 xs

  -- None of the elements has the value `v`.
  abbrev pub Lacks : Value → List (Element o Result) → Type 0
  Lacks v [] = Unit
  Lacks v (x ∷ xs) = (eq x.0 v ≡ false) × Lacks v xs

  -- The values fall from `v` on.
  abbrev pub IsFalling : Value → List (Element o Result) → Type 0
  IsFalling v [] = Unit
  IsFalling v (x ∷ xs) = (lt x.0 v ≡ true) × IsFalling x.0 xs

  -- Both sides of `last_result` are in order.
  pub record IsSorted (c : Chain o Result) : Type 0 where
    pub rising : IsRising c.last_result.0 c.after
    pub falling : IsFalling c.last_result.0 c.before

  -- All elements, and whether none of them has a value.
  abbrev pub elements : Chain o Result → List (Element o Result)
  elements c = c.last_result ∷ c.before ++ c.after

  gt_of : (a b : Value) → lt a b ≡ false → eq a b ≡ false → lt b a ≡ true
  gt_of a b h k = elim (Bool-cases (lt b a)) [
    | inl e ↦ e
    | inr e ↦ absurd (differ ((eq_iff a b).1 (lt_total a b h e)))
  ]
    where
      differ : ¬ (eq a b ≡ true)
      differ e = cc

  lt_of : (a b : Value) → lt b a ≡ false → eq a b ≡ false → lt a b ≡ true
  lt_of a b h k = elim (Bool-cases (lt a b)) [
    | inl e ↦ e
    | inr e ↦ absurd (differ ((eq_iff a b).1 (lt_total a b e h)))
  ]
    where
      differ : ¬ (eq a b ≡ true)
      differ e = cc

  -- What a walk leaves of the rest `xs` of the list behind `v`: an ordered list with the new element.
  record Extends (InOrder : List (Element o Result) → Type 0) (vl new : Element o Result)
      (xs out : List (Element o Result)) : Type 0 where
    rest : List (Element o Result)
    shape : out ≡ vl ∷ rest
    ordered : InOrder rest
    same : Perm rest (new ∷ xs)

  insert_after-Extends :
      (new vl : Element o Result) (xs : List (Element o Result))
      → lt vl.0 new.0 ≡ true
      → IsRising vl.0 xs
      → Lacks new.0 xs
      → Extends (IsRising vl.0) vl new xs (insert_after o Result new vl xs)
  unfolding insert_after
  insert_after-Extends new vl [] h r l = record {
    rest = new ∷ [];
    shape = refl;
    ordered = (h, tt);
    same = Perm.refl _;
  }
  insert_after-Extends new vl (x ∷ xs) h r l =
      let P = Extends (IsRising vl.0) vl new (x ∷ xs) in
      if_elim P (lt x.0 new.0)
        (λ k.
          let e = insert_after-Extends new x xs k r.1 l.1 in
          record {
            rest = x ∷ e.rest;
            shape = ap (λ l. vl ∷ l) e.shape;
            ordered = (r.0, e.ordered);
            same = Perm.trans (Perm.cons x e.same) (Perm.swap new x xs);
          })
        (λ k.
          if_elim P (eq x.0 new.0) (λ b. absurd (clash b l.0))
            (λ b. record {
              rest = new ∷ x ∷ xs;
              shape = refl;
              ordered = (h, (gt_of x.0 new.0 k b, r.1));
              same = Perm.refl _;
            }))
    where
      clash : {b : Bool} → b ≡ true → b ≡ false → ⊥
      clash p q = cc

  insert_before-Extends :
      (new vl : Element o Result) (xs : List (Element o Result))
      → lt new.0 vl.0 ≡ true
      → IsFalling vl.0 xs
      → Lacks new.0 xs
      → Extends (IsFalling vl.0) vl new xs (insert_before o Result new vl xs)
  unfolding insert_before
  insert_before-Extends new vl [] h r l = record {
    rest = new ∷ [];
    shape = refl;
    ordered = (h, tt);
    same = Perm.refl _;
  }
  insert_before-Extends new vl (x ∷ xs) h r l =
      let P = Extends (IsFalling vl.0) vl new (x ∷ xs) in
      if_elim P (lt new.0 x.0)
        (λ k.
          let e = insert_before-Extends new x xs k r.1 l.1 in
          record {
            rest = x ∷ e.rest;
            shape = ap (λ l. vl ∷ l) e.shape;
            ordered = (r.0, e.ordered);
            same = Perm.trans (Perm.cons x e.same) (Perm.swap new x xs);
          })
        (λ k.
          if_elim P (eq x.0 new.0) (λ b. absurd (clash b l.0))
            (λ b. record {
              rest = new ∷ x ∷ xs;
              shape = refl;
              ordered = (h, (lt_of x.0 new.0 k b, r.1));
              same = Perm.refl _;
            }))
    where
      clash : {b : Bool} → b ≡ true → b ≡ false → ⊥
      clash p q = cc

  Lacks-left : (v : Value) (xs ys : List (Element o Result)) → Lacks v (xs ++ ys) → Lacks v xs
  Lacks-left v [] ys l = tt
  Lacks-left v (x ∷ xs) ys l = (l.0, Lacks-left v xs ys l.1)

  Lacks-right : (v : Value) (xs ys : List (Element o Result)) → Lacks v (xs ++ ys) → Lacks v ys
  Lacks-right v [] ys l = l
  Lacks-right v (x ∷ xs) ys l = Lacks-right v xs ys l.1

  -- What an insertion of `new` into `c` gives.
  abbrev pub Inserted : Element o Result → Chain o Result → Chain o Result → Type 0
  Inserted new c c' =
      IsSorted c' × (Perm (elements c') (new ∷ elements c) × (c'.last_result ≡ c.last_result))

  behind-Inserted :
      (new : Element o Result) (c : Chain o Result) (out : List (Element o Result))
      → IsSorted c
      → Extends (IsRising c.last_result.0) c.last_result new c.after out
      → Inserted new c (behind o Result c out)
  unfolding behind
  behind-Inserted new c out v e = rw e.shape (
    record { rising = e.ordered; falling = v.falling },
    (
      Perm.trans
          (Perm.cons c.last_result
            (Perm.trans (Perm.append_left c.before e.same) (perm_middle c.before c.after)))
          (Perm.swap new c.last_result (c.before ++ c.after)),
      refl,
    ),
  )

  in_front-Inserted :
      (new : Element o Result) (c : Chain o Result) (out : List (Element o Result))
      → IsSorted c
      → Extends (IsFalling c.last_result.0) c.last_result new c.before out
      → Inserted new c (in_front o Result c out)
  unfolding in_front
  in_front-Inserted new c out v e = rw e.shape (
    record { rising = v.rising; falling = e.ordered },
    (
      Perm.trans (Perm.cons c.last_result (Perm.append_right c.after e.same))
          (Perm.swap new c.last_result (c.before ++ c.after)),
      refl,
    ),
  )

  -- For a chain in order that lacks the new value, `insert_element` gives a chain in order that holds
  -- the old elements and the new one, and whose `last_result` is the old one.
  pub insert_element-IsSorted :
      (new : Element o Result) (c : Chain o Result)
      → IsSorted c
      → Lacks new.0 (elements c)
      → Inserted new c (insert_element o Result new (some c))
  unfolding insert_element
  insert_element-IsSorted new c v l =
      let P = Inserted new c in
      if_elim P (lt c.last_result.0 new.0)
        (λ h. behind-Inserted new c _ v (
          insert_after-Extends new c.last_result c.after h v.rising
            (Lacks-right new.0 c.before c.after l.1)))
        (λ h.
          if_elim P (eq c.last_result.0 new.0) (λ e. absurd (clash e l.0))
            (λ e. in_front-Inserted new c _ v (
              insert_before-Extends new c.last_result c.before (gt_of c.last_result.0 new.0 h e)
                v.falling (Lacks-left new.0 c.before c.after l.1))))
    where
      clash : {b : Bool} → b ≡ true → b ≡ false → ⊥
      clash p q = cc

  -- The values of `xs` and that of `v` are all below that of `new`.
  abbrev pub AllBelow : Element o Result → List (Element o Result) → Type 0
  AllBelow new [] = Unit
  AllBelow new (x ∷ xs) = (lt x.0 new.0 ≡ true) × AllBelow new xs

  walk_overwrites :
      (new vl : Element o Result) (pre : List (Element o Result)) (pred next : Element o Result)
      (rest : List (Element o Result))
      → AllBelow new pre
      → lt pred.0 new.0 ≡ true
      → lt next.0 new.0 ≡ false
      → eq next.0 new.0 ≡ true
      → insert_after o Result new vl (pre ++ pred ∷ next ∷ rest) ≡ vl ∷ pre ++ new ∷ next ∷ rest
  unfolding insert_after
  walk_overwrites new vl [] pred next rest a h k e = rw (h, k, e) refl
  walk_overwrites new vl (x ∷ pre) pred next rest a h k e =
      rw a.0 (ap (λ l. vl ∷ l) (walk_overwrites new x pre pred next rest a.1 h k e))

  -- An element with the value of a later one in the chain does not replace that one: it replaces the
  -- element before it, whose value and result are lost, and the value is in the chain twice.
  pub equal_overwrites_previous :
      (new : Element o Result) (c : Chain o Result) (pre : List (Element o Result))
      (pred next : Element o Result) (rest : List (Element o Result))
      → lt c.last_result.0 new.0 ≡ true
      → c.after ≡ pre ++ pred ∷ next ∷ rest
      → AllBelow new pre
      → lt pred.0 new.0 ≡ true
      → lt next.0 new.0 ≡ false
      → eq next.0 new.0 ≡ true
      → insert_element o Result new (some c) ≡ record c { after = pre ++ new ∷ next ∷ rest }
  unfolding insert_element behind
  equal_overwrites_previous new c pre pred next rest b s a h k e =
      rw b (ap (behind o Result c) walk)
    where
      walk :
          insert_after o Result new c.last_result c.after ≡ c.last_result ∷ pre ++ new ∷ next ∷ rest
      walk =
          ap (insert_after o Result new c.last_result) s
          ∙ walk_overwrites new c.last_result pre pred next rest a h k e
