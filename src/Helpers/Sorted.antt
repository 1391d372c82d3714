-- ===== src/Helpers/Sorted.antt =====
-- A list of numbers in order is the only one with its elements.
use mathlib.Core.Logic.Or
use mathlib.Core.HLevel.{⊥_prop}
use mathlib.Core.List.{Perm, Mem, not-mem-nil, mem-cons_self, eq-or-mem_of_mem-cons}
use mathlib.Core.List.Perm
use ska_mpi.Prelude.{
  ℕ, zero, suc, ◌+◌, ◌≤◌, ◌<◌, ◌≡◌, ap, ap₂, ◌∙◌, get_elem?, some, List, [], ◌∷◌, arith,
}

-- No element is less than `a`.
abbrev pub NoneBelow : ℕ → List ℕ → Type 0
NoneBelow a [] = Unit
NoneBelow a (x ∷ xs) = (a ≤ x) × NoneBelow a xs

abbrev pub InOrder : List ℕ → Type 0
InOrder [] = Unit
InOrder (x ∷ xs) = NoneBelow x xs × InOrder xs

all_ge : (a : ℕ) (l : List ℕ) → NoneBelow a l → (x : ℕ) → Mem x l → x < a → ⊥
all_ge a [] h x m l = not-mem-nil m
all_ge a (y ∷ ys) (g, h) x m l =
    Or.elim ⊥_prop (eq-or-mem_of_mem-cons m) (λ e. omega arith) (λ t. all_ge a ys h x t l)

first_least : (a : ℕ) (l : List ℕ) → InOrder (a ∷ l) → (x : ℕ) → Mem x (a ∷ l) → x < a → ⊥
first_least a l (g, _) x m h =
    Or.elim ⊥_prop (eq-or-mem_of_mem-cons m) (λ e. omega arith) (λ t. all_ge a l g x t h)

pub InOrder-unique : (l r : List ℕ) → InOrder l → InOrder r → Perm l r → l ≡ r
InOrder-unique [] r _ _ p = Perm.nil-eq p
InOrder-unique (a ∷ l) [] _ _ p = Perm.eq-nil p
InOrder-unique (a ∷ l) (b ∷ r) sl sr p =
    let low = first_least a l sl b ((Perm.mem_iff p).1 mem-cons_self) in
    let high = first_least b r sr a ((Perm.mem_iff p).0 mem-cons_self) in
    let heads : a ≡ b = omega arith in
    let tails = Perm.cons_inv (Perm.trans p (Perm.symm (Perm.cons' heads Perm.rfl))) in
    ap₂ ◌∷◌ heads (InOrder-unique l r sl.1 sr.1 tails)

abbrev pub ranks : (left i : ℕ) → List ℕ
ranks zero i = []
ranks (suc left) i = i ∷ ranks left (i + 1)

ranks-NoneBelow : (a left i : ℕ) → a ≤ i → NoneBelow a (ranks left i)
ranks-NoneBelow a zero i h = tt
ranks-NoneBelow a (suc left) i h = (h, ranks-NoneBelow a left (i + 1) (omega arith))

pub ranks-InOrder : (left i : ℕ) → InOrder (ranks left i)
ranks-InOrder zero i = tt
ranks-InOrder (suc left) i =
    (ranks-NoneBelow i left (i + 1) (omega arith), ranks-InOrder left (i + 1))

pub get_elem?-ranks : (left i r : ℕ) → r < left → get_elem? (ranks left i) r ≡ some (i + r)
get_elem?-ranks zero i r h = absurd (omega arith)
get_elem?-ranks (suc left) i zero h = ap some (omega arith)
get_elem?-ranks (suc left) i (suc r) h =
    get_elem?-ranks left (i + 1) r (omega arith) ∙ ap some (omega arith)
