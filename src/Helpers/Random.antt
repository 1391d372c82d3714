-- ===== src/Helpers/Random.antt =====
-- What `func_comm_rand` gives the processes.
use mathlib.Core.Logic.{inl, inr}
use mathlib.Core.List.{Perm, foldr}
use mathlib.Core.List.Perm
use native.Mathlib.Nat.{ℕ_set}
use ska_mpi.Prelude.{
  ℕ, zero, suc, ◌+◌, ◌≤◌, ◌<◌, ◌≡◌, refl, sym, ap, subst, ◌∙◌, Bool, true, false, some, List, [],
  ◌∷◌, map, Bool-cases, get_elem?, length, if◌then◌else◌, arith,
}
use ska_mpi.Prelude.Int.{ℤ, pos, ◌≤ℤ◌, -ℤ_parts}
use ska_mpi.Helpers.{KeyedItem, cmp_k, cmp_v, random_items, without_keys, scattered, joins}
use ska_mpi.Helpers.Sorted.{
  NoneBelow, InOrder, InOrder-unique, ranks, ranks-InOrder, get_elem?-ranks,
}

-- The order that `qsort` promises for `cmp`.
abbrev pub NoneBefore : (KeyedItem → KeyedItem → ℤ) → KeyedItem → List KeyedItem → Type 0
NoneBefore cmp p [] = Unit
NoneBefore cmp p (q ∷ qs) = (cmp p q ≤ℤ pos 0) × NoneBefore cmp p qs

abbrev pub IsSorted : (KeyedItem → KeyedItem → ℤ) → List KeyedItem → Type 0
IsSorted cmp [] = Unit
IsSorted cmp (p ∷ ps) = NoneBefore cmp p ps × IsSorted cmp ps

abbrev pub values : List KeyedItem → List ℕ
values = map KeyedItem.v

abbrev pub joining : List KeyedItem → ℕ
joining = foldr (λ p n. if joins p then suc n else n) 0

values-NoneBelow :
    (p : KeyedItem) (ps : List KeyedItem) → NoneBefore cmp_v p ps → NoneBelow p.v (values ps)
unfolding cmp_v
values-NoneBelow p [] h = tt
values-NoneBelow p (q ∷ qs) (h, hs) =
    (omega (arith, -ℤ_parts (pos p.v) (pos q.v)), values-NoneBelow p qs hs)

values-InOrder : (ps : List KeyedItem) → IsSorted cmp_v ps → InOrder (values ps)
values-InOrder [] h = tt
values-InOrder (p ∷ ps) (h, hs) = (values-NoneBelow p ps h, values-InOrder ps hs)

values-without_keys : (n : ℕ) (ps : List KeyedItem) → values (without_keys n ps) ≡ values ps
unfolding without_keys
values-without_keys n [] = refl
values-without_keys zero (p ∷ ps) = ap (λ l. p.v ∷ l) (values-without_keys zero ps)
values-without_keys (suc n) (p ∷ ps) = ap (λ l. p.v ∷ l) (values-without_keys n ps)

values-random_items : (rand : ℕ → ℕ) (left i : ℕ) → values (random_items rand left i) ≡ ranks left i
unfolding random_items
values-random_items rand zero i = refl
values-random_items rand (suc left) i = ap (λ l. i ∷ l) (values-random_items rand left (i + 1))

-- The order of the items does not matter to how many there are, and how many of them have a key.
counted :
    (b c : Bool) (n : ℕ)
    → (if b then suc (if c then suc n else n) else (if c then suc n else n))
      ≡ (if c then suc (if b then suc n else n) else (if b then suc n else n))
counted true true n = refl
counted true false n = refl
counted false true n = refl
counted false false n = refl

joining-perm : (ps qs : List KeyedItem) → Perm ps qs → joining ps ≡ joining qs
joining-perm ps qs p = Perm.foldr-eq ℕ_set _ (λ a b x. counted (joins a) (joins b) x) p 0

length-foldr : (ps : List KeyedItem) → foldr (λ p n. suc n) 0 ps ≡ length ps
length-foldr [] = refl
length-foldr (p ∷ ps) = ap suc (length-foldr ps)

length-perm : (ps qs : List KeyedItem) → Perm ps qs → length ps ≡ length qs
length-perm ps qs p =
    sym (length-foldr ps)
    ∙ (Perm.foldr-eq ℕ_set (λ a n. suc n) (λ a b x. refl) p 0 ∙ length-foldr qs)

joining-le : (ps : List KeyedItem) → joining ps ≤ length ps
joining-le [] = omega arith
joining-le (p ∷ ps) = elim (Bool-cases (joins p)) [
  | inl e ↦ rw e omega (arith, joining-le ps)
  | inr e ↦ rw e omega (arith, joining-le ps)
]

joining-none : (ps : List KeyedItem) → joining (without_keys 0 ps) ≡ 0
unfolding without_keys
joining-none [] = refl
joining-none (p ∷ ps) = joining-none ps

joining-without_keys :
    (n : ℕ) (ps : List KeyedItem)
    → joining ps ≡ length ps
    → n ≤ length ps
    → joining (without_keys n ps) ≡ n
unfolding without_keys
joining-without_keys zero ps e h = joining-none ps
joining-without_keys (suc n) [] e h = absurd (omega arith)
joining-without_keys (suc n) (p ∷ ps) e h = elim (Bool-cases (joins p)) [
  | inl j ↦
      let less = rw j at e in rw j (ap suc (joining-without_keys n ps (omega arith) (omega arith)))
  | inr j ↦ let less = rw j at e in absurd (omega (arith, joining-le ps))
]

joining-items : (rand : ℕ → ℕ) (left i : ℕ) → joining (random_items rand left i) ≡ left
unfolding random_items
joining-items rand zero i = refl
joining-items rand (suc left) i = elim (Bool-cases (joins (record { k = pos (rand i); v = i }))) [
  | inl j ↦ rw j (ap suc (joining-items rand left (i + 1)))
  | inr j ↦ absurd (ground arith)
]

length-items : (rand : ℕ → ℕ) (left i : ℕ) → length (random_items rand left i) ≡ left
unfolding random_items
length-items rand zero i = refl
length-items rand (suc left) i = ap suc (length-items rand left (i + 1))

get_elem?-map :
    (ps : List KeyedItem) (r v : ℕ)
    → get_elem? (values ps) r ≡ some v
    → (p : KeyedItem) × ((get_elem? ps r ≡ some p) × (p.v ≡ v))
get_elem?-map [] r v e = absurd (ground arith)
get_elem?-map (p ∷ ps) zero v e = (p, (refl, ground arith))
get_elem?-map (p ∷ ps) (suc r) v e = get_elem?-map ps r v e

-- For a `qsort` that returns a permutation of what it gets, and, the second time, in the order of `cmp_v`:
-- each process gets the item with its own rank, as `func_comm_rand` asserts, and for at most as many
-- processes as there are, the number of processes in the new communicator is the one that was asked for.
pub scattered-own :
    (qsort : (KeyedItem → KeyedItem → ℤ) → List KeyedItem → List KeyedItem) (rand : ℕ → ℕ)
    (size n : ℕ) (rank : ℕ)
    → n ≤ size
    → rank < size
    → Perm (qsort cmp_k (random_items rand size 0)) (random_items rand size 0)
    → Perm (scattered qsort rand size n) (without_keys n (qsort cmp_k (random_items rand size 0)))
    → IsSorted cmp_v (scattered qsort rand size n)
    → ((key : KeyedItem) × ((get_elem? (scattered qsort rand size n) rank ≡ some key)
          × (key.v ≡ rank)))
      × (joining (scattered qsort rand size n) ≡ n)
scattered-own qsort rand size n rank h l p1 p2 s = (
  get_elem?-map _ rank rank
      (ap (λ r. get_elem? r rank) in_order ∙ get_elem?-ranks size 0 rank l ∙ ap some (omega arith)),
  joining-perm _ _ p2 ∙ joining-without_keys n _ all_keyed (omega (arith, many)),
)
  where
    in_order : values (scattered qsort rand size n) ≡ ranks size 0
    in_order = InOrder-unique _ _ (values-InOrder _ s) (ranks-InOrder size 0) (
        Perm.trans (Perm.map KeyedItem.v p2) (
          subst (λ l. Perm l (ranks size 0)) (sym (values-without_keys n _))
            (subst (Perm _) (values-random_items rand size 0) (Perm.map KeyedItem.v p1))))

    many : length (qsort cmp_k (random_items rand size 0)) ≡ size
    many = length-perm _ _ p1 ∙ length-items rand size 0

    all_keyed :
        joining (qsort cmp_k (random_items rand size 0))
        ≡ length (qsort cmp_k (random_items rand size 0))
    all_keyed = joining-perm _ _ p1 ∙ (joining-items rand size 0 ∙ sym many)
