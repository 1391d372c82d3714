-- ===== src/Exec/References/Holders.antt =====
-- The variables that share a counter.
use ska_mpi.Prelude.{
  ℕ, zero, suc, ◌+◌, ◌≤◌, ◌<◌, ◌≡◌, ◌≢◌, refl, sym, subst, Bool, true, false, ◌||◌, Option, none,
  some, List, [], ◌∷◌, ◌==◌, if◌then◌else◌, arith, ℕ_discrete,
}
use ska_mpi.Exec.References.{Variable, needs_reference_counter, put}

-- The counter that a variable is counted in.
unfoldable pub counter : Variable → Option ℕ
counter v = if needs_reference_counter v.type then v.ref_counter else none

unfoldable pub holds : ℕ → Option ℕ → ℕ
holds a none = 0
holds a (some b) = if b == a then 1 else 0

-- How many of the first `n` variables are counted in the counter at an address.
unfoldable pub holders : ℕ → ℕ → (ℕ → Variable) → ℕ
holders zero a f = 0
holders (suc n) a f = holders n a f + holds a (counter (f n))

unfoldable pub is_freed : ℕ → List ℕ → Bool
is_freed o [] = false
is_freed o (p ∷ ps) = o == p || is_freed o ps

pub put-eq {ℓ} : {A : Type ℓ} (x : ℕ) (v : A) (f : ℕ → A) → put x v f x ≡ v
unfolding put
put-eq x v f = let e : (x == x) ≡ true = ground arith in rw e refl

pub put-ne {ℓ} : {A : Type ℓ} (x : ℕ) (v : A) (f : ℕ → A) (y : ℕ) → y ≢ x → put x v f y ≡ f y
unfolding put
put-ne x v f y n = let e : (y == x) ≡ false = ground arith in rw e refl

-- A variable from the number `n` on does not count.
holders-put_above :
    (n a x : ℕ) (v : Variable) (f : ℕ → Variable) → n ≤ x → holders n a (put x v f) ≡ holders n a f
unfolding holders
holders-put_above zero a x v f h = refl
holders-put_above (suc n) a x v f h =
    rw (holders-put_above n a x v f (omega arith), put-ne x v f n (λ e. omega arith)) refl

pub holders-put :
    (n a x : ℕ) (v : Variable) (f : ℕ → Variable)
    → x < n
    → holders n a (put x v f) + holds a (counter (f x)) ≡ holders n a f + holds a (counter v)
unfolding holders
holders-put zero a x v f h = absurd (omega arith)
holders-put (suc n) a x v f h = elim (ℕ_discrete x n) [
  | yes e ↦
      subst
        (λ m.
          holders m a (put x v f) + holds a (counter (put x v f m)) + holds a (counter (f x))
          ≡ holders m a f + holds a (counter (f m)) + holds a (counter v))
        e (rw (holders-put_above x a x v f (omega arith), put-eq x v f) (omega arith))
  | no e ↦
      let ih = holders-put n a x v f (grind arith) in
      rw (put-ne x v f n (λ e'. e (sym e'))) (omega arith)
]

pub holders-positive :
    (n a y : ℕ) (f : ℕ → Variable) → y < n → counter (f y) ≡ some a → 1 ≤ holders n a f
unfolding holders holds
holders-positive zero a y f h e = absurd (omega arith)
holders-positive (suc n) a y f h e = elim (ℕ_discrete y n) [
  | yes same ↦
      let t : (a == a) ≡ true = ground arith in
      let one : holds a (counter (f n)) ≡ 1 =
        subst (λ m. holds a (counter (f m)) ≡ 1) same (rw (e, t) refl) in
      omega arith
  | no n' ↦ let ih = holders-positive n a y f (grind arith) e in omega arith
]
