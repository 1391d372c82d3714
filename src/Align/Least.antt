-- ===== src/Align/Least.antt =====
-- `align_ptr` gives the least address from its argument on that is an odd multiple of the alignment.
use native.Mathlib.Nat.{
  mod-mod_of_dvd, mod-eq_of_lt, mod-eq-sub-mod, mod_self, mod-add-mod, mod-lt, div-add-mod,
  sub-zero, add-mod_right, dvd-mul_left,
}
use ska_mpi.Prelude.{
  ℕ, ◌+◌, ◌-◌, ◌*◌, ◌/◌, ◌%◌, ◌≤◌, ◌<◌, ◌≡◌, ◌∙◌, sym, false, arith, dec_lt, ◌==◌, if◌then◌else◌,
}
use ska_mpi.Align.{word, alignment_fix, align_ptr}

-- an odd multiple of `a`
abbrev pub IsAligned : ℕ → ℕ → Type 0
IsAligned p a = p % (2 * a) ≡ a

-- Aligning moves a pointer up by less than twice the alignment, whatever the address.
pub alignment_fix-lt : (p a : ℕ) → 0 < a → alignment_fix p a < 2 * a
unfolding alignment_fix
alignment_fix-lt p a h = ground (arith, mod-lt (a - p % a) h)

mod_below : (r a : ℕ) → r < a → r % a ≡ r
mod_below r a h = mod-eq_of_lt h

mod_above : (r a : ℕ) → a ≤ r → r < 2 * a → r % a ≡ r - a
mod_above r a h k = mod-eq-sub-mod h ∙ mod-eq_of_lt {n = r - a} {m = a} (omega arith)

-- The remainder by the alignment, from the remainder by twice the alignment.
pub mod_half : (p a : ℕ) → p % a ≡ p % (2 * a) % a
mod_half p a = sym (mod-mod_of_dvd a p (dvd-mul_left a 2))

pub mul_le : (m a b : ℕ) → a ≤ b → m * a ≤ m * b
mul_le m a b h = grind arith

quotient_lt : (m a b : ℕ) → m * a < m * b → a < b
quotient_lt m a b h = elim (dec_lt a b) [
  | yes k ↦ k
  | no k ↦ absurd (omega (arith, mul_le m b a (omega arith)))
]

module _ (p a : ℕ) (h : 0 < a) (fits : p + a ≤ word) where
  shift-mod : (f : ℕ) → f < a → (p + f) % word % (2 * a) ≡ (p % (2 * a) + f) % (2 * a)
  shift-mod f k =
      rw (mod-eq_of_lt {n = p + f} {m = word} (omega arith)) (sym (mod-add-mod p (2 * a) f))

  settle :
      (f t : ℕ)
      → (a - p % a) % a ≡ f
      → f < a
      → (p % (2 * a) + f) % (2 * a) ≡ t
      → alignment_fix p a ≡ (if t == 0 then f + a else f)
  unfolding alignment_fix
  settle f t e k e' = let nz : (a == 0) ≡ false = ground arith in rw (nz, e, shift-mod f k, e')

  low : p % (2 * a) ≤ a → alignment_fix p a ≡ a - p % (2 * a)
  low k = elim (dec_lt (p % (2 * a)) a) [
    | yes below ↦ elim (dec_lt 0 (p % (2 * a))) [
      | yes some_left ↦
          settle (a - p % (2 * a)) a
            (rw (mod_half p a, mod-eq_of_lt below)
              (mod-eq_of_lt {n = a - p % (2 * a)} {m = a} (omega arith)))
            (omega arith)
            (let e : p % (2 * a) + (a - p % (2 * a)) ≡ a = omega arith in
              rw e (mod-eq_of_lt {n = a} {m = 2 * a} (omega arith)))
          ∙ ground arith
      | no none_left ↦
          settle 0 0
            (let e : p % (2 * a) ≡ 0 = omega arith in
              let e' : p % a ≡ 0 = mod_half p a ∙ rw e (mod-eq_of_lt h) in
              rw (e', sub-zero) (mod_self a))
            h
            (let e : p % (2 * a) + 0 ≡ 0 = omega arith in
              rw e (mod-eq_of_lt {n = 0} {m = 2 * a} (omega arith)))
          ∙ omega arith
    ]
    | no at ↦
        settle 0 a
          (let e : p % (2 * a) ≡ a = omega arith in
            let e' : p % a ≡ 0 = mod_half p a ∙ rw e (mod_self a) in rw (e', sub-zero) (mod_self a))
          h
          (let e : p % (2 * a) + 0 ≡ a = omega arith in
            rw e (mod-eq_of_lt {n = a} {m = 2 * a} (omega arith)))
        ∙ ground arith
  ]

  high : a < p % (2 * a) → alignment_fix p a ≡ 3 * a - p % (2 * a)
  high k =
      settle (2 * a - p % (2 * a)) 0
        (rw (mod_half p a, mod_above (p % (2 * a)) a (omega arith) (mod-lt p (omega arith)))
          (let e : a - (p % (2 * a) - a) ≡ 2 * a - p % (2 * a) = omega arith in
            rw e (mod-eq_of_lt {n = 2 * a - p % (2 * a)} {m = a} (omega arith))))
        (omega (arith, mod-lt p {m = 2 * a} (omega arith)))
        (let e : p % (2 * a) + (2 * a - p % (2 * a)) ≡ 2 * a =
            omega (arith, mod-lt p {m = 2 * a} (omega arith)) in
          rw e (mod_self (2 * a)))
      ∙ omega arith

  align_ptr-mod :
      (f t : ℕ)
      → alignment_fix p a ≡ f
      → (p % (2 * a) + f) % (2 * a) ≡ t
      → align_ptr p a % (2 * a) ≡ t
  unfolding align_ptr
  align_ptr-mod f t e e' = rw (e, ← mod-add-mod p (2 * a) f) e'

  -- The result is an odd multiple of the alignment.
  pub align_ptr-IsAligned : IsAligned (align_ptr p a) a
  align_ptr-IsAligned = elim (dec_lt a (p % (2 * a))) [
    | yes k ↦ align_ptr-mod (3 * a - p % (2 * a)) a (high k) (
        let e : p % (2 * a) + (3 * a - p % (2 * a)) ≡ a + 2 * a =
          omega (arith, mod-lt p {m = 2 * a} (omega arith)) in
        rw (e, add-mod_right) (mod-eq_of_lt {n = a} {m = 2 * a} (omega arith)))
    | no k ↦ align_ptr-mod (a - p % (2 * a)) a (low (omega arith)) (
        let e : p % (2 * a) + (a - p % (2 * a)) ≡ a = omega arith in
        rw e (mod-eq_of_lt {n = a} {m = 2 * a} (omega arith)))
  ]

  align_ptr-least : (q : ℕ) → p ≤ q → IsAligned q a → align_ptr p a ≤ q
  unfolding align_ptr
  align_ptr-least q k e = elim (dec_lt a (p % (2 * a))) [
    | yes b ↦ rw (high b) (
        omega (
          arith,
          div-add-mod p m,
          div-add-mod q m,
          mul_le m (p / m + 1) (q / m) (
              omega (
                arith,
                quotient_lt m (p / m) (q / m) (omega (arith, div-add-mod p m, div-add-mod q m)),
              )),
        ))
    | no b ↦ rw (low (omega arith)) (
        omega (
          arith,
          div-add-mod p m,
          div-add-mod q m,
          mul_le m (p / m) (q / m) (
              omega (
                arith,
                quotient_lt m (p / m) (q / m + 1) (omega (arith, div-add-mod p m, div-add-mod q m)),
              )),
        ))
  ]
    where
      m : ℕ
      m = 2 * a

-- For a positive alignment and an address at least one alignment below the end of the address
-- space, `align_ptr` returns an odd multiple of the alignment, at or above the address, and every odd
-- multiple `q` at or above the address is at or above the one returned.
pub align_ptr_lem :
    (p a q : ℕ)
    → 0 < a
    → p + a ≤ word
    → p ≤ q
    → IsAligned q a
    → IsAligned (align_ptr p a) a × (p ≤ align_ptr p a) × (align_ptr p a ≤ q)
unfolding align_ptr
align_ptr_lem p a q h fits k e =
    (align_ptr-IsAligned p a h fits, omega arith, align_ptr-least p a h fits q k e)
