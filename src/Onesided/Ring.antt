-- ===== src/Onesided/Ring.antt =====
-- The ring of all rows, and the numbers of the neighbours in it.
use native.Mathlib.Nat.{mod_self, mod-eq_of_lt, mod-eq-sub-mod, mul-le-mul_right}
use ska_mpi.Prelude.{
  ℕ, zero, suc, ◌+◌, ◌-◌, ◌*◌, ◌%◌, ◌<◌, ◌≡◌, ap, sym, ◌≤◌, ◌∙◌, ◌==◌, if◌then◌else◌, ℕ_discrete,
  arith,
}
use ska_mpi.Onesided.{next_rank, prev_rank, simulate_row}

-- The rows before and behind one of `n` rows.
abbrev pub above : (n g : ℕ) → ℕ
above n g = if g == 0 then n - 1 else g - 1

abbrev pub below : (n g : ℕ) → ℕ
below n g = if g + 1 == n then 0 else g + 1

-- One step of the simulation on the ring, and `k` of them.
abbrev pub stencil :
    {A : Type 0} (plus : A → A → A) (third : A → A) (n : ℕ) → (ℕ → ℕ → A) → ℕ → ℕ → A
stencil plus third n ring g = simulate_row plus third (ring (above n g)) (ring g) (ring (below n g))

abbrev pub stencils :
    {A : Type 0} (plus : A → A → A) (third : A → A) (n k : ℕ) → (ℕ → ℕ → A) → ℕ → ℕ → A
stencils plus third n zero ring = ring
stencils plus third n (suc k) ring = stencils plus third n k (stencil plus third n ring)

prev_first : (size : ℕ) → 0 < size → prev_rank size 0 ≡ size - 1
unfolding prev_rank
prev_first size h = mod-eq_of_lt {n = 0 + size - 1} {m = size} (omega arith) ∙ omega arith

prev_later : (size rank : ℕ) → suc rank < size → prev_rank size (suc rank) ≡ rank
unfolding prev_rank
prev_later size rank h =
    let e : suc rank + size - 1 - size ≡ rank = omega arith in
    mod-eq-sub-mod {n = suc rank + size - 1} {m = size} (omega arith)
    ∙ (ap (λ k. k % size) e ∙ mod-eq_of_lt {n = rank} {m = size} (omega arith))

next_last : (size rank : ℕ) → rank + 1 ≡ size → next_rank size rank ≡ 0
unfolding next_rank
next_last size rank e = ap (λ k. k % size) e ∙ mod_self size

next_earlier : (size rank : ℕ) → rank + 1 < size → next_rank size rank ≡ rank + 1
unfolding next_rank
next_earlier size rank h = mod-eq_of_lt {n = rank + 1} {m = size} h

pub prev_rank_lt : (size rank : ℕ) → rank < size → prev_rank size rank < size
prev_rank_lt size zero h = omega (arith, prev_first size h)
prev_rank_lt size (suc rank) h = omega (arith, prev_later size rank h)

pub next_rank_lt : (size rank : ℕ) → rank < size → next_rank size rank < size
next_rank_lt size rank h = elim (ℕ_discrete (rank + 1) size) [
  | yes e ↦ omega (arith, next_last size rank e)
  | no ne ↦ omega (arith, next_earlier size rank (omega arith))
]

pub next-prev : (size rank : ℕ) → rank < size → next_rank size (prev_rank size rank) ≡ rank
next-prev size zero h =
    ap (next_rank size) (prev_first size h) ∙ next_last size (size - 1) (omega arith)
next-prev size (suc rank) h =
    ap (next_rank size) (prev_later size rank h)
    ∙ (next_earlier size rank (omega arith) ∙ omega arith)

pub prev-next : (size rank : ℕ) → rank < size → prev_rank size (next_rank size rank) ≡ rank
prev-next size rank h = elim (ℕ_discrete (rank + 1) size) [
  | yes e ↦
      ap (prev_rank size) (next_last size rank e) ∙ (prev_first size (omega arith) ∙ omega arith)
  | no ne ↦
      let e : rank + 1 ≡ suc rank = omega arith in
      ap (prev_rank size) (next_earlier size rank (omega arith) ∙ e)
      ∙ prev_later size rank (omega arith)
]

above_zero : (n g : ℕ) → g ≡ 0 → above n g ≡ n - 1
above_zero n g h = ground arith

pub above_later : (n g : ℕ) → 0 < g → above n g ≡ g - 1
above_later n g h = ground arith

below_end : (n g : ℕ) → g + 1 ≡ n → below n g ≡ 0
below_end n g h = ground arith

pub below_earlier : (n g : ℕ) → g + 1 < n → below n g ≡ g + 1
below_earlier n g h = ground arith

mul_suc_left : (a b : ℕ) → (a + 1) * b ≡ a * b + b
mul_suc_left a b = grind arith

pub mul_below : (size rows rank : ℕ) → rank < size → rank * rows + rows ≤ size * rows
mul_below size rows rank h =
    omega
      (arith, mul_suc_left rank rows, mul-le-mul_right {m = rank + 1} {n = size} rows (omega arith))

-- The last row of the process before is the one above the own first row.
pub above_first :
    (size rows rank : ℕ)
    → rank < size
    → 0 < rows
    → above (size * rows) (rank * rows) ≡ prev_rank size rank * rows + (rows - 1)
above_first size rows zero h p =
    let e : size ≡ size - 1 + 1 = omega arith in
    let m : size * rows ≡ (size - 1) * rows + rows =
      ap (λ k. k * rows) e ∙ mul_suc_left (size - 1) rows in
    rw (prev_first size h) (above_zero (size * rows) (0 * rows) (omega arith) ∙ omega (arith, m))
above_first size rows (suc rank) h p =
    let e : suc rank ≡ rank + 1 = omega arith in
    let m : suc rank * rows ≡ rank * rows + rows = ap (λ k. k * rows) e ∙ mul_suc_left rank rows in
    rw (prev_later size rank h)
      (above_later (size * rows) (suc rank * rows) (omega (arith, m)) ∙ omega (arith, m))

pub below_last :
    (size rows rank : ℕ)
    → rank < size
    → 0 < rows
    → below (size * rows) (rank * rows + (rows - 1)) ≡ next_rank size rank * rows
below_last size rows rank h p = elim (ℕ_discrete (rank + 1) size) [
  | yes e ↦
      let m : size * rows ≡ rank * rows + rows =
        ap (λ k. k * rows) (sym e) ∙ mul_suc_left rank rows in
      rw (next_last size rank e)
        (below_end (size * rows) (rank * rows + (rows - 1)) (omega (arith, m)) ∙ omega arith)
  | no ne ↦
      rw (next_earlier size rank (omega arith), mul_suc_left rank rows)
        (below_earlier (size * rows) (rank * rows + (rows - 1))
            (omega (arith, mul_below size rows (rank + 1) (omega arith), mul_suc_left rank rows))
          ∙ omega arith)
]
