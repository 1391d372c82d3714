-- ===== src/Coll/Broadcast/Rank.antt =====
-- How `init_Bcast_using_Send_Recv` numbers the processes.
use native.Mathlib.Nat.{mod_self, mod-eq_of_lt, mod-eq-sub-mod, mod-lt}
use ska_mpi.Prelude.{ℕ, ◌+◌, ◌-◌, ◌%◌, ◌≤◌, ◌<◌, ◌≡◌, ap, ◌∙◌, dec_lt, arith}
use ska_mpi.Coll.Broadcast.{new_rank}

pub new_rank_root : (size root : ℕ) → root < size → new_rank size root root ≡ 0
unfolding new_rank
new_rank_root size root h =
    let e : root + size - root ≡ size = omega arith in ap (λ k. k % size) e ∙ mod_self size

pub new_rank_lt : (size root rank : ℕ) → 0 < size → new_rank size root rank < size
unfolding new_rank
new_rank_lt size root rank h = mod-lt (rank + size - root) h

below_root :
    (size root rank : ℕ) → root < size → rank < root → new_rank size root rank ≡ rank + size - root
unfolding new_rank
below_root size root rank h l = mod-eq_of_lt {n = rank + size - root} {m = size} (omega arith)

from_root :
    (size root rank : ℕ)
    → rank < size
    → root < size
    → root ≤ rank
    → new_rank size root rank ≡ rank - root
unfolding new_rank
from_root size root rank k h l =
    let e : rank + size - root - size ≡ rank - root = omega arith in
    mod-eq-sub-mod {n = rank + size - root} {m = size} (omega arith)
    ∙ (ap (λ k. k % size) e ∙ mod-eq_of_lt {n = rank - root} {m = size} (omega arith))

-- Two different ranks have different new ranks.
pub new_rank_injective :
    (size root a b : ℕ)
    → root < size
    → a < size
    → b < size
    → new_rank size root a ≡ new_rank size root b
    → a ≡ b
new_rank_injective size root a b h ha hb e = elim (dec_lt a root) [
  | yes la ↦ elim (dec_lt b root) [
    | yes lb ↦ omega (arith, e, below_root size root a h la, below_root size root b h lb)
    | no nb ↦
        omega (arith, e, below_root size root a h la, from_root size root b hb h (omega arith))
  ]
  | no na ↦ elim (dec_lt b root) [
    | yes lb ↦
        omega (arith, e, from_root size root a ha h (omega arith), below_root size root b h lb)
    | no nb ↦ omega (
      arith,
      e,
      from_root size root a ha h (omega arith),
      from_root size root b hb h (omega arith),
    )
  ]
]
