-- ===== src/Helpers/Topology/Neighbours.antt =====
-- The neighbours of a node, and the edges as those of one node behind those of the other.
use mathlib.Core.List.{append_assoc, append-nil}
use ska_mpi.Prelude.{
  ℕ, zero, suc, ◌+◌, ◌≡◌, refl, sym, ◌∙◌, Bool-cases, inl, inr, List, [], ◌∷◌, ◌++◌, ◌==◌,
  if◌then◌else◌, arith,
}
use ska_mpi.Helpers.Topology.{add_edges}

-- The other ends of the edges at a node, a loop once.
abbrev pub neighbours : (graph : ℕ → ℕ) (i pairs j : ℕ) → List ℕ
neighbours graph i zero j = []
neighbours graph i (suc pairs) j =
    if graph j == i
    then graph (j + 1) ∷ neighbours graph i pairs (j + 2)
    else (if graph (j + 1) == i
        then graph j ∷ neighbours graph i pairs (j + 2)
        else neighbours graph i pairs (j + 2))

pub add_edges-neighbours :
    (graph : ℕ → ℕ) (i pairs j : ℕ) (edges : List ℕ)
    → add_edges graph i pairs j edges ≡ edges ++ neighbours graph i pairs j
unfolding add_edges
add_edges-neighbours graph i zero j edges = sym (append-nil edges)
add_edges-neighbours graph i (suc pairs) j edges = elim (Bool-cases (graph j == i)) [
  | inl e ↦
      rw e
        (add_edges-neighbours graph i pairs (j + 2) _ ∙ append_assoc edges (graph (j + 1) ∷ []) _)
  | inr n ↦ elim (Bool-cases (graph (j + 1) == i)) [
    | inl e ↦
        rw (n, e)
          (add_edges-neighbours graph i pairs (j + 2) _ ∙ append_assoc edges (graph j ∷ []) _)
    | inr m ↦ rw (n, m) (add_edges-neighbours graph i pairs (j + 2) edges)
  ]
]

-- How often `x` is in a list.
abbrev pub times : ℕ → List ℕ → ℕ
times x [] = 0
times x (y ∷ ys) = (if y == x then 1 else 0) + times x ys

-- For different nodes.
pub neighbours-symmetric :
    (graph : ℕ → ℕ) (a b pairs j : ℕ)
    → times b (neighbours graph a pairs j) ≡ times a (neighbours graph b pairs j)
neighbours-symmetric graph a b zero j = refl
neighbours-symmetric graph a b (suc pairs) j =
    let rest = neighbours-symmetric graph a b pairs (j + 2) in ground arith
