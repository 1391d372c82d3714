-- ===== src/Helpers/Topology/Room.antt =====
-- The edges fit into their array, and each node finds its neighbours there.
use mathlib.Core.List.{append_assoc, append-nil}
use ska_mpi.Prelude.{
  ℕ, zero, suc, if_elim, ◌+◌, ◌≤◌, ◌<◌, ◌≡◌, refl, sym, ap, subst, ◌∙◌, ℕ_discrete, List, [], ◌∷◌,
  ◌++◌, ◌==◌, ltb, if◌then◌else◌, length, length-append, arith,
}
use ska_mpi.Helpers.Topology.{
  Topology, add_edges, add_nodes, largest_node, nnodes, func_topology_graph2,
}
use ska_mpi.Helpers.Topology.Neighbours.{neighbours, add_edges-neighbours}

abbrev all_neighbours : (graph : ℕ → ℕ) (pairs left i : ℕ) → List ℕ
all_neighbours graph pairs zero i = []
all_neighbours graph pairs (suc left) i =
    neighbours graph i pairs 0 ++ all_neighbours graph pairs left (i + 1)

add_nodes-edges :
    (graph : ℕ → ℕ) (pairs left i : ℕ) (t : Topology)
    → (add_nodes graph pairs left i t).edges ≡ t.edges ++ all_neighbours graph pairs left i
unfolding add_nodes
add_nodes-edges graph pairs zero i t = sym (append-nil t.edges)
add_nodes-edges graph pairs (suc left) i t =
    add_nodes-edges graph pairs left (i + 1) _
    ∙ (ap (λ l. l ++ all_neighbours graph pairs left (i + 1))
          (add_edges-neighbours graph i pairs 0 t.edges)
        ∙ append_assoc t.edges _ _)

-- At how many of `left` nodes from `i` on an edge is entered.
abbrev hits : (a left i : ℕ) → ℕ
hits a zero i = 0
hits a (suc left) i = (if a == i then 1 else 0) + hits a left (i + 1)

hits-before : (a left i : ℕ) → a < i → hits a left i ≡ 0
hits-before a zero i h = refl
hits-before a (suc left) i h = let rest = hits-before a left (i + 1) (omega arith) in ground arith

hits_once : (a left i : ℕ) → hits a left i ≤ 1
hits_once a zero i = omega arith
hits_once a (suc left) i = elim (ℕ_discrete a i) [
  | yes e ↦ let rest = hits-before a left (i + 1) (omega arith) in ground arith
  | no ne ↦ let rest = hits_once a left (i + 1) in ground arith
]

abbrev all_from : (graph : ℕ → ℕ) (pairs j left i : ℕ) → ℕ
all_from graph pairs j zero i = 0
all_from graph pairs j (suc left) i =
    length (neighbours graph i pairs j) + all_from graph pairs j left (i + 1)

all_from-step :
    (graph : ℕ → ℕ) (pairs j left i : ℕ)
    → all_from graph (suc pairs) j left i
      ≤ hits (graph j) left i + hits (graph (j + 1)) left i + all_from graph pairs (j + 2) left i
all_from-step graph pairs j zero i = omega arith
all_from-step graph pairs j (suc left) i =
    let rest = all_from-step graph pairs j left (i + 1) in ground arith

all_from-none : (graph : ℕ → ℕ) (j left i : ℕ) → all_from graph 0 j left i ≡ 0
all_from-none graph j zero i = refl
all_from-none graph j (suc left) i = omega (arith, all_from-none graph j left (i + 1))

all_from-le : (graph : ℕ → ℕ) (pairs j left i : ℕ) → all_from graph pairs j left i ≤ pairs + pairs
all_from-le graph zero j left i = omega (arith, all_from-none graph j left i)
all_from-le graph (suc pairs) j left i = omega (
  arith,
  all_from-step graph pairs j left i,
  hits_once (graph j) left i,
  hits_once (graph (j + 1)) left i,
  all_from-le graph pairs (j + 2) left i,
)

length-all_neighbours :
    (graph : ℕ → ℕ) (pairs left i : ℕ)
    → length (all_neighbours graph pairs left i) ≡ all_from graph pairs 0 left i
length-all_neighbours graph pairs zero i = refl
length-all_neighbours graph pairs (suc left) i = omega (
  arith,
  length-append (neighbours graph i pairs 0) (all_neighbours graph pairs left (i + 1)),
  length-all_neighbours graph pairs left (i + 1),
)

-- The largest node
largest_node-le : (graph : ℕ → ℕ) (left i n : ℕ) → n ≤ largest_node graph left i n
unfolding largest_node
largest_node-le graph zero i n = omega arith
largest_node-le graph (suc left) i n =
    let rest = largest_node-le graph left (i + 1) (if ltb n (graph i) then graph i else n) in
    ground arith

largest_node-ge :
    (graph : ℕ → ℕ) (left i n k : ℕ) → i ≤ k → k < i + left → graph k ≤ largest_node graph left i n
unfolding largest_node
largest_node-ge graph zero i n k l m = absurd (omega arith)
largest_node-ge graph (suc left) i n k l m = elim (ℕ_discrete i k) [
  | yes e ↦
      let rest = largest_node-le graph left (i + 1) (if ltb n (graph i) then graph i else n) in
      let same : graph i ≡ graph k = ap graph e in ground arith
  | no ne ↦ largest_node-ge graph left (i + 1) _ k (omega arith) (omega arith)
]

abbrev pub AllBelow : ℕ → List ℕ → Type 0
AllBelow n [] = Unit
AllBelow n (x ∷ xs) = (x < n) × AllBelow n xs

AllBelow-append : (n : ℕ) (xs ys : List ℕ) → AllBelow n xs → AllBelow n ys → AllBelow n (xs ++ ys)
AllBelow-append n [] ys h k = k
AllBelow-append n (x ∷ xs) ys (h, hs) k = (h, AllBelow-append n xs ys hs k)

neighbours-AllBelow :
    (graph : ℕ → ℕ) (n i pairs j : ℕ)
    → ((k : ℕ) → k < j + (pairs + pairs) → graph k < n)
    → AllBelow n (neighbours graph i pairs j)
neighbours-AllBelow graph n i zero j h = tt
neighbours-AllBelow graph n i (suc pairs) j h =
    let rest = neighbours-AllBelow graph n i pairs (j + 2) (λ k l. h k (omega arith)) in
    if_elim (AllBelow n) (graph j == i) (λ _. (h (j + 1) (omega arith), rest))
      (λ _. if_elim (AllBelow n) (graph (j + 1) == i) (λ _. (h j (omega arith), rest)) (λ _. rest))

all_neighbours-AllBelow :
    (graph : ℕ → ℕ) (n pairs left i : ℕ)
    → ((k : ℕ) → k < pairs + pairs → graph k < n)
    → AllBelow n (all_neighbours graph pairs left i)
all_neighbours-AllBelow graph n pairs zero i h = tt
all_neighbours-AllBelow graph n pairs (suc left) i h =
    AllBelow-append n _ _ (neighbours-AllBelow graph n i pairs 0 (λ k l. h k (omega arith)))
      (all_neighbours-AllBelow graph n pairs left (i + 1) h)

add_nodes-index :
    (graph : ℕ → ℕ) (pairs left i : ℕ) (t : Topology)
    → length (add_nodes graph pairs left i t).index ≡ length t.index + left
unfolding add_nodes
add_nodes-index graph pairs zero i t = omega arith
add_nodes-index graph pairs (suc left) i t =
    add_nodes-index graph pairs left (i + 1) _
    ∙ omega (arith, length-append t.index (length (add_edges graph i pairs 0 t.edges) ∷ []))

graph-nnodes : (graph : ℕ → ℕ) (pairs k : ℕ) → k < pairs + pairs → graph k < nnodes graph pairs
unfolding nnodes
graph-nnodes graph pairs k l =
    omega (arith, largest_node-ge graph (pairs + pairs) 0 0 k (omega arith) (omega arith))

-- The edges that `func_topology_graph2` enters fit into its array, which has as many elements as the graph;
-- every node gets its index; and the edges lead to nodes whose number is below that of the nodes.
pub func_topology_graph2-fits :
    (graph : ℕ → ℕ) (pairs : ℕ)
    → (length (func_topology_graph2 graph pairs).edges ≤ pairs + pairs)
      × ((length (func_topology_graph2 graph pairs).index ≡ nnodes graph pairs)
          × AllBelow (nnodes graph pairs) (func_topology_graph2 graph pairs).edges)
unfolding func_topology_graph2
func_topology_graph2-fits graph pairs =
    let n = nnodes graph pairs in
    let e = add_nodes-edges graph pairs n 0 (record { index = []; edges = [] }) in
    (
      omega (
        arith,
        ap length e,
        length-all_neighbours graph pairs n 0,
        all_from-le graph pairs 0 n 0,
      ),
      (
        add_nodes-index graph pairs n 0 (record { index = []; edges = [] }) ∙ omega arith,
        subst (AllBelow n) (sym e)
            (all_neighbours-AllBelow graph n pairs n 0 (graph-nnodes graph pairs)),
      ),
    )
