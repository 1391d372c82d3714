-- ===== src/Helpers/Topology.antt =====
-- src/measurements/helpers.c: the graph that `func_topology_graph2` hands to MPI_Graph_create. The entries
-- at `2 * j` and `2 * j + 1` are the `j`th edge.
pub mod Neighbours
pub mod Room
pub mod Slices
use ska_mpi.Prelude.{ℕ, zero, suc, ◌+◌, List, [], ◌∷◌, ◌++◌, ltb, ◌==◌, if◌then◌else◌, length}

-- The largest of `left` entries from the `i`th one on, and of `nnodes`
unfoldable pub largest_node : (graph : ℕ → ℕ) (left i nnodes : ℕ) → ℕ
largest_node graph zero i nnodes = nnodes
largest_node graph (suc left) i nnodes =
    largest_node graph left (i + 1) (if ltb nnodes (graph i) then graph i else nnodes)

-- `index` and `edges`, up to the number of their elements that are set
pub record Topology : Type 0 where
  pub index : List ℕ
  pub edges : List ℕ

-- The loop over the edges, for the node `i`
unfoldable pub add_edges : (graph : ℕ → ℕ) (i pairs j : ℕ) → List ℕ → List ℕ
add_edges graph i zero j edges = edges
add_edges graph i (suc pairs) j edges = add_edges graph i pairs (j + 2) (
    if graph j == i
    then edges ++ graph (j + 1) ∷ []
    else (if graph (j + 1) == i then edges ++ graph j ∷ [] else edges))

-- The loop over the nodes
unfoldable pub add_nodes : (graph : ℕ → ℕ) (pairs left i : ℕ) → Topology → Topology
add_nodes graph pairs zero i t = t
add_nodes graph pairs (suc left) i t =
    let edges = add_edges graph i pairs 0 t.edges in
    add_nodes graph pairs left (i + 1)
      (record { index = t.index ++ length edges ∷ []; edges = edges })

-- For a graph of `pairs` edges; `nnodes` is the number of nodes that it hands over.
unfoldable pub nnodes : (graph : ℕ → ℕ) (pairs : ℕ) → ℕ
nnodes graph pairs = largest_node graph (pairs + pairs) 0 0 + 1

unfoldable pub func_topology_graph2 : (graph : ℕ → ℕ) (pairs : ℕ) → Topology
func_topology_graph2 graph pairs =
    add_nodes graph pairs (nnodes graph pairs) 0 (record { index = []; edges = [] })
