-- ===== src/Helpers/Topology/Slices.antt =====
-- Where a node finds its neighbours among the edges.
use mathlib.Core.List.{append_assoc, append-nil}
use ska_mpi.Prelude.{
  ℕ, zero, suc, ◌+◌, ◌≤◌, ◌<◌, ◌≡◌, refl, sym, ap, subst, ◌∙◌, ℕ_discrete, List, [], ◌∷◌, ◌++◌,
  length, length-append, get_or, arith,
}
use ska_mpi.Helpers.Topology.{Topology, add_edges, add_nodes, nnodes, func_topology_graph2}
use ska_mpi.Helpers.Topology.Neighbours.{
  neighbours, add_edges-neighbours, times, neighbours-symmetric,
}

-- The end of the edges of the node before.
abbrev pub first_edge : List ℕ → ℕ → ℕ
first_edge index zero = 0
first_edge index (suc i) = get_or index i 0

-- The neighbours of `i` stand between the end of the node before and its own one.
pub record Slice (graph : ℕ → ℕ) (pairs : ℕ) (t : Topology) (i : ℕ) : Type 0 where
  pub before : List ℕ
  pub after : List ℕ
  pub whole : t.edges ≡ before ++ (neighbours graph i pairs 0 ++ after)
  pub first : first_edge t.index i ≡ length before
  pub last : get_or t.index i 0 ≡ length before + length (neighbours graph i pairs 0)

get_or-append : (xs ys : List ℕ) (k : ℕ) → k < length xs → get_or (xs ++ ys) k 0 ≡ get_or xs k 0
get_or-append [] ys k h = absurd (omega arith)
get_or-append (x ∷ xs) ys zero h = refl
get_or-append (x ∷ xs) ys (suc k) h = get_or-append xs ys k (omega arith)

get_or-end : (xs : List ℕ) (y : ℕ) (ys : List ℕ) → get_or (xs ++ y ∷ ys) (length xs) 0 ≡ y
get_or-end [] y ys = refl
get_or-end (x ∷ xs) y ys = get_or-end xs y ys

first_edge-append :
    (xs ys : List ℕ) (k : ℕ) → k ≤ length xs → first_edge (xs ++ ys) k ≡ first_edge xs k
first_edge-append xs ys zero h = refl
first_edge-append xs ys (suc k) h = get_or-append xs ys k h

-- The nodes that follow only add to both lists.
record Grows (t u : Topology) : Type 0 where
  more_index : List ℕ
  more_edges : List ℕ
  index_is : u.index ≡ t.index ++ more_index
  edges_are : u.edges ≡ t.edges ++ more_edges

add_nodes-Grows :
    (graph : ℕ → ℕ) (pairs left i : ℕ) (t : Topology) → Grows t (add_nodes graph pairs left i t)
unfolding add_nodes
add_nodes-Grows graph pairs zero i t = record {
  more_index = [];
  more_edges = [];
  index_is = sym (append-nil t.index);
  edges_are = sym (append-nil t.edges);
}
add_nodes-Grows graph pairs (suc left) i t =
    let g = add_nodes-Grows graph pairs left (i + 1) (record {
      index = t.index ++ length (add_edges graph i pairs 0 t.edges) ∷ [];
      edges = add_edges graph i pairs 0 t.edges;
    }) in
    record {
      more_index = length (add_edges graph i pairs 0 t.edges) ∷ g.more_index;
      more_edges = neighbours graph i pairs 0 ++ g.more_edges;
      index_is = g.index_is ∙ append_assoc t.index _ g.more_index;
      edges_are =
          g.edges_are
          ∙ (ap (λ l. l ++ g.more_edges) (add_edges-neighbours graph i pairs 0 t.edges)
              ∙ append_assoc t.edges _ g.more_edges);
    }

-- `r` is one of the `left` nodes from `i` on, which are added to those before them.
add_nodes-Slice :
    (graph : ℕ → ℕ) (pairs left i r : ℕ) (t : Topology)
    → length t.index ≡ i
    → first_edge t.index i ≡ length t.edges
    → i ≤ r
    → r < i + left
    → Slice graph pairs (add_nodes graph pairs left i t) r
unfolding add_nodes
add_nodes-Slice graph pairs zero i r t e f l m = absurd (omega arith)
add_nodes-Slice graph pairs (suc left) i r t e f l m = elim (ℕ_discrete i r) [
  | yes same ↦ subst (Slice graph pairs (add_nodes graph pairs (suc left) i t)) same here
  | no ne ↦
      add_nodes-Slice graph pairs left (i + 1) r next (length-append t.index _ ∙ omega arith)
        next_first (omega arith) (omega arith)
]
  where
    next : Topology
    next = record {
      index = t.index ++ length (add_edges graph i pairs 0 t.edges) ∷ [];
      edges = add_edges graph i pairs 0 t.edges;
    }

    g : Grows next (add_nodes graph pairs left (i + 1) next)
    g = add_nodes-Grows graph pairs left (i + 1) next

    added : add_edges graph i pairs 0 t.edges ≡ t.edges ++ neighbours graph i pairs 0
    added = add_edges-neighbours graph i pairs 0 t.edges

    at_i :
        (ys : List ℕ)
        → get_or (t.index ++ length (add_edges graph i pairs 0 t.edges) ∷ ys) i 0
          ≡ length (add_edges graph i pairs 0 t.edges)
    at_i ys =
        let n = length (add_edges graph i pairs 0 t.edges) in
        subst (λ k. get_or (t.index ++ n ∷ ys) k 0 ≡ n) e (get_or-end t.index n ys)

    next_first : first_edge next.index (i + 1) ≡ length next.edges
    next_first = let s : i + 1 ≡ suc i = omega arith in ap (first_edge next.index) s ∙ at_i []

    split :
        (add_nodes graph pairs left (i + 1) next).index
        ≡ t.index ++ length (add_edges graph i pairs 0 t.edges) ∷ g.more_index
    split = g.index_is ∙ append_assoc t.index _ g.more_index

    here : Slice graph pairs (add_nodes graph pairs left (i + 1) next) i
    here = record {
      before = t.edges;
      after = g.more_edges;
      whole =
          g.edges_are ∙ (ap (λ l. l ++ g.more_edges) added ∙ append_assoc t.edges _ g.more_edges);
      first = ap (λ x. first_edge x i) split ∙ (first_edge-append t.index _ i (omega arith) ∙ f);
      last =
          ap (λ x. get_or x i 0) split
          ∙ (at_i g.more_index
              ∙ (ap length added ∙ length-append t.edges (neighbours graph i pairs 0)));
    }

-- For two nodes of the graph that func_topology_graph2 hands over, the neighbours of each stand among the
-- edges from where the index of the node before ends to where its own ends, and each is among the
-- neighbours of the other as often as the other among its own.
pub func_topology_graph2-neighbours :
    (graph : ℕ → ℕ) (pairs a b : ℕ)
    → a < nnodes graph pairs
    → b < nnodes graph pairs
    → (Slice graph pairs (func_topology_graph2 graph pairs) a
        × Slice graph pairs (func_topology_graph2 graph pairs) b)
      × (times b (neighbours graph a pairs 0) ≡ times a (neighbours graph b pairs 0))
unfolding func_topology_graph2
func_topology_graph2-neighbours graph pairs a b la lb =
    ((slice a la, slice b lb), neighbours-symmetric graph a b pairs 0)
  where
    slice :
        (r : ℕ)
        → r < nnodes graph pairs
        → Slice graph pairs
            (add_nodes graph pairs (nnodes graph pairs) 0 (record { index = []; edges = [] }))
            r
    slice r l =
        add_nodes-Slice graph pairs (nnodes graph pairs) 0 r _ refl refl (omega arith) (omega arith)
