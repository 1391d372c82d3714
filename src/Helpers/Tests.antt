-- ===== src/Helpers/Tests.antt =====
-- The helpers on concrete inputs.
use mathlib.Core.List.Perm
use ska_mpi.Helpers.Topology.{nnodes, func_topology_graph2, add_nodes, add_edges, largest_node}
use ska_mpi.Helpers.Topology.Room.{AllBelow, func_topology_graph2-fits}
use ska_mpi.Helpers.Topology.Neighbours.{neighbours, times}
use ska_mpi.Helpers.Topology.Slices.{Slice, func_topology_graph2-neighbours}
use ska_mpi.Prelude.{
  ℕ, ◌*◌, ◌+◌, ltb, false, ◌≤◌, ◌∷◌, [], get_or, length, ◌≡◌, refl, some, get_elem?, List, arith,
}
use ska_mpi.Prelude.Int.{ℤ, ◌-ℤ◌}
use ska_mpi.Helpers.{KeyedItem, cmp_v, random_items, without_keys, scattered}
use ska_mpi.Prelude.Ordered.{nat_ordered}
use ska_mpi.Helpers.Latency.{max_procs, latency, IsFound, max_procs-IsLargest}
use ska_mpi.Helpers.Random.{joining, scattered-own}

-- The numbers ascend, so that the items are in order already.
abbrev in_place : (KeyedItem → KeyedItem → ℤ) → List KeyedItem → List KeyedItem
in_place cmp ps = ps

scattered-own_example :
    ((key : KeyedItem) × ((get_elem? (scattered in_place (λ i. 7 * i) 3 2) 1 ≡ some key)
        × (key.v ≡ 1)))
    × (joining (scattered in_place (λ i. 7 * i) 3 2) ≡ 2)
unfolding cmp_v random_items without_keys scattered ◌-ℤ◌
scattered-own_example =
    scattered-own in_place (λ i. 7 * i) 3 2 1 (omega arith) (omega arith) Perm.rfl Perm.rfl
      ((omega arith, (omega arith, tt)), ((omega arith, tt), (tt, tt)))

-- The edges 0-1, 1-2 and 2-2.
abbrev small_graph : ℕ → ℕ
small_graph j = get_or (0 ∷ 1 ∷ 1 ∷ 2 ∷ 2 ∷ 2 ∷ []) j 0

test_graph :
    func_topology_graph2 small_graph 3
    ≡ record { index = 1 ∷ 3 ∷ 5 ∷ []; edges = 1 ∷ 0 ∷ 2 ∷ 1 ∷ 2 ∷ [] }
unfolding func_topology_graph2 nnodes add_nodes add_edges largest_node
test_graph = refl

func_topology_graph2-fits_example :
    (length (func_topology_graph2 small_graph 3).edges ≤ 3 + 3)
    × ((length (func_topology_graph2 small_graph 3).index ≡ nnodes small_graph 3)
        × AllBelow (nnodes small_graph 3) (func_topology_graph2 small_graph 3).edges)
func_topology_graph2-fits_example = func_topology_graph2-fits small_graph 3

func_topology_graph2-neighbours_example :
    (Slice small_graph 3 (func_topology_graph2 small_graph 3) 1
      × Slice small_graph 3 (func_topology_graph2 small_graph 3) 2)
    × (times 2 (neighbours small_graph 1 3 0) ≡ times 1 (neighbours small_graph 2 3 0))
unfolding nnodes largest_node
func_topology_graph2-neighbours_example =
    func_topology_graph2-neighbours small_graph 3 1 2 (omega arith) (omega arith)

-- Three processes: there and back it takes longest between 0 and 2.
abbrev three_times : ℕ → ℕ
three_times k = get_or (0 ∷ 3 ∷ 7 ∷ 2 ∷ 0 ∷ 4 ∷ 6 ∷ 5 ∷ 0 ∷ []) k 0

max_procs-IsLargest_example :
    (ltb
        (max_procs nat_ordered ◌+◌ 3 three_times 0).max_time
        (latency nat_ordered ◌+◌ 3 three_times 1 2)
      ≡ false)
    × IsFound nat_ordered ◌+◌ 3 three_times 0 (max_procs nat_ordered ◌+◌ 3 three_times 0)
max_procs-IsLargest_example =
    max_procs-IsLargest nat_ordered ◌+◌ 3 three_times 0 1 2 (omega arith) (omega arith)
