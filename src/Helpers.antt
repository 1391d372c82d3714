-- ===== src/Helpers.antt =====
-- src/measurements/helpers.c: the random communicator. `rand` and `qsort` of the C library are parameters.
pub mod Sorted
pub mod Random
pub mod Topology
pub mod Latency
mod Tests
use ska_mpi.Prelude.{ℕ, zero, suc, ◌+◌, Bool, not, List, [], ◌∷◌, if◌then◌else◌}
use ska_mpi.Prelude.Int.{ℤ, pos, negsuc, ◌-ℤ◌, eqb_ℤ}

-- `struct item`
pub record KeyedItem : Type 0 where
  pub k : ℤ
  pub v : ℕ

unfoldable pub cmp_k : KeyedItem → KeyedItem → ℤ
cmp_k p1 p2 = p1.k -ℤ p2.k

unfoldable pub cmp_v : KeyedItem → KeyedItem → ℤ
cmp_v p1 p2 = pos p1.v -ℤ pos p2.v

-- `left` items from the rank `i` on; `rand i` is the number that the call for the rank `i` returns.
unfoldable pub random_items : (rand : ℕ → ℕ) (left i : ℕ) → List KeyedItem
random_items rand zero i = []
random_items rand (suc left) i = record { k = pos (rand i); v = i } ∷ random_items rand left (i + 1)

-- The items from the `n`th one on get the key -1.
unfoldable pub without_keys : (n : ℕ) → List KeyedItem → List KeyedItem
without_keys n [] = []
without_keys zero (p ∷ ps) = record p { k = negsuc 0 } ∷ without_keys zero ps
without_keys (suc n) (p ∷ ps) = p ∷ without_keys n ps

-- What `func_comm_rand` scatters, and whether a process with its item is in the new communicator.
unfoldable pub scattered :
    (qsort : (KeyedItem → KeyedItem → ℤ) → List KeyedItem → List KeyedItem) (rand : ℕ → ℕ)
    (size n : ℕ)
    → List KeyedItem
scattered qsort rand size n = qsort cmp_v (without_keys n (qsort cmp_k (random_items rand size 0)))

abbrev pub joins : KeyedItem → Bool
joins key = not (eqb_ℤ key.k (negsuc 0))
