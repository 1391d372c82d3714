-- ===== src/Output/Sorting.antt =====
-- src/output.c: the lines that are kept to be sorted by the value of the loop variable.
pub mod Lines
use ska_mpi.Prelude.{
  ℕ, ◌+◌, ◌*◌, Bool, true, false, Option, none, some, List, [], ◌∷◌, ◌++◌, map, ltb, ◌==◌,
  if◌then◌else◌, length,
}
use ska_mpi.Output.{Text, Output, c_string}

-- The texts of the other processes, in the order of their ranks, and that of this process behind.
unfoldable pub join : List Text → Text → Text
join [] own = own
join (t ∷ ts) own = t ++ join ts own

module _ (Key : Type 0) where
  -- `struct output_item`: a line has the number of its block beside its characters.
  pub record Item : Type 0 where
    pub key : Key
    pub block : ℕ
    pub output_line : Text

  -- `output_item_buffer` up to `output_item_index`, the number of its places and of its bytes, the next
  -- block and the blocks of the lines that were freed.
  pub record Items : Type 0 where
    pub output_item_buffer : List Item
    pub output_item_buffer_size : ℕ
    pub allocated : ℕ
    pub next_block : ℕ
    pub freed : List ℕ

  -- `realloc` to twice the number of places, in bytes, when all places are taken.
  unfoldable pub enlarge : Items → Items
  enlarge it =
      if length it.output_item_buffer == it.output_item_buffer_size
      then record it {
        allocated = 2 * it.output_item_buffer_size;
        output_item_buffer_size = it.output_item_buffer_size * 2;
      }
      else it

  -- The branch of `flush_output` that keeps a line, for items of `item_bytes` bytes; `none` is a write
  -- behind the end of the buffer. `received` are the bytes from the other processes.
  unfoldable pub keep_line :
      (item_bytes : ℕ) → Key → List Text → Items → Output → Option (Items × Output)
  keep_line item_bytes key received it o =
      let it = enlarge it in
      let item : Item = record {
        key = key;
        block = it.next_block;
        output_line = join received o.output_buffer;
      } in
      if ltb it.allocated ((length it.output_item_buffer + 1) * item_bytes)
      then none
      else some (
        record it {
          output_item_buffer = it.output_item_buffer ++ item ∷ [];
          next_block = it.next_block + 1;
        },
        record o { output_buffer = [] },
      )

  abbrev pub blocks : List Item → List ℕ
  blocks = map Item.block

  unfoldable pub print_lines : List Item → Text
  print_lines [] = []
  print_lines (i ∷ is) = c_string i.output_line ++ print_lines is

  -- `output_item_index` is not set back to 0.
  unfoldable pub sort_and_print_output :
      (qsort : List Item → List Item) → Items → Output → Items × Output
  sort_and_print_output qsort it o =
      let sorted = qsort it.output_item_buffer in
      (
        record it { output_item_buffer = sorted; freed = it.freed ++ blocks sorted },
        record o { output_file = o.output_file ++ print_lines sorted; sort_results = false },
      )
