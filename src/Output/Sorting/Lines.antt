-- ===== src/Output/Sorting/Lines.antt =====
-- What is lost of the lines, and what is freed of them.
use mathlib.Core.List.{Perm, append_assoc}
use mathlib.Core.List.Perm
use ska_mpi.Prelude.{ℕ, ◌+◌, ◌≤◌, ◌≡◌, ap, ◌∙◌, none, List, [], ◌∷◌, ◌++◌, arith, length}
use ska_mpi.Align.Least.{mul_le}
use ska_mpi.Output.{Text, Output, c_string}
use ska_mpi.Output.Transfer.{HasNoNul, c_string-append}
use ska_mpi.Output.Sorting.{Item, Items, join, enlarge, keep_line, blocks, sort_and_print_output}

-- The bytes of the first other process end with a 0, and so does what is printed of the line that is
-- kept: of the texts of all other processes, this one's among them, nothing is printed.
pub line_ends_early :
    (text : Text) (others : List Text) (own : Text)
    → HasNoNul text
    → c_string (join ((text ++ 0 ∷ []) ∷ others) own) ≡ text
unfolding join
line_ends_early text others own h =
    ap c_string (append_assoc text (0 ∷ []) (join others own))
    ∙ c_string-append text (join others own) h

module _ (Key : Type 0) where
  -- When all places are taken, the buffer is enlarged to too few bytes for the next item, if an item
  -- has at least two.
  pub keep_line-full :
      (item_bytes : ℕ) (key : Key) (received : List Text) (it : Items Key) (o : Output)
      → 2 ≤ item_bytes
      → length it.output_item_buffer ≡ it.output_item_buffer_size
      → keep_line Key item_bytes key received it o ≡ none
  unfolding keep_line enlarge
  keep_line-full item_bytes key received it o h e =
      let few = mul_le (it.output_item_buffer_size + 1) 2 item_bytes h in ground (arith, few)

  module _ (qsort : List (Item Key) → List (Item Key))
      (qsort_perm : (is : List (Item Key)) → Perm (qsort is) is) where
    -- For a `qsort` that only reorders: two calls of `sort_and_print_output` in a row free every line
    -- that is kept twice.
    pub sort_and_print_twice :
        (it : Items Key) (o : Output)
        → let (it', o') = sort_and_print_output Key qsort it o in
          let (it'', o'') = sort_and_print_output Key qsort it' o' in
          Perm it''.freed
            (it.freed ++ blocks Key it.output_item_buffer ++ blocks Key it.output_item_buffer)
    unfolding sort_and_print_output
    sort_and_print_twice it o =
        let is = it.output_item_buffer in
        Perm.append
          (Perm.append_left it.freed (Perm.map (λ (i : Item Key). i.block) (qsort_perm is)))
          (Perm.map (λ (i : Item Key). i.block)
            (Perm.trans (qsort_perm (qsort is)) (qsort_perm is)))
