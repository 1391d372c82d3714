-- ===== src/Output.antt =====
-- src/output.c. A character is a number, and 0 ends a string. Every process collects its text in
-- `output_buffer`; the process of rank `output_rank` prints to the file at once, unless it sorts.
pub mod Transfer
pub mod Collected
pub mod Sorting
mod Tests
use ska_mpi.Prelude.{
  ℕ, zero, suc, ◌+◌, ◌-◌, ◌*◌, Bool, true, false, Option, none, some, List, [], ◌∷◌, ◌++◌, ltb, leb,
  ◌==◌, if◌then◌else◌, length, take, drop, ◌&&◌, not,
}
use ska_mpi.Arith.{imin2}

abbrev pub Text : Type 0
Text = List ℕ

-- What `%s` prints of the characters at a pointer.
unfoldable pub c_string : Text → Text
c_string [] = []
c_string (c ∷ cs) = let rest = c_string cs in if c == 0 then [] else c ∷ rest

-- `output_buffer` holds the characters before `output_index`, which is its length; a 0 follows them.
pub record Output : Type 0 where
  pub output_file : Text
  pub output_buffer : Text
  pub output_size : ℕ
  pub sort_results : Bool

-- The branch of `print_output` that writes the text `s`, as `vsnprintf` makes it, behind the text in the
-- buffer. `none`: the text with its 0 needs more room, and the loop that doubles the buffer calls
-- `vsnprintf` again with `args` as the first call left it, which has no defined behaviour.
unfoldable pub collect : Text → Output → Option Output
collect s o =
    let space = o.output_size - length o.output_buffer in
    if ltb space (length s + 1)
    then none
    else some (record o { output_buffer = o.output_buffer ++ c_string s })

-- `print_output` of the text `s`, where `at_output` says whether this is the process that prints.
unfoldable pub print_output : (at_output : Bool) → Text → Output → Option Output
print_output at_output s o =
    if at_output && not o.sort_results
    then some (record o { output_file = o.output_file ++ s })
    else collect s o

-- The messages of a process that does not print, from index `i` of its buffer on. `j` is the length
-- of the message before; `buffer` is `output_buffer` with the 0 behind it.
unfoldable pub send_from :
    (fuel initial_buffer_size i j output_index : ℕ) → Text → Option (List Text)
send_from zero n i j output_index buffer = none
send_from (suc fuel) n i j output_index buffer =
    let k = imin2 (output_index + 1 - i) n in
    let rest = send_from fuel n (i + n) k output_index buffer in
    if leb i output_index
    then (elim rest [ none ↦ none | some ms ↦ some (take k (drop i buffer) ∷ ms) ])
    else (if j == n then some ([] ∷ []) else some [])

unfoldable pub send_output : (initial_buffer_size : ℕ) → Text → Option (List Text)
send_output n text = send_from (length text + 2) n 0 0 (length text) (text ++ 0 ∷ [])

-- What is received from one process.
pub record Received : Type 0 where
  pub bytes : Text
  pub recv_index : ℕ
  pub recv_size : ℕ
  pub pending : List Text

unfoldable pub before : Text → Received → Received
before m r = record r { bytes = m ++ r.bytes }

-- The receives from one process, each of at most `initial_buffer_size` characters at `recv_index`;
-- `none` if a message is waited for that is never sent, or one does not fit into the buffer.
unfoldable pub receive :
    (initial_buffer_size recv_index recv_size : ℕ) → List Text → Option Received
receive n index size [] = none
receive n index size (m ∷ ms) =
    let index' = index + length m in
    let size' = if leb size index' then size + n else size in
    let rest = receive n index' size' ms in
    if ltb size (index + n)
    then none
    else (if length m == n
        then (elim rest [ none ↦ none | some r ↦ some (before m r) ])
        else some (record { bytes = m; recv_index = index'; recv_size = size; pending = ms }))
