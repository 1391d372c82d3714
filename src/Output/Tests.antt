-- ===== src/Output/Tests.antt =====
-- Short texts, and the theorems at them.
use ska_mpi.Prelude.{ℕ, ◌*◌, ◌≡◌, refl, false, some, none, List, [], ◌∷◌, arith}
use ska_mpi.Arith.{imin2}
use ska_mpi.Output.{Output, Text, print_output, collect, c_string, send_output, send_from}
use ska_mpi.Output.Collected.{print_texts, ArePrinted, print_texts-ArePrinted}
use ska_mpi.Output.Transfer.{IsTransferred, send_output-receive}
use ska_mpi.Output.Sorting.{Item}

-- Room for four characters and a 0, of which one is taken.
abbrev small : Output
small = record { output_file = []; output_buffer = 65 ∷ []; output_size = 5; sort_results = false }

abbrev texts : List Text
texts = (66 ∷ []) ∷ (67 ∷ 68 ∷ []) ∷ []

-- They fit, but not with one more character.
print_texts_runs :
    (print_texts false texts small ≡ some (record small { output_buffer = 65 ∷ 66 ∷ 67 ∷ 68 ∷ [] }))
    × (print_texts false ((69 ∷ []) ∷ texts) small ≡ none)
unfolding print_texts print_output collect c_string
print_texts_runs = (refl, refl)

print_texts-ArePrinted_example : ArePrinted 2 1 false texts small (print_texts false texts small)
print_texts-ArePrinted_example =
    print_texts-ArePrinted 2 1 false texts small (omega arith) (omega arith) (refl, tt)
      ((refl, tt), ((refl, (refl, tt)), tt)) (omega arith)

send_runs : send_output 2 (65 ∷ 66 ∷ 67 ∷ []) ≡ some ((65 ∷ 66 ∷ []) ∷ (67 ∷ 0 ∷ []) ∷ [] ∷ [])
unfolding send_output send_from imin2
send_runs = refl

send_output-receive_example : IsTransferred 2 (2 * 1) (65 ∷ 66 ∷ 67 ∷ [])
send_output-receive_example =
    send_output-receive 2 1 (65 ∷ 66 ∷ 67 ∷ []) (omega arith) (omega arith)
      (refl, (refl, (refl, tt)))

abbrev line : ℕ → Item ℕ
line k = record { key = k; block = k; output_line = 65 ∷ [] }
