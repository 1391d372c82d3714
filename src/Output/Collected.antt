-- ===== src/Output/Collected.antt =====
-- Several texts in a row through `print_output` of src/output.c, up to the process that prints.
use mathlib.Core.List.{append_assoc, append-nil}
use ska_mpi.Prelude.{
  ℕ, ◌+◌, ◌-◌, ◌*◌, ◌≤◌, ◌<◌, ◌≡◌, refl, sym, subst, ap, ◌∙◌, Bool, true, false, Option, some, none,
  ltb, arith, length, length-append, ◌++◌, List, [], ◌∷◌, ◌&&◌, not, dec_lt,
}
use ska_mpi.Output.{Output, Text, print_output, collect, c_string}
use ska_mpi.Output.Transfer.{HasNoNul, IsTransferred, send_output-receive}

-- One call for each text.
unfoldable pub print_texts : (at_output : Bool) → List Text → Output → Option Output
print_texts at_output [] o = some o
print_texts at_output (s ∷ ss) o = elim (print_output at_output s o) [
  | none ↦ none
  | some o' ↦ print_texts at_output ss o'
]

abbrev pub all_of : List Text → Text
all_of [] = []
all_of (s ∷ ss) = s ++ all_of ss

abbrev pub HaveNoNul : List Text → Type 0
HaveNoNul [] = Unit
HaveNoNul (s ∷ ss) = HasNoNul s × HaveNoNul ss

-- Whether a process prints to the file at once.
abbrev pub is_direct : Bool → Output → Bool
is_direct at_output o = at_output && not o.sort_results

c_string-HasNoNul : (s : Text) → HasNoNul s → c_string s ≡ s
unfolding c_string
c_string-HasNoNul [] h = refl
c_string-HasNoNul (c ∷ s) h = rw (h.0, c_string-HasNoNul s h.1) refl

HasNoNul-append : (s t : Text) → HasNoNul s → HasNoNul t → HasNoNul (s ++ t)
HasNoNul-append [] t h k = k
HasNoNul-append (c ∷ s) t h k = (h.0, HasNoNul-append s t h.1 k)

HasNoNul-all_of : (ss : List Text) → HaveNoNul ss → HasNoNul (all_of ss)
HasNoNul-all_of [] h = tt
HasNoNul-all_of (s ∷ ss) h = HasNoNul-append s (all_of ss) h.0 (HasNoNul-all_of ss h.1)

module _ (at_output : Bool) where
  print_output-direct :
      (s : Text) (o : Output)
      → is_direct at_output o ≡ true
      → print_output at_output s o ≡ some (record o { output_file = o.output_file ++ s })
  unfolding print_output
  print_output-direct s o d = rw d refl

  print_output-collected :
      (s : Text) (o : Output)
      → is_direct at_output o ≡ false
      → HasNoNul s
      → length o.output_buffer + length s < o.output_size
      → print_output at_output s o ≡ some (record o { output_buffer = o.output_buffer ++ s })
  unfolding print_output collect
  print_output-collected s o d h l =
      let room : ltb (o.output_size - length o.output_buffer) (length s + 1) ≡ false =
        ground (arith, l) in
      rw (d, room, c_string-HasNoNul s h) refl

  print_output-no_room :
      (s : Text) (o : Output)
      → is_direct at_output o ≡ false
      → o.output_size ≤ length o.output_buffer + length s
      → print_output at_output s o ≡ none
  unfolding print_output collect
  print_output-no_room s o d l =
      let room : ltb (o.output_size - length o.output_buffer) (length s + 1) ≡ true =
        ground (arith, l) in
      rw (d, room) refl

  print_texts-direct :
      (ss : List Text) (o : Output)
      → is_direct at_output o ≡ true
      → print_texts at_output ss o ≡ some (record o { output_file = o.output_file ++ all_of ss })
  unfolding print_texts
  print_texts-direct [] o d =
      ap (λ l. some (record o { output_file = l })) (sym (append-nil o.output_file))
  print_texts-direct (s ∷ ss) o d =
      rw (print_texts, print_output-direct s o d)
        (print_texts-direct ss (record o { output_file = o.output_file ++ s }) d
          ∙ ap (λ l. some (record o { output_file = l }))
              (append_assoc o.output_file s (all_of ss)))

  print_texts-collected :
      (ss : List Text) (o : Output)
      → is_direct at_output o ≡ false
      → HaveNoNul ss
      → length o.output_buffer + length (all_of ss) < o.output_size
      → print_texts at_output ss o
        ≡ some (record o { output_buffer = o.output_buffer ++ all_of ss })
  unfolding print_texts
  print_texts-collected [] o d h l =
      ap (λ t. some (record o { output_buffer = t })) (sym (append-nil o.output_buffer))
  print_texts-collected (s ∷ ss) o d h l =
      let whole = length-append s (all_of ss) in
      let behind = length-append o.output_buffer s in
      rw (print_texts, print_output-collected s o d h.0 (omega (arith, whole, l)))
        (print_texts-collected ss (record o { output_buffer = o.output_buffer ++ s }) d h.1
            (omega arith)
          ∙ ap (λ t. some (record o { output_buffer = t }))
              (append_assoc o.output_buffer s (all_of ss)))

  print_texts-no_room :
      (ss : List Text) (o : Output)
      → is_direct at_output o ≡ false
      → HaveNoNul ss
      → length o.output_buffer < o.output_size
      → o.output_size ≤ length o.output_buffer + length (all_of ss)
      → print_texts at_output ss o ≡ none
  unfolding print_texts
  print_texts-no_room [] o d h k l = absurd (omega arith)
  print_texts-no_room (s ∷ ss) o d h k l =
      let whole = length-append s (all_of ss) in
      let behind = length-append o.output_buffer s in
      elim (dec_lt (length o.output_buffer + length s) o.output_size) [
        | yes t ↦
            rw (print_texts, print_output-collected s o d h.0 t)
              (print_texts-no_room ss (record o { output_buffer = o.output_buffer ++ s }) d h.1
                (omega (arith, behind, t)) (omega (arith, whole, behind, l)))
        | no t ↦ rw (print_texts, print_output-no_room s o d (omega (arith, t))) refl
      ]

-- How printing the texts ends. Collected texts, sent in blocks of `n` characters to a receive buffer of `b`
-- blocks, arrive as they are.
pub data ArePrinted (n b : ℕ) (at_output : Bool) (ss : List Text) (o : Output)
    : Option Output → Type 0 where
  at_once :
      is_direct at_output o ≡ true
      → ArePrinted n b at_output ss o (some (record o { output_file = o.output_file ++ all_of ss }))
  collected :
      is_direct at_output o ≡ false
      → length (o.output_buffer ++ all_of ss) < o.output_size
      → IsTransferred n (n * b) (o.output_buffer ++ all_of ss)
      → ArePrinted n b at_output ss o
          (some (record o { output_buffer = o.output_buffer ++ all_of ss }))
  no_room :
      is_direct at_output o ≡ false
      → o.output_size ≤ length (o.output_buffer ++ all_of ss)
      → ArePrinted n b at_output ss o none

-- For texts without a 0, a buffer whose text has no 0 and leaves room for one, and a receive buffer of one or
-- more blocks: printing the texts one after the other with `print_output` writes them to the file at once, in
-- their order, where the process prints and does not sort. Elsewhere, if they fit into the buffer with
-- the text before them and a 0, it is left with exactly these texts, and the messages that `flush_output`
-- makes of such a buffer on a process that does not print give the printing process the same text again. If
-- they do not fit, some call uses its `args` again, which has no defined behaviour.
pub print_texts-ArePrinted :
    (n b : ℕ) (at_output : Bool) (ss : List Text) (o : Output)
    → 0 < n
    → 0 < b
    → HasNoNul o.output_buffer
    → HaveNoNul ss
    → length o.output_buffer < o.output_size
    → ArePrinted n b at_output ss o (print_texts at_output ss o)
print_texts-ArePrinted n b at_output ss o hn hb nul nuls room = go (is_direct at_output o) refl
  where
    whole : length (o.output_buffer ++ all_of ss) ≡ length o.output_buffer + length (all_of ss)
    whole = length-append o.output_buffer (all_of ss)

    go :
        (d : Bool)
        → is_direct at_output o ≡ d
        → ArePrinted n b at_output ss o (print_texts at_output ss o)
    go true d =
        subst (ArePrinted n b at_output ss o) (sym (print_texts-direct at_output ss o d))
          (at_once d)
    go false d = elim (dec_lt (length o.output_buffer + length (all_of ss)) o.output_size) [
      | yes t ↦
          subst (ArePrinted n b at_output ss o)
            (sym (print_texts-collected at_output ss o d nuls t))
            (collected d (omega (arith, whole, t)) (
              send_output-receive n b (o.output_buffer ++ all_of ss) hn hb
                (HasNoNul-append o.output_buffer (all_of ss) nul (HasNoNul-all_of ss nuls))))
      | no t ↦
          subst (ArePrinted n b at_output ss o)
            (sym (print_texts-no_room at_output ss o d nuls room (omega (arith, t))))
            (no_room d (omega (arith, whole, t)))
    ]
