-- ===== src/SymbolTable/Scopes.antt =====
-- Measurement blocks: local variables shadow the global ones until `clear_locals`.
use Prim.Native.String.{String}
use text.Mathlib.TextEquality.{eq_iff}
use text.Mathlib.TextPositions.{eq_refl}
use ska_mpi.Prelude.{Bool, true, ◌≡◌, ◌≢◌, ◌∙◌, refl, none, some, List, [], ◌∷◌, arith}
use ska_mpi.SymbolTable.{
  Entry, Table, search_name, update_name, is_some, fresh_entry, ensure_name, set_localv,
  set_globalv, globalv?, search_lvalue, search_rvalue, search_function, clear_locals,
}
use ska_mpi.SymbolTable.Laws.{
  search_name-update, search_name-ensure, ensure_name_self, search_name-without_locals,
}

-- Inside a measurement block, the variable that an assignment to a name finds or makes is the one
-- that the name's value is read from next.
pub search_rvalue-local :
    (left : Entry) (name : String) (t : Table)
    → let (v, t') = search_lvalue true left name t in search_rvalue name t' ≡ some v
unfolding search_lvalue search_rvalue fresh_entry
search_rvalue-local left name t =
    let es = ensure_name left name t.entries in
    ground (
      arith,
      eq_refl name,
      search_name-ensure left name name t.entries,
      search_name-update name name (set_localv (some t.next_variable)) es (λ p. refl),
    )

-- Assigning to a name changes what no other name means, inside and outside of measurement blocks.
pub search_rvalue-other :
    (inside : Bool) (left : Entry) (k j : String) (t : Table)
    → k ≢ j
    → search_rvalue j (search_lvalue inside left k t).1 ≡ search_rvalue j t
unfolding search_lvalue search_rvalue fresh_entry
search_rvalue-other inside left k j t h =
    let es = ensure_name left k t.entries in
    ground (
      arith,
      eq_iff k j,
      search_name-ensure left k j t.entries,
      search_name-update k j (set_localv (some t.next_variable)) es (λ p. refl),
      search_name-update k j (set_globalv (some t.next_variable)) es (λ p. refl),
    )

-- The global variable of a name is untouched by a local assignment.
global-kept :
    (left : Entry) (k j : String) (t : Table)
    → globalv? (search_name j (search_lvalue true left k t).1.entries)
      ≡ globalv? (search_name j t.entries)
unfolding search_lvalue fresh_entry
global-kept left k j t =
    let es = ensure_name left k t.entries in
    ground (
      arith,
      eq_iff k j,
      search_name-ensure left k j t.entries,
      search_name-update k j (set_localv (some t.next_variable)) es (λ p. refl),
    )

-- The table after assignments to some names inside a measurement block.
unfoldable pub assign_locals : List String → Entry → Table → Table
assign_locals [] left t = t
assign_locals (k ∷ ks) left t = assign_locals ks left (search_lvalue true left k t).1

globals-kept :
    (ks : List String) (left : Entry) (j : String) (t : Table)
    → globalv? (search_name j (assign_locals ks left t).entries)
      ≡ globalv? (search_name j t.entries)
unfolding assign_locals
globals-kept [] left j t = refl
globals-kept (k ∷ ks) left j t =
    globals-kept ks left j (search_lvalue true left k t).1 ∙ global-kept left k j t

-- After any assignments inside a measurement block and `clear_locals` at its end, every name means
-- its global variable, the one it had before the block, or nothing if it had none.
pub search_rvalue-clear_locals :
    (ks : List String) (left : Entry) (j : String) (t : Table)
    → search_rvalue j (clear_locals (assign_locals ks left t)) ≡ globalv? (search_name j t.entries)
unfolding search_rvalue clear_locals
search_rvalue-clear_locals ks left j t = ground (
  arith,
  globals-kept ks left j t,
  search_name-without_locals j (assign_locals ks left t).entries,
)

-- A second search for an lvalue finds the variable that the first one found or made, and changes
-- nothing.
search_lvalue-again :
    (inside : Bool) (left : Entry) (name : String) (t : Table)
    → let r = search_lvalue inside left name t in search_lvalue inside left name r.1 ≡ r
unfolding search_lvalue fresh_entry
search_lvalue-again inside left name t =
    let es = ensure_name left name t.entries in
    let ls = update_name name (set_localv (some t.next_variable)) es in
    let gs = update_name name (set_globalv (some t.next_variable)) es in
    ground (
      arith,
      eq_refl name,
      search_name-ensure left name name t.entries,
      ensure_name_self left name es,
      ensure_name_self left name ls,
      ensure_name_self left name gs,
      search_name-update name name (set_localv (some t.next_variable)) es (λ p. refl),
      search_name-update name name (set_globalv (some t.next_variable)) es (λ p. refl),
    )

-- Which name is a function depends, for a name that was assigned to first, on what `malloc` left in
-- the entry: `search_lvalue` sets no function pointer, and `search_function` tests one.
pub search_function-search_lvalue :
    (inside : Bool) (left : Entry) (name : String) (t : Table)
    → search_name name t.entries ≡ none
    → is_some (search_function name (search_lvalue inside left name t).1) ≡ is_some left.call_fp
unfolding search_lvalue search_function fresh_entry
search_function-search_lvalue inside left name t new =
    let es = ensure_name left name t.entries in
    ground (
      arith,
      eq_refl name,
      search_name-ensure left name name t.entries,
      search_name-update name name (set_localv (some t.next_variable)) es (λ p. refl),
      search_name-update name name (set_globalv (some t.next_variable)) es (λ p. refl),
    )
