-- ===== src/SymbolTable.antt =====
-- src/symboltable.c: names with their global and local variables, functions and iterators. A
-- variable is the number under which `create_struct_variable` made it, a function pointer is a
-- number, and `none` is NULL. `none` as a result is a failed assertion.
pub mod Laws
pub mod Scopes
mod Tests
use Prim.Native.String.{String}
use text.Mathlib.Text.{◌==◌}
use ska_mpi.Prelude.{
  ℕ, ◌+◌, Bool, true, false, ◌&&◌, Option, none, some, List, [], ◌∷◌, ◌++◌, if◌then◌else◌,
}

-- `enum var_type` of src/exec.h
pub data VarType : Type 0 where
  integer double string datatype comm op info void iarray darray : VarType

pub record Entry : Type 0 where
  pub name : String
  pub globalv : Option ℕ
  pub localv : Option ℕ
  pub init_fp : Option ℕ
  pub call_fp : Option ℕ
  pub finalize_fp : Option ℕ
  pub iterator_fp : Option ℕ
  pub interface : String
  pub result_type : VarType

-- The list at `symboltable_root`, the number of the next variable, and the variables that were freed.
pub record Table : Type 0 where
  pub entries : List Entry
  pub next_variable : ℕ
  pub freed : List ℕ

unfoldable pub search_name : String → List Entry → Option Entry
search_name name [] = none
search_name name (p ∷ ps) = if name == p.name then some p else search_name name ps

-- A write through the pointer that `search_name` returned.
unfoldable pub update_name : String → (Entry → Entry) → List Entry → List Entry
update_name name f [] = []
update_name name f (p ∷ ps) = if name == p.name then f p ∷ ps else p ∷ update_name name f ps

abbrev pub is_some {ℓ} : {A : Type ℓ} → Option A → Bool
is_some none = false
is_some (some a) = true

-- `malloc` gives memory with whatever it holds, here `left`; only these four fields are set.
unfoldable pub fresh_entry : Entry → String → Entry
fresh_entry left name = record left { name = name; globalv = none; localv = none }

unfoldable pub ensure_name : Entry → String → List Entry → List Entry
ensure_name left name es = if is_some (search_name name es) then es else fresh_entry left name ∷ es

abbrev pub set_localv : Option ℕ → Entry → Entry
set_localv v p = record p { localv = v }

abbrev pub set_globalv : Option ℕ → Entry → Entry
set_globalv v p = record p { globalv = v }

-- The variable that a scope's field holds, or a new one put there by `put`.
unfoldable pub found_or_new : String → Option ℕ → (Option ℕ → Entry → Entry) → Table → ℕ × Table
found_or_new name (some v) put t = (v, t)
found_or_new name none put t = (
  t.next_variable,
  record t {
    entries = update_name name (put (some t.next_variable)) t.entries;
    next_variable = t.next_variable + 1;
  },
)

abbrev pub localv? : Option Entry → Option ℕ
localv? none = none
localv? (some p) = p.localv

abbrev pub globalv? : Option Entry → Option ℕ
globalv? none = none
globalv? (some p) = p.globalv

-- `inside` is `inside_measurement_block`.
unfoldable pub search_lvalue : (inside : Bool) → Entry → String → Table → ℕ × Table
unfolding found_or_new
search_lvalue inside left name t =
    let t = record t { entries = ensure_name left name t.entries } in
    let p = search_name name t.entries in
    if inside
    then found_or_new name (localv? p) set_localv t
    else found_or_new name (globalv? p) set_globalv t

abbrev pub visible : Entry → Option ℕ
visible p = elim p.localv [ some v ↦ some v | none ↦ p.globalv ]

unfoldable pub search_rvalue : String → Table → Option ℕ
search_rvalue name t = elim (search_name name t.entries) [ none ↦ none | some p ↦ visible p ]

unfoldable pub search_function : String → Table → Option Entry
search_function name t = elim (search_name name t.entries) [
  | none ↦ none
  | some p ↦ if is_some p.call_fp then some p else none
]

unfoldable pub search_iterator : String → Table → Option Entry
search_iterator name t = elim (search_name name t.entries) [
  | none ↦ none
  | some p ↦ if is_some p.iterator_fp then some p else none
]

-- The insertion that the next two share, with their assertion that the name is new.
unfoldable pub insert_entry : Entry → Table → Option Table
insert_entry p t =
    if is_some (search_name p.name t.entries)
    then none
    else some (record t { entries = p ∷ t.entries })

unfoldable pub insert_function :
    (init_fp call_fp finalize_fp : Option ℕ) (name interface : String) (result_type : VarType)
    → Table
    → Option Table
unfolding insert_entry
insert_function init_fp call_fp finalize_fp name interface result_type = insert_entry (record {
  name = name;
  globalv = none;
  localv = none;
  init_fp = init_fp;
  call_fp = call_fp;
  finalize_fp = finalize_fp;
  iterator_fp = none;
  interface = interface;
  result_type = result_type;
})

unfoldable pub insert_iterator :
    (iterator_fp : Option ℕ) (name interface : String) (result_type : VarType)
    → Table
    → Option Table
unfolding insert_entry
insert_iterator iterator_fp name interface result_type = insert_entry (record {
  name = name;
  globalv = none;
  localv = none;
  init_fp = none;
  call_fp = none;
  finalize_fp = none;
  iterator_fp = iterator_fp;
  interface = interface;
  result_type = result_type;
})

abbrev pub drop_local : Entry → Entry
drop_local p = record p { localv = none }

-- `free_variable` of every local variable, in the order of the list.
unfoldable pub locals : List Entry → List ℕ
locals [] = []
locals (p ∷ ps) = elim p.localv [ some v ↦ v ∷ locals ps | none ↦ locals ps ]

unfoldable pub without_locals : List Entry → List Entry
without_locals [] = []
without_locals (p ∷ ps) = drop_local p ∷ without_locals ps

unfoldable pub clear_locals : Table → Table
clear_locals t = record t {
  entries = without_locals t.entries;
  freed = locals t.entries ++ t.freed;
}
