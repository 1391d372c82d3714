-- ===== src/SymbolTable/Tests.antt =====
-- A small symbol table, and the theorems at it.
use ska_mpi.Prelude.{◌≡◌, refl, none, some, [], ◌∷◌}
use ska_mpi.SymbolTable.{
  Entry, Table, search_name, search_rvalue, insert_function, clear_locals, void,
}
use ska_mpi.SymbolTable.Scopes.{assign_locals, search_rvalue-clear_locals}

-- an entry as `malloc` left it, with the address of a function in it
abbrev left : Entry
left = record {
  name = "";
  globalv = none;
  localv = none;
  init_fp = none;
  call_fp = some 7;
  finalize_fp = none;
  iterator_fp = none;
  interface = "";
  result_type = void;
}

abbrev table : Table
table = record {
  entries = record left { name = "i"; globalv = some 1; call_fp = none } ∷ [];
  next_variable = 5;
  freed = [];
}

insert_function_runs : insert_function none (some 3) none "i" "f" void table ≡ none
unfolding insert_function search_name
insert_function_runs = refl

search_rvalue-clear_locals_example :
    search_rvalue "i" (clear_locals (assign_locals ("n" ∷ "i" ∷ []) left table)) ≡ some 1
unfolding search_name
search_rvalue-clear_locals_example = search_rvalue-clear_locals ("n" ∷ "i" ∷ []) left "i" table
