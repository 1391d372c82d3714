-- ===== src/Exec/References/Tests.antt =====
-- Runs of assignments.
use ska_mpi.Prelude.{◌≤◌, ◌≡◌, refl, false, [], ◌∷◌, arith}
use ska_mpi.SymbolTable.{comm}
use ska_mpi.Exec.References.{
  Store, needs_reference_counter, put, increase_reference, decrease_reference, copy_variable,
  store_result,
}
use ska_mpi.Exec.References.Holders.{counter, holders, is_freed}
use ska_mpi.Exec.References.Runs.{copies, calls, gives_up, Run, ready, step, blank, Run-live}

-- The variable 0 gets a communicator, 1 a copy of it, and 0 is given up.
abbrev first : Store
first = store_result 0 comm 7 blank

abbrev second : Store
second = copy_variable 1 0 first

abbrev third : Store
third = decrease_reference 0 second

three_steps : Run 2 blank third
unfolding store_result copy_variable increase_reference decrease_reference needs_reference_counter
    put counter is_freed
three_steps =
    step
      (step (step ready (calls 0 comm 7 (omega arith) refl (λ y a h k e. cc)))
        (copies 1 0 (omega arith) (omega arith) (λ e. omega arith) (λ t. (0, refl))))
      (gives_up 0 (omega arith))

third_freed : third.freed ≡ []
unfolding store_result copy_variable increase_reference decrease_reference needs_reference_counter
    put
third_freed = refl

fourth_freed : (decrease_reference 1 third).freed ≡ 7 ∷ []
unfolding store_result copy_variable increase_reference decrease_reference needs_reference_counter
    put
fourth_freed = refl

-- Witnesses.
Run-live_example :
    (is_freed (third.vars 1).object third.freed ≡ false) × (holders 2 0 third.vars ≤ third.counts 0)
unfolding store_result copy_variable increase_reference decrease_reference needs_reference_counter
    put counter
Run-live_example = Run-live 2 1 0 third three_steps (omega arith) refl
