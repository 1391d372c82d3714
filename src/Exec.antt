-- ===== src/Exec.antt =====
-- src/exec.c: the interpreter of scripts. A variable is a number, and its value stands in an
-- environment; the sharing of MPI objects by reference counters is in References.
pub mod Value
pub mod Term
pub mod Typing
pub mod Statement
pub mod Run
pub mod References
mod Tests
use ska_mpi.Prelude.{Bool, true, false}

-- `enum op_type` of src/exec.h
pub data Op : Type 0 where
  op_add op_sub op_mult op_div op_mod op_lt op_le op_gt op_ge op_eq op_neq op_and op_band op_or
        op_bor op_not op_bnot :
      Op

-- Why a run has no value: arithmetic that C leaves undefined, an abort of the program, an assertion that
-- fails, an error message after which the value is one that was never set, and no fuel.
pub data Fault : Type 0 where
  overflow division_by_zero cannot_cast not_a_multiple assertion_failed unspecified stack_full
        out_of_fuel :
      Fault

pub data Result {ℓ} (A : Type ℓ) : Type ℓ where
  ok : A → Result A
  err : Fault → Result A

infixl 5 ◌>>=◌
abbrev pub ◌>>=◌ {ℓ κ} : {A : Type ℓ} {B : Type κ} → Result A → (A → Result B) → Result B
ok a >>= k = k a
err e >>= k = err e

-- An assertion, with the fault when it does not hold.
abbrev pub check {ℓ} : {A : Type ℓ} → Bool → Fault → Result A → Result A
check b e r = elim b [ true ↦ r | false ↦ err e ]
