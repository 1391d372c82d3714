-- ===== src/Exec/References/Runs.antt =====
-- Sequences of assignments.
use ska_mpi.Prelude.{ℕ, zero, suc, ◌≤◌, ◌<◌, ◌≡◌, ◌≢◌, refl, true, false, some, [], arith}
use ska_mpi.SymbolTable.{VarType, integer}
use ska_mpi.Exec.References.{
  Store, needs_reference_counter, decrease_reference, copy_variable, store_result,
}
use ska_mpi.Exec.References.Holders.{counter, holds, holders, is_freed}
use ska_mpi.Exec.References.Counted.{IsCounted, decrease_reference-IsCounted}
use ska_mpi.Exec.References.Copies.{given, copy_variable-IsCounted, store_result-IsCounted}

-- One step: a copy from another variable, of an object that is counted or of a value that needs no
-- counter; the result of a function, a new object; and a variable that is given up.
pub data Assigns (n : ℕ) : Store → Store → Type 0 where
  copies :
      (x y : ℕ) {s : Store}
      → x < n
      → y < n
      → y ≢ x
      → (needs_reference_counter (s.vars y).type ≡ true
          → (a : ℕ) × ((s.vars y).ref_counter ≡ some a))
      → Assigns n s (copy_variable x y s)
  calls :
      (x : ℕ) (type : VarType) (o : ℕ) {s : Store}
      → x < n
      → is_freed o s.freed ≡ false
      → ((y a : ℕ) → y < n → counter (s.vars y) ≡ some a → (s.vars y).object ≢ o)
      → Assigns n s (store_result x type o s)
  gives_up : (x : ℕ) {s : Store} → x < n → Assigns n s (decrease_reference x s)

pub data Run (n : ℕ) : Store → Store → Type 0 where
  ready : {s : Store} → Run n s s
  step : {s t u : Store} → Run n s t → Assigns n t u → Run n s u

-- Variables that hold no object.
abbrev pub blank : Store
blank = record { vars = λ x. given integer 0; counts = λ a. 0; fresh = 0; freed = [] }

Assigns-IsCounted : (n : ℕ) {s t : Store} → Assigns n s t → IsCounted n s → IsCounted n t
Assigns-IsCounted n (copies x y {s} h k n' tracked) c =
    copy_variable-IsCounted n x y s h k n' c tracked
Assigns-IsCounted n (calls x type o {s} h f g) c = store_result-IsCounted n x type o s h c f g
Assigns-IsCounted n (gives_up x {s} h) c = decrease_reference-IsCounted n x s h c

holders-blank : (n a : ℕ) → holders n a blank.vars ≡ 0
unfolding holders counter needs_reference_counter holds
holders-blank zero a = refl
holders-blank (suc n) a = rw (holders-blank n a) refl

blank-IsCounted : (n : ℕ) → IsCounted n blank
unfolding counter needs_reference_counter
blank-IsCounted n = record {
  enough = λ a. let p = holders-blank n a in omega arith;
  unused = λ a t. holders-blank n a;
  live = λ y a h k. cc;
  one = λ y z a b h h' k l o. cc;
}

Run-IsCounted : (n : ℕ) {t : Store} → Run n blank t → IsCounted n t
Run-IsCounted n ready = blank-IsCounted n
Run-IsCounted n (step r a) = Assigns-IsCounted n a (Run-IsCounted n r)

-- After any sequence of assignments to the first `n` variables, each a copy from another variable that is
-- counted or needs no counter, a new object from a function, or a giving up: what a variable with a
-- counter refers to has not been freed, and its counter is at least the number of variables that share it.
pub Run-live :
    (n y a : ℕ) (t : Store)
    → Run n blank t
    → y < n
    → counter (t.vars y) ≡ some a
    → (is_freed (t.vars y).object t.freed ≡ false) × (holders n a t.vars ≤ t.counts a)
Run-live n y a t r h k = let c = Run-IsCounted n r in (c.live y a h k, c.enough a)
