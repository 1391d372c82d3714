-- ===== src/Measurement/Execute/Safe.antt =====
-- Measured calls have their buffers, and a measurement without room for them has no call.
use mathlib.Core.Option
use ska_mpi.Prelude.{
  ◌≤◌, ℕ, ◌<◌, ◌≡◌, ◌⊎◌, Bool, true, false, List, Option, none, some, if◌then◌else◌,
}
use ska_mpi.Buffer.Placement.{IsReady}
use ska_mpi.Measurement.Execute.{Event, Process, Measured, Setting}
use ska_mpi.Measurement.Execute.Calls.{AllPlaced, calls_in}

module _ (c : Setting) (t : Measured) where
  -- The buffer is ready, and behind the events `es` there are calls exactly if the measurement was not
  -- refused, each with its buffers.
  pub record IsConcluded (es : List Event) (refused : Bool) (p : Process) : Type 0 where
    pub ready : IsReady p.buffer
    pub placed : AllPlaced es → AllPlaced p.events
    pub counted :
        if refused then calls_in p.events ≡ calls_in es else calls_in es < calls_in p.events

  -- A result, or an abort, by an assertion that does not hold, where a measurement may be made.
  abbrev pub Returns : {A : Type 0} → (may_measure : Bool) → (A → Type 0) → Option A → Type 0
  Returns may_measure P none = (may_measure ≡ true) × (c.max_repetitions < c.min_repetitions)
  Returns may_measure P (some a) = P a

  -- The repetitions are in order where there is a call.
  abbrev InOrder : Bool → List Event → Process → Type 0
  InOrder refused es p =
      IsConcluded es refused p × (refused ≡ false → c.min_repetitions ≤ c.max_repetitions)

  -- What the function returns, with the state it leaves.
  pub record IsExecuted (in_comm : Bool) (es : List Event) (code : ℕ) (p : Process) : Type 0 where
    pub ready : IsReady p.buffer
    pub placed : AllPlaced p.events
    pub result :
        (code ≡ 2) × (calls_in p.events ≡ calls_in es)
        ⊎ (code ≡ 0)
          × (in_comm ≡ true
              → (c.min_repetitions ≤ c.max_repetitions) × (calls_in es < calls_in p.events))
