-- ===== src/Measurement/Windows/Valid.antt =====
-- What the flag of a measurement says.
use ska_mpi.Prelude.{
  ◌↔◌, ℕ, ◌+◌, ◌≡◌, refl, sym, ap, ◌∙◌, Bool, true, false, Option, none, some, List, [], ◌∷◌,
  if◌then◌else◌, if_elim, arith,
}
use ska_mpi.Prelude.Int.{ℤ, pos, pos_part, neg_part, ◌+ℤ◌, ◌-ℤ◌, ◌*ℤ◌, ltb_ℤ, ◌≤ℤ◌, int_laws}
use ska_mpi.Measurement.{put, invalid_started_late, invalid_took_too_long}
use ska_mpi.Measurement.Elements.{put-at}
use ska_mpi.Synchronize.{Bounds}
use ska_mpi.Synchronize.Offset.{HasOffset}
use ska_mpi.Measurement.Windows.{
  sync_real, Window, spin, wait_till, should_wait_till, read, set_flag, set_start,
  start_synchronization, stop_synchronization,
}

-- A wait that ends, by the first reading of the clock.
pub data Waited (time_stamp first : ℤ) : Option (Bool × ℤ × List ℤ) → Type 0 where
  waited_late :
      (rest : List ℤ)
      → ltb_ℤ time_stamp first ≡ true
      → Waited time_stamp first (some (false, first, rest))
  waited :
      (last : ℤ) (rest : List ℤ)
      → first ≤ℤ time_stamp
      → time_stamp ≤ℤ last
      → Waited time_stamp first (some (true, last, rest))

-- The clock reaches a time, at one of its readings.
pub data Reaches (time_stamp : ℤ) : List ℤ → Type 0 where
  at_once : {t : ℤ} {clock : List ℤ} → time_stamp ≤ℤ t → Reaches time_stamp (t ∷ clock)
  afterwards : {t : ℤ} {clock : List ℤ} → Reaches time_stamp clock → Reaches time_stamp (t ∷ clock)

spin-Reaches :
    (s : ℤ) (clock : List ℤ)
    → Reaches s clock
    → (last : ℤ) × ((rest : List ℤ) × ((spin s clock ≡ some (last, rest)) × (s ≤ℤ last)))
unfolding spin
spin-Reaches s [] r = elim r [ ]
spin-Reaches s (t ∷ clock) (at_once h) =
    let e : ltb_ℤ t s ≡ false = ground arith in (t, (clock, (rw e refl, h)))
spin-Reaches s (t ∷ clock) (afterwards r) =
    let (last, (rest, (e, h))) = spin-Reaches s clock r in
    if_elim
      (λ (o : Option (ℤ × List ℤ)).
        (last : ℤ) × ((rest : List ℤ) × ((o ≡ some (last, rest)) × (s ≤ℤ last))))
      (ltb_ℤ t s) (λ _. (last, (rest, (e, h)))) (λ n. (t, (clock, (refl, ground arith))))

wait_till-Waited :
    (s first : ℤ) (clock : List ℤ) → Reaches s clock → Waited s first (wait_till s (first ∷ clock))
unfolding wait_till
wait_till-Waited s first clock r =
    let (last, (rest, (e, h))) = spin-Reaches s clock r in
    if_elim (Waited s first) (ltb_ℤ s first) (λ t. waited_late clock t)
      (λ t. rw e (waited last rest (ground arith) h))

-- A measurement: the start, the measured call, and the stop at the clock `stop`.
abbrev pub stop_after : ℤ → Option (Window × List ℤ) → Option Window
stop_after stop none = none
stop_after stop (some (w, _)) = some (stop_synchronization stop w)

abbrev pub measured : Window → List ℤ → (stop : ℤ) → Option Window
measured w clock stop = stop_after stop (start_synchronization w clock)

-- When the measurement starts, by the clock of the process that sets the start of the batch.
abbrev pub start_of_window : Window → ℤ
start_of_window w = pos (w.counter + 1) *ℤ w.interval +ℤ w.start_batch

-- When it starts by the clock of the process itself.
abbrev pub due : Window → ℤ
due w = should_wait_till w.counter w.interval (pos 0 -ℤ w.tds) w.start_batch

pub record IsMeasured (w : Window) (b : Bounds) (offset first stop : ℤ) (w' : Window) : Type 0 where
  pub flag : (w'.invalid w.counter ≡ 0) ↔ ((first ≤ℤ due w) × (stop -ℤ w'.start_sync ≤ℤ w.interval))
  pub not_early :
      start_of_window w +ℤ start_of_window w
      ≤ℤ w'.start_sync +ℤ offset +ℤ (w'.start_sync +ℤ offset) +ℤ (b.td_max -ℤ b.td_min)

-- A start that is not early by the clock of the process is early by at most half the width of the bounds.
not_early_by_half :
    (root tds start offset lo hi : ℤ)
    → lo ≤ℤ offset
    → tds +ℤ tds ≡ lo +ℤ hi
    → root +ℤ (pos 0 -ℤ tds) ≤ℤ start
    → root +ℤ root ≤ℤ start +ℤ offset +ℤ (start +ℤ offset) +ℤ (hi -ℤ lo)
not_early_by_half root tds start offset lo hi h e k =
    let f = ap pos_part e in let g = ap neg_part e in omega int_laws

-- The window behind the stop, where windows are kept.
abbrev stopped : ℤ → Window → Window
stopped stop w = record w { stop_batch = stop; stop_sync = stop }

stop-eq :
    (w : Window) (stop : ℤ)
    → w.current_synchronization ≡ sync_real
    → stop_synchronization stop w ≡ (
        if ltb_ℤ w.interval (stop -ℤ w.start_sync)
        then record (stopped stop w) { invalid = put w.counter invalid_took_too_long w.invalid }
        else stopped stop w)
unfolding stop_synchronization
stop-eq w stop h =
    ap
      (λ k. elim k [
        | sync_real ↦
            if ltb_ℤ w.interval (stop -ℤ w.start_sync)
            then record (stopped stop w) { invalid = put w.counter invalid_took_too_long w.invalid }
            else stopped stop w
        | _ ↦ stopped stop w
      ])
      h

-- The window behind the start.
abbrev started : Window → Bool → ℤ → Window
started w timely at = record w {
  start_sync = at;
  invalid = put w.counter (if timely then 0 else invalid_started_late) w.invalid;
}

start-eq :
    (w : Window) (clock rest : List ℤ) (timely : Bool) (at : ℤ)
    → w.current_synchronization ≡ sync_real
    → wait_till (due w) clock ≡ some (timely, at, rest)
    → start_synchronization w clock ≡ some (started w timely at, rest)
unfolding start_synchronization
start-eq w clock rest timely at h e =
    ap
      (λ k. elim k [
        | sync_real ↦ set_flag w (wait_till (due w) clock)
        | _ ↦ set_start w (read clock)
      ])
      h
    ∙ ap (set_flag w) e

-- The flag of a measurement whose flag at its start was `v`.
flagged :
    (w : Window) (stop : ℤ) (v : ℕ) (P : Type 0)
    → w.invalid w.counter ≡ v
    → ((v ≡ 0) ↔ P)
    → let w' =
        if ltb_ℤ w.interval (stop -ℤ w.start_sync)
        then record (stopped stop w) { invalid = put w.counter invalid_took_too_long w.invalid }
        else stopped stop w in
      ((w'.invalid w.counter ≡ 0) ↔ (P × (stop -ℤ w'.start_sync ≤ℤ w.interval)))
      × (w'.start_sync ≡ w.start_sync)
flagged w stop v P e (f, g) =
    if_elim
      (λ (w' : Window).
        ((w'.invalid w.counter ≡ 0) ↔ (P × (stop -ℤ w'.start_sync ≤ℤ w.interval)))
        × (w'.start_sync ≡ w.start_sync))
      (ltb_ℤ w.interval (stop -ℤ w.start_sync))
      (λ t.
        let q = put-at w.counter invalid_took_too_long w.invalid in
        ((λ z. absurd (omega arith), λ (_, l). absurd (ground arith)), refl))
      (λ t. ((λ z. (f (sym e ∙ z), ground arith), λ (p, l). e ∙ g p), refl))

module _ (w : Window) (b : Bounds) (offset first stop : ℤ)
    (real : w.current_synchronization ≡ sync_real) (bounds : HasOffset offset b)
    (middle : w.tds +ℤ w.tds ≡ b.td_min +ℤ b.td_max) where
  finish :
      (timely : Bool) (started_at : ℤ)
      → due w ≤ℤ started_at
      → (((if timely then 0 else invalid_started_late) ≡ 0) ↔ (first ≤ℤ due w))
      → IsMeasured w b offset first stop (stop_synchronization stop (started w timely started_at))
  finish timely started_at h f =
      let v = started w timely started_at in
      let u = flagged v stop _ (first ≤ℤ due w) (put-at w.counter _ w.invalid) f in
      rw (stop-eq v stop real) (record {
        flag = u.0;
        not_early = rw u.1 (
            not_early_by_half (start_of_window w) w.tds started_at offset b.td_min b.td_max
              bounds.above middle h);
      })

  -- For bounds that hold the difference of the clocks, with the estimate in their middle, and a clock that
  -- reaches the start of the window: a measurement between start_synchronization and stop_synchronization
  -- ends with the flag 0 exactly if the process was ready in time and the call took no longer than the
  -- interval, and by the clock of the process that set the start of the batch it started no earlier
  -- than half the width of the bounds before its window.
  pub measured-IsMeasured :
      (clock : List ℤ)
      → Reaches (due w) clock
      → (w' : Window) × ((measured w (first ∷ clock) stop ≡ some w')
          × IsMeasured w b offset first stop w')
  measured-IsMeasured clock r =
      go (wait_till (due w) (first ∷ clock)) refl (wait_till-Waited (due w) first clock r)
    where
      go :
          (o : Option (Bool × ℤ × List ℤ))
          → wait_till (due w) (first ∷ clock) ≡ o
          → Waited (due w) first o
          → (w' : Window) × ((measured w (first ∷ clock) stop ≡ some w')
              × IsMeasured w b offset first stop w')
      go _ e (waited_late rest t) = (
        _,
        (
          ap (stop_after stop) (start-eq w (first ∷ clock) rest false first real e),
          finish false first (ground arith) (λ z. absurd (omega arith), λ l. absurd (ground arith)),
        ),
      )
      go _ e (waited last rest l h) = (
        _,
        (
          ap (stop_after stop) (start-eq w (first ∷ clock) rest true last real e),
          finish true last h (λ _. l, λ _. refl),
        ),
      )
