-- ===== src/Accounting/Totals.antt =====
-- The times are the sums of what was spent.
use ska_mpi.Prelude.{
  ◌≡◌, refl, sym, ◌∙◌, subst, Bool, true, false, Option, none, some, List, [], ◌∷◌, if◌then◌else◌,
  arith,
}
use ska_mpi.Prelude.Int.{ℤ, pos, negsuc, ◌+ℤ◌, ◌-ℤ◌, ◌≤ℤ◌}
use ska_mpi.Accounting.{
  Kind, sync, comm, late, over, unec, wait, total, same_kind, Times, start, put_kind, raise,
  init_user_accounting, add_to_time, acc_start, acc_stop, Call, inits, starts, stops, adds, run,
}

-- What happened: a reset of the user's times, or time that was spent on some work.
pub data Entry : Type 0 where
  reset : Entry
  spent : Kind → ℤ → Entry

-- The entries of the calls, from the clocks of the last starts.
unfoldable pub log : (Kind → ℤ) → List Call → List Entry
log started [] = []
log started (inits ∷ cs) = reset ∷ log started cs
log started (starts k now ∷ cs) = log (put_kind k now started) cs
log started (stops k now ∷ cs) = spent k (now -ℤ started k) ∷ log started cs
log started (adds k t ∷ cs) = spent k t ∷ log started cs

-- The time spent on one kind of work.
unfoldable pub spent_on : Kind → List Entry → ℤ
spent_on k [] = pos 0
spent_on k (reset ∷ es) = spent_on k es
spent_on k (spent j t ∷ es) = if same_kind k j then t +ℤ spent_on k es else spent_on k es

-- What stands behind the last reset.
unfoldable pub behind_reset : List Entry → Option (List Entry)
behind_reset [] = none
behind_reset (reset ∷ es) = elim (behind_reset es) [ none ↦ some es | some later ↦ some later ]
behind_reset (spent _ _ ∷ es) = behind_reset es

-- The time since the last reset, and -1 when there was none.
abbrev pub spent_since : Kind → Option (List Entry) → ℤ
spent_since k none = negsuc 0
spent_since k (some es) = spent_on k es

-- No clock goes backwards, and no negative time is added.
abbrev pub IsForward : List Entry → Type 0
IsForward [] = Unit
IsForward (reset ∷ es) = IsForward es
IsForward (spent k t ∷ es) = (pos 0 ≤ℤ t) × IsForward es

same_kind_eq : (k j : Kind) → same_kind k j ≡ true → k ≡ j
same_kind_eq sync sync h = refl
same_kind_eq comm comm h = refl
same_kind_eq late late h = refl
same_kind_eq over over h = refl
same_kind_eq unec unec h = refl
same_kind_eq wait wait h = refl
same_kind_eq total total h = refl
same_kind_eq _ _ h = cc

raise-raise : (t u time : ℤ) → pos 0 ≤ℤ t → raise u (raise t time) ≡ raise (t +ℤ u) time
unfolding raise ◌+ℤ◌
raise-raise t u time h = ground arith

raise_none : (time : ℤ) → raise (pos 0) time ≡ time
unfolding raise ◌+ℤ◌
raise_none time = ground arith

-- One time, of the kind `k`, when time is spent on `j`.
spend :
    (k j : Kind) (t u : ℤ) (f : Kind → ℤ)
    → pos 0 ≤ℤ t
    → raise u (put_kind j (raise t (f j)) f k) ≡ raise (if same_kind k j then t +ℤ u else u) (f k)
unfolding put_kind
spend k j t u f h = go (same_kind k j) refl
  where
    go :
        (b : Bool)
        → same_kind k j ≡ b
        → raise u (if b then raise t (f j) else f k) ≡ raise (if b then t +ℤ u else u) (f k)
    go true e =
        subst (λ i. raise u (raise t (f i)) ≡ raise (t +ℤ u) (f k)) (same_kind_eq k j e)
          (raise-raise t u (f k) h)
    go false e = refl

accounted : (t : ℤ) → raise t (pos 0) ≡ t
unfolding raise ◌+ℤ◌
accounted t = ground arith

-- A user's time behind some entries: from the time before them and what was spent, or from the last reset.
abbrev user_time : Kind → (spent time : ℤ) → Option (List Entry) → ℤ
user_time k t u none = raise t u
user_time k t u (some later) = spent_on k later

user_time-reset :
    (k : Kind) (t u : ℤ) (es : List Entry) (later : Option (List Entry))
    → user_time k (spent_on k es) (pos 0) later
      ≡ user_time k t u (elim later [ none ↦ some es | some later ↦ some later ])
user_time-reset k t u es none = accounted (spent_on k es)
user_time-reset k t u es (some later) = refl

user_time-spent :
    (k j : Kind) (t u : ℤ) (f : Kind → ℤ) (later : Option (List Entry))
    → pos 0 ≤ℤ t
    → user_time k u (put_kind j (raise t (f j)) f k) later
      ≡ user_time k (if same_kind k j then t +ℤ u else u) (f k) later
user_time-spent k j t u f none h = spend k j t u f h
user_time-spent k j t u f (some later) h = refl

user_time-none :
    (k : Kind) (t : ℤ) (later : Option (List Entry))
    → user_time k t (negsuc 0) later ≡ spent_since k later
unfolding raise
user_time-none k t none = ground arith
user_time-none k t (some later) = refl

module _ (k : Kind) where
  run-acc :
      (cs : List Call) (s : Times)
      → IsForward (log s.started cs)
      → (run cs s).acc k ≡ raise (spent_on k (log s.started cs)) (s.acc k)
  unfolding run log spent_on init_user_accounting add_to_time acc_start acc_stop
  run-acc [] s h = sym (raise_none _)
  run-acc (inits ∷ cs) s h = run-acc cs _ h
  run-acc (starts j now ∷ cs) s h = run-acc cs _ h
  run-acc (stops j now ∷ cs) s h = run-acc cs _ h.1 ∙ spend k j _ _ s.acc h.0
  run-acc (adds j t ∷ cs) s h = run-acc cs _ h.1 ∙ spend k j t _ s.acc h.0

  run-user_acc :
      (cs : List Call) (s : Times)
      → IsForward (log s.started cs)
      → (run cs s).user_acc k
        ≡ user_time k
            (spent_on k (log s.started cs))
            (s.user_acc k)
            (behind_reset (log s.started cs))
  unfolding run log spent_on behind_reset init_user_accounting add_to_time acc_start acc_stop
  run-user_acc [] s h = sym (raise_none (s.user_acc k))
  run-user_acc (inits ∷ cs) s h =
      run-user_acc cs _ h
      ∙ user_time-reset k _ (s.user_acc k) (log s.started cs) (behind_reset (log s.started cs))
  run-user_acc (starts j now ∷ cs) s h = run-user_acc cs _ h
  run-user_acc (stops j now ∷ cs) s h =
      run-user_acc cs _ h.1
      ∙ user_time-spent k j _ (spent_on k (log s.started cs)) s.user_acc
          (behind_reset (log s.started cs)) h.0
  run-user_acc (adds j t ∷ cs) s h =
      run-user_acc cs _ h.1
      ∙ user_time-spent k j t (spent_on k (log s.started cs)) s.user_acc
          (behind_reset (log s.started cs)) h.0

-- For clocks that do not go backwards, and no negative times: each time is the sum of what was spent on
-- its kind of work since the start of the program, and each of the user's times the sum of what was
-- spent since the last reset, or -1 when there was none.
pub run-totals :
    (k : Kind) (cs : List Call)
    → IsForward (log start.started cs)
    → ((run cs start).acc k ≡ spent_on k (log start.started cs))
      × ((run cs start).user_acc k ≡ spent_since k (behind_reset (log start.started cs)))
run-totals k cs h = (
  run-acc k cs start h ∙ accounted (spent_on k (log start.started cs)),
  run-user_acc k cs start h ∙ user_time-none k _ (behind_reset (log start.started cs)),
)
