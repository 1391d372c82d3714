-- ===== src/Measurement/Longest.antt =====
-- The number that `get_longest_run` of src/measurement.c gives is that of a stretch of flags.
use ska_mpi.Prelude.{
  ℕ, suc, ◌+◌, ◌≡◌, refl, sym, subst, ap, ◌∙◌, ◌⊎◌, inl, inr, true, false, List, [], ◌∷◌, ◌++◌,
  ◌==◌, if◌then◌else◌, arith, if_elim,
}
use ska_mpi.Arith.{imax2}
use ska_mpi.Measurement.{run_of, longest_from, invalid_started_late}

-- None of the flags is 0.
abbrev pub NoneValid : List ℕ → Type 0
NoneValid [] = Unit
NoneValid (flag ∷ flags) = ((flag == 0) ≡ false) × NoneValid flags

-- How many measurements of a stretch started late.
unfoldable pub number_late : List ℕ → ℕ
number_late [] = 0
number_late (flag ∷ flags) =
    let rest = number_late flags in if flag == invalid_started_late then suc rest else rest

-- A stretch of some process's flags, without a valid measurement, with `n` late ones.
pub record HasStretch (all : List (List ℕ)) (n : ℕ) : Type 0 where
  pub processes_before : List (List ℕ)
  pub processes_behind : List (List ℕ)
  pub before : List ℕ
  pub stretch : List ℕ
  pub rest : List ℕ
  pub whole : all ≡ processes_before ++ (before ++ stretch ++ rest) ∷ processes_behind
  pub none_valid : NoneValid stretch
  pub late : number_late stretch ≡ n

-- Where the number `n` comes from when the flags are counted from `l` and `r` on.
data Attained (flags : List ℕ) (l r n : ℕ) : Type 0 where
  old : n ≡ l → Attained flags l r n
  running :
      (stretch rest : List ℕ)
      → flags ≡ stretch ++ rest
      → NoneValid stretch
      → n ≡ r + number_late stretch
      → Attained flags l r n
  inside :
      (before stretch rest : List ℕ)
      → flags ≡ before ++ stretch ++ rest
      → NoneValid stretch
      → n ≡ number_late stretch
      → Attained flags l r n

imax2-Attained : (flags : List ℕ) (l r n : ℕ) → n ≡ imax2 l r → Attained flags l r n
unfolding imax2 number_late
imax2-Attained flags l r n e = elim (imax2-either l r) [
  | inl f ↦ old (e ∙ f)
  | inr f ↦ running [] flags refl tt (omega (arith, e ∙ f))
]
  where
    imax2-either : (l r : ℕ) → (imax2 l r ≡ l) ⊎ (imax2 l r ≡ r)
    imax2-either l r = ground arith

valid-Attained :
    (flag : ℕ) (flags : List ℕ) (l r n : ℕ)
    → Attained flags (imax2 l r) 0 n
    → Attained (flag ∷ flags) l r n
valid-Attained flag flags l r n (old e) = imax2-Attained (flag ∷ flags) l r n e
valid-Attained flag flags l r n (running s t e v k) =
    inside (flag ∷ []) s t (ap (λ x. flag ∷ x) e) v (omega (arith, k))
valid-Attained flag flags l r n (inside b s t e v k) =
    inside (flag ∷ b) s t (ap (λ x. flag ∷ x) e) v k

late-Attained :
    (flag : ℕ) (flags : List ℕ) (l r n : ℕ)
    → (flag == 0) ≡ false
    → (flag == invalid_started_late) ≡ true
    → Attained flags l (suc r) n
    → Attained (flag ∷ flags) l r n
unfolding number_late
late-Attained flag flags l r n h i (old e) = old e
late-Attained flag flags l r n h i (running s t e v k) =
    running (flag ∷ s) t (ap (λ x. flag ∷ x) e) (h, v) (rw i (omega (arith, k)))
late-Attained flag flags l r n h i (inside b s t e v k) =
    inside (flag ∷ b) s t (ap (λ x. flag ∷ x) e) v k

other-Attained :
    (flag : ℕ) (flags : List ℕ) (l r n : ℕ)
    → (flag == 0) ≡ false
    → (flag == invalid_started_late) ≡ false
    → Attained flags l r n
    → Attained (flag ∷ flags) l r n
unfolding number_late
other-Attained flag flags l r n h i (old e) = old e
other-Attained flag flags l r n h i (running s t e v k) =
    running (flag ∷ s) t (ap (λ x. flag ∷ x) e) (h, v) (rw i k)
other-Attained flag flags l r n h i (inside b s t e v k) =
    inside (flag ∷ b) s t (ap (λ x. flag ∷ x) e) v k

run_of-Attained : (flags : List ℕ) (l r : ℕ) → Attained flags l r (run_of flags l r)
unfolding run_of
run_of-Attained [] l r = imax2-Attained [] l r (imax2 l r) refl
run_of-Attained (flag ∷ flags) l r =
    let P = λ (n : ℕ). Attained (flag ∷ flags) l r n in
    if_elim P (flag == 0)
      (λ _. valid-Attained flag flags l r _ (run_of-Attained flags (imax2 l r) 0))
      (λ h.
        if_elim P (flag == invalid_started_late)
          (λ i. late-Attained flag flags l r _ h i (run_of-Attained flags l (suc r)))
          (λ i. other-Attained flag flags l r _ h i (run_of-Attained flags l r)))

first-HasStretch :
    (p : List ℕ) (ps : List (List ℕ)) (l n : ℕ) → Attained p l 0 n → (n ≡ l) ⊎ HasStretch (p ∷ ps) n
first-HasStretch p ps l n (old e) = inl e
first-HasStretch p ps l n (running s t e v k) = inr (record {
  processes_before = [];
  processes_behind = ps;
  before = [];
  stretch = s;
  rest = t;
  whole = ap (λ x. x ∷ ps) e;
  none_valid = v;
  late = omega (arith, k);
})
first-HasStretch p ps l n (inside b s t e v k) = inr (record {
  processes_before = [];
  processes_behind = ps;
  before = b;
  stretch = s;
  rest = t;
  whole = ap (λ x. x ∷ ps) e;
  none_valid = v;
  late = sym k;
})

later-HasStretch :
    (p : List ℕ) (ps : List (List ℕ)) (n : ℕ) → HasStretch ps n → HasStretch (p ∷ ps) n
later-HasStretch p ps n h = record {
  processes_before = p ∷ h.processes_before;
  processes_behind = h.processes_behind;
  before = h.before;
  stretch = h.stretch;
  rest = h.rest;
  whole = ap (λ x. p ∷ x) h.whole;
  none_valid = h.none_valid;
  late = h.late;
}

-- The longest run of all processes was there from the start, or it is a stretch of one of them.
pub longest_from-HasStretch :
    (ps : List (List ℕ)) (l : ℕ) → (longest_from ps l ≡ l) ⊎ HasStretch ps (longest_from ps l)
unfolding longest_from
longest_from-HasStretch [] l = inl refl
longest_from-HasStretch (p ∷ ps) l = elim (longest_from-HasStretch ps (run_of p l 0)) [
  | inr h ↦ inr (later-HasStretch p ps _ h)
  | inl e ↦ go _ e
]
  where
    go : (n : ℕ) → n ≡ run_of p l 0 → (n ≡ l) ⊎ HasStretch (p ∷ ps) n
    go n e = first-HasStretch p ps l n (subst (Attained p l 0) (sym e) (run_of-Attained p l 0))

-- The empty stretch has no late measurement.
pub no_late : (ps qs : List (List ℕ)) (p : List ℕ) → HasStretch (ps ++ p ∷ qs) 0
unfolding number_late
no_late ps qs p = record {
  processes_before = ps;
  processes_behind = qs;
  before = [];
  stretch = [];
  rest = p;
  whole = refl;
  none_valid = tt;
  late = refl;
}
