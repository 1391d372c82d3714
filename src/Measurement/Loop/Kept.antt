-- ===== src/Measurement/Loop/Kept.antt =====
-- The array of results, as the list of what was kept.
use ska_mpi.Prelude.{
  ℕ, zero, suc, ◌+◌, ◌-◌, ◌*◌, ◌≤◌, ◌<◌, ◌≡◌, refl, sym, ap, ap₂, ◌∙◌, Bool, true, false, ◌&&◌,
  List, [], ◌∷◌, ◌++◌, ◌==◌, ==_iff, ltb, leb, if◌then◌else◌, arith, ℕ_discrete,
}
use ska_mpi.Prelude.Doubles.{Doubles}
use ska_mpi.Measurement.{get_number_flawed_measurements, move_up}
use ska_mpi.Measurement.Compact.{window, valid, number_valid, move_up-MovesUp}
use ska_mpi.Measurement.Flawed.{get_number_flawed_measurements_lem}
use ska_mpi.Measurement.Statistics.{Column}
use ska_mpi.Measurement.Loop.{Settings, Report, Progress, gather, keep_valid, keep, run_batch}
use ska_mpi.Measurement.Loop.Rounds.{gather-below}

-- Whether `rest` processes from `p` on flag the measurement `i` as valid.
unfoldable pub all_valid : (n i p rest : ℕ) → (ℕ → ℕ) → Bool
all_valid n i p zero g = true
all_valid n i p (suc rest) g = g (p * n + i) == 0 && all_valid n i (suc p) rest g

module _ (A : Type 0) where
  -- The results from `i` on that all processes flag as valid.
  unfoldable pub valid_results : (n size : ℕ) → (ℕ → ℕ) → (ℕ → A) → (i rest : ℕ) → List A
  valid_results n size g results i zero = []
  valid_results n size g results i (suc rest) =
      let others = valid_results n size g results (suc i) rest in
      if all_valid n i 0 size g then results i ∷ others else others

  window-append :
      (f : ℕ → A) (i m n : ℕ) → window A f i (m + n) ≡ window A f i m ++ window A f (i + m) n
  unfolding window
  window-append f i zero n =
      let e : 0 + n ≡ n = omega arith in let e' : i + 0 ≡ i = omega arith in rw (e, e') refl
  window-append f i (suc m) n =
      let e : suc m + n ≡ suc (m + n) = omega arith in
      let e' : i + suc m ≡ suc i + m = omega arith in
      rw (e, e') (ap (λ l. f i ∷ l) (window-append f (suc i) m n))

  window-same :
      (f f' : ℕ → A) (i j n : ℕ)
      → ((k : ℕ) → k < n → f (i + k) ≡ f' (j + k))
      → window A f i n ≡ window A f' j n
  unfolding window
  window-same f f' i j zero h = refl
  window-same f f' i j (suc n) h =
      ap₂ (λ x l. x ∷ l)
        (let e : i + 0 ≡ i = omega arith in
          let e' : j + 0 ≡ j = omega arith in sym (ap f e) ∙ h 0 (omega arith) ∙ ap f' e')
        (window-same f f' (suc i) (suc j) n (λ k l.
          let e : suc i + k ≡ i + suc k = omega arith in
          let e' : suc j + k ≡ j + suc k = omega arith in
          ap f e ∙ h (suc k) (omega arith) ∙ sym (ap f' e')))

bool_eq : (a b : Bool) → (a ≡ true → b ≡ true) → (b ≡ true → a ≡ true) → a ≡ b
bool_eq true b f g = sym (f refl)
bool_eq false true f g = g refl
bool_eq false false f g = refl

and-split : (a b : Bool) → (a && b) ≡ true → (a ≡ true) × (b ≡ true)
and-split true b h = (refl, h)
and-split false b h = cc

all_valid-zero :
    (n i p rest : ℕ) (g : ℕ → ℕ)
    → all_valid n i p rest g ≡ true
    → (q : ℕ) → p ≤ q
    → q < p + rest
    → g (q * n + i) ≡ 0
unfolding all_valid
all_valid-zero n i p zero g h q l m = absurd (omega arith)
all_valid-zero n i p (suc rest) g h q l m =
    let (a, b) = and-split (g (p * n + i) == 0) _ h in
    elim (ℕ_discrete q p) [
      | yes e ↦ rw e ((==_iff _ _).0 a)
      | no e ↦ all_valid-zero n i (suc p) rest g b q (omega arith) (omega arith)
    ]

zero-all_valid :
    (n i p rest : ℕ) (g : ℕ → ℕ)
    → ((q : ℕ) → p ≤ q → q < p + rest → g (q * n + i) ≡ 0)
    → all_valid n i p rest g ≡ true
unfolding all_valid
zero-all_valid n i p zero g h = refl
zero-all_valid n i p (suc rest) g h =
    rw
      (
        h p (omega arith) (omega arith),
        zero-all_valid n i (suc p) rest g (λ q l m. h q (omega arith) (omega arith)),
      )
      refl

module _ (A : Type 0) where
  -- The results that are moved up are those that all processes flag as valid.
  valid-window :
      (n size start : ℕ) (g g' : ℕ → ℕ) (f results : ℕ → A) (i rest : ℕ)
      → ((k : ℕ)
          → i ≤ k
          → k < i + rest
          → (f (start + k) ≡ results k) × ((g' k == 0) ≡ all_valid n k 0 size g))
      → valid A (window ℕ g' i rest) f (start + i) ≡ valid_results A n size g results i rest
  unfolding valid window valid_results
  valid-window n size start g g' f results i zero h = refl
  valid-window n size start g g' f results i (suc rest) h =
      let (a, b) = h i (omega arith) (omega arith) in
      let e : suc (start + i) ≡ start + suc i = omega arith in
      let r =
        valid-window n size start g g' f results (suc i) rest
          (λ k l m. h k (omega arith) (omega arith)) in
      rw (a, b, e, r) refl

module _ (d : Doubles) (c : Settings d) where
  gather-at :
      (start n k : ℕ) (new all : ℕ → Column d)
      → k < n
      → gather d c start n new all (start + k) ≡ new k
  unfolding gather
  gather-at start n k new all h =
      let t : leb start (start + k) ≡ true = ground arith in
      let u : ltb (start + k) (start + n) ≡ true = ground arith in
      let v : start + k - start ≡ k = omega arith in rw (t, u, v) refl

  -- The list of the results.
  abbrev pub kept : Progress d → List (Column d)
  kept p = window (Column d) p.all_results 0 p.result_index

  -- What a batch of `n` adds to it.
  abbrev pub added : Report d → ℕ → List (Column d)
  added r n =
      if c.sync_real
      then valid_results (Column d) n c.size r.global_invalid r.results 0 n
      else window (Column d) r.results 0 n

  keep_valid-kept :
      (r : Report d) (start n : ℕ) (p : Progress d)
      → 0 < c.size
      → ((k : ℕ) → k < n → p.all_results (start + k) ≡ r.results k)
      → kept (keep_valid d c r start n p)
        ≡ window (Column d) p.all_results 0 start
          ++ valid_results (Column d) n c.size r.global_invalid r.results 0 n
  unfolding keep_valid
  keep_valid-kept r start n p h same =
      let (k, g) = get_number_flawed_measurements n c.size r.global_invalid in
      let m = move_up-MovesUp (Column d) (window ℕ g 0 n) start p.all_results in
      let moved = move_up (Column d) (window ℕ g 0 n) start start p.all_results in
      let e : 0 + start ≡ start = omega arith in
      let e' : start + 0 ≡ start = omega arith in
      ap (λ i. window (Column d) moved.all_results 0 i) m.counted
      ∙ window-append (Column d) moved.all_results 0 start (number_valid (window ℕ g 0 n))
      ∙ ap₂ (λ (l r : List (Column d)). l ++ r)
          (window-same (Column d) moved.all_results p.all_results 0 0 start
            (λ j l. m.below (0 + j) (omega arith)))
          (ap (λ i. window (Column d) moved.all_results i (number_valid (window ℕ g 0 n))) e
            ∙ m.kept
            ∙ ap (valid (Column d) (window ℕ g 0 n) p.all_results) (sym e')
            ∙ valid-window (Column d) n c.size start r.global_invalid g p.all_results r.results 0 n
                (λ j _ l.
                  let flagged =
                    get_number_flawed_measurements_lem n c.size h (Column d) r.global_invalid start
                      p.all_results j (omega arith) in
                  (
                    same j (omega arith),
                    bool_eq (g j == 0) (all_valid n j 0 c.size r.global_invalid)
                        (λ t.
                          zero-all_valid n j 0 c.size r.global_invalid
                            (λ q _ l'. flagged.0.0 ((==_iff _ _).0 t) q (omega arith)))
                        (λ t. (==_iff _ _).1 (
                          flagged.0.1 (λ q l'.
                            all_valid-zero n j 0 c.size r.global_invalid t q (omega arith)
                              (omega arith)))),
                  )))

  gathered-kept :
      (start n : ℕ) (new all : ℕ → Column d)
      → window (Column d) (gather d c start n new all) 0 start ≡ window (Column d) all 0 start
  gathered-kept start n new all =
      window-same (Column d) _ all 0 0 start
        (λ j l. gather-below d c start n (0 + j) new all (omega arith))

  kept-if :
      (b : Bool) (p q : Progress d) (xs ys zs : List (Column d))
      → kept p ≡ xs ++ ys
      → kept q ≡ xs ++ zs
      → kept (if b then p else q) ≡ xs ++ (if b then ys else zs)
  kept-if true p q xs ys zs h k = h
  kept-if false p q xs ys zs h k = k

  -- For at least one process: the array holds the results that were kept, one behind the other. A batch
  -- appends its results to them, in their order: with windows of time those that all processes flag as
  -- valid, else all.
  pub run_batch-kept :
      (r : Report d) (p : Progress d)
      → 0 < c.size
      → kept (run_batch d c r p) ≡ kept p ++ added r p.batch.max_counter
  unfolding run_batch keep
  run_batch-kept r p h =
      let start = p.result_index in
      let n = p.batch.max_counter in
      let all = gather d c start n r.results p.all_results in
      let e : 0 + start ≡ start = omega arith in
      kept-if c.sync_real _ _ (kept p) _ _
        (keep_valid-kept r start n (record p { all_results = all }) h
            (λ k l. gather-at start n k r.results p.all_results l)
          ∙ ap (λ l. l ++ valid_results (Column d) n c.size r.global_invalid r.results 0 n)
              (gathered-kept start n r.results p.all_results))
        (window-append (Column d) all 0 start n
          ∙ ap₂ (λ (l r : List (Column d)). l ++ r) (gathered-kept start n r.results p.all_results)
              (ap (λ i. window (Column d) all i n) e
                ∙ window-same (Column d) all r.results start 0 n (λ k l.
                  gather-at start n k r.results p.all_results l
                  ∙ ap r.results (let z : k ≡ 0 + k = omega arith in z))))
