-- ===== src/Coll/Blocks.antt =====
-- The blocks divide the elements.
use native.Mathlib.Nat.{div-lt_iff_lt-mul, le-div_iff_mul-le, div-mul-le_self, div-add-mod', mod-lt}
use ska_mpi.Prelude.{
  ℕ, zero, suc, ◌+◌, ◌-◌, ◌*◌, ◌/◌, ◌%◌, ◌≤◌, ◌<◌, ◌≡◌, refl, sym, subst, ap, ◌∙◌, ℕ_discrete,
  arith,
}
use ska_mpi.Measurement.{put}
use ska_mpi.Measurement.Elements.{put-at, put-other}
use ska_mpi.Align.Least.{mul_le}
use ska_mpi.Coll.{add_rest, initialize_counts, add_displs, initialize_displs}

-- The sum of the first `n` elements.
abbrev pub sum : (ℕ → ℕ) → ℕ → ℕ
sum f zero = 0
sum f (suc n) = sum f n + f n

same_before : (f : ℕ → ℕ) (j v n : ℕ) → n ≤ j → sum (put j v f) n ≡ sum f n
same_before f j v zero h = refl
same_before f j v (suc n) h =
    let a = same_before f j v n (omega arith) in
    let b = put-other j n v f (λ e. omega arith) in omega arith

sum-put : (f : ℕ → ℕ) (j n : ℕ) → j < n → sum (put j (suc (f j)) f) n ≡ suc (sum f n)
sum-put f j zero h = absurd (omega arith)
sum-put f j (suc n) h = elim (ℕ_discrete n j) [
  | yes e ↦
      let a = same_before f j (suc (f j)) n (omega arith) in
      let b : put j (suc (f j)) f n ≡ suc (f n) = rw e (put-at j (suc (f j)) f) in omega arith
  | no e ↦
      let a = sum-put f j n (omega arith) in let b = put-other j n (suc (f j)) f e in omega arith
]

sum_const : (b n : ℕ) → sum (λ i. b) n ≡ b * n
sum_const b zero = omega arith
sum_const b (suc n) = let r = sum_const b n in grind arith

sum_le : (f : ℕ → ℕ) (m n : ℕ) → m ≤ n → sum f m ≤ sum f n
sum_le f m zero h = let e : m ≡ 0 = omega arith in rw e (omega arith)
sum_le f m (suc n) h = elim (ℕ_discrete m (suc n)) [
  | yes e ↦ rw e (omega arith)
  | no e ↦ let r = sum_le f m n (omega arith) in omega arith
]

-- Between `base` and one more, with `k` elements above it, all of them before `t`.
record Spread (size base k t : ℕ) (f : ℕ → ℕ) : Type 0 where
  total : sum f size ≡ base * size + k
  low : (j : ℕ) → base ≤ f j
  high : (j : ℕ) → f j ≤ base + 1
  flat : (j : ℕ) → t ≤ j → f j ≡ base

index-lt : (size r i : ℕ) → i < r → 0 < size → i * size / r < size
index-lt size r i h k =
    (div-lt_iff_lt-mul (omega arith)).1 (let m = mul_le size (i + 1) r (omega arith) in grind arith)

index-next : (size r i : ℕ) → 0 < r → r ≤ size → i * size / r + 1 ≤ suc i * size / r
index-next size r i h k =
    (le-div_iff_mul-le h).1 (let m = div-mul-le_self (i * size) r in grind arith)

add_rest-Spread :
    (size base r i rest : ℕ) (f : ℕ → ℕ)
    → i + rest ≡ r
    → r < size
    → Spread size base i (i * size / r) f
    → Spread size base r (r * size / r) (add_rest size r i rest f)
unfolding add_rest
add_rest-Spread size base r i zero f e h s =
    let e' : i ≡ r = omega arith in subst (λ k. Spread size base k (k * size / r) f) e' s
add_rest-Spread size base r i (suc rest) f e h s =
    let j = i * size / r in
    let l = index-lt size r i (omega arith) (omega arith) in
    let n = index-next size r i (omega arith) (omega arith) in
    let v = s.flat j (omega arith) in
    let a = put-at j (suc (f j)) f in
    let o = λ (k : ℕ). put-other j k (suc (f j)) f in
    add_rest-Spread size base r (suc i) rest (put j (suc (f j)) f) (omega arith) h (record {
      total = let t = s.total in let u = sum-put f j size l in omega arith;
      low = λ k. elim (ℕ_discrete k j) [
        | yes e ↦ rw (e, a) (omega arith)
        | no e ↦ let b = s.low k in let c = o k e in omega arith
      ];
      high = λ k. elim (ℕ_discrete k j) [
        | yes e ↦ rw (e, a) (omega arith)
        | no e ↦ let b = s.high k in let c = o k e in omega arith
      ];
      flat = λ k g. let b = s.flat k (omega arith) in let c = o k (λ e. omega arith) in omega arith;
    })

sum_before : (f : ℕ → ℕ) (i : ℕ) → 0 < i → sum f i ≡ sum f (i - 1) + f (i - 1)
sum_before f zero h = absurd (omega arith)
sum_before f (suc i) h = let e : suc i - 1 ≡ i = omega arith in rw e refl

add_displs-sum :
    (counts : ℕ → ℕ) (i rest : ℕ) (displs : ℕ → ℕ)
    → 0 < i
    → ((j : ℕ) → j < i → displs j ≡ sum counts j)
    → (j : ℕ) → j < i + rest
    → add_displs counts i rest displs j ≡ sum counts j
unfolding add_displs
add_displs-sum counts i zero displs h d j l = d j (omega arith)
add_displs-sum counts i (suc rest) displs h d j l =
    add_displs-sum counts (suc i) rest _ (omega arith)
      (λ k m. elim (ℕ_discrete k i) [
        | yes e ↦ rw e (
            put-at i (displs (i - 1) + counts (i - 1)) displs
            ∙ (let a = d (i - 1) (omega arith) in let b = sum_before counts i h in omega arith))
        | no e ↦ put-other i k _ displs e ∙ d k (omega arith)
      ])
      j (omega arith)

-- Blocks of `size` processes that divide `count` elements fairly, one behind the other.
pub record AreBlocks (size count : ℕ) (counts displs : ℕ → ℕ) : Type 0 where
  pub fair : (p : ℕ) → p < size → (count / size ≤ counts p) × (counts p ≤ count / size + 1)
  pub first : displs 0 ≡ 0
  pub next : (p : ℕ) → suc p < size → displs (suc p) ≡ displs p + counts p
  pub last : displs (size - 1) + counts (size - 1) ≡ count
  pub inside : (p : ℕ) → p < size → displs p + counts p ≤ count

-- For at least one process: initialize_counts and initialize_displs divide the elements into one block for each
-- process, whose sizes differ by at most one; the first begins at 0, each other one where the one before it ends,
-- and the last one ends with the last element, so that none reaches beyond it.
pub initialize_counts-AreBlocks :
    (fresh : ℕ → ℕ) (size count : ℕ)
    → 0 < size
    → AreBlocks size count
        (initialize_counts size count)
        (initialize_displs fresh size (initialize_counts size count))
unfolding initialize_counts initialize_displs
initialize_counts-AreBlocks fresh size count h =
    let r = count % size in
    let base = count / size in
    let counts = initialize_counts size count in
    let start : Spread size base 0 (0 * size / r) (λ i. base) = record {
      total = sum_const base size ∙ omega arith;
      low = λ j. omega arith;
      high = λ j. omega arith;
      flat = λ j l. refl;
    } in
    let s = add_rest-Spread size base r 0 r (λ i. base) (omega arith) (mod-lt count h) start in
    let all : sum counts size ≡ count = s.total ∙ div-add-mod' count size in
    let at =
      add_displs-sum counts 1 (size - 1) (put 0 0 fresh) (omega arith)
        (λ j l. let e : j ≡ 0 = omega arith in rw e (put-at 0 0 fresh)) in
    record {
      fair = λ p l. (s.low p, s.high p);
      first = at 0 (omega arith);
      next = λ p l. at (suc p) (omega arith) ∙ ap (λ x. x + counts p) (sym (at p (omega arith)));
      last =
          ap (λ x. x + counts (size - 1)) (at (size - 1) (omega arith))
          ∙ sym (sum_before counts size h)
          ∙ all;
      inside = λ p l.
          let a = at p (omega arith) in
          let b = sum_le counts (suc p) size (omega arith) in omega arith;
    }
