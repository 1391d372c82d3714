-- ===== src/Measurement/Elements.antt =====
-- What an element holds behind an assignment to one of an array.
use ska_mpi.Prelude.{ℕ, ◌≡◌, ◌==◌, true, false, refl, arith}
use ska_mpi.Measurement.{put}

pub put-at {ℓ} : {A : Type ℓ} (i : ℕ) (v : A) (f : ℕ → A) → put i v f i ≡ v
unfolding put
put-at i v f = let e : (i == i) ≡ true = ground arith in rw e refl

pub put-other {ℓ} : {A : Type ℓ} (i j : ℕ) (v : A) (f : ℕ → A) → (j ≡ i → ⊥) → put i v f j ≡ f j
unfolding put
put-other i j v f n = let e : (j == i) ≡ false = ground arith in rw e refl
