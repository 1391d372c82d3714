-- ===== src/Prelude/Ordered.antt =====
-- Totally ordered values. The doubles of the sources are such values, as long as none is NaN: the
-- model reads no more of them than the laws below.
use ska_mpi.Prelude.{ℕ, Bool, true, false, ◌≡◌, ◌↔◌, arith, ltb, ◌==◌, ==_iff}

pub record Ordered : Type 1 where
  pub Value : Type 0
  pub lt : Value → Value → Bool
  pub eq : Value → Value → Bool
  pub eq_iff : (a b : Value) → (eq a b ≡ true) ↔ (a ≡ b)
  pub lt_asymm : (a b : Value) → lt a b ≡ true → lt b a ≡ false
  pub lt_trans : (a b c : Value) → lt a b ≡ true → lt b c ≡ true → lt a c ≡ true
  pub lt_total : (a b : Value) → lt a b ≡ false → lt b a ≡ false → a ≡ b

pub ltb_asymm : (a b : ℕ) → ltb a b ≡ true → ltb b a ≡ false
ltb_asymm a b h = ground arith

pub ltb_trans : (a b c : ℕ) → ltb a b ≡ true → ltb b c ≡ true → ltb a c ≡ true
ltb_trans a b c h k = ground arith

pub ltb_total : (a b : ℕ) → ltb a b ≡ false → ltb b a ≡ false → a ≡ b
ltb_total a b h k = ground arith

-- The numbers are such values.
abbrev pub nat_ordered : Ordered
nat_ordered = record {
  Value = ℕ;
  lt = ltb;
  eq = ◌==◌;
  eq_iff = ==_iff;
  lt_asymm = ltb_asymm;
  lt_trans = ltb_trans;
  lt_total = ltb_total;
}
