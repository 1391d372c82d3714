-- ===== src/Arith/Gcd.antt =====
-- The greatest common divisor `gcd` and the least common multiple `lcm` of src/misc.c, by divisibility.
use mathlib.Core.Logic.{dif_pos, dif_neg}
use mathlib.Core.WellFounded.{Acc}
use native.Mathlib.Nat.{
  dvd-zero, dvd_refl, dvd_trans, dvd-mod_iff, mul_comm, one-mul, div-mul_cancel, mul-dvd-mul_left,
  dvd-mul_right_of_dvd, dvd_of_mul-dvd-mul_right, pos_of_dvd_of_pos, eq-one_of_dvd-one,
  mul_right_comm,
}
use native.Mathlib.Bridge.{le_prop}
use ska_mpi.Prelude.{ℕ, ◌*◌, ◌/◌, ◌%◌, subst, sym, ap, ◌∙◌, ◌<◌, ◌∣◌, ◌≡◌, ◌↔◌, arith, dec_lt}
use ska_mpi.Prelude.Order.{lt_wf}
use ska_mpi.Arith.{gcd_from, gcd, lcm}

abbrev Divides : ℕ → ℕ → ℕ → Type 0
Divides d a b = (d ∣ a) × (d ∣ b)

gcd_from-dvd : (b : ℕ) (w : Acc ◌<◌ b) (a : ℕ) → Divides (gcd_from b w a) a b
unfolding gcd_from
gcd_from-dvd b (Acc.intro _ next) a = elim (dec_lt 0 b) [
  | yes h ↦
      let (db, dm) = gcd_from-dvd (a % b) (next (a % b) (omega arith)) b in
      rw (dif_pos (dec_lt 0 b) le_prop h) ((dvd-mod_iff _ db).0 dm, db)
  | no h ↦
      let e : b ≡ 0 = omega arith in rw (dif_neg (dec_lt 0 b) h) (dvd_refl a, rw e (dvd-zero a))
]

gcd_from-greatest : (d b : ℕ) (w : Acc ◌<◌ b) (a : ℕ) → Divides d a b → d ∣ gcd_from b w a
unfolding gcd_from
gcd_from-greatest d b (Acc.intro _ next) a (da, db) = elim (dec_lt 0 b) [
  | yes h ↦
      rw (dif_pos (dec_lt 0 b) le_prop h)
        (gcd_from-greatest d (a % b) (next (a % b) (omega arith)) b (db, (dvd-mod_iff d db).1 da))
  | no h ↦ rw (dif_neg (dec_lt 0 b) h) da
]

-- A number divides `gcd a b` exactly if it divides both numbers.
pub gcd_greatest : (a b d : ℕ) → (d ∣ gcd a b) ↔ ((d ∣ a) × (d ∣ b))
unfolding gcd
gcd_greatest a b d =
    let (da, db) = gcd_from-dvd b (lt_wf.apply b) a in
    (λ h. (dvd_trans d h da, dvd_trans d h db), gcd_from-greatest d b (lt_wf.apply b) a)

-- The multiples of `whole` are the common multiples of `a` and `b`.
abbrev pub IsLeastMultiple : (a b whole : ℕ) → Type 0
IsLeastMultiple a b whole = (d : ℕ) → (whole ∣ d) ↔ ((a ∣ d) × (b ∣ d))

module _ (a b : ℕ) (ha : 0 < a) (hb : 0 < b) where
  gcd-dvd : (gcd a b ∣ a) × (gcd a b ∣ b)
  gcd-dvd = (gcd_greatest a b (gcd a b)).0 (dvd_refl (gcd a b))

  gcd-pos : 0 < gcd a b
  gcd-pos = pos_of_dvd_of_pos gcd-dvd.0 ha

  -- The product of both is `lcm` times `gcd`.
  lcm-gcd : lcm a b * gcd a b ≡ a * b
  unfolding lcm
  lcm-gcd = div-mul_cancel (gcd a b) (dvd-mul_right_of_dvd (gcd a b) gcd-dvd.0 b)

  dvd-lcm_left : a ∣ lcm a b
  dvd-lcm_left =
      dvd_of_mul-dvd-mul_right a gcd-pos
        (subst (λ n. a * gcd a b ∣ n) (sym lcm-gcd) (mul-dvd-mul_left (gcd a b) a gcd-dvd.1))

  dvd-lcm_right : b ∣ lcm a b
  dvd-lcm_right = dvd_of_mul-dvd-mul_right b gcd-pos (
      subst (λ n. b * gcd a b ∣ n) (mul_comm b a ∙ sym lcm-gcd)
        (mul-dvd-mul_left (gcd a b) b gcd-dvd.0))

  -- For positive numbers, `lcm` is their least common multiple.
  pub lcm_least : IsLeastMultiple a b (lcm a b)
  lcm_least d = (
    λ h. (dvd_trans a dvd-lcm_left h, dvd_trans b dvd-lcm_right h),
    λ (da, db).
        let m = lcm a b in
        let r = gcd m d in
        let (rm, rd) = (gcd_greatest m d r).0 (dvd_refl r) in
        let t = m / r in
        let same : t * gcd a b * r ≡ a * b =
          mul_right_comm t (gcd a b) r ∙ ap (λ n. n * gcd a b) (div-mul_cancel r rm) ∙ lcm-gcd in
        let scaled : (c : ℕ) → c ∣ r → t * gcd a b * c ∣ a * b =
          λ c h. subst (λ n. t * gcd a b * c ∣ n) same (mul-dvd-mul_left c (t * gcd a b) h) in
        let left : t * gcd a b ∣ a =
          dvd_of_mul-dvd-mul_right (t * gcd a b) hb
            (scaled b ((gcd_greatest m d b).1 (dvd-lcm_right, db))) in
        let right : t * gcd a b ∣ b = dvd_of_mul-dvd-mul_right (t * gcd a b) ha (
          subst (λ n. t * gcd a b * a ∣ n) (mul_comm a b)
            (scaled a ((gcd_greatest m d a).1 (dvd-lcm_left, da)))) in
        let unit : t ≡ 1 = eq-one_of_dvd-one (
          dvd_of_mul-dvd-mul_right t gcd-pos (
            subst (λ n. t * gcd a b ∣ n) (sym (one-mul (gcd a b)))
              ((gcd_greatest a b (t * gcd a b)).1 (left, right)))) in
        let whole : r ≡ m = sym (one-mul r) ∙ ap (λ n. n * r) (sym unit) ∙ div-mul_cancel r rm in
        subst (λ n. n ∣ d) whole rd,
  )
