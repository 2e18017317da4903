-- ===== src/Sche/Gcd.antt =====
-- `gcd` is the greatest common divisor.
use mathlib.Core.WellFounded.{Acc}
use native.Mathlib.Nat.{
  dvd_refl, dvd_trans, dvd-zero, dvd-mod_iff, dvd-add_iff_right, dvd-mul_right_of_dvd, div-add-mod,
  mul-one, le_of_dvd, pos_of_dvd_of_pos,
}
use rtgen_dpdk_next.Base.{
  ℕ, ◌↔◌, zero, suc, ◌+◌, ◌*◌, ◌/◌, ◌%◌, ◌≡◌, ap, sym, subst, ◌∙◌, ◌<◌, ◌≤◌, ◌∣◌, arith,
}
use rtgen_dpdk_next.Base.Order.{lt_wf}
use rtgen_dpdk_next.Sche.{gcd_acc, gcd}

gcd_acc-dvd : (a b : ℕ) (w : Acc ◌<◌ a) → (gcd_acc a b w ∣ a) × (gcd_acc a b w ∣ b)
unfolding gcd_acc
gcd_acc-dvd zero b (Acc.intro _ smaller) = (dvd-zero b, dvd_refl b)
gcd_acc-dvd (suc a) b (Acc.intro _ smaller) =
    let (l, r) = gcd_acc-dvd (b % suc a) (suc a) (smaller (b % suc a) (omega arith)) in
    (r, (dvd-mod_iff _ r).0 l)

dvd-mod-mul : (k a b c : ℕ) → k ∣ a * c → k ∣ b * c → k ∣ b % a * c
dvd-mod-mul k a b c ha hb =
    (dvd-add_iff_right k (dvd-mul_right_of_dvd k ha (b / a))).1 (subst (◌∣◌ k) pieces hb)
  where
    pieces : b * c ≡ a * c * (b / a) + b % a * c
    pieces = ap (λ t. t * c) (sym (div-add-mod b a)) ∙ omega arith

-- Scaled by `c`, as the least common multiple needs it.
dvd-gcd_acc-mul : (k c a b : ℕ) (w : Acc ◌<◌ a) → k ∣ a * c → k ∣ b * c → k ∣ gcd_acc a b w * c
unfolding gcd_acc
dvd-gcd_acc-mul k c zero b (Acc.intro _ smaller) ha hb = hb
dvd-gcd_acc-mul k c (suc a) b (Acc.intro _ smaller) ha hb =
    dvd-gcd_acc-mul k c (b % suc a) (suc a) (smaller (b % suc a) (omega arith))
      (dvd-mod-mul k (suc a) b c ha hb) ha

-- The result divides both arguments.
pub gcd-dvd : (a b : ℕ) → (gcd a b ∣ a) × (gcd a b ∣ b)
unfolding gcd
gcd-dvd a b = gcd_acc-dvd a b (lt_wf.apply a)

pub dvd-gcd-mul : (k a b c : ℕ) → k ∣ a * c → k ∣ b * c → k ∣ gcd a b * c
unfolding gcd
dvd-gcd-mul k a b c = dvd-gcd_acc-mul k c a b (lt_wf.apply a)

-- Every common divisor divides the result.
pub dvd-gcd : (k a b : ℕ) → k ∣ a → k ∣ b → k ∣ gcd a b
dvd-gcd k a b ha hb =
    subst (◌∣◌ k) (mul-one _)
      (dvd-gcd-mul k a b 1 (dvd-mul_right_of_dvd k ha 1) (dvd-mul_right_of_dvd k hb 1))

pub gcd_pos : (a b : ℕ) → 0 < a → 0 < gcd a b
gcd_pos a b h = pos_of_dvd_of_pos (gcd-dvd a b).0 h

-- With a positive first argument, the divisors of `gcd a b` are exactly the common divisors of `a` and
-- `b`, and the result is positive and at most `a`.
pub gcd-IsGreatest :
    (a b k : ℕ) → 0 < a → ((k ∣ gcd a b) ↔ ((k ∣ a) × (k ∣ b))) × (gcd a b ≤ a) × (0 < gcd a b)
gcd-IsGreatest a b k h = (
  (λ d. (dvd_trans k d (gcd-dvd a b).0, dvd_trans k d (gcd-dvd a b).1), λ c. dvd-gcd k a b c.0 c.1),
  le_of_dvd h (gcd-dvd a b).0,
  gcd_pos a b h,
)
