-- ===== src/Sche/Lcm.antt =====
-- `lcm` and `lcm_of_array` are least common multiples wherever one fits 64 bits.
use native.Mathlib.Nat.{
  dvd_refl, dvd_trans, dvd-mul_left, dvd-mul_right, mul-dvd-mul_left, mul-dvd-mul_right,
  dvd_of_mul-dvd-mul_right, div-mul_cancel, mul-div_cancel', le_of_dvd, pos_of_dvd_of_pos, mul_comm,
  mul_assoc,
}
use rtgen_dpdk_next.Base.{
  ℕ, ◌*◌, ◌/◌, ◌<◌, ◌∣◌, ◌≡◌, refl, ap, sym, subst, ◌∙◌, some, List, [], ◌∷◌, arith, All, u64_mod,
  ne→==-false,
}
use rtgen_dpdk_next.Sche.{gcd, lcm, lcm_from, lcm_of_array, div?}
use rtgen_dpdk_next.Sche.Gcd.{gcd-dvd, gcd_pos, dvd-gcd-mul}

-- The least common multiple of the elements of a list.
pub record IsLcm (m : ℕ) (xs : List ℕ) : Type 0 where
  pub positive : 0 < m
  pub multiple : All (λ x. x ∣ m) xs
  pub least : (k : ℕ) → All (λ x. x ∣ k) xs → m ∣ k

-- With wide numbers, the expression `(a / gcd(a, b)) * b`.
abbrev wide_lcm : ℕ → ℕ → ℕ
wide_lcm a b = a / gcd a b * b

wide_lcm-mul-gcd : (a b : ℕ) → wide_lcm a b * gcd a b ≡ a * b
wide_lcm-mul-gcd a b =
    let e : a / gcd a b * gcd a b ≡ a = div-mul_cancel (gcd a b) (gcd-dvd a b).0 in
    mul_assoc _ b (gcd a b)
    ∙ ap (λ t. a / gcd a b * t) (mul_comm b (gcd a b))
    ∙ sym (mul_assoc _ (gcd a b) b)
    ∙ ap (λ t. t * b) e

wide_lcm-dvd : (a b k : ℕ) → 0 < a → a ∣ k → b ∣ k → wide_lcm a b ∣ k
wide_lcm-dvd a b k h ha hb = dvd_of_mul-dvd-mul_right _ (gcd_pos a b h) (
    subst (λ t. t ∣ k * gcd a b) (sym (wide_lcm-mul-gcd a b))
      (subst (◌∣◌ (a * b)) (mul_comm (gcd a b) k) (
        dvd-gcd-mul (a * b) a b k (mul-dvd-mul_left b a hb)
          (subst (◌∣◌ (a * b)) (mul_comm k b) (mul-dvd-mul_right a ha b)))))

dvd-wide_lcm : (a b : ℕ) → a ∣ wide_lcm a b
dvd-wide_lcm a b = subst (◌∣◌ a) (sym swapped) (dvd-mul_right a (b / gcd a b))
  where
    swapped : wide_lcm a b ≡ a * (b / gcd a b)
    swapped =
        let ea : a / gcd a b * gcd a b ≡ a = div-mul_cancel (gcd a b) (gcd-dvd a b).0 in
        let eb : gcd a b * (b / gcd a b) ≡ b = mul-div_cancel' (gcd a b) (gcd-dvd a b).1 in
        ap (λ t. a / gcd a b * t) (sym eb)
        ∙ sym (mul_assoc _ (gcd a b) _)
        ∙ ap (λ t. t * (b / gcd a b)) ea

-- `lcm` neither faults nor wraps when its arguments have a common multiple below 2 ^ 64.
pub lcm_fits :
    (a b k : ℕ) → 0 < a → 0 < k → k < u64_mod → a ∣ k → b ∣ k → lcm a b ≡ some (wide_lcm a b)
unfolding lcm
lcm_fits a b k pa pk bound ha hb =
    rw (ne→==-false (gcd a b) 0 (omega (arith, gcd_pos a b pa)), div?)
      (ap some (omega (arith, le_of_dvd pk (wide_lcm-dvd a b k pa ha hb))))

lcm_from-IsLcm :
    (xs : List ℕ) (a k : ℕ)
    → 0 < a
    → 0 < k
    → k < u64_mod
    → a ∣ k
    → All (λ x. x ∣ k) xs
    → (m : ℕ) × (lcm_from a xs ≡ some m) × IsLcm m (a ∷ xs)
unfolding lcm_from
lcm_from-IsLcm [] a k pa pk bound ha hs =
    (a, refl, record { positive = pa; multiple = (dvd_refl a, tt); least = λ j h. h.0 })
lcm_from-IsLcm (x ∷ xs) a k pa pk bound ha hs =
    let (m, e, l) =
      lcm_from-IsLcm xs (wide_lcm a x) k (pos_of_dvd_of_pos (wide_lcm-dvd a x k pa ha hs.0) pk) pk
        bound (wide_lcm-dvd a x k pa ha hs.0) hs.1 in
    (
      m,
      rw (lcm_fits a x k pa pk bound ha hs.0) e,
      record {
        positive = l.positive;
        multiple = (
          dvd_trans a (dvd-wide_lcm a x) l.multiple.0,
          (dvd_trans x (dvd-mul_left x (a / gcd a x)) l.multiple.0, l.multiple.1),
        );
        least = λ j h. l.least j (wide_lcm-dvd a x j pa h.0 h.1.0, h.1.1);
      },
    )

-- If the array is not empty and its elements have a positive common multiple below 2 ^ 64, then `lcm_of_array` returns their least common multiple, with no fault and
-- no overflow.
pub lcm_of_array-IsLcm :
    (x : ℕ) (xs : List ℕ) (k : ℕ)
    → 0 < k
    → k < u64_mod
    → All (λ p. p ∣ k) (x ∷ xs)
    → (m : ℕ) × (lcm_of_array (x ∷ xs) ≡ some m) × IsLcm m (x ∷ xs)
unfolding lcm_of_array
lcm_of_array-IsLcm x xs k pk bound h =
    lcm_from-IsLcm xs x k (pos_of_dvd_of_pos h.0 pk) pk bound h.0 h.1
