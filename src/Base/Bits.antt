-- ===== src/Base/Bits.antt =====
-- Shifts and ors of the C code at variables: an or of disjoint bits is a sum.
use Prim.Native.Nat.{
  ℕ, zero, suc, ◌+◌, ◌*◌, ◌/◌, ◌%◌, ◌^◌, ◌≤◌, ◌<◌, max, bit_or, digits, bit_or-bitwise,
}
use mathlib.Core.Path.{◌≡◌, refl, ap, sym, ◌∙◌}
use native.Mathlib.Omega.{arith}

or_digits : ℕ → ℕ → ℕ → ℕ
or_digits n a b = digits (λ b. b) max n a b

pow_suc : (k : ℕ) → 2 ^ suc k ≡ 2 * 2 ^ k
pow_suc k = omega arith

double : (b k : ℕ) → b * 2 ^ suc k ≡ 2 * (b * 2 ^ k)
double b k = ap (λ p. b * p) (pow_suc k) ∙ grind arith

max-zero : (a : ℕ) → max a 0 ≡ a
max-zero a = omega arith

or_digits-disjoint : (n k a b : ℕ) → a ≤ n → a < 2 ^ k → or_digits n a (b * 2 ^ k) ≡ a + b * 2 ^ k
unfolding or_digits
or_digits-disjoint zero k zero b h lt = omega arith
or_digits-disjoint zero k (suc a) b h lt = absurd (omega arith)
or_digits-disjoint (suc n) k zero b h lt = omega arith
or_digits-disjoint (suc n) zero (suc a) b h lt = absurd (omega arith)
or_digits-disjoint (suc n) (suc k) (suc a) b h lt =
    let e = double b k in
    let p = pow_suc k in
    let half : b * 2 ^ suc k / 2 ≡ b * 2 ^ k = omega (arith, e) in
    let even : b * 2 ^ suc k % 2 ≡ 0 = omega (arith, e) in
    ap (λ m. or_digits n (suc a / 2) m * 2 + max (suc a % 2) (b * 2 ^ suc k % 2)) half
    ∙ ap (λ m. or_digits n (suc a / 2) (b * 2 ^ k) * 2 + max (suc a % 2) m) even
    ∙ omega (
      arith,
      e,
      max-zero (suc a % 2),
      or_digits-disjoint n k (suc a / 2) b (omega arith) (omega (arith, p)),
    )

-- `a | (b << k)` for an `a` of k bits.
pub bit_or-disjoint : (k a b : ℕ) → a < 2 ^ k → bit_or a (b * 2 ^ k) ≡ a + b * 2 ^ k
unfolding or_digits
bit_or-disjoint k a b h = bit_or-bitwise a (b * 2 ^ k) ∙ or_digits-disjoint a k a b (omega arith) h

or_digits-zero : (n x : ℕ) → x ≤ n → or_digits n x 0 ≡ x
unfolding or_digits
or_digits-zero zero x h = omega arith
or_digits-zero (suc n) zero h = refl
or_digits-zero (suc n) (suc x) h =
    let z : 0 / 2 ≡ 0 = omega arith in
    let d : 0 % 2 ≡ 0 = omega arith in
    ap (λ m. or_digits n (suc x / 2) m * 2 + max (suc x % 2) (0 % 2)) z
    ∙ ap (λ m. or_digits n (suc x / 2) 0 * 2 + max (suc x % 2) m) d
    ∙ omega (arith, max-zero (suc x % 2), or_digits-zero n (suc x / 2) (omega arith))

zero-max : (a : ℕ) → max 0 a ≡ a
zero-max a = omega arith

or_digits-disjoint_high :
    (n k a x b : ℕ) → x ≡ a * 2 ^ k → x ≤ n → b < 2 ^ k → or_digits n x b ≡ x + b
unfolding or_digits
or_digits-disjoint_high zero k a x b e h lt = omega arith
or_digits-disjoint_high (suc n) k a zero b e h lt = omega arith
or_digits-disjoint_high (suc n) zero a (suc x) b e h lt =
    let z : b ≡ 0 = omega arith in
    ap (λ m. or_digits (suc n) (suc x) m) z ∙ or_digits-zero (suc n) (suc x) h ∙ omega arith
or_digits-disjoint_high (suc n) (suc k) a (suc x) b e h lt =
    let d = double a k in
    let p = pow_suc k in
    let half : suc x / 2 ≡ a * 2 ^ k = omega (arith, d, e) in
    let even : suc x % 2 ≡ 0 = omega (arith, d, e) in
    ap (λ m. or_digits n (suc x / 2) (b / 2) * 2 + max m (b % 2)) even
    ∙ omega (
      arith,
      d,
      e,
      zero-max (b % 2),
      or_digits-disjoint_high n k a (suc x / 2) (b / 2) half (omega arith) (omega (arith, p)),
    )

-- `(a << k) | b` for a `b` of k bits.
pub bit_or-disjoint_high : (k a b : ℕ) → b < 2 ^ k → bit_or (a * 2 ^ k) b ≡ a * 2 ^ k + b
unfolding or_digits
bit_or-disjoint_high k a b h =
    bit_or-bitwise (a * 2 ^ k) b
    ∙ or_digits-disjoint_high (a * 2 ^ k) k a (a * 2 ^ k) b refl (omega arith) h

or_digits-none : (n a b : ℕ) → a ≤ n → or_digits n a b ≡ 0 → (a ≡ 0) × (b ≡ 0)
unfolding or_digits
or_digits-none zero a b h e = (omega arith, e)
or_digits-none (suc n) zero b h e = (refl, e)
or_digits-none (suc n) (suc a) b h e =
    let (x, y) = or_digits-none n (suc a / 2) (b / 2) (omega arith) (omega (arith, e)) in
    let low : max (suc a % 2) (b % 2) ≡ 0 = omega (arith, e) in
    let z : suc a % 2 ≡ 0 = omega (arith, low) in absurd (omega (arith, x, z))

-- An or is 0 only if both sides are.
pub bit_or-zero : (a b : ℕ) → bit_or a b ≡ 0 → (a ≡ 0) × (b ≡ 0)
unfolding or_digits
bit_or-zero a b e = or_digits-none a a b (omega arith) (sym (bit_or-bitwise a b) ∙ e)
