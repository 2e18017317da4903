-- ===== src/Base/Words.antt =====
-- The C integer types as native numbers: uint64_t and uint16_t wrap, and a conversion from
-- uint64_t to int keeps the low 32 bits.
use Prim.Native.Nat.{ℕ, ◌+◌, ◌-◌, ◌*◌, ◌%◌, ◌^◌, ◌<◌, ◌≤◌}
use mathlib.Core.Path.{◌≡◌}
use native.Mathlib.Omega.{arith}
use rtgen_dpdk_next.Base.Tests.{ltb, ◌==◌, if◌then◌else◌}

abbrev pub u64_mod : ℕ
u64_mod = 2 ^ 64

abbrev pub u32_mod : ℕ
u32_mod = 2 ^ 32

abbrev pub u16_mod : ℕ
u16_mod = 2 ^ 16

-- uint64_t a + b, a - b and a * b.
abbrev pub add64 : ℕ → ℕ → ℕ
add64 a b = (a + b) % u64_mod

abbrev pub sub64 : ℕ → ℕ → ℕ
sub64 a b = (a + u64_mod - b) % u64_mod

abbrev pub mul64 : ℕ → ℕ → ℕ
mul64 a b = (a * b) % u64_mod

-- The bit pattern of the int that a uint64_t is converted to.
abbrev pub to_int : ℕ → ℕ
to_int x = x % u32_mod

-- abs of an int given by its bit pattern, converted to uint64_t. The result at INT_MIN is undefined
-- in C; here it is what two's complement machines compute, INT_MIN again, sign-extended.
abbrev pub abs_int : ℕ → ℕ
abs_int w = if ltb w (2 ^ 31) then w else if w == 2 ^ 31 then u64_mod - 2 ^ 31 else u32_mod - w

-- |a - b| of two numbers.
abbrev pub distance : ℕ → ℕ → ℕ
distance a b = (a - b) + (b - a)

pub add64-eq : (a b : ℕ) → a + b < u64_mod → add64 a b ≡ a + b
add64-eq a b h = omega arith

pub sub64-eq : (a b : ℕ) → a < u64_mod → b ≤ a → sub64 a b ≡ a - b
sub64-eq a b h k = omega arith
