-- ===== src/Argon2/Exact.antt =====
-- The products by 16-bit limbs are exact.
use Prim.Native.Nat.{bit_or}
use native.Mathlib.Nat.{mul-le-mul}
use maspassword.Base.{ℕ, ◌+◌, ◌*◌, ◌/◌, ◌%◌, ◌^◌, ◌<◌, ◌≤◌, ◌≡◌, ◌∙◌, arith}
use maspassword.Base.Bits.{bit_and_mask, bit_or_comm}
use maspassword.Blake2b.Pairs.{Pair, left}
use maspassword.Blake2b.Words.{value, IsPair, join_parts}
use maspassword.Argon2.{low_limb, high_limb, f_bla_mka, umul_hi}

low_limb-mod : (x : ℕ) → low_limb x ≡ x % 2 ^ 16
low_limb-mod x = bit_and_mask 16 x

limbs : (x : ℕ) → x ≡ high_limb x * 65536 + low_limb x
limbs x = omega (arith, low_limb-mod x)

product_limbs :
    (x1 x0 y1 y0 : ℕ)
    → (x1 * 65536 + x0) * (y1 * 65536 + y0)
      ≡ x1 * y1 * 4294967296 + (x1 * y0 + x0 * y1) * 65536 + x0 * y0
product_limbs x1 x0 y1 y0 = omega arith

-- The product of two numbers, by their limbs.
product :
    (x y : ℕ)
    → x * y
      ≡ high_limb x * high_limb y * 4294967296
        + (high_limb x * low_limb y + low_limb x * high_limb y) * 65536
        + low_limb x * low_limb y
product x y =
    (λ i. limbs x i * limbs y i)
    ∙ product_limbs (high_limb x) (low_limb x) (high_limb y) (low_limb y)

-- umulHi is the upper half of the square of a 32-bit number.
pub umul_hi_square : (a : ℕ) → a < 2 ^ 32 → umul_hi a ≡ a * a / 2 ^ 32
unfolding umul_hi
umul_hi_square a lt = omega (arith, product a a, small)
  where
    bound : a ≤ 4294967295
    bound = omega arith

    small : a * a < 2 ^ 64
    small = omega (arith, mul-le-mul bound bound)

-- fBlaMka is exact: with 32-bit halves, the words are a + b + 2 * lo(a) * lo(b) modulo 2^64.
pub f_bla_mka_exact :
    (a b : Pair)
    → IsPair a
    → IsPair b
    → value (f_bla_mka a b) ≡ (value a + value b + 2 * (a.lo * b.lo)) % 2 ^ 64
unfolding f_bla_mka
f_bla_mka_exact a b ha hb = omega (arith, product a.lo b.lo, doubled)
  where
    mid : ℕ
    mid = high_limb a.lo * low_limb b.lo + low_limb a.lo * high_limb b.lo

    tl : ℕ
    tl = low_limb a.lo * low_limb b.lo + mid % 65536 * 65536

    th : ℕ
    th = (high_limb a.lo * high_limb b.lo + mid / 65536 + tl / 2 ^ 32) % 2 ^ 32

    -- The upper half of the doubled product.
    doubled : bit_or (left th 1) (tl % 2 ^ 32 / 2 ^ 31) ≡ th % 2 ^ 31 * 2 ^ 1 + tl % 2 ^ 32 / 2 ^ 31
    doubled =
        bit_or_comm (left th 1) (tl % 2 ^ 32 / 2 ^ 31)
        ∙ join_parts 31 1 (tl % 2 ^ 32) th (omega arith) (omega arith)
