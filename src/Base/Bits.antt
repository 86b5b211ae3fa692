-- ===== src/Base/Bits.antt =====
-- Laws of `^`, `|` and `&` on numbers of any width, from the lowest digit up.
use Prim.Native.Nat.{
  ℕ, zero, suc, ◌+◌, ◌-◌, ◌*◌, ◌/◌, ◌%◌, ◌^◌, ◌≤◌, ◌<◌, min, max, digits, differ, bitwise, bit_and,
  bit_or, bit_xor, bit_and-bitwise, bit_or-bitwise, bit_xor-bitwise,
}
use mathlib.Core.Path.{◌≡◌, refl, ap, ◌∙◌}
use native.Mathlib.Nat.{
  pow-suc, one-le-pow, mul-add-mod_self_right, mod-eq_of_lt, mod-lt, div-add-mod',
}
use native.Mathlib.Decide.{dec_le}
use native.Mathlib.Omega.{arith}

-- Induction that goes from half of a number to the number.
below_halving :
    (P : ℕ → Type 0) → P 0 → ((a : ℕ) → P (suc a / 2) → P (suc a)) → (n a : ℕ) → a ≤ n → P a
below_halving P base step n zero le = base
below_halving P base step zero (suc a) le = absurd (omega arith)
below_halving P base step (suc n) (suc a) le =
    step a (below_halving P base step n (suc a / 2) (omega arith))

pub halving : (P : ℕ → Type 0) → P 0 → ((a : ℕ) → P (suc a / 2) → P (suc a)) → (a : ℕ) → P a
halving P base step a = below_halving P base step a a (omega arith)

-- The operations count digits down from their first number; any larger count gives the same.
module _ (z : ℕ → ℕ) (f : ℕ → ℕ → ℕ) where
  one_digit_more : (n a b : ℕ) → a ≤ n → digits z f (suc n) a b ≡ digits z f n a b
  one_digit_more zero zero b h = refl
  one_digit_more zero (suc a) b h = absurd (omega arith)
  one_digit_more (suc n) zero b h = refl
  one_digit_more (suc n) (suc a) b h = rw (one_digit_more n (suc a / 2) (b / 2) (omega arith))

  enough_digits : (n a b : ℕ) → a ≤ n → digits z f n a b ≡ bitwise z f a b
  enough_digits zero zero b h = refl
  enough_digits zero (suc a) b h = absurd (omega arith)
  enough_digits (suc n) a b h = elim (dec_le a n) [
    | yes le ↦ one_digit_more n a b le ∙ enough_digits n a b le
    | no gt ↦ let e : a ≡ suc n = omega arith in rw e
  ]

  -- The two lowest digits are apart from the others, if this is so of a first number 0.
  split_lowest :
      (z_low : (b : ℕ) → z b ≡ z (b / 2) * 2 + f 0 (b % 2)) (a b : ℕ)
      → bitwise z f a b ≡ bitwise z f (a / 2) (b / 2) * 2 + f (a % 2) (b % 2)
  split_lowest z_low zero b = z_low b
  split_lowest z_low (suc a) b =
      ap (λ high. high * 2 + f (suc a % 2) (b % 2))
        (enough_digits a (suc a / 2) (b / 2) (omega arith))

-- An operation acts on the lowest digits by `f`.
abbrev pub ActsBy : (ℕ → ℕ → ℕ) → (ℕ → ℕ → ℕ) → Type 0
ActsBy op f = (a b : ℕ) → op a b ≡ op (a / 2) (b / 2) * 2 + f (a % 2) (b % 2)

bit_xor-ActsBy : ActsBy bit_xor differ
bit_xor-ActsBy a b = simp bit_xor-bitwise (split_lowest (λ y. y) differ (λ y. omega arith) a b)

bit_or-ActsBy : ActsBy bit_or max
bit_or-ActsBy a b = simp bit_or-bitwise (split_lowest (λ y. y) max (λ y. omega arith) a b)

pub bit_and-ActsBy : ActsBy bit_and min
bit_and-ActsBy a b = simp bit_and-bitwise (split_lowest (λ y. zero) min (λ y. omega arith) a b)

-- Two digits.
differ_digits : (x y : ℕ) → x < 2 → y < 2 → (differ x y ≡ (x + y) % 2) × (differ x y ≡ differ y x)
differ_digits zero zero p q = omega arith
differ_digits zero (suc zero) p q = omega arith
differ_digits (suc zero) zero p q = omega arith
differ_digits (suc zero) (suc zero) p q = omega arith
differ_digits (suc (suc x)) y p q = absurd (omega arith)
differ_digits x (suc (suc y)) p q = absurd (omega arith)

pub zero-bit_xor : (b : ℕ) → bit_xor 0 b ≡ b
zero-bit_xor b = bit_xor-bitwise 0 b

-- The lowest digit of an exclusive or, as arithmetic.
pub bit_xor_low : (a b : ℕ) → bit_xor a b ≡ bit_xor (a / 2) (b / 2) * 2 + (a + b) % 2
bit_xor_low a b =
    omega (arith, bit_xor-ActsBy a b, differ_digits (a % 2) (b % 2) (omega arith) (omega arith))

pub bit_xor-zero : (a : ℕ) → bit_xor a 0 ≡ a
bit_xor-zero =
    halving (λ a. bit_xor a 0 ≡ a) (zero-bit_xor 0) (λ a ih. omega (arith, bit_xor_low (suc a) 0))

pub bit_xor_comm : (a b : ℕ) → bit_xor a b ≡ bit_xor b a
bit_xor_comm =
    halving (λ a. (b : ℕ) → bit_xor a b ≡ bit_xor b a)
      (λ b. omega (arith, zero-bit_xor b, bit_xor-zero b))
      (λ a ih b. omega (arith, bit_xor_low (suc a) b, bit_xor_low b (suc a), ih (b / 2)))

pub bit_xor_assoc : (a b c : ℕ) → bit_xor (bit_xor a b) c ≡ bit_xor a (bit_xor b c)
bit_xor_assoc =
    halving (λ a. (b c : ℕ) → bit_xor (bit_xor a b) c ≡ bit_xor a (bit_xor b c))
      (λ b c. ground (arith, zero-bit_xor b, zero-bit_xor (bit_xor b c))) step
  where
    half : (a b : ℕ) → bit_xor a b / 2 ≡ bit_xor (a / 2) (b / 2)
    half a b = omega (arith, bit_xor_low a b)

    step :
        (a : ℕ)
        → ((b c : ℕ) → bit_xor (bit_xor (suc a / 2) b) c ≡ bit_xor (suc a / 2) (bit_xor b c))
        → (b c : ℕ) → bit_xor (bit_xor (suc a) b) c ≡ bit_xor (suc a) (bit_xor b c)
    step a ih b c = ground (
      arith,
      bit_xor_low (suc a) b,
      bit_xor_low b c,
      bit_xor_low (bit_xor (suc a) b) c,
      bit_xor_low (suc a) (bit_xor b c),
      half (suc a) b,
      half b c,
      ih (b / 2) (c / 2),
    )

pub bit_xor_self : (a : ℕ) → bit_xor a a ≡ 0
bit_xor_self =
    halving (λ a. bit_xor a a ≡ 0) (zero-bit_xor 0)
      (λ a ih. omega (arith, bit_xor_low (suc a) (suc a)))

-- Exclusive or by the same number twice changes nothing.
pub bit_xor_cancel : (a b : ℕ) → bit_xor (bit_xor a b) b ≡ a
bit_xor_cancel a b = ground (arith, bit_xor_assoc a b b, bit_xor_self b, bit_xor-zero a)

pub bit_xor-lt : (k a b : ℕ) → a < 2 ^ k → b < 2 ^ k → bit_xor a b < 2 ^ k
bit_xor-lt zero zero zero ha hb = omega arith
bit_xor-lt zero (suc a) b ha hb = absurd (omega arith)
bit_xor-lt zero zero (suc b) ha hb = absurd (omega arith)
bit_xor-lt (suc k) a b ha hb = omega (
  arith,
  pow-suc 2 k,
  bit_xor_low a b,
  bit_xor-lt k (a / 2) (b / 2) (omega (arith, pow-suc 2 k)) (omega (arith, pow-suc 2 k)),
)

double : (q k : ℕ) → q * 2 ^ suc k ≡ 2 * (q * 2 ^ k)
double q k = omega (arith, ap (λ (t : ℕ). q * t) (pow-suc 2 k))

half_fields : (q k r : ℕ) → (q * 2 ^ suc k + r) / 2 ≡ q * 2 ^ k + r / 2
half_fields q k r = omega (arith, double q k)

-- Fields that do not overlap are taken apart.
pub bit_xor_fields :
    (k q r s t : ℕ)
    → r < 2 ^ k
    → t < 2 ^ k
    → bit_xor (q * 2 ^ k + r) (s * 2 ^ k + t) ≡ bit_xor q s * 2 ^ k + bit_xor r t
bit_xor_fields zero q zero s zero hr ht = ground (arith, zero-bit_xor 0)
bit_xor_fields zero q (suc r) s t hr ht = absurd (omega arith)
bit_xor_fields zero q zero s (suc t) hr ht = absurd (omega arith)
bit_xor_fields (suc k) q r s t hr ht = ground (
  arith,
  bit_xor_low (q * 2 ^ suc k + r) (s * 2 ^ suc k + t),
  bit_xor_low r t,
  double q k,
  double s k,
  double (bit_xor q s) k,
  half_fields q k r,
  half_fields s k t,
  bit_xor_fields k q (r / 2) s (t / 2) (omega (arith, pow-suc 2 k)) (omega (arith, pow-suc 2 k)),
)

pub bit_or-zero : (a : ℕ) → bit_or a 0 ≡ a
bit_or-zero =
    halving (λ a. bit_or a 0 ≡ a) (bit_or-bitwise 0 0)
      (λ a ih. omega (arith, bit_or-ActsBy (suc a) 0))

-- `(q << k) | r` is a sum when `r` has at most `k` digits.
pub bit_or_fields : (k q r : ℕ) → r < 2 ^ k → bit_or (q * 2 ^ k) r ≡ q * 2 ^ k + r
bit_or_fields zero q zero h = ground (arith, bit_or-zero q)
bit_or_fields zero q (suc r) h = absurd (omega arith)
bit_or_fields (suc k) q r h = ground (
  arith,
  bit_or-ActsBy (q * 2 ^ suc k) r,
  double q k,
  bit_or_fields k q (r / 2) (omega (arith, pow-suc 2 k)),
)

pub bit_or_comm : (a b : ℕ) → bit_or a b ≡ bit_or b a
bit_or_comm =
    halving (λ a. (b : ℕ) → bit_or a b ≡ bit_or b a)
      (λ b. omega (arith, bit_or-bitwise 0 b, bit_or-zero b))
      (λ a ih b. omega (arith, bit_or-ActsBy (suc a) b, bit_or-ActsBy b (suc a), ih (b / 2)))

mod_double : (a m : ℕ) → 0 < m → a % (2 * m) ≡ a / 2 % m * 2 + a % 2
mod_double a m pos =
    ap (λ t. t % (2 * m)) parts
    ∙ mul-add-mod_self_right (a / 2 / m) (2 * m) (a / 2 % m * 2 + a % 2)
    ∙ mod-eq_of_lt (omega (arith, mod-lt (a / 2) pos))
  where
    parts : a ≡ a / 2 / m * (2 * m) + (a / 2 % m * 2 + a % 2)
    parts = omega (arith, div-add-mod' (a / 2) m)

bit_and-zero : (a : ℕ) → bit_and a 0 ≡ 0
bit_and-zero =
    halving (λ a. bit_and a 0 ≡ 0) (bit_and-bitwise 0 0)
      (λ a ih. omega (arith, bit_and-ActsBy (suc a) 0))

-- `a & (2^k - 1)` is the remainder by 2^k.
pub bit_and_mask : (k a : ℕ) → bit_and a (2 ^ k - 1) ≡ a % 2 ^ k
bit_and_mask zero a = omega (arith, bit_and-zero a)
bit_and_mask (suc k) a = ground (
  arith,
  bit_and-ActsBy a (2 ^ suc k - 1),
  pow-suc 2 k,
  one-le-pow k 2,
  mod_double a (2 ^ k),
  bit_and_mask k (a / 2),
)
