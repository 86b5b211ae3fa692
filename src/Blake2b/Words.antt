-- ===== src/Blake2b/Words.antt =====
-- The 64-bit arithmetic on pairs of 32-bit words is the one on BigInts.
use Prim.Native.Nat.{bit_or, bit_xor}
use maspassword.Base.{ℕ, ◌+◌, ◌-◌, ◌*◌, ◌/◌, ◌%◌, ◌^◌, ◌<◌, ◌≡◌, refl, sym, ap, ◌∙◌, arith}
use maspassword.Base.Bits.{bit_and_mask, bit_xor_fields, bit_or_fields, bit_or_comm, bit_xor-lt}
use maspassword.Blake2b.Wide.{add64, rotr64}
use maspassword.Blake2b.Pairs.{
  Pair, plus2, plus3, xor_pair, left, rotr_32, rotr_24, rotr_16, rotr_63,
}

abbrev pub value : Pair → ℕ
value p = p.hi * 2 ^ 32 + p.lo

pub record IsPair (p : Pair) : Type 0 where
  pub lo_lt : p.lo < 2 ^ 32
  pub hi_lt : p.hi < 2 ^ 32

pub add64-mod : (a b : ℕ) → add64 a b ≡ (a + b) % 2 ^ 64
unfolding add64
add64-mod a b = bit_and_mask 64 (a + b)

pub plus2-IsPair : (a b : Pair) → IsPair (plus2 a b)
unfolding plus2
plus2-IsPair a b = record { lo_lt = omega arith; hi_lt = omega arith }

pub plus3-IsPair : (a b m : Pair) → IsPair (plus3 a b m)
unfolding plus3
plus3-IsPair a b m = record { lo_lt = omega arith; hi_lt = omega arith }

pub value-plus2 : (a b : Pair) → value (plus2 a b) ≡ add64 (value a) (value b)
unfolding plus2
value-plus2 a b = omega (arith, add64-mod (value a) (value b))

pub value-plus3 : (a b m : Pair) → value (plus3 a b m) ≡ add64 (add64 (value a) (value b)) (value m)
unfolding plus3
value-plus3 a b m =
    omega (arith, add64-mod (value a) (value b), add64-mod (add64 (value a) (value b)) (value m))

pub xor_pair-IsPair : (p q : Pair) → IsPair p → IsPair q → IsPair (xor_pair p q)
xor_pair-IsPair p q h k = record {
  lo_lt = bit_xor-lt 32 p.lo q.lo h.lo_lt k.lo_lt;
  hi_lt = bit_xor-lt 32 p.hi q.hi h.hi_lt k.hi_lt;
}

pub value-xor_pair :
    (p q : Pair) → IsPair p → IsPair q → value (xor_pair p q) ≡ bit_xor (value p) (value q)
value-xor_pair p q h k = sym (bit_xor_fields 32 p.hi p.lo q.hi q.lo h.lo_lt k.lo_lt)

-- A rotation moves the digits below `n` to the top.
rotr64-split :
    (n k x : ℕ)
    → n + k ≡ 64
    → x < 2 ^ 64
    → x / 2 ^ n < 2 ^ k
    → rotr64 x n ≡ (x * 2 ^ k + x / 2 ^ n) % 2 ^ 64
unfolding rotr64
rotr64-split n k x e h small =
    bit_and_mask 64 (bit_or (x / 2 ^ n) (x * 2 ^ (64 - n)))
    ∙ ap (λ t. t % 2 ^ 64)
        (bit_or_comm (x / 2 ^ n) (x * 2 ^ (64 - n))
          ∙ ap (λ j. bit_or (x * 2 ^ j) (x / 2 ^ n)) k_eq
          ∙ bit_or_fields k x (x / 2 ^ n) small)
  where
    k_eq : 64 - n ≡ k
    k_eq = omega arith

-- `(x >>> n) | (y << k)`, where n + k is 32.
pub join_parts :
    (n k x y : ℕ)
    → x / 2 ^ n < 2 ^ k
    → left y k ≡ y % 2 ^ n * 2 ^ k
    → bit_or (x / 2 ^ n) (left y k) ≡ y % 2 ^ n * 2 ^ k + x / 2 ^ n
join_parts n k x y h e =
    ap (bit_or (x / 2 ^ n)) e
    ∙ bit_or_comm (x / 2 ^ n) (y % 2 ^ n * 2 ^ k)
    ∙ bit_or_fields k (y % 2 ^ n) (x / 2 ^ n) h

-- A pair is rotated as the word that it is.
pub record Rotates (f : Pair → Pair) (n : ℕ) : Type 0 where
  pub pair : (x : Pair) → IsPair x → IsPair (f x)
  pub word : (x : Pair) → IsPair x → value (f x) ≡ rotr64 (value x) n

pub rotr_32-Rotates : Rotates rotr_32 32
unfolding rotr_32
rotr_32-Rotates = record {
  pair = λ x h. record { lo_lt = omega arith; hi_lt = omega arith };
  word = λ x h. omega (
    arith,
    h.lo_lt,
    h.hi_lt,
    rotr64-split 32 32 (value x) refl (omega (arith, h.lo_lt, h.hi_lt))
        (omega (arith, h.lo_lt, h.hi_lt)),
  );
}

pub rotr_24-Rotates : Rotates rotr_24 24
unfolding rotr_24
rotr_24-Rotates = record {
  pair = λ x h. record {
    lo_lt = omega (arith, h.lo_lt, h.hi_lt, low x h);
    hi_lt = omega (arith, h.lo_lt, h.hi_lt, high x h);
  };
  word = λ x h. omega (
    arith,
    h.lo_lt,
    h.hi_lt,
    low x h,
    high x h,
    rotr64-split 24 40 (value x) refl (omega (arith, h.lo_lt, h.hi_lt))
        (omega (arith, h.lo_lt, h.hi_lt)),
  );
}
  where
    low :
        (x : Pair)
        → IsPair x
        → bit_or (x.lo / 2 ^ 24) (left x.hi 8) ≡ x.hi % 2 ^ 24 * 2 ^ 8 + x.lo / 2 ^ 24
    low x h = join_parts 24 8 x.lo x.hi (omega (arith, h.lo_lt)) (omega arith)

    high :
        (x : Pair)
        → IsPair x
        → bit_or (x.hi / 2 ^ 24) (left x.lo 8) ≡ x.lo % 2 ^ 24 * 2 ^ 8 + x.hi / 2 ^ 24
    high x h = join_parts 24 8 x.hi x.lo (omega (arith, h.hi_lt)) (omega arith)

pub rotr_16-Rotates : Rotates rotr_16 16
unfolding rotr_16
rotr_16-Rotates = record {
  pair = λ x h. record {
    lo_lt = omega (arith, h.lo_lt, h.hi_lt, low x h);
    hi_lt = omega (arith, h.lo_lt, h.hi_lt, high x h);
  };
  word = λ x h. omega (
    arith,
    h.lo_lt,
    h.hi_lt,
    low x h,
    high x h,
    rotr64-split 16 48 (value x) refl (omega (arith, h.lo_lt, h.hi_lt))
        (omega (arith, h.lo_lt, h.hi_lt)),
  );
}
  where
    low :
        (x : Pair)
        → IsPair x
        → bit_or (x.lo / 2 ^ 16) (left x.hi 16) ≡ x.hi % 2 ^ 16 * 2 ^ 16 + x.lo / 2 ^ 16
    low x h = join_parts 16 16 x.lo x.hi (omega (arith, h.lo_lt)) (omega arith)

    high :
        (x : Pair)
        → IsPair x
        → bit_or (x.hi / 2 ^ 16) (left x.lo 16) ≡ x.lo % 2 ^ 16 * 2 ^ 16 + x.hi / 2 ^ 16
    high x h = join_parts 16 16 x.hi x.lo (omega (arith, h.hi_lt)) (omega arith)

pub rotr_63-Rotates : Rotates rotr_63 63
unfolding rotr_63
rotr_63-Rotates = record {
  pair = λ x h. record {
    lo_lt = omega (arith, h.lo_lt, h.hi_lt, low x h);
    hi_lt = omega (arith, h.lo_lt, h.hi_lt, high x h);
  };
  word = λ x h. omega (
    arith,
    h.lo_lt,
    h.hi_lt,
    low x h,
    high x h,
    rotr64-split 63 1 (value x) refl (omega (arith, h.lo_lt, h.hi_lt))
        (omega (arith, h.lo_lt, h.hi_lt)),
  );
}
  where
    low :
        (x : Pair)
        → IsPair x
        → bit_or (left x.lo 1) (x.hi / 2 ^ 31) ≡ x.lo % 2 ^ 31 * 2 ^ 1 + x.hi / 2 ^ 31
    low x h =
        bit_or_comm (left x.lo 1) (x.hi / 2 ^ 31)
        ∙ join_parts 31 1 x.hi x.lo (omega (arith, h.hi_lt)) (omega arith)

    high :
        (x : Pair)
        → IsPair x
        → bit_or (left x.hi 1) (x.lo / 2 ^ 31) ≡ x.hi % 2 ^ 31 * 2 ^ 1 + x.lo / 2 ^ 31
    high x h =
        bit_or_comm (left x.hi 1) (x.lo / 2 ^ 31)
        ∙ join_parts 31 1 x.lo x.hi (omega (arith, h.lo_lt)) (omega arith)
