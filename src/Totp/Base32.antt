-- ===== src/Totp/Base32.antt =====
-- base32Decode gives the bytes of the number that the digits write.
use Prim.Native.Nat.{bit_and, bit_or}
use native.Mathlib.Decide.{dec_le}
use maspassword.Base.{
  ℕ, zero, suc, ◌+◌, ◌-◌, ◌*◌, ◌/◌, ◌%◌, ◌^◌, ◌<◌, true, false, ◌≡◌, refl, sym, ap, ◌∙◌, Option,
  none, some, List, [], ◌∷◌, Text, length, leb, ◌==◌, Bool-cases, inl, inr, All, arith,
}
use maspassword.Base.Bits.{bit_and_mask, bit_or_fields}
use maspassword.Totp.{place_of, b32_alphabet, indices, clean, decode_from, base32_decode}

-- A number from its digits, the first the highest, behind those of `n`.
abbrev pub in_base : ℕ → ℕ → List ℕ → ℕ
in_base base n [] = n
in_base base n (d ∷ digits) = in_base base (n * base + d) digits

-- The value behind a digit.
next_value : ℕ → ℕ → ℕ
next_value v idx = bit_or (v * 2 ^ 5 % 2 ^ 32) idx

next_value-sum : (v idx : ℕ) → idx < 32 → next_value v idx ≡ v % 134217728 * 32 + idx
unfolding next_value
next_value-sum v idx lt =
    let fields : v * 2 ^ 5 % 2 ^ 32 ≡ v % 134217728 * 2 ^ 5 = omega arith in
    ap (λ t. bit_or t idx) fields ∙ bit_or_fields 5 (v % 134217728) idx lt

-- The digits that are in no byte yet are the low bits of the value.
no_byte :
    (b o v w idx : ℕ)
    → b < 3
    → idx < 32
    → w ≡ v % 134217728 * 32 + idx
    → (o * 2 ^ b + v % 2 ^ b) * 32 + idx ≡ o * 2 ^ (b + 5) + w % 2 ^ (b + 5)
no_byte zero o v w idx h lt e = omega arith
no_byte (suc zero) o v w idx h lt e = omega arith
no_byte (suc (suc zero)) o v w idx h lt e = omega arith
no_byte (suc (suc (suc b))) o v w idx h lt e = absurd (omega arith)

one_byte :
    (k o v w idx : ℕ)
    → k < 5
    → idx < 32
    → w ≡ v % 134217728 * 32 + idx
    → (o * 2 ^ (3 + k) + v % 2 ^ (3 + k)) * 32 + idx
      ≡ (o * 256 + w / 2 ^ k % 2 ^ 8) * 2 ^ k + w % 2 ^ k
one_byte zero o v w idx h lt e = omega arith
one_byte (suc zero) o v w idx h lt e = omega arith
one_byte (suc (suc zero)) o v w idx h lt e = omega arith
one_byte (suc (suc (suc zero))) o v w idx h lt e = omega arith
one_byte (suc (suc (suc (suc zero)))) o v w idx h lt e = omega arith
one_byte (suc (suc (suc (suc (suc k))))) o v w idx h lt e = absurd (omega arith)

leftover : (b o v : ℕ) → b < 8 → (o * 2 ^ b + v % 2 ^ b) / 2 ^ b ≡ o
leftover zero o v h = omega arith
leftover (suc zero) o v h = omega arith
leftover (suc (suc zero)) o v h = omega arith
leftover (suc (suc (suc zero))) o v h = omega arith
leftover (suc (suc (suc (suc zero)))) o v h = omega arith
leftover (suc (suc (suc (suc (suc zero))))) o v h = omega arith
leftover (suc (suc (suc (suc (suc (suc zero)))))) o v h = omega arith
leftover (suc (suc (suc (suc (suc (suc (suc zero))))))) o v h = omega arith
leftover (suc (suc (suc (suc (suc (suc (suc (suc b)))))))) o v h = absurd (omega arith)

-- The loop with `b` bits of `v` left over, behind bytes of value `o`.
record Decodes (b v o : ℕ) (digits : List ℕ) : Type 0 where
  number :
      in_base 256 o (decode_from (record { bits = b; value = v }) digits)
      ≡ in_base 32 (o * 2 ^ b + v % 2 ^ b) digits / 2 ^ ((b + 5 * length digits) % 8)
  size : length (decode_from (record { bits = b; value = v }) digits) ≡ (b + 5 * length digits) / 8

decode_from-Decodes :
    (digits : List ℕ) (b v o : ℕ) → b < 8 → All (λ d. d < 32) digits → Decodes b v o digits
unfolding decode_from next_value
decode_from-Decodes [] b v o lt h = record {
  number =
      let bits : (b + 5 * 0) % 8 ≡ b = omega arith in
      sym (ap (λ k. (o * 2 ^ b + v % 2 ^ b) / 2 ^ k) bits ∙ leftover b o v lt);
  size = omega arith;
}
decode_from-Decodes (d ∷ digits) b v o lt h = elim (dec_le 8 (b + 5)) [
  | yes full ↦
      let out : leb 8 (b + 5) ≡ true = ground arith in
      let byte : bit_and (w / 2 ^ (b + 5 - 8)) 0xff ≡ w / 2 ^ k % 2 ^ 8 =
        ap (λ j. bit_and (w / 2 ^ j) 0xff) (omega arith) ∙ bit_and_mask 8 (w / 2 ^ k) in
      let r = decode_from-Decodes digits k w (o * 256 + w / 2 ^ k % 2 ^ 8) (omega arith) h.1 in
      let bits : b + 5 - 8 ≡ k = omega arith in
      let same : b ≡ 3 + k = omega arith in
      let sum : (k + 5 * length digits) + 8 ≡ b + 5 * length (d ∷ digits) = omega arith in
      let left : (k + 5 * length digits) % 8 ≡ (b + 5 * length (d ∷ digits)) % 8 = omega arith in
      let start : (o * 256 + w / 2 ^ k % 2 ^ 8) * 2 ^ k + w % 2 ^ k
          ≡ (o * 2 ^ b + v % 2 ^ b) * 32 + d =
        sym (
          ap (λ j. (o * 2 ^ j + v % 2 ^ j) * 32 + d) same
          ∙ one_byte k o v w d (omega arith) h.0 (next_value-sum v d h.0)) in
      record {
        number = rw (out, byte, bits) (r.number ∙ λ i. in_base 32 (start i) digits / 2 ^ left i);
        size = rw (out, bits) (omega (arith, r.size));
      }
  | no room ↦
      let out : leb 8 (b + 5) ≡ false = ground arith in
      let r = decode_from-Decodes digits (b + 5) w o (omega arith) h.1 in
      let total : b + 5 + 5 * length digits ≡ b + 5 * length (d ∷ digits) = omega arith in
      record {
        number = rw out (
            r.number ∙ λ i.
            in_base 32 (sym (no_byte b o v w d (omega arith) h.0 (next_value-sum v d h.0)) i) digits
            / 2 ^ (total i % 8));
        size = rw out (r.size ∙ ap (λ n. n / 8) total);
      }
]
  where
    w : ℕ
    w = next_value v d

    k : ℕ
    k = b - 3

place_of-lt : (c : ℕ) (s : Text) (i : ℕ) → place_of c s ≡ some i → i < length s
unfolding place_of
place_of-lt c [] i e = absurd (ground arith)
place_of-lt c (d ∷ s) i e = elim (Bool-cases (d == c)) [
  | inl here ↦ ground arith
  | inr there ↦ later (place_of-lt c s) (place_of c s) refl (rw there at e)
]
  where
    later :
        ((j : ℕ) → place_of c s ≡ some j → j < length s)
        → (p : Option ℕ) → place_of c s ≡ p
        → elim (place_of c s) [ none ↦ none | some j ↦ some (suc j) ] ≡ some i
        → i < suc (length s)
    later below none e' h = absurd (ground arith)
    later below (some j) e' h = let lt = below j e' in ground arith

indices_small : (s : Text) → All (λ d. d < 32) (indices s)
unfolding indices
indices_small [] = tt
indices_small (c ∷ s) = at_place (indices_small s) (place_of c b32_alphabet) refl
  where
    at_place :
        All (λ d. d < 32) (indices s)
        → (p : Option ℕ) → place_of c b32_alphabet ≡ p
        → All (λ d. d < 32) (elim p [ none ↦ indices s | some i ↦ i ∷ indices s ])
    at_place rest none e = rest
    at_place rest (some i) e = (place_of-lt c b32_alphabet i e, rest)

-- The bytes of base32Decode, the first the highest, write the number that the digits of the cleaned
-- text write in base 32, without the bits that fill no byte; there are as many bytes as fit in five
-- bits for each digit.
pub base32_decode_number :
    (upper : Text → Text) (str : Text)
    → (in_base 256 0 (base32_decode upper str)
        ≡ in_base 32 0 (indices (clean (upper str)))
          / 2 ^ (5 * length (indices (clean (upper str))) % 8))
      × (length (base32_decode upper str) ≡ 5 * length (indices (clean (upper str))) / 8)
unfolding base32_decode
base32_decode_number upper str =
    let digits = indices (clean (upper str)) in
    let d = decode_from-Decodes digits 0 0 0 (omega arith) (indices_small (clean (upper str))) in
    let bits : 0 + 5 * length (indices (clean (upper str)))
        ≡ 5 * length (indices (clean (upper str))) =
      omega arith in
    (
      d.number ∙ ap (λ n. in_base 32 0 (indices (clean (upper str))) / 2 ^ (n % 8)) bits,
      d.size ∙ ap (λ n. n / 8) bits,
    )
