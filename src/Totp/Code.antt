-- ===== src/Totp/Code.antt =====
-- The counter and the truncated HMAC as numbers.
use Prim.Native.Nat.{bit_and, bit_or}
use maspassword.Base.{
  ℕ, zero, suc, ◌+◌, ◌-◌, ◌*◌, ◌/◌, ◌%◌, ◌^◌, ◌<◌, ◌≡◌, refl, ap, ◌∙◌, List, [], ◌∷◌, length,
  get_or, All, arith,
}
use maspassword.Base.Bits.{bit_and_mask, bit_or_fields}
use maspassword.Totp.{counter_loop, counter_bytes, truncated}
use maspassword.Totp.Base32.{in_base}

-- Four fields of a 32-bit word.
four_fields :
    (a b c d : ℕ)
    → b < 256
    → c < 256
    → d < 256
    → bit_or (bit_or (bit_or (a * 2 ^ 24) (b * 2 ^ 16)) (c * 2 ^ 8)) d
      ≡ ((a * 256 + b) * 256 + c) * 256 + d
four_fields a b c d hb hc hd =
    ap (λ t. bit_or (bit_or t (c * 2 ^ 8)) d) (bit_or_fields 24 a (b * 2 ^ 16) (omega arith) ∙ two)
    ∙ ap (λ t. bit_or t d) (bit_or_fields 16 (a * 256 + b) (c * 2 ^ 8) (omega arith) ∙ three)
    ∙ bit_or_fields 8 ((a * 256 + b) * 256 + c) d hd
  where
    two : a * 2 ^ 24 + b * 2 ^ 16 ≡ (a * 256 + b) * 2 ^ 16
    two = omega arith

    three : (a * 256 + b) * 2 ^ 16 + c * 2 ^ 8 ≡ ((a * 256 + b) * 256 + c) * 2 ^ 8
    three = omega arith

abbrev pub offset_of : List ℕ → ℕ
offset_of sig = get_or sig (length sig - 1) 0 % 16

-- The truncated HMAC is the big-endian number of the four bytes from the offset on, without its
-- highest bit; the offset is the lower half of the last byte; for an HMAC of bytes.
truncated_word :
    (sig : List ℕ)
    → All (λ b. b < 256) sig
    → truncated sig
      ≡ in_base 256 0 (
          get_or sig (offset_of sig) 0
          ∷ get_or sig (offset_of sig + 1) 0
          ∷ get_or sig (offset_of sig + 2) 0
          ∷ get_or sig (offset_of sig + 3) 0
          ∷ [])
        % 2 ^ 31
unfolding truncated
truncated_word sig h =
    rw
      (
        bit_and_mask 4 (get_or sig (length sig - 1) 0),
        bit_and_mask 7 (get_or sig (offset_of sig) 0),
        bit_and_mask 8 (get_or sig (offset_of sig + 1) 0),
        bit_and_mask 8 (get_or sig (offset_of sig + 2) 0),
        bit_and_mask 8 (get_or sig (offset_of sig + 3) 0),
      )
      (four_fields (get_or sig (offset_of sig) 0 % 2 ^ 7) _ _ _ (omega arith) (omega arith)
          (omega arith)
        ∙ omega (
          arith,
          byte (offset_of sig),
          byte (offset_of sig + 1),
          byte (offset_of sig + 2),
          byte (offset_of sig + 3),
        ))
  where
    at_most : (s : List ℕ) (i : ℕ) → All (λ b. b < 256) s → get_or s i 0 < 256
    at_most [] i h = omega arith
    at_most (x ∷ s) zero h = h.0
    at_most (x ∷ s) (suc i) h = at_most s i h.1

    byte : (i : ℕ) → get_or sig i 0 < 256
    byte i = at_most sig i h

-- counterBytes writes the counter, modulo 2^64, in eight bytes, the first the highest.
counter_bytes_number :
    (c : ℕ) → (in_base 256 0 (counter_bytes c) ≡ c % 2 ^ 64) × (length (counter_bytes c) ≡ 8)
unfolding counter_bytes counter_loop
counter_bytes_number c = (
  omega (
    arith,
    low c,
    low (c / 256),
    low (c / 256 / 256),
    low (c / 256 / 256 / 256),
    low (c / 256 / 256 / 256 / 256),
    low (c / 256 / 256 / 256 / 256 / 256),
    low (c / 256 / 256 / 256 / 256 / 256 / 256),
    low (c / 256 / 256 / 256 / 256 / 256 / 256 / 256),
  ),
  refl,
)
  where
    low : (n : ℕ) → bit_and n 0xff ≡ n % 256
    low n = bit_and_mask 8 n
