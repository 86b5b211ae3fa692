-- ===== src/Qr/Bits/Bytes.antt =====
-- The bytes of the bit buffer of web/qr.js: they hold its bits, and a reader takes numbers from them.
use maspassword.Base.{
  ℕ, zero, suc, ◌+◌, ◌*◌, ◌/◌, ◌^◌, ◌<◌, ◌≡◌, refl, sym, ap, ◌∙◌, List, [], ◌∷◌, ◌++◌, length, take,
  drop, length-append, replicate, append_assoc, arith,
}
use maspassword.Qr.{push_bits, or_bits, to_bytes}
use maspassword.Qr.Bits.{
  BitList, number, length-push_bits, push_bits-number, number-push_bits, fill_byte,
}

-- Bits cut into the first `k` and the others.
record Cut (k m : ℕ) (bits : List ℕ) : Type 0 where
  first : List ℕ
  others : List ℕ
  joined : bits ≡ first ++ others
  length_first : length first ≡ k
  length_others : length others ≡ m
  first_bits : BitList first
  other_bits : BitList others

Cut-bits : (k m : ℕ) (bits : List ℕ) → BitList bits → length bits ≡ k + m → Cut k m bits
Cut-bits zero m bits h e = record {
  first = [];
  others = bits;
  joined = refl;
  length_first = refl;
  length_others = omega (arith, e);
  first_bits = tt;
  other_bits = h;
}
Cut-bits (suc k) m [] h e = absurd (omega arith)
Cut-bits (suc k) m (b ∷ bits) h e =
    let c = Cut-bits k m bits h.1 (omega (arith, e)) in
    record {
      first = b ∷ c.first;
      others = c.others;
      joined = ap (λ t. b ∷ t) c.joined;
      length_first = ap suc c.length_first;
      length_others = c.length_others;
      first_bits = (h.0, c.first_bits);
      other_bits = c.other_bits;
    }

-- The bits of bytes.
unfoldable pub bits_of : List ℕ → List ℕ
bits_of [] = []
bits_of (b ∷ bytes) = push_bits b 8 ++ bits_of bytes

-- What the loop writes for the bits of `n` bytes.
or_bits_bytes :
    (n i : ℕ) (bits out : List ℕ)
    → BitList bits
    → length bits ≡ n * 8
    → i ≡ length out * 8
    → (bytes : List ℕ) × (or_bits bits i (out ++ replicate n 0) ≡ out ++ bytes)
      × (length bytes ≡ n)
      × (bits_of bytes ≡ bits)
unfolding or_bits bits_of
or_bits_bytes zero i [] out h e p = ([], refl, refl, refl)
or_bits_bytes zero i (b ∷ bits) out h e p = absurd (omega arith)
or_bits_bytes (suc n) i bits out h e p =
    let c = Cut-bits 8 (n * 8) bits h (omega (arith, e)) in
    let byte = number c.first in
    let (bytes, written, size, back) =
      or_bits_bytes n (length out * 8 + 8) c.others (out ++ byte ∷ []) c.other_bits c.length_others
        (omega (arith, length-append out (byte ∷ []))) in
    let one_byte : or_bits (c.first ++ c.others) i (out ++ 0 * 2 ^ length c.first ∷ replicate n 0)
        ≡ or_bits c.others (length out * 8 + 8)
            (out ++ (0 * 2 ^ length c.first + byte) ∷ replicate n 0) =
      fill_byte c.first c.others out (replicate n 0) 0 i c.first_bits
        (omega (arith, p, c.length_first)) (omega (arith, c.length_first)) in
    let empty : 0 ≡ 0 * 2 ^ length c.first = omega arith in
    let full : 0 * 2 ^ length c.first + byte ≡ byte = omega arith in
    (
      byte ∷ bytes,
      (λ j. or_bits (c.joined j) i (out ++ empty j ∷ replicate n 0))
          ∙ one_byte
          ∙ ap (λ t. or_bits c.others (length out * 8 + 8) (out ++ t ∷ replicate n 0)) full
          ∙ ap (or_bits c.others (length out * 8 + 8))
              (sym (append_assoc out (byte ∷ []) (replicate n 0)))
          ∙ written
          ∙ append_assoc out (byte ∷ []) bytes,
      ap suc size,
      (λ j. push_bits byte (sym c.length_first j) ++ back j)
          ∙ ap (λ t. t ++ c.others) (push_bits-number c.first c.first_bits)
          ∙ sym c.joined,
    )

pub bits_of-to_bytes :
    (n : ℕ) (bits : List ℕ)
    → BitList bits
    → length bits ≡ n * 8
    → (length (to_bytes bits) ≡ n) × (bits_of (to_bytes bits) ≡ bits)
unfolding to_bytes
bits_of-to_bytes n bits h e =
    let (bytes, written, size, back) = or_bits_bytes n 0 bits [] h e (omega arith) in
    let room : (length bits + 7) / 8 ≡ n = omega (arith, e) in
    let same : to_bytes bits ≡ bytes = ap (λ t. or_bits bits 0 (replicate t 0)) room ∙ written in
    (ap length same ∙ size, ap bits_of same ∙ back)

-- A reader of `n` bits.
unfoldable pub read_bits : ℕ → List ℕ → ℕ × List ℕ
read_bits n bits = (number (take n bits), drop n bits)

first_bits :
    (n : ℕ) (xs ys : List ℕ) → length xs ≡ n → (take n (xs ++ ys) ≡ xs) × (drop n (xs ++ ys) ≡ ys)
first_bits zero [] ys e = (refl, refl)
first_bits zero (x ∷ xs) ys e = absurd (omega arith)
first_bits (suc n) [] ys e = absurd (omega arith)
first_bits (suc n) (x ∷ xs) ys e =
    let ih = first_bits n xs ys (omega arith) in (ap (λ t. x ∷ t) ih.0, ih.1)

pub read_bits-push_bits :
    (v n : ℕ) (rest : List ℕ) → v < 2 ^ n → read_bits n (push_bits v n ++ rest) ≡ (v, rest)
unfolding read_bits
read_bits-push_bits v n rest lt =
    let (taken, left) = first_bits n (push_bits v n) rest (length-push_bits v n) in
    λ i. ((ap number taken ∙ number-push_bits v n lt) i, left i)
