-- ===== src/WebAuthn/Cbor/Head.antt =====
-- The head of a CBOR item, written by cborHead of extension/webauthn.js and read.
use maspassword.Base.{
  ℕ, ◌+◌, ◌*◌, ◌/◌, ◌%◌, ◌^◌, ◌≤◌, ◌<◌, ◌≡◌, refl, ap, ◌∙◌, true, Option, none, some, List, [], ◌∷◌,
  ◌++◌, ltb, leb, ◌==◌, if◌then◌else◌, Bool-cases, inl, inr, arith,
}
use Prim.Native.Nat.{bit_or, bit_and}
use maspassword.Base.Bits.{bit_or_fields, bit_and_mask}
use maspassword.WebAuthn.{cbor_head}

-- The number in the bytes behind the first one.
abbrev one_byte : ℕ → List ℕ → Option (ℕ × ℕ × List ℕ)
one_byte major (a ∷ rest) = some (major, a, rest)
one_byte major _ = none

abbrev two_bytes : ℕ → List ℕ → Option (ℕ × ℕ × List ℕ)
two_bytes major (a ∷ b ∷ rest) = some (major, a * 256 + b, rest)
two_bytes major _ = none

abbrev four_bytes : ℕ → List ℕ → Option (ℕ × ℕ × List ℕ)
four_bytes major (a ∷ b ∷ c ∷ d ∷ rest) = some (major, ((a * 256 + b) * 256 + c) * 256 + d, rest)
four_bytes major _ = none

abbrev read_number : ℕ → ℕ → List ℕ → Option (ℕ × ℕ × List ℕ)
read_number major low rest =
    if ltb low 24
    then some (major, low, rest)
    else if low == 24
    then one_byte major rest
    else if low == 25
    then two_bytes major rest
    else if low == 26
    then four_bytes major rest
    else none

unfoldable pub read_head : List ℕ → Option (ℕ × ℕ × List ℕ)
read_head [] = none
read_head (b ∷ rest) = read_number (b / 32) (b % 32) rest

-- The first byte is taken apart.
first_byte :
    (major low : ℕ) (rest : List ℕ)
    → low < 32
    → read_head (bit_or (major * 2 ^ 5) low ∷ rest) ≡ read_number major low rest
unfolding read_head
first_byte major low rest lt =
    let byte : bit_or (major * 2 ^ 5) low ≡ major * 32 + low =
      bit_or_fields 5 major low (omega arith) in
    let high : bit_or (major * 2 ^ 5) low / 32 ≡ major = omega (arith, byte) in
    let rem : bit_or (major * 2 ^ 5) low % 32 ≡ low = omega (arith, byte) in
    λ i. read_number (high i) (rem i) rest

small_number :
    (major low : ℕ) (rest : List ℕ)
    → ltb low 24 ≡ true
    → read_number major low rest ≡ some (major, low, rest)
small_number major low rest e = rw e refl

-- A head of a number of up to 32 bits is read as its type and number.
pub read_head-cbor_head :
    (major n : ℕ)
    → n ≤ 0xffffffff
    → (hs : List ℕ) × (cbor_head major n ≡ some hs)
      × ((rest : List ℕ) → read_head (hs ++ rest) ≡ some (major, n, rest))
unfolding cbor_head
read_head-cbor_head major n le = elim (Bool-cases (ltb n 24)) [
  | inl small ↦ rw small (
    bit_or (major * 2 ^ 5) n ∷ [],
    refl,
    λ rest. first_byte major n rest (ground arith) ∙ small_number major n rest small,
  )
  | inr big ↦ elim (Bool-cases (leb n 0xff)) [
    | inl one ↦
        rw (big, one)
          (
            bit_or (major * 2 ^ 5) 24 ∷ n ∷ [],
            refl,
            λ rest. first_byte major 24 (n ∷ rest) (omega arith),
          )
    | inr more ↦ elim (Bool-cases (leb n 0xffff)) [
      | inl two ↦
          rw (big, more, two)
            (
              bit_or (major * 2 ^ 5) 25 ∷ n / 2 ^ 8 ∷ bit_and n 0xff ∷ [],
              refl,
              λ rest.
                  first_byte major 25 (n / 2 ^ 8 ∷ bit_and n 0xff ∷ rest) (omega arith)
                  ∙ ap (λ k. some (major, k, rest)) (omega (arith, bit_and_mask 8 n)),
            )
      | inr long ↦
          let fits : leb n 0xffffffff ≡ true = ground arith in
          rw (big, more, long, fits)
            (
              bit_or (major * 2 ^ 5) 26
                  ∷ bit_and (n / 2 ^ 24) 0xff
                  ∷ bit_and (n / 2 ^ 16) 0xff
                  ∷ bit_and (n / 2 ^ 8) 0xff
                  ∷ bit_and n 0xff
                  ∷ [],
              refl,
              λ rest.
                  first_byte major 26
                    (bit_and (n / 2 ^ 24) 0xff
                      ∷ bit_and (n / 2 ^ 16) 0xff
                      ∷ bit_and (n / 2 ^ 8) 0xff
                      ∷ bit_and n 0xff
                      ∷ rest)
                    (omega arith)
                  ∙ ap (λ k. some (major, k, rest))
                      (omega (
                        arith,
                        bit_and_mask 8 (n / 2 ^ 24),
                        bit_and_mask 8 (n / 2 ^ 16),
                        bit_and_mask 8 (n / 2 ^ 8),
                        bit_and_mask 8 n,
                      )),
            )
    ]
  ]
]

-- Larger numbers are refused.
pub cbor_head-none : (major n : ℕ) → 0xffffffff < n → cbor_head major n ≡ none
unfolding cbor_head
cbor_head-none major n lt = ground arith
