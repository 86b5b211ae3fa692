-- ===== src/Qr/Encode.antt =====
-- encodeText of web/qr.js: its data codewords fill the version, and hold the bytes of the text.
pub mod Version
pub mod Text
use maspassword.Base.{
  ℕ, zero, suc, ◌+◌, ◌-◌, ◌*◌, ◌/◌, ◌%◌, ◌^◌, ◌<◌, ◌≤◌, ◌≡◌, ◌⊎◌, inl, inr, refl, sym, ap, ◌∙◌, min,
  Bool, true, false, not, ◌==◌, ltb, leb, if◌then◌else◌, Bool-cases, List, [], ◌∷◌, ◌++◌, length,
  length-append, get_or, All, All-append, Option, none, some, append_assoc, append-nil, arith,
}
use maspassword.Kdbx.Bytes.{Bytes}
use maspassword.Qr.{
  VersionRow, versions, blocks_in, max_version, data_codewords, byte_capacity, push_bits,
  push_value, to_bytes, find_version, push_all, push_pads, terminate, to_boundary, data_bits,
  interleave, Encoded, encode_text,
}
use maspassword.Qr.Bits.{BitList, length-push_bits, push_bits-BitList}
use maspassword.Qr.Bits.Bytes.{bits_of, bits_of-to_bytes, read_bits, read_bits-push_bits}

-- A reader of the data codewords: the mode, the number of bytes, then the bytes.
unfoldable pub read_bytes : ℕ → List ℕ → List ℕ
read_bytes zero bits = []
read_bytes (suc n) bits = let (b, rest) = read_bits 8 bits in b ∷ read_bytes n rest

unfoldable pub count_size : ℕ → ℕ
count_size version = if leb version 9 then 8 else 16

unfoldable pub read_text : ℕ → List ℕ → Option (List ℕ)
read_text version codewords =
    let (mode, rest) = read_bits 4 (bits_of codewords) in
    let (n, bits) = read_bits (count_size version) rest in
    if mode == 4 then some (read_bytes n bits) else none

pub read_bytes-bits_of :
    (bytes rest : List ℕ) → Bytes bytes → read_bytes (length bytes) (bits_of bytes ++ rest) ≡ bytes
unfolding read_bytes bits_of
read_bytes-bits_of [] rest h = refl
read_bytes-bits_of (b ∷ bytes) rest h =
    let got =
      ap (read_bits 8) (append_assoc (push_bits b 8) (bits_of bytes) rest)
      ∙ read_bits-push_bits b 8 (bits_of bytes ++ rest) (omega (arith, h.0)) in
    ap (λ p. p.0 ∷ read_bytes (length bytes) p.1) got
    ∙ ap (λ t. b ∷ t) (read_bytes-bits_of bytes rest h.1)

-- What the pushes make.
pub length-bits_of : (bytes : List ℕ) → length (bits_of bytes) ≡ length bytes * 8
unfolding bits_of
length-bits_of [] = refl
length-bits_of (b ∷ bytes) = omega (
  arith,
  length-append (push_bits b 8) (bits_of bytes),
  length-push_bits b 8,
  length-bits_of bytes,
)

pub bits_of-BitList : (bytes : List ℕ) → BitList (bits_of bytes)
unfolding bits_of
bits_of-BitList [] = tt
bits_of-BitList (b ∷ bytes) =
    All-append _ (push_bits b 8) (bits_of bytes) (push_bits-BitList b 8) (bits_of-BitList bytes)

pub push_all-bits_of : (bits bytes : List ℕ) → push_all bits bytes ≡ bits ++ bits_of bytes
unfolding push_all push_value bits_of
push_all-bits_of bits [] = sym (append-nil bits)
push_all-bits_of bits (b ∷ bytes) =
    push_all-bits_of (bits ++ push_bits b 8) bytes
    ∙ append_assoc bits (push_bits b 8) (bits_of bytes)

-- Bits that start with `bits`.
abbrev pub Extends : List ℕ → ℕ → List ℕ → Type 0
Extends bits size all =
    (extra : List ℕ) × (all ≡ bits ++ extra) × BitList extra × (length all ≡ size)

pub push_pads-Extends :
    (fuel d k i : ℕ) (bits : List ℕ)
    → length bits ≡ k * 8
    → k ≤ d
    → d ≤ k + fuel
    → Extends bits (d * 8) (push_pads fuel (d * 8) i bits)
unfolding push_pads push_value
push_pads-Extends zero d k i bits e le room = ([], sym (append-nil bits), tt, omega (arith, e))
push_pads-Extends (suc fuel) d k i bits e le room = elim (Bool-cases (ltb (length bits) (d * 8))) [
  | inr full ↦ rw full ([], sym (append-nil bits), tt, ground arith)
  | inl more ↦
      let pad = push_bits (if i % 2 == 0 then 0xec else 0x11) 8 in
      let (extra, joined, digits, size) =
        push_pads-Extends fuel d (suc k) (suc i) (bits ++ pad)
          (omega (
            arith,
            e,
            length-append bits pad,
            length-push_bits (if i % 2 == 0 then 0xec else 0x11) 8,
          ))
          (ground arith) (omega arith) in
      rw more (
        pad ++ extra,
        joined ∙ append_assoc bits pad extra,
        All-append _ pad extra (push_bits-BitList (if i % 2 == 0 then 0xec else 0x11) 8) digits,
        size,
      )
]
