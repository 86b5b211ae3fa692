-- ===== src/Qr/Encode/Text.antt =====
-- The data codewords of encodeText of web/qr.js, as a reader takes them apart.
use maspassword.Base.{
  ℕ, ◌+◌, ◌-◌, ◌*◌, ◌%◌, ◌^◌, ◌<◌, ◌≤◌, ◌≡◌, inl, inr, sym, ap, ◌∙◌, min, Bool, true, false, not,
  ◌==◌, leb, if◌then◌else◌, Bool-cases, List, [], ◌++◌, length, length-append, All-append, none,
  some, append_assoc, arith,
}
use mathlib.Core.Path.{subst}
use maspassword.Kdbx.Bytes.{Bytes}
use maspassword.Qr.{
  data_codewords, byte_capacity, max_version, push_bits, push_value, to_bytes, push_all, push_pads,
  terminate, to_boundary, find_version, data_bits, interleave, encode_text,
}
use maspassword.Qr.Bits.{BitList, length-push_bits, push_bits-BitList}
use maspassword.Qr.Bits.Bytes.{bits_of, bits_of-to_bytes, read_bits, read_bits-push_bits}
use maspassword.Qr.Encode.{
  read_bytes, count_size, read_text, read_bytes-bits_of, length-bits_of, bits_of-BitList,
  push_all-bits_of, push_pads-Extends,
}
use maspassword.Qr.Encode.Version.{room_bounds, find_version-room}

abbrev head_bits : ℕ → ℕ → List ℕ
head_bits v n = push_bits 4 4 ++ push_bits n (count_size v)

-- What stands before the pads, in whole bytes.
abbrev written : ℕ → List ℕ → List ℕ
written v bytes = (head_bits v (length bytes) ++ bits_of bytes) ++ push_bits 0 4

abbrev head_bytes : ℕ → ℕ
head_bytes v = if leb v 9 then 2 else 3

length-payload :
    (v : ℕ) (bytes : List ℕ)
    → length (head_bits v (length bytes) ++ bits_of bytes) + 4 ≡ (head_bytes v + length bytes) * 8
unfolding count_size
length-payload v bytes = ground (
  arith,
  length-append (head_bits v (length bytes)) (bits_of bytes),
  length-append (push_bits 4 4) (push_bits (length bytes) (count_size v)),
  length-push_bits 4 4,
  length-push_bits (length bytes) (count_size v),
  length-bits_of bytes,
)

length-written :
    (v : ℕ) (bytes : List ℕ) → length (written v bytes) ≡ (head_bytes v + length bytes) * 8
length-written v bytes = omega (
  arith,
  length-append (head_bits v (length bytes) ++ bits_of bytes) (push_bits 0 4),
  length-push_bits 0 4,
  length-payload v bytes,
)

written-BitList : (v : ℕ) (bytes : List ℕ) → BitList (written v bytes)
written-BitList v bytes =
    All-append _ (head_bits v (length bytes) ++ bits_of bytes) (push_bits 0 4)
      (All-append _ (head_bits v (length bytes)) (bits_of bytes)
        (All-append _ (push_bits 4 4) (push_bits (length bytes) (count_size v))
          (push_bits-BitList 4 4) (push_bits-BitList (length bytes) (count_size v)))
        (bits_of-BitList bytes))
      (push_bits-BitList 0 4)

-- With room for the bytes the terminator has its four bits, and nothing is pushed to a boundary.
terminated :
    (v : ℕ) (bytes : List ℕ)
    → head_bytes v + length bytes ≤ data_codewords v
    → to_boundary (
        terminate
          (data_codewords v * 8)
          (push_all (push_value (push_value [] 4 4) (length bytes) (count_size v)) bytes))
      ≡ written v bytes
unfolding terminate to_boundary push_value
terminated v bytes le =
    ap (λ t. to_boundary (terminate (data_codewords v * 8) t))
      (push_all-bits_of (head_bits v (length bytes)) bytes)
    ∙ ap (λ k. to_boundary (payload ++ push_bits 0 k)) four
    ∙ whole
  where
    payload : List ℕ
    payload = head_bits v (length bytes) ++ bits_of bytes

    four : min 4 (data_codewords v * 8 - length payload) ≡ 4
    four = omega (arith, length-payload v bytes)

    whole : to_boundary (written v bytes) ≡ written v bytes
    whole =
        let even : ((length (written v bytes) % 8) == 0) ≡ true =
          ground (arith, length-written v bytes) in
        ap
          (λ (b : Bool).
            if not b
            then written v bytes ++ push_bits 0 (8 - length (written v bytes) % 8)
            else written v bytes)
          even

data_bits-Extends :
    (v : ℕ) (bytes : List ℕ)
    → head_bytes v + length bytes ≤ data_codewords v
    → (extra : List ℕ) × (data_bits v bytes ≡ written v bytes ++ extra)
      × BitList extra
      × (length (data_bits v bytes) ≡ data_codewords v * 8)
unfolding data_bits count_size
data_bits-Extends v bytes le =
    let dc = data_codewords v in
    let (extra, joined, digits, size) =
      push_pads-Extends dc dc (head_bytes v + length bytes) 0 (written v bytes)
        (length-written v bytes) le (omega arith) in
    let start = ap (push_pads dc (dc * 8) 0) (terminated v bytes le) in
    (extra, start ∙ joined, digits, ap length start ∙ size)

-- A reader takes the count and the bytes from the bits of a version.
read_text-written :
    (v : ℕ) (bytes extra codewords : List ℕ)
    → Bytes bytes
    → length bytes < 2 ^ count_size v
    → bits_of codewords ≡ written v bytes ++ extra
    → read_text v codewords ≡ some bytes
unfolding read_text
read_text-written v bytes extra codewords h lt e =
    let n = length bytes in
    let c = count_size v in
    let fill = push_bits 0 4 ++ extra in
    let shape : written v bytes ++ extra
        ≡ push_bits 4 4 ++ (push_bits n c ++ (bits_of bytes ++ fill)) =
      append_assoc (head_bits v n ++ bits_of bytes) (push_bits 0 4) extra
      ∙ append_assoc (head_bits v n) (bits_of bytes) fill
      ∙ append_assoc (push_bits 4 4) (push_bits n c) (bits_of bytes ++ fill) in
    let mode : read_bits 4 (bits_of codewords) ≡ (4, push_bits n c ++ (bits_of bytes ++ fill)) =
      ap (read_bits 4) (e ∙ shape) ∙ read_bits-push_bits 4 4 _ (omega arith) in
    let number : read_bits c (push_bits n c ++ (bits_of bytes ++ fill))
        ≡ (n, bits_of bytes ++ fill) =
      read_bits-push_bits n c _ lt in
    (λ i.
      let (m, rest) = mode i in
      let (k, bits) = read_bits c rest in if m == 4 then some (read_bytes k bits) else none)
    ∙ ap (λ p. some (read_bytes p.0 p.1)) number
    ∙ ap some (read_bytes-bits_of bytes fill h)

byte_capacity-fits :
    (v n : ℕ)
    → 0 < v
    → v ≤ 15
    → n ≤ byte_capacity v
    → (head_bytes v + n ≤ data_codewords v) × (n < 2 ^ count_size v)
unfolding byte_capacity count_size
byte_capacity-fits v n lo hi fits =
    let bounds = room_bounds v lo hi in
    elim (Bool-cases (leb v 9)) [
      | inl small ↦ rw small (ground (arith, bounds, fits), ground (arith, bounds, fits, small))
      | inr large ↦ rw large (ground (arith, bounds, fits), ground (arith, bounds, fits))
    ]

-- A text of at most 412 bytes is encoded, from data codewords that fill the version and from which a reader gets the bytes.
pub encode_text-read_text :
    (bytes : List ℕ)
    → Bytes bytes
    → length bytes ≤ 412
    → (v : ℕ) × (codewords : List ℕ) × (encode_text bytes
        ≡ some (record { version = v; codewords = interleave codewords v }))
      × (0 < v)
      × (v ≤ 15)
      × (length codewords ≡ data_codewords v)
      × (read_text v codewords ≡ some bytes)
unfolding encode_text
encode_text-read_text bytes h le =
    let v = find_version max_version 1 (length bytes) in
    let (lo, hi, fits) = find_version-room (length bytes) le in
    let (room, short) = byte_capacity-fits v (length bytes) lo hi fits in
    let (extra, joined, digits, size) = data_bits-Extends v bytes room in
    let all : BitList (data_bits v bytes) =
      subst BitList (sym joined)
        (All-append _ (written v bytes) extra (written-BitList v bytes) digits) in
    let (full, back) = bits_of-to_bytes (data_codewords v) (data_bits v bytes) all size in
    let given : (v == 0) ≡ false = ground (arith, lo) in
    (
      v,
      to_bytes (data_bits v bytes),
      ap
          (λ (b : Bool).
            if b
            then none
            else some
                (record { version = v; codewords = interleave (to_bytes (data_bits v bytes)) v }))
          given,
      lo,
      hi,
      full,
      read_text-written v bytes extra (to_bytes (data_bits v bytes)) h short (back ∙ joined),
    )
