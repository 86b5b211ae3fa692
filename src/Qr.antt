-- ===== src/Qr.antt =====
-- The table of the versions, the bit buffer, encodeText and interleave of web/qr.js.
pub mod Code
pub mod Bits
pub mod Encode
pub mod Interleave
pub mod Symbol
pub mod Matrix
mod Tests
use maspassword.Base.{
  ℕ, zero, suc, ◌+◌, ◌-◌, ◌*◌, ◌/◌, ◌%◌, ◌^◌, min, max, Bool, true, false, not, ◌||◌, ◌==◌, ltb,
  leb, if◌then◌else◌, List, [], ◌∷◌, ◌++◌, map, Option, none, some, length, get_or, set, take, drop,
  replicate,
}
use Prim.Native.Nat.{bit_xor, bit_or}
use maspassword.Qr.Code.{rs_remainder}

pub record VersionRow : Type 0 where
  total : ℕ
  ecc : ℕ
  g1n : ℕ
  g1d : ℕ
  g2n : ℕ
  g2d : ℕ

abbrev blocks_of : ℕ → ℕ → ℕ → ℕ → ℕ → ℕ → VersionRow
blocks_of t e a b c d = record { total = t; ecc = e; g1n = a; g1d = b; g2n = c; g2d = d }

-- No version has the number 0, whose entry is empty.
abbrev pub versions : List VersionRow
versions =
    blocks_of 0 0 0 0 0 0
    ∷ blocks_of 26 10 1 16 0 0
    ∷ blocks_of 44 16 1 28 0 0
    ∷ blocks_of 70 26 1 44 0 0
    ∷ blocks_of 100 18 2 32 0 0
    ∷ blocks_of 134 24 2 43 0 0
    ∷ blocks_of 172 16 4 27 0 0
    ∷ blocks_of 196 18 4 31 0 0
    ∷ blocks_of 242 22 2 38 2 39
    ∷ blocks_of 292 22 3 36 2 37
    ∷ blocks_of 346 26 4 43 1 44
    ∷ blocks_of 404 30 1 50 4 51
    ∷ blocks_of 466 22 6 36 2 37
    ∷ blocks_of 532 22 8 37 1 38
    ∷ blocks_of 581 24 4 40 5 41
    ∷ blocks_of 655 24 5 41 5 42
    ∷ []

abbrev pub blocks_in : ℕ → VersionRow
blocks_in v = get_or versions v (blocks_of 0 0 0 0 0 0)

abbrev pub max_version : ℕ
max_version = 15

unfoldable pub data_codewords : ℕ → ℕ
data_codewords v = let b = blocks_in v in b.g1n * b.g1d + b.g2n * b.g2d

unfoldable pub byte_capacity : ℕ → ℕ
byte_capacity v = data_codewords v - (if leb v 9 then 2 else 3)

-- BitBuffer: `push` writes the digits from `2 ^ (length - 1)` down behind the bits that it has.
unfoldable pub push_bits : ℕ → ℕ → List ℕ
push_bits value zero = []
push_bits value (suc i) = value / 2 ^ i % 2 ∷ push_bits value i

unfoldable pub push_value : List ℕ → ℕ → ℕ → List ℕ
push_value bits value n = bits ++ push_bits value n

unfoldable pub or_bits : List ℕ → ℕ → List ℕ → List ℕ
or_bits [] i out = out
or_bits (bit ∷ bits) i out =
    or_bits bits (suc i) (set out (i / 8) (bit_or (get_or out (i / 8) 0) (bit * 2 ^ (7 - i % 8))))

unfoldable pub to_bytes : List ℕ → List ℕ
to_bytes bits = or_bits bits 0 (replicate ((length bits + 7) / 8) 0)

-- The first version, from `v` on, that has room for `n` bytes; 0 if none has.
unfoldable pub find_version : ℕ → ℕ → ℕ → ℕ
find_version zero v n = 0
find_version (suc fuel) v n =
    let rest = find_version fuel (suc v) n in if leb n (byte_capacity v) then v else rest

unfoldable pub push_all : List ℕ → List ℕ → List ℕ
push_all bits [] = bits
push_all bits (b ∷ bytes) = push_all (push_value bits b 8) bytes

-- The loop that fills the capacity, `size` bits, from pad number `i` on.
unfoldable pub push_pads : ℕ → ℕ → ℕ → List ℕ → List ℕ
push_pads zero size i bits = bits
push_pads (suc fuel) size i bits =
    let rest =
      push_pads fuel size (suc i) (push_value bits (if i % 2 == 0 then 0xec else 0x11) 8) in
    if ltb (length bits) size then rest else bits

unfoldable pub terminate : ℕ → List ℕ → List ℕ
terminate size bits = push_value bits 0 (min 4 (size - length bits))

unfoldable pub to_boundary : List ℕ → List ℕ
to_boundary bits =
    if not (length bits % 8 == 0) then push_value bits 0 (8 - length bits % 8) else bits

-- The bits of `bytes` in a version, with the fill.
unfoldable pub data_bits : ℕ → List ℕ → List ℕ
data_bits version bytes =
    let size = data_codewords version * 8 in
    let head = push_value (push_value [] 4 4) (length bytes) (if leb version 9 then 8 else 16) in
    push_pads (data_codewords version) size 0 (to_boundary (terminate size (push_all head bytes)))

-- The blocks of one group.
unfoldable pub group_blocks : ℕ → ℕ → List ℕ → List (List ℕ)
group_blocks zero size bytes = []
group_blocks (suc n) size bytes = take size bytes ∷ group_blocks n size (drop size bytes)

-- The items that the blocks have at `i`.
unfoldable pub column : ℕ → List (List ℕ) → List ℕ
column i [] = []
column i (b ∷ blocks) = if ltb i (length b) then get_or b i 0 ∷ column i blocks else column i blocks

unfoldable pub columns : ℕ → ℕ → List (List ℕ) → List ℕ
columns zero i blocks = []
columns (suc n) i blocks = column i blocks ++ columns n (suc i) blocks

abbrev pub block_list : List ℕ → ℕ → List (List ℕ)
block_list bytes version =
    let b = blocks_in version in
    group_blocks b.g1n b.g1d bytes ++ group_blocks b.g2n b.g2d (drop (b.g1n * b.g1d) bytes)

-- `xs`, written one by one over the start of `out`; what is past its end is lost.
unfoldable pub write_over : List ℕ → List ℕ → List ℕ
write_over [] xs = []
write_over (o ∷ out) [] = o ∷ out
write_over (o ∷ out) (x ∷ xs) = x ∷ write_over out xs

unfoldable pub interleave : List ℕ → ℕ → List ℕ
interleave bytes version =
    let b = blocks_in version in
    let blocks = block_list bytes version in
    write_over (replicate b.total 0) (
      columns (max b.g1d b.g2d) 0 blocks
      ++ columns b.ecc 0 (map (λ block. rs_remainder block b.ecc) blocks))

pub record Encoded : Type 0 where
  version : ℕ
  codewords : List ℕ

-- encodeText, of the bytes that TextEncoder gives; `none` is the error that the input is too long.
unfoldable pub encode_text : List ℕ → Option Encoded
encode_text bytes =
    let version = find_version max_version 1 (length bytes) in
    if version == 0
    then none
    else some (record {
      version = version;
      codewords = interleave (to_bytes (data_bits version bytes)) version;
    })
