-- ===== src/Blake2b/Context.antt =====
-- web/blake2b.js: the context, its compression, and the digests of inputs given in parts.
use Prim.Native.Nat.{bit_and, bit_xor}
use maspassword.Base.{
  ℕ, zero, suc, ◌+◌, ◌-◌, ◌*◌, ◌/◌, ◌%◌, ◌^◌, Bool, true, false, List, [], ◌∷◌, ◌++◌, map, get_or,
  set, replicate, ◌==◌, if◌then◌else◌, drop, leb, ltb, get_elem?, Option, none, some,
}
use maspassword.Blake2b.Wide.{
  mask64, iv_halves, iv_words, load64, not64, rounds, twelve, offsets, fold_in,
}

pub record Context : Type 0 where
  pub h : List ℕ
  pub b : List ℕ
  pub c : ℕ
  pub t : ℕ
  pub outlen : ℕ

-- The working vector before the rounds.
unfoldable pub start : List ℕ → ℕ → Bool → List ℕ
unfolding iv_words
start h t last =
    let v0 = h ++ iv_words iv_halves in
    let v1 = set v0 12 (bit_xor (get_or v0 12 0) (bit_and t mask64)) in
    let v2 = set v1 13 (bit_xor (get_or v1 13 0) (bit_and (t / 2 ^ 64) mask64)) in
    if last then set v2 14 (not64 (get_or v2 14 0)) else v2

abbrev pub message : List ℕ → List ℕ
message b = map (load64 b) offsets

-- The hash words behind one block.
unfoldable pub compress_words : List ℕ → List ℕ → ℕ → Bool → List ℕ
unfolding rounds
compress_words h b t last =
    let v = rounds twelve (message b) (start h t last) in fold_in h v (drop 8 v)

unfoldable pub compress : Context → Bool → Context
unfolding compress_words
compress ctx last = record ctx { h = compress_words ctx.h ctx.b ctx.t last }

-- The signed 32-bit number that `^` gives, as a word of 64 bits: the words of the context are kept
-- modulo 2^64.
abbrev pub sign_extend : ℕ → ℕ
sign_extend z = if ltb z (2 ^ 31) then z else z + (2 ^ 64 - 2 ^ 32)

unfoldable pub init : ℕ → Context
unfolding iv_words
init outlen =
    let h = iv_words iv_halves in
    record {
      h = set h 0 (bit_xor (get_or h 0 0) (sign_extend (bit_xor 0x01010000 (outlen % 2 ^ 32))));
      b = replicate 128 0;
      c = 0;
      t = 0;
      outlen = outlen;
    }

-- What the loop of blake2bUpdate does before a byte: a full block is compressed.
abbrev pub flush : Context → Context
flush ctx =
    if ctx.c == 128 then record (compress (record ctx { t = ctx.t + 128 }) false) { c = 0 } else ctx

abbrev pub put_byte : Context → ℕ → Context
put_byte ctx byte = record ctx { b = set ctx.b ctx.c byte; c = suc ctx.c }

unfoldable pub update : Context → List ℕ → Context
unfolding compress
update ctx [] = ctx
update ctx (byte ∷ input) = update (put_byte (flush ctx) byte) input

-- `while (ctx.c < 128) ctx.b[ctx.c++] = 0`, by the number of bytes missing.
abbrev pub pad : ℕ → Context → Context
pad zero ctx = ctx
pad (suc missing) ctx = pad missing (put_byte ctx 0)

-- A byte of a word before those behind it. There is no shifting an `undefined`: a TypeError.
abbrev pub with_byte : Option ℕ → ℕ → Option (List ℕ) → Option (List ℕ)
with_byte none i rest = none
with_byte (some word) i none = none
with_byte (some word) i (some rest) = some (bit_and (word / 2 ^ (8 * (i % 8))) 0xff ∷ rest)

-- `(ctx.h[i >> 3] >> BigInt(8 * (i & 7))) & 0xFFn` for i from `i` on, `n` bytes.
abbrev pub out_bytes : List ℕ → ℕ → ℕ → Option (List ℕ)
out_bytes h i zero = some []
out_bytes h i (suc n) = with_byte (get_elem? h (i / 8)) i (out_bytes h (suc i) n)

unfoldable pub final : Context → Option (List ℕ)
final ctx =
    let counted = record ctx { t = ctx.t + ctx.c } in
    let full = pad (128 - counted.c) counted in
    let last = compress full true in out_bytes last.h 0 last.outlen

unfoldable pub blake2b256 : List ℕ → Option (List ℕ)
unfolding init update final
blake2b256 input = final (update (init 32) input)

unfoldable pub update_all : Context → List (List ℕ) → Context
update_all ctx [] = ctx
update_all ctx (input ∷ inputs) = update_all (update ctx input) inputs

unfoldable pub blake2b256_multi : List (List ℕ) → Option (List ℕ)
unfolding init update_all final
blake2b256_multi inputs = final (update_all (init 32) inputs)

-- `b.toString(16).padStart(2, '0')` of each byte.
abbrev pub hex_digit : ℕ → ℕ
hex_digit d = if leb d 9 then b'0' + d else b'a' + (d - 10)

abbrev pub hex_byte : ℕ → List ℕ
hex_byte byte = hex_digit (byte / 16) ∷ hex_digit (byte % 16) ∷ []

unfoldable pub hex_text : List ℕ → List ℕ
hex_text [] = []
hex_text (byte ∷ bytes) = hex_byte byte ++ hex_text bytes

abbrev pub hex_of : Option (List ℕ) → Option (List ℕ)
unfolding hex_text
hex_of none = none
hex_of (some bytes) = some (hex_text bytes)

unfoldable pub blake2b256_hex : List ℕ → Option (List ℕ)
unfolding hex_text blake2b256
blake2b256_hex input = hex_of (blake2b256 input)
