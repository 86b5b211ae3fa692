-- ===== src/Totp.antt =====
-- extension/totp.js: the base32 secret, the counter and the code. `toUpperCase` is a parameter, and the
-- HMAC is the browser's: the truncation starts from its result. A shift of the source works on 32 bits.
pub mod Base32
pub mod Code
mod Tests
use Prim.Native.Nat.{bit_and, bit_or}
use maspassword.Base.{
  ℕ, zero, suc, ◌+◌, ◌-◌, ◌*◌, ◌/◌, ◌%◌, ◌^◌, Bool, true, false, ◌||◌, Option, none, some, List, [],
  ◌∷◌, ◌++◌, Text, codes, length, get_or, is_space, leb, ◌==◌, if◌then◌else◌, replicate,
}

abbrev pub b32_alphabet : Text
b32_alphabet = codes "ABCDEFGHIJKLMNOPQRSTUVWXYZ234567"

-- `str.indexOf(ch)`; `none` is -1.
pub place_of : ℕ → Text → Option ℕ
place_of c [] = none
place_of c (d ∷ s) =
    let later = place_of c s in
    if d == c then some 0 else elim later [ none ↦ none | some i ↦ some (suc i) ]

-- `replace(/[=\s]/g, '')`
pub clean : Text → Text
clean [] = []
clean (c ∷ s) = let rest = clean s in if c == b'=' || is_space c then rest else c ∷ rest

-- The digits of the text, with those outside the alphabet left out.
pub indices : Text → List ℕ
unfolding place_of
indices [] = []
indices (c ∷ s) =
    let rest = indices s in elim (place_of c b32_alphabet) [ none ↦ rest | some i ↦ i ∷ rest ]

-- `bits` and `value` of the loop.
pub record Accumulator : Type 0 where
  pub bits : ℕ
  pub value : ℕ

-- `value = (value << 5) | idx; bits += 5`
abbrev pub take_in : Accumulator → ℕ → Accumulator
take_in acc idx = record { bits = acc.bits + 5; value = bit_or (acc.value * 2 ^ 5 % 2 ^ 32) idx }

-- `if (bits >= 8) { bits -= 8; out.push((value >>> bits) & 0xff) }`, and the bytes behind it.
pub decode_from : Accumulator → List ℕ → List ℕ
decode_from acc [] = []
decode_from acc (idx ∷ rest) =
    let next = take_in acc idx in
    let more = decode_from next rest in
    let less = decode_from (record next { bits = next.bits - 8 }) rest in
    if leb 8 next.bits then bit_and (next.value / 2 ^ (next.bits - 8)) 0xff ∷ less else more

unfoldable pub base32_decode : (Text → Text) → Text → List ℕ
unfolding clean indices decode_from
base32_decode upper str = decode_from (record { bits = 0; value = 0 }) (indices (clean (upper str)))

-- The loop over `i` from 7 down to 0, by the number of bytes left; the last is filled first.
pub counter_loop : ℕ → ℕ → List ℕ → List ℕ
counter_loop zero c buf = buf
counter_loop (suc left) c buf = counter_loop left (c / 256) (bit_and c 0xff ∷ buf)

unfoldable pub counter_bytes : ℕ → List ℕ
unfolding counter_loop
counter_bytes counter = counter_loop 8 counter []

-- The dynamic truncation of an HMAC.
unfoldable pub truncated : List ℕ → ℕ
truncated sig =
    let offset = bit_and (get_or sig (length sig - 1) 0) 0x0f in
    bit_or
      (bit_or
        (bit_or (bit_and (get_or sig offset 0) 0x7f * 2 ^ 24)
          (bit_and (get_or sig (offset + 1) 0) 0xff * 2 ^ 16))
        (bit_and (get_or sig (offset + 2) 0) 0xff * 2 ^ 8))
      (bit_and (get_or sig (offset + 3) 0) 0xff)
