-- ===== src/Kdbx/Stream.antt =====
-- The stream ciphers: ChaCha20 of web/export.js, Salsa20 and ARC4 of web/kdbx-read.js. A cipher is a
-- function that gives the next byte of its key stream with the state behind it. Words are 32-bit
-- numbers, states of 16 of them are lists. A counter stays below 2^53, where a double is exact.
pub mod Permutation
pub mod Position
use Prim.Native.Nat.{bit_and, bit_or, bit_xor}
use maspassword.Base.{
  ℕ, zero, suc, ◌+◌, ◌-◌, ◌*◌, ◌/◌, ◌%◌, ◌^◌, ◌||◌, Bool, true, false, Option, none, some, List, [],
  ◌∷◌, ◌++◌, length, take, drop, get_or, set, replicate, ◌==◌, if◌then◌else◌, get_elem?,
}
use maspassword.Kdbx.{Error, Result, ok, err, ◌>>=◌, u32le}
use maspassword.Kdbx.Error.{thrown}

abbrev pub rotl : ℕ → ℕ → ℕ
rotl v c = bit_or (v * 2 ^ c % 2 ^ 32) (v / 2 ^ (32 - c))

abbrev pub word : List ℕ → ℕ → ℕ
word w i = get_or w i 0

-- `n` words from a position of the bytes on, as getUint32 reads them; 0 past the end, where it throws.
abbrev pub words : ℕ → List ℕ → List ℕ
words zero bytes = []
words (suc n) bytes =
    (((get_or bytes 3 0 * 256 + get_or bytes 2 0) * 256 + get_or bytes 1 0) * 256
      + get_or bytes 0 0)
    ∷ words n (drop 4 bytes)

-- `w[i] + st[i]` of each, as bytes.
abbrev pub added : List ℕ → List ℕ → List ℕ
added [] _ = []
added (x ∷ w) [] = u32le x ++ added w []
added (x ∷ w) (y ∷ st) = u32le ((x + y) % 2 ^ 32) ++ added w st

abbrev pub repeat : ℕ → (List ℕ → List ℕ) → List ℕ → List ℕ
repeat zero f w = w
repeat (suc n) f w = repeat n f (f w)

-- `w[a] = (w[a] + w[b]) >>> 0` and `w[d] = rotl(w[d] ^ w[a], c)`.
add_to : ℕ → ℕ → List ℕ → List ℕ
add_to a b w = set w a ((word w a + word w b) % 2 ^ 32)

rotate_by : ℕ → ℕ → ℕ → List ℕ → List ℕ
rotate_by d a c w = set w d (rotl (bit_xor (word w d) (word w a)) c)

qr : ℕ → ℕ → ℕ → ℕ → List ℕ → List ℕ
unfolding add_to rotate_by
qr a b c d w = rotate_by b c 7 (
    add_to c d (
      rotate_by d a 8
        (add_to a b (rotate_by b c 12 (add_to c d (rotate_by d a 16 (add_to a b w)))))))

chacha_round : List ℕ → List ℕ
unfolding qr
chacha_round w = qr 3 4 9 14 (
    qr 2 7 8 13
      (qr 1 6 11 12 (qr 0 5 10 15 (qr 3 7 11 15 (qr 2 6 10 14 (qr 1 5 9 13 (qr 0 4 8 12 w)))))))

chacha_start : List ℕ → ℕ → List ℕ → List ℕ
chacha_start key counter nonce =
    0x61707865
    ∷ 0x3320646e
    ∷ 0x79622d32
    ∷ 0x6b206574
    ∷ (words 8 key ++ (counter % 2 ^ 32) ∷ words 3 nonce)

unfoldable pub chacha_block : List ℕ → ℕ → List ℕ → List ℕ
unfolding chacha_start chacha_round u32le
chacha_block key counter nonce =
    let st = chacha_start key counter nonce in added (repeat 10 chacha_round st) st

-- `w[t] ^= rotl((w[a] + w[b]) >>> 0, c)`.
mix_in : ℕ → ℕ → ℕ → ℕ → List ℕ → List ℕ
mix_in t a b c w = set w t (bit_xor (word w t) (rotl ((word w a + word w b) % 2 ^ 32) c))

-- Two lines of the round: four words, one after the other.
quarter : ℕ → ℕ → ℕ → ℕ → List ℕ → List ℕ
unfolding mix_in
quarter x y z u w = mix_in x u z 18 (mix_in u z y 13 (mix_in z y x 9 (mix_in y x u 7 w)))

salsa_round : List ℕ → List ℕ
unfolding quarter
salsa_round w = quarter 15 12 13 14 (
    quarter 10 11 8 9 (
      quarter 5 6 7 4 (
        quarter 0 1 2 3
          (quarter 15 3 7 11 (quarter 10 14 2 6 (quarter 5 9 13 1 (quarter 0 4 8 12 w)))))))

abbrev pub salsa_nonce : List ℕ
salsa_nonce = 0xe8 ∷ 0x30 ∷ 0x09 ∷ 0x4b ∷ 0x97 ∷ 0x20 ∷ 0x5d ∷ 0x2a ∷ []

salsa_start : List ℕ → ℕ → List ℕ
salsa_start key counter =
    0x61707865
    ∷ (words 4 key
        ++ 0x3320646e
          ∷ (words 2 salsa_nonce
              ++ (counter % 2 ^ 32)
                ∷ (counter / 2 ^ 32 % 2 ^ 32)
                ∷ 0x79622d32
                ∷ (words 4 (drop 16 key) ++ 0x6b206574 ∷ [])))

unfoldable pub salsa_block : List ℕ → ℕ → List ℕ
unfolding salsa_start salsa_round u32le
salsa_block key counter = let st = salsa_start key counter in added (repeat 10 salsa_round st) st

-- A cipher on some bytes: the exclusive or with the key stream, and the state behind it.
module _ {ℓ} {S : Type ℓ} (next : S → ℕ × S) where
  unfoldable pub xor : S → List ℕ → List ℕ × S
  xor s [] = ([], s)
  xor s (b ∷ input) =
      let (k, s') = next s in let (out, s'') = xor s' input in (bit_xor b k ∷ out, s'')

-- The state of chachaStream and of salsaStream.
pub record Blocks : Type 0 where
  pub counter : ℕ
  pub block : List ℕ
  pub pos : ℕ

abbrev pub fresh : Blocks
fresh = record { counter = 0; block = []; pos = 64 }

-- `if (pos === 64) { block = …(counter++); pos = 0; }`, and `block[pos++]`.
abbrev pub refill : (ℕ → List ℕ) → Blocks → Blocks
refill cipher s =
    if s.pos == 64 then record { counter = s.counter + 1; block = cipher s.counter; pos = 0 } else s

unfoldable pub block_byte : (ℕ → List ℕ) → Blocks → ℕ × Blocks
block_byte cipher s =
    let s' = refill cipher s in (get_or s'.block s'.pos 0, record s' { pos = s'.pos + 1 })

-- The state of arc4Stream: the table and two indices.
pub record Arc4 : Type 0 where
  pub s : List ℕ
  pub x : ℕ
  pub y : ℕ

abbrev pub swap_at : ℕ → ℕ → List ℕ → List ℕ
swap_at i j s = set (set s i (word s j)) j (word s i)

-- `key[i % key.length]`, and `& 0xff`; with an empty key the sum is no number, and the index is 0.
abbrev pub key_index : List ℕ → ℕ → ℕ → ℕ → ℕ
key_index [] i j v = 0
key_index (k ∷ key) i j v = (j + v + word (k ∷ key) (i % length (k ∷ key))) % 256

unfoldable pub schedule : List ℕ → ℕ → ℕ → ℕ → List ℕ → List ℕ
schedule key zero i j s = s
schedule key (suc n) i j s =
    let j' = key_index key i j (word s i) in schedule key n (i + 1) j' (swap_at i j' s)

abbrev pub count_up : ℕ → ℕ → List ℕ
count_up zero i = []
count_up (suc n) i = i ∷ count_up n (i + 1)

unfoldable pub arc4_start : List ℕ → Arc4
unfolding schedule
arc4_start key = record { s = schedule key 256 0 0 (count_up 256 0); x = 0; y = 0 }

unfoldable pub arc4_byte : Arc4 → ℕ × Arc4
arc4_byte a =
    let x = (a.x + 1) % 256 in
    let y = (a.y + word a.s x) % 256 in
    let s = swap_at x y a.s in
    (word s ((word s x + word s y) % 256), record { s = s; x = x; y = y })

-- A stream with its state. Salsa20 without a key throws when it is used.
pub data Stream : Type 0 where
  plain : Stream
  chacha : List ℕ → List ℕ → Blocks → Stream
  salsa : List ℕ → Blocks → Stream
  keyless : Stream
  arc4 : Arc4 → Stream

-- `stream.xor(input)`.
unfoldable pub stream_xor : Stream → List ℕ → Result (List ℕ × Stream)
stream_xor plain input = ok (input, plain)
stream_xor (chacha key nonce s) input =
    let (out, s') = xor (block_byte (λ c. chacha_block key c nonce)) s input in
    ok (out, chacha key nonce s')
stream_xor (salsa key s) input =
    let (out, s') = xor (block_byte (salsa_block key)) s input in ok (out, salsa key s')
stream_xor keyless [] = ok ([], keyless)
stream_xor keyless (b ∷ input) = err thrown
stream_xor (arc4 a) input = let (out, a') = xor arc4_byte a input in ok (out, arc4 a')

-- innerStreamFor: the stream key of the file, if it has one.
module _ (sha256 sha512 : List ℕ → List ℕ) where
  unfoldable pub chacha_of : List ℕ → Stream
  chacha_of key = chacha (take 32 (sha512 key)) (take 12 (drop 32 (sha512 key))) fresh

  unfoldable pub inner_stream_for : ℕ → Option (List ℕ) → Result Stream
  unfolding arc4_start chacha_of
  inner_stream_for id none =
      if id == 3 || id == 1 then err thrown else if id == 2 then ok keyless else ok plain
  inner_stream_for id (some key) =
      if id == 3
      then ok (chacha_of key)
      else if id == 2
      then ok (salsa (sha256 key) fresh)
      else if id == 1
      then ok (arc4 (arc4_start key))
      else ok plain
