-- ===== src/Blake2b/Wide.antt =====
-- web/blake2b.js: BLAKE2b on BigInt words of 64 bits, with a context that takes its input in parts.
-- A word is a number; `x << n` is `x * 2 ^ n` and `x >> n` is `x / 2 ^ n`.
use Prim.Native.Nat.{bit_and, bit_or, bit_xor}
use maspassword.Base.{ℕ, ◌+◌, ◌-◌, ◌*◌, ◌/◌, ◌%◌, ◌^◌, List, [], ◌∷◌, get_or, set}

abbrev pub mask64 : ℕ
mask64 = 2 ^ 64 - 1

-- BLAKE2B_IV: the low and the high half of each word.
unfoldable pub iv_halves : List ℕ
iv_halves =
    0xf3bcc908 ∷ 0x6a09e667 ∷ 0x84caa73b ∷ 0xbb67ae85 ∷ 0xfe94f82b ∷ 0x3c6ef372 ∷ 0x5f1d36f1
    ∷ 0xa54ff53a ∷ 0xade682d1 ∷ 0x510e527f ∷ 0x2b3e6c1f ∷ 0x9b05688c ∷ 0xfb41bd6b ∷ 0x1f83d9ab
    ∷ 0x137e2179 ∷ 0x5be0cd19 ∷ []

-- `(BLAKE2B_IV[i * 2 + 1] << 32n) | BLAKE2B_IV[i * 2]` for i from 0.
unfoldable pub iv_words : List ℕ → List ℕ
iv_words [] = []
iv_words (lo ∷ []) = []
iv_words (lo ∷ hi ∷ rest) = bit_or (hi * 2 ^ 32) lo ∷ iv_words rest

unfoldable pub sigma : List (List ℕ)
sigma =
    (0 ∷ 1 ∷ 2 ∷ 3 ∷ 4 ∷ 5 ∷ 6 ∷ 7 ∷ 8 ∷ 9 ∷ 10 ∷ 11 ∷ 12 ∷ 13 ∷ 14 ∷ 15 ∷ [])
    ∷ (14 ∷ 10 ∷ 4 ∷ 8 ∷ 9 ∷ 15 ∷ 13 ∷ 6 ∷ 1 ∷ 12 ∷ 0 ∷ 2 ∷ 11 ∷ 7 ∷ 5 ∷ 3 ∷ [])
    ∷ (11 ∷ 8 ∷ 12 ∷ 0 ∷ 5 ∷ 2 ∷ 15 ∷ 13 ∷ 10 ∷ 14 ∷ 3 ∷ 6 ∷ 7 ∷ 1 ∷ 9 ∷ 4 ∷ [])
    ∷ (7 ∷ 9 ∷ 3 ∷ 1 ∷ 13 ∷ 12 ∷ 11 ∷ 14 ∷ 2 ∷ 6 ∷ 5 ∷ 10 ∷ 4 ∷ 0 ∷ 15 ∷ 8 ∷ [])
    ∷ (9 ∷ 0 ∷ 5 ∷ 7 ∷ 2 ∷ 4 ∷ 10 ∷ 15 ∷ 14 ∷ 1 ∷ 11 ∷ 12 ∷ 6 ∷ 8 ∷ 3 ∷ 13 ∷ [])
    ∷ (2 ∷ 12 ∷ 6 ∷ 10 ∷ 0 ∷ 11 ∷ 8 ∷ 3 ∷ 4 ∷ 13 ∷ 7 ∷ 5 ∷ 15 ∷ 14 ∷ 1 ∷ 9 ∷ [])
    ∷ (12 ∷ 5 ∷ 1 ∷ 15 ∷ 14 ∷ 13 ∷ 4 ∷ 10 ∷ 0 ∷ 7 ∷ 6 ∷ 3 ∷ 9 ∷ 2 ∷ 8 ∷ 11 ∷ [])
    ∷ (13 ∷ 11 ∷ 7 ∷ 14 ∷ 12 ∷ 1 ∷ 3 ∷ 9 ∷ 5 ∷ 0 ∷ 15 ∷ 4 ∷ 8 ∷ 6 ∷ 2 ∷ 10 ∷ [])
    ∷ (6 ∷ 15 ∷ 14 ∷ 9 ∷ 11 ∷ 3 ∷ 0 ∷ 8 ∷ 12 ∷ 2 ∷ 13 ∷ 7 ∷ 1 ∷ 4 ∷ 10 ∷ 5 ∷ [])
    ∷ (10 ∷ 2 ∷ 8 ∷ 4 ∷ 7 ∷ 6 ∷ 1 ∷ 5 ∷ 15 ∷ 11 ∷ 9 ∷ 14 ∷ 3 ∷ 12 ∷ 13 ∷ 0 ∷ [])
    ∷ (0 ∷ 1 ∷ 2 ∷ 3 ∷ 4 ∷ 5 ∷ 6 ∷ 7 ∷ 8 ∷ 9 ∷ 10 ∷ 11 ∷ 12 ∷ 13 ∷ 14 ∷ 15 ∷ [])
    ∷ (14 ∷ 10 ∷ 4 ∷ 8 ∷ 9 ∷ 15 ∷ 13 ∷ 6 ∷ 1 ∷ 12 ∷ 0 ∷ 2 ∷ 11 ∷ 7 ∷ 5 ∷ 3 ∷ [])
    ∷ []

-- The loops of LOAD64: `(acc << 8n) | byte` over the bytes from the last to the first.
abbrev pub shift_in : ℕ → ℕ → ℕ
shift_in acc byte = bit_or (acc * 2 ^ 8) byte

unfoldable pub load64 : List ℕ → ℕ → ℕ
load64 buf offset =
    let lo =
      shift_in
        (shift_in (shift_in (shift_in 0 (get_or buf (offset + 7) 0)) (get_or buf (offset + 6) 0))
          (get_or buf (offset + 5) 0))
        (get_or buf (offset + 4) 0) in
    let hi =
      shift_in
        (shift_in (shift_in (shift_in 0 (get_or buf (offset + 3) 0)) (get_or buf (offset + 2) 0))
          (get_or buf (offset + 1) 0))
        (get_or buf offset 0) in
    bit_or (lo * 2 ^ 32) hi

unfoldable pub add64 : ℕ → ℕ → ℕ
add64 a b = bit_and (a + b) mask64

unfoldable pub rotr64 : ℕ → ℕ → ℕ
rotr64 x n = bit_and (bit_or (x / 2 ^ n) (x * 2 ^ (64 - n))) mask64

-- `~x & MASK64`
abbrev pub not64 : ℕ → ℕ
not64 x = mask64 - x % 2 ^ 64

-- The statements of G: `v[a] = ADD64(ADD64(v[a], v[b]), x)`, `v[d] = ROTR64(v[d] ^ v[a], n)` and
-- `v[c] = ADD64(v[c], v[d])`.
abbrev pub add_word : List ℕ → ℕ → ℕ → ℕ → List ℕ
add_word v a b x = set v a (add64 (add64 (get_or v a 0) (get_or v b 0)) x)

abbrev pub xor_rotate : List ℕ → ℕ → ℕ → ℕ → List ℕ
xor_rotate v d a n = set v d (rotr64 (bit_xor (get_or v d 0) (get_or v a 0)) n)

abbrev pub add_to : List ℕ → ℕ → ℕ → List ℕ
add_to v c d = set v c (add64 (get_or v c 0) (get_or v d 0))

unfoldable pub mix : List ℕ → ℕ → ℕ → ℕ → ℕ → ℕ → ℕ → List ℕ
mix v a b c d x y =
    let v1 = add_word v a b x in
    let v2 = xor_rotate v1 d a 32 in
    let v3 = add_to v2 c d in
    let v4 = xor_rotate v3 b c 24 in
    let v5 = add_word v4 a b y in
    let v6 = xor_rotate v5 d a 16 in let v7 = add_to v6 c d in xor_rotate v7 b c 63

unfoldable pub round : List ℕ → List ℕ → List ℕ → List ℕ
unfolding mix
round m s v0 =
    let x : ℕ → ℕ = λ i. get_or m (get_or s i 0) 0 in
    let v1 = mix v0 0 4 8 12 (x 0) (x 1) in
    let v2 = mix v1 1 5 9 13 (x 2) (x 3) in
    let v3 = mix v2 2 6 10 14 (x 4) (x 5) in
    let v4 = mix v3 3 7 11 15 (x 6) (x 7) in
    let v5 = mix v4 0 5 10 15 (x 8) (x 9) in
    let v6 = mix v5 1 6 11 12 (x 10) (x 11) in
    let v7 = mix v6 2 7 8 13 (x 12) (x 13) in mix v7 3 4 9 14 (x 14) (x 15)

-- The loop over `i`, for the rounds listed.
unfoldable pub rounds : List ℕ → List ℕ → List ℕ → List ℕ
rounds [] m v = v
rounds (i ∷ is) m v = rounds is m (round m (get_or sigma i []) v)

abbrev pub twelve : List ℕ
twelve = 0 ∷ 1 ∷ 2 ∷ 3 ∷ 4 ∷ 5 ∷ 6 ∷ 7 ∷ 8 ∷ 9 ∷ 10 ∷ 11 ∷ []

abbrev pub offsets : List ℕ
offsets = 0 ∷ 8 ∷ 16 ∷ 24 ∷ 32 ∷ 40 ∷ 48 ∷ 56 ∷ 64 ∷ 72 ∷ 80 ∷ 88 ∷ 96 ∷ 104 ∷ 112 ∷ 120 ∷ []

-- `ctx.h[i] ^ v[i] ^ v[i + 8]` for each `i`; `low` and `high` are `v` from 0 and from 8 on.
unfoldable pub fold_in : List ℕ → List ℕ → List ℕ → List ℕ
fold_in (h ∷ hs) (x ∷ low) (y ∷ high) = bit_xor (bit_xor h x) y ∷ fold_in hs low high
fold_in _ _ _ = []
