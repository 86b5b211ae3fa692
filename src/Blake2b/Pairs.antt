-- ===== src/Blake2b/Pairs.antt =====
-- web/kdbx-read.js: BLAKE2b on words of 64 bits as pairs of 32-bit numbers, word `w` at 2w (low) and
-- 2w + 1 (high) of an array. `x >>> 0` is `x % 2 ^ 32`. An exclusive or and a shift are taken as the
-- unsigned number of the same 32 bits, which is what each is turned into before it is read.
use Prim.Native.Nat.{bit_and, bit_or, bit_xor}
use maspassword.Base.{
  ℕ, zero, suc, ◌+◌, ◌-◌, ◌*◌, ◌/◌, ◌%◌, ◌^◌, Bool, List, [], ◌∷◌, ◌++◌, get_or, set, replicate,
  ◌==◌, if◌then◌else◌, length, take, drop, max, leb,
}

unfoldable pub b2b_iv : List ℕ
b2b_iv =
    0xf3bcc908 ∷ 0x6a09e667 ∷ 0x84caa73b ∷ 0xbb67ae85 ∷ 0xfe94f82b ∷ 0x3c6ef372 ∷ 0x5f1d36f1
    ∷ 0xa54ff53a ∷ 0xade682d1 ∷ 0x510e527f ∷ 0x2b3e6c1f ∷ 0x9b05688c ∷ 0xfb41bd6b ∷ 0x1f83d9ab
    ∷ 0x137e2179 ∷ 0x5be0cd19 ∷ []

unfoldable pub b2b_sigma : List (List ℕ)
b2b_sigma =
    (0 ∷ 1 ∷ 2 ∷ 3 ∷ 4 ∷ 5 ∷ 6 ∷ 7 ∷ 8 ∷ 9 ∷ 10 ∷ 11 ∷ 12 ∷ 13 ∷ 14 ∷ 15 ∷ [])
    ∷ (14 ∷ 10 ∷ 4 ∷ 8 ∷ 9 ∷ 15 ∷ 13 ∷ 6 ∷ 1 ∷ 12 ∷ 0 ∷ 2 ∷ 11 ∷ 7 ∷ 5 ∷ 3 ∷ [])
    ∷ (11 ∷ 8 ∷ 12 ∷ 0 ∷ 5 ∷ 2 ∷ 15 ∷ 13 ∷ 10 ∷ 14 ∷ 3 ∷ 6 ∷ 7 ∷ 1 ∷ 9 ∷ 4 ∷ [])
    ∷ (7 ∷ 9 ∷ 3 ∷ 1 ∷ 13 ∷ 12 ∷ 11 ∷ 14 ∷ 2 ∷ 6 ∷ 5 ∷ 10 ∷ 4 ∷ 0 ∷ 15 ∷ 8 ∷ [])
    ∷ (9 ∷ 0 ∷ 5 ∷ 7 ∷ 2 ∷ 4 ∷ 10 ∷ 15 ∷ 14 ∷ 1 ∷ 11 ∷ 12 ∷ 6 ∷ 8 ∷ 3 ∷ 13 ∷ [])
    ∷ (2 ∷ 12 ∷ 6 ∷ 10 ∷ 0 ∷ 11 ∷ 8 ∷ 3 ∷ 4 ∷ 13 ∷ 7 ∷ 5 ∷ 15 ∷ 14 ∷ 1 ∷ 9 ∷ [])
    ∷ (12 ∷ 5 ∷ 1 ∷ 15 ∷ 14 ∷ 13 ∷ 4 ∷ 10 ∷ 0 ∷ 7 ∷ 6 ∷ 3 ∷ 9 ∷ 2 ∷ 8 ∷ 11 ∷ [])
    ∷ (13 ∷ 11 ∷ 7 ∷ 14 ∷ 12 ∷ 1 ∷ 3 ∷ 9 ∷ 5 ∷ 0 ∷ 15 ∷ 4 ∷ 8 ∷ 6 ∷ 2 ∷ 10 ∷ [])
    ∷ (6 ∷ 15 ∷ 14 ∷ 9 ∷ 11 ∷ 3 ∷ 0 ∷ 8 ∷ 12 ∷ 2 ∷ 13 ∷ 7 ∷ 1 ∷ 4 ∷ 10 ∷ 5 ∷ [])
    ∷ (10 ∷ 2 ∷ 8 ∷ 4 ∷ 7 ∷ 6 ∷ 1 ∷ 5 ∷ 15 ∷ 11 ∷ 9 ∷ 14 ∷ 3 ∷ 12 ∷ 13 ∷ 0 ∷ [])
    ∷ []

-- Two variables such as `al` and `ah`.
pub record Pair : Type 0 where
  pub lo : ℕ
  pub hi : ℕ

abbrev pub read : List ℕ → ℕ → Pair
read v w = record { lo = get_or v (2 * w) 0; hi = get_or v (2 * w + 1) 0 }

abbrev pub write : List ℕ → ℕ → Pair → List ℕ
write v w p = set (set v (2 * w) p.lo) (2 * w + 1) p.hi

-- `lo = al + bl + ml; al = lo >>> 0; ah = (ah + bh + mh + Math.floor(lo / 2^32)) >>> 0`
unfoldable pub plus3 : Pair → Pair → Pair → Pair
plus3 a b m =
    let lo = a.lo + b.lo + m.lo in
    record { lo = lo % 2 ^ 32; hi = (a.hi + b.hi + m.hi + lo / 2 ^ 32) % 2 ^ 32 }

-- `lo = cl + dl; cl = lo >>> 0; ch = (ch + dh + Math.floor(lo / 2^32)) >>> 0`
unfoldable pub plus2 : Pair → Pair → Pair
plus2 c d =
    let lo = c.lo + d.lo in record { lo = lo % 2 ^ 32; hi = (c.hi + d.hi + lo / 2 ^ 32) % 2 ^ 32 }

-- `xl = dl ^ al, xh = dh ^ ah`
abbrev pub xor_pair : Pair → Pair → Pair
xor_pair d a = record { lo = bit_xor d.lo a.lo; hi = bit_xor d.hi a.hi }

-- `x << n` on 32 bits.
abbrev pub left : ℕ → ℕ → ℕ
left x n = x * 2 ^ n % 2 ^ 32

unfoldable pub rotr_32 : Pair → Pair
rotr_32 x = record { lo = x.hi % 2 ^ 32; hi = x.lo % 2 ^ 32 }

unfoldable pub rotr_24 : Pair → Pair
rotr_24 x = record {
  lo = bit_or (x.lo / 2 ^ 24) (left x.hi 8);
  hi = bit_or (x.hi / 2 ^ 24) (left x.lo 8);
}

unfoldable pub rotr_16 : Pair → Pair
rotr_16 x = record {
  lo = bit_or (x.lo / 2 ^ 16) (left x.hi 16);
  hi = bit_or (x.hi / 2 ^ 16) (left x.lo 16);
}

unfoldable pub rotr_63 : Pair → Pair
rotr_63 x = record {
  lo = bit_or (left x.lo 1) (x.hi / 2 ^ 31);
  hi = bit_or (left x.hi 1) (x.lo / 2 ^ 31);
}

unfoldable pub b2b_g : List ℕ → List ℕ → ℕ → ℕ → ℕ → ℕ → ℕ → ℕ → List ℕ
b2b_g v m a b c d x y =
    let a1 = plus3 (read v a) (read v b) (read m x) in
    let d1 = rotr_32 (xor_pair (read v d) a1) in
    let c1 = plus2 (read v c) d1 in
    let b1 = rotr_24 (xor_pair (read v b) c1) in
    let a2 = plus3 a1 b1 (read m y) in
    let d2 = rotr_16 (xor_pair d1 a2) in
    let c2 = plus2 c1 d2 in
    let b2 = rotr_63 (xor_pair b1 c2) in write (write (write (write v a a2) b b2) c c2) d d2

unfoldable pub b2b_round : List ℕ → List ℕ → List ℕ → List ℕ
unfolding b2b_g
b2b_round m s v0 =
    let x : ℕ → ℕ = λ i. get_or s i 0 in
    let v1 = b2b_g v0 m 0 4 8 12 (x 0) (x 1) in
    let v2 = b2b_g v1 m 1 5 9 13 (x 2) (x 3) in
    let v3 = b2b_g v2 m 2 6 10 14 (x 4) (x 5) in
    let v4 = b2b_g v3 m 3 7 11 15 (x 6) (x 7) in
    let v5 = b2b_g v4 m 0 5 10 15 (x 8) (x 9) in
    let v6 = b2b_g v5 m 1 6 11 12 (x 10) (x 11) in
    let v7 = b2b_g v6 m 2 7 8 13 (x 12) (x 13) in b2b_g v7 m 3 4 9 14 (x 14) (x 15)

-- The loop over `r`, for the rounds listed.
unfoldable pub b2b_rounds : List ℕ → List ℕ → List ℕ → List ℕ
unfolding b2b_round
b2b_rounds [] m v = v
b2b_rounds (r ∷ rs) m v = b2b_rounds rs m (b2b_round m (get_or b2b_sigma (r % 10) []) v)

abbrev pub not32 : ℕ → ℕ
not32 x = 2 ^ 32 - 1 - x % 2 ^ 32

-- `v[i] = ~v[i]`
abbrev pub set_not : List ℕ → ℕ → List ℕ
set_not v i = set v i (not32 (get_or v i 0))

-- The array `v` before the rounds.
unfoldable pub b2b_start : List ℕ → ℕ → ℕ → Bool → List ℕ
b2b_start h t_lo t_hi last =
    let v0 = h ++ b2b_iv in
    let v1 = set v0 24 (bit_xor (get_or v0 24 0) t_lo) in
    let v2 = set v1 25 (bit_xor (get_or v1 25 0) t_hi) in
    if last then set_not (set_not v2 28) 29 else v2

-- `h[i] ^= v[i] ^ v[16 + i]` for each `i`; `low` and `high` are `v` from 0 and from 16 on.
abbrev pub fold_halves : List ℕ → List ℕ → List ℕ → List ℕ
fold_halves (h ∷ hs) (x ∷ low) (y ∷ high) = bit_xor h (bit_xor x y) ∷ fold_halves hs low high
fold_halves _ _ _ = []

unfoldable pub b2b_compress : List ℕ → List ℕ → ℕ → ℕ → Bool → List ℕ
unfolding b2b_rounds b2b_start
b2b_compress h m t_lo t_hi last =
    let v =
      b2b_rounds (0 ∷ 1 ∷ 2 ∷ 3 ∷ 4 ∷ 5 ∷ 6 ∷ 7 ∷ 8 ∷ 9 ∷ 10 ∷ 11 ∷ []) m
        (b2b_start h t_lo t_hi last) in
    fold_halves h v (drop 16 v)

-- `for (…) m[i >> 2] |= data[off + i] << ((i & 3) * 8)`, over the bytes of the chunk from `i` on.
unfoldable pub fill_words : ℕ → List ℕ → List ℕ → List ℕ
fill_words i [] m = m
fill_words i (byte ∷ chunk) m =
    fill_words (suc i) chunk (set m (i / 4) (bit_or (get_or m (i / 4) 0) (left byte (i % 4 * 8))))

-- The blocks from `bi` on, `n` of them, with the byte counter in two halves.
unfoldable pub b2b_blocks : ℕ → ℕ → ℕ → List ℕ → List ℕ → ℕ → ℕ → List ℕ
unfolding b2b_compress fill_words
b2b_blocks zero bi block_count input h t_lo t_hi = h
b2b_blocks (suc n) bi block_count input h t_lo t_hi =
    let chunk = take 128 (drop (bi * 128) input) in
    let sum = t_lo + length chunk in
    let t_lo' = if leb (2 ^ 32) sum then sum - 2 ^ 32 else sum in
    let t_hi' = if leb (2 ^ 32) sum then suc t_hi else t_hi in
    let m = fill_words 0 chunk (replicate 32 0) in
    b2b_blocks n (suc bi) block_count input (b2b_compress h m t_lo' t_hi' (bi == block_count - 1))
      t_lo' t_hi'

-- `(h[i >> 2] >>> ((i & 3) * 8)) & 0xff` for i from `i` on, `n` bytes.
abbrev pub b2b_out : List ℕ → ℕ → ℕ → List ℕ
b2b_out h i zero = []
b2b_out h i (suc n) = bit_and (get_or h (i / 4) 0 / 2 ^ (i % 4 * 8)) 0xff ∷ b2b_out h (suc i) n

abbrev pub block_count_of : ℕ → ℕ
block_count_of size = max 1 ((size + 127) / 128)

unfoldable pub blake2b : List ℕ → ℕ → List ℕ
unfolding b2b_blocks
blake2b input out_len =
    let h = set b2b_iv 0 (bit_xor (get_or b2b_iv 0 0) (bit_xor 0x01010000 out_len)) in
    let count = block_count_of (length input) in
    b2b_out (b2b_blocks count 0 count input h 0 0) 0 out_len
