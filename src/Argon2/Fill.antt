-- ===== src/Argon2/Fill.antt =====
-- web/kdbx-read.js: hPrime and argon2. The memory is a list of blocks, each of 256 numbers of 32 bits:
-- block `b` holds those from offset 256 b on. Progress reports and the pauses between slices are left
-- out.
use Prim.Native.Nat.{bit_xor}
use maspassword.Base.{
  ℕ, zero, suc, ◌+◌, ◌-◌, ◌*◌, ◌/◌, ◌%◌, Bool, false, not, ◌&&◌, ◌||◌, Option, none, some, List, [],
  ◌∷◌, ◌++◌, length, get_or, set, take, drop, replicate, map, leb, ltb, ◌==◌, if◌then◌else◌, max,
}
use maspassword.Blake2b.Pairs.{read, write, xor_pair, rotr_32, rotr_24, rotr_16, rotr_63, blake2b}
use maspassword.Argon2.{f_bla_mka, Step, ref_lane, q, cur_idx, prev_idx, ref_idx}

abbrev pub le32 : ℕ → List ℕ
le32 n = (n % 256) ∷ (n / 256 % 256) ∷ (n / 65536 % 256) ∷ (n / 16777216 % 256) ∷ []

-- The links of hPrime, with `rem` bytes to come.
unfoldable pub h_links : ℕ → ℕ → List ℕ → List ℕ
h_links zero rem v = v
h_links (suc fuel) rem v =
    let next = blake2b v (if ltb 64 (rem - 32) then 64 else rem - 32) in
    let more = take 32 v ++ h_links fuel (rem - 32) next in if ltb 64 rem then more else v

-- Every link takes 32 bytes, so `out_len` turns are enough.
unfoldable pub h_prime : List ℕ → ℕ → List ℕ
unfolding h_links
h_prime input out_len =
    if leb out_len 64
    then blake2b (le32 out_len ++ input) out_len
    else h_links out_len out_len (blake2b (le32 out_len ++ input) 64)

bm_g : ℕ → ℕ → ℕ → ℕ → List ℕ → List ℕ
bm_g a b c d s =
    let a1 = f_bla_mka (read s a) (read s b) in
    let d1 = rotr_32 (xor_pair (read s d) a1) in
    let c1 = f_bla_mka (read s c) d1 in
    let b1 = rotr_24 (xor_pair (read s b) c1) in
    let a2 = f_bla_mka a1 b1 in
    let d2 = rotr_16 (xor_pair d1 a2) in
    let c2 = f_bla_mka c1 d2 in
    let b2 = rotr_63 (xor_pair b1 c2) in write (write (write (write s a a2) b b2) c c2) d d2

-- AG_S: the words at the offsets, and back.
abbrev pub gather : List ℕ → List ℕ → List ℕ
gather v [] = []
gather v (o ∷ offs) = get_or v o 0 ∷ get_or v (o + 1) 0 ∷ gather v offs

abbrev pub scatter : List ℕ → List ℕ → List ℕ → List ℕ
scatter [] s v = v
scatter (o ∷ offs) (lo ∷ hi ∷ s) v = scatter offs s (set (set v o lo) (o + 1) hi)
scatter (o ∷ offs) _ v = v

p_apply : List ℕ → List ℕ → List ℕ
unfolding bm_g
p_apply offs v =
    scatter offs
      (bm_g 3 4 9 14 (
        bm_g 2 7 8 13 (
          bm_g 1 6 11 12 (
            bm_g 0 5 10 15
              (bm_g 3 7 11 15 (bm_g 2 6 10 14 (bm_g 1 5 9 13 (bm_g 0 4 8 12 (gather v offs)))))))))
      v

abbrev pub upto : ℕ → ℕ → List ℕ
upto zero i = []
upto (suc n) i = i ∷ upto n (i + 1)

abbrev pub row_offs : ℕ → List ℕ
row_offs r = map (λ k. 32 * r + 2 * k) (upto 16 0)

abbrev pub column_offs : ℕ → List ℕ
column_offs c = map (λ k. 4 * c + 32 * (k / 2) + 2 * (k % 2)) (upto 16 0)

apply_all : List (List ℕ) → List ℕ → List ℕ
unfolding p_apply
apply_all [] v = v
apply_all (offs ∷ rest) v = apply_all rest (p_apply offs v)

ag_permute : List ℕ → List ℕ
unfolding apply_all
ag_permute v = apply_all (map column_offs (upto 8 0)) (apply_all (map row_offs (upto 8 0)) v)

abbrev pub xor_words : List ℕ → List ℕ → List ℕ
xor_words [] ys = []
xor_words (x ∷ xs) [] = []
xor_words (x ∷ xs) (y ∷ ys) = bit_xor x y ∷ xor_words xs ys

-- G(x, y), over the previous contents if that is asked for.
unfoldable pub ag_compress : Bool → List ℕ → List ℕ → List ℕ → List ℕ
unfolding ag_permute
ag_compress with_xor x y previous =
    let r = xor_words x y in
    let out = xor_words (ag_permute r) r in if with_xor then xor_words previous out else out

pub record Params : Type 0 where
  pub variant : ℕ
  pub version : ℕ
  pub password : List ℕ
  pub salt : List ℕ
  pub passes : ℕ
  pub mem_kib : ℕ
  pub lanes : ℕ
  pub tag_len : ℕ

-- The memory, and the address block with its counter.
pub record Fill : Type 0 where
  pub memory : List (List ℕ)
  pub counter : ℕ
  pub addresses : List ℕ

abbrev pub zeros : List ℕ
zeros = replicate 256 0

module _ (p : Params) where
  -- mPrime, and segLen, a quarter of a lane.
  unfoldable pub m_prime : ℕ
  m_prime = max (4 * p.lanes * (p.mem_kib / (4 * p.lanes))) (8 * p.lanes)

  unfoldable pub seg_len : ℕ
  seg_len = m_prime / p.lanes / 4

  unfoldable pub first_hash : List ℕ
  first_hash =
      blake2b
        (le32 p.lanes
          ++ (le32 p.tag_len
              ++ (le32 p.mem_kib
                  ++ (le32 p.passes
                      ++ (le32 p.version
                          ++ (le32 p.variant
                              ++ (le32 (length p.password)
                                  ++ (p.password
                                      ++ (le32 (length p.salt)
                                          ++ (p.salt ++ (le32 0 ++ le32 0)))))))))))
        64

  -- The words of 1024 bytes.
  abbrev pub block_words : ℕ → List ℕ → List ℕ
  block_words zero bytes = []
  block_words (suc n) bytes =
      (((get_or bytes 3 0 * 256 + get_or bytes 2 0) * 256 + get_or bytes 1 0) * 256
        + get_or bytes 0 0)
      ∷ block_words n (drop 4 bytes)

  -- The first two blocks of the lanes, `n` of them from `lane` on.
  abbrev pub seed_block : ℕ → ℕ → List ℕ
  seed_block lane j = block_words 256 (h_prime (first_hash ++ (le32 j ++ le32 lane)) 1024)

  unfoldable pub seed_lanes : ℕ → ℕ → List (List ℕ) → List (List ℕ)
  seed_lanes zero lane memory = memory
  seed_lanes (suc n) lane memory = seed_lanes n (lane + 1) (
      set (set memory (lane * q seg_len) (seed_block lane 0)) (lane * q seg_len + 1)
        (seed_block lane 1))

  abbrev pub data_independent : Step → Bool
  data_independent s = p.variant == 1 || (p.variant == 2 && (s.pass == 0 && ltb s.slice 2))

  abbrev pub start_idx : Step → ℕ
  start_idx s = if s.pass == 0 && s.slice == 0 then 2 else 0

  -- The block that the addresses are made from.
  abbrev pub address_input : Step → ℕ → List ℕ
  address_input s counter =
      s.pass
      ∷ 0
      ∷ s.lane
      ∷ 0
      ∷ s.slice
      ∷ 0
      ∷ m_prime
      ∷ 0
      ∷ p.passes
      ∷ 0
      ∷ p.variant
      ∷ 0
      ∷ counter
      ∷ replicate 243 0

  unfoldable pub refresh : Step → Fill → Fill
  refresh s f =
      let counter = s.idx / 128 + 1 in
      let once = ag_compress false zeros (address_input s counter) zeros in
      let renewed = record f {
        counter = counter;
        addresses = ag_compress false zeros once zeros;
      } in
      if s.idx % 128 == 0 || (s.idx == start_idx s && f.counter == 0) then renewed else f

  abbrev pub block : Fill → ℕ → List ℕ
  block f i = get_or f.memory i []

  -- J1 and J2.
  abbrev pub randoms : Step → Fill → ℕ × ℕ
  randoms s f =
      if data_independent s
      then (get_or f.addresses (2 * (s.idx % 128)) 0, get_or f.addresses (2 * (s.idx % 128) + 1) 0)
      else (
        get_or (block f (s.lane * q seg_len + prev_idx seg_len s)) 0 0,
        get_or (block f (s.lane * q seg_len + prev_idx seg_len s)) 1 0,
      )

  -- The block that a step writes, for J1 and J2.
  unfoldable pub write_step : Step → ℕ × ℕ → Fill → Fill
  write_step s j f =
      let lane = ref_lane p.lanes s j.1 in
      let cur = s.lane * q seg_len + cur_idx seg_len s in
      let prev = s.lane * q seg_len + prev_idx seg_len s in
      let ref = lane * q seg_len + ref_idx seg_len s (lane == s.lane) j.0 in
      record f {
        memory = set f.memory cur (
            ag_compress (ltb 0 s.pass && p.version == 0x13) (block f prev) (block f ref)
              (block f cur));
      }

  unfoldable pub fill_step : Step → Fill → Fill
  fill_step s f =
      let f' = if data_independent s then refresh s f else f in write_step s (randoms s f') f'

  -- The loops: `n` steps of a segment from a step on, then lanes, slices and passes.
  unfoldable pub fill_segment : ℕ → Step → Fill → Fill
  fill_segment zero s f = f
  fill_segment (suc n) s f = fill_segment n (record s { idx = s.idx + 1 }) (fill_step s f)

  unfoldable pub fill_lanes : ℕ → ℕ → ℕ → ℕ → Fill → Fill
  fill_lanes zero pass slice lane f = f
  fill_lanes (suc n) pass slice lane f =
      let s : Step = record { pass = pass; slice = slice; lane = lane; idx = 0 } in
      fill_lanes n pass slice (lane + 1) (
        fill_segment (seg_len - start_idx s) (record s { idx = start_idx s })
          (record f { counter = 0 }))

  unfoldable pub fill_slices : ℕ → ℕ → ℕ → Fill → Fill
  fill_slices zero pass slice f = f
  fill_slices (suc n) pass slice f =
      fill_slices n pass (slice + 1) (fill_lanes p.lanes pass slice 0 f)

  unfoldable pub fill_passes : ℕ → ℕ → Fill → Fill
  fill_passes zero pass f = f
  fill_passes (suc n) pass f = fill_passes n (pass + 1) (fill_slices 4 pass 0 f)

  -- The last blocks of the lanes, `n` of them from `lane` on.
  unfoldable pub final_block : ℕ → ℕ → Fill → List ℕ → List ℕ
  final_block zero lane f final = final
  final_block (suc n) lane f final =
      final_block n (lane + 1) f (xor_words final (block f (lane * q seg_len + q seg_len - 1)))

  abbrev pub word_bytes : List ℕ → List ℕ
  word_bytes [] = []
  word_bytes (w ∷ ws) = le32 w ++ word_bytes ws

  unfoldable pub first_fill : Fill
  first_fill = record {
    memory = seed_lanes p.lanes 0 (replicate m_prime zeros);
    counter = 0;
    addresses = zeros;
  }

  unfoldable pub argon2_tag : List ℕ
  argon2_tag =
      h_prime (word_bytes (final_block p.lanes 0 (fill_passes p.passes 0 first_fill) zeros))
        p.tag_len

  -- `none` is an unsupported version.
  unfoldable pub argon2 : Option (List ℕ)
  argon2 = if not (p.version == 0x13) && not (p.version == 0x10) then none else some argon2_tag
