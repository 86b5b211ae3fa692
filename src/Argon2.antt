-- ===== src/Argon2.antt =====
-- web/kdbx-read.js: the arithmetic of Argon2 on pairs of 32-bit numbers, its variable-length hash, and
-- the block that a step refers to. `x & 0xffff` and `x >>> 16` are the limbs of a 32-bit number.
pub mod Exact
pub mod Fill
pub mod Tag
pub mod Window
pub mod Reference
mod Tests
use Prim.Native.Nat.{bit_and, bit_or}
use maspassword.Base.{ℕ, ◌+◌, ◌-◌, ◌*◌, ◌/◌, ◌%◌, ◌^◌, Bool, true, false, ◌==◌, ◌&&◌, if◌then◌else◌}
use maspassword.Blake2b.Pairs.{Pair, left}

abbrev pub low_limb : ℕ → ℕ
low_limb x = bit_and x 0xffff

abbrev pub high_limb : ℕ → ℕ
high_limb x = x / 2 ^ 16

-- fmLo and fmHi behind the call.
unfoldable pub f_bla_mka : Pair → Pair → Pair
f_bla_mka a b =
    let x0 = low_limb a.lo in
    let x1 = high_limb a.lo in
    let y0 = low_limb b.lo in
    let y1 = high_limb b.lo in
    let mid = x1 * y0 + x0 * y1 in
    let tl = x0 * y0 + mid % 65536 * 65536 in
    let th = (x1 * y1 + mid / 65536 + tl / 2 ^ 32) % 2 ^ 32 in
    let pl = tl % 2 ^ 32 in
    let dl = left pl 1 in
    let dh = bit_or (left th 1) (pl / 2 ^ 31) in
    let lo = a.lo + b.lo + dl in
    record { lo = lo % 2 ^ 32; hi = (a.hi + b.hi + dh + lo / 2 ^ 32) % 2 ^ 32 }

unfoldable pub umul_hi : ℕ → ℕ
umul_hi a =
    let x0 = low_limb a in
    let x1 = high_limb a in
    let mid = x1 * x0 * 2 in
    let tl = x0 * x0 + mid % 65536 * 65536 in (x1 * x1 + mid / 65536 + tl / 2 ^ 32) % 2 ^ 32

-- Where a step stands: the pass, the slice, the lane and the index in the segment.
pub record Step : Type 0 where
  pub pass : ℕ
  pub slice : ℕ
  pub lane : ℕ
  pub idx : ℕ

-- `idx === 0 ? -1 : 0`, taken from a number.
abbrev pub less_if_first : ℕ → ℕ → ℕ
less_if_first idx n = if idx == 0 then n - 1 else n

abbrev pub ref_lane : ℕ → Step → ℕ → ℕ
ref_lane lanes s j2 = if s.pass == 0 && s.slice == 0 then s.lane else j2 % lanes

unfoldable pub rel : ℕ → ℕ → ℕ
unfolding umul_hi
rel area j1 = area - 1 - area * umul_hi j1 / 2 ^ 32

module _ (seg_len : ℕ) where
  -- The blocks of a lane.
  abbrev pub q : ℕ
  q = 4 * seg_len

  abbrev pub cur_idx : Step → ℕ
  cur_idx s = s.slice * seg_len + s.idx

  abbrev pub prev_idx : Step → ℕ
  prev_idx s = (cur_idx s + q - 1) % q

  unfoldable pub ref_area : Step → Bool → ℕ
  ref_area s same_lane =
      if s.pass == 0
      then (if s.slice == 0
          then s.idx - 1
          else if same_lane
          then s.slice * seg_len + s.idx - 1
          else less_if_first s.idx (s.slice * seg_len))
      else if same_lane
      then q - seg_len + s.idx - 1
      else less_if_first s.idx (q - seg_len)

  abbrev pub start_pos : Step → ℕ
  start_pos s = if s.pass == 0 then 0 else (s.slice + 1) % 4 * seg_len

  -- `(startPos + rel) % q`: the index in its lane of the block that a step refers to.
  unfoldable pub ref_idx : Step → Bool → ℕ → ℕ
  unfolding ref_area rel
  ref_idx s same_lane j1 = (start_pos s + rel (ref_area s same_lane) j1) % q
