-- ===== src/Argon2/Reference.antt =====
-- The block that a step of Argon2 refers to is one that is written and not being written.
use native.Mathlib.Nat.{mul-lt-mul_of_pos_left, div-lt_iff_lt-mul, mod-eq_of_lt, mod-lt}
use mathlib.Core.Path.{subst}
use native.Mathlib.Decide.{dec_lt}
use maspassword.Base.{
  ℕ, zero, suc, ◌+◌, ◌-◌, ◌*◌, ◌/◌, ◌%◌, ◌^◌, ◌<◌, ◌≤◌, ◌≡◌, ◌≢◌, refl, sym, ap, ◌∙◌, ◌⊎◌, inl, inr,
  Bool, true, false, ◌==◌, Bool-cases, arith,
}
use maspassword.Argon2.{
  umul_hi, Step, q, cur_idx, prev_idx, ref_lane, ref_area, start_pos, rel, ref_idx,
}
use maspassword.Argon2.Window.{mod_once, Window, slice-Window, window_own, window_other}

umul_hi-lt : (j : ℕ) → umul_hi j < 2 ^ 32
unfolding umul_hi
umul_hi-lt j = omega arith

-- If the window is not empty, the subtraction that gives rel does not go below 0.
pub rel_exact : (area j1 : ℕ) → 0 < area → rel area j1 + 1 + area * umul_hi j1 / 2 ^ 32 ≡ area
unfolding rel
rel_exact area j1 pos = omega (arith, below)
  where
    below : area * umul_hi j1 / 2 ^ 32 < area
    below = (div-lt_iff_lt-mul (omega arith)).1 (mul-lt-mul_of_pos_left (umul_hi-lt j1) pos)

-- The steps that the loops take: a segment has at least two blocks, and the first slice of the first
-- pass begins behind the two blocks that are there before.
pub record IsStep (seg_len lanes : ℕ) (s : Step) : Type 0 where
  pub seg_len_ge : 2 ≤ seg_len
  pub slice_lt : s.slice < 4
  pub lane_lt : s.lane < lanes
  pub idx_lt : s.idx < seg_len
  pub begins : s.pass ≡ 0 → s.slice ≡ 0 → 2 ≤ s.idx

-- What the reference of a step to its own lane is: neither the block that is written nor the previous
-- one, which is the other operand, and in the first pass one before both.
pub record OwnLane (seg_len : ℕ) (s : Step) (block : ℕ) : Type 0 where
  pub block_lt : block < q seg_len
  pub ne_cur : block ≢ cur_idx seg_len s
  pub ne_prev : block ≢ prev_idx seg_len s
  pub before : s.pass ≡ 0 → block + 1 < cur_idx seg_len s

-- A reference to another lane: not in the slice that the lanes are filled in now, and in the first
-- pass in an earlier one.
pub record OtherLane (seg_len : ℕ) (s : Step) (block : ℕ) : Type 0 where
  pub block_lt : block < q seg_len
  pub elsewhere : (block < s.slice * seg_len) ⊎ (s.slice * seg_len + seg_len ≤ block)
  pub before : s.pass ≡ 0 → block < s.slice * seg_len

module _ (seg_len lanes : ℕ) (s : Step) (step : IsStep seg_len lanes s) where
  window : Window seg_len (s.slice * seg_len) ((s.slice + 1) % 4 * seg_len)
  window = slice-Window seg_len s.slice step.slice_lt

  slice_size : s.slice ≢ 0 → seg_len ≤ s.slice * seg_len
  slice_size = at_least s.slice
    where
      at_least : (n : ℕ) → n ≢ 0 → seg_len ≤ n * seg_len
      at_least zero h = absurd (h refl)
      at_least (suc n) h = omega arith

  own_first :
      s.pass ≡ 0 → (ref_area seg_len s true + 1 ≡ cur_idx seg_len s) × (0 < ref_area seg_len s true)
  unfolding ref_area
  own_first first = elim (Bool-cases (s.slice == 0)) [
    | inl none ↦
        let no_slice : s.slice ≡ 0 = ground arith in
        let empty : s.slice * seg_len ≡ 0 = ap (λ n. n * seg_len) no_slice ∙ omega arith in
        let two : 2 ≤ s.idx = step.begins first no_slice in ground (arith, empty, two)
    | inr some_slice ↦
        let size : seg_len ≤ s.slice * seg_len = slice_size (ground arith) in
        ground (arith, size, step.seg_len_ge)
  ]

  own_later :
      s.pass ≢ 0
      → (ref_area seg_len s true + 1 ≡ 3 * seg_len + s.idx) × (0 < ref_area seg_len s true)
  unfolding ref_area
  own_later later = ground (arith, step.seg_len_ge)

  other_first :
      s.pass ≡ 0
      → s.slice ≢ 0
      → (ref_area seg_len s false ≤ s.slice * seg_len) × (0 < ref_area seg_len s false)
  unfolding ref_area
  other_first first some_slice =
      let size : seg_len ≤ s.slice * seg_len = slice_size some_slice in
      ground (arith, size, step.seg_len_ge)

  other_later :
      s.pass ≢ 0 → (ref_area seg_len s false ≤ 3 * seg_len) × (0 < ref_area seg_len s false)
  unfolding ref_area
  other_later later = ground (arith, step.seg_len_ge)

  -- In the first pass the window begins at 0, and does not wrap.
  first_idx :
      (same_lane : Bool) (j1 : ℕ)
      → s.pass ≡ 0
      → 0 < ref_area seg_len s same_lane
      → ref_area seg_len s same_lane < q seg_len
      → ref_idx seg_len s same_lane j1 < ref_area seg_len s same_lane
  unfolding ref_idx
  first_idx same_lane j1 first pos small =
      let r : rel (ref_area seg_len s same_lane) j1 < ref_area seg_len s same_lane =
        omega (arith, rel_exact (ref_area seg_len s same_lane) j1 pos) in
      let start : start_pos seg_len s ≡ 0 = ground arith in
      rw start (
        omega (
          arith,
          r,
          mod-eq_of_lt {n = 0 + rel (ref_area seg_len s same_lane) j1} {m = q seg_len}
              (omega arith),
        ))

  later_idx :
      (same_lane : Bool) (j1 : ℕ)
      → s.pass ≢ 0
      → ref_idx seg_len s same_lane j1
        ≡ ((s.slice + 1) % 4 * seg_len + rel (ref_area seg_len s same_lane) j1) % q seg_len
  unfolding ref_idx
  later_idx same_lane j1 later =
      let start : start_pos seg_len s ≡ (s.slice + 1) % 4 * seg_len = ground arith in rw start refl

  prev_first : 0 < cur_idx seg_len s → prev_idx seg_len s + 1 ≡ cur_idx seg_len s
  prev_first pos = omega (
    arith,
    window.base_le,
    step.idx_lt,
    mod_once (cur_idx seg_len s + q seg_len - 1) (q seg_len)
        (omega (arith, window.base_le, step.idx_lt)),
  )

  idx_lt_q : (same_lane : Bool) (j1 : ℕ) → ref_idx seg_len s same_lane j1 < q seg_len
  unfolding ref_idx
  idx_lt_q same_lane j1 =
      mod-lt (start_pos seg_len s + rel (ref_area seg_len s same_lane) j1)
        (omega (arith, step.seg_len_ge))

  own_in_first : (j1 : ℕ) → s.pass ≡ 0 → OwnLane seg_len s (ref_idx seg_len s true j1)
  own_in_first j1 first =
      let (area, pos) = own_first first in
      let below : ref_idx seg_len s true j1 < ref_area seg_len s true =
        first_idx true j1 first pos (omega (arith, area, window.base_le, step.idx_lt)) in
      let prev : prev_idx seg_len s + 1 ≡ cur_idx seg_len s = prev_first (omega (arith, area)) in
      record {
        block_lt = idx_lt_q true j1;
        ne_cur = λ e. omega (arith, below, area, e);
        ne_prev = λ e. omega (arith, below, area, prev, e);
        before = λ e. omega (arith, below, area);
      }

  own_in_later : (j1 : ℕ) → s.pass ≢ 0 → OwnLane seg_len s (ref_idx seg_len s true j1)
  own_in_later j1 later =
      let (area, pos) = own_later later in
      let r : rel (ref_area seg_len s true) j1 + 2 ≤ 3 * seg_len + s.idx =
        omega (arith, area, rel_exact (ref_area seg_len s true) j1 pos) in
      let (ne_cur, ne_prev) =
        window_own seg_len (s.slice * seg_len) ((s.slice + 1) % 4 * seg_len) window s.idx _
          step.seg_len_ge step.idx_lt r in
      record {
        block_lt = idx_lt_q true j1;
        ne_cur = λ e. ne_cur (sym (later_idx true j1 later) ∙ e);
        ne_prev = λ e. ne_prev (sym (later_idx true j1 later) ∙ e);
        before = λ e. absurd (later e);
      }

  other_in_first :
      (j1 : ℕ) → s.pass ≡ 0 → s.slice ≢ 0 → OtherLane seg_len s (ref_idx seg_len s false j1)
  other_in_first j1 first some_slice =
      let (area, pos) = other_first first some_slice in
      let below : ref_idx seg_len s false j1 < ref_area seg_len s false =
        first_idx false j1 first pos (omega (arith, area, window.base_le, step.seg_len_ge)) in
      record {
        block_lt = idx_lt_q false j1;
        elsewhere = inl (omega (arith, below, area));
        before = λ e. omega (arith, below, area);
      }

  other_in_later : (j1 : ℕ) → s.pass ≢ 0 → OtherLane seg_len s (ref_idx seg_len s false j1)
  other_in_later j1 later =
      let (area, pos) = other_later later in
      let r : rel (ref_area seg_len s false) j1 < 3 * seg_len =
        omega (arith, area, rel_exact (ref_area seg_len s false) j1 pos) in
      record {
        block_lt = idx_lt_q false j1;
        elsewhere =
            subst (λ p. (p < s.slice * seg_len) ⊎ (s.slice * seg_len + seg_len ≤ p))
              (sym (later_idx false j1 later))
              (window_other seg_len (s.slice * seg_len) ((s.slice + 1) % 4 * seg_len) window _ r);
        before = λ e. absurd (later e);
      }

  -- A step that refers to its own lane does not refer to the block that it writes, nor to the previous
  -- one, and in the first pass to one before both, for a step that the loops take.
  pub ref_idx-OwnLane :
      (j1 j2 : ℕ)
      → ref_lane lanes s j2 ≡ s.lane
      → OwnLane seg_len s (ref_idx seg_len s (ref_lane lanes s j2 == s.lane) j1)
  ref_idx-OwnLane j1 j2 own =
      let same : (ref_lane lanes s j2 == s.lane) ≡ true = ground arith in
      rw same (elim (dec_lt 0 s.pass) [
        | no none ↦ own_in_first j1 (omega arith)
        | yes later ↦ own_in_later j1 (λ e. omega (arith, e))
      ])

  -- A step that refers to another lane refers to a block outside the slice that is being filled, and
  -- in the first pass to one in an earlier slice, for a step that the loops take.
  ref_idx-OtherLane :
      (j1 j2 : ℕ)
      → ref_lane lanes s j2 ≢ s.lane
      → OtherLane seg_len s (ref_idx seg_len s (ref_lane lanes s j2 == s.lane) j1)
  ref_idx-OtherLane j1 j2 other =
      let differs : (ref_lane lanes s j2 == s.lane) ≡ false = ground arith in
      rw differs (elim (dec_lt 0 s.pass) [
        | no none ↦ other_in_first j1 (omega arith) (λ e. other (own_at_start (omega arith) e))
        | yes later ↦ other_in_later j1 (λ e. omega (arith, e))
      ])
    where
      own_at_start : s.pass ≡ 0 → s.slice ≡ 0 → ref_lane lanes s j2 ≡ s.lane
      own_at_start first none = ground arith
