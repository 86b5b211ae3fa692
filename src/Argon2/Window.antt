-- ===== src/Argon2/Window.antt =====
-- A position counted round a lane, from behind the current segment.
use native.Mathlib.Nat.{mod-eq_of_lt, mod-eq-sub-mod}
use native.Mathlib.Decide.{dec_lt}
use maspassword.Base.{ℕ, zero, suc, ◌+◌, ◌-◌, ◌*◌, ◌%◌, ◌<◌, ◌≤◌, ◌≡◌, ◌≢◌, ◌⊎◌, inl, inr, arith}

pub mod_once : (x n : ℕ) → x < 2 * n → ((x < n) × (x % n ≡ x)) ⊎ ((n ≤ x) × (x % n + n ≡ x))
mod_once x n lt = elim (dec_lt x n) [
  | yes small ↦ inl (small, mod-eq_of_lt small)
  | no big ↦
      inr (
        omega arith,
        omega (arith, mod-eq-sub-mod {n = x} {m = n} (omega arith), rest (omega arith)),
      )
]
  where
    rest : x - n < n → (x - n) % n ≡ x - n
    rest h = mod-eq_of_lt h

-- The window of a later pass begins behind the current segment, which begins at `base`.
pub record Window (seg_len base start : ℕ) : Type 0 where
  pub base_le : base ≤ 3 * seg_len
  pub begins : (start ≡ base + seg_len) ⊎ ((start ≡ 0) × (base ≡ 3 * seg_len))

pub slice-Window :
    (seg_len slice : ℕ) → slice < 4 → Window seg_len (slice * seg_len) ((slice + 1) % 4 * seg_len)
slice-Window seg_len zero h = record { base_le = omega arith; begins = inl (omega arith) }
slice-Window seg_len (suc zero) h = record { base_le = omega arith; begins = inl (omega arith) }
slice-Window seg_len (suc (suc zero)) h = record {
  base_le = omega arith;
  begins = inl (omega arith);
}
slice-Window seg_len (suc (suc (suc zero))) h = record {
  base_le = omega arith;
  begins = inr (omega arith, omega arith);
}
slice-Window seg_len (suc (suc (suc (suc k)))) h = absurd (omega arith)

module _ (seg_len base start : ℕ) (window : Window seg_len base start) where
  -- Up to the block before the previous one.
  pub window_own :
      (idx r : ℕ)
      → 2 ≤ seg_len
      → idx < seg_len
      → r + 2 ≤ 3 * seg_len + idx
      → ((start + r) % (4 * seg_len) ≢ base + idx)
        × ((start + r) % (4 * seg_len) ≢ (base + idx + 4 * seg_len - 1) % (4 * seg_len))
  window_own idx r two lt le =
      let m = mod_once (start + r) (4 * seg_len) (omega (arith, window.base_le, window.begins)) in
      let n =
        mod_once (base + idx + 4 * seg_len - 1) (4 * seg_len) (omega (arith, window.base_le)) in
      (
        λ e. omega (arith, window.base_le, window.begins, m, e),
        λ e. omega (arith, window.base_le, window.begins, m, n, e),
      )

  -- Outside the current segment.
  pub window_other :
      (r : ℕ)
      → r < 3 * seg_len
      → ((start + r) % (4 * seg_len) < base) ⊎ (base + seg_len ≤ (start + r) % (4 * seg_len))
  window_other r lt =
      let m = mod_once (start + r) (4 * seg_len) (omega (arith, window.base_le, window.begins)) in
      ground (arith, window.base_le, window.begins, m)
