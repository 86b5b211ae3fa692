-- ===== src/Qr/Matrix/Build/Best.antt =====
-- The mask that buildMatrix of web/qr.js keeps.
use maspassword.Base.{
  ℕ, zero, suc, ◌+◌, ◌<◌, ◌≤◌, ◌≡◌, ◌⊎◌, inl, inr, refl, ap, ◌∙◌, ltb, if◌then◌else◌, Bool-cases,
  Option, none, some, ltb→lt, arith,
}
use mathlib.Core.Path.{subst}
use mathlib.Core.Option.{some-injective}
use maspassword.Qr.Matrix.{Grid, apply_mask, draw_format_bits}
use maspassword.Qr.Matrix.Penalty.{penalty_score}
use maspassword.Qr.Matrix.Build.{Trial, is_lower, try_mask, try_masks, masked, choose_mask}
use maspassword.Qr.Matrix.Build.Laws.{apply_mask_twice, apply_mask-draw_format_bits}
use maspassword.Qr.Matrix.Build.Redraw.{draw_format_bits-draw_format_bits}

-- A trial that was undone leaves no more than its format bits, which the next one draws over.
undone :
    (size m k : ℕ) (g : Grid) → masked size k (apply_mask m (masked size m g)) ≡ masked size k g
unfolding masked
undone size m k g =
    ap (λ t. draw_format_bits size k (apply_mask k t))
      (apply_mask-draw_format_bits size m m (apply_mask m g)
        ∙ ap (draw_format_bits size m) (apply_mask_twice m g))
    ∙ ap (draw_format_bits size k) (apply_mask-draw_format_bits size k m g)
    ∙ draw_format_bits-draw_format_bits size k m (apply_mask k g)

module _ (size : ℕ) (g : Grid) where
  penalty : ℕ → ℕ
  penalty k = penalty_score size (masked size k g)

  -- `best` has the lowest penalty, `o`, of the masks below `mask`.
  abbrev Best : ℕ → ℕ → Option ℕ → Type 0
  Best mask best o =
      ((o ≡ none) × (mask ≡ 0))
      ⊎ ((best < mask)
          × (o ≡ some (penalty best))
          × ((k : ℕ) → k < mask → penalty best ≤ penalty k))

  extended :
      (mask best : ℕ)
      → ((k : ℕ) → k < mask → penalty best ≤ penalty k)
      → penalty best ≤ penalty mask
      → (k : ℕ) → k < suc mask
      → penalty best ≤ penalty k
  extended mask best least le k lt = elim (Bool-cases (ltb k mask)) [
    | inl before ↦ least k (ground arith)
    | inr last ↦ let same : mask ≡ k = ground arith in omega (arith, le, ap penalty same)
  ]

  kept :
      (mask best p : ℕ) (o : Option ℕ)
      → p ≡ penalty mask
      → Best mask best o
      → Best (suc mask) (if is_lower p o then mask else best) (if is_lower p o then some p else o)
  unfolding is_lower
  kept mask best p none e (inl start) = inr (
    omega arith,
    ap some e,
    extended mask mask (λ k lt. absurd (omega (arith, lt, start.1))) (omega arith),
  )
  kept mask best p (some q) e (inl start) = cc
  kept mask best p none e (inr (lt, o, least)) = cc
  kept mask best p (some q) e (inr (lt, o, least)) =
      let q_best : q ≡ penalty best = some-injective _ _ o in
      elim (Bool-cases (ltb p q)) [
        | inl better ↦ rw better (
            inr (
              omega arith,
              ap some e,
              extended mask mask
                  (λ k k_lt. omega (arith, ltb→lt p q better, e, q_best, least k k_lt))
                  (omega arith),
            ))
        | inr worse ↦
            rw worse
              (inr (omega arith, o, extended mask best least (ground (arith, worse, e, q_best))))
      ]

  -- What is known before `mask` is tried.
  record Tried (mask : ℕ) (t : Trial) : Type 0 where
    same : (k : ℕ) → masked size k t.grid ≡ masked size k g
    best : Best mask t.best_mask t.best_penalty

  try_mask-Tried : (mask : ℕ) (t : Trial) → Tried mask t → Tried (suc mask) (try_mask size mask t)
  unfolding try_mask masked penalty
  try_mask-Tried mask t h = record {
    same = λ k. undone size mask k t.grid ∙ h.same k;
    best =
        kept mask t.best_mask (penalty_score size (masked size mask t.grid)) t.best_penalty
          (ap (penalty_score size) (h.same mask)) h.best;
  }

  try_masks-Tried :
      (n mask : ℕ) (t : Trial) → Tried mask t → Tried (mask + n) (try_masks n size mask t)
  unfolding try_masks
  try_masks-Tried zero mask t h =
      let same : mask ≡ mask + 0 = omega arith in subst (λ k. Tried k t) same h
  try_masks-Tried (suc n) mask t h =
      let same : suc mask + n ≡ mask + suc n = omega arith in
      subst (λ k. Tried k (try_masks n size (suc mask) (try_mask size mask t))) same
        (try_masks-Tried n (suc mask) (try_mask size mask t) (try_mask-Tried mask t h))

-- whatever matrix the masks are tried on, the one that is returned is the matrix with one of the eight masks and its format bits, and none of the eight has a lower penalty.
pub choose_mask_best :
    (size : ℕ) (g : Grid)
    → (m : ℕ) × (m < 8)
      × (choose_mask size g ≡ masked size m g)
      × ((k : ℕ)
          → k < 8
          → penalty_score size (masked size m g) ≤ penalty_score size (masked size k g))
unfolding choose_mask penalty
choose_mask_best size g =
    let start : Trial = record { grid = g; best_mask = 0; best_penalty = none } in
    let t = try_masks 8 size 0 start in
    let h =
      try_masks-Tried size g 8 0 start (record { same = λ k. refl; best = inl (refl, refl) }) in
    elim h.best [
      | inl nothing ↦ absurd (omega (arith, nothing.1))
      | inr found ↦ (t.best_mask, omega (arith, found.0), h.same t.best_mask, λ k lt. found.2 k lt)
    ]
