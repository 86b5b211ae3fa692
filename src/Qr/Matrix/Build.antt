-- ===== src/Qr/Matrix/Build.antt =====
-- buildMatrix of web/qr.js: the choice of the mask.
mod Laws
mod Redraw
mod Best
mod Tests
use maspassword.Base.{
  ℕ, zero, suc, ◌+◌, ◌*◌, Bool, true, ltb, if◌then◌else◌, List, [], ◌∷◌, Option, none, some, map,
}
use maspassword.Qr.{Encoded, encode_text}
use maspassword.Qr.Matrix.{Cell, Grid, apply_mask, draw_format_bits}
use maspassword.Qr.Matrix.Place.{placed}
use maspassword.Qr.Matrix.Penalty.{penalty_score}

-- The matrix, `bestMask` and `bestPenalty`, where `none` is Infinity.
pub record Trial : Type 0 where
  grid : Grid
  best_mask : ℕ
  best_penalty : Option ℕ

unfoldable pub is_lower : ℕ → Option ℕ → Bool
is_lower p none = true
is_lower p (some q) = ltb p q

unfoldable pub try_mask : ℕ → ℕ → Trial → Trial
try_mask size mask t =
    let drawn = draw_format_bits size mask (apply_mask mask t.grid) in
    let p = penalty_score size drawn in
    let better = is_lower p t.best_penalty in
    record {
      grid = apply_mask mask drawn;
      best_mask = if better then mask else t.best_mask;
      best_penalty = if better then some p else t.best_penalty;
    }

-- The loop, from `mask` on.
unfoldable pub try_masks : ℕ → ℕ → ℕ → Trial → Trial
try_masks zero size mask t = t
try_masks (suc n) size mask t = try_masks n size (suc mask) (try_mask size mask t)

unfoldable pub masked : ℕ → ℕ → Grid → Grid
masked size mask g = draw_format_bits size mask (apply_mask mask g)

-- The masks, tried on a matrix that holds the data.
unfoldable pub choose_mask : ℕ → Grid → Grid
choose_mask size g =
    let t = try_masks 8 size 0 (record { grid = g; best_mask = 0; best_penalty = none }) in
    masked size t.best_mask t.grid

unfoldable pub build_matrix : ℕ → List ℕ → List (List Bool)
build_matrix version codewords =
    map (λ line. map (λ cell. cell.dark) line)
      (choose_mask (version * 4 + 17) (placed version codewords))

unfoldable pub qr_matrix : List ℕ → Option (List (List Bool))
qr_matrix bytes = elim (encode_text bytes) [
  | none ↦ none
  | some e ↦ some (build_matrix e.version e.codewords)
]
