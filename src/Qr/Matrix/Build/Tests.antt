-- ===== src/Qr/Matrix/Build/Tests.antt =====
-- The format bits of two masks, and the choice of a mask for a matrix of version 1.
use maspassword.Base.{ℕ, ◌<◌, ◌≤◌, ◌≡◌, refl, true, false, [], ◌∷◌, map, get_or, drop}
use maspassword.Qr.Matrix.{
  Cell, Grid, format_bits, function_patterns, set_all, set_cell, draw_format_bits, format_writes,
}
use maspassword.Qr.Matrix.Place.{placed, place_bits}
use maspassword.Qr.Matrix.Penalty.{penalty_score}
use maspassword.Qr.Matrix.Build.{choose_mask, masked}
use maspassword.Qr.Matrix.Build.Best.{choose_mask_best}

published_format_bits :
    map format_bits (0 ∷ 1 ∷ 2 ∷ 3 ∷ 4 ∷ 5 ∷ 6 ∷ 7 ∷ [])
    ≡ 0x5412 ∷ 0x5125 ∷ 0x5e7c ∷ 0x5b4b ∷ 0x45f9 ∷ 0x40ce ∷ 0x4f97 ∷ 0x4aa0 ∷ []
unfolding format_bits
published_format_bits = refl

abbrev greeting_matrix : Grid
greeting_matrix = placed 1 (0x40 ∷ 0x24 ∷ 0x86 ∷ 0x90 ∷ 0xec ∷ 0x11 ∷ [])

choose_mask_best_example :
    (m : ℕ) × (m < 8)
    × (choose_mask 21 greeting_matrix ≡ masked 21 m greeting_matrix)
    × ((k : ℕ)
        → k < 8
        → penalty_score 21 (masked 21 m greeting_matrix)
          ≤ penalty_score 21 (masked 21 k greeting_matrix))
choose_mask_best_example = choose_mask_best 21 greeting_matrix

-- The last column from row 13 on: the data start in its corner and go up.
first_bits_placed :
    drop 13 (
      map
        (λ line. (get_or {A = Cell} line 20 (record { dark = false; is_function = false })).dark)
        greeting_matrix)
    ≡ false ∷ false ∷ true ∷ false ∷ false ∷ false ∷ false ∷ false ∷ []
unfolding placed place_bits function_patterns set_all set_cell draw_format_bits format_writes
    format_bits
first_bits_placed = refl
