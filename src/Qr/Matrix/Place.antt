-- ===== src/Qr/Matrix/Place.antt =====
-- The placement of the data in buildMatrix of web/qr.js.
use maspassword.Base.{
  ℕ, zero, suc, ◌+◌, ◌-◌, ◌*◌, ◌/◌, ◌%◌, Bool, not, ◌&&◌, ◌==◌, ltb, if◌then◌else◌, List, [], ◌∷◌,
  ◌++◌, length, get_or, set,
}
use Prim.Native.Nat.{bit_and}
use maspassword.Qr.Matrix.{Grid, cell_at, from_to, flat, bit_of, function_patterns}

-- The matrix and `bitIndex`.
pub record Placing : Type 0 where
  grid : Grid
  bit_index : ℕ

abbrev color_cell : ℕ → ℕ → Bool → Grid → Grid
color_cell row col dark g = set g row (
    set (get_or g row []) col
      (record { dark = dark; is_function = (cell_at g row col).is_function }))

-- The cells in the order of the zigzag: the column that `right` is corrected to, row by row.
abbrev zigzag : ℕ → ℕ → ℕ → List (ℕ × ℕ)
zigzag zero size right = []
zigzag (suc fuel) size right =
    let used = if right == 6 then 5 else right in
    let rest = zigzag fuel size (used - 2) in
    if ltb right 1
    then []
    else flat
        (λ vert.
          let row = if bit_and (used + 1) 2 == 0 then size - 1 - vert else vert in
          (row, used) ∷ (row, used - 1) ∷ [])
        (from_to size 0)
      ++ rest

unfoldable pub place_bits : List ℕ → List (ℕ × ℕ) → Placing → Placing
place_bits codewords [] p = p
place_bits codewords (cell ∷ cells) p =
    let free =
      not (cell_at p.grid cell.0 cell.1).is_function && ltb p.bit_index (length codewords * 8) in
    let bit = bit_of (get_or codewords (p.bit_index / 8) 0) (7 - p.bit_index % 8) in
    place_bits codewords cells (
      if free
      then record { grid = color_cell cell.0 cell.1 bit p.grid; bit_index = suc p.bit_index }
      else p)

-- The matrix before the masks.
unfoldable pub placed : ℕ → List ℕ → Grid
placed version codewords =
    let size = version * 4 + 17 in
    (place_bits codewords (zigzag size size (size - 1))
      (record { grid = function_patterns version; bit_index = 0 })).grid
