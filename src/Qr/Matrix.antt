-- ===== src/Qr/Matrix.antt =====
-- The matrix of web/qr.js: its cells, the patterns and the masks. A cell
-- holds an item of `modules` and the item of `isFunction` at the same place.
mod Place
mod Penalty
mod Build
use maspassword.Base.{
  ℕ, zero, suc, ◌+◌, ◌-◌, ◌*◌, ◌/◌, ◌%◌, ◌^◌, max, Bool, true, false, not, ◌&&◌, ◌||◌, ◌==◌, ltb,
  leb, if◌then◌else◌, List, [], ◌∷◌, ◌++◌, map, length, get_or, set, replicate,
}
use Prim.Native.Nat.{bit_xor, bit_or, bit_and}

pub record Cell : Type 0 where
  dark : Bool
  is_function : Bool

abbrev pub Grid : Type 0
Grid = List (List Cell)

abbrev blank_cell : Cell
blank_cell = record { dark = false; is_function = false }

abbrev pub cell_at : Grid → ℕ → ℕ → Cell
cell_at g row col = get_or (get_or g row []) col blank_cell

-- `set`.
unfoldable pub set_cell : ℕ → ℕ → Bool → Grid → Grid
set_cell zero col dark [] = []
set_cell (suc row) col dark [] = []
set_cell zero col dark (line ∷ g) = set line col (record { dark = dark; is_function = true }) ∷ g
set_cell (suc row) col dark (line ∷ g) = line ∷ set_cell row col dark g

-- A write of the source: the row, the column and the colour.
pub record Write : Type 0 where
  row : ℕ
  col : ℕ
  dark : Bool

abbrev pub writing : ℕ → ℕ → Bool → Write
writing r c d = record { row = r; col = c; dark = d }

unfoldable pub set_all : List Write → Grid → Grid
set_all [] g = g
set_all (w ∷ writes) g = set_all writes (set_cell w.row w.col w.dark g)

-- The numbers from `i` on.
abbrev pub from_to : ℕ → ℕ → List ℕ
from_to zero i = []
from_to (suc n) i = i ∷ from_to n (suc i)

abbrev pub flat {ℓ κ} : {A : Type ℓ} {B : Type κ} → (A → List B) → List A → List B
flat f [] = []
flat f (x ∷ xs) = f x ++ flat f xs

abbrev pub distance : ℕ → ℕ → ℕ
distance a b = a - b + (b - a)

abbrev timing : ℕ → List Write
timing size = flat (λ i. writing 6 i (i % 2 == 0) ∷ writing i 6 (i % 2 == 0) ∷ []) (from_to size 0)

-- drawFinder, with `dr + 4` and `dc + 4` from 0 to 8.
abbrev finder : ℕ → ℕ → ℕ → List Write
finder size r c =
    flat
      (λ dr.
        flat
          (λ dc.
            let dist = max (distance dr 4) (distance dc 4) in
            if ltb (r + dr) 4 || leb size (r + dr - 4) || ltb (c + dc) 4 || leb size (c + dc - 4)
            then []
            else writing (r + dr - 4) (c + dc - 4) (not (dist == 2) && not (dist == 4)) ∷ [])
          (from_to 9 0))
      (from_to 9 0)

abbrev align : ℕ → List ℕ
align version =
    get_or
      ([]
        ∷ []
        ∷ (6 ∷ 18 ∷ [])
        ∷ (6 ∷ 22 ∷ [])
        ∷ (6 ∷ 26 ∷ [])
        ∷ (6 ∷ 30 ∷ [])
        ∷ (6 ∷ 34 ∷ [])
        ∷ (6 ∷ 22 ∷ 38 ∷ [])
        ∷ (6 ∷ 24 ∷ 42 ∷ [])
        ∷ (6 ∷ 26 ∷ 46 ∷ [])
        ∷ (6 ∷ 28 ∷ 50 ∷ [])
        ∷ (6 ∷ 30 ∷ 54 ∷ [])
        ∷ (6 ∷ 32 ∷ 58 ∷ [])
        ∷ (6 ∷ 34 ∷ 62 ∷ [])
        ∷ (6 ∷ 26 ∷ 46 ∷ 66 ∷ [])
        ∷ (6 ∷ 26 ∷ 48 ∷ 70 ∷ [])
        ∷ [])
      version []

-- One alignment pattern, with `dr + 2` and `dc + 2` from 0 to 4.
abbrev alignment : ℕ → ℕ → List Write
alignment r c =
    flat
      (λ dr.
        map
          (λ dc. writing (r + dr - 2) (c + dc - 2) (not (max (distance dr 2) (distance dc 2) == 1)))
          (from_to 5 0))
      (from_to 5 0)

abbrev alignments : ℕ → List Write
alignments version =
    let centers = align version in
    let last = length centers - 1 in
    flat
      (λ i.
        flat
          (λ j.
            if (i == 0 && j == 0) || (i == 0 && j == last) || (i == last && j == 0)
            then []
            else alignment (get_or centers i 0) (get_or centers j 0))
          (from_to (length centers) 0))
      (from_to (length centers) 0)

-- `n` steps of a division by `poly`, whose degree is `degree`.
abbrev divide : ℕ → ℕ → ℕ → ℕ → ℕ
divide zero degree poly rem = rem
divide (suc n) degree poly rem =
    divide n degree poly (bit_xor (rem * 2) (rem / 2 ^ (degree - 1) * poly))

abbrev pub bit_of : ℕ → ℕ → Bool
bit_of bits i = bit_and (bits / 2 ^ i) 1 == 1

abbrev version_info : ℕ → ℕ → List Write
version_info version size =
    let bits = bit_or (version * 2 ^ 12) (divide 12 12 0x1f25 version) in
    if leb 7 version
    then flat
        (λ i.
          let a = size - 11 + i % 3 in
          let b = i / 3 in writing b a (bit_of bits i) ∷ writing a b (bit_of bits i) ∷ [])
        (from_to 18 0)
    else []

unfoldable pub format_bits : ℕ → ℕ
format_bits mask =
    let format = bit_or (0 * 2 ^ 3) mask in
    bit_xor (bit_or (format * 2 ^ 10) (divide 10 10 0x537 format)) 0x5412

-- drawFormatBits, as the list of its writes.
unfoldable pub format_writes : ℕ → ℕ → List Write
format_writes size mask =
    let bit = bit_of (format_bits mask) in
    map (λ i. writing i 8 (bit i)) (from_to 6 0)
    ++ (writing 7 8 (bit 6) ∷ writing 8 8 (bit 7) ∷ writing 8 7 (bit 8) ∷ [])
    ++ map (λ i. writing 8 (14 - i) (bit i)) (from_to 6 9)
    ++ map (λ i. writing 8 (size - 1 - i) (bit i)) (from_to 8 0)
    ++ map (λ i. writing (size - 15 + i) 8 (bit i)) (from_to 7 8)
    ++ (writing (size - 8) 8 true ∷ [])

unfoldable pub draw_format_bits : ℕ → ℕ → Grid → Grid
draw_format_bits size mask g = set_all (format_writes size mask) g

-- MASKS.
unfoldable pub mask_at : ℕ → ℕ → ℕ → Bool
mask_at mask r c =
    if mask == 0
    then (r + c) % 2 == 0
    else if mask == 1
    then r % 2 == 0
    else if mask == 2
    then c % 3 == 0
    else if mask == 3
    then (r + c) % 3 == 0
    else if mask == 4
    then (r / 2 + c / 3) % 2 == 0
    else if mask == 5
    then r * c % 2 + r * c % 3 == 0
    else if mask == 6
    then (r * c % 2 + r * c % 3) % 2 == 0
    else ((r + c) % 2 + r * c % 3) % 2 == 0

unfoldable pub mask_cell : Bool → Cell → Cell
mask_cell flip cell =
    if not cell.is_function && flip
    then record { dark = not cell.dark; is_function = cell.is_function }
    else cell

unfoldable pub mask_line : ℕ → ℕ → ℕ → List Cell → List Cell
mask_line mask r c [] = []
mask_line mask r c (cell ∷ line) = mask_cell (mask_at mask r c) cell ∷ mask_line mask r (suc c) line

unfoldable pub mask_rows : ℕ → ℕ → Grid → Grid
mask_rows mask r [] = []
mask_rows mask r (line ∷ g) = mask_line mask r 0 line ∷ mask_rows mask (suc r) g

unfoldable pub apply_mask : ℕ → Grid → Grid
apply_mask mask g = mask_rows mask 0 g

-- The writes before the data, from an empty matrix.
unfoldable pub function_patterns : ℕ → Grid
function_patterns version =
    let size = version * 4 + 17 in
    set_all (version_info version size) (
      draw_format_bits size 0 (
        set_all
          (timing size
            ++ finder size 3 3
            ++ finder size 3 (size - 4)
            ++ finder size (size - 4) 3
            ++ alignments version)
          (replicate size (replicate size blank_cell))))
