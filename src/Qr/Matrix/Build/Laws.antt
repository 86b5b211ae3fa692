-- ===== src/Qr/Matrix/Build/Laws.antt =====
-- Masks and writes of web/qr.js: a mask applied twice is undone, and it does not touch what is
-- written; a later write to the same cells replaces an earlier one.
use maspassword.Base.{
  ℕ, zero, suc, ◌≡◌, ◌≢◌, ◌⊎◌, inl, inr, refl, ap, ◌∙◌, Bool, true, false, List, [], ◌∷◌, set,
}
use maspassword.Qr.Matrix.{
  Cell, Grid, set_cell, Write, set_all, mask_at, mask_cell, mask_line, mask_rows, apply_mask,
  format_writes, draw_format_bits,
}

abbrev cell : Bool → Bool → Cell
cell d f = record { dark = d; is_function = f }

mask_twice : (flip d f : Bool) → mask_cell flip (mask_cell flip (cell d f)) ≡ cell d f
unfolding mask_cell
mask_twice true true true = refl
mask_twice true false true = refl
mask_twice true true false = refl
mask_twice true false false = refl
mask_twice false d true = refl
mask_twice false d false = refl

mask_line_twice :
    (mask r c : ℕ) (line : List Cell) → mask_line mask r c (mask_line mask r c line) ≡ line
unfolding mask_line
mask_line_twice mask r c [] = refl
mask_line_twice mask r c (x ∷ line) = λ i.
    mask_twice (mask_at mask r c) x.dark x.is_function i ∷ mask_line_twice mask r (suc c) line i

mask_rows_twice : (mask r : ℕ) (g : Grid) → mask_rows mask r (mask_rows mask r g) ≡ g
unfolding mask_rows
mask_rows_twice mask r [] = refl
mask_rows_twice mask r (line ∷ g) =
    λ i. mask_line_twice mask r 0 line i ∷ mask_rows_twice mask (suc r) g i

pub apply_mask_twice : (mask : ℕ) (g : Grid) → apply_mask mask (apply_mask mask g) ≡ g
unfolding apply_mask
apply_mask_twice mask g = mask_rows_twice mask 0 g

-- A written cell is one of the functions, which a mask keeps.
mask_line-set :
    (mask r c col : ℕ) (dark : Bool) (line : List Cell)
    → mask_line mask r c (set line col (cell dark true))
      ≡ set (mask_line mask r c line) col (cell dark true)
unfolding mask_line mask_cell
mask_line-set mask r c col dark [] = refl
mask_line-set mask r c zero dark (x ∷ line) = refl
mask_line-set mask r c (suc col) dark (x ∷ line) =
    ap (λ t. mask_cell (mask_at mask r c) x ∷ t) (mask_line-set mask r (suc c) col dark line)

mask_rows-set_cell :
    (mask r row col : ℕ) (dark : Bool) (g : Grid)
    → mask_rows mask r (set_cell row col dark g) ≡ set_cell row col dark (mask_rows mask r g)
unfolding mask_rows set_cell
mask_rows-set_cell mask r zero col dark [] = refl
mask_rows-set_cell mask r (suc row) col dark [] = refl
mask_rows-set_cell mask r zero col dark (line ∷ g) =
    ap (λ t. t ∷ mask_rows mask (suc r) g) (mask_line-set mask r 0 col dark line)
mask_rows-set_cell mask r (suc row) col dark (line ∷ g) =
    ap (λ t. mask_line mask r 0 line ∷ t) (mask_rows-set_cell mask (suc r) row col dark g)

apply_mask-set_all :
    (mask : ℕ) (writes : List Write) (g : Grid)
    → apply_mask mask (set_all writes g) ≡ set_all writes (apply_mask mask g)
unfolding apply_mask set_all
apply_mask-set_all mask [] g = refl
apply_mask-set_all mask (w ∷ writes) g =
    apply_mask-set_all mask writes (set_cell w.row w.col w.dark g)
    ∙ ap (set_all writes) (mask_rows-set_cell mask 0 w.row w.col w.dark g)

pub apply_mask-draw_format_bits :
    (size mask other : ℕ) (g : Grid)
    → apply_mask mask (draw_format_bits size other g)
      ≡ draw_format_bits size other (apply_mask mask g)
unfolding draw_format_bits
apply_mask-draw_format_bits size mask other g = apply_mask-set_all mask (format_writes size other) g

-- Two writes.
set-set : (line : List Cell) (i : ℕ) (x y : Cell) → set (set line i x) i y ≡ set line i y
set-set [] i x y = refl
set-set (z ∷ line) zero x y = refl
set-set (z ∷ line) (suc i) x y = ap (λ t. z ∷ t) (set-set line i x y)

set_comm :
    (line : List Cell) (i j : ℕ) (x y : Cell)
    → i ≢ j
    → set (set line i x) j y ≡ set (set line j y) i x
set_comm [] i j x y ne = refl
set_comm (z ∷ line) zero zero x y ne = absurd (ne refl)
set_comm (z ∷ line) zero (suc j) x y ne = refl
set_comm (z ∷ line) (suc i) zero x y ne = refl
set_comm (z ∷ line) (suc i) (suc j) x y ne =
    ap (λ t. z ∷ t) (set_comm line i j x y (λ e. ne (ap suc e)))

pub set_cell-set_cell :
    (r c : ℕ) (d e : Bool) (g : Grid) → set_cell r c e (set_cell r c d g) ≡ set_cell r c e g
unfolding set_cell
set_cell-set_cell zero c d e [] = refl
set_cell-set_cell (suc r) c d e [] = refl
set_cell-set_cell zero c d e (line ∷ g) =
    ap (λ t. t ∷ g) (set-set line c (cell d true) (cell e true))
set_cell-set_cell (suc r) c d e (line ∷ g) = ap (λ t. line ∷ t) (set_cell-set_cell r c d e g)

pub set_cell_comm :
    (r c s k : ℕ) (d e : Bool) (g : Grid)
    → (r ≢ s) ⊎ (c ≢ k)
    → set_cell s k e (set_cell r c d g) ≡ set_cell r c d (set_cell s k e g)
unfolding set_cell
set_cell_comm zero c zero k d e [] ne = refl
set_cell_comm zero c (suc s) k d e [] ne = refl
set_cell_comm (suc r) c zero k d e [] ne = refl
set_cell_comm (suc r) c (suc s) k d e [] ne = refl
set_cell_comm zero c zero k d e (line ∷ g) (inl ne) = absurd (ne refl)
set_cell_comm zero c zero k d e (line ∷ g) (inr ne) =
    ap (λ t. t ∷ g) (set_comm line c k (cell d true) (cell e true) ne)
set_cell_comm zero c (suc s) k d e (line ∷ g) ne = refl
set_cell_comm (suc r) c zero k d e (line ∷ g) ne = refl
set_cell_comm (suc r) c (suc s) k d e (line ∷ g) (inl ne) =
    ap (λ t. line ∷ t) (set_cell_comm r c s k d e g (inl (λ same. ne (ap suc same))))
set_cell_comm (suc r) c (suc s) k d e (line ∷ g) (inr ne) =
    ap (λ t. line ∷ t) (set_cell_comm r c s k d e g (inr ne))
