-- ===== src/Qr/Matrix/Build/Redraw.antt =====
-- The format bits of web/qr.js are drawn again over those of another mask.
use maspassword.Base.{
  ℕ, ◌≡◌, ◌≢◌, ◌⊎◌, inl, inr, refl, ap, ◌∙◌, Bool, true, false, ◌&&◌, ◌||◌, ◌==◌, Bool-cases, List,
  [], ◌∷◌, map, All, arith,
}
use maspassword.Qr.Matrix.{Grid, set_cell, Write, set_all, format_writes, draw_format_bits}
use maspassword.Qr.Matrix.Build.Laws.{set_cell-set_cell, set_cell_comm}

positions : List Write → List (ℕ × ℕ)
positions writes = map (λ w. (w.row, w.col)) writes

covers : List (ℕ × ℕ) → ℕ → ℕ → Bool
covers [] r c = false
covers (p ∷ ps) r c = (p.0 == r && p.1 == c) || covers ps r c

elsewhere : (a r b c : ℕ) → (a == r && b == c) ≡ false → (r ≢ a) ⊎ (c ≢ b)
elsewhere a r b c e = elim (Bool-cases (a == r)) [
  | inl same ↦ inr (λ k. ground arith)
  | inr other ↦ inl (λ k. ground arith)
]

-- What is written to a cell before it is written again does not matter.
overwritten :
    (writes : List Write) (r c : ℕ) (d : Bool) (g : Grid)
    → covers (positions writes) r c ≡ true
    → set_all writes (set_cell r c d g) ≡ set_all writes g
unfolding covers positions set_all
overwritten [] r c d g e = cc
overwritten (w ∷ writes) r c d g e = elim (Bool-cases (w.row == r && w.col == c)) [
  | inl here ↦
      let same_row : r ≡ w.row = ground arith in
      let same_col : c ≡ w.col = ground arith in
      ap (set_all writes) (
        (λ i. set_cell w.row w.col w.dark (set_cell (same_row i) (same_col i) d g))
        ∙ set_cell-set_cell w.row w.col d w.dark g)
  | inr there ↦
      ap (set_all writes)
        (set_cell_comm r c w.row w.col d w.dark g (elsewhere w.row r w.col c there))
      ∙ overwritten writes r c d (set_cell w.row w.col w.dark g) (ground arith)
]

overwritten_all :
    (writes earlier : List Write) (g : Grid)
    → All (λ w. covers (positions writes) w.row w.col ≡ true) earlier
    → set_all writes (set_all earlier g) ≡ set_all writes g
unfolding set_all
overwritten_all writes [] g h = refl
overwritten_all writes (w ∷ earlier) g h =
    overwritten_all writes earlier (set_cell w.row w.col w.dark g) h.1
    ∙ overwritten writes w.row w.col w.dark g h.0

covered :
    (earlier : List Write) (ps : List (ℕ × ℕ))
    → ((r c : ℕ) → covers (positions earlier) r c ≡ true → covers ps r c ≡ true)
    → All (λ w. covers ps w.row w.col ≡ true) earlier
unfolding covers positions
covered [] ps h = tt
covered (w ∷ earlier) ps h =
    (h w.row w.col (ground arith), covered earlier ps (λ r c e. h r c (ground arith)))

same_positions :
    (size m k : ℕ) → positions (format_writes size m) ≡ positions (format_writes size k)
unfolding positions format_writes
same_positions size m k = refl

pub draw_format_bits-draw_format_bits :
    (size m k : ℕ) (g : Grid)
    → draw_format_bits size m (draw_format_bits size k g) ≡ draw_format_bits size m g
unfolding draw_format_bits
draw_format_bits-draw_format_bits size m k g =
    overwritten_all (format_writes size m) (format_writes size k) g (
      covered (format_writes size k) (positions (format_writes size m))
        (λ r c e. ap (λ ps. covers ps r c) (same_positions size m k) ∙ e))
