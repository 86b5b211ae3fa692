-- ===== src/Qr/Matrix/Penalty.antt =====
-- penaltyScore of web/qr.js.
use maspassword.Base.{
  ℕ, suc, ◌+◌, ◌-◌, ◌*◌, ◌/◌, Bool, true, false, not, ◌&&◌, ◌||◌, leb, if◌then◌else◌, List, [], ◌∷◌,
  map, get_or, drop, one_if,
}
use maspassword.Qr.Matrix.{Cell, Grid, cell_at, from_to, distance}

abbrev same_color : Bool → Bool → Bool
same_color true b = b
same_color false b = not b

abbrev total_of : List ℕ → ℕ
total_of [] = 0
total_of (x ∷ xs) = x + total_of xs

abbrev run_score : ℕ → ℕ
run_score run = if leb 5 run then 3 + (run - 5) else 0

-- N1 in one line, behind an item `previous` that ends a run.
abbrev runs : Bool → ℕ → List Bool → ℕ
runs previous run [] = run_score run
runs previous run (m ∷ line) =
    let longer = runs m (suc run) line in
    let fresh = runs m 1 line in if same_color m previous then longer else run_score run + fresh

abbrev line_runs : List Bool → ℕ
line_runs [] = 0
line_runs (m ∷ line) = runs m 1 line

abbrev row_of : Grid → ℕ → List Bool
row_of g r = map (λ cell. cell.dark) (get_or g r [])

abbrev column_of : Grid → ℕ → List Bool
column_of g c =
    map (λ line. (get_or {A = Cell} line c (record { dark = false; is_function = false })).dark) g

abbrev square : Grid → ℕ → ℕ → ℕ
square g r c =
    let v = (cell_at g r c).dark in
    if same_color v (cell_at g r (suc c)).dark
      && same_color v (cell_at g (suc r) c).dark
      && same_color v (cell_at g (suc r) (suc c)).dark
    then 3
    else 0

abbrev pattern_a : List Bool
pattern_a = true ∷ false ∷ true ∷ true ∷ true ∷ false ∷ true ∷ false ∷ false ∷ false ∷ false ∷ []

abbrev pattern_b : List Bool
pattern_b = false ∷ false ∷ false ∷ false ∷ true ∷ false ∷ true ∷ true ∷ true ∷ false ∷ true ∷ []

-- `matches`, of the line from `i` on.
abbrev matches : List Bool → List Bool → Bool
matches line [] = true
matches [] (p ∷ pat) = false
matches (m ∷ line) (p ∷ pat) = same_color m p && matches line pat

abbrev finders : ℕ → List Bool → ℕ
finders size line = total_of (
    map (λ i. if matches (drop i line) pattern_a || matches (drop i line) pattern_b then 40 else 0)
      (from_to (size - 10) 0))

abbrev dark_cells : Grid → ℕ
dark_cells g = total_of (map (λ line. total_of (map (λ cell. one_if cell.dark) line)) g)

-- N4: |100 dark / size^2 - 50| / 5, rounded down, times 10.
abbrev balance : ℕ → ℕ → ℕ
balance dark size = distance (dark * 100) (50 * (size * size)) / (5 * (size * size)) * 10

unfoldable pub penalty_score : ℕ → Grid → ℕ
penalty_score size g =
    let all = from_to size 0 in
    total_of (map (λ r. line_runs (row_of g r) + line_runs (column_of g r)) all)
    + total_of (
        map (λ r. total_of (map (λ c. square g r c) (from_to (size - 1) 0))) (from_to (size - 1) 0))
    + total_of (map (λ r. finders size (row_of g r) + finders size (column_of g r)) all)
    + balance (dark_cells g) size
