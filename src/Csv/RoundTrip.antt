-- ===== src/Csv/RoundTrip.antt =====
-- parseCSV reads back what the CSV writer of web/export.js writes.
use mathlib.Core.Path.{subst}
use mathlib.Core.Option
use maspassword.Base.{
  ℕ, zero, suc, ◌≤◌, ◌<◌, true, false, ◌≡◌, refl, ap, inl, inr, Option, some, List, [], ◌∷◌, ◌++◌,
  append_assoc, Text, length, length-append, ◌==◌, ==_iff, join, arith, Bool-cases,
}
use maspassword.Csv.{
  quote, comma, line_feed, carriage_return, push, parse_quoted, ends_plain, parse_plain,
  parse_field, after_field, parse_row, skip_line_end, parse_rows, parse_csv, any_special,
  double_quotes, csv_cell, write_row,
}
use maspassword.Csv.Total.{AllRows}

-- What may stand behind a field: nothing, a comma or a line end.
abbrev Ends : Text → Type 0
Ends [] = Unit
Ends (c ∷ _) = ends_plain c ≡ true

parse_quoted_plain :
    (c : ℕ) (t : Text) → (c == quote) ≡ false → parse_quoted (c ∷ t) ≡ push c (parse_quoted t)
unfolding parse_quoted
parse_quoted_plain c [] h = rw h
parse_quoted_plain c (d ∷ t) h = rw h

parse_quoted-double_quotes :
    (v t : Text) → Ends t → parse_quoted (double_quotes v ++ quote ∷ t) ≡ (v, t)
unfolding parse_quoted
parse_quoted-double_quotes [] [] h = refl
parse_quoted-double_quotes [] (d ∷ t) h = ground arith
parse_quoted-double_quotes (c ∷ v) t h = elim (Bool-cases (c == quote)) [
  | inl e ↦ rw (e, parse_quoted-double_quotes v t h, (==_iff c quote).0 e)
  | inr e ↦
      rw
        (e, parse_quoted_plain c (double_quotes v ++ quote ∷ t) e, parse_quoted-double_quotes v t h)
]

parse_plain_cell : (v t : Text) → Ends t → any_special v ≡ false → parse_plain (v ++ t) ≡ (v, t)
unfolding parse_plain
parse_plain_cell [] [] h e = refl
parse_plain_cell [] (d ∷ t) h e = rw h
parse_plain_cell (c ∷ v) t h e = ground (arith, parse_plain_cell v t h)

parse_field_bare : (v t : Text) → Ends t → any_special v ≡ false → parse_field (v ++ t) ≡ (v, t)
unfolding parse_field
parse_field_bare [] [] h e = refl
parse_field_bare [] (d ∷ t) h e = ground (arith, parse_plain_cell [] (d ∷ t) h e)
parse_field_bare (c ∷ v) t h e = ground (arith, parse_plain_cell (c ∷ v) t h e)

-- A cell is read back, whatever stands in it, before a separator or at the end of the text.
parse_field-csv_cell : (v t : Text) → Ends t → parse_field (csv_cell v ++ t) ≡ (v, t)
unfolding parse_field csv_cell
parse_field-csv_cell v t h = elim (Bool-cases (any_special v)) [
  | inl e ↦ rw (e, append_assoc (double_quotes v) (quote ∷ []) t) (parse_quoted-double_quotes v t h)
  | inr e ↦ rw e (parse_field_bare v t h e)
]

-- The line ends that parseCSV knows, and that the writer uses.
pub data LineEnd : Type 0 where
  lf crlf : LineEnd

abbrev pub line_end : LineEnd → Text
line_end lf = line_feed ∷ []
line_end crlf = carriage_return ∷ line_feed ∷ []

skip-line_end : (e : LineEnd) (t : Text) → skip_line_end (line_end e ++ t) ≡ t
skip-line_end lf t = refl
skip-line_end crlf t = refl

after_field-line_end :
    (e : LineEnd) (loop : Text → Option (List Text × Text)) (field t : Text)
    → after_field loop (field, line_end e ++ t) ≡ some (field ∷ [], line_end e ++ t)
after_field-line_end lf loop field t = refl
after_field-line_end crlf loop field t = refl

Ends-line_end : (e : LineEnd) (t : Text) → Ends (line_end e ++ t)
Ends-line_end lf t = refl
Ends-line_end crlf t = refl

parse_row-write_row :
    (e : LineEnd) (fuel : ℕ) (v : Text) (row : List Text) (t : Text)
    → length row < fuel
    → parse_row fuel (write_row (v ∷ row) ++ (line_end e ++ t)) ≡ some (v ∷ row, line_end e ++ t)
unfolding parse_row write_row join
parse_row-write_row e zero v row t h = absurd (omega arith)
parse_row-write_row e (suc fuel) v [] t h =
    rw (parse_field-csv_cell v (line_end e ++ t) (Ends-line_end e t)) (after_field-line_end e _ v t)
parse_row-write_row e (suc fuel) v (w ∷ row) t h = rw (
  append_assoc (csv_cell v) (comma ∷ write_row (w ∷ row)) (line_end e ++ t),
  parse_field-csv_cell v (comma ∷ (write_row (w ∷ row) ++ (line_end e ++ t))) refl,
  parse_row-write_row e fuel w row t (omega arith),
)

-- The rows, each with a line end behind it: what buildCsv joins, behind its mark.
unfoldable pub write_rows : LineEnd → List (List Text) → Text
write_rows e [] = []
write_rows e (row ∷ rows) = write_row row ++ (line_end e ++ write_rows e rows)

length-write_row : (v : Text) (row : List Text) → length row ≤ length (write_row (v ∷ row))
unfolding write_row join
length-write_row v [] = omega arith
length-write_row v (w ∷ row) =
    omega (arith, length-append (csv_cell v) (comma ∷ write_row (w ∷ row)), length-write_row w row)

line_end-pos : (e : LineEnd) → 1 ≤ length (line_end e)
line_end-pos lf = omega arith
line_end-pos crlf = omega arith

-- The first round of the outer loop, on a text that begins with a row.
parse_rows_step :
    (e : LineEnd) (fuel : ℕ) (v : Text) (row : List Text) (t : Text)
    → parse_rows (suc fuel) (write_row (v ∷ row) ++ (line_end e ++ t))
      ≡ Option.map (λ rows. (v ∷ row) ∷ rows) (parse_rows fuel t)
unfolding parse_rows
parse_rows_step e fuel v row t = go text refl
  where
    text : Text
    text = write_row (v ∷ row) ++ (line_end e ++ t)

    enough : length row < suc (length text)
    enough =
        omega (arith, length-append (write_row (v ∷ row)) (line_end e ++ t), length-write_row v row)

    go :
        (u : Text)
        → text ≡ u
        → parse_rows (suc fuel) u ≡ Option.map (λ rows. (v ∷ row) ∷ rows) (parse_rows fuel t)
    go [] eq = absurd (
        omega (
          arith,
          ap length eq,
          length-append (write_row (v ∷ row)) (line_end e ++ t),
          length-append (line_end e) t,
          line_end-pos e,
        ))
    go (c ∷ u) eq = rw (
      ← eq,
      parse_row-write_row e (suc (length (c ∷ u))) v row t
          (subst (λ x. length row < suc (length x)) eq enough),
      skip-line_end e t,
    )

parse_rows-write_rows :
    (e : LineEnd) (fuel : ℕ) (rows : List (List Text))
    → AllRows rows
    → length rows ≤ fuel
    → parse_rows fuel (write_rows e rows) ≡ some rows
unfolding write_rows
parse_rows-write_rows e fuel [] h le = unfold parse_rows in refl
parse_rows-write_rows e fuel ([] ∷ rows) (h, hs) le = absurd (h refl)
parse_rows-write_rows e zero ((v ∷ row) ∷ rows) h le = absurd (omega arith)
parse_rows-write_rows e (suc fuel) ((v ∷ row) ∷ rows) (h, hs) le = rw (
  parse_rows_step e fuel v row (write_rows e rows),
  parse_rows-write_rows e fuel rows hs (omega arith),
)

length-write_rows :
    (e : LineEnd) (rows : List (List Text)) → length rows ≤ length (write_rows e rows)
unfolding write_rows
length-write_rows e [] = omega arith
length-write_rows e (row ∷ rows) = omega (
  arith,
  length-append (write_row row) (line_end e ++ write_rows e rows),
  length-append (line_end e) (write_rows e rows),
  line_end-pos e,
  length-write_rows e rows,
)

-- parseCSV reads back the table that was written cell by cell with csvCell, cells joined by commas
-- and each row closed by a line end (LF or CRLF), whatever commas, quotes and line breaks the cells
-- hold, if every row has a cell.
pub parse_csv-write_rows :
    (e : LineEnd) (rows : List (List Text))
    → AllRows rows
    → parse_csv (write_rows e rows) ≡ some rows
unfolding parse_csv
parse_csv-write_rows e rows h =
    parse_rows-write_rows e (length (write_rows e rows)) rows h (length-write_rows e rows)
