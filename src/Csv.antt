-- ===== src/Csv.antt =====
-- web/import.js (parseCSV) and the cell writer of web/export.js (csvCell).
-- The position `i` of the source in `text` is the rest of the text from `i` on, so `i < len` reads
-- "the rest is not empty", and a field is returned with the rest behind it.
pub mod Total
pub mod RoundTrip
mod Tests
use mathlib.Core.Option
use maspassword.Base.{
  ℕ, zero, suc, Bool, true, false, ◌||◌, Option, none, some, List, [], ◌∷◌, ◌++◌, Text, length,
  ◌==◌, if◌then◌else◌, join, map,
}

abbrev pub comma : ℕ
comma = 0x2c

abbrev pub quote : ℕ
quote = 0x22

abbrev pub line_feed : ℕ
line_feed = 0x0a

abbrev pub carriage_return : ℕ
carriage_return = 0x0d

-- `field += c`, where the rest of the field is read behind `c`.
abbrev pub push : ℕ → Text × Text → Text × Text
push c (field, rest) = (c ∷ field, rest)

-- The loop behind an opening quote: `""` is a quote, any other quote ends the field.
pub parse_quoted : Text → Text × Text
parse_quoted [] = ([], [])
parse_quoted (c ∷ []) = if c == quote then ([], []) else (c ∷ [], [])
parse_quoted (c ∷ d ∷ rest) =
    let escaped = push quote (parse_quoted rest) in
    let plain = push c (parse_quoted (d ∷ rest)) in
    if c == quote then (if d == quote then escaped else ([], d ∷ rest)) else plain

abbrev pub ends_plain : ℕ → Bool
ends_plain c = c == comma || (c == line_feed || c == carriage_return)

-- The loop of an unquoted field.
pub parse_plain : Text → Text × Text
parse_plain [] = ([], [])
parse_plain (c ∷ rest) =
    let more = push c (parse_plain rest) in if ends_plain c then ([], c ∷ rest) else more

pub parse_field : Text → Text × Text
parse_field [] = ([], [])
parse_field (c ∷ rest) =
    if c == line_feed || c == carriage_return
    then ([], c ∷ rest)
    else if c == quote
    then parse_quoted rest
    else parse_plain (c ∷ rest)

-- What the inner `while (true)` does behind a field: a comma leads to the next field.
abbrev pub after_field :
    (Text → Option (List Text × Text)) → Text × Text → Option (List Text × Text)
after_field next_fields (field, []) = some (field ∷ [], [])
after_field next_fields (field, c ∷ rest) =
    if c == comma
    then Option.map (λ r. (field ∷ r.0, r.1)) (next_fields rest)
    else some (field ∷ [], c ∷ rest)

-- The fields of one row. `none`: the fuel ran out.
pub parse_row : ℕ → Text → Option (List Text × Text)
parse_row zero text = none
parse_row (suc fuel) text = after_field (parse_row fuel) (parse_field text)

abbrev pub skip : ℕ → Text → Text
skip c [] = []
skip c (d ∷ rest) = if d == c then rest else d ∷ rest

abbrev pub skip_line_end : Text → Text
skip_line_end text = skip line_feed (skip carriage_return text)

-- What the outer loop does behind a row.
abbrev pub after_row :
    (Text → Option (List (List Text))) → Option (List Text × Text) → Option (List (List Text))
after_row next_rows none = none
after_row next_rows (some (row, rest)) =
    Option.map (λ rows. row ∷ rows) (next_rows (skip_line_end rest))

-- The outer `while (i < len)`, each row with fuel of its own.
pub parse_rows : ℕ → Text → Option (List (List Text))
parse_rows fuel [] = some []
parse_rows zero (c ∷ rest) = none
parse_rows (suc fuel) (c ∷ rest) =
    after_row (parse_rows fuel) (parse_row (suc (length (c ∷ rest))) (c ∷ rest))

unfoldable pub parse_csv : Text → Option (List (List Text))
parse_csv text = parse_rows (length text) text

-- The class /[",\n\r]/.
abbrev pub is_special : ℕ → Bool
is_special c = c == quote || (c == comma || (c == line_feed || c == carriage_return))

abbrev pub any_special : Text → Bool
any_special [] = false
any_special (c ∷ v) = is_special c || any_special v

-- `s.replace(/"/g, '""')`.
abbrev pub double_quotes : Text → Text
double_quotes [] = []
double_quotes (c ∷ v) = if c == quote then quote ∷ quote ∷ double_quotes v else c ∷ double_quotes v

unfoldable pub csv_cell : Text → Text
csv_cell v = if any_special v then quote ∷ (double_quotes v ++ (quote ∷ [])) else v

-- `cells.map(csvCell).join(',')`.
unfoldable pub write_row : List Text → Text
write_row row = join (comma ∷ []) (map csv_cell row)
