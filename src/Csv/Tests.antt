-- ===== src/Csv/Tests.antt =====
-- Runs of the CSV reader and writer, and instances of their theorems.
use maspassword.Base.{◌≡◌, ◌≤◌, refl, join, some, List, [], ◌∷◌, Text, codes, length, arith}
use maspassword.Csv.{
  parse_csv, parse_rows, parse_row, parse_field, parse_quoted, parse_plain, write_row, csv_cell,
}
use maspassword.Csv.Total.{AllRows, parse_csv_total}
use maspassword.Csv.RoundTrip.{crlf, write_rows, parse_csv-write_rows}

abbrev table : List (List Text)
table =
    (codes "say \"hi\"" ∷ codes "a,b" ∷ []) ∷ ([] ∷ []) ∷ (codes "x" ∷ [] ∷ codes "y\nz" ∷ []) ∷ []

table_has_fields : AllRows table
table_has_fields = ground arith

parse_csv-write_rows_example : parse_csv (write_rows crlf table) ≡ some table
parse_csv-write_rows_example = parse_csv-write_rows crlf table table_has_fields

parse_csv_total_example :
    (rows : List (List Text)) × (parse_csv (codes "a,\"b\"c\n\nd") ≡ some rows)
    × AllRows rows
    × (length rows ≤ length (codes "a,\"b\"c\n\nd"))
parse_csv_total_example = parse_csv_total (codes "a,\"b\"c\n\nd")

-- Text behind a closing quote starts a new row.
stray_text :
    parse_csv (codes "a,\"b\"c\n\nd")
    ≡ some ((codes "a" ∷ codes "b" ∷ []) ∷ (codes "c" ∷ []) ∷ ([] ∷ []) ∷ (codes "d" ∷ []) ∷ [])
unfolding parse_csv parse_rows parse_row parse_field parse_quoted parse_plain
stray_text = refl

written : write_row (codes "a" ∷ codes "b\"c" ∷ []) ≡ codes "a,\"b\"\"c\""
unfolding write_row csv_cell join
written = refl
