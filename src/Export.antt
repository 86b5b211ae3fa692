-- ===== src/Export.antt =====
-- buildCsv of web/export.js.
use maspassword.Base.{
  ℕ, ◌||◌, Option, some, List, [], ◌∷◌, ◌++◌, map, Text, codes, join, if◌then◌else◌,
}
use maspassword.Csv.{write_row, comma}
use maspassword.Item.{
  CustomField, ItemData, ExtraField, extra_fields, or_else, or_blank, truthy, shown,
}

abbrev pub header : List Text
header =
    codes "type"
    ∷ codes "title"
    ∷ codes "username"
    ∷ codes "password"
    ∷ codes "url"
    ∷ codes "notes"
    ∷ codes "totp"
    ∷ codes "tags"
    ∷ []

-- A line of the notes: a label and its value.
abbrev pub Line : Type 0
Line = Text × Option Text

-- `extraFields(d).filter(([, v]) => v)`
pub filled : List ExtraField → List Line
filled [] = []
filled (f ∷ fields) =
    let rest = filled fields in if truthy f.value then (f.key, f.value) ∷ rest else rest

-- The custom fields that have a label or a value.
pub labelled : List CustomField → List Line
labelled [] = []
labelled (f ∷ fields) =
    let rest = labelled fields in
    if truthy (some f.label) || truthy f.value
    then (or_else (some f.label) (codes "Field"), f.value) ∷ rest
    else rest

abbrev pub line_text : Line → Text
line_text (k, v) = k ++ (codes ": " ++ shown v)

-- The notes with the lines behind them.
abbrev pub with_lines : Text → List Line → Text
with_lines notes [] = notes
with_lines [] (l ∷ ls) = join (codes "\n") (map line_text (l ∷ ls))
with_lines (c ∷ notes) (l ∷ ls) =
    (c ∷ notes) ++ (codes "\n" ++ join (codes "\n") (map line_text (l ∷ ls)))

unfoldable pub csv_notes : ItemData → Text
unfolding filled labelled
csv_notes d = with_lines (or_blank d.notes) (filled (extra_fields d) ++ labelled d.custom_fields)

unfoldable pub csv_row : ItemData → List Text
csv_row d =
    or_else d.kind (codes "login")
    ∷ or_blank d.title
    ∷ or_blank d.username
    ∷ or_blank d.password
    ∷ or_blank d.url
    ∷ csv_notes d
    ∷ or_blank d.totp_secret
    ∷ join (codes ";") d.tags
    ∷ []

abbrev pub byte_order_mark : ℕ
byte_order_mark = 0xfeff

unfoldable pub build_csv : List ItemData → Text
build_csv items =
    byte_order_mark
    ∷ (join (codes "\r\n") (join (comma ∷ []) header ∷ map (λ d. write_row (csv_row d)) items)
        ++ codes "\r\n")
