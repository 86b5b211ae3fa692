-- ===== src/Import/RoundTrip.antt =====
-- What comes back when the CSV file of buildCsv is imported.
use mathlib.Core.Option
use mathlib.Core.List.{map-map}
use maspassword.Base.{
  ◌<◌, true, ◌≡◌, refl, sym, ap, ◌∙◌, Option, none, some, List, [], ◌∷◌, ◌++◌, map, append_assoc,
  Text, codes, All, join, arith, trim, if◌then◌else◌, includes,
}
use maspassword.Csv.{parse_csv, write_row, csv_cell, comma}
use maspassword.Csv.Total.{AllRows}
use maspassword.Csv.RoundTrip.{crlf, write_rows, parse_csv-write_rows}
use maspassword.Item.{ItemData, or_else, or_blank}
use maspassword.Export.{header, csv_notes, csv_row, byte_order_mark, build_csv}
use maspassword.Import.{
  Imported, Columns, ascii_lower, skip_types, trimmed, csv_has_headers, columns_of, normal_headers,
  if_titled, with_columns, map_rows, map_row, map_csv_to_items,
}

abbrev pub marked_header : List Text
marked_header =
    (byte_order_mark ∷ codes "type")
    ∷ codes "title"
    ∷ codes "username"
    ∷ codes "password"
    ∷ codes "url"
    ∷ codes "notes"
    ∷ codes "totp"
    ∷ codes "tags"
    ∷ []

join_rows :
    (first : Text) (rows : List (List Text))
    → join (codes "\r\n") (first ∷ map write_row rows) ++ codes "\r\n"
      ≡ first ++ (codes "\r\n" ++ write_rows crlf rows)
unfolding join write_rows
join_rows first [] = refl
join_rows first (row ∷ rows) =
    append_assoc first (codes "\r\n" ++ join (codes "\r\n") (write_row row ∷ map write_row rows))
      (codes "\r\n")
    ∙ ap (λ t. first ++ (codes "\r\n" ++ t)) (join_rows (write_row row) rows)

-- The file is the table of the header, with the mark in its first cell, and a row for each item.
build_csv-write_rows :
    (items : List ItemData) → build_csv items ≡ write_rows crlf (marked_header ∷ map csv_row items)
unfolding build_csv write_rows write_row
build_csv-write_rows items =
    ap
      (λ rows.
        byte_order_mark ∷ (join (codes "\r\n") (join (comma ∷ []) header ∷ rows) ++ codes "\r\n"))
      (sym (map-map write_row csv_row items))
    ∙ ap (λ t. byte_order_mark ∷ t) (join_rows (join (comma ∷ []) header) (map csv_row items))
    ∙ mark_in_header (write_rows crlf (map csv_row items))
  where
    mark_in_header :
        (t : Text)
        → byte_order_mark ∷ (join (comma ∷ []) header ++ (codes "\r\n" ++ t))
          ≡ write_row marked_header ++ (codes "\r\n" ++ t)
    mark_in_header t = unfold write_row csv_cell join in refl

csv_rows_have_fields : (items : List ItemData) → AllRows (map csv_row items)
unfolding csv_row
csv_rows_have_fields [] = tt
csv_rows_have_fields (d ∷ items) = (λ e. ground arith, csv_rows_have_fields items)

-- parseCSV reads the file of buildCsv as the header, with the byte order mark in its first cell, and
-- one row for each item, each cell as it was.
parse_csv-build_csv :
    (items : List ItemData) → parse_csv (build_csv items) ≡ some (marked_header ∷ map csv_row items)
parse_csv-build_csv items =
    ap parse_csv (build_csv-write_rows items)
    ∙ parse_csv-write_rows crlf (marked_header ∷ map csv_row items)
        (λ e. ground arith, csv_rows_have_fields items)

or_blank-some : (t : Text) → or_blank (some t) ≡ t
or_blank-some [] = refl
or_blank-some (c ∷ t) = refl

trimmed-or_blank : (v : Option Text) → trimmed (some (or_blank v)) ≡ trimmed v
trimmed-or_blank none = refl
trimmed-or_blank (some []) = refl
trimmed-or_blank (some (c ∷ s)) = refl

abbrev export_columns : Columns
export_columns = record {
  title = some 1;
  username = some 2;
  password = some 3;
  url = some 4;
  notes = some 5;
  otpauth = none;
  kind = some 0;
}

module _ (lower : Text → Text) where
  -- What an exported item is after its import: the login fields trimmed, the notes with the lines
  -- that the export puts behind them, and no TOTP secret.
  abbrev pub reimported : ItemData → Text → Imported
  reimported d title = record {
    title = title;
    username = trimmed d.username;
    password = trimmed d.password;
    url = trimmed d.url;
    notes = trimmed (some (csv_notes d));
    totp_secret = none;
  }

  -- Documents and items whose title is blank do not come back.
  abbrev pub if_named : ItemData → Text → List Imported → List Imported
  if_named d [] items = items
  if_named d (c ∷ title) items = reimported d (c ∷ title) ∷ items

  abbrev pub all_reimported : List ItemData → List Imported
  all_reimported [] = []
  all_reimported (d ∷ items) =
      let rest = all_reimported items in
      if includes (lower (trim (or_else d.kind (codes "login")))) skip_types
      then rest
      else if_named d (trim (or_blank d.title)) rest

-- `toLowerCase` on a text of ASCII code units is the map of the letters.
abbrev pub LowersAscii : (Text → Text) → Type 0
LowersAscii lower = (s : Text) → All (λ c. c < 0x80) s → lower s ≡ map ascii_lower s

module _ (lower : Text → Text) (url_secret : Text → Option Text) (ascii : LowersAscii lower) where
  lower_word : (s : Text) → All (λ c. c < 0x80) s → map ascii_lower s ≡ s → lower s ≡ s
  lower_word s h e = ascii s h ∙ e

  header_back : normal_headers lower marked_header ≡ header
  unfolding normal_headers trim
  header_back = simp (
    lower_word (codes "type") (omega arith) refl,
    lower_word (codes "title") (omega arith) refl,
    lower_word (codes "username") (omega arith) refl,
    lower_word (codes "password") (omega arith) refl,
    lower_word (codes "url") (omega arith) refl,
    lower_word (codes "notes") (omega arith) refl,
    lower_word (codes "totp") (omega arith) refl,
    lower_word (codes "tags") (omega arith) refl,
  )

  has_headers : csv_has_headers lower marked_header ≡ true
  unfolding csv_has_headers
  has_headers = rw header_back

  columns_back : columns_of lower marked_header ≡ export_columns
  unfolding columns_of
  columns_back = rw header_back

  titled_back :
      (d : ItemData) (title : Text) (rows : List Imported)
      → if_titled lower url_secret export_columns (csv_row d) title rows
        ≡ if_named lower d title rows
  unfolding csv_row
  titled_back d [] rows = refl
  titled_back d (c ∷ title) rows =
      rw (trimmed-or_blank d.username, trimmed-or_blank d.password, trimmed-or_blank d.url)

  item_back :
      (d : ItemData) (rows : List Imported)
      → map_row lower url_secret export_columns (csv_row d) rows ≡ (
          if includes (lower (trim (or_else d.kind (codes "login")))) skip_types
          then rows
          else if_named lower d (trim (or_blank d.title)) rows)
  unfolding map_row csv_row
  item_back d rows = rw (
    or_blank-some (or_else d.kind (codes "login")),
    or_blank-some (or_blank d.title),
    titled_back d (trim (or_blank d.title)) rows,
  )

  map_rows_back :
      (items : List ItemData)
      → map_rows lower url_secret export_columns (map csv_row items) ≡ all_reimported lower items
  unfolding map_rows
  map_rows_back [] = refl
  map_rows_back (d ∷ items) = rw (map_rows_back items, item_back d (all_reimported lower items))

  -- An exported CSV file imports without an error. The items come back in their order, but for
  -- documents and items with a blank title, with title, user name, password, URL and notes trimmed,
  -- the extra and custom fields as lines of the notes, and without the TOTP secret, if
  -- `toLowerCase` maps ASCII texts letter by letter.
  pub map_csv_to_items-build_csv :
      (items : List ItemData)
      → Option.bind (parse_csv (build_csv items)) (map_csv_to_items lower url_secret)
        ≡ some (all_reimported lower items)
  unfolding map_csv_to_items Option.bind
  map_csv_to_items-build_csv items =
      rw (parse_csv-build_csv items, has_headers, columns_back) (with_rows items)
    where
      with_rows :
          (items : List ItemData)
          → with_columns lower url_secret export_columns (map csv_row items)
            ≡ some (all_reimported lower items)
      with_rows [] = refl
      with_rows (d ∷ items) = ap some (map_rows_back (d ∷ items))
