-- ===== src/Import.antt =====
-- web/import.js: rows of a CSV file to items, by header names or by 1Password's fixed columns.
-- `toLowerCase` and `new URL(uri).searchParams.get('secret')` are parameters; `none` from the latter
-- stands for an exception and for no such parameter.
pub mod RoundTrip
mod Tests
use mathlib.Core.Option
use maspassword.Base.{
  ℕ, zero, suc, ◌-◌, ◌+◌, Bool, true, false, ◌&&◌, ◌||◌, Option, none, some, List, [], ◌∷◌, ◌++◌,
  map, Text, codes, length, leb, ltb, ◌==◌, if◌then◌else◌, has, same_text, includes, starts_with,
  trim, get_elem?, max,
}
use maspassword.Item.{truthy, or_blank}

pub record Imported : Type 0 where
  pub title : Text
  pub username : Option Text
  pub password : Option Text
  pub url : Option Text
  pub notes : Option Text
  pub totp_secret : Option Text

-- The class [A-Za-z2-7=].
abbrev pub is_secret_char : ℕ → Bool
is_secret_char c =
    leb b'A' c && leb c b'Z'
    || (leb b'a' c && leb c b'z' || (leb b'2' c && leb c b'7' || c == b'='))

pub take_secret : Text → Text
take_secret [] = []
take_secret (c ∷ s) = if is_secret_char c then c ∷ take_secret s else []

-- The rest behind `prefix`, in any letter case; `prefix` is in lower case.
abbrev pub ascii_lower : ℕ → ℕ
ascii_lower c = if leb b'A' c && leb c b'Z' then c + 32 else c

pub behind : Text → Text → Option Text
behind [] s = some s
behind (p ∷ prefix) [] = none
behind (p ∷ prefix) (c ∷ s) = if p == ascii_lower c then behind prefix s else none

abbrev pub non_empty : Text → Option Text
non_empty [] = none
non_empty (c ∷ s) = some (c ∷ s)

-- `uri.match(/[?&]secret=([A-Za-z2-7=]+)/i)`, its first group.
abbrev pub secret_here : ℕ → Text → Option Text
secret_here c s =
    if c == b'?' || c == b'&'
    then elim (behind (codes "secret=") s) [
      | none ↦ none
      | some rest ↦ non_empty (take_secret rest)
    ]
    else none

unfoldable pub match_secret : Text → Option Text
unfolding take_secret behind
match_secret [] = none
match_secret (c ∷ s) =
    let later = match_secret s in
    elim (secret_here c s) [ none ↦ later | some secret ↦ some secret ]

abbrev pub known_headers : List Text
known_headers =
    codes "title"
    ∷ codes "username"
    ∷ codes "password"
    ∷ codes "url"
    ∷ codes "website"
    ∷ codes "notes"
    ∷ codes "otpauth"
    ∷ codes "type"
    ∷ []

abbrev pub skip_types : List Text
skip_types = codes "document" ∷ []

-- `array.indexOf(name)`; `none` is -1.
pub index_of : Text → List Text → Option ℕ
index_of name [] = none
index_of name (h ∷ headers) =
    if same_text h name then some 0 else Option.map suc (index_of name headers)

-- `Math.max` of two indices.
abbrev pub max_index : Option ℕ → Option ℕ → Option ℕ
max_index none j = j
max_index (some i) none = some i
max_index (some i) (some j) = some (max i j)

-- `row[i]`, where no index and an index past the end read as nothing.
abbrev pub cell : List Text → Option ℕ → Option Text
cell row none = none
cell row (some i) = get_elem? row i

-- `if (row[i]) item.field = row[i].trim()`
abbrev pub trimmed : Option Text → Option Text
trimmed none = none
trimmed (some []) = none
trimmed (some (c ∷ s)) = some (trim (c ∷ s))

-- Where a column stands.
pub record Columns : Type 0 where
  pub title : Option ℕ
  pub username : Option ℕ
  pub password : Option ℕ
  pub url : Option ℕ
  pub notes : Option ℕ
  pub otpauth : Option ℕ
  pub kind : Option ℕ

abbrev pub op_csv_columns : Columns
op_csv_columns = record {
  otpauth = some 0;
  notes = some 1;
  password = some 2;
  title = some 3;
  kind = some 4;
  url = some 5;
  username = some 6;
}

pub count_known : List Text → ℕ
count_known [] = 0
count_known (h ∷ headers) = (if includes h known_headers then 1 else 0) + count_known headers

-- `const secret = …; if (secret) item.totp_secret = secret`
abbrev pub if_truthy : Option Text → Option Text
if_truthy none = none
if_truthy (some []) = none
if_truthy (some (c ∷ s)) = some (c ∷ s)

module _ (lower : Text → Text) where
  -- `h.trim().toLowerCase()` of each.
  unfoldable pub normal_headers : List Text → List Text
  normal_headers row = map (λ h. lower (trim h)) row

  unfoldable pub csv_has_headers : List Text → Bool
  unfolding count_known
  csv_has_headers row = leb 2 (count_known (normal_headers row))

  unfoldable pub columns_of : List Text → Columns
  unfolding index_of
  columns_of row = record {
    title = index_of (codes "title") (normal_headers row);
    username =
        max_index (index_of (codes "username") (normal_headers row))
          (index_of (codes "email") (normal_headers row));
    password = index_of (codes "password") (normal_headers row);
    url =
        max_index (index_of (codes "website") (normal_headers row))
          (index_of (codes "url") (normal_headers row));
    notes = index_of (codes "notes") (normal_headers row);
    otpauth = index_of (codes "otpauth") (normal_headers row);
    kind = index_of (codes "type") (normal_headers row);
  }

  abbrev pub skips : List Text → Option ℕ → Bool
  skips row none = false
  skips row (some i) = includes (lower (trim (or_blank (get_elem? row i)))) skip_types

module _ (lower : Text → Text) (url_secret : Text → Option Text) where
  abbrev pub or_match : Option Text → Text → Option Text
  or_match none uri = match_secret uri
  or_match (some secret) uri = some secret

  unfoldable pub extract_totp_secret : Text → Option Text
  unfolding match_secret
  extract_totp_secret uri =
      if starts_with (codes "otpauth://") uri
      then or_match (if_truthy (url_secret uri)) uri
      else none

  abbrev pub secret_of : Option Text → Option Text
  secret_of none = none
  secret_of (some uri) = if_truthy (extract_totp_secret uri)

  -- The item of a row with that title.
  abbrev pub item_of : Columns → List Text → Text → Imported
  item_of columns row title = record {
    title = title;
    username = trimmed (cell row columns.username);
    password = trimmed (cell row columns.password);
    url = trimmed (cell row columns.url);
    notes = trimmed (cell row columns.notes);
    totp_secret = secret_of (trimmed (cell row columns.otpauth));
  }

  -- The rows in skipped types and those with no title are left out.
  abbrev pub if_titled : Columns → List Text → Text → List Imported → List Imported
  if_titled columns row [] items = items
  if_titled columns row (c ∷ title) items = item_of columns row (c ∷ title) ∷ items

  unfoldable pub map_row : Columns → List Text → List Imported → List Imported
  unfolding extract_totp_secret
  map_row columns row items =
      if skips lower row columns.kind
      then items
      else if_titled columns row (trim (or_blank (cell row columns.title))) items

  pub map_rows : Columns → List (List Text) → List Imported
  unfolding map_row
  map_rows columns [] = []
  map_rows columns (row ∷ rows) = map_row columns row (map_rows columns rows)

  -- `none` is the exception on a file with headers and no title column.
  abbrev pub with_columns : Columns → List (List Text) → Option (List Imported)
  with_columns columns [] = some []
  with_columns columns (row ∷ rows) = elim columns.title [
    | none ↦ none
    | some i ↦ some (map_rows columns (row ∷ rows))
  ]

  unfoldable pub map_csv_to_items : List (List Text) → Option (List Imported)
  unfolding csv_has_headers columns_of map_rows
  map_csv_to_items [] = some []
  map_csv_to_items (first ∷ rows) =
      if csv_has_headers lower first
      then with_columns (columns_of lower first) rows
      else some (map_rows op_csv_columns (first ∷ rows))
