-- ===== src/Kdbx/Xml/Entity.antt =====
-- Characters and entities: xmlEsc of web/export.js, xmlDecode of web/kdbx-read.js.
use maspassword.Base.{
  ℕ, zero, suc, ◌+◌, ◌-◌, ◌*◌, ◌/◌, ◌%◌, Bool, ◌&&◌, ◌||◌, Option, none, some, [], ◌∷◌, ◌++◌, Text,
  codes, length, ltb, leb, ◌==◌, if◌then◌else◌, same_text,
}
use maspassword.Kdbx.{Result, ok, err, ◌>>=◌}
use maspassword.Kdbx.Error.{thrown}

-- The control characters that XML 1.0 does not allow.
abbrev pub is_control : ℕ → Bool
is_control c = leb c 8 || (c == 11 || (c == 12 || leb 14 c && leb c 31))

unfoldable pub without_controls : Text → Text
without_controls [] = []
without_controls (c ∷ s) = let rest = without_controls s in if is_control c then rest else c ∷ rest

-- `s.replace(/c/g, r)`.
unfoldable pub replace_with : ℕ → Text → Text → Text
replace_with c r [] = []
replace_with c r (d ∷ s) = let rest = replace_with c r s in if d == c then r ++ rest else d ∷ rest

unfoldable pub xml_esc : Text → Text
xml_esc s = replace_with b'"' (codes "&quot;") (
    replace_with b'>' (codes "&gt;")
      (replace_with b'<' (codes "&lt;") (replace_with b'&' (codes "&amp;") (without_controls s))))

abbrev pub is_digit : ℕ → Bool
is_digit c = leb b'0' c && leb c b'9'

abbrev pub is_hex : ℕ → Bool
is_hex c = is_digit c || (leb b'a' c && leb c b'f' || leb b'A' c && leb c b'F')

abbrev pub is_letter : ℕ → Bool
is_letter c = leb b'a' c && leb c b'z' || leb b'A' c && leb c b'Z'

-- The longest run of characters of a class, and the rest.
unfoldable pub span : (ℕ → Bool) → Text → Text × Text
span test [] = ([], [])
span test (c ∷ s) = let (run, rest) = span test s in if test c then (c ∷ run, rest) else ([], c ∷ s)

-- A run that is not empty and ends with a semicolon, with a front that belongs to it.
abbrev pub closed : Text → Text × Text → Option (Text × Text)
closed front ([], rest) = none
closed front (c ∷ run, []) = none
closed front (c ∷ run, d ∷ rest) = if d == b';' then some (front ++ c ∷ run, rest) else none

-- The entity behind `&`: `#x?[0-9a-fA-F]+` or `[a-zA-Z]+`, closed by `;`.
unfoldable pub entity_at : Text → Option (Text × Text)
entity_at [] = none
entity_at (c ∷ []) = none
entity_at (c ∷ d ∷ s) =
    if c == b'#'
    then if d == b'x'
      then closed (codes "#x") (span is_hex s)
      else closed (codes "#") (span is_hex (d ∷ s))
    else closed [] (span is_letter (c ∷ d ∷ s))

abbrev pub hex_value : ℕ → ℕ
hex_value c = if is_digit c then c - b'0' else if leb b'a' c then c - b'a' + 10 else c - b'A' + 10

-- parseInt: the number of the digits that the text starts with, `none` for NaN.
unfoldable pub digits_value : ℕ → (ℕ → Bool) → ℕ → Text → ℕ
digits_value base test v [] = v
digits_value base test v (c ∷ s) =
    let more = digits_value base test (v * base + hex_value c) s in if test c then more else v

abbrev pub parse_int : ℕ → (ℕ → Bool) → Text → Option ℕ
parse_int base test [] = none
parse_int base test (c ∷ s) = if test c then some (digits_value base test 0 (c ∷ s)) else none

-- String.fromCodePoint, which throws above 0x10ffff.
unfoldable pub from_code_point : ℕ → Result Text
from_code_point c =
    if ltb c 0x10000
    then ok (c ∷ [])
    else if leb c 0x10ffff
    then ok ((0xd800 + (c - 0x10000) / 1024) ∷ (0xdc00 + (c - 0x10000) % 1024) ∷ [])
    else err thrown

abbrev pub code_or : Text → Option ℕ → Result Text
code_or match none = ok match
code_or match (some c) = from_code_point c

abbrev pub numeric : Text → Text → Result Text
numeric match [] = ok match
numeric match (d ∷ s) =
    if d == b'x'
    then code_or match (parse_int 16 is_hex s)
    else code_or match (parse_int 10 is_digit (d ∷ s))

abbrev pub or_match : Text → Option Text → Text
or_match match none = match
or_match match (some s) = s

-- `XML_ENTITIES[ent]`, which also finds what every object inherits; `inherited` is the text of that.
abbrev pub entity_text : (Text → Option Text) → Text → Option Text
entity_text inherited ent =
    if same_text ent (codes "amp")
    then some (codes "&")
    else if same_text ent (codes "lt")
    then some (codes "<")
    else if same_text ent (codes "gt")
    then some (codes ">")
    else if same_text ent (codes "quot")
    then some (codes "\"")
    else if same_text ent (codes "apos")
    then some (codes "'")
    else inherited ent

module _ (inherited : Text → Option Text) where
  -- The text for an entity, which itself is the match without `&` and `;`.
  unfoldable pub entity_value : Text → Result Text
  entity_value [] = ok (codes "&;")
  entity_value (c ∷ s) =
      let match = b'&' ∷ ((c ∷ s) ++ b';' ∷ []) in
      if c == b'#' then numeric match s else ok (or_match match (entity_text inherited (c ∷ s)))

  -- The match of an entity is replaced and `decode` goes on behind it; without a match the character
  -- stays.
  abbrev pub entity_then : (Text → Result Text) → Result Text → Option (Text × Text) → Result Text
  entity_then decode plain none = plain
  entity_then decode plain (some (ent, rest)) =
      entity_value ent >>= λ v. decode rest >>= λ t. ok (v ++ t)

  -- xmlDecode. Every turn takes a character at least.
  unfoldable pub decode_from : ℕ → Text → Result Text
  decode_from zero s = ok s
  decode_from (suc fuel) [] = ok []
  decode_from (suc fuel) (c ∷ s) =
      let plain = decode_from fuel s >>= λ t. ok (c ∷ t) in
      let entity = entity_then (decode_from fuel) plain (entity_at s) in
      if c == b'&' then entity else plain

  unfoldable pub xml_decode : Text → Result Text
  xml_decode s = decode_from (length s) s
