-- ===== src/Kdbx/Header.antt =====
-- The fields of a header, outer and inner, and the dictionary of the key derivation: headerField and
-- variantDict of web/export.js, parseHeaderFields and parseVariantDict of web/kdbx-read.js. A Map is a
-- list of its settings, the latest first.
pub mod RoundTrip
pub mod Variant
use mathlib.Core.List.{reverse}
use maspassword.Base.{
  ℕ, zero, suc, ◌+◌, ◌*◌, ◌/◌, ◌%◌, ◌^◌, ◌-◌, ◌<◌, Bool, true, false, not, ◌&&◌, ◌||◌, Option, none,
  some, List, [], ◌∷◌, ◌++◌, Text, length, take, drop, get_or, ltb, ◌==◌, if◌then◌else◌, same_text,
  map,
}
use maspassword.Kdbx.{Error, Result, ok, err, ◌>>=◌, u32le, u8, get_u16, get_u32, get_u64}
use maspassword.Kdbx.Error.{corrupt, thrown}

abbrev pub Field : Type 0
Field = ℕ × List ℕ

unfoldable pub header_field : ℕ → List ℕ → List ℕ
unfolding u8
header_field id input = u8 ((id ∷ []) ∷ u32le (length input) ∷ input ∷ [])

unfoldable pub write_fields : List Field → List ℕ
write_fields [] = []
write_fields ((id, input) ∷ fields) = header_field id input ++ write_fields fields

-- `fields.get(id)`.
abbrev pub get : ℕ → List Field → Option (List ℕ)
get id [] = none
get id ((i, input) ∷ fields) = if i == id then some input else get id fields

-- A field that is used as bytes: `undefined` throws.
abbrev pub needed {ℓ} : {A : Type ℓ} → Option A → Result A
needed none = err thrown
needed (some a) = ok a

-- One field, and the rest behind it.
abbrev pub prefix_size : Bool → ℕ
prefix_size true = 5
prefix_size false = 3

abbrev pub field_size : Bool → List ℕ → Result ℕ
field_size true bytes = get_u32 bytes
field_size false bytes = get_u16 bytes

abbrev pub cut_field : ℕ → ℕ → List ℕ → Result (ℕ × List ℕ × List ℕ)
cut_field id size rest =
    if ltb (length rest) size then err corrupt else ok (id, take size rest, drop size rest)

unfoldable pub take_field : Bool → List ℕ → Result (ℕ × List ℕ × List ℕ)
take_field wide bytes =
    if ltb (length bytes) (prefix_size wide)
    then err corrupt
    else field_size wide (drop 1 bytes) >>= λ size.
        cut_field (get_or bytes 0 0) size (drop (prefix_size wide) bytes)

-- The loop. Every field but the last one has at least three bytes, so the fuel lasts.
abbrev pub Fields : Type 0
Fields = List Field × List ℕ

unfoldable pub parse_fields : ℕ → Bool → List Field → List ℕ → Result Fields
parse_fields zero wide fields bytes = err thrown
parse_fields (suc fuel) wide fields bytes = take_field wide bytes >>= λ f.
    let more = parse_fields fuel wide ((f.0, f.1) ∷ fields) f.2 in
    if f.0 == 0 then ok (fields, f.2) else more

-- From the start of the fields; the second part of the result is the rest from `end` on.
unfoldable pub parse_header_fields : Bool → List ℕ → Result Fields
parse_header_fields wide bytes = parse_fields (suc (length bytes)) wide [] bytes

-- `Number` of a 64-bit integer: the nearest number of 53 digits, the even one of two.
abbrev pub unit_from : ℕ → ℕ → ℕ → ℕ
unit_from zero unit n = unit
unit_from (suc fuel) unit n =
    let wider = unit_from fuel (unit * 2) n in if ltb (n / unit) (2 ^ 53) then unit else wider

abbrev pub rounded : ℕ → ℕ → ℕ
rounded unit n =
    if ltb unit (n % unit * 2) || (n % unit * 2 == unit && n / unit % 2 == 1)
    then (n / unit + 1) * unit
    else n / unit * unit

unfoldable pub number_of : ℕ → ℕ
number_of n = if ltb n (2 ^ 53) then n else rounded (unit_from 11 1 n) n

-- A value of the dictionary; `int` holds the bits of an Int32.
pub data Value : Type 0 where
  raw : List ℕ → Value
  number : ℕ → Value
  int : ℕ → Value
  bool : Bool → Value
  str : Text → Value

abbrev pub Dict : Type 0
Dict = List (Text × Value)

abbrev pub get_value : Text → Dict → Option Value
get_value key [] = none
get_value key ((k, v) ∷ dict) = if same_text k key then some v else get_value key dict

module _ (utf8 : Text → List ℕ) where
  abbrev pub write_entry : Text × ℕ × List ℕ → List ℕ
  write_entry (key, kind, value) =
      (kind ∷ u32le (length (utf8 key))) ++ (utf8 key ++ (u32le (length value) ++ value))

  unfoldable pub variant_dict : List (Text × ℕ × List ℕ) → List ℕ
  unfolding u8
  variant_dict entries = 0 ∷ 1 ∷ (u8 (map write_entry entries) ++ 0 ∷ [])

module _ (utf8_text : List ℕ → Text) where
  -- The value of a type; a short one throws.
  unfoldable pub typed_value : ℕ → List ℕ → Result Value
  typed_value kind bytes =
      if kind == 0x04
      then get_u32 bytes >>= (λ n. ok (number n))
      else if kind == 0x0c
      then get_u32 bytes >>= (λ n. ok (int n))
      else if kind == 0x05 || kind == 0x0d
      then get_u64 bytes >>= (λ n. ok (number (number_of n)))
      else if kind == 0x08
      then ok (bool (not (get_or bytes 0 1 == 0)))
      else if kind == 0x18
      then ok (str (utf8_text bytes))
      else ok (raw bytes)

  -- A key and its value behind the byte of the type, and the rest. A slice ends with the bytes at
  -- the latest.
  unfoldable pub take_entry : ℕ → List ℕ → Result (Text × Value × List ℕ)
  take_entry kind bytes = get_u32 bytes >>= λ key_size.
      get_u32 (drop (4 + key_size) bytes) >>= λ size.
      typed_value kind (take size (drop 4 (drop (4 + key_size) bytes))) >>= λ value.
      ok (
        utf8_text (take key_size (drop 4 bytes)),
        value,
        drop (4 + size) (drop (4 + key_size) bytes),
      )

  unfoldable pub parse_entries : ℕ → Dict → List ℕ → Result Dict
  parse_entries zero dict bytes = err thrown
  parse_entries (suc fuel) dict [] = err thrown
  parse_entries (suc fuel) dict (kind ∷ bytes) =
      let more = take_entry kind bytes >>= λ e. parse_entries fuel ((e.0, e.1) ∷ dict) e.2 in
      if kind == 0 then ok dict else more

  -- Behind the two bytes of the version.
  unfoldable pub parse_variant_dict : List ℕ → Result Dict
  parse_variant_dict bytes = parse_entries (suc (length bytes)) [] (drop 2 bytes)
