-- ===== src/Kdbx/Entries/Reader.antt =====
-- KDBX entries to items: totpSecretFrom and kdbxEntriesToItems of web/kdbx-read.js. The query of the URL
-- parser is a parameter.
use maspassword.Base.{
  Bool, true, false, not, ◌&&◌, ◌||◌, Option, none, some, List, [], ◌∷◌, ◌++◌, Text, codes,
  if◌then◌else◌, same_text, includes, starts_with, trim,
}
use maspassword.Item.{CustomField, ItemData, or_else, or_blank, truthy}
use maspassword.Import.{match_secret, if_truthy}
use maspassword.Kdbx.Entries.{EntryField, Entry}

-- `byKey.get(key)`: the last field with the key.
abbrev pub or_later : Option EntryField → Option EntryField → Option EntryField
or_later earlier none = earlier
or_later earlier (some f) = some f

unfoldable pub by_key : Text → List EntryField → Option EntryField
by_key key [] = none
by_key key (f ∷ fields) =
    or_later (if same_text f.key key then some f else none) (by_key key fields)

abbrev pub value_of : Option EntryField → Option Text
value_of none = none
value_of (some f) = f.value

-- `val(key)`, and `byKey.has(key)`.
abbrev pub val : Text → List EntryField → Text
val key fields = elim (value_of (by_key key fields)) [ none ↦ [] | some v ↦ v ]

abbrev pub has_key : Text → List EntryField → Bool
has_key key fields = elim (by_key key fields) [ none ↦ false | some f ↦ true ]

abbrev pub non_empty : Text → Option Text
non_empty [] = none
non_empty (c ∷ s) = some (c ∷ s)

abbrev pub standard_keys : List Text
standard_keys =
    codes "Title" ∷ codes "UserName" ∷ codes "Password" ∷ codes "URL" ∷ codes "Notes" ∷ []

abbrev pub card_keys : List Text
card_keys =
    codes "Card Holder"
    ∷ codes "Card Number"
    ∷ codes "Card Brand"
    ∷ codes "Card Expiry"
    ∷ codes "Card CVV"
    ∷ codes "Card PIN"
    ∷ []

abbrev pub identity_keys : List Text
identity_keys =
    codes "Full Name" ∷ codes "Email" ∷ codes "Phone" ∷ codes "Address" ∷ codes "Company" ∷ []

-- `if (byKey.has(key)) item[prop] = val(key)`.
abbrev pub prop : Bool → Text → List EntryField → Option Text
prop takes key fields = if takes && has_key key fields then some (val key fields) else none

-- The fields that are left: not consumed, with a value.
unfoldable pub left_over : List Text → List EntryField → List CustomField
left_over consumed [] = []
left_over consumed (f ∷ fields) =
    let rest = left_over consumed fields in
    if includes f.key consumed || not (truthy f.value)
    then rest
    else record { label = f.key; value = f.value; hidden = f.is_protected } ∷ rest

-- The groups that are no tags yet, behind the tags.
unfoldable pub with_groups : List Text → List Text → List Text
with_groups tags [] = tags
with_groups tags (g ∷ group) =
    let added = with_groups (tags ++ g ∷ []) group in
    let same = with_groups tags group in
    if truthy (some g) && not (includes g tags) then added else same

abbrev pub otp_of : List EntryField → Option EntryField
otp_of fields = elim (by_key (codes "otp") fields) [
  | none ↦ by_key (codes "TOTP Seed") fields
  | some f ↦ some f
]

abbrev pub otp_key : Option EntryField → List Text
otp_key none = []
otp_key (some f) = f.key ∷ []

-- The type of the item: no login that has a name or a password is another type.
abbrev pub is_card : List EntryField → Bool
is_card fields =
    not (
      truthy (some (val (codes "UserName") fields))
      || truthy (some (val (codes "Password") fields)))
    && (has_key (codes "Card Number") fields || has_key (codes "Card Holder") fields)

abbrev pub is_identity : List EntryField → Bool
is_identity fields =
    not (
      truthy (some (val (codes "UserName") fields))
      || truthy (some (val (codes "Password") fields)))
    && (not (has_key (codes "Card Number") fields || has_key (codes "Card Holder") fields)
        && has_key (codes "Full Name") fields)

abbrev pub consumed_keys : List EntryField → List Text
consumed_keys fields =
    codes "TOTP Settings"
    ∷ (otp_key (otp_of fields)
        ++ (standard_keys
            ++ ((if is_card fields then card_keys else [])
                ++ (if is_identity fields then identity_keys else []))))

-- An entry with no title, name, password or URL is left out.
abbrev pub is_blank : List EntryField → Bool
is_blank fields =
    not (truthy (some (trim (val (codes "Title") fields))))
    && (not (truthy (some (val (codes "UserName") fields)))
        && (not (truthy (some (val (codes "Password") fields)))
            && not (truthy (some (val (codes "URL") fields)))))

module _ (url_secret : Text → Option Text) where
  abbrev pub matched : Option Text → Text
  matched none = []
  matched (some secret) = secret

  abbrev pub from_uri : Option Text → Text → Text
  from_uri none uri = matched (match_secret uri)
  from_uri (some secret) uri = secret

  abbrev pub from_text : Text → Text
  from_text v =
      if starts_with (codes "otpauth://") v then from_uri (if_truthy (url_secret v)) v else v

  unfoldable pub totp_secret_from : Option Text → Text
  totp_secret_from value = from_text (trim (or_blank value))

  abbrev pub otp_secret : Option EntryField → Option Text
  otp_secret none = none
  otp_secret (some f) = non_empty (totp_secret_from f.value)

  unfoldable pub item_of : Entry → ItemData
  item_of e = record {
    kind = some (
        if is_card e.fields
        then codes "card"
        else if is_identity e.fields
        then codes "identity"
        else codes "login");
    title = some (
        or_else (some (trim (val (codes "Title") e.fields))) (
          or_else (some (val (codes "UserName") e.fields))
            (or_else (some (val (codes "URL") e.fields)) (codes "KeePass"))));
    username = non_empty (val (codes "UserName") e.fields);
    password = non_empty (val (codes "Password") e.fields);
    url = non_empty (val (codes "URL") e.fields);
    notes = non_empty (val (codes "Notes") e.fields);
    totp_secret = otp_secret (otp_of e.fields);
    card_holder = prop (is_card e.fields) (codes "Card Holder") e.fields;
    card_number = prop (is_card e.fields) (codes "Card Number") e.fields;
    card_brand = prop (is_card e.fields) (codes "Card Brand") e.fields;
    card_exp = prop (is_card e.fields) (codes "Card Expiry") e.fields;
    card_cvv = prop (is_card e.fields) (codes "Card CVV") e.fields;
    card_pin = prop (is_card e.fields) (codes "Card PIN") e.fields;
    id_fullname = prop (is_identity e.fields) (codes "Full Name") e.fields;
    id_email = prop (is_identity e.fields) (codes "Email") e.fields;
    id_phone = prop (is_identity e.fields) (codes "Phone") e.fields;
    id_address = prop (is_identity e.fields) (codes "Address") e.fields;
    id_company = prop (is_identity e.fields) (codes "Company") e.fields;
    custom_fields = left_over (consumed_keys e.fields) e.fields;
    tags = with_groups e.tags e.group;
  }

  unfoldable pub kdbx_entries_to_items : List Entry → List ItemData
  kdbx_entries_to_items [] = []
  kdbx_entries_to_items (e ∷ entries) =
      let items = kdbx_entries_to_items entries in
      if is_blank e.fields then items else item_of e ∷ items
