-- ===== src/Kdbx/Entries.antt =====
-- Items to KDBX entries and back: otpauthUri and itemsToKdbxEntries of web/export.js, and in Reader
-- kdbxEntriesToItems of web/kdbx-read.js. The times of an entry are left out, which the reader does not
-- use. `encodeURIComponent`, which throws at a lone surrogate, and the query of the URL parser are
-- parameters.
pub mod Names
pub mod Fields
pub mod Reader
pub mod Restored
mod Tests
use maspassword.Base.{
  ℕ, zero, suc, ◌+◌, ◌*◌, ◌/◌, ◌%◌, Bool, true, false, not, ◌&&◌, ◌||◌, Option, none, some, List,
  [], ◌∷◌, ◌++◌, map, Text, codes, length, ltb, ◌==◌, if◌then◌else◌, same_text, includes,
  starts_with, trim, is_space,
}
use maspassword.Item.{CustomField, ItemData, ExtraField, extra_fields, or_else, or_blank, truthy}
use maspassword.Import.{match_secret, if_truthy}
use maspassword.Kdbx.{Error, Result, ok, err, ◌>>=◌}

pub record EntryField : Type 0 where
  pub key : Text
  pub value : Option Text
  pub is_protected : Bool

-- `group` holds the names of the groups around the entry, when it was read.
pub record Entry : Type 0 where
  pub title : Text
  pub fields : List EntryField
  pub tags : List Text
  pub group : List Text

-- A number in a template.
unfoldable pub decimal_from : ℕ → ℕ → Text → Text
decimal_from zero n later = later
decimal_from (suc fuel) n later =
    let more = decimal_from fuel (n / 10) ((b'0' + n % 10) ∷ later) in
    if ltb n 10 then (b'0' + n) ∷ later else more

unfoldable pub decimal : ℕ → Text
decimal n = decimal_from (suc n) n []

-- The names that the loop tries: the label, then the label with a number from 2 on.
abbrev pub candidate : Text → ℕ → Text
candidate label zero = label
candidate label (suc n) = label ++ (codes " (" ++ (decimal (suc (suc n)) ++ codes ")"))

-- `while (used.has(key)) key = …`: one turn more than there are used names is enough.
unfoldable pub free_key : ℕ → List Text → Text → ℕ → Text
free_key zero used label n = candidate label n
free_key (suc fuel) used label n =
    let next = free_key fuel used label (n + 1) in
    if includes (candidate label n) used then next else candidate label n

-- The loop over the custom fields.
unfoldable pub custom_entry_fields : List Text → List CustomField → List EntryField
custom_entry_fields used [] = []
custom_entry_fields used (f ∷ fields) =
    let key = free_key (suc (length used)) used (or_else (some f.label) (codes "Field")) 0 in
    let added =
      record { key = key; value = f.value; is_protected = f.hidden }
      ∷ custom_entry_fields (key ∷ used) fields in
    let skipped = custom_entry_fields used fields in
    if not (truthy (some f.label)) && not (truthy f.value) then skipped else added

unfoldable pub without_space : Text → Text
without_space [] = []
without_space (c ∷ s) = let rest = without_space s in if is_space c then rest else c ∷ rest

abbrev pub entry_field : Text → Option Text → Bool → EntryField
entry_field key value is_protected = record {
  key = key;
  value = value;
  is_protected = is_protected;
}

abbrev pub of_extra : ExtraField → EntryField
of_extra f = record { key = f.key; value = f.value; is_protected = f.is_protected }

-- The fields with the text for the TOTP secret, if there is one.
abbrev pub otp_field : Text → List EntryField
otp_field [] = []
otp_field (c ∷ otp) = entry_field (codes "otp") (some (c ∷ otp)) true ∷ []

abbrev pub base_fields : ItemData → Text → List EntryField
base_fields d otp =
    entry_field (codes "Title") d.title false
    ∷ entry_field (codes "UserName") d.username false
    ∷ entry_field (codes "Password") d.password true
    ∷ entry_field (codes "URL") d.url false
    ∷ entry_field (codes "Notes") d.notes false
    ∷ (otp_field otp ++ map of_extra (extra_fields d))

abbrev pub keys : List EntryField → List Text
keys fields = map (λ f. f.key) fields

unfoldable pub entry_fields : ItemData → Text → List EntryField
entry_fields d otp =
    base_fields d otp ++ custom_entry_fields (keys (base_fields d otp)) d.custom_fields

module _ (encode : Text → Result Text) where
  abbrev pub uri_of : ItemData → Text → Result Text
  uri_of d [] = ok []
  uri_of d (c ∷ s) =
      if starts_with (codes "otpauth://") (c ∷ s)
      then ok (c ∷ s)
      else encode (or_else d.title (codes "Sesamo")) >>= λ label.
          encode (without_space (c ∷ s)) >>= λ secret.
          ok (codes "otpauth://totp/" ++ (label ++ (codes "?secret=" ++ secret)))

  unfoldable pub otpauth_uri : ItemData → Result Text
  otpauth_uri d = uri_of d (trim (or_blank d.totp_secret))

  unfoldable pub item_to_entry : ItemData → Result Entry
  item_to_entry d = otpauth_uri d >>= λ otp.
      ok (record {
        title = or_blank d.title;
        fields = entry_fields d otp;
        tags = d.tags;
        group = [];
      })

  unfoldable pub items_to_kdbx_entries : List ItemData → Result (List Entry)
  items_to_kdbx_entries [] = ok []
  items_to_kdbx_entries (d ∷ items) =
      item_to_entry d >>= λ entry. items_to_kdbx_entries items >>= λ entries. ok (entry ∷ entries)
