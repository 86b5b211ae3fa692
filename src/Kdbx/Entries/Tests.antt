-- ===== src/Kdbx/Entries/Tests.antt =====
-- Runs of the entry builder and reader, and their theorems at concrete inputs. A title is its own URI
-- component, and the URL parser finds no secret.
use maspassword.Base.{◌≡◌, refl, false, Option, none, some, [], ◌∷◌, Text, codes, trim}
use maspassword.Item.{ItemData, CustomField, extra_fields}
use maspassword.Import.{match_secret}
use maspassword.Kdbx.{Result, ok}
use maspassword.Kdbx.Entries.{
  Entry, keys, decimal, decimal_from, free_key, custom_entry_fields, entry_fields, otpauth_uri,
  item_to_entry, items_to_kdbx_entries, without_space,
}
use maspassword.Kdbx.Entries.Reader.{totp_secret_from, kdbx_entries_to_items}
use maspassword.Kdbx.Entries.Restored.{AreRestored, kdbx_entries_to_items-items_to_kdbx_entries}

abbrev blank : ItemData
blank = record {
  kind = some (codes "login");
  title = none;
  username = none;
  password = none;
  url = none;
  notes = none;
  totp_secret = none;
  card_holder = none;
  card_number = none;
  card_brand = none;
  card_exp = none;
  card_cvv = none;
  card_pin = none;
  id_fullname = none;
  id_email = none;
  id_phone = none;
  id_address = none;
  id_company = none;
  custom_fields = [];
  tags = [];
}

abbrev custom : Text → Text → CustomField
custom label value = record { label = label; value = some value; hidden = false }

-- Two custom fields with the name of a field.
abbrev mail : ItemData
mail = record blank {
  title = some (codes "Mail");
  username = some (codes "ana");
  totp_secret = some (codes " JB SW ");
  custom_fields = custom (codes "Title") (codes "Dr") ∷ custom (codes "Title") (codes "x") ∷ [];
  tags = codes "work" ∷ [];
}

abbrev encode : Text → Result Text
encode s = ok s

abbrev no_secret : Text → Option Text
no_secret uri = none

names_run :
    keys (entry_fields mail (codes "u"))
    ≡ codes "Title"
      ∷ codes "UserName"
      ∷ codes "Password"
      ∷ codes "URL"
      ∷ codes "Notes"
      ∷ codes "otp"
      ∷ codes "Title (2)"
      ∷ codes "Title (3)"
      ∷ []
unfolding entry_fields extra_fields custom_entry_fields free_key decimal decimal_from
names_run = refl

otpauth_runs : otpauth_uri encode mail ≡ ok (codes "otpauth://totp/Mail?secret=JBSW")
unfolding otpauth_uri without_space trim
otpauth_runs = refl

totp_runs :
    totp_secret_from no_secret (some (codes "otpauth://totp/Mail?secret=JBSW")) ≡ codes "JBSW"
unfolding totp_secret_from match_secret trim
totp_runs = refl

abbrev pin : ItemData
pin = record blank { title = some (codes "Pin"); password = some (codes "7") }

abbrev pin_entry : Entry
pin_entry = record { title = codes "Pin"; fields = entry_fields pin []; tags = []; group = [] }

kdbx_entries_to_items-items_to_kdbx_entries_example :
    AreRestored no_secret (pin ∷ []) (kdbx_entries_to_items no_secret (pin_entry ∷ []))
kdbx_entries_to_items-items_to_kdbx_entries_example =
    kdbx_entries_to_items-items_to_kdbx_entries no_secret encode (pin ∷ []) (pin_entry ∷ []) made
  where
    made : items_to_kdbx_entries encode (pin ∷ []) ≡ ok (pin_entry ∷ [])
    made = unfold items_to_kdbx_entries item_to_entry otpauth_uri trim in refl
