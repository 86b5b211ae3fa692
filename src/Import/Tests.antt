-- ===== src/Import/Tests.antt =====
-- Runs of the export and the import, and instances of their theorems. The lower case map acts on the
-- ASCII letters, and the URL parser finds no secret.
use mathlib.Core.Option
use maspassword.Base.{true, ◌≡◌, refl, Option, none, some, [], ◌∷◌, Text, codes, map, trim, join}
use maspassword.Csv.{parse_csv}
use maspassword.Item.{ItemData, extra_fields}
use maspassword.Export.{csv_notes, build_csv}
use maspassword.Import.{ascii_lower, match_secret, map_csv_to_items, normal_headers}
use maspassword.Import.RoundTrip.{LowersAscii, all_reimported, map_csv_to_items-build_csv}

abbrev lower : Text → Text
lower s = map ascii_lower s

abbrev no_secret : Text → Option Text
no_secret uri = none

lowers : LowersAscii lower
lowers s h = refl

abbrev blank : ItemData
blank = record {
  kind = none;
  title = none;
  username = none;
  password = none;
  url = none;
  notes = none;
  totp_secret = none;
  card_holder = none;
  card_number = none;
  card_brand = none;
  card_exp = none;
  card_cvv = none;
  card_pin = none;
  id_fullname = none;
  id_email = none;
  id_phone = none;
  id_address = none;
  id_company = none;
  custom_fields = [];
  tags = [];
}

abbrev mail : ItemData
mail = record blank {
  title = some (codes "Mail ");
  username = some (codes "ana");
  password = some (codes "a,\"b\"");
  totp_secret = some (codes "JBSW");
  custom_fields = record { label = codes "pin"; value = some (codes "7"); hidden = true } ∷ [];
}

abbrev scan : ItemData
scan = record blank { kind = some (codes "Document"); title = some (codes "scan") }

map_csv_to_items-build_csv_example :
    Option.bind
      (parse_csv (build_csv (mail ∷ scan ∷ blank ∷ [])))
      (map_csv_to_items lower no_secret)
    ≡ some (all_reimported lower (mail ∷ scan ∷ blank ∷ []))
map_csv_to_items-build_csv_example =
    map_csv_to_items-build_csv lower no_secret lowers (mail ∷ scan ∷ blank ∷ [])

comes_back :
    all_reimported lower (mail ∷ scan ∷ blank ∷ [])
    ≡ record {
      title = codes "Mail";
      username = some (codes "ana");
      password = some (codes "a,\"b\"");
      url = none;
      notes = some (codes "pin: 7");
      totp_secret = none;
    }
      ∷ []
unfolding trim csv_notes join extra_fields
comes_back = refl

-- Two known headers, but no title.
no_title :
    map_csv_to_items lower no_secret
      ((codes "URL" ∷ codes "Password" ∷ []) ∷ (codes "a" ∷ codes "b" ∷ []) ∷ [])
    ≡ none
unfolding map_csv_to_items normal_headers trim
no_title = refl

secret_found : match_secret (codes "x?issuer=a&SECRET=JBSW3DP1&y") ≡ some (codes "JBSW3DP")
unfolding match_secret
secret_found = refl
