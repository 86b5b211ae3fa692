-- ===== src/Kdbx/Xml/Tests.antt =====
-- Runs of the XML code and of the whole reader, and the theorem at a concrete text. Texts are their own
-- bytes, base64 is the text with a letter in front, and no object inherits anything.
use maspassword.Base.{
  ℕ, ◌≡◌, refl, true, false, Option, none, some, List, [], ◌∷◌, Text, codes, drop, map, is_space,
  join, split, trim,
}
use maspassword.Import.{ascii_lower}
use maspassword.Kdbx.{ok, err, ◌>>=◌, u32le, u64le_big}
use maspassword.Kdbx.Error.{unsupported}
use maspassword.Kdbx.Entries.{Entry}
use maspassword.Kdbx.Stream.{plain, stream_xor}
use maspassword.Kdbx.Container.{Browser}
use maspassword.Kdbx.Document.{
  Stamp, database_xml, entries_xml, entry_xml, strings_xml, field_xml, read_document, database_of,
  kdbx_time,
}
use maspassword.Kdbx.Xml.Tree.{
  entry_from_xml, string_fields, tags_from, tags_in, unprotect_all, unprotect_children, value_text,
  walk_group, walk_root,
}
use maspassword.Kdbx.Xml.{
  parse_xml, parse_nodes, next_token, cut, event_at, tag_event, ends_with_slash, attributes, act,
  add_last, attribute_at, close_all, find_tag, without_last,
}
use maspassword.Kdbx.Xml.Entity.{
  xml_esc, replace_with, without_controls, decode_from, entity_at, span, entity_value, digits_value,
  from_code_point, xml_decode,
}
use maspassword.Kdbx.Xml.Escape.{xml_decode-xml_esc}

abbrev nothing : Text → Option Text
nothing s = none

decode_runs : xml_decode nothing (codes "a&amp;&#65;&#x42;&x;&") ≡ ok (codes "a&AB&x;&")
unfolding xml_decode decode_from entity_at span entity_value digits_value from_code_point
decode_runs = refl

xml_decode-xml_esc_example :
    xml_decode nothing (xml_esc (codes "a<&\">b")) ≡ ok (without_controls (codes "a<&\">b"))
xml_decode-xml_esc_example = xml_decode-xml_esc nothing (codes "a<&\">b")

abbrev browser : Browser
browser = record {
  sha256 = λ s. s;
  sha512 = λ s. s;
  hmac = λ key s. s;
  imports = λ key. true;
  encrypt = λ key iv s. s;
  decrypt = λ key iv s. some s;
  utf8 = λ s. s;
  utf8_text = λ s. s;
  gunzip = λ s. none;
  text_number = λ s. 0;
  loose_argon2 = λ variant params key. err unsupported;
}

abbrev btoa : List ℕ → Text
btoa bytes = b'=' ∷ bytes

abbrev atob : Text → Option (List ℕ)
atob s = some (drop 1 s)

abbrev bank : Entry
bank = record {
  title = [];
  fields =
      record { key = codes "Title"; value = some (codes "A & B"); is_protected = false }
      ∷ record { key = codes "Password"; value = some (codes "p w"); is_protected = true }
      ∷ record { key = codes "Notes"; value = some (codes "x>y"); is_protected = false }
      ∷ [];
  tags = codes "one" ∷ codes "two" ∷ [];
  group = [];
}

abbrev stamped : List (Stamp × Entry)
stamped = (record { uuid = codes "u"; created = 1000; modified = 2000 }, bank) ∷ []

-- A database is written and read, with a stream that does not change the values.
database_runs :
    (database_xml btoa (λ s. s) 3000 (codes "v") (codes "Vault <1>") stamped plain >>= λ xml.
    read_document browser
      (λ s. map ascii_lower s)
      nothing
      btoa
      atob
      (record { xml = xml; stream = plain; binaries = 0; header_bytes = none }))
    ≡ ok (record { name = codes "Vault <1>"; entries = bank ∷ []; binaries_skipped = 0 })
unfolding database_xml stream_xor u32le u64le_big is_space join split trim parse_nodes next_token
    cut event_at tag_event ends_with_slash attributes span act add_last attribute_at close_all
    find_tag without_last parse_xml xml_decode decode_from digits_value entity_at entity_value
    from_code_point replace_with without_controls xml_esc entries_xml entry_xml strings_xml
    field_xml read_document database_of kdbx_time entry_from_xml string_fields tags_from tags_in
    unprotect_all unprotect_children value_text walk_group walk_root
database_runs = refl
