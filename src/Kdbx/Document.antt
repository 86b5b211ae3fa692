-- ===== src/Kdbx/Document.antt =====
-- The document: kdbxTime, entryXml and databaseXml of web/export.js, and readKdbx of web/kdbx-read.js as a
-- whole. The random UUIDs and the times that the writer takes are arguments, in base64 and in
-- milliseconds.
use maspassword.Base.{
  ℕ, ◌+◌, ◌/◌, Bool, true, false, Option, none, some, List, [], ◌∷◌, ◌++◌, Text, codes, join,
  if◌then◌else◌, same_text, trim,
}
use maspassword.Kdbx.{Result, ok, err, ◌>>=◌, u64le_big}
use maspassword.Kdbx.Error.{corrupt}
use maspassword.Kdbx.Stream.{Stream, stream_xor}
use maspassword.Kdbx.Entries.{EntryField, Entry}
use maspassword.Kdbx.Container.{Browser}
use maspassword.Kdbx.Container.Read.{Opened, open_kdbx}
use maspassword.Kdbx.Xml.{Node, node, find_tag, parse_xml}
use maspassword.Kdbx.Xml.Entity.{xml_esc}
use maspassword.Kdbx.Xml.Tree.{children_of, child_text, walk_root, unprotect_all}

-- What an entry is written with.
pub record Stamp : Type 0 where
  pub uuid : Text
  pub created : ℕ
  pub modified : ℕ

abbrev pub dotnet_epoch_offset : ℕ
dotnet_epoch_offset = 62135596800

-- `<tag>text</tag>`.
abbrev pub element : Text → Text → Text
element tag text = codes "<" ++ (tag ++ (codes ">" ++ (text ++ (codes "</" ++ (tag ++ codes ">")))))

module _ (btoa : List ℕ → Text) (utf8 : Text → List ℕ) where
  unfoldable pub kdbx_time : ℕ → Text
  kdbx_time ms = btoa (u64le_big (ms / 1000 + dotnet_epoch_offset))

  -- One `<String>`; a protected value takes the next bytes of the stream.
  abbrev pub string_xml : Text → Text → Text
  string_xml key value =
      codes "<String><Key>" ++ (xml_esc key ++ (codes "</Key>" ++ (value ++ codes "</String>")))

  unfoldable pub field_xml : Text → Text → Bool → Stream → Result (Text × Stream)
  field_xml key value true s = stream_xor s (utf8 value) >>= λ r.
      ok
        (string_xml key (codes "<Value Protected=\"True\">" ++ (btoa r.0 ++ codes "</Value>")), r.1)
  field_xml key value false s =
      ok (string_xml key (codes "<Value>" ++ (xml_esc value ++ codes "</Value>")), s)

  -- Fields with no value are left out.
  abbrev pub value_xml : Text → Option Text → Bool → Stream → Result (Text × Stream)
  value_xml key none p s = ok ([], s)
  value_xml key (some []) p s = ok ([], s)
  value_xml key (some (c ∷ value)) p s = field_xml key (c ∷ value) p s

  unfoldable pub strings_xml : List EntryField → Stream → Result (Text × Stream)
  strings_xml [] s = ok ([], s)
  strings_xml (f ∷ fields) s = value_xml f.key f.value f.is_protected s >>= λ first.
      strings_xml fields first.1 >>= λ later. ok (first.0 ++ later.0, later.1)

  abbrev pub tags_xml : List Text → Text
  tags_xml [] = []
  tags_xml (t ∷ tags) = element (codes "Tags") (xml_esc (join (codes ";") (t ∷ tags)))

  abbrev pub times_xml : ℕ → ℕ → Text
  times_xml created modified = element (codes "Times") (
      element (codes "CreationTime") (kdbx_time created)
      ++ (element (codes "LastModificationTime") (kdbx_time modified)
          ++ (element (codes "LastAccessTime") (kdbx_time modified)
              ++ (element (codes "ExpiryTime") (kdbx_time modified)
                  ++ element (codes "Expires") (codes "False")))))

  unfoldable pub entry_xml : Stamp → Entry → Stream → Result (Text × Stream)
  entry_xml stamp e s = strings_xml e.fields s >>= λ strings. ok (
    element (codes "Entry") (
        element (codes "UUID") stamp.uuid
        ++ (tags_xml e.tags ++ (times_xml stamp.created stamp.modified ++ strings.0))),
    strings.1,
  )

  unfoldable pub entries_xml : List (Stamp × Entry) → Stream → Result (Text × Stream)
  entries_xml [] s = ok ([], s)
  entries_xml ((stamp, e) ∷ entries) s = entry_xml stamp e s >>= λ first.
      entries_xml entries first.1 >>= λ later. ok (first.0 ++ later.0, later.1)

  abbrev pub protection_xml : Text
  protection_xml = element (codes "MemoryProtection") (
      element (codes "ProtectTitle") (codes "False")
      ++ (element (codes "ProtectUserName") (codes "False")
          ++ (element (codes "ProtectPassword") (codes "True")
              ++ (element (codes "ProtectURL") (codes "False")
                  ++ element (codes "ProtectNotes") (codes "False")))))

  -- At the time `now`, with the UUID of the group.
  unfoldable pub database_xml : ℕ → Text → Text → List (Stamp × Entry) → Stream → Result Text
  database_xml now uuid vault_name entries s = entries_xml entries s >>= λ r. ok (
      codes "<?xml version=\"1.0\" encoding=\"utf-8\" standalone=\"yes\"?>"
      ++ element (codes "KeePassFile") (
          element (codes "Meta") (
            element (codes "Generator") (codes "Sésamo")
            ++ (element (codes "DatabaseName") (xml_esc vault_name)
                ++ (element (codes "DatabaseNameChanged") (kdbx_time now) ++ protection_xml)))
          ++ element (codes "Root") (
              element (codes "Group") (
                element (codes "UUID") uuid
                ++ (element (codes "Name") (xml_esc vault_name) ++ (times_xml now now ++ r.0))))))

-- What readKdbx returns.
pub record Database : Type 0 where
  pub name : Text
  pub entries : List Entry
  pub binaries_skipped : ℕ

module _ (b : Browser) (lower : Text → Text) (inherited : Text → Option Text) (btoa : List ℕ → Text)
    (atob : Text → Option (List ℕ)) where
  abbrev pub meta_nodes : Node → Option Node
  meta_nodes doc = find_tag (codes "Meta") (children_of doc)

  -- KDBX 3 states the hash of its header in the document; an empty one is not tested.
  abbrev pub declared_hash : Option Node → Text
  declared_hash none = []
  declared_hash (some (node tag attrs children text)) =
      trim (child_text (codes "HeaderHash") children)

  abbrev pub check_hash : Option (List ℕ) → Text → Result (Unit {0})
  check_hash none declared = ok tt
  check_hash (some header) [] = ok tt
  check_hash (some header) (c ∷ declared) =
      if same_text (btoa (b.sha256 header)) (c ∷ declared) then ok tt else err corrupt

  abbrev pub bin_of : Option Node → Text
  bin_of none = []
  bin_of (some (node tag attrs children text)) = trim (child_text (codes "RecycleBinUUID") children)

  abbrev pub name_of : Option Node → Text
  name_of none = []
  name_of (some (node tag attrs children text)) = child_text (codes "DatabaseName") children

  abbrev pub root_entries : Text → Option Node → List Entry
  root_entries bin none = []
  root_entries bin (some (node tag attrs children text)) = walk_root lower bin children

  unfoldable pub database_of : ℕ → Node → Database
  database_of binaries doc = record {
    name = name_of (meta_nodes doc);
    entries = root_entries (bin_of (meta_nodes doc)) (find_tag (codes "Root") (children_of doc));
    binaries_skipped = binaries;
  }

  unfoldable pub read_document : Opened → Result Database
  read_document opened = parse_xml inherited opened.xml >>= λ doc.
      unprotect_all lower b.utf8_text atob doc opened.stream >>= λ r.
      check_hash opened.header_bytes (declared_hash (meta_nodes r.0)) >>= λ _.
      ok (database_of opened.binaries r.0)

  unfoldable pub read_kdbx : List ℕ → Text → Result Database
  read_kdbx bytes password = open_kdbx b bytes password >>= λ opened. read_document opened
