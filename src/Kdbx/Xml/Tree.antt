-- ===== src/Kdbx/Xml/Tree.antt =====
-- unprotectAll, entryFromXml and the walk over the groups in readKdbx of web/kdbx-read.js. The times of
-- an entry are left out. `toLowerCase` is a parameter, and so are `atob` (`none` is an exception) and
-- `btoa`.
use maspassword.Base.{
  ℕ, Bool, false, ◌&&◌, Option, none, some, List, [], ◌∷◌, ◌++◌, map, Text, codes, ◌==◌,
  if◌then◌else◌, same_text, trim, split,
}
use maspassword.Item.{truthy}
use maspassword.Kdbx.{Result, ok, err, ◌>>=◌}
use maspassword.Kdbx.Error.{thrown}
use maspassword.Kdbx.Stream.{Stream, stream_xor}
use maspassword.Kdbx.Entries.{EntryField, Entry}
use maspassword.Kdbx.Xml.{Node, Nodes, node, nil, cons, find_tag}

abbrev pub children_of : Node → Nodes
children_of (node tag attrs children text) = children

abbrev pub text_of : Option Node → Text
text_of none = []
text_of (some (node tag attrs children text)) = text

-- childText.
abbrev pub child_text : Text → Nodes → Text
child_text tag nodes = text_of (find_tag tag nodes)

abbrev pub attr : Text → List (Text × Text) → Option Text
attr name [] = none
attr name ((k, v) ∷ attrs) = if same_text k name then some v else attr name attrs

module _ (lower : Text → Text) where
  abbrev pub is_true : Option Text → Bool
  is_true none = false
  is_true (some v) = same_text (lower v) (codes "true")

  abbrev pub is_protected : List (Text × Text) → Bool
  is_protected attrs = is_true (attr (codes "Protected") attrs)

  abbrev pub field_of : Option Node → Text → EntryField
  field_of none key = record { key = key; value = some []; is_protected = false }
  field_of (some (node tag attrs children text)) key = record {
    key = key;
    value = some text;
    is_protected = is_protected attrs;
  }

  -- The `String` children.
  unfoldable pub string_fields : Nodes → List EntryField
  string_fields nil = []
  string_fields (cons (node tag attrs children text) nodes) =
      let rest = string_fields nodes in
      if same_text tag (codes "String")
      then field_of (find_tag (codes "Value") children) (child_text (codes "Key") children) ∷ rest
      else rest

  -- `text.split(/[;,]/).map(trim).filter(Boolean)`.
  abbrev pub filled : List Text → List Text
  filled [] = []
  filled (t ∷ tags) = if truthy (some t) then t ∷ filled tags else filled tags

  unfoldable pub tags_in : Text → List Text
  tags_in s = filled (map trim (split b';' (map (λ c. if c == b',' then b';' else c) s)))

  -- The last `Tags` child.
  unfoldable pub tags_from : List Text → Nodes → List Text
  tags_from tags nil = tags
  tags_from tags (cons (node tag attrs children text) nodes) =
      tags_from (if same_text tag (codes "Tags") then tags_in text else tags) nodes

  unfoldable pub entry_from_xml : Nodes → List Text → Entry
  entry_from_xml children path = record {
    title = [];
    fields = string_fields children;
    tags = tags_from [] children;
    group = path;
  }

  -- The entries of a group, with the names of the groups around them; not those of the recycle bin.
  abbrev pub in_bin : Text → Nodes → Bool
  in_bin bin children =
      truthy (some bin) && same_text (trim (child_text (codes "UUID") children)) bin

  unfoldable pub walk_group : Text → List Text → Nodes → List Entry
  walk_group bin path nil = []
  walk_group bin path (cons (node tag attrs children text) nodes) =
      let rest = walk_group bin path nodes in
      let inside =
        walk_group bin (path ++ trim (child_text (codes "Name") children) ∷ []) children in
      if same_text tag (codes "Group")
      then if in_bin bin children then rest else inside ++ rest
      else if same_text tag (codes "Entry")
      then entry_from_xml children path ∷ rest
      else rest

  -- The groups of the root.
  unfoldable pub walk_root : Text → Nodes → List Entry
  walk_root bin nil = []
  walk_root bin (cons (node tag attrs children text) nodes) =
      let rest = walk_root bin nodes in
      if same_text tag (codes "Group") then walk_group bin [] children ++ rest else rest

  module _ (utf8_text : List ℕ → Text) (atob : Text → Option (List ℕ)) where
    -- The text of a protected value, and the stream behind it.
    abbrev pub from_base64 : Option (List ℕ) → Stream → Result (Text × Stream)
    from_base64 none s = err thrown
    from_base64 (some bytes) s = stream_xor s bytes >>= λ r. ok (utf8_text r.0, r.1)

    abbrev pub revealed : Text → Stream → Result (Text × Stream)
    revealed [] s = ok ([], s)
    revealed (c ∷ enc) s = from_base64 (atob (c ∷ enc)) s

    unfoldable pub value_text : Text → List (Text × Text) → Text → Stream → Result (Text × Stream)
    value_text tag attrs text s =
        if same_text tag (codes "Value") && is_protected attrs
        then revealed (trim text) s
        else ok (text, s)

    unfoldable mutual
      pub unprotect_all : Node → Stream → Result (Node × Stream)
      unprotect_all (node tag attrs children text) s = value_text tag attrs text s >>= λ v.
          unprotect_children children v.1 >>= λ r. ok (node tag attrs r.0 v.0, r.1)

      pub unprotect_children : Nodes → Stream → Result (Nodes × Stream)
      unprotect_children nil s = ok (nil, s)
      unprotect_children (cons n nodes) s = unprotect_all n s >>= λ first.
          unprotect_children nodes first.1 >>= λ later. ok (cons first.0 later.0, later.1)
