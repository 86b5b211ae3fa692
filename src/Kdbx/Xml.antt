-- ===== src/Kdbx/Xml.antt =====
-- The XML of a database: parseXml of web/kdbx-read.js. A position
-- in the text is the rest of the text from there on.
pub mod Entity
pub mod Escape
pub mod Tree
mod Tests
use mathlib.Core.Option
use maspassword.Base.{
  ℕ, zero, suc, ◌+◌, ◌-◌, ◌*◌, ◌/◌, ◌%◌, ◌^◌, Bool, true, false, not, ◌&&◌, ◌||◌, Option, none,
  some, List, [], ◌∷◌, ◌++◌, Text, codes, length, drop, ltb, leb, ◌==◌, if◌then◌else◌, same_text,
  starts_with, is_space,
}
use maspassword.Kdbx.{Error, Result, ok, err, ◌>>=◌}
use maspassword.Kdbx.Error.{corrupt, thrown}
use maspassword.Kdbx.Xml.Entity.{span, xml_decode}

-- `s.indexOf(pattern)`: the text before the pattern, and the rest from it on.
unfoldable pub cut : Text → Text → Option (Text × Text)
cut pattern [] = none
cut pattern (c ∷ s) =
    let later = Option.map (λ r. (c ∷ r.0, r.1)) (cut pattern s) in
    if starts_with pattern (c ∷ s) then some ([], c ∷ s) else later

abbrev pub cut_or_corrupt : Option (Text × Text) → Result (Text × Text)
cut_or_corrupt none = err corrupt
cut_or_corrupt (some r) = ok r

-- Nodes, with the attributes set, the latest first.
mutual
  pub data Node : Type 0 where
    node : Text → List (Text × Text) → Nodes → Text → Node

  pub data Nodes : Type 0 where
    nil : Nodes
    cons : Node → Nodes → Nodes

-- A match of the attribute pattern at the start of the text: name, value and the rest.
abbrev pub quoted : ℕ → Text → Text → Option (Text × Text × Text)
quoted q name s = Option.map (λ r. (name, r.0, drop 1 r.1)) (cut (q ∷ []) s)

abbrev pub behind_equals : Text → Text × Text → Option (Text × Text × Text)
behind_equals name (spaces, []) = none
behind_equals name (spaces, q ∷ s) = if q == b'"' || q == b'\'' then quoted q name s else none

abbrev pub behind_name : Text → Text × Text → Option (Text × Text × Text)
behind_name name (spaces, []) = none
behind_name name (spaces, c ∷ s) = if c == b'=' then behind_equals name (span is_space s) else none

abbrev pub named : Text × Text → Option (Text × Text × Text)
named ([], rest) = none
named (c ∷ name, rest) = behind_name (c ∷ name) (span is_space rest)

unfoldable pub attribute_at : Text → Option (Text × Text × Text)
attribute_at s = named (span (λ c. not (is_space c) && not (c == b'=')) s)

-- What stands between two texts.
pub data Event : Type 0 where
  skipped close : Event
  cdata : Text → Event
  start empty : Text → List (Text × Text) → Event

pub record Token : Type 0 where
  pub before : Text
  pub event : Event
  pub later : Text

-- `body.endsWith('/')` and `body.slice(0, -1)`.
unfoldable pub ends_with_slash : Text → Bool
ends_with_slash [] = false
ends_with_slash (c ∷ []) = c == b'/'
ends_with_slash (c ∷ d ∷ s) = ends_with_slash (d ∷ s)

unfoldable pub without_last : Text → Text
without_last [] = []
without_last (c ∷ []) = []
without_last (c ∷ d ∷ s) = c ∷ without_last (d ∷ s)

module _ (inherited : Text → Option Text) where
  -- The loop of `re.exec`.
  unfoldable pub attributes : ℕ → List (Text × Text) → Text → Result (List (Text × Text))
  attributes zero attrs s = ok attrs
  attributes (suc fuel) attrs [] = ok attrs
  attributes (suc fuel) attrs (c ∷ s) = elim (attribute_at (c ∷ s)) [
    | none ↦ attributes fuel attrs s
    | some (name, value, rest) ↦
        xml_decode inherited value >>= λ v. attributes fuel ((name, v) ∷ attrs) rest
  ]

  abbrev pub open_tag : Bool → Text × Text → Result Event
  open_tag closes (tag, rest) = attributes (length rest) [] rest >>= λ attrs.
      ok (if closes then empty tag attrs else start tag attrs)

  unfoldable pub tag_event : Text → Result Event
  tag_event body =
      if starts_with (codes "/") body
      then ok close
      else if ends_with_slash body
      then open_tag true (span (λ c. not (is_space c)) (without_last body))
      else open_tag false (span (λ c. not (is_space c)) body)

  -- From `<` on: the event, and the rest of the text.
  unfoldable pub event_at : Text → Result (Event × Text)
  event_at s =
      if starts_with (codes "<!--") s
      then cut_or_corrupt (cut (codes "-->") s) >>= (λ r. ok (skipped, drop 3 r.1))
      else if starts_with (codes "<![CDATA[") s
      then cut_or_corrupt (cut (codes "]]>") s) >>= (λ r. ok (cdata (drop 9 r.0), drop 3 r.1))
      else if starts_with (codes "<?") s || starts_with (codes "<!") s
      then cut_or_corrupt (cut (codes ">") s) >>= (λ r. ok (skipped, drop 1 r.1))
      else cut_or_corrupt (cut (codes ">") s)
        >>= (λ r. tag_event (drop 1 r.0) >>= λ e. ok (e, drop 1 r.1))

  -- The next tag with the text before it; `none` where there is no other.
  abbrev pub token_of : Option (Text × Text) → Result (Option Token)
  token_of none = ok none
  token_of (some (before, s)) = xml_decode inherited before >>= λ text.
      event_at s >>= λ e. ok (some (record { before = text; event = e.0; later = e.1 }))

  unfoldable pub next_token : Text → Result (Option Token)
  next_token s = token_of (cut (codes "<") s)

-- An element that is open; the last of the stack is the root.
pub record Open : Type 0 where
  pub tag : Text
  pub attrs : List (Text × Text)
  pub children : Nodes
  pub text : Text

unfoldable pub add_last : Nodes → Node → Nodes
add_last nil n = cons n nil
add_last (cons m nodes) n = cons m (add_last nodes n)

abbrev pub closed_node : Open → Node
closed_node o = node o.tag o.attrs o.children o.text

abbrev pub add_child : Node → Open → Open
add_child n o = record o { children = add_last o.children n }

abbrev pub opened : Text → List (Text × Text) → Open
opened tag attrs = record { tag = tag; attrs = attrs; children = nil; text = [] }

-- The elements that are still open at the end stay where they are.
unfoldable pub close_all : Open → List Open → Open
close_all top [] = top
close_all top (parent ∷ below) = close_all (add_child (closed_node top) parent) below

-- An event on the stack.
abbrev pub pop : Open → List Open → Open × List Open
pop top [] = (top, [])
pop top (parent ∷ below) = (add_child (closed_node top) parent, below)

unfoldable pub act : Event → Open → List Open → Open × List Open
act skipped top below = (top, below)
act (cdata s) top below = (record top { text = top.text ++ s }, below)
act close top below = pop top below
act (empty tag attrs) top below = (add_child (node tag attrs nil []) top, below)
act (start tag attrs) top below = (opened tag attrs, top ∷ below)

abbrev pub with_text : Text → Open → Open
with_text s top = record top { text = top.text ++ s }

-- `children.find((c) => c.tag === tag)`.
unfoldable pub find_tag : Text → Nodes → Option Node
find_tag tag nil = none
find_tag tag (cons (node t attrs children text) nodes) =
    if same_text t tag then some (node t attrs children text) else find_tag tag nodes

abbrev pub document_of : Option Node → Result Node
document_of none = err corrupt
document_of (some n) = ok n

module _ (inherited : Text → Option Text) where
  -- Every turn takes a character at least.
  unfoldable pub parse_nodes : ℕ → Open → List Open → Text → Result Open
  parse_nodes zero top below s = ok (close_all top below)
  parse_nodes (suc fuel) top below s = next_token inherited s >>= λ t. elim t [
    | none ↦ ok (close_all top below)
    | some token ↦
        let (top', below') = act token.event (with_text token.before top) below in
        parse_nodes fuel top' below' token.later
  ]

  unfoldable pub parse_xml : Text → Result Node
  parse_xml s = parse_nodes (suc (length s)) (opened [] []) [] s >>= λ root.
      document_of (find_tag (codes "KeePassFile") root.children)
