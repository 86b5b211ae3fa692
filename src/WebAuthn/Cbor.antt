-- ===== src/WebAuthn/Cbor.antt =====
-- A reader of CBOR, for what cborEncode of extension/webauthn.js writes.
mod Head
mod Items
pub mod RoundTrip
pub mod Total
use maspassword.Base.{
  ℕ, zero, suc, ◌+◌, ◌≤◌, ◌<◌, ◌≡◌, refl, sym, ap, ◌∙◌, Bool, true, false, Option, none, some,
  Option-cases, List, [], ◌∷◌, ◌++◌, append_assoc, append-nil, Text, length, take, drop, leb, ◌==◌,
  if◌then◌else◌, max, Bool-cases, length-append, inl, inr, arith,
}
use mathlib.Core.Option.{some-injective, none-ne-some}
use maspassword.Kdbx.Bytes.{take-append, drop-append}
use maspassword.WebAuthn.{
  ℤ, pos, negsuc, Value, int, bytes, text, array, object, other, Values, nil, cons, Entries, end,
  entry, count_values, count_entries, cbor_head, ◌<+>◌, cbor_encode, encode_values, encode_entries,
}
use maspassword.WebAuthn.Cbor.Head.{read_head, read_head-cbor_head, cbor_head-none}

-- What a reader of one item returns: the item, and what is behind it.
abbrev pub Read : Type 0 → Type 0
Read A = Option (A × List ℕ)

module _ (utf8 : Text → List ℕ) (read_utf8 : List ℕ → Option Text) where
  -- A text that a decoder of UTF-8 reads back from what TextEncoder wrote: one without a surrogate
  -- that stands alone.
  abbrev pub ReadsBack : Text → Type 0
  ReadsBack t = read_utf8 (utf8 t) ≡ some t

  unfoldable mutual
    pub TextsRead : Value → Type 0
    TextsRead (int n) = Unit
    TextsRead (bytes b) = Unit
    TextsRead (text t) = ReadsBack t
    TextsRead (array vs) = ValuesRead vs
    TextsRead (object es) = EntriesRead es
    TextsRead other = Unit

    pub ValuesRead : Values → Type 0
    ValuesRead nil = Unit
    ValuesRead (cons v vs) = TextsRead v × ValuesRead vs

    pub EntriesRead : Entries → Type 0
    EntriesRead end = Unit
    EntriesRead (entry k v es) = TextsRead k × TextsRead v × EntriesRead es

unfoldable pub and_then : {A B : Type 0} → Option A → (A → Option B) → Option B
and_then none f = none
and_then (some a) f = f a

module _ (read : List ℕ → Read Value) where
  unfoldable pub read_values : ℕ → List ℕ → Read Values
  read_values zero b = some (nil, b)
  read_values (suc n) b =
      and_then (read b) (λ r. and_then (read_values n r.1) (λ s. some (cons r.0 s.0, s.1)))

  unfoldable pub read_entries : ℕ → List ℕ → Read Entries
  read_entries zero b = some (end, b)
  read_entries (suc n) b = and_then (read b) (λ k.
      and_then (read k.1) (λ v. and_then (read_entries n v.1) (λ s. some (entry k.0 v.0 s.0, s.1))))

module _ (read_utf8 : List ℕ → Option Text) where
  -- The item behind a head.
  unfoldable pub read_item : (List ℕ → Read Value) → ℕ → ℕ → List ℕ → Read Value
  read_item read major n b =
      if major == 0
      then some (int (pos n), b)
      else if major == 1
      then some (int (negsuc n), b)
      else if major == 2
      then (if leb n (length b) then some (bytes (take n b), drop n b) else none)
      else if major == 3
      then (if leb n (length b)
          then and_then (read_utf8 (take n b)) (λ t. some (text t, drop n b))
          else none)
      else if major == 4
      then and_then (read_values read n b) (λ r. some (array r.0, r.1))
      else if major == 5
      then and_then (read_entries read n b) (λ r. some (object r.0, r.1))
      else none

  -- The fuel is how deep arrays and maps may lie in each other.
  unfoldable pub cbor_decode : ℕ → List ℕ → Read Value
  cbor_decode zero b = none
  cbor_decode (suc fuel) b = and_then (read_head b) (λ r. read_item (cbor_decode fuel) r.0 r.1 r.2)

unfoldable mutual
  pub depth : Value → ℕ
  depth (int n) = 1
  depth (bytes b) = 1
  depth (text t) = 1
  depth (array vs) = suc (depth_values vs)
  depth (object es) = suc (depth_entries es)
  depth other = 1

  pub depth_values : Values → ℕ
  depth_values nil = 0
  depth_values (cons v vs) = max (depth v) (depth_values vs)

  pub depth_entries : Entries → ℕ
  depth_entries end = 0
  depth_entries (entry k v es) = max (max (depth k) (depth v)) (depth_entries es)
