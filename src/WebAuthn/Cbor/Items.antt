-- ===== src/WebAuthn/Cbor/Items.antt =====
-- The reader of CBOR on each kind of item that cborEncode of extension/webauthn.js writes.
use maspassword.Base.{
  ℕ, zero, suc, ◌≤◌, ◌<◌, ◌≡◌, refl, sym, ap, ◌∙◌, true, Option, none, some, List, [], ◌++◌,
  append_assoc, append-nil, Text, length, take, drop, leb, Bool-cases, length-append, inl, inr,
  arith,
}
use mathlib.Core.Option.{some-injective, none-ne-some}
use maspassword.Kdbx.Bytes.{take-append, drop-append}
use maspassword.WebAuthn.{
  pos, negsuc, Value, int, bytes, text, array, object, other, Values, cons, Entries, entry,
  cbor_head, ◌<+>◌, cbor_encode,
}
use maspassword.WebAuthn.Cbor.Head.{read_head, read_head-cbor_head, cbor_head-none}
use maspassword.WebAuthn.Cbor.{
  ReadsBack, and_then, read_values, read_entries, read_item, cbor_decode, depth,
}

-- The parts of an encoding that did not throw.
pub parts :
    (a b : Option (List ℕ)) (bs : List ℕ)
    → (a <+> b) ≡ some bs
    → (x : List ℕ) × (y : List ℕ) × (a ≡ some x) × (b ≡ some y) × (bs ≡ x ++ y)
parts none b bs e = cc
parts (some x) none bs e = cc
parts (some x) (some y) bs e = (x, y, refl, refl, sym (some-injective _ _ e))

-- A head, if there is one, is read.
pub head_read :
    (major n : ℕ) (hs rest : List ℕ)
    → cbor_head major n ≡ some hs
    → read_head (hs ++ rest) ≡ some (major, n, rest)
head_read major n hs rest e = elim (Bool-cases (leb n 0xffffffff)) [
  | inl fits ↦
      let (gs, wrote, reads) = read_head-cbor_head major n (ground arith) in
      let same : gs ≡ hs = some-injective _ _ (sym wrote ∙ e) in
      ap (λ t. read_head (t ++ rest)) (sym same) ∙ reads rest
  | inr large ↦ absurd (none-ne-some hs (sym (cbor_head-none major n (ground arith)) ∙ e))
]

module _ (utf8 : Text → List ℕ) (read_utf8 : List ℕ → Option Text) where
  -- One item behind its head.
  behind_head :
      (fuel major n : ℕ) (hs body rest : List ℕ) (r : Value × List ℕ)
      → cbor_head major n ≡ some hs
      → read_item read_utf8 (cbor_decode read_utf8 fuel) major n (body ++ rest) ≡ some r
      → cbor_decode read_utf8 (suc fuel) ((hs ++ body) ++ rest) ≡ some r
  unfolding cbor_decode and_then
  behind_head fuel major n hs body rest r e item =
      ap (λ h. and_then h (λ r. read_item read_utf8 (cbor_decode read_utf8 fuel) r.0 r.1 r.2))
        (ap read_head (append_assoc hs body rest) ∙ head_read major n hs (body ++ rest) e)
      ∙ item

  slice_read :
      (body rest : List ℕ)
      → (leb (length body) (length (body ++ rest)) ≡ true)
        × (take (length body) (body ++ rest) ≡ body)
        × (drop (length body) (body ++ rest) ≡ rest)
  slice_read body rest =
      (ground (arith, length-append body rest), take-append body rest, drop-append body rest)

  -- That an item is read with a fuel.
  abbrev pub Reads : Value → ℕ → Type 0
  Reads v fuel =
      (bs rest : List ℕ)
      → cbor_encode utf8 v ≡ some bs
      → cbor_decode read_utf8 fuel (bs ++ rest) ≡ some (v, rest)

  depth_pos : (v : Value) → 0 < depth v
  unfolding depth
  depth_pos (int n) = omega arith
  depth_pos (bytes b) = omega arith
  depth_pos (text t) = omega arith
  depth_pos (array vs) = omega arith
  depth_pos (object es) = omega arith
  depth_pos other = omega arith

  pub with_fuel :
      (v : Value) (fuel : ℕ)
      → ((f : ℕ) → depth v ≤ suc f → Reads v (suc f))
      → depth v ≤ fuel
      → Reads v fuel
  with_fuel v zero h le = absurd (omega (arith, le, depth_pos v))
  with_fuel v (suc f) h le = h f le

  pub cons_read :
      (fuel n : ℕ) (v : Value) (vs : Values) (b c rest : List ℕ)
      → cbor_decode read_utf8 fuel (b ++ (c ++ rest)) ≡ some (v, c ++ rest)
      → read_values (cbor_decode read_utf8 fuel) n (c ++ rest) ≡ some (vs, rest)
      → read_values (cbor_decode read_utf8 fuel) (suc n) ((b ++ c) ++ rest) ≡ some (cons v vs, rest)
  unfolding read_values and_then
  cons_read fuel n v vs b c rest one others =
      let read = cbor_decode read_utf8 fuel in
      ap (read_values read (suc n)) (append_assoc b c rest)
      ∙ ap
          (λ o. and_then o (λ r. and_then (read_values read n r.1) (λ s. some (cons r.0 s.0, s.1))))
          one
      ∙ ap (λ o. and_then o (λ s. some (cons v s.0, s.1))) others

  pub entry_read :
      (fuel n : ℕ) (k v : Value) (es : Entries) (a b c rest : List ℕ)
      → cbor_decode read_utf8 fuel (a ++ (b ++ (c ++ rest))) ≡ some (k, b ++ (c ++ rest))
      → cbor_decode read_utf8 fuel (b ++ (c ++ rest)) ≡ some (v, c ++ rest)
      → read_entries (cbor_decode read_utf8 fuel) n (c ++ rest) ≡ some (es, rest)
      → read_entries (cbor_decode read_utf8 fuel) (suc n) ((a ++ (b ++ c)) ++ rest)
        ≡ some (entry k v es, rest)
  unfolding read_entries and_then
  entry_read fuel n k v es a b c rest key value others =
      let read = cbor_decode read_utf8 fuel in
      ap (read_entries read (suc n))
        (append_assoc a (b ++ c) rest ∙ ap (λ t. a ++ t) (append_assoc b c rest))
      ∙ ap
          (λ o. and_then o (λ k.
            and_then (read k.1)
              (λ v. and_then (read_entries read n v.1) (λ s. some (entry k.0 v.0 s.0, s.1)))))
          key
      ∙ ap
          (λ o.
            and_then o (λ v. and_then (read_entries read n v.1) (λ s. some (entry k v.0 s.0, s.1))))
          value
      ∙ ap (λ o. and_then o (λ s. some (entry k v s.0, s.1))) others

  pub bytes_read :
      (fuel : ℕ) (b hs rest : List ℕ)
      → cbor_head 2 (length b) ≡ some hs
      → cbor_decode read_utf8 (suc fuel) ((hs ++ b) ++ rest) ≡ some (bytes b, rest)
  unfolding read_item
  bytes_read fuel b hs rest e =
      let (fits, taken, left) = slice_read b rest in
      behind_head fuel 2 (length b) hs b rest (bytes b, rest) e (rw (fits, taken, left) refl)

  pub text_read :
      (fuel : ℕ) (t : Text) (hs rest : List ℕ)
      → ReadsBack utf8 read_utf8 t
      → cbor_head 3 (length (utf8 t)) ≡ some hs
      → cbor_decode read_utf8 (suc fuel) ((hs ++ utf8 t) ++ rest) ≡ some (text t, rest)
  unfolding read_item and_then
  text_read fuel t hs rest back e =
      let (fits, taken, left) = slice_read (utf8 t) rest in
      behind_head fuel 3 (length (utf8 t)) hs (utf8 t) rest (text t, rest) e
        (rw fits (
          ap (λ o. and_then o (λ u. some (text u, drop (length (utf8 t)) (utf8 t ++ rest))))
            (ap read_utf8 taken ∙ back)
          ∙ ap (λ r. some (text t, r)) left))

  pub array_read :
      (fuel n : ℕ) (vs : Values) (hs body rest : List ℕ)
      → cbor_head 4 n ≡ some hs
      → read_values (cbor_decode read_utf8 fuel) n (body ++ rest) ≡ some (vs, rest)
      → cbor_decode read_utf8 (suc fuel) ((hs ++ body) ++ rest) ≡ some (array vs, rest)
  unfolding read_item and_then
  array_read fuel n vs hs body rest e read =
      behind_head fuel 4 n hs body rest (array vs, rest) e
        (ap (λ o. and_then o (λ r. some (array r.0, r.1))) read)

  pub object_read :
      (fuel n : ℕ) (es : Entries) (hs body rest : List ℕ)
      → cbor_head 5 n ≡ some hs
      → read_entries (cbor_decode read_utf8 fuel) n (body ++ rest) ≡ some (es, rest)
      → cbor_decode read_utf8 (suc fuel) ((hs ++ body) ++ rest) ≡ some (object es, rest)
  unfolding read_item and_then
  object_read fuel n es hs body rest e read =
      behind_head fuel 5 n hs body rest (object es, rest) e
        (ap (λ o. and_then o (λ r. some (object r.0, r.1))) read)

  pub int_read :
      (fuel n : ℕ) (hs rest : List ℕ)
      → (cbor_head 0 n ≡ some hs
          → cbor_decode read_utf8 (suc fuel) (hs ++ rest) ≡ some (int (pos n), rest))
        × (cbor_head 1 n ≡ some hs
            → cbor_decode read_utf8 (suc fuel) (hs ++ rest) ≡ some (int (negsuc n), rest))
  unfolding read_item
  int_read fuel n hs rest = (
    λ e.
        ap (λ t. cbor_decode read_utf8 (suc fuel) (t ++ rest)) (sym (append-nil hs))
        ∙ behind_head fuel 0 n hs [] rest (int (pos n), rest) e refl,
    λ e.
        ap (λ t. cbor_decode read_utf8 (suc fuel) (t ++ rest)) (sym (append-nil hs))
        ∙ behind_head fuel 1 n hs [] rest (int (negsuc n), rest) e refl,
  )
