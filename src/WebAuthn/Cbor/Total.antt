-- ===== src/WebAuthn/Cbor/Total.antt =====
-- cborEncode of extension/webauthn.js returns on every value whose parts have lengths of 32 bits.
use maspassword.Base.{ℕ, ◌≤◌, ◌≡◌, refl, Option, some, List, [], ◌++◌, Text, length, arith}
use maspassword.WebAuthn.{
  pos, negsuc, Value, int, bytes, text, array, object, other, Values, nil, cons, Entries, end,
  entry, count_values, count_entries, cbor_head, ◌<+>◌, cbor_encode, encode_values, encode_entries,
}
use maspassword.WebAuthn.Cbor.{TextsRead, cbor_decode, depth}
use maspassword.WebAuthn.Cbor.Head.{read_head-cbor_head}
use maspassword.WebAuthn.Cbor.RoundTrip.{cbor_decode-cbor_encode}

abbrev Small : ℕ → Type 0
Small n = n ≤ 0xffffffff

abbrev Returns : Option (List ℕ) → Type 0
Returns o = (bs : List ℕ) × (o ≡ some bs)

join-Returns : (a b : Option (List ℕ)) → Returns a → Returns b → Returns (a <+> b)
join-Returns a b (x, ea) (y, eb) = (x ++ y, λ i. ea i <+> eb i)

head-Returns : (major n : ℕ) → Small n → Returns (cbor_head major n)
head-Returns major n le = let (hs, e, reads) = read_head-cbor_head major n le in (hs, e)

module _ (utf8 : Text → List ℕ) where
  unfoldable mutual
    -- Integers, lengths and sizes have 32 bits, and every value is of a type that is supported.
    pub Fits : Value → Type 0
    Fits (int (pos n)) = Small n
    Fits (int (negsuc n)) = Small n
    Fits (bytes b) = Small (length b)
    Fits (text t) = Small (length (utf8 t))
    Fits (array vs) = Small (count_values vs) × FitValues vs
    Fits (object es) = Small (count_entries es) × FitEntries es
    Fits other = 1 ≤ 0

    pub FitValues : Values → Type 0
    FitValues nil = Unit
    FitValues (cons v vs) = Fits v × FitValues vs

    pub FitEntries : Entries → Type 0
    FitEntries end = Unit
    FitEntries (entry k v es) = Fits k × Fits v × FitEntries es

  mutual
    unfolding Fits FitValues FitEntries cbor_encode encode_values encode_entries

    encode-Returns : (v : Value) → Fits v → Returns (cbor_encode utf8 v)
    encode-Returns (int (pos n)) h = head-Returns 0 n h
    encode-Returns (int (negsuc n)) h = head-Returns 1 n h
    encode-Returns (bytes b) h = join-Returns _ _ (head-Returns 2 (length b) h) (b, refl)
    encode-Returns (text t) h = join-Returns _ _ (head-Returns 3 (length (utf8 t)) h) (utf8 t, refl)
    encode-Returns (array vs) h =
        join-Returns _ _ (head-Returns 4 (count_values vs) h.0) (values_return vs h.1)
    encode-Returns (object es) h =
        join-Returns _ _ (head-Returns 5 (count_entries es) h.0) (entries_return es h.1)
    encode-Returns other h = absurd (omega (arith, h))

    values_return : (vs : Values) → FitValues vs → Returns (encode_values utf8 vs)
    values_return nil h = ([], refl)
    values_return (cons v vs) h = join-Returns _ _ (encode-Returns v h.0) (values_return vs h.1)

    entries_return : (es : Entries) → FitEntries es → Returns (encode_entries utf8 es)
    entries_return end h = ([], refl)
    entries_return (entry k v es) h =
        join-Returns _ _ (encode-Returns k h.0)
          (join-Returns _ _ (encode-Returns v h.1) (entries_return es h.2))

  -- cborEncode returns bytes on a value whose integers, lengths and sizes have at most 32 bits and that holds no unsupported type. A reader of CBOR gets the value back from them, and leaves what stands behind them, if it reads back the texts of the value from the UTF-8 of TextEncoder, so none of them has a surrogate that stands alone.
  pub cbor_encode_reads :
      (read_utf8 : List ℕ → Option Text)
      → (v : Value) → TextsRead utf8 read_utf8 v
      → Fits v
      → (bs : List ℕ) × (cbor_encode utf8 v ≡ some bs)
        × ((rest : List ℕ) → cbor_decode read_utf8 (depth v) (bs ++ rest) ≡ some (v, rest))
  cbor_encode_reads read_utf8 v back h =
      let (bs, e) = encode-Returns v h in
      (
        bs,
        e,
        λ rest. cbor_decode-cbor_encode utf8 read_utf8 v (depth v) bs rest back (omega arith) e,
      )
