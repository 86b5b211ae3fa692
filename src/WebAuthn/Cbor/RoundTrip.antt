-- ===== src/WebAuthn/Cbor/RoundTrip.antt =====
-- Values are read back from what cborEncode of extension/webauthn.js writes.
use maspassword.Base.{ℕ, suc, ◌≤◌, ◌≡◌, sym, ap, ◌∙◌, Option, some, List, ◌++◌, Text, length, arith}
use mathlib.Core.Option.{some-injective}
use maspassword.WebAuthn.{
  pos, negsuc, Value, int, bytes, text, array, object, other, Values, nil, cons, Entries, end,
  entry, count_values, count_entries, cbor_head, ◌<+>◌, cbor_encode, encode_values, encode_entries,
}
use maspassword.WebAuthn.Cbor.{
  TextsRead, ValuesRead, EntriesRead, read_values, read_entries, cbor_decode, depth, depth_values,
  depth_entries,
}
use maspassword.WebAuthn.Cbor.Items.{
  parts, with_fuel, cons_read, entry_read, bytes_read, text_read, array_read, object_read, int_read,
  Reads,
}

module _ (utf8 : Text → List ℕ) (read_utf8 : List ℕ → Option Text) where
  mutual
    unfolding TextsRead ValuesRead EntriesRead depth depth_values depth_entries cbor_encode
        encode_values encode_entries read_values read_entries

    decode_value :
        (v : Value) (fuel : ℕ)
        → TextsRead utf8 read_utf8 v
        → depth v ≤ suc fuel
        → Reads utf8 read_utf8 v (suc fuel)
    decode_value (int (pos n)) fuel back le bs rest e = (int_read utf8 read_utf8 fuel n bs rest).0 e
    decode_value (int (negsuc n)) fuel back le bs rest e =
        (int_read utf8 read_utf8 fuel n bs rest).1 e
    decode_value (bytes b) fuel back le bs rest e =
        let (hs, body, head, same, whole) = parts (cbor_head 2 (length b)) (some b) bs e in
        ap (λ t. cbor_decode read_utf8 (suc fuel) (t ++ rest))
          (whole ∙ ap (λ t. hs ++ t) (sym (some-injective _ _ same)))
        ∙ bytes_read utf8 read_utf8 fuel b hs rest head
    decode_value (text t) fuel back le bs rest e =
        let (hs, body, head, same, whole) =
          parts (cbor_head 3 (length (utf8 t))) (some (utf8 t)) bs e in
        ap (λ t. cbor_decode read_utf8 (suc fuel) (t ++ rest))
          (whole ∙ ap (λ t. hs ++ t) (sym (some-injective _ _ same)))
        ∙ text_read utf8 read_utf8 fuel t hs rest back head
    decode_value (array vs) fuel back le bs rest e =
        let (hs, body, head, items, whole) =
          parts (cbor_head 4 (count_values vs)) (encode_values utf8 vs) bs e in
        ap (λ t. cbor_decode read_utf8 (suc fuel) (t ++ rest)) whole
        ∙ array_read utf8 read_utf8 fuel (count_values vs) vs hs body rest head
            (decode_values vs fuel body rest back (omega (arith, le)) items)
    decode_value (object es) fuel back le bs rest e =
        let (hs, body, head, items, whole) =
          parts (cbor_head 5 (count_entries es)) (encode_entries utf8 es) bs e in
        ap (λ t. cbor_decode read_utf8 (suc fuel) (t ++ rest)) whole
        ∙ object_read utf8 read_utf8 fuel (count_entries es) es hs body rest head
            (decode_entries es fuel body rest back (omega (arith, le)) items)
    decode_value other fuel back le bs rest e = cc

    decode_values :
        (vs : Values) (fuel : ℕ) (bs rest : List ℕ)
        → ValuesRead utf8 read_utf8 vs
        → depth_values vs ≤ fuel
        → encode_values utf8 vs ≡ some bs
        → read_values (cbor_decode read_utf8 fuel) (count_values vs) (bs ++ rest) ≡ some (vs, rest)
    decode_values nil fuel bs rest back le e =
        ap (λ t. some (nil, t ++ rest)) (sym (some-injective _ _ e))
    decode_values (cons v vs) fuel bs rest back le e =
        let (b, c, one, others, whole) = parts (cbor_encode utf8 v) (encode_values utf8 vs) bs e in
        ap (λ t. read_values (cbor_decode read_utf8 fuel) (suc (count_values vs)) (t ++ rest)) whole
        ∙ cons_read utf8 read_utf8 fuel (count_values vs) v vs b c rest
            (with_fuel utf8 read_utf8 v fuel (λ f. decode_value v f back.0) (omega (arith, le)) b
              (c ++ rest) one)
            (decode_values vs fuel c rest back.1 (omega (arith, le)) others)

    decode_entries :
        (es : Entries) (fuel : ℕ) (bs rest : List ℕ)
        → EntriesRead utf8 read_utf8 es
        → depth_entries es ≤ fuel
        → encode_entries utf8 es ≡ some bs
        → read_entries (cbor_decode read_utf8 fuel) (count_entries es) (bs ++ rest)
          ≡ some (es, rest)
    decode_entries end fuel bs rest back le e =
        ap (λ t. some (end, t ++ rest)) (sym (some-injective _ _ e))
    decode_entries (entry k v es) fuel bs rest back le e =
        let (a, d, key, behind, whole) =
          parts (cbor_encode utf8 k) (cbor_encode utf8 v <+> encode_entries utf8 es) bs e in
        let (b, c, value, others, joined) =
          parts (cbor_encode utf8 v) (encode_entries utf8 es) d behind in
        ap (λ t. read_entries (cbor_decode read_utf8 fuel) (suc (count_entries es)) (t ++ rest))
          (whole ∙ ap (λ t. a ++ t) joined)
        ∙ entry_read utf8 read_utf8 fuel (count_entries es) k v es a b c rest
            (with_fuel utf8 read_utf8 k fuel (λ f. decode_value k f back.0) (omega (arith, le)) a
              (b ++ (c ++ rest)) key)
            (with_fuel utf8 read_utf8 v fuel (λ f. decode_value v f back.1) (omega (arith, le)) b
              (c ++ rest) value)
            (decode_entries es fuel c rest back.2 (omega (arith, le)) others)

  -- what cborEncode writes, a reader of CBOR reads as the value that was written, and nothing of what stands behind it.
  pub cbor_decode-cbor_encode :
      (v : Value) (fuel : ℕ) (bs rest : List ℕ)
      → TextsRead utf8 read_utf8 v
      → depth v ≤ fuel
      → cbor_encode utf8 v ≡ some bs
      → cbor_decode read_utf8 fuel (bs ++ rest) ≡ some (v, rest)
  cbor_decode-cbor_encode v fuel bs rest back le e =
      with_fuel utf8 read_utf8 v fuel (λ f. decode_value v f back) le bs rest e
