-- ===== src/Kdbx/Header/Variant.antt =====
-- parseVariantDict reads what variantDict wrote.
use maspassword.Base.{
  ℕ, zero, suc, ◌+◌, ◌^◌, ◌<◌, ◌≤◌, ◌≡◌, ◌≢◌, refl, ◌∙◌, false, List, [], ◌∷◌, ◌++◌, append_assoc,
  map, Text, length, length-append, take, drop, ◌==◌, arith,
}
use maspassword.Kdbx.{ok, u32le, u8, get_u32}
use maspassword.Kdbx.Bytes.{get_u32-u32le, drop-u32le, take-append, drop-append}
use maspassword.Kdbx.Header.{
  Value, Dict, write_entry, variant_dict, typed_value, take_entry, parse_entries,
  parse_variant_dict,
}

module _ (utf8 : Text → List ℕ) (utf8_text : List ℕ → Text) where
  -- An entry with the value that its bytes stand for.
  pub record Entry : Type 0 where
    pub key : Text
    pub kind : ℕ
    pub bytes : List ℕ
    pub value : Value
    pub nonzero : kind ≢ 0
    pub key_short : length (utf8 key) < 2 ^ 32
    pub short : length bytes < 2 ^ 32
    pub key_read : utf8_text (utf8 key) ≡ key
    pub value_read : typed_value utf8_text kind bytes ≡ ok value

  abbrev pub written : List Entry → List (Text × ℕ × List ℕ)
  written [] = []
  written (e ∷ entries) = (e.key, e.kind, e.bytes) ∷ written entries

  abbrev pub settings : List Entry → Dict → Dict
  settings [] dict = dict
  settings (e ∷ entries) dict = settings entries ((e.key, e.value) ∷ dict)

  entry_tail : Entry → List ℕ → List ℕ
  entry_tail e rest = u32le (length e.bytes) ++ (e.bytes ++ rest)

  take_entry_lem :
      (e : Entry) (rest : List ℕ)
      → take_entry utf8_text e.kind (
          u32le (length (utf8 e.key))
          ++ (utf8 e.key ++ (u32le (length e.bytes) ++ (e.bytes ++ rest))))
        ≡ ok (e.key, e.value, rest)
  unfolding take_entry
  take_entry_lem e rest =
      rw (get_u32-u32le (length (utf8 e.key)) (utf8 e.key ++ tail) e.key_short)
        (ground (arith, behind, size, taken, dropped, key, e.value_read, e.key_read))
    where
      tail : List ℕ
      tail = u32le (length e.bytes) ++ (e.bytes ++ rest)

      bytes : List ℕ
      bytes = u32le (length (utf8 e.key)) ++ (utf8 e.key ++ tail)

      behind : drop (4 + length (utf8 e.key)) bytes ≡ tail
      behind =
          drop-u32le (length (utf8 e.key)) (length (utf8 e.key)) (utf8 e.key ++ tail)
          ∙ drop-append (utf8 e.key) tail

      size : get_u32 tail ≡ ok (length e.bytes)
      size = get_u32-u32le (length e.bytes) (e.bytes ++ rest) e.short

      taken : take (length e.bytes) (drop 4 tail) ≡ e.bytes
      taken = unfold u32le in take-append e.bytes rest

      dropped : drop (4 + length e.bytes) tail ≡ rest
      dropped =
          drop-u32le (length e.bytes) (length e.bytes) (e.bytes ++ rest) ∙ drop-append e.bytes rest

      key : take (length (utf8 e.key)) (drop 4 bytes) ≡ utf8 e.key
      key = unfold u32le in take-append (utf8 e.key) tail

  parse_entries-written :
      (fuel : ℕ) (entries : List Entry) (dict : Dict)
      → length entries < fuel
      → parse_entries utf8_text fuel dict (u8 (map (write_entry utf8) (written entries)) ++ 0 ∷ [])
        ≡ ok (settings entries dict)
  unfolding parse_entries u8
  parse_entries-written zero entries dict lt = absurd (omega arith)
  parse_entries-written (suc fuel) [] dict lt = refl
  parse_entries-written (suc fuel) (e ∷ entries) dict lt =
      let rest = u8 (map (write_entry utf8) (written entries)) ++ 0 ∷ [] in
      let other : (e.kind == 0) ≡ false = ground arith in
      rw (other, regroup e (u8 (map (write_entry utf8) (written entries))), take_entry_lem e rest)
        (parse_entries-written fuel entries ((e.key, e.value) ∷ dict) (omega arith))
    where
      regroup :
          (e : Entry) (rest : List ℕ)
          → ((u32le (length (utf8 e.key)) ++ (utf8 e.key ++ (u32le (length e.bytes) ++ e.bytes)))
                ++ rest)
              ++ 0 ∷ []
            ≡ u32le (length (utf8 e.key))
              ++ (utf8 e.key ++ (u32le (length e.bytes) ++ (e.bytes ++ (rest ++ 0 ∷ []))))
      regroup e rest = simp append_assoc

  length-written :
      (entries : List Entry)
      → length entries ≤ length (u8 (map (write_entry utf8) (written entries)))
  unfolding u8
  length-written [] = omega arith
  length-written (e ∷ entries) = omega (
    arith,
    length-append
        (u32le (length (utf8 e.key)) ++ (utf8 e.key ++ (u32le (length e.bytes) ++ e.bytes)))
        (u8 (map (write_entry utf8) (written entries))),
    length-written entries,
  )

  pub parse_variant_dict-variant_dict :
      (entries : List Entry)
      → parse_variant_dict utf8_text (variant_dict utf8 (written entries))
        ≡ ok (settings entries [])
  unfolding parse_variant_dict variant_dict
  parse_variant_dict-variant_dict entries =
      parse_entries-written
        (suc (length (0 ∷ 1 ∷ (u8 (map (write_entry utf8) (written entries)) ++ 0 ∷ [])))) entries
        []
        (omega (
          arith,
          length-append (u8 (map (write_entry utf8) (written entries))) (0 ∷ []),
          length-written entries,
        ))
