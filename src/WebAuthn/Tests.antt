-- ===== src/WebAuthn/Tests.antt =====
-- A passkey registration, a signature and RP IDs.
use maspassword.Base.{
  ℕ, zero, suc, ◌+◌, ◌-◌, ◌*◌, ◌/◌, ◌%◌, ◌^◌, ◌<◌, ap, ◌∙◌, Bool, ◌&&◌, leb, ltb, lt→ltb,
  if◌then◌else◌, All, ◌≡◌, ◌≢◌, ◌⊎◌, refl, true, Option, none, some, List, [], ◌∷◌, ◌++◌, Text,
  codes, length, trim, split, join, replicate, take, drop, arith,
}
use maspassword.Domain.{
  registrable_domain, normal_host, is_ip_address, registrable_of, from_labels, multi_part_suffixes,
  strip_www,
}
use maspassword.WebAuthn.{
  pos, negsuc, Value, int, text, array, object, nil, cons, end, entry, cbor_encode, encode_values,
  encode_entries, cbor_head, cose_ec2_key, cose_map, attestation_map, build_auth_data,
  build_attested_credential_data, build_attestation_object, aaguid, raw_sig_to_der, rp_id_valid_for,
  normal_name,
}
use maspassword.WebAuthn.Cbor.{TextsRead, ValuesRead, EntriesRead, cbor_decode, depth}
use maspassword.WebAuthn.Cbor.Total.{Fits, FitValues, FitEntries, cbor_encode_reads}
use maspassword.WebAuthn.Authenticator.{Ascii, AsciiRead, read_auth_data, registration_reads}
use maspassword.WebAuthn.Der.{big_endian, IsMinimal, read_signature, raw_sig_to_der_lem}
use maspassword.WebAuthn.RpId.{Allowed, rp_id_valid_for_sound}

abbrev is_high : ℕ → Bool
is_high c = leb 0xd800 c && ltb c 0xdc00

abbrev is_low : ℕ → Bool
is_low c = leb 0xdc00 c && ltb c 0xe000

abbrev replacement : List ℕ
replacement = 0xef ∷ 0xbf ∷ 0xbd ∷ []

abbrev three : ℕ → List ℕ
three c = (0xe0 + c / 2 ^ 12) ∷ (0x80 + (c / 2 ^ 6) % 64) ∷ (0x80 + c % 64) ∷ []

abbrev four : ℕ → ℕ → List ℕ
four high low =
    let p = 0x10000 + (high - 0xd800) * 2 ^ 10 + (low - 0xdc00) in
    (0xf0 + p / 2 ^ 18)
    ∷ (0x80 + (p / 2 ^ 12) % 64)
    ∷ (0x80 + (p / 2 ^ 6) % 64)
    ∷ (0x80 + p % 64)
    ∷ []

-- UTF-8 of a code unit, given the bytes behind it and those behind it when it is a high surrogate.
abbrev unit : ℕ → List ℕ → List ℕ → List ℕ
unit c rest joined =
    if ltb c 0x80
    then c ∷ rest
    else if ltb c 0x800
    then (0xc0 + c / 64) ∷ (0x80 + c % 64) ∷ rest
    else if is_high c
    then joined
    else if is_low c
    then replacement ++ rest
    else three c ++ rest

-- The high surrogate that was read last, if any.
abbrev encode_units : Option ℕ → Text → List ℕ
encode_units none [] = []
encode_units (some high) [] = replacement
encode_units none (c ∷ t) = unit c (encode_units none t) (encode_units (some c) t)
encode_units (some high) (c ∷ t) =
    let rest = encode_units none t in
    let joined = encode_units (some c) t in
    if is_low c then four high c ++ rest else replacement ++ unit c rest joined

abbrev utf8 : Text → List ℕ
utf8 t = encode_units none t

abbrev units : ℕ → Text
units p =
    if ltb p 0x10000
    then p ∷ []
    else (0xd800 + (p - 0x10000) / 2 ^ 10) ∷ (0xdc00 + (p - 0x10000) % 2 ^ 10) ∷ []

abbrev behind : Text → Option Text → Option Text
behind t none = none
behind t (some s) = some (t ++ s)

-- A reader of UTF-8: how many bytes the code point still has, and its value so far.
abbrev decode_bytes : ℕ → ℕ → List ℕ → Option Text
decode_bytes zero p [] = some []
decode_bytes (suc n) p [] = none
decode_bytes zero p (b ∷ bs) =
    let next = decode_bytes zero 0 bs in
    let two_more = decode_bytes 1 (b - 0xc0) bs in
    let three_more = decode_bytes 2 (b - 0xe0) bs in
    let four_more = decode_bytes 3 (b - 0xf0) bs in
    if ltb b 0x80
    then behind (b ∷ []) next
    else if ltb b 0xe0
    then two_more
    else if ltb b 0xf0
    then three_more
    else four_more
decode_bytes (suc zero) p (b ∷ bs) = behind (units (p * 64 + (b - 0x80))) (decode_bytes zero 0 bs)
decode_bytes (suc (suc n)) p (b ∷ bs) = decode_bytes (suc n) (p * 64 + (b - 0x80)) bs

abbrev read_utf8 : List ℕ → Option Text
read_utf8 b = decode_bytes zero 0 b

ascii_same : Ascii utf8
ascii_same [] h = refl
ascii_same (c ∷ t) h = rw (lt→ltb c 128 h.0) (ap (λ s. c ∷ s) (ascii_same t h.1))

ascii_back : (t : Text) → All (λ c. c < 128) t → read_utf8 t ≡ some t
ascii_back [] h = refl
ascii_back (c ∷ t) h = rw (lt→ltb c 128 h.0) (ap (behind (c ∷ [])) (ascii_back t h.1))

ascii_read : AsciiRead utf8 read_utf8
ascii_read t h = ap read_utf8 (ascii_same t h) ∙ ascii_back t h

-- A text with a code unit of two bytes, one of three, and a pair of surrogates.
abbrev mixed : Text
mixed = 0x6e ∷ 0xe9 ∷ 0x20ac ∷ 0xd83d ∷ 0xde00 ∷ []

mixed_bytes : utf8 mixed ≡ 0x6e ∷ 0xc3 ∷ 0xa9 ∷ 0xe2 ∷ 0x82 ∷ 0xac ∷ 0xf0 ∷ 0x9f ∷ 0x98 ∷ 0x80 ∷ []
mixed_bytes = refl

-- A map from that text to [500, -7].
abbrev sample : Value
sample = object (entry (text mixed) (array (cons (int (pos 500)) (cons (int (negsuc 6)) nil))) end)

sample_bytes :
    cbor_encode utf8 sample
    ≡ some (0xa1 ∷ 0x6a ∷ (utf8 mixed ++ 0x82 ∷ 0x19 ∷ 0x01 ∷ 0xf4 ∷ 0x26 ∷ []))
unfolding cbor_encode encode_values encode_entries cbor_head
sample_bytes = refl

sample-Fits : Fits utf8 sample
unfolding Fits FitValues FitEntries
sample-Fits = (omega arith, (omega arith, (omega arith, (omega arith, (omega arith, tt))), tt))

sample-TextsRead : TextsRead utf8 read_utf8 sample
unfolding TextsRead ValuesRead EntriesRead
sample-TextsRead = (refl, (tt, (tt, tt)), tt)

cbor_encode_reads_example :
    (bs : List ℕ) × (cbor_encode utf8 sample ≡ some bs)
    × ((rest : List ℕ) → cbor_decode read_utf8 (depth sample) (bs ++ rest) ≡ some (sample, rest))
cbor_encode_reads_example = cbor_encode_reads utf8 read_utf8 sample sample-TextsRead sample-Fits

registration_reads_example :
    (cose : List ℕ) × (auth_data : List ℕ) × (object : List ℕ) × (cose_ec2_key utf8
        (replicate 32 7)
        (replicate 32 9)
      ≡ some cose)
    × (auth_data
        ≡ build_auth_data
            (replicate 32 1)
            0x5d
            (some (build_attested_credential_data (4 ∷ 5 ∷ []) cose)))
    × (build_attestation_object utf8 auth_data ≡ some object)
    × (cbor_decode read_utf8 2 object ≡ some (attestation_map auth_data, []))
    × (read_auth_data read_utf8 auth_data
        ≡ some (record {
          rp_id_hash = replicate 32 1;
          flags = 0x5d;
          sign_count = replicate 4 0;
          provider = aaguid;
          credential_id = 4 ∷ 5 ∷ [];
          public_key = cose_map (replicate 32 7) (replicate 32 9);
        }))
registration_reads_example =
    registration_reads utf8 read_utf8 ascii_read ascii_same (replicate 32 1) (4 ∷ 5 ∷ [])
      (replicate 32 7) (replicate 32 9) 0x5d refl (omega arith) refl refl

abbrev raw : List ℕ
raw = (0x80 ∷ replicate 31 1) ++ replicate 32 0

raw_sig_to_der_lem_example :
    ((length raw ≢ 64) × (raw_sig_to_der raw ≡ none))
    ⊎ ((der : List ℕ) × (r : List ℕ) × (s : List ℕ) × (raw_sig_to_der raw ≡ some der)
        × (read_signature der ≡ some (r, s))
        × (big_endian r ≡ big_endian (take 32 raw))
        × (big_endian s ≡ big_endian (drop 32 raw))
        × IsMinimal r
        × IsMinimal s)
raw_sig_to_der_lem_example = raw_sig_to_der_lem raw (ground arith)

abbrev same_case : Text → Text
same_case t = t

rp_id_valid_for_sound_example :
    Allowed same_case
      (normal_name same_case (codes "login.example.com"))
      (normal_name same_case (codes "example.com"))
unfolding rp_id_valid_for normal_name registrable_domain registrable_of normal_host is_ip_address
    from_labels multi_part_suffixes strip_www trim split join
rp_id_valid_for_sound_example =
    rp_id_valid_for_sound same_case (codes "login.example.com") (codes "example.com") refl

-- A host that is a top-level domain behind `www.` may ask for the top-level domain.
www_only : rp_id_valid_for same_case (codes "www.com") (codes "com") ≡ true
unfolding rp_id_valid_for normal_name registrable_domain registrable_of normal_host is_ip_address
    from_labels multi_part_suffixes strip_www trim split join
www_only = refl
