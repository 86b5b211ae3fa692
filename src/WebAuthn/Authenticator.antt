-- ===== src/WebAuthn/Authenticator.antt =====
-- The authenticatorData and the attestation object of extension/webauthn.js, as a relying party reads
-- them.
use maspassword.Base.{
  ℕ, ◌+◌, ◌*◌, ◌/◌, ◌%◌, ◌^◌, ◌<◌, ◌≤◌, ◌≡◌, refl, sym, ap, ◌∙◌, Option, none, some, List, [], ◌∷◌,
  ◌++◌, append-nil, Text, codes, length, length-append, take, drop, replicate, All, arith,
}
use mathlib.Core.Option.{some-injective}
use Prim.Native.Nat.{bit_and}
use maspassword.Base.Bits.{bit_and_mask}
use maspassword.Kdbx.Bytes.{take_all, drop_past}
use maspassword.WebAuthn.{
  Value, aaguid, build_auth_data, build_attested_credential_data, build_attestation_object,
  cose_ec2_key, cose_map, attestation_map, cbor_encode, encode_values, encode_entries, cbor_head,
}
use maspassword.WebAuthn.Cbor.{ReadsBack, TextsRead, EntriesRead, cbor_decode, and_then, depth}
use maspassword.WebAuthn.Cbor.Total.{Fits, FitEntries, cbor_encode_reads}

-- What a relying party finds in the data of a registration.
pub record Registration : Type 0 where
  pub rp_id_hash : List ℕ
  pub flags : ℕ
  pub sign_count : List ℕ
  pub provider : List ℕ
  pub credential_id : List ℕ
  pub public_key : Value

module _ (read_utf8 : List ℕ → Option Text) where
  abbrev read_key : List ℕ → ℕ → List ℕ → List ℕ → List ℕ → List ℕ → Option Registration
  read_key hash flags counter provider id rest = and_then (cbor_decode read_utf8 2 rest) (λ r.
      some (record {
        rp_id_hash = hash;
        flags = flags;
        sign_count = counter;
        provider = provider;
        credential_id = id;
        public_key = r.0;
      }))

  abbrev read_attested : List ℕ → ℕ → List ℕ → List ℕ → List ℕ → Option Registration
  read_attested hash flags counter provider (high ∷ low ∷ rest) =
      let n = high * 256 + low in read_key hash flags counter provider (take n rest) (drop n rest)
  read_attested hash flags counter provider _ = none

  abbrev read_flags : List ℕ → List ℕ → Option Registration
  read_flags hash (flags ∷ rest) =
      read_attested hash flags (take 4 rest) (take 16 (drop 4 rest)) (drop 16 (drop 4 rest))
  read_flags hash [] = none

  unfoldable pub read_auth_data : List ℕ → Option Registration
  read_auth_data b = read_flags (take 32 b) (drop 32 b)

-- The bytes of a COSE key.
abbrev cose_bytes : List ℕ → List ℕ → List ℕ
cose_bytes x y =
    0xa5
    ∷ 0x01
    ∷ 0x02
    ∷ 0x03
    ∷ 0x26
    ∷ 0x20
    ∷ 0x01
    ∷ 0x21
    ∷ 0x58
    ∷ 0x20
    ∷ (x ++ (0x22 ∷ 0x58 ∷ 0x20 ∷ (y ++ [])))

module _ (utf8 : Text → List ℕ) where
  cose_ec2_key_bytes :
      (x y : List ℕ) → length x ≡ 32 → length y ≡ 32 → cose_ec2_key utf8 x y ≡ some (cose_bytes x y)
  unfolding cose_ec2_key cbor_encode encode_values encode_entries cbor_head
  cose_ec2_key_bytes x y ex ey = rw (ex, ey) refl

  -- TextEncoder writes a text of ASCII as its code units.
  abbrev pub Ascii : Type 0
  Ascii = (t : Text) → All (λ c. c < 128) t → utf8 t ≡ t

  cose_ec2_key-cbor_encode :
      (x y : List ℕ)
      → length x ≡ 32
      → length y ≡ 32
      → cose_ec2_key utf8 x y ≡ cbor_encode utf8 (cose_map x y)
  unfolding cose_ec2_key
  cose_ec2_key-cbor_encode x y ex ey = rw (ex, ey) refl

  -- The key is read, whatever stands behind it.
  cose_read :
      (read_utf8 : List ℕ → Option Text)
      → (x y rest : List ℕ) → length x ≡ 32
      → length y ≡ 32
      → cbor_decode read_utf8 2 (cose_bytes x y ++ rest) ≡ some (cose_map x y, rest)
  unfolding TextsRead EntriesRead Fits FitEntries depth
  cose_read read_utf8 x y rest ex ey =
      let small : (n : ℕ) → n ≡ 32 → n ≤ 0xffffffff = λ n e. omega (arith, e) in
      let cose_texts : TextsRead utf8 read_utf8 (cose_map x y) =
        (tt, tt, (tt, tt, (tt, tt, (tt, tt, (tt, tt, tt))))) in
      let (bs, e, reads) = cbor_encode_reads utf8 read_utf8 (cose_map x y) cose_texts (
        omega arith,
        (
          omega arith,
          omega arith,
          (
            omega arith,
            omega arith,
            (
              omega arith,
              omega arith,
              (omega arith, small (length x) ex, (omega arith, small (length y) ey, tt)),
            ),
          ),
        ),
      ) in
      let same : bs ≡ cose_bytes x y =
        some-injective _ _
          (sym e ∙ sym (cose_ec2_key-cbor_encode x y ex ey) ∙ cose_ec2_key_bytes x y ex ey) in
      ap (λ t. cbor_decode read_utf8 2 (t ++ rest)) (sym same) ∙ reads rest

attested_read :
    (read_utf8 : List ℕ → Option Text) (hash id cose : List ℕ) (flags : ℕ) (key : Value)
    → length hash ≡ 32
    → length id < 2 ^ 16
    → cbor_decode read_utf8 2 cose ≡ some (key, [])
    → read_auth_data read_utf8
        (build_auth_data hash flags (some (build_attested_credential_data id cose)))
      ≡ some (record {
        rp_id_hash = hash;
        flags = flags % 2 ^ 8;
        sign_count = replicate 4 0;
        provider = aaguid;
        credential_id = id;
        public_key = key;
      })
unfolding read_auth_data build_auth_data build_attested_credential_data and_then
attested_read read_utf8 hash id cose flags key eh small read =
    let high = bit_and (length id / 2 ^ 8) 0xff in
    let low = bit_and (length id) 0xff in
    let behind = flags % 2 ^ 8 ∷ (replicate 4 0 ++ (aaguid ++ (high ∷ low ∷ (id ++ cose)))) in
    let size : high * 256 + low ≡ length id =
      omega (arith, bit_and_mask 8 (length id / 2 ^ 8), bit_and_mask 8 (length id)) in
    (λ i.
      read_flags read_utf8 (take_all 32 hash behind (sym eh) i)
        (drop_past 32 0 hash behind (omega (arith, eh)) i))
    ∙ (λ i.
        read_key read_utf8 hash (flags % 2 ^ 8) (replicate 4 0) aaguid
          (take_all (high * 256 + low) id cose size i)
          (drop_past (high * 256 + low) 0 id cose (omega (arith, size)) i))
    ∙ ap
        (λ o. and_then o (λ r. some (record {
          rp_id_hash = hash;
          flags = flags % 2 ^ 8;
          sign_count = replicate 4 0;
          provider = aaguid;
          credential_id = id;
          public_key = r.0;
        })))
        read

length-auth_data :
    (hash id cose : List ℕ) (flags : ℕ)
    → length (build_auth_data hash flags (some (build_attested_credential_data id cose)))
      ≡ length hash + 23 + length id + length cose
unfolding build_auth_data build_attested_credential_data
length-auth_data hash id cose flags =
    let high = bit_and (length id / 2 ^ 8) 0xff in
    let low = bit_and (length id) 0xff in
    omega (
      arith,
      length-append hash
          (flags % 2 ^ 8 ∷ (replicate 4 0 ++ (aaguid ++ (high ∷ low ∷ (id ++ cose))))),
      length-append id cose,
    )

module _ (utf8 : Text → List ℕ) (read_utf8 : List ℕ → Option Text) where
  -- Texts of ASCII are read back.
  abbrev pub AsciiRead : Type 0
  AsciiRead = (t : Text) → All (λ c. c < 128) t → ReadsBack utf8 read_utf8 t

  -- for hashes and coordinates of 32 bytes and a credential id of less than 2^16 bytes the registration returns. A relying party that reads the attestation object gets the authenticatorData in it, and in that the hash of the RP ID, the lowest eight bits of the flags, a counter of 0, the provider, the credential id and the map of the public key with both coordinates, if TextEncoder writes ASCII as it is and its texts of ASCII are read back.
  pub registration_reads :
      AsciiRead
      → Ascii utf8
      → (hash id x y : List ℕ) (flags : ℕ) → length hash ≡ 32
      → length id < 2 ^ 16
      → length x ≡ 32
      → length y ≡ 32
      → (cose : List ℕ) × (auth_data : List ℕ) × (object : List ℕ) × (cose_ec2_key utf8 x y
          ≡ some cose)
        × (auth_data ≡ build_auth_data hash flags (some (build_attested_credential_data id cose)))
        × (build_attestation_object utf8 auth_data ≡ some object)
        × (cbor_decode read_utf8 2 object ≡ some (attestation_map auth_data, []))
        × (read_auth_data read_utf8 auth_data
            ≡ some (record {
              rp_id_hash = hash;
              flags = flags % 2 ^ 8;
              sign_count = replicate 4 0;
              provider = aaguid;
              credential_id = id;
              public_key = cose_map x y;
            }))
  unfolding build_attestation_object TextsRead EntriesRead Fits FitEntries depth
  registration_reads back ascii hash id x y flags eh small ex ey =
      let cose = cose_bytes x y in
      let auth = build_auth_data hash flags (some (build_attested_credential_data id cose)) in
      let word : (t : Text) → All (λ c. c < 128) t → length t ≤ 8 → length (utf8 t) ≤ 0xffffffff =
        λ t h le. omega (arith, ap (λ u. length u) (ascii t h), le) in
      let fits : length auth ≤ 0xffffffff = omega (
        arith,
        length-auth_data hash id cose flags,
        eh,
        small,
        ex,
        ey,
        length-append x (0x22 ∷ 0x58 ∷ 0x20 ∷ (y ++ [])),
        length-append y [],
      ) in
      let texts : TextsRead utf8 read_utf8 (attestation_map auth) = (
        back (codes "fmt") (ground arith),
        back (codes "none") (ground arith),
        (
          back (codes "attStmt") (ground arith),
          tt,
          (back (codes "authData") (ground arith), tt, tt),
        ),
      ) in
      let (object, wrote, reads) = cbor_encode_reads utf8 read_utf8 (attestation_map auth) texts (
        omega arith,
        (
          word (codes "fmt") (ground arith) (omega arith),
          word (codes "none") (ground arith) (omega arith),
          (
            word (codes "attStmt") (ground arith) (omega arith),
            (omega arith, tt),
            (word (codes "authData") (ground arith) (omega arith), fits, tt),
          ),
        ),
      ) in
      let key_read =
        ap (cbor_decode read_utf8 2) (sym (append-nil cose))
        ∙ cose_read utf8 read_utf8 x y [] ex ey in
      (
        cose,
        auth,
        object,
        cose_ec2_key_bytes utf8 x y ex ey,
        refl,
        wrote,
        ap (cbor_decode read_utf8 2) (sym (append-nil object)) ∙ reads [],
        attested_read read_utf8 hash id cose flags (cose_map x y) eh small key_read,
      )
