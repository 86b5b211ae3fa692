-- ===== src/WebAuthn.antt =====
-- extension/webauthn.js: the CBOR encoder, COSE keys, authenticatorData, DER signatures, and the test
-- of an RP ID. TextEncoder and `toLowerCase` are parameters, and `none` is an exception.
pub mod Cbor
pub mod Authenticator
pub mod Der
pub mod RpId
mod Tests
use maspassword.Base.{
  ℕ, zero, suc, ◌+◌, ◌-◌, ◌*◌, ◌/◌, ◌%◌, ◌^◌, Bool, true, false, ◌&&◌, ◌||◌, not, Option, none,
  some, List, [], ◌∷◌, ◌++◌, Text, codes, length, take, drop, replicate, ltb, leb, ◌==◌,
  if◌then◌else◌, same_text,
}
use Prim.Native.Nat.{bit_or, bit_and}
use maspassword.Domain.{strip_trailing_dot, registrable_domain, dot}

-- Integers: `negsuc n` is -n - 1.
pub data ℤ : Type 0 where
  pos : ℕ → ℤ
  negsuc : ℕ → ℤ

-- The values of JavaScript that cborEncode tells apart; `other` is a number that is no integer, or a
-- value of another type.
mutual
  pub data Value : Type 0 where
    int : ℤ → Value
    bytes : List ℕ → Value
    text : Text → Value
    array : Values → Value
    object : Entries → Value
    other : Value

  pub data Values : Type 0 where
    nil : Values
    cons : Value → Values → Values

  -- The entries of a Map, in the order of insertion.
  pub data Entries : Type 0 where
    end : Entries
    entry : Value → Value → Entries → Entries

abbrev pub count_values : Values → ℕ
count_values nil = 0
count_values (cons v vs) = suc (count_values vs)

abbrev pub count_entries : Entries → ℕ
count_entries end = 0
count_entries (entry k v es) = suc (count_entries es)

unfoldable pub cbor_head : ℕ → ℕ → Option (List ℕ)
cbor_head major value =
    if ltb value 24
    then some (bit_or (major * 2 ^ 5) value ∷ [])
    else if leb value 0xff
    then some (bit_or (major * 2 ^ 5) 24 ∷ value ∷ [])
    else if leb value 0xffff
    then some (bit_or (major * 2 ^ 5) 25 ∷ value / 2 ^ 8 ∷ bit_and value 0xff ∷ [])
    else if leb value 0xffffffff
    then some (
        bit_or (major * 2 ^ 5) 26
        ∷ bit_and (value / 2 ^ 24) 0xff
        ∷ bit_and (value / 2 ^ 16) 0xff
        ∷ bit_and (value / 2 ^ 8) 0xff
        ∷ bit_and value 0xff
        ∷ [])
    else none

-- `concatBytes` of two parts, either of which may have thrown.
infixr 20 ◌<+>◌
abbrev pub ◌<+>◌ : Option (List ℕ) → Option (List ℕ) → Option (List ℕ)
none <+> b = none
some a <+> none = none
some a <+> some b = some (a ++ b)

abbrev pub cose_map : List ℕ → List ℕ → Value
cose_map x y = object (
    entry (int (pos 1)) (int (pos 2)) (
      entry (int (pos 3)) (int (negsuc 6)) (
        entry (int (negsuc 0)) (int (pos 1))
          (entry (int (negsuc 1)) (bytes x) (entry (int (negsuc 2)) (bytes y) end)))))

abbrev pub attestation_map : List ℕ → Value
attestation_map auth_data = object (
    entry (text (codes "fmt")) (text (codes "none")) (
      entry (text (codes "attStmt")) (object end)
        (entry (text (codes "authData")) (bytes auth_data) end)))

module _ (utf8 : Text → List ℕ) where
  unfoldable mutual
    pub cbor_encode : Value → Option (List ℕ)
    cbor_encode (int (pos n)) = cbor_head 0 n
    cbor_encode (int (negsuc n)) = cbor_head 1 n
    cbor_encode (bytes b) = cbor_head 2 (length b) <+> some b
    cbor_encode (text t) = cbor_head 3 (length (utf8 t)) <+> some (utf8 t)
    cbor_encode (array vs) = cbor_head 4 (count_values vs) <+> encode_values vs
    cbor_encode (object es) = cbor_head 5 (count_entries es) <+> encode_entries es
    cbor_encode other = none

    pub encode_values : Values → Option (List ℕ)
    encode_values nil = some []
    encode_values (cons v vs) = cbor_encode v <+> encode_values vs

    pub encode_entries : Entries → Option (List ℕ)
    encode_entries end = some []
    encode_entries (entry k v es) = cbor_encode k <+> cbor_encode v <+> encode_entries es

  unfoldable pub cose_ec2_key : List ℕ → List ℕ → Option (List ℕ)
  cose_ec2_key x y =
      if not (length x == 32) || not (length y == 32) then none else cbor_encode (cose_map x y)

  unfoldable pub build_attestation_object : List ℕ → Option (List ℕ)
  build_attestation_object auth_data = cbor_encode (attestation_map auth_data)

abbrev pub aaguid : List ℕ
aaguid =
    0x6d ∷ 0x61 ∷ 0x73 ∷ 0x70 ∷ 0x61 ∷ 0x73 ∷ 0x73 ∷ 0x77 ∷ 0x6f ∷ 0x72 ∷ 0x64 ∷ 0x70 ∷ 0x6b ∷ 0x76
    ∷ 0x30 ∷ 0x31 ∷ []

-- The data of the credential is left out (`none`) in an assertion. A Uint8Array keeps eight bits of the
-- flags.
unfoldable pub build_auth_data : List ℕ → ℕ → Option (List ℕ) → List ℕ
build_auth_data rp_id_hash flags none = rp_id_hash ++ (flags % 2 ^ 8 ∷ replicate 4 0)
build_auth_data rp_id_hash flags (some attested) =
    rp_id_hash ++ (flags % 2 ^ 8 ∷ (replicate 4 0 ++ attested))

-- A Uint8Array keeps the lowest eight bits of the length's upper half.
unfoldable pub build_attested_credential_data : List ℕ → List ℕ → List ℕ
build_attested_credential_data credential_id cose =
    aaguid
    ++ (bit_and (length credential_id / 2 ^ 8) 0xff
        ∷ bit_and (length credential_id) 0xff
        ∷ (credential_id ++ cose))

-- `while (i < bytes.length - 1 && bytes[i] === 0) i++`, and the slice from there.
abbrev pub skip_zeros : List ℕ → List ℕ
skip_zeros [] = []
skip_zeros (b ∷ []) = b ∷ []
skip_zeros (b ∷ c ∷ rest) =
    let skipped = skip_zeros (c ∷ rest) in if b == 0 then skipped else b ∷ c ∷ rest

-- `v[0] & 0x80`, where a missing item reads as 0.
abbrev pub sign_bit : List ℕ → Bool
sign_bit [] = false
sign_bit (b ∷ rest) = not (bit_and b 0x80 == 0)

unfoldable pub der_integer : List ℕ → List ℕ
der_integer b =
    let v = skip_zeros b in let w = if sign_bit v then 0 ∷ v else v in 0x02 ∷ length w ∷ w

unfoldable pub raw_sig_to_der : List ℕ → Option (List ℕ)
unfolding der_integer
raw_sig_to_der raw =
    let body = der_integer (take 32 raw) ++ der_integer (drop 32 raw) in
    if not (length raw == 64) then none else some (0x30 ∷ length body ∷ body)

-- `s.endsWith('.' + suffix)`.
abbrev pub ends_with : Text → Text → Bool
ends_with s suffix =
    leb (length suffix) (length s) && same_text (drop (length s - length suffix) s) suffix

module _ (lower : Text → Text) where
  unfoldable pub normal_name : Text → Text
  normal_name host = strip_trailing_dot (lower host)

  abbrev pub valid_suffix : Text → Text → Bool
  valid_suffix h r =
      if not (same_text h r) && not (ends_with h (dot ∷ r))
      then false
      else if same_text h r
      then true
      else same_text r (registrable_domain lower h)
        || ends_with r (dot ∷ registrable_domain lower h)

  unfoldable pub rp_id_valid_for : Text → Text → Bool
  rp_id_valid_for [] rp_id = false
  rp_id_valid_for (c ∷ hostname) [] = false
  rp_id_valid_for (c ∷ hostname) (d ∷ rp_id) =
      valid_suffix (normal_name (c ∷ hostname)) (normal_name (d ∷ rp_id))
