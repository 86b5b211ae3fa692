-- ===== src/Kdbx/Container/Keys.antt =====
-- The laws of the browser that the round trip rests on, and the header's parameters for the key: readKdbx4
-- derives the key that buildKdbx derived.
use maspassword.Base.{
  ℕ, ◌^◌, ◌<◌, ◌≡◌, ◌≢◌, refl, true, some, List, [], ◌∷◌, ◌++◌, Text, codes, length, length-append,
  All, lt→ltb, arith,
}
use maspassword.Kdbx.{ok, u32le, u64le_big, u8, bytes_hex}
use maspassword.Kdbx.Bytes.{get_u64-u64le_big}
use maspassword.Kdbx.Header.{
  Value, raw, number, Dict, number_of, typed_value, parse_variant_dict, variant_dict,
}
use maspassword.Kdbx.Header.RoundTrip.{IsField}
use maspassword.Kdbx.Header.Variant.{Entry, parse_variant_dict-variant_dict}
use maspassword.Kdbx.Container.{Browser}
use maspassword.Kdbx.Container.Derive.{kdf_aes, aes_kdf, derive_by, derive_transformed}
use maspassword.Kdbx.Container.Write.{Seeds, kdf_params, outer_fields}

-- The documented behaviour of the browser that the round trip rests on.
pub record Laws (b : Browser) : Type 0 where
  pub sha256_size : (input : List ℕ) → length (b.sha256 input) ≡ 32
  pub hmac_size : (key input : List ℕ) → length (b.hmac key input) ≡ 32
  pub takes_256_bits : (key : List ℕ) → length key ≡ 32 → b.imports key ≡ true
  pub decrypts : (key iv input : List ℕ) → b.decrypt key iv (b.encrypt key iv input) ≡ some input
  pub utf8_ascii : (s : Text) → All (λ c. c < 128) s → b.utf8 s ≡ s
  pub text_ascii : (s : Text) → All (λ c. c < 128) s → b.utf8_text s ≡ s

-- The random bytes of buildKdbx.
pub record AreSized (seeds : Seeds) : Type 0 where
  pub master_size : length seeds.master ≡ 32
  pub iv_size : length seeds.iv ≡ 16
  pub kdf_size : length seeds.kdf ≡ 32
  pub inner_size : length seeds.inner ≡ 64

module _ (b : Browser) (laws : Laws b) (seeds : Seeds) (sized : AreSized seeds) (rounds : ℕ)
    (few : rounds < 2 ^ 53) where
  -- The parameters of the key derivation.
  key_read : (s : Text) → All (λ c. c < 128) s → b.utf8_text (b.utf8 s) ≡ s
  key_read s h = rw (laws.utf8_ascii s h) (laws.text_ascii s h)

  key_size : (s : Text) → All (λ c. c < 128) s → length s < 100 → length (b.utf8 s) < 100
  key_size s h lt = rw (laws.utf8_ascii s h) lt

  entry :
      (key : Text) (kind : ℕ) (bytes : List ℕ) (value : Value)
      → All (λ c. c < 128) key
      → length key < 100
      → kind ≢ 0
      → length bytes < 2 ^ 32
      → typed_value b.utf8_text kind bytes ≡ ok value
      → Entry b.utf8 b.utf8_text
  entry key kind bytes value h lt k short e = record {
    key = key;
    kind = kind;
    bytes = bytes;
    value = value;
    nonzero = k;
    key_short = omega (arith, key_size key h lt);
    short = short;
    key_read = key_read key h;
    value_read = e;
  }

  rounds_read : typed_value b.utf8_text 0x05 (u64le_big rounds) ≡ ok (number rounds)
  unfolding typed_value u64le_big u32le
  rounds_read = rw (get_u64-u64le_big rounds [] (omega arith), exact) refl
    where
      exact : number_of rounds ≡ rounds
      exact = unfold number_of in rw (lt→ltb rounds (2 ^ 53) few) refl

  raw_read : (bytes : List ℕ) → typed_value b.utf8_text 0x42 bytes ≡ ok (raw bytes)
  unfolding typed_value
  raw_read bytes = refl

  unfoldable pub dict : Dict
  dict = (codes "S", raw seeds.kdf) ∷ (codes "R", number rounds) ∷ (codes "$UUID", raw kdf_aes) ∷ []

  pub params_read : parse_variant_dict b.utf8_text (kdf_params b seeds rounds) ≡ ok dict
  unfolding kdf_params dict entry
  params_read = parse_variant_dict-variant_dict b.utf8 b.utf8_text (
      entry (codes "$UUID") 0x42 kdf_aes (raw kdf_aes) (omega arith) (omega arith) (omega arith)
        (omega arith) (raw_read kdf_aes)
      ∷ entry (codes "R") 0x05 (u64le_big rounds) (number rounds) (omega arith) (omega arith)
          (omega arith) (unfold u64le_big u32le in omega arith) rounds_read
      ∷ entry (codes "S") 0x42 seeds.kdf (raw seeds.kdf) (omega arith) (omega arith) (omega arith)
          (omega (arith, sized.kdf_size)) (raw_read seeds.kdf)
      ∷ [])

  pub derived :
      (composite : List ℕ)
      → derive_transformed b dict composite ≡ ok (aes_kdf b composite seeds.kdf rounds)
  unfolding derive_transformed derive_by dict
  derived composite = unfold bytes_hex in rw (laws.takes_256_bits seeds.kdf sized.kdf_size) refl

  length-kdf_params : length (kdf_params b seeds rounds) < 200
  unfolding kdf_params variant_dict u8 u32le u64le_big
  length-kdf_params =
      rw
        (
          laws.utf8_ascii (codes "$UUID") (omega arith),
          laws.utf8_ascii (codes "R") (omega arith),
          laws.utf8_ascii (codes "S") (omega arith),
        )
        (omega (
          arith,
          length-append (seeds.kdf ++ []) (0 ∷ []),
          length-append seeds.kdf [],
          sized.kdf_size,
        ))

  pub are_fields : All IsField (outer_fields b seeds rounds)
  are_fields = (
    (omega arith, omega arith),
    (
      (omega arith, unfold u32le in omega arith),
      (
        (omega arith, omega (arith, sized.master_size)),
        (
          (omega arith, omega (arith, sized.iv_size)),
          ((omega arith, omega (arith, length-kdf_params)), tt),
        ),
      ),
    ),
  )
