-- ===== src/Kdbx/Container/Write.antt =====
-- buildKdbx of web/export.js. The random bytes are an argument, and so is the text of the document,
-- which depends on the stream that its protected values take bytes from.
use maspassword.Base.{ℕ, List, [], ◌∷◌, ◌++◌, Text, codes}
use maspassword.Kdbx.{u32le, u64le, u64le_big}
use maspassword.Kdbx.Header.{Field, header_field, write_fields, variant_dict}
use maspassword.Kdbx.Blocks.{write_stream}
use maspassword.Kdbx.Stream.{Stream, chacha_of}
use maspassword.Kdbx.Container.{Browser}
use maspassword.Kdbx.Container.Derive.{kdf_aes, aes_kdf, composite_key}

pub record Seeds : Type 0 where
  pub master : List ℕ
  pub iv : List ℕ
  pub kdf : List ℕ
  pub inner : List ℕ

abbrev pub cipher_aes256 : List ℕ
cipher_aes256 =
    0x31 ∷ 0xc1 ∷ 0xf2 ∷ 0xe6 ∷ 0xbf ∷ 0x71 ∷ 0x43 ∷ 0x50 ∷ 0xbe ∷ 0x58 ∷ 0x05 ∷ 0x21 ∷ 0x6a ∷ 0xfc
    ∷ 0x5a ∷ 0xff ∷ []

-- KDBX_SIG1, KDBX_SIG2 and KDBX_VERSION_4.
unfoldable pub signature : List ℕ
unfolding u32le
signature = u32le 0x9aa2d903 ++ (u32le 0xb54bfb67 ++ u32le 0x00040000)

abbrev pub last_field : List ℕ
last_field = 0x0d ∷ 0x0a ∷ 0x0d ∷ 0x0a ∷ []

module _ (b : Browser) (seeds : Seeds) (rounds : ℕ) where
  unfoldable pub kdf_params : List ℕ
  kdf_params = variant_dict b.utf8 (
      (codes "$UUID", 0x42, kdf_aes)
      ∷ (codes "R", 0x05, u64le_big rounds)
      ∷ (codes "S", 0x42, seeds.kdf)
      ∷ [])

  abbrev pub outer_fields : List Field
  outer_fields =
      (2, cipher_aes256) ∷ (3, u32le 0) ∷ (4, seeds.master) ∷ (7, seeds.iv) ∷ (11, kdf_params) ∷ []

  unfoldable pub outer_header : List ℕ
  outer_header = signature ++ (write_fields outer_fields ++ header_field 0 last_field)

  abbrev pub inner_fields : List Field
  inner_fields = (1, u32le 3) ∷ (2, seeds.inner) ∷ []

  unfoldable pub inner_header : List ℕ
  inner_header = write_fields inner_fields ++ header_field 0 []

  unfoldable pub transformed_key : Text → List ℕ
  transformed_key password = aes_kdf b (composite_key b password) seeds.kdf rounds

  abbrev pub cipher_key : List ℕ → List ℕ
  cipher_key transformed = b.sha256 (seeds.master ++ transformed)

  abbrev pub hmac_base : List ℕ → List ℕ
  hmac_base transformed = b.sha512 (seeds.master ++ (transformed ++ 1 ∷ []))

  abbrev pub header_mac : List ℕ → List ℕ → List ℕ
  header_mac base header = b.hmac (b.sha512 (u64le 0xffffffff 0xffffffff ++ base)) header

  abbrev pub document_stream : Stream
  document_stream = chacha_of b.sha256 b.sha512 seeds.inner

  unfoldable pub payload : (Stream → Text) → List ℕ
  payload document = inner_header ++ b.utf8 (document document_stream)

  -- The header, its hash and its HMAC, and the blocks of the ciphertext.
  abbrev pub sealed_file : (Stream → Text) → List ℕ → List ℕ
  sealed_file document transformed =
      outer_header
      ++ (b.sha256 outer_header
          ++ (header_mac (hmac_base transformed) outer_header
              ++ write_stream b.sha512 b.hmac (hmac_base transformed)
                  (b.encrypt (cipher_key transformed) seeds.iv (payload document))))

  unfoldable pub build_kdbx : (Stream → Text) → Text → List ℕ
  build_kdbx document password = sealed_file document (transformed_key password)
