-- ===== src/Kdbx/Container/Read.antt =====
-- decryptOuter, readKdbx4, readKdbx3 and the start of readKdbx of web/kdbx-read.js, up to the XML.
use maspassword.Base.{
  ℕ, zero, suc, ◌+◌, ◌-◌, true, false, not, ◌||◌, Option, none, some, List, [], ◌∷◌, ◌++◌, Text,
  codes, length, take, drop, ltb, ◌==◌, if◌then◌else◌, same_text, replicate,
}
use maspassword.Kdbx.{
  Error, Result, ok, err, ◌>>=◌, u8, get_u16, get_u32, get_u64, bytes_hex, same_hex,
}
use maspassword.Kdbx.Error.{not_kdbx, bad_password, unsupported, corrupt, thrown}
use maspassword.Kdbx.Header.{Field, get, needed, parse_header_fields, number_of, parse_variant_dict}
use maspassword.Kdbx.Blocks.{read_stream, read_hashed}
use maspassword.Kdbx.Stream.{Stream, xor, block_byte, chacha_block, fresh, inner_stream_for}
use maspassword.Kdbx.Container.{Browser}
use maspassword.Kdbx.Container.Derive.{aes_kdf, derive_transformed, composite_key}

abbrev pub cipher_aes_uuid : Text
cipher_aes_uuid = codes "31c1f2e6bf714350be5805216afc5aff"

abbrev pub cipher_chacha20_uuid : Text
cipher_chacha20_uuid = codes "d6038a2b8b6f4cb5a524339a31dbb59a"

-- What a reader returns. `header_bytes` is there for KDBX 3 only.
pub record Opened : Type 0 where
  pub xml : Text
  pub stream : Stream
  pub binaries : ℕ
  pub header_bytes : Option (List ℕ)

-- The variables of the loop over the inner header.
pub record Inner : Type 0 where
  pub stream_id : ℕ
  pub stream_key : Option (List ℕ)
  pub binaries : ℕ

-- A failure of a browser's call, seen as the error that it leads to.
abbrev pub or_fail {ℓ} : {A : Type ℓ} → Error → Option A → Result A
or_fail e none = err e
or_fail e (some a) = ok a

-- One field: the number of the stream is read from where the bytes of the field start, however few
-- they are.
abbrev pub inner_field : ℕ → ℕ → List ℕ → Inner → Result Inner
inner_field id size rest inner =
    if id == 1
    then get_u32 (drop 4 rest) >>= (λ n. ok (record inner { stream_id = n }))
    else if id == 2
    then ok (record inner { stream_key = some (take size (drop 4 rest)) })
    else if id == 3
    then ok (record inner { binaries = inner.binaries + 1 })
    else ok inner

unfoldable pub read_inner : ℕ → Inner → List ℕ → Result (Inner × List ℕ)
read_inner zero inner bytes = err thrown
read_inner (suc fuel) inner [] = err thrown
read_inner (suc fuel) inner (id ∷ rest) = get_u32 rest >>= λ size.
    let more =
      inner_field id size rest inner >>= λ inner'. read_inner fuel inner' (drop (4 + size) rest) in
    if id == 0 then ok (inner, drop (4 + size) rest) else more

abbrev pub compression_of : Option (List ℕ) → Result ℕ
compression_of none = ok 0
compression_of (some bytes) = get_u32 bytes

-- ChaCha20 takes a nonce of 12 bytes when there is a byte to decrypt.
abbrev pub chacha_outer : List ℕ → Option (List ℕ) → List ℕ → Result (List ℕ)
chacha_outer key iv [] = ok []
chacha_outer key none (c ∷ ciphertext) = err thrown
chacha_outer key (some iv) (c ∷ ciphertext) =
    if ltb (length iv) 12
    then err thrown
    else ok (xor (block_byte (λ n. chacha_block key n iv)) fresh (c ∷ ciphertext)).0

module _ (b : Browser) where
  abbrev pub aes_outer : List ℕ → Option (List ℕ) → List ℕ → Result (List ℕ)
  aes_outer key none ciphertext = err bad_password
  aes_outer key (some iv) ciphertext = or_fail bad_password (b.decrypt key iv ciphertext)

  unfoldable pub decrypt_outer : List ℕ → List ℕ → Option (List ℕ) → List ℕ → Result (List ℕ)
  decrypt_outer cipher key iv ciphertext =
      if same_text (bytes_hex cipher) cipher_aes_uuid
      then aes_outer key iv ciphertext
      else if same_text (bytes_hex cipher) cipher_chacha20_uuid
      then chacha_outer key iv ciphertext
      else err unsupported

  abbrev pub unpacked : ℕ → List ℕ → Result (List ℕ)
  unpacked compression bytes =
      if compression == 1 then or_fail thrown (b.gunzip bytes) else ok bytes

  -- The decrypted payload of KDBX 4: inner header and XML.
  unfoldable pub open_payload : List ℕ → Result Opened
  open_payload bytes =
      read_inner (suc (length bytes)) (record { stream_id = 0; stream_key = none; binaries = 0 })
        bytes
      >>= λ r. inner_stream_for b.sha256 b.sha512 r.0.stream_id r.0.stream_key >>= λ stream.
          ok (record {
            xml = b.utf8_text r.1;
            stream = stream;
            binaries = r.0.binaries;
            header_bytes = none;
          })

  -- The blocks behind the header's HMAC, once the keys are known.
  unfoldable pub read_body : List Field → List ℕ → List ℕ → List ℕ → Result Opened
  read_body fields key base bytes = read_stream b.sha512 b.hmac base bytes >>= λ ciphertext.
      needed (get 2 fields) >>= λ cipher.
      decrypt_outer cipher key (get 7 fields) ciphertext >>= λ packed.
      compression_of (get 3 fields) >>= λ compression.
      unpacked compression packed >>= λ bytes. open_payload bytes

  -- With the master seed and the transformed key: the HMAC of the header, then the rest of the file
  -- behind the header's hash.
  unfoldable pub read_sealed : List Field → List ℕ → List ℕ → List ℕ → List ℕ → Result Opened
  read_sealed fields seed transformed header rest =
      let base = b.sha512 (seed ++ (transformed ++ 1 ∷ [])) in
      if not
        (same_hex (b.hmac (b.sha512 (replicate 8 0xff ++ base)) header) (take 32 (drop 32 rest)))
      then err bad_password
      else read_body fields (b.sha256 (seed ++ transformed)) base (drop 64 rest)

  -- `rest` is the file from the end of the header on.
  unfoldable pub read_kdbx4 : List ℕ → List ℕ → Text → Result Opened
  read_kdbx4 bytes rest password = parse_header_fields true (drop 12 bytes) >>= λ parsed.
      let header = take (length bytes - length rest) bytes in
      if not (same_hex (b.sha256 header) (take 32 rest))
      then err corrupt
      else needed (get 11 parsed.0) >>= λ params. parse_variant_dict b.utf8_text params >>= λ dict.
          derive_transformed b dict (composite_key b password) >>= λ transformed.
          needed (get 4 parsed.0) >>= λ seed. read_sealed parsed.0 seed transformed header rest

  -- KDBX 3: the decrypted payload.
  abbrev pub stream_number : Option (List ℕ) → Result ℕ
  stream_number none = ok 2
  stream_number (some bytes) = get_u32 bytes

  unfoldable pub open_hashed : List Field → List ℕ → List ℕ → Result Opened
  open_hashed fields header bytes = read_hashed b.sha256 (suc (length bytes)) bytes >>= λ chunks.
      compression_of (get 3 fields) >>= λ compression. unpacked compression (u8 chunks) >>= λ xml.
      stream_number (get 10 fields) >>= λ id.
      inner_stream_for b.sha256 b.sha512 id (get 8 fields) >>= λ stream.
      ok (record {
        xml = b.utf8_text xml;
        stream = stream;
        binaries = 0;
        header_bytes = some header;
      })

  unfoldable pub check_start : List Field → List ℕ → List ℕ → Result Opened
  check_start fields header bytes = needed (get 9 fields) >>= λ start.
      if not (same_hex (take (length start) bytes) start)
      then err bad_password
      else open_hashed fields header (drop (length start) bytes)

  unfoldable pub read_kdbx3 : List ℕ → List ℕ → Text → Result Opened
  read_kdbx3 bytes rest password = parse_header_fields false (drop 12 bytes) >>= λ parsed.
      needed (get 6 parsed.0) >>= λ rounds. get_u64 rounds >>= λ n.
      needed (get 5 parsed.0) >>= λ seed.
      (if b.imports seed then ok seed else err thrown) >>= λ key.
      needed (get 4 parsed.0) >>= λ master. needed (get 2 parsed.0) >>= λ cipher.
      decrypt_outer cipher
        (b.sha256 (master ++ aes_kdf b (composite_key b password) key (number_of n)))
        (get 7 parsed.0) rest
      >>= λ payload. check_start parsed.0 (take (length bytes - length rest) bytes) payload

  -- By the major version.
  unfoldable pub read_version : ℕ → List ℕ → Text → Result Opened
  read_version major bytes password =
      if major == 4
      then parse_header_fields true (drop 12 bytes)
        >>= (λ parsed. read_kdbx4 bytes parsed.1 password)
      else if major == 3 || major == 2
      then parse_header_fields false (drop 12 bytes)
        >>= (λ parsed. read_kdbx3 bytes parsed.1 password)
      else err unsupported

  unfoldable pub open_kdbx : List ℕ → Text → Result Opened
  open_kdbx bytes password =
      if ltb (length bytes) 12
      then err not_kdbx
      else get_u32 bytes >>= λ first. get_u32 (drop 4 bytes) >>= λ second.
          if not (first == 0x9aa2d903) || not (second == 0xb54bfb67)
          then err not_kdbx
          else get_u16 (drop 10 bytes) >>= λ major. read_version major bytes password
