-- ===== src/Kdbx/Container/RoundTrip.antt =====
-- readKdbx opens what buildKdbx wrote.
use maspassword.Base.{
  ℕ, ◌-◌, ◌^◌, ◌<◌, ◌≡◌, refl, sym, ◌∙◌, ap, true, false, none, some, List, [], ◌++◌, append_assoc,
  append-nil, Text, length, length-append, take, drop, ltb, arith,
}
use maspassword.Kdbx.{ok, ◌>>=◌, u32le, u64le, get_u16, get_u32, bytes_hex}
use maspassword.Kdbx.Bytes.{drop_past, take_all, same_hex_refl}
use maspassword.Kdbx.Header.{header_field, write_fields, parse_header_fields}
use maspassword.Kdbx.Header.RoundTrip.{latest_first, parse_header_fields-write_fields}
use maspassword.Kdbx.Blocks.{read_stream, write_stream}
use maspassword.Kdbx.Blocks.RoundTrip.{read_stream-write_stream}
use maspassword.Kdbx.Stream.{Stream}
use maspassword.Kdbx.Container.{Browser}
use maspassword.Kdbx.Container.Derive.{composite_key}
use maspassword.Kdbx.Container.Write.{
  Seeds, signature, last_field, cipher_aes256, outer_fields, outer_header, transformed_key,
  cipher_key, hmac_base, header_mac, document_stream, payload, build_kdbx,
}
use maspassword.Kdbx.Container.Payload.{open_payload-inner_header}
use maspassword.Kdbx.Container.Read.{
  Opened, decrypt_outer, open_payload, read_body, read_sealed, read_kdbx4, read_version, open_kdbx,
}
use maspassword.Kdbx.Container.Keys.{Laws, AreSized, params_read, derived, are_fields}

module _ (b : Browser) (laws : Laws b) (seeds : Seeds) (sized : AreSized seeds) (rounds : ℕ)
    (few : rounds < 2 ^ 53) where
  -- The file from the end of the header on.
  body : (Stream → Text) → List ℕ → List ℕ
  body document transformed =
      b.sha256 (outer_header b seeds rounds)
      ++ (header_mac b seeds rounds (hmac_base b seeds rounds transformed)
            (outer_header b seeds rounds)
          ++ write_stream b.sha512 b.hmac (hmac_base b seeds rounds transformed) (
              b.encrypt (cipher_key b seeds rounds transformed) seeds.iv
                (payload b seeds rounds document)))

  module _ (document : Stream → Text) (transformed : List ℕ) where
    head_bytes : List ℕ
    head_bytes = outer_header b seeds rounds

    rest : List ℕ
    rest = body document transformed

    base : List ℕ
    base = hmac_base b seeds rounds transformed

    mac : List ℕ
    mac = header_mac b seeds rounds base head_bytes

    stream : List ℕ
    stream = write_stream b.sha512 b.hmac base (
        b.encrypt (cipher_key b seeds rounds transformed) seeds.iv
          (payload b seeds rounds document))

    later : List ℕ
    later = mac ++ stream

    mac_size : length mac ≡ 32
    unfolding mac
    mac_size = laws.hmac_size (b.sha512 (u64le 0xffffffff 0xffffffff ++ base)) head_bytes

    behind_signature :
        drop 12 (head_bytes ++ rest)
        ≡ write_fields (outer_fields b seeds rounds) ++ (header_field 0 last_field ++ rest)
    unfolding head_bytes outer_header signature
    behind_signature =
        append_assoc (write_fields (outer_fields b seeds rounds)) (header_field 0 last_field) rest

    fields_read :
        parse_header_fields true (drop 12 (head_bytes ++ rest))
        ≡ ok (latest_first (outer_fields b seeds rounds) [], rest)
    fields_read = rw behind_signature (
        parse_header_fields-write_fields (outer_fields b seeds rounds) last_field rest
          (are_fields b laws seeds sized rounds few) (omega arith))

    header_read : take (length (head_bytes ++ rest) - length rest) (head_bytes ++ rest) ≡ head_bytes
    header_read =
        take_all (length (head_bytes ++ rest) - length rest) head_bytes rest
          (omega (arith, length-append head_bytes rest))

    hash_read : take 32 rest ≡ b.sha256 head_bytes
    unfolding rest body head_bytes later mac stream base
    hash_read =
        take_all 32 (b.sha256 (outer_header b seeds rounds)) later
          (sym (laws.sha256_size (outer_header b seeds rounds)))

    mac_read : take 32 (drop 32 rest) ≡ mac
    unfolding rest body head_bytes later mac stream base
    mac_read =
        rw
          (drop_past 32 0 (b.sha256 (outer_header b seeds rounds)) later
            (omega (arith, laws.sha256_size (outer_header b seeds rounds))))
          (take_all 32 mac stream (sym mac_size))

    stream_read : drop 64 rest ≡ stream
    unfolding rest body head_bytes later mac stream base
    stream_read =
        drop_past 64 32 (b.sha256 (outer_header b seeds rounds)) later
          (omega (arith, laws.sha256_size (outer_header b seeds rounds)))
        ∙ drop_past 32 0 mac stream (omega (arith, mac_size))

    -- What the reader returns.
    abbrev outcome : Opened
    outcome = record {
      xml = b.utf8_text (b.utf8 (document (document_stream b seeds rounds)));
      stream = document_stream b seeds rounds;
      binaries = 0;
      header_bytes = none;
    }

    payload_read : open_payload b (payload b seeds rounds document) ≡ ok outcome
    unfolding payload
    payload_read =
        open_payload-inner_header b seeds (omega (arith, sized.inner_size)) rounds
          (b.utf8 (document (document_stream b seeds rounds)))

    decrypted :
        decrypt_outer b cipher_aes256 (cipher_key b seeds rounds transformed) (some seeds.iv) (
          b.encrypt
            (cipher_key b seeds rounds transformed)
            seeds.iv
            (payload b seeds rounds document))
        ≡ ok (payload b seeds rounds document)
    unfolding decrypt_outer bytes_hex
    decrypted =
        rw
          (laws.decrypts (cipher_key b seeds rounds transformed) seeds.iv
            (payload b seeds rounds document))
          refl

    body_read :
        read_body b
          (latest_first (outer_fields b seeds rounds) [])
          (cipher_key b seeds rounds transformed)
          base
          stream
        ≡ ok outcome
    unfolding read_body stream get_u32 u32le
    body_read = rw (blocks, decrypted) payload_read
      where
        ciphertext : List ℕ
        ciphertext =
            b.encrypt (cipher_key b seeds rounds transformed) seeds.iv
              (payload b seeds rounds document)

        blocks :
            read_stream b.sha512 b.hmac base (write_stream b.sha512 b.hmac base ciphertext)
            ≡ ok ciphertext
        blocks =
            ap (read_stream b.sha512 b.hmac base)
              (sym (append-nil (write_stream b.sha512 b.hmac base ciphertext)))
            ∙ read_stream-write_stream b.sha512 b.hmac laws.hmac_size base ciphertext []

    sealed_read :
        read_sealed b
          (latest_first (outer_fields b seeds rounds) [])
          seeds.master
          transformed
          head_bytes
          rest
        ≡ ok outcome
    unfolding read_sealed
    sealed_read =
        rw (mac_read, stream_read) (unfold mac base u64le u32le in rw (same_hex_refl mac) body_read)

  file_read :
      (document : Stream → Text) (password : Text)
      → read_kdbx4 b
          (head_bytes document (transformed_key b seeds rounds password)
            ++ rest document (transformed_key b seeds rounds password))
          (rest document (transformed_key b seeds rounds password))
          password
        ≡ ok (outcome document (transformed_key b seeds rounds password))
  unfolding read_kdbx4
  file_read document password =
      let key = transformed_key b seeds rounds password in
      rw
        (
          fields_read document key,
          header_read document key,
          hash_read document key,
          same_hex_refl (b.sha256 (head_bytes document key)),
          (params_read b laws seeds sized rounds few),
          derived b laws seeds sized rounds few (composite_key b password),
        )
        (unfold transformed_key in sealed_read document key)

  signed :
      (tail : List ℕ) (password : Text)
      → open_kdbx b (signature ++ tail) password ≡ read_version b 4 (signature ++ tail) password
  unfolding open_kdbx signature u32le get_u32 get_u16
  signed tail password = rw enough refl
    where
      enough : ltb (length (signature ++ tail)) 12 ≡ false
      enough = ground arith

  pub open_kdbx-build_kdbx :
      (document : Stream → Text) (password : Text)
      → open_kdbx b (build_kdbx b seeds rounds document password) password
        ≡ ok (record {
          xml = b.utf8_text (b.utf8 (document (document_stream b seeds rounds)));
          stream = document_stream b seeds rounds;
          binaries = 0;
          header_bytes = none;
        })
  open_kdbx-build_kdbx document password =
      let key = transformed_key b seeds rounds password in
      let tail =
        (write_fields (outer_fields b seeds rounds) ++ header_field 0 last_field)
        ++ rest document key in
      let file = head_bytes document key ++ rest document key in
      let same : build_kdbx b seeds rounds document password ≡ file =
        unfold build_kdbx head_bytes rest body in refl in
      let front : file ≡ signature ++ tail =
        unfold head_bytes outer_header in
        append_assoc signature
          (write_fields (outer_fields b seeds rounds) ++ header_field 0 last_field)
          (rest document key) in
      let version : read_version b 4 file password ≡ (
          parse_header_fields true (drop 12 file) >>= λ parsed.
          read_kdbx4 b file parsed.1 password) =
        unfold read_version in refl in
      rw (same, front, signed tail password, ← front, version, fields_read document key)
        (file_read document password)
