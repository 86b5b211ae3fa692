-- ===== src/Kdbx/Container/Payload.antt =====
-- The payload of buildKdbx: readKdbx4 reads its inner header and its text.
use maspassword.Base.{
  ℕ, suc, ◌-◌, ◌^◌, ◌<◌, ◌≤◌, ◌≡◌, ◌≢◌, refl, false, none, some, List, [], ◌++◌, append_assoc,
  length, take, drop, ◌==◌, arith,
}
use maspassword.Kdbx.{ok, u32le, u8, get_u32}
use maspassword.Kdbx.Bytes.{get_u32-u32le, drop-u32le, take-append, drop-append}
use maspassword.Kdbx.Header.{header_field, write_fields}
use maspassword.Kdbx.Header.RoundTrip.{header_field_lem}
use maspassword.Kdbx.Stream.{inner_stream_for}
use maspassword.Kdbx.Container.{Browser}
use maspassword.Kdbx.Container.Write.{Seeds, inner_header, document_stream}
use maspassword.Kdbx.Container.Read.{Inner, inner_field, read_inner, open_payload}

read_inner-header_field :
    (fuel id : ℕ) (input rest : List ℕ) (inner inner' : Inner)
    → id ≢ 0
    → length input < 2 ^ 32
    → inner_field id (length input) (u32le (length input) ++ (input ++ rest)) inner ≡ ok inner'
    → read_inner (suc fuel) inner (header_field id input ++ rest) ≡ read_inner fuel inner' rest
unfolding read_inner
read_inner-header_field fuel id input rest inner inner' nonzero lt e =
    let other : (id == 0) ≡ false = ground arith in
    rw
      (
        header_field_lem id input,
        append_assoc (u32le (length input)) input rest,
        get_u32-u32le (length input) (input ++ rest) lt,
        other,
        e,
        drop-u32le (length input) (length input) (input ++ rest),
        drop-append input rest,
      )
      refl

module _ (b : Browser) (seeds : Seeds) (short : length seeds.inner < 2 ^ 32) (rounds : ℕ)
    (text : List ℕ) where
  begun : Inner
  begun = record { stream_id = 0; stream_key = none; binaries = 0 }

  with_key : Inner
  with_key = record { stream_id = 3; stream_key = some seeds.inner; binaries = 0 }

  stream_field :
      (rest : List ℕ)
      → inner_field 1 (length (u32le 3)) (u32le (length (u32le 3)) ++ (u32le 3 ++ rest)) begun
        ≡ ok (record { stream_id = 3; stream_key = none; binaries = 0 })
  unfolding begun u32le get_u32
  stream_field rest = refl

  key_field :
      (rest : List ℕ)
      → inner_field 2
          (length seeds.inner)
          (u32le (length seeds.inner) ++ (seeds.inner ++ rest))
          (record { stream_id = 3; stream_key = none; binaries = 0 })
        ≡ ok with_key
  unfolding with_key
  key_field rest =
      let key : take (length seeds.inner)
            (drop 4 (u32le (length seeds.inner) ++ (seeds.inner ++ rest)))
          ≡ seeds.inner =
        unfold u32le in take-append seeds.inner rest in
      rw key refl

  last_read :
      (fuel : ℕ) (inner : Inner)
      → read_inner (suc fuel) inner (header_field 0 [] ++ text) ≡ ok (inner, text)
  unfolding read_inner header_field u32le get_u32 u8
  last_read fuel inner = refl

  header_parts :
      inner_header b seeds rounds ++ text
      ≡ header_field 1 (u32le 3) ++ (header_field 2 seeds.inner ++ (header_field 0 [] ++ text))
  unfolding inner_header write_fields
  header_parts = simp append_assoc

  inner_read :
      (fuel : ℕ)
      → read_inner (suc (suc (suc fuel))) begun (inner_header b seeds rounds ++ text)
        ≡ ok (with_key, text)
  inner_read fuel =
      rw
        (
          header_parts,
          read_inner-header_field (suc (suc fuel)) 1 (u32le 3)
              (header_field 2 seeds.inner ++ (header_field 0 [] ++ text)) begun
              (record { stream_id = 3; stream_key = none; binaries = 0 }) (omega arith)
              (unfold u32le in omega arith)
              (stream_field (header_field 2 seeds.inner ++ (header_field 0 [] ++ text))),
          read_inner-header_field (suc fuel) 2 seeds.inner (header_field 0 [] ++ text)
              (record { stream_id = 3; stream_key = none; binaries = 0 }) with_key (omega arith)
              short (key_field (header_field 0 [] ++ text)),
        )
        (last_read fuel with_key)

  long_enough : 2 ≤ length (inner_header b seeds rounds ++ text)
  unfolding inner_header write_fields header_field u8 u32le
  long_enough = omega arith

  pub open_payload-inner_header :
      open_payload b (inner_header b seeds rounds ++ text)
      ≡ ok (record {
        xml = b.utf8_text text;
        stream = document_stream b seeds rounds;
        binaries = 0;
        header_bytes = none;
      })
  unfolding open_payload begun with_key inner_stream_for
  open_payload-inner_header =
      let n = length (inner_header b seeds rounds ++ text) in
      let e : suc n ≡ suc (suc (suc (n - 2))) = omega (arith, long_enough) in
      rw (e, inner_read (n - 2)) refl
