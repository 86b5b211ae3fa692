-- ===== src/Kdbx/Blocks/RoundTrip.antt =====
-- readKdbx4 reads back the block stream that buildKdbx wrote.
use maspassword.Base.{
  ℕ, zero, suc, ◌+◌, ◌^◌, ◌<◌, ◌≤◌, ◌≡◌, refl, ◌∙◌, false, List, [], ◌∷◌, ◌++◌, append_assoc,
  length, length-append, length-take, length-drop, take, drop, take-append-drop, ltb, ◌==◌, ==_refl,
  arith,
}
use maspassword.Kdbx.{ok, u32le, u8, get_u32}
use maspassword.Kdbx.Bytes.{
  get_u32-u32le, drop-u32le, drop_past, take_all, take-append, drop-append, same_hex_refl,
}
use maspassword.Kdbx.Blocks.{
  block_size, block_mac, write_block, write_blocks, write_stream, check_block, take_block,
  read_blocks, read_stream,
}

==-zero : (n : ℕ) → 0 < n → (n == 0) ≡ false
==-zero n pos = ground arith

module _ (sha512 : List ℕ → List ℕ) (hmac : List ℕ → List ℕ → List ℕ)
    (hmac_size : (key input : List ℕ) → length (hmac key input) ≡ 32) (base : List ℕ) where
  abbrev mac : ℕ → ℕ → List ℕ → List ℕ
  mac = block_mac sha512 hmac base

  length-mac : (index size : ℕ) (input : List ℕ) → length (mac index size input) ≡ 32
  unfolding block_mac
  length-mac index size input = hmac_size _ _

  check_block_lem :
      (index : ℕ) (input rest : List ℕ)
      → check_block sha512 hmac base index
          (mac index (length input) input)
          (length input)
          input
          rest
        ≡ ok (length input, input, rest)
  unfolding check_block
  check_block_lem index input rest =
      rw (==_refl (length input), same_hex_refl (mac index (length input) input))

  take_block-write_block :
      (index : ℕ) (input rest : List ℕ)
      → length input < 2 ^ 32
      → take_block sha512 hmac base index (write_block sha512 hmac base index input ++ rest)
        ≡ ok (length input, input, rest)
  unfolding take_block write_block
  take_block-write_block index input rest lt =
      rw (enough, size, first, chunk, behind) (check_block_lem index input rest)
    where
      tail : List ℕ
      tail = u32le (length input) ++ (input ++ rest)

      all : List ℕ
      all = (mac index (length input) input ++ (u32le (length input) ++ input)) ++ rest

      parts : all ≡ mac index (length input) input ++ tail
      parts = simp append_assoc

      at : (m k : ℕ) → m ≡ 32 + k → drop m all ≡ drop k tail
      at m k e = rw parts (
          drop_past m k (mac index (length input) input) tail
            (omega (arith, length-mac index (length input) input)))

      enough : ltb (length all) 36 ≡ false
      enough =
          let thirty_two = length-mac index (length input) input in
          let four : length tail ≡ 4 + length (input ++ rest) = unfold u32le in omega arith in
          let joined = length-append (mac index (length input) input) tail in
          rw parts (ground arith)

      first : take 32 all ≡ mac index (length input) input
      first = rw parts (
          take_all 32 (mac index (length input) input) tail
            (omega (arith, length-mac index (length input) input)))

      size : get_u32 (drop 32 all) ≡ ok (length input)
      size = rw (at 32 0 (omega arith)) (get_u32-u32le (length input) (input ++ rest) lt)

      chunk : take (length input) (drop 36 all) ≡ input
      chunk = rw (at 36 4 (omega arith)) (unfold u32le in take-append input rest)

      behind : drop (36 + length input) all ≡ rest
      behind =
          at (36 + length input) (4 + length input) (omega arith)
          ∙ (drop-u32le (length input) (length input) (input ++ rest) ∙ drop-append input rest)

  length-write_block :
      (index : ℕ) (input : List ℕ)
      → length (write_block sha512 hmac base index input) ≡ 36 + length input
  unfolding write_block
  length-write_block index input =
      let four : length (u32le (length input) ++ input) ≡ 4 + length input =
        unfold u32le in omega arith in
      omega (
        arith,
        length-append (mac index (length input) input) (u32le (length input) ++ input),
        length-mac index (length input) input,
      )

  -- The chunks of a text.
  chunks : ℕ → List ℕ → List (List ℕ)
  chunks zero rest = []
  chunks (suc fuel) [] = []
  chunks (suc fuel) (b ∷ rest) =
      take block_size (b ∷ rest) ∷ chunks fuel (drop block_size (b ∷ rest))

  u8-chunks : (fuel : ℕ) (rest : List ℕ) → length rest ≤ fuel → u8 (chunks fuel rest) ≡ rest
  unfolding u8 chunks
  u8-chunks zero [] le = refl
  u8-chunks zero (b ∷ rest) le = absurd (omega arith)
  u8-chunks (suc fuel) [] le = refl
  u8-chunks (suc fuel) (b ∷ rest) le =
      rw
        (u8-chunks fuel (drop block_size (b ∷ rest))
          (omega (arith, length-drop block_size (b ∷ rest))))
        (take-append-drop block_size (b ∷ rest))

  read_last :
      (fuel index : ℕ) (rest : List ℕ)
      → read_blocks sha512 hmac base
          (suc fuel)
          index
          (write_block sha512 hmac base index [] ++ rest)
        ≡ ok []
  unfolding read_blocks
  read_last fuel index rest = rw (take_block-write_block index [] rest (omega arith))

  read_blocks-write_blocks :
      (writing reading index : ℕ) (ciphertext rest : List ℕ)
      → length ciphertext ≤ writing
      → length ciphertext < reading
      → read_blocks sha512 hmac base reading index
          (write_blocks sha512 hmac base writing index ciphertext ++ rest)
        ≡ ok (chunks writing ciphertext)
  unfolding write_blocks chunks read_blocks
  read_blocks-write_blocks writing zero index ciphertext rest le lt = absurd (omega arith)
  read_blocks-write_blocks zero (suc reading) index [] rest le lt = read_last reading index rest
  read_blocks-write_blocks zero (suc reading) index (b ∷ ciphertext) rest le lt =
      absurd (omega arith)
  read_blocks-write_blocks (suc writing) (suc reading) index [] rest le lt =
      read_last reading index rest
  read_blocks-write_blocks (suc writing) (suc reading) index (b ∷ ciphertext) rest le lt =
      let chunk = take block_size (b ∷ ciphertext) in
      let left = drop block_size (b ∷ ciphertext) in
      let cut = length-take block_size (b ∷ ciphertext) in
      let dropped = length-drop block_size (b ∷ ciphertext) in
      let later = write_blocks sha512 hmac base writing (index + 1) left in
      let other : (length chunk == 0) ≡ false = ==-zero (length chunk) (omega arith) in
      let ih =
        read_blocks-write_blocks writing reading (index + 1) left rest (omega arith)
          (omega arith) in
      rw (
        append_assoc (write_block sha512 hmac base index chunk) later rest,
        take_block-write_block index chunk (later ++ rest) (omega arith),
        other,
        ih,
      )

  length-write_blocks :
      (fuel index : ℕ) (ciphertext : List ℕ)
      → length ciphertext ≤ fuel
      → length ciphertext ≤ length (write_blocks sha512 hmac base fuel index ciphertext)
  unfolding write_blocks
  length-write_blocks fuel index [] le = omega arith
  length-write_blocks zero index (b ∷ ciphertext) le = absurd (omega arith)
  length-write_blocks (suc fuel) index (b ∷ ciphertext) le =
      let chunk = take block_size (b ∷ ciphertext) in
      let left = drop block_size (b ∷ ciphertext) in
      let cut = length-take block_size (b ∷ ciphertext) in
      let dropped = length-drop block_size (b ∷ ciphertext) in
      omega (
        arith,
        length-append (write_block sha512 hmac base index chunk)
            (write_blocks sha512 hmac base fuel (index + 1) left),
        length-write_block index chunk,
        length-write_blocks fuel (index + 1) left (omega arith),
      )

  pub read_stream-write_stream :
      (ciphertext rest : List ℕ)
      → read_stream sha512 hmac base (write_stream sha512 hmac base ciphertext ++ rest)
        ≡ ok ciphertext
  unfolding read_stream write_stream
  read_stream-write_stream ciphertext rest =
      let written = write_blocks sha512 hmac base (length ciphertext) 0 ciphertext in
      rw (
        read_blocks-write_blocks (length ciphertext) (suc (length (written ++ rest))) 0 ciphertext
            rest (omega arith)
            (omega (
              arith,
              length-append written rest,
              length-write_blocks (length ciphertext) 0 ciphertext (omega arith),
            )),
        u8-chunks (length ciphertext) ciphertext (omega arith),
      )
