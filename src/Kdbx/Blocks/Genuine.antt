-- ===== src/Kdbx/Blocks/Genuine.antt =====
-- What readKdbx4 accepts as a block stream was made with the key: its blocks stand in their order, none
-- changed, left out or added.
use maspassword.Base.{
  ℕ, zero, suc, ◌+◌, ◌<◌, ◌≤◌, ◌≡◌, refl, sym, ◌∙◌, ap, inl, inr, true, List, [], ◌∷◌, ◌++◌,
  append_assoc, length, length-drop, take, drop, take-append-drop, ltb, ◌==◌, ==_iff, if◌then◌else◌,
  Bool-cases, arith,
}
use maspassword.Kdbx.{Result, ok, err, ◌>>=◌, u32le, u8, same_hex}
use maspassword.Kdbx.Error.{corrupt}
use maspassword.Kdbx.Bytes.{Bytes, drop-drop, drop-Bytes, take-Bytes, u32le-get_u32, same_hex_iff}
use maspassword.Kdbx.Blocks.{
  Block, block_mac, write_block, check_block, take_block, read_blocks, read_stream,
}

module _ (sha512 : List ℕ → List ℕ) (hmac : List ℕ → List ℕ → List ℕ)
    (hmac-Bytes : (key input : List ℕ) → Bytes (hmac key input)) (base : List ℕ) where
  -- A block that passes is the one that the writer makes of its bytes.
  abbrev Passed : ℕ → List ℕ → Result Block → Type 0
  Passed index bytes (ok b) =
      (b.0 ≡ length b.1)
      × (bytes ≡ write_block sha512 hmac base index b.1 ++ b.2)
      × Bytes b.2
      × (length b.2 + 36 ≤ length bytes)
  Passed index bytes (err e) = e ≡ corrupt

  check_block-Passed :
      (index : ℕ) (mac : List ℕ) (size : ℕ) (input rest bytes : List ℕ)
      → Bytes mac
      → Bytes rest
      → bytes ≡ mac ++ (u32le size ++ (input ++ rest))
      → length rest + 36 ≤ length bytes
      → Passed index bytes (check_block sha512 hmac base index mac size input rest)
  unfolding check_block
  check_block-Passed index mac size input rest bytes hm hr e shorter =
      elim (Bool-cases (length input == size)) [
        | inr short ↦ rw short refl
        | inl full ↦
            rw full
              (elim (Bool-cases (same_hex (block_mac sha512 hmac base index size input) mac)) [
                | inr other ↦ rw other refl
                | inl same ↦ rw same (passes full same)
              ])
      ]
    where
      passes :
          (length input == size) ≡ true
          → same_hex (block_mac sha512 hmac base index size input) mac ≡ true
          → Passed index bytes (ok (size, input, rest))
      passes full same =
          let long : length input ≡ size = (==_iff (length input) size).0 full in
          let computed = block_mac sha512 hmac base index size input in
          let agree : computed ≡ mac =
            (same_hex_iff computed mac (unfold block_mac in hmac-Bytes _ _) hm).0 same in
          let regroup : (m head : List ℕ)
              → m ++ (head ++ (input ++ rest)) ≡ (m ++ (head ++ input)) ++ rest =
            λ m head. simp append_assoc in
          (
            sym long,
            e
                ∙ (ap (λ m. m ++ (u32le size ++ (input ++ rest))) (sym agree)
                    ∙ (ap
                          (λ s.
                            block_mac sha512 hmac base index s input
                            ++ (u32le s ++ (input ++ rest)))
                          (sym long)
                        ∙ (unfold write_block in
                            regroup (block_mac sha512 hmac base index (length input) input)
                              (u32le (length input))))),
            hr,
            shorter,
          )

  take_block-Passed :
      (index : ℕ) (bytes : List ℕ)
      → Bytes bytes
      → Passed index bytes (take_block sha512 hmac base index bytes)
  unfolding take_block
  take_block-Passed index bytes h = elim (Bool-cases (ltb (length bytes) 36)) [
    | inl short ↦ rw short refl
    | inr long ↦
        let enough : 36 ≤ length bytes = ground arith in
        let (n, read, four) =
          u32le-get_u32 (drop 32 bytes) (drop-Bytes 32 bytes h)
            (omega (arith, enough, length-drop 32 bytes)) in
        rw (long, read)
          (check_block-Passed index (take 32 bytes) n (take n (drop 36 bytes)) (drop (36 + n) bytes)
            bytes (take-Bytes 32 bytes h) (drop-Bytes (36 + n) bytes h) (parts n four)
            (shorter n enough))
  ]
    where
      shorter : (n : ℕ) → 36 ≤ length bytes → length (drop (36 + n) bytes) + 36 ≤ length bytes
      shorter n enough = omega (arith, length-drop (36 + n) bytes)

      parts :
          (n : ℕ)
          → drop 32 bytes ≡ u32le n ++ drop 4 (drop 32 bytes)
          → bytes ≡ take 32 bytes ++ (u32le n ++ (take n (drop 36 bytes) ++ drop (36 + n) bytes))
      parts n four =
          rw
            (
              drop-drop 36 n (36 + n) bytes refl,
              take-append-drop n (drop 36 bytes),
              drop-drop 32 4 36 bytes refl,
              ← four,
              take-append-drop 32 bytes,
            )
            refl

  -- The stream of these chunks.
  abbrev pub sealed : ℕ → List (List ℕ) → List ℕ
  sealed index [] = write_block sha512 hmac base index []
  sealed index (c ∷ chunks) = write_block sha512 hmac base index c ++ sealed (index + 1) chunks

  abbrev pub Sealed : ℕ → List ℕ → Result (List (List ℕ)) → Type 0
  Sealed index bytes (ok chunks) = (rest : List ℕ) × (bytes ≡ sealed index chunks ++ rest)
  Sealed index bytes (err e) = e ≡ corrupt

  empty : (xs : List ℕ) → length xs ≡ 0 → xs ≡ []
  empty [] e = refl
  empty (x ∷ xs) e = absurd (omega arith)

  read_blocks-Sealed :
      (fuel index : ℕ) (bytes : List ℕ)
      → Bytes bytes
      → length bytes < fuel
      → Sealed index bytes (read_blocks sha512 hmac base fuel index bytes)
  unfolding read_blocks
  read_blocks-Sealed zero index bytes h lt = absurd (omega arith)
  read_blocks-Sealed (suc fuel) index bytes h lt =
      go (take_block sha512 hmac base index bytes) (take_block-Passed index bytes h)
        (λ rest hr shorter. read_blocks-Sealed fuel (index + 1) rest hr (omega arith))
    where
      add :
          (b : Block)
          → bytes ≡ write_block sha512 hmac base index b.1 ++ b.2
          → (r : Result (List (List ℕ))) → Sealed (index + 1) b.2 r
          → Sealed index bytes (r >>= λ chunks. ok (b.1 ∷ chunks))
      add b e (err f) s = s
      add b e (ok chunks) (rest, s) = (
        rest,
        e
            ∙ (ap (λ t. write_block sha512 hmac base index b.1 ++ t) s
                ∙ sym (
                    append_assoc (write_block sha512 hmac base index b.1)
                      (sealed (index + 1) chunks) rest)),
      )

      go :
          (r : Result Block)
          → Passed index bytes r
          → ((rest : List ℕ)
              → Bytes rest
              → length rest + 36 ≤ length bytes
              → Sealed (index + 1) rest (read_blocks sha512 hmac base fuel (index + 1) rest))
          → Sealed index bytes (
              r >>= λ b.
              let more =
                read_blocks sha512 hmac base fuel (index + 1) b.2 >>= λ chunks. ok (b.1 ∷ chunks) in
              if b.0 == 0 then ok [] else more)
      go (err f) p more = p
      go (ok b) (size, e, hr, shorter) more = elim (Bool-cases (b.0 == 0)) [
        | inl last ↦
            let none_left : b.1 ≡ [] = empty b.1 (ground arith) in
            rw last (b.2, e ∙ ap (λ t. write_block sha512 hmac base index t ++ b.2) none_left)
        | inr other ↦
            rw other
              (add b e (read_blocks sha512 hmac base fuel (index + 1) b.2) (more b.2 hr shorter))
      ]

  -- A stream that is accepted.
  abbrev pub Authentic : List ℕ → Result (List ℕ) → Type 0
  Authentic bytes (ok content) =
      (chunks : List (List ℕ)) × (rest : List ℕ) × (bytes ≡ sealed 0 chunks ++ rest)
      × (content ≡ u8 chunks)
  Authentic bytes (err e) = e ≡ corrupt

  pub read_stream-Authentic :
      (bytes : List ℕ) → Bytes bytes → Authentic bytes (read_stream sha512 hmac base bytes)
  unfolding read_stream
  read_stream-Authentic bytes h =
      go (read_blocks sha512 hmac base (suc (length bytes)) 0 bytes)
        (read_blocks-Sealed (suc (length bytes)) 0 bytes h (omega arith))
    where
      go :
          (r : Result (List (List ℕ)))
          → Sealed 0 bytes r
          → Authentic bytes (r >>= λ chunks. ok (u8 chunks))
      go (err f) s = s
      go (ok chunks) (rest, s) = (chunks, rest, s, refl)
