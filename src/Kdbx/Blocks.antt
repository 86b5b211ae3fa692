-- ===== src/Kdbx/Blocks.antt =====
-- The block streams: the ciphertext of KDBX 4 in blocks with an HMAC each, which buildKdbx of
-- web/export.js writes and readKdbx4 of web/kdbx-read.js reads, and the hashed blocks of KDBX 3 that
-- readKdbx3 reads. The hash functions of the browser are parameters.
pub mod Genuine
pub mod RoundTrip
use maspassword.Base.{
  ℕ, zero, suc, ◌+◌, ◌^◌, Bool, true, false, not, List, [], ◌∷◌, ◌++◌, length, take, drop, ltb,
  ◌==◌, if◌then◌else◌,
}
use maspassword.Kdbx.{Error, Result, ok, err, ◌>>=◌, u32le, u64le_big, u8, get_u32, same_hex}
use maspassword.Kdbx.Error.{corrupt, thrown}

-- BLOCK.
abbrev pub block_size : ℕ
block_size = 2 ^ 20

-- A block that was read: its length, its bytes and the rest behind it.
abbrev pub Block : Type 0
Block = ℕ × List ℕ × List ℕ

module _ (sha512 : List ℕ → List ℕ) (hmac : List ℕ → List ℕ → List ℕ) (base : List ℕ) where
  unfoldable pub block_mac : ℕ → ℕ → List ℕ → List ℕ
  block_mac index size input =
      hmac (sha512 (u64le_big index ++ base)) (u64le_big index ++ (u32le size ++ input))

  unfoldable pub write_block : ℕ → List ℕ → List ℕ
  write_block index input = block_mac index (length input) input ++ (u32le (length input) ++ input)

  -- The loop, and the block of length 0 behind it. Every turn takes a byte at least.
  unfoldable pub write_blocks : ℕ → ℕ → List ℕ → List ℕ
  write_blocks zero index rest = write_block index []
  write_blocks (suc fuel) index [] = write_block index []
  write_blocks (suc fuel) index (b ∷ rest) =
      write_block index (take block_size (b ∷ rest))
      ++ write_blocks fuel (index + 1) (drop block_size (b ∷ rest))

  unfoldable pub write_stream : List ℕ → List ℕ
  write_stream ciphertext = write_blocks (length ciphertext) 0 ciphertext

  -- The tests on a block, in the order of the source.
  unfoldable pub check_block : ℕ → List ℕ → ℕ → List ℕ → List ℕ → Result Block
  check_block index mac size input rest =
      if not (length input == size)
      then err corrupt
      else if not (same_hex (block_mac index size input) mac)
      then err corrupt
      else ok (size, input, rest)

  unfoldable pub take_block : ℕ → List ℕ → Result Block
  take_block index bytes =
      if ltb (length bytes) 36
      then err corrupt
      else get_u32 (drop 32 bytes) >>= λ size.
          check_block index (take 32 bytes) size (take size (drop 36 bytes))
            (drop (36 + size) bytes)

  -- The chunks up to the block of length 0. Every block takes 36 bytes at least.
  unfoldable pub read_blocks : ℕ → ℕ → List ℕ → Result (List (List ℕ))
  read_blocks zero index bytes = err thrown
  read_blocks (suc fuel) index bytes = take_block index bytes >>= λ b.
      let more = read_blocks fuel (index + 1) b.2 >>= λ chunks. ok (b.1 ∷ chunks) in
      if b.0 == 0 then ok [] else more

  unfoldable pub read_stream : List ℕ → Result (List ℕ)
  read_stream bytes = read_blocks (suc (length bytes)) 0 bytes >>= λ chunks. ok (u8 chunks)

module _ (sha256 : List ℕ → List ℕ) where
  -- A block of KDBX 3: an index that is not read, a hash and a length. A block of length 0 is not
  -- tested.
  unfoldable pub check_hashed : List ℕ → ℕ → List ℕ → List ℕ → Result Block
  check_hashed hash size input rest =
      if size == 0
      then ok (0, [], rest)
      else if not (length input == size)
      then err corrupt
      else if not (same_hex (sha256 input) hash)
      then err corrupt
      else ok (size, input, rest)

  unfoldable pub take_hashed : List ℕ → Result Block
  take_hashed bytes =
      if ltb (length bytes) 40
      then err corrupt
      else get_u32 (drop 36 bytes) >>= λ size.
          check_hashed (take 32 (drop 4 bytes)) size (take size (drop 40 bytes))
            (drop (40 + size) bytes)

  unfoldable pub read_hashed : ℕ → List ℕ → Result (List (List ℕ))
  read_hashed zero bytes = err thrown
  read_hashed (suc fuel) bytes = take_hashed bytes >>= λ b.
      let more = read_hashed fuel b.2 >>= λ chunks. ok (b.1 ∷ chunks) in
      if b.0 == 0 then ok [] else more
