-- ===== src/Kdbx/Tests.antt =====
-- Runs of the KDBX code, and its theorems at concrete inputs. The browser here has digests that are sums
-- and a cipher that is easy to undo.
use native.Mathlib.Nat.{mod-lt}
use maspassword.Base.{
  ℕ, zero, suc, ◌+◌, ◌*◌, ◌/◌, ◌%◌, ◌<◌, ◌≡◌, refl, ap, ◌∙◌, true, none, some, List, [], ◌∷◌, ◌++◌,
  codes, length, length-replicate, take, drop, replicate, ◌==◌, arith,
}
use maspassword.Kdbx.{ok, err, u8, get_u32, u32le, u64le_big, same_hex}
use maspassword.Kdbx.Error.{unsupported}
use maspassword.Kdbx.Bytes.{Bytes, drop_past}
use maspassword.Kdbx.Header.{parse_header_fields}
use maspassword.Kdbx.Header.RoundTrip.{Ends, parse_header_fields-Ends}
use maspassword.Kdbx.Blocks.{read_stream, block_mac, read_blocks, take_block, check_block}
use maspassword.Kdbx.Blocks.Genuine.{Authentic, read_stream-Authentic}
use maspassword.Kdbx.Stream.{
  fresh, chacha_block, salsa_block, block_byte, count_up, word, repeat, arc4_start, arc4_byte, xor,
}
use maspassword.Kdbx.Stream.Permutation.{IsTable, arc4_permutation}
use maspassword.Kdbx.Stream.Position.{xor_at, xor-fresh}
use maspassword.Kdbx.Container.{Browser}
use maspassword.Kdbx.Container.Derive.{aes_kdf_half}
use maspassword.Kdbx.Container.Kdf.{IsCbc, aes_kdf_half-repeat}
use maspassword.Kdbx.Container.Write.{Seeds, document_stream, build_kdbx}
use maspassword.Kdbx.Container.Read.{open_kdbx}
use maspassword.Kdbx.Container.Keys.{Laws, AreSized}
use maspassword.Kdbx.Container.RoundTrip.{open_kdbx-build_kdbx}

-- The key stream block of RFC 8439, 2.3.2.
chacha_runs :
    take 16 (chacha_block (count_up 32 0) 1 (0 ∷ 0 ∷ 0 ∷ 9 ∷ 0 ∷ 0 ∷ 0 ∷ 0x4a ∷ 0 ∷ 0 ∷ 0 ∷ 0 ∷ []))
    ≡ 0x10 ∷ 0xf1 ∷ 0xe7 ∷ 0xe4 ∷ 0xd1 ∷ 0x3b ∷ 0x59 ∷ 0x15 ∷ 0x50 ∷ 0x0f ∷ 0xdd ∷ 0x1f ∷ 0xa3
      ∷ 0x20 ∷ 0x71 ∷ 0xc4 ∷ []
unfolding chacha_block
chacha_runs = refl

salsa_runs :
    take 8 (salsa_block (count_up 32 0) 0x100000007)
    ≡ 0xa3 ∷ 0x7a ∷ 0xeb ∷ 0x64 ∷ 0x28 ∷ 0xc4 ∷ 0x49 ∷ 0x6b ∷ []
unfolding salsa_block
salsa_runs = refl

arc4_runs :
    (xor arc4_byte (arc4_start (b'K' ∷ b'e' ∷ b'y' ∷ [])) (0 ∷ 0 ∷ 0 ∷ 0 ∷ 0 ∷ 0 ∷ [])).0
    ≡ 0xeb ∷ 0x9f ∷ 0x77 ∷ 0x81 ∷ 0xb7 ∷ 0x34 ∷ []
unfolding xor arc4_byte arc4_start
arc4_runs = refl

arc4_permutation_example : IsTable (xor arc4_byte (arc4_start (1 ∷ 2 ∷ [])) (5 ∷ 6 ∷ 7 ∷ [])).1
arc4_permutation_example = arc4_permutation (1 ∷ 2 ∷ []) (5 ∷ 6 ∷ 7 ∷ [])

xor-fresh_example :
    (xor (block_byte (salsa_block (count_up 32 0))) fresh (5 ∷ 6 ∷ 7 ∷ [])).0
    ≡ xor_at (salsa_block (count_up 32 0)) 0 (5 ∷ 6 ∷ 7 ∷ [])
xor-fresh_example = xor-fresh (salsa_block (count_up 32 0)) (5 ∷ 6 ∷ 7 ∷ [])

-- A header of two fields, and one that is cut off.
abbrev short_header : List ℕ
short_header = 2 ∷ 1 ∷ 0 ∷ 0 ∷ 0 ∷ 9 ∷ 0 ∷ 0 ∷ 0 ∷ 0 ∷ 0 ∷ []

parse_header_fields-Ends_example : Ends short_header (parse_header_fields true short_header)
parse_header_fields-Ends_example = parse_header_fields-Ends true short_header

-- Digests.
sum : List ℕ → ℕ
sum [] = 0
sum (b ∷ bytes) = b + sum bytes

abbrev digest : ℕ → List ℕ → List ℕ
digest n input = replicate n (sum input % 256)

abbrev mac : List ℕ → List ℕ → List ℕ
mac key input = digest 32 (key ++ input)

replicate-Bytes : (n b : ℕ) → b < 256 → Bytes (replicate n b)
replicate-Bytes zero b h = tt
replicate-Bytes (suc n) b h = (h, replicate-Bytes n b h)

abbrev base_key : List ℕ
base_key = 1 ∷ 2 ∷ 3 ∷ []

-- Two bytes in a block, and the last block.
abbrev stream_bytes : List ℕ
stream_bytes =
    replicate 32 147 ++ (2 ∷ 0 ∷ 0 ∷ 0 ∷ 8 ∷ 9 ∷ (replicate 32 193 ++ (0 ∷ 0 ∷ 0 ∷ 0 ∷ [])))

read_stream_runs : read_stream (digest 64) mac base_key stream_bytes ≡ ok (8 ∷ 9 ∷ [])
unfolding read_stream read_blocks take_block check_block block_mac sum u8 get_u32 u32le u64le_big
    same_hex
read_stream_runs = refl

read_stream-Authentic_example :
    Authentic
      (digest 64)
      mac
      (λ key input. replicate-Bytes 32 _ (mod-lt _ (omega arith)))
      base_key
      stream_bytes
      (read_stream (digest 64) mac base_key stream_bytes)
read_stream-Authentic_example =
    read_stream-Authentic (digest 64) mac
      (λ key input. replicate-Bytes 32 _ (mod-lt _ (omega arith))) base_key stream_bytes
      (omega arith)

-- AES that adds to the first byte, in CBC over zeros.
abbrev toy_aes : List ℕ → List ℕ → List ℕ
toy_aes key block = replicate 16 (word block 0 + word key 0)

chain : ℕ → List ℕ → List ℕ → List ℕ
chain zero key x = []
chain (suc n) key x = toy_aes key x ++ chain n key (toy_aes key x)

chain_block :
    (n i : ℕ) (key x : List ℕ)
    → i < n
    → take 16 (drop (i * 16) (chain n key x)) ≡ repeat (suc i) (toy_aes key) x
unfolding chain
chain_block zero i key x h = absurd (omega arith)
chain_block (suc n) zero key x h = refl
chain_block (suc n) (suc i) key x h =
    ap (take 16)
      (drop_past (suc i * 16) (i * 16) (toy_aes key x) (chain n key (toy_aes key x)) (omega arith))
    ∙ chain_block n i key (toy_aes key x) (omega arith)

abbrev browser : Browser
browser = record {
  sha256 = digest 32;
  sha512 = digest 64;
  hmac = mac;
  imports = λ key. length key == 32;
  encrypt = λ key iv input. 7 ∷ input;
  decrypt = λ key iv input. some (drop 1 input);
  utf8 = λ s. s;
  utf8_text = λ bytes. bytes;
  gunzip = λ bytes. none;
  text_number = λ s. 0;
  loose_argon2 = λ variant params key. err unsupported;
}

browser-Laws : Laws browser
browser-Laws = record {
  sha256_size = λ input. refl;
  hmac_size = λ key input. refl;
  takes_256_bits = λ key h. ground arith;
  decrypts = λ key iv input. refl;
  utf8_ascii = λ s h. refl;
  text_ascii = λ s h. refl;
}

abbrev seeds : Seeds
seeds = record {
  master = replicate 32 1;
  iv = replicate 16 2;
  kdf = replicate 32 3;
  inner = replicate 64 4;
}

seeds-AreSized : AreSized seeds
seeds-AreSized = record { master_size = refl; iv_size = refl; kdf_size = refl; inner_size = refl }

open_kdbx-build_kdbx_example :
    open_kdbx browser
      (build_kdbx browser seeds 3 (λ s. codes "<KeePassFile/>") (codes "pw"))
      (codes "pw")
    ≡ ok (record {
      xml = codes "<KeePassFile/>";
      stream = document_stream browser seeds 3;
      binaries = 0;
      header_bytes = none;
    })
open_kdbx-build_kdbx_example =
    open_kdbx-build_kdbx browser browser-Laws seeds seeds-AreSized 3 (omega arith)
      (λ s. codes "<KeePassFile/>") (codes "pw")

abbrev cbc_browser : Browser
cbc_browser = record browser { encrypt = λ key iv input. chain (length input / 16) key iv }

cbc_browser-IsCbc : IsCbc cbc_browser toy_aes
cbc_browser-IsCbc = record {
  aes_size = λ key block. refl;
  over_zeros = λ key iv blocks i h lt. zeros key iv blocks i lt;
}
  where
    zeros :
        (key iv : List ℕ) (blocks i : ℕ)
        → i < blocks
        → take 16 (drop (i * 16) (chain (length (replicate {A = ℕ} (blocks * 16) 0) / 16) key iv))
          ≡ repeat (suc i) (toy_aes key) iv
    zeros key iv blocks i lt =
        let n : length (replicate {A = ℕ} (blocks * 16) 0) / 16 ≡ blocks =
          omega (arith, length-replicate {A = ℕ} (blocks * 16) 0) in
        ap (λ k. take 16 (drop (i * 16) (chain k key iv))) n ∙ chain_block blocks i key iv lt

aes_kdf_half-repeat_example :
    aes_kdf_half cbc_browser 5 (9 ∷ []) (replicate 16 1) 5
    ≡ repeat 5 (toy_aes (9 ∷ [])) (replicate 16 1)
aes_kdf_half-repeat_example =
    aes_kdf_half-repeat cbc_browser toy_aes cbc_browser-IsCbc (9 ∷ []) 5 5 (replicate 16 1) refl
      (omega arith)
