-- ===== src/Kdbx.antt =====
-- The KDBX container: the byte writers of web/export.js and the readers of web/kdbx-read.js. A position
-- in a byte array is the rest of the array from there on. Every number written is below 2^32 or 2^64,
-- as in the source, and is reduced to its width.
pub mod Bytes
pub mod Header
pub mod Blocks
pub mod Container
pub mod Entries
pub mod Xml
pub mod Document
pub mod Stream
mod Tests
use maspassword.Base.{
  ℕ, zero, suc, ◌+◌, ◌*◌, ◌/◌, ◌%◌, ◌^◌, Bool, true, false, Option, none, some, List, [], ◌∷◌, ◌++◌,
  Text, leb, if◌then◌else◌, same_text,
}
use maspassword.Blake2b.Context.{hex_byte}

-- The codes of kdbxError, and `thrown` for any other exception.
pub data Error : Type 0 where
  not_kdbx bad_password unsupported corrupt thrown : Error

pub data Result {ℓ} (A : Type ℓ) : Type ℓ where
  ok : A → Result A
  err : Error → Result A

infixl 5 ◌>>=◌
abbrev pub ◌>>=◌ {ℓ κ} : {A : Type ℓ} {B : Type κ} → Result A → (A → Result B) → Result B
ok a >>= f = f a
err e >>= f = err e

-- u32le and le32.
unfoldable pub u32le : ℕ → List ℕ
u32le n = (n % 256) ∷ (n / 256 % 256) ∷ (n / 65536 % 256) ∷ (n / 16777216 % 256) ∷ []

-- u64le of two halves, and u64leBig of one number.
unfoldable pub u64le : ℕ → ℕ → List ℕ
unfolding u32le
u64le lo hi = u32le lo ++ u32le hi

unfoldable pub u64le_big : ℕ → List ℕ
unfolding u32le
u64le_big n = u32le n ++ u32le (n / 4294967296)

-- `u8(...parts)` and `u8cat(...parts)`.
pub u8 : List (List ℕ) → List ℕ
u8 [] = []
u8 (p ∷ parts) = p ++ u8 parts

-- `dv.getUint16(pos, true)`, `dv.getUint32(pos, true)` and `dv.getBigUint64(pos, true)`, which throw
-- past the end.
unfoldable pub get_u16 : List ℕ → Result ℕ
get_u16 (a ∷ b ∷ rest) = ok (b * 256 + a)
get_u16 _ = err thrown

unfoldable pub get_u32 : List ℕ → Result ℕ
get_u32 (a ∷ b ∷ c ∷ d ∷ rest) = ok (((d * 256 + c) * 256 + b) * 256 + a)
get_u32 _ = err thrown

unfoldable pub get_u64 : List ℕ → Result ℕ
get_u64 (a ∷ b ∷ c ∷ d ∷ e ∷ f ∷ g ∷ h ∷ rest) =
    ok (((((((h * 256 + g) * 256 + f) * 256 + e) * 256 + d) * 256 + c) * 256 + b) * 256 + a)
get_u64 _ = err thrown

-- bytesHex, and a comparison of two byte arrays by it.
pub bytes_hex : List ℕ → Text
bytes_hex [] = []
bytes_hex (b ∷ bytes) = hex_byte b ++ bytes_hex bytes

unfoldable pub same_hex : List ℕ → List ℕ → Bool
unfolding bytes_hex
same_hex a b = same_text (bytes_hex a) (bytes_hex b)
