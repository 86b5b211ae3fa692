-- ===== src/Kdbx/Container.antt =====
-- The whole container: buildKdbx of web/export.js, and readKdbx4, readKdbx3 and the start of readKdbx of
-- web/kdbx-read.js, up to the XML text. The text of the document is an argument of the writer.
pub mod Derive
pub mod Kdf
pub mod Keys
pub mod Payload
pub mod Read
pub mod Write
pub mod RoundTrip
use maspassword.Base.{ℕ, Bool, Option, List, Text}
use maspassword.Kdbx.{Result}
use maspassword.Kdbx.Header.{Dict}

-- What the code calls of the browser: digests and HMAC, AES-CBC with the key that importKey takes
-- (`none` where decryption fails), the text codec, DecompressionStream, and the conversion of a text to
-- a number. `loose_argon2` is what the function of that name does where a parameter of the file is
-- missing or has another type than the format gives it.
pub record Browser : Type 0 where
  pub sha256 : List ℕ → List ℕ
  pub sha512 : List ℕ → List ℕ
  pub hmac : List ℕ → List ℕ → List ℕ
  pub imports : List ℕ → Bool
  pub encrypt : List ℕ → List ℕ → List ℕ → List ℕ
  pub decrypt : List ℕ → List ℕ → List ℕ → Option (List ℕ)
  pub utf8 : Text → List ℕ
  pub utf8_text : List ℕ → Text
  pub gunzip : List ℕ → Option (List ℕ)
  pub text_number : Text → ℕ
  pub loose_argon2 : ℕ → Dict → List ℕ → Result (List ℕ)
