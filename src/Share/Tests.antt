-- ===== src/Share/Tests.antt =====
-- Instances of the theorems on share links. The pair of functions writes each byte as four letters.
use mathlib.Core.Option
use maspassword.Base.{
  ℕ, ◌+◌, ◌-◌, ◌*◌, ◌/◌, ◌%◌, ◌<◌, ◌≡◌, refl, Option, none, some, List, [], ◌∷◌, ◌++◌, append-nil,
  sym, Text, codes, length, drop, All, arith,
}
use maspassword.Share.{bytes_to_base64_url, base64_url_to_bytes, build_share_url, parse_share_hash}
use maspassword.Share.Key.{InAlphabet, Base64Laws, base64_url_to_bytes-bytes_to_base64_url}
use maspassword.Share.Link.{parse_share_hash-build_share_url}

abbrev letters : List ℕ → Text
letters [] = []
letters (b ∷ bytes) = (b'A' + b / 16) ∷ (b'A' + b % 16) ∷ b'A' ∷ b'A' ∷ letters bytes

abbrev from_letters : Text → Option (List ℕ)
from_letters [] = some []
from_letters (x ∷ y ∷ z ∷ w ∷ s) =
    Option.map (λ bytes. ((x - b'A') * 16 + (y - b'A')) ∷ bytes) (from_letters s)
from_letters _ = none

letters_back : (bytes : List ℕ) → from_letters (letters bytes) ≡ some bytes
letters_back [] = refl
letters_back (b ∷ bytes) =
    let same : (b'A' + b / 16 - b'A') * 16 + (b'A' + b % 16 - b'A') ≡ b = omega arith in
    rw (letters_back bytes, same) refl

letters_alphabet : (bytes : List ℕ) → All (λ b. b < 0x100) bytes → All InAlphabet (letters bytes)
letters_alphabet [] h = tt
letters_alphabet (b ∷ bytes) h = (high, (low, (fill, (fill, letters_alphabet bytes h.1))))
  where
    high : InAlphabet (b'A' + b / 16)
    high = (λ e. omega (arith, e), λ e. omega (arith, e), λ e. omega (arith, e, h.0))

    low : InAlphabet (b'A' + b % 16)
    low = (λ e. omega (arith, e), λ e. omega (arith, e), λ e. omega (arith, e))

    fill : InAlphabet b'A'
    fill = (λ e. omega (arith, e), λ e. omega (arith, e), λ e. omega (arith, e))

letters_groups : (bytes : List ℕ) → length (letters bytes) ≡ 4 * length bytes
letters_groups [] = refl
letters_groups (b ∷ bytes) = omega (arith, letters_groups bytes)

letters_laws : Base64Laws letters from_letters
letters_laws = record {
  text = λ bytes h. record {
    body = letters bytes;
    padding = 0;
    parts = sym (append-nil (letters bytes));
    padding_lt = omega arith;
    alphabet = letters_alphabet bytes h;
    groups = omega (arith, letters_groups bytes);
  };
  back = λ bytes h. letters_back bytes;
}

base64_url_to_bytes-bytes_to_base64_url_example :
    base64_url_to_bytes letters from_letters
      (bytes_to_base64_url letters from_letters (255 ∷ 0 ∷ 62 ∷ []))
    ≡ some (255 ∷ 0 ∷ 62 ∷ [])
base64_url_to_bytes-bytes_to_base64_url_example =
    base64_url_to_bytes-bytes_to_base64_url letters from_letters (255 ∷ 0 ∷ 62 ∷ []) letters_laws
      (omega arith)

parse_share_hash-build_share_url_example :
    parse_share_hash (
      drop
        (length (codes "https://x.io" ++ codes "/"))
        (build_share_url (codes "https://x.io") (codes "17") (codes "aB-_")))
    ≡ some (codes "17", codes "aB-_")
parse_share_hash-build_share_url_example =
    parse_share_hash-build_share_url (codes "https://x.io") (codes "17") (codes "aB-_")
      (λ e. ground arith) (λ e. ground arith) refl refl
