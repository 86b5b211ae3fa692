-- ===== src/Share.antt =====
-- web/sharelink.js: the texts of a share link. `btoa` and `atob` of the browser are parameters; `none`
-- is an exception of `atob`. Encryption is the browser's and is not modelled.
pub mod Key
pub mod Link
mod Tests
use maspassword.Base.{
  ℕ, zero, suc, ◌+◌, ◌%◌, Bool, true, false, Option, none, some, List, [], ◌∷◌, ◌++◌, map, Text,
  codes, length, take, drop, ◌==◌, if◌then◌else◌, starts_with, split,
}

-- CHUNK, and the loop over chunks of it: bytes and the text of their code units are the same list.
abbrev pub chunk_size : ℕ
chunk_size = 0x8000

unfoldable pub binary_of : ℕ → List ℕ → Text
binary_of zero bytes = []
binary_of (suc fuel) [] = []
binary_of (suc fuel) (b ∷ bytes) =
    take chunk_size (b ∷ bytes) ++ binary_of fuel (drop chunk_size (b ∷ bytes))

-- `s.replace(/a/g, b)` for two code units.
abbrev pub replace_all : ℕ → ℕ → Text → Text
replace_all a b s = map (λ c. if c == a then b else c) s

abbrev pub cons_unless_end : ℕ → Text → Text
cons_unless_end c [] = if c == b'=' then [] else c ∷ []
cons_unless_end c (d ∷ s) = c ∷ d ∷ s

-- `s.replace(/=+$/, '')`
pub strip_padding : Text → Text
strip_padding [] = []
strip_padding (c ∷ s) = cons_unless_end c (strip_padding s)

-- `while (b64.length % 4 !== 0) b64 += '='`; three turns are enough.
pub pad_base64 : ℕ → Text → Text
pad_base64 zero s = s
pad_base64 (suc fuel) s =
    let longer = pad_base64 fuel (s ++ b'=' ∷ []) in if length s % 4 == 0 then s else longer

module _ (btoa : List ℕ → Text) (atob : Text → Option (List ℕ)) where
  unfoldable pub bytes_to_base64 : List ℕ → Text
  unfolding binary_of
  bytes_to_base64 bytes = btoa (binary_of (length bytes) bytes)

  unfoldable pub bytes_to_base64_url : List ℕ → Text
  unfolding bytes_to_base64 strip_padding
  bytes_to_base64_url bytes =
      strip_padding (replace_all b'/' b'_' (replace_all b'+' b'-' (bytes_to_base64 bytes)))

  unfoldable pub base64_url_to_bytes : Text → Option (List ℕ)
  unfolding pad_base64
  base64_url_to_bytes s = atob (pad_base64 3 (replace_all b'_' b'/' (replace_all b'-' b'+' s)))

unfoldable pub build_share_url : Text → Text → Text → Text
build_share_url origin id key = origin ++ (codes "/#/share/" ++ (id ++ (codes "/" ++ key)))

-- The two groups of the match: two parts between slashes, neither empty.
abbrev pub two_parts : List Text → Option (Text × Text)
two_parts ((a ∷ id) ∷ (b ∷ key) ∷ []) = some (a ∷ id, b ∷ key)
two_parts _ = none

unfoldable pub parse_share_hash : Text → Option (Text × Text)
parse_share_hash hash =
    if starts_with (codes "#/share/") hash then two_parts (split b'/' (drop 8 hash)) else none
