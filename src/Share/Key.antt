-- ===== src/Share/Key.antt =====
-- The key of a share link is read back from its base64url text.
use maspassword.Base.{
  ℕ, zero, suc, ◌+◌, ◌%◌, ◌<◌, ◌≤◌, true, false, ◌≡◌, ◌≢◌, refl, sym, ap, ◌∙◌, Option, some, List,
  [], ◌∷◌, ◌++◌, append_assoc, append-nil, Text, length, length-append, length-replicate, replicate,
  take, drop, take-append-drop, length-drop, ◌==◌, if◌then◌else◌, All, arith,
}
use maspassword.Share.{
  chunk_size, binary_of, replace_all, cons_unless_end, strip_padding, pad_base64, bytes_to_base64,
  bytes_to_base64_url, base64_url_to_bytes,
}

abbrev pub InAlphabet : ℕ → Type 0
InAlphabet c = (c ≢ b'=') × (c ≢ b'-') × (c ≢ b'_')

-- A text of base64: code units other than `=`, `-` and `_`, and up to two `=` that fill a group of
-- four.
pub record IsBase64 (s : Text) : Type 0 where
  pub body : Text
  pub padding : ℕ
  pub parts : s ≡ body ++ replicate padding b'='
  pub padding_lt : padding < 3
  pub alphabet : All InAlphabet body
  pub groups : length s % 4 ≡ 0

-- What the browser's functions do on bytes.
pub record Base64Laws (btoa : List ℕ → Text) (atob : Text → Option (List ℕ)) : Type 0 where
  pub text : (bytes : List ℕ) → All (λ b. b < 0x100) bytes → IsBase64 (btoa bytes)
  pub back : (bytes : List ℕ) → All (λ b. b < 0x100) bytes → atob (btoa bytes) ≡ some bytes

-- The chunks are the bytes.
binary_of_chunks : (fuel : ℕ) (bytes : List ℕ) → length bytes ≤ fuel → binary_of fuel bytes ≡ bytes
unfolding binary_of
binary_of_chunks zero [] h = refl
binary_of_chunks zero (b ∷ bytes) h = absurd (omega arith)
binary_of_chunks (suc fuel) [] h = refl
binary_of_chunks (suc fuel) (b ∷ bytes) h =
    ap (λ t. take chunk_size (b ∷ bytes) ++ t)
      (binary_of_chunks fuel (drop chunk_size (b ∷ bytes))
        (omega (arith, length-drop chunk_size (b ∷ bytes))))
    ∙ take-append-drop chunk_size (b ∷ bytes)

pad-fills :
    (fuel k : ℕ) (s : Text)
    → k ≤ fuel
    → k < 4
    → (length s + k) % 4 ≡ 0
    → pad_base64 fuel s ≡ s ++ replicate k b'='
unfolding pad_base64
pad-fills zero zero s h lt e = sym (append-nil s)
pad-fills zero (suc k) s h lt e = absurd (omega arith)
pad-fills (suc fuel) zero s h lt e =
    let full : (length s % 4 == 0) ≡ true = ground arith in rw full (sym (append-nil s))
pad-fills (suc fuel) (suc k) s h lt e =
    let not_full : (length s % 4 == 0) ≡ false = ground arith in
    rw not_full (
      pad-fills fuel k (s ++ b'=' ∷ []) (omega arith) (omega arith)
        (omega (arith, length-append s (b'=' ∷ [])))
      ∙ append_assoc s (b'=' ∷ []) (replicate k b'='))

-- The two replacements, and back.
abbrev url_safe : Text → Text
url_safe s = replace_all b'/' b'_' (replace_all b'+' b'-' s)

abbrev url_unsafe : Text → Text
url_unsafe s = replace_all b'_' b'/' (replace_all b'-' b'+' s)

abbrev safe : ℕ → ℕ
safe c = let d : ℕ = if c == b'+' then b'-' else c in if d == b'/' then b'_' else d

keep : (c : ℕ) (s : Text) → c ≢ b'=' → cons_unless_end c s ≡ c ∷ s
keep c [] h = let other : (c == b'=') ≡ false = ground arith in rw other refl
keep c (d ∷ s) h = refl

strip_all : (k : ℕ) → strip_padding (url_safe (replicate k b'=')) ≡ []
unfolding strip_padding
strip_all zero = refl
strip_all (suc k) = rw (strip_all k) refl

safe-ne : (c : ℕ) → c ≢ b'=' → safe c ≢ b'='
safe-ne c h e = ground arith

strip_padding-url_safe :
    (body : Text) (k : ℕ)
    → All InAlphabet body
    → strip_padding (url_safe (body ++ replicate k b'=')) ≡ url_safe body
unfolding strip_padding
strip_padding-url_safe [] k h = strip_all k
strip_padding-url_safe (c ∷ body) k h =
    ap (cons_unless_end (safe c)) (strip_padding-url_safe body k h.1)
    ∙ keep (safe c) (url_safe body) (safe-ne c h.0.0)

url_unsafe-url_safe : (body : Text) → All InAlphabet body → url_unsafe (url_safe body) ≡ body
url_unsafe-url_safe [] h = refl
url_unsafe-url_safe (c ∷ body) h = λ i. same i ∷ url_unsafe-url_safe body h.1 i
  where
    same :
        (let d : ℕ = if safe c == b'-' then b'+' else safe c in if d == b'_' then b'/' else d) ≡ c
    same = ground (arith, h.0)

-- base64UrlToBytes gives back the bytes that bytesToBase64Url wrote, for functions `btoa` and `atob`
-- that write base64 with padding and read it back.
pub base64_url_to_bytes-bytes_to_base64_url :
    (btoa : List ℕ → Text) (atob : Text → Option (List ℕ)) (bytes : List ℕ)
    → Base64Laws btoa atob
    → All (λ b. b < 0x100) bytes
    → base64_url_to_bytes btoa atob (bytes_to_base64_url btoa atob bytes) ≡ some bytes
unfolding bytes_to_base64_url base64_url_to_bytes bytes_to_base64
base64_url_to_bytes-bytes_to_base64_url btoa atob bytes laws small =
    ap (λ t. atob (pad_base64 3 (url_unsafe (strip_padding (url_safe (btoa t))))))
      (binary_of_chunks (length bytes) bytes (omega arith))
    ∙ ap (λ t. atob (pad_base64 3 (url_unsafe (strip_padding (url_safe t))))) text.parts
    ∙ ap (λ t. atob (pad_base64 3 (url_unsafe t)))
        (strip_padding-url_safe text.body text.padding text.alphabet)
    ∙ ap (λ t. atob (pad_base64 3 t)) (url_unsafe-url_safe text.body text.alphabet)
    ∙ ap atob (
        pad-fills 3 text.padding text.body (omega (arith, text.padding_lt))
          (omega (arith, text.padding_lt)) whole)
    ∙ ap atob (sym text.parts)
    ∙ laws.back bytes small
  where
    text : IsBase64 (btoa bytes)
    text = laws.text bytes small

    whole : (length text.body + text.padding) % 4 ≡ 0
    whole = omega (
      arith,
      text.groups,
      ap length text.parts,
      length-append text.body (replicate text.padding b'='),
      length-replicate {A = ℕ} text.padding b'=',
    )
