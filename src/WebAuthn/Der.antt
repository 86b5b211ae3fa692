-- ===== src/WebAuthn/Der.antt =====
-- rawSigToDer of extension/webauthn.js: the two numbers of a signature as DER integers.
use maspassword.Base.{
  ℕ, suc, ◌+◌, ◌*◌, ◌/◌, ◌%◌, zero, ◌^◌, ◌<◌, ◌≤◌, ◌≡◌, ◌≢◌, ◌⊎◌, inl, inr, refl, sym, ap, ◌∙◌,
  true, not, ◌&&◌, ltb, leb, append-nil, Option, none, some, List, [], ◌∷◌, ◌++◌, length,
  length-append, length-take, length-drop, take, drop, ◌==◌, if◌then◌else◌, Bool-cases, arith,
}
use Prim.Native.Nat.{bit_and}
use native.Mathlib.Nat.{div-div-eq-div-mul, pow-suc}
use maspassword.Base.Bits.{bit_and-ActsBy, bit_and_mask}
use maspassword.Kdbx.Bytes.{Bytes, take-Bytes, drop-Bytes, take-append, drop-append}
use maspassword.WebAuthn.Cbor.{and_then}
use maspassword.WebAuthn.{skip_zeros, sign_bit, der_integer, raw_sig_to_der}

-- The number that bytes write, the first the highest.
unfoldable pub big_endian : List ℕ → ℕ
big_endian [] = 0
big_endian (b ∷ bs) = b * 256 ^ length bs + big_endian bs

-- The content of a DER integer that is not negative, as short as it can be.
abbrev pub IsMinimal : List ℕ → Type 0
IsMinimal [] = 1 ≤ 0
IsMinimal (b ∷ []) = b < 128
IsMinimal (b ∷ c ∷ rest) = (b < 128) × ((0 < b) ⊎ (128 ≤ c))

half_bit : (a m : ℕ) → bit_and a (2 * m) ≡ bit_and (a / 2) m * 2
half_bit a m =
    let half : 2 * m / 2 ≡ m = omega arith in
    omega (arith, bit_and-ActsBy a (2 * m), ap (bit_and (a / 2)) half)

-- A power of two as a mask takes one digit.
digit : (k a : ℕ) → bit_and a (2 ^ k) ≡ a / 2 ^ k % 2 * 2 ^ k
digit zero a = omega (arith, bit_and_mask 1 a)
digit (suc k) a =
    ap (bit_and a) (twice k)
    ∙ half_bit a (2 ^ k)
    ∙ ap (λ t. t * 2) (digit k (a / 2))
    ∙ ap (λ t. t % 2 * 2 ^ k * 2) (div-div-eq-div-mul a 2 (2 ^ k))
    ∙ ap (λ t. a / t % 2 * 2 ^ k * 2) (sym (twice k))
    ∙ scaled (a / 2 ^ suc k % 2)
  where
    twice : (k : ℕ) → 2 ^ suc k ≡ 2 * 2 ^ k
    twice k = omega (arith, pow-suc 2 k)

    scaled : (t : ℕ) → t * 2 ^ k * 2 ≡ t * 2 ^ suc k
    scaled t = grind (arith, pow-suc 2 k)

high_bit : (b : ℕ) → b < 256 → bit_and b 0x80 ≡ b / 128 * 128
high_bit b lt = omega (arith, digit 7 b, lt)

-- What is left of bytes without the zeros before them.
record Skipped (b v : List ℕ) : Type 0 where
  same : big_endian v ≡ big_endian b
  are_bytes : Bytes v
  shorter : length v ≤ length b
  some_left : 0 < length v
  no_zero : (first second : ℕ) (rest : List ℕ) → v ≡ first ∷ second ∷ rest → 0 < first

leading_zero : (x n k : ℕ) → x ≡ 0 → k ≡ x * 256 ^ n + k
leading_zero x n k e =
    let none : x * 256 ^ n ≡ 0 * 256 ^ n = ap (λ t. t * 256 ^ n) e in omega (arith, none)

skipped : (b : List ℕ) → Bytes b → 0 < length b → Skipped b (skip_zeros b)
unfolding big_endian
skipped [] h lt = absurd (omega arith)
skipped (x ∷ []) h lt = record {
  same = refl;
  are_bytes = h;
  shorter = omega arith;
  some_left = omega arith;
  no_zero = λ a b rest e. cc;
}
skipped (x ∷ y ∷ rest) h lt = elim (Bool-cases (x == 0)) [
  | inl zero_byte ↦
      let s = skipped (y ∷ rest) h.1 (omega arith) in
      let none : x ≡ 0 = ground arith in
      rw zero_byte (record {
        same = s.same ∙ leading_zero x (suc (length rest)) (big_endian (y ∷ rest)) none;
        are_bytes = s.are_bytes;
        shorter = omega (arith, s.shorter);
        some_left = s.some_left;
        no_zero = s.no_zero;
      })
  | inr other ↦ rw other (record {
    same = refl;
    are_bytes = h;
    shorter = omega arith;
    some_left = omega arith;
    no_zero = λ a b t e. ground (arith, other);
  })
]

-- The content of an integer: a zero stands before a first byte that would read as a sign.
abbrev content : List ℕ → List ℕ
content b = let v = skip_zeros b in if sign_bit v then 0 ∷ v else v

content-IsMinimal :
    (b v : List ℕ)
    → Skipped b v
    → let w = if sign_bit v then 0 ∷ v else v in
      IsMinimal w × (big_endian w ≡ big_endian b) × (length w ≤ suc (length b))
unfolding big_endian
content-IsMinimal b [] s = absurd (omega (arith, s.some_left))
content-IsMinimal b (x ∷ v) s = elim (Bool-cases (not (bit_and x 0x80 == 0))) [
  | inl negative ↦ rw negative (
    (omega arith, inr (ground (arith, negative, high_bit x s.are_bytes.0, s.are_bytes.0))),
    omega (arith, s.same),
    omega (arith, s.shorter),
  )
  | inr positive ↦ rw positive (
    minimal v s (ground (arith, positive, high_bit x s.are_bytes.0, s.are_bytes.0)),
    s.same,
    omega (arith, s.shorter),
  )
]
  where
    minimal : (v : List ℕ) → Skipped b (x ∷ v) → x < 128 → IsMinimal (x ∷ v)
    minimal [] s lt = lt
    minimal (y ∷ v) s lt = (lt, inl (s.no_zero x y v refl))

-- A reader of a DER signature: a sequence of two integers, with lengths of one byte and nothing
-- behind them.
abbrev take_part : ℕ → List ℕ → Option (List ℕ × List ℕ)
take_part n b = if ltb n 128 && leb n (length b) then some (take n b, drop n b) else none

abbrev read_integer : List ℕ → Option (List ℕ × List ℕ)
read_integer (tag ∷ n ∷ rest) = if tag == 0x02 then take_part n rest else none
read_integer _ = none

abbrev at_end : List ℕ → List ℕ × List ℕ → Option (List ℕ × List ℕ)
at_end r (s, []) = some (r, s)
at_end r (s, _ ∷ _) = none

abbrev read_integers : List ℕ → Option (List ℕ × List ℕ)
read_integers b = and_then (read_integer b) (λ r. and_then (read_integer r.1) (at_end r.0))

unfoldable pub read_signature : List ℕ → Option (List ℕ × List ℕ)
read_signature (tag ∷ n ∷ rest) =
    if tag == 0x30 && (ltb n 128 && n == length rest) then read_integers rest else none
read_signature _ = none

integer_read :
    (w rest : List ℕ)
    → length w < 128
    → read_integer ((0x02 ∷ length w ∷ w) ++ rest) ≡ some (w, rest)
integer_read w rest lt =
    let fits : (ltb (length w) 128 && leb (length w) (length (w ++ rest))) ≡ true =
      ground (arith, length-append w rest) in
    rw fits (λ i. some (take-append w rest i, drop-append w rest i))

integers_read :
    (r s : List ℕ)
    → length r < 128
    → length s < 128
    → read_integers ((0x02 ∷ length r ∷ r) ++ (0x02 ∷ length s ∷ s)) ≡ some (r, s)
unfolding and_then
integers_read r s lr ls =
    ap (λ o. and_then o (λ r. and_then (read_integer r.1) (at_end r.0)))
      (integer_read r (0x02 ∷ length s ∷ s) lr)
    ∙ ap (λ t. and_then (read_integer t) (at_end r)) (sym (append-nil (0x02 ∷ length s ∷ s)))
    ∙ ap (λ o. and_then o (at_end r)) (integer_read s [] ls)

signature_read :
    (r s : List ℕ)
    → length r ≤ 33
    → length s ≤ 33
    → let body = (0x02 ∷ length r ∷ r) ++ (0x02 ∷ length s ∷ s) in
      read_signature (0x30 ∷ length body ∷ body) ≡ some (r, s)
unfolding read_signature
signature_read r s lr ls =
    let body = (0x02 ∷ length r ∷ r) ++ (0x02 ∷ length s ∷ s) in
    let short : (ltb (length body) 128 && length body == length body) ≡ true =
      ground (arith, length-append r (0x02 ∷ length s ∷ s)) in
    rw short (integers_read r s (omega (arith, lr)) (omega (arith, ls)))

-- rawSigToDer writes a signature of 64 bytes as a sequence of two integers, which a reader of DER gets back: they have the values of both halves, no sign, and no byte too many. A signature of another length is refused.
pub raw_sig_to_der_lem :
    (raw : List ℕ)
    → Bytes raw
    → ((length raw ≢ 64) × (raw_sig_to_der raw ≡ none))
      ⊎ ((der : List ℕ) × (r : List ℕ) × (s : List ℕ) × (raw_sig_to_der raw ≡ some der)
          × (read_signature der ≡ some (r, s))
          × (big_endian r ≡ big_endian (take 32 raw))
          × (big_endian s ≡ big_endian (drop 32 raw))
          × IsMinimal r
          × IsMinimal s)
unfolding raw_sig_to_der der_integer
raw_sig_to_der_lem raw h = elim (Bool-cases (length raw == 64)) [
  | inr odd ↦ inl (λ e. ground arith, rw odd refl)
  | inl whole ↦
      let half_r : length (take 32 raw) ≡ 32 = ground (arith, length-take 32 raw) in
      let half_s : length (drop 32 raw) ≡ 32 = ground (arith, length-drop 32 raw) in
      let (min_r, val_r, len_r) =
        content-IsMinimal (take 32 raw) (skip_zeros (take 32 raw))
          (skipped (take 32 raw) (take-Bytes 32 raw h) (omega (arith, half_r))) in
      let (min_s, val_s, len_s) =
        content-IsMinimal (drop 32 raw) (skip_zeros (drop 32 raw))
          (skipped (drop 32 raw) (drop-Bytes 32 raw h) (omega (arith, half_s))) in
      rw whole (
        inr (
          _,
          content (take 32 raw),
          content (drop 32 raw),
          refl,
          signature_read (content (take 32 raw)) (content (drop 32 raw))
              (omega (arith, len_r, half_r)) (omega (arith, len_s, half_s)),
          val_r,
          val_s,
          min_r,
          min_s,
        ))
]
