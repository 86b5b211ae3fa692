-- ===== src/Blake2b/Chunk.antt =====
-- The message of a chunk, the bytes of a digest and the byte counter are the same on both sides.
use Prim.Native.Nat.{bit_and}
use native.Mathlib.Decide.{dec_lt}
use maspassword.Base.{
  ℕ, zero, suc, ◌+◌, ◌-◌, ◌*◌, ◌/◌, ◌%◌, ◌^◌, ◌<◌, ◌≤◌, ◌≡◌, refl, sym, ap, ◌∙◌, List, [], ◌∷◌,
  ◌++◌, get_or, get_elem?, Option, none, some, true, false, length, replicate, leb, if◌then◌else◌,
  All-append, arith,
}
use maspassword.Base.Bits.{bit_and_mask}
use maspassword.Blake2b.Context.{message, out_bytes, with_byte}
use maspassword.Blake2b.Pairs.{fill_words, b2b_out}
use maspassword.Blake2b.Words.{value, IsPair}
use maspassword.Blake2b.Arrays.{words, Small, get_or-words, get_or-Small}
use maspassword.Blake2b.Compress.{counter}
use maspassword.Blake2b.Load.{Bytes, le_words, le_words-Small, message-le_words}
use maspassword.Blake2b.Fill.{fill_words-le_words}

get_or-zeros : (b : List ℕ) (n i : ℕ) → get_or (b ++ replicate n 0) i 0 ≡ get_or b i 0
get_or-zeros [] zero i = refl
get_or-zeros [] (suc n) zero = refl
get_or-zeros [] (suc n) (suc i) = get_or-zeros [] n i
get_or-zeros (x ∷ b) n zero = refl
get_or-zeros (x ∷ b) n (suc i) = get_or-zeros b n i

le_words-zeros : (k o : ℕ) (b : List ℕ) (n : ℕ) → le_words k o (b ++ replicate n 0) ≡ le_words k o b
unfolding le_words
le_words-zeros zero o b n = refl
le_words-zeros (suc k) o b n = λ i.
    (((get_or-zeros b n (o + 3) i * 2 ^ 8 + get_or-zeros b n (o + 2) i) * 2 ^ 8
          + get_or-zeros b n (o + 1) i)
        * 2 ^ 8
      + get_or-zeros b n o i)
    ∷ le_words-zeros k (o + 4) b n i

zeros-Bytes : (n : ℕ) → Bytes (replicate n 0)
zeros-Bytes zero = tt
zeros-Bytes (suc n) = (omega arith, zeros-Bytes n)

-- The message of a chunk, on both sides.
pub chunk_message :
    (chunk : List ℕ)
    → Bytes chunk
    → length chunk ≤ 128
    → Small (fill_words 0 chunk (replicate 32 0))
      × (words (fill_words 0 chunk (replicate 32 0))
          ≡ message (chunk ++ replicate (128 - length chunk) 0))
chunk_message chunk h le = rw (fill_words-le_words chunk h le) (
  le_words-Small 32 0 chunk h,
  ap words (sym (le_words-zeros 32 0 chunk (128 - length chunk)))
      ∙ sym (
          message-le_words (chunk ++ replicate (128 - length chunk) 0) (
            All-append (λ x. x < 0x100) chunk (replicate (128 - length chunk) 0) h
              (zeros-Bytes (128 - length chunk)))),
)

-- The bytes of a word in its halves.
low_byte :
    (d lo hi : ℕ)
    → d < 4
    → lo < 2 ^ 32
    → lo / 2 ^ (d * 8) % 2 ^ 8 ≡ (hi * 2 ^ 32 + lo) / 2 ^ (8 * d) % 2 ^ 8
low_byte zero lo hi h l = omega arith
low_byte (suc zero) lo hi h l = omega arith
low_byte (suc (suc zero)) lo hi h l = omega arith
low_byte (suc (suc (suc zero))) lo hi h l = omega arith
low_byte (suc (suc (suc (suc d)))) lo hi h l = absurd (omega arith)

high_byte :
    (d lo hi : ℕ)
    → d < 4
    → lo < 2 ^ 32
    → hi / 2 ^ (d * 8) % 2 ^ 8 ≡ (hi * 2 ^ 32 + lo) / 2 ^ (8 * (d + 4)) % 2 ^ 8
high_byte zero lo hi h l = omega arith
high_byte (suc zero) lo hi h l = omega arith
high_byte (suc (suc zero)) lo hi h l = omega arith
high_byte (suc (suc (suc zero))) lo hi h l = omega arith
high_byte (suc (suc (suc (suc d)))) lo hi h l = absurd (omega arith)

-- A byte of the digest.
out_byte :
    (p : List ℕ) (i : ℕ)
    → Small p
    → bit_and (get_or p (i / 4) 0 / 2 ^ (i % 4 * 8)) 0xff
      ≡ bit_and (get_or (words p) (i / 8) 0 / 2 ^ (8 * (i % 8))) 0xff
out_byte p i small =
    bit_and_mask 8 (get_or p (i / 4) 0 / 2 ^ (i % 4 * 8))
    ∙ (elim (dec_lt (i % 8) 4) [
      | yes lt ↦
          let place : i / 4 ≡ 2 * (i / 8) = omega arith in
          let same : i % 8 ≡ i % 4 = omega arith in
          rw (place, same) (low_byte (i % 4) lo hi (omega arith) small_lo)
      | no ge ↦
          let place : i / 4 ≡ 2 * (i / 8) + 1 = omega arith in
          let same : i % 8 ≡ i % 4 + 4 = omega arith in
          rw (place, same) (high_byte (i % 4) lo hi (omega arith) small_lo)
    ])
    ∙ ap (λ w. w / 2 ^ (8 * (i % 8)) % 2 ^ 8) (sym (get_or-words p (i / 8)))
    ∙ sym (bit_and_mask 8 (get_or (words p) (i / 8) 0 / 2 ^ (8 * (i % 8))))
  where
    lo : ℕ
    lo = get_or p (2 * (i / 8)) 0

    hi : ℕ
    hi = get_or p (2 * (i / 8) + 1) 0

    small_lo : lo < 2 ^ 32
    small_lo = get_or-Small p (2 * (i / 8)) small

-- The bytes from `i` on where a missing word is 0.
abbrev filled : List ℕ → ℕ → ℕ → List ℕ
filled h i zero = []
filled h i (suc n) = bit_and (get_or h (i / 8) 0 / 2 ^ (8 * (i % 8))) 0xff ∷ filled h (suc i) n

filled-words : (p : List ℕ) (i n : ℕ) → Small p → b2b_out p i n ≡ filled (words p) i n
filled-words p i zero small = refl
filled-words p i (suc n) small = λ j. out_byte p i small j ∷ filled-words p (suc i) n small j

get_elem?-lt : (h : List ℕ) (i : ℕ) → i < length h → get_elem? h i ≡ some (get_or h i 0)
get_elem?-lt [] i lt = absurd (omega arith)
get_elem?-lt (x ∷ h) zero lt = refl
get_elem?-lt (x ∷ h) (suc i) lt = get_elem?-lt h i (omega arith)

get_elem?-ge : (h : List ℕ) (i : ℕ) → length h ≤ i → get_elem? h i ≡ none
get_elem?-ge [] i le = refl
get_elem?-ge (x ∷ h) zero le = absurd (omega arith)
get_elem?-ge (x ∷ h) (suc i) le = get_elem?-ge h i (omega arith)

-- What is left of an output that ends at byte `o`: eight words have 64 bytes.
abbrev pub within : ℕ → List ℕ → Option (List ℕ)
within o bytes = if leb o 64 then some bytes else none

out_bytes-within :
    (h : List ℕ) (i n : ℕ) → length h ≡ 8 → i ≤ 64 → out_bytes h i n ≡ within (i + n) (filled h i n)
out_bytes-within h i zero e le = ground arith
out_bytes-within h i (suc n) e le = elim (dec_lt i 64) [
  | yes lt ↦
      ap (λ w. with_byte w i (out_bytes h (suc i) n)) (get_elem?-lt h (i / 8) (omega arith))
      ∙ ap (λ bytes. with_byte (some (get_or h (i / 8) 0)) i bytes)
          (out_bytes-within h (suc i) n e (omega arith))
      ∙ inside (get_or h (i / 8) 0)
  | no ge ↦
      ap (λ w. with_byte w i (out_bytes h (suc i) n)) (get_elem?-ge h (i / 8) (omega arith))
      ∙ ground arith
]
  where
    inside :
        (w : ℕ)
        → with_byte (some w) i (within (suc i + n) (filled h (suc i) n))
          ≡ within (i + suc n) (bit_and (w / 2 ^ (8 * (i % 8))) 0xff ∷ filled h (suc i) n)
    inside w = elim (dec_lt 64 (i + suc n)) [
      | yes out ↦
          let a : leb (suc i + n) 64 ≡ false = ground arith in
          let b : leb (i + suc n) 64 ≡ false = ground arith in rw (a, b) refl
      | no fits ↦
          let a : leb (suc i + n) 64 ≡ true = ground arith in
          let b : leb (i + suc n) 64 ≡ true = ground arith in rw (a, b) refl
    ]

pub out_bytes-words :
    (p : List ℕ) (o : ℕ)
    → Small p
    → length (words p) ≡ 8
    → within o (b2b_out p 0 o) ≡ out_bytes (words p) 0 o
out_bytes-words p o small e =
    ap (within o) (filled-words p 0 o small)
    ∙ ap (λ n. within n (filled (words p) 0 o)) (omega arith)
    ∙ sym (out_bytes-within (words p) 0 o e (omega arith))

-- The byte counter in two halves, behind a chunk.
abbrev pub carry_lo : ℕ → ℕ
carry_lo sum = if leb (2 ^ 32) sum then sum - 2 ^ 32 else sum

abbrev pub carry_hi : ℕ → ℕ → ℕ
carry_hi sum t_hi = if leb (2 ^ 32) sum then suc t_hi else t_hi

pub counter_step :
    (t_lo t_hi n : ℕ)
    → t_lo < 2 ^ 32
    → n ≤ 128
    → t_hi * 2 ^ 32 + t_lo + n < 2 ^ 64
    → IsPair (counter (carry_lo (t_lo + n)) (carry_hi (t_lo + n) t_hi))
      × (value (counter (carry_lo (t_lo + n)) (carry_hi (t_lo + n) t_hi))
          ≡ t_hi * 2 ^ 32 + t_lo + n)
counter_step t_lo t_hi n h le lt =
    (record { lo_lt = ground arith; hi_lt = ground arith }, ground arith)
