-- ===== src/Blake2b/Digest.antt =====
-- The two implementations of BLAKE2b give the same digests.
use Prim.Native.Nat.{bit_xor}
use native.Mathlib.Decide.{dec_lt}
use maspassword.Base.{
  leb, lt→ltb, ◌%◌, if◌then◌else◌, some, none, ℕ, suc, ◌+◌, ◌-◌, ◌*◌, ◌/◌, ◌^◌, ◌<◌, ◌≡◌, refl, sym,
  ap, ◌∙◌, ◌⊎◌, inl, inr, List, [], ◌∷◌, get_or, set, length, length-set, replicate, arith,
}
use maspassword.Base.Bits.{bit_xor-lt, bit_xor-zero, bit_xor_fields}
use maspassword.Blake2b.Context.{sign_extend, init, update, final}
use maspassword.Blake2b.Pairs.{b2b_iv, b2b_blocks, b2b_out, block_count_of, blake2b}
use maspassword.Blake2b.Arrays.{words, Small, set-Small, get_or-Small}
use maspassword.Blake2b.PairMix.{IsArray}
use maspassword.Blake2b.Compress.{iv_same, iv-IsArray}
use maspassword.Blake2b.Load.{Bytes}
use maspassword.Blake2b.Stream.{context}
use maspassword.Blake2b.Chunk.{within}
use maspassword.Blake2b.Equal.{blocks-final}

-- An exclusive or with the low half of the first word is one with the word.
words-xor_first :
    (p : List ℕ) (z : ℕ)
    → Small p
    → z < 2 ^ 32
    → words (set p 0 (bit_xor (get_or p 0 0) z))
      ≡ set (words p) 0 (bit_xor (get_or (words p) 0 0) z)
unfolding words
words-xor_first [] z h lt = refl
words-xor_first (lo ∷ []) z h lt = refl
words-xor_first (lo ∷ hi ∷ p) z h lt = ap (λ w. w ∷ words p) word
  where
    whole : 0 * 2 ^ 32 + z ≡ z
    whole = omega arith

    word : hi * 2 ^ 32 + bit_xor lo z ≡ bit_xor (hi * 2 ^ 32 + lo) z
    word =
        ap (λ w. w * 2 ^ 32 + bit_xor lo z) (sym (bit_xor-zero hi))
        ∙ sym (bit_xor_fields 32 hi lo 0 z h.0 lt)
        ∙ ap (bit_xor (hi * 2 ^ 32 + lo)) whole

extend_small : (z : ℕ) → z < 2 ^ 31 → sign_extend z ≡ z
extend_small z lt = rw (lt→ltb z (2 ^ 31) lt) refl

-- The hash before the first block.
module _ (out_len : ℕ) (lt : out_len < 2 ^ 31) where
  abbrev first : List ℕ
  first = set b2b_iv 0 (bit_xor (get_or b2b_iv 0 0) (bit_xor 0x01010000 out_len))

  small_parameter : bit_xor 0x01010000 out_len < 2 ^ 31
  small_parameter = bit_xor-lt 31 0x01010000 out_len (omega arith) lt

  parameter_lt : bit_xor 0x01010000 out_len < 2 ^ 32
  parameter_lt = omega (arith, small_parameter)

  not_negative : bit_xor 0x01010000 out_len ≡ sign_extend (bit_xor 0x01010000 (out_len % 2 ^ 32))
  not_negative =
      let whole : out_len ≡ out_len % 2 ^ 32 = omega arith in
      sym (extend_small _ small_parameter) ∙ ap (λ n. sign_extend (bit_xor 0x01010000 n)) whole

  first-IsArray : IsArray 8 first
  first-IsArray = record {
    size = length-set b2b_iv 0 _ ∙ iv-IsArray.size;
    small =
        set-Small b2b_iv 0 _ iv-IsArray.small (
          bit_xor-lt 32 (get_or b2b_iv 0 0) _ (get_or-Small b2b_iv 0 iv-IsArray.small)
            parameter_lt);
  }

  first_words : context (words first) 0 out_len (replicate 128 0) 0 ≡ init out_len
  unfolding init
  first_words =
      ap (λ h. context h 0 out_len (replicate 128 0) 0)
        (words-xor_first b2b_iv (bit_xor 0x01010000 out_len) iv-IsArray.small parameter_lt
          ∙ (λ i. set (iv_same i) 0 (bit_xor (get_or (iv_same i) 0 0) (not_negative i))))

-- For an input of bytes, shorter than 2^64, the digest of web/blake2b.js of up to 64 bytes is what
-- kdbx-read.js's blake2b gives for the same output length; there is none (an exception) for a longer
-- output, below 2^31.
pub blake2b_digest :
    (input : List ℕ) (out_len : ℕ)
    → Bytes input
    → length input < 2 ^ 64
    → out_len < 2 ^ 31
    → final (update (init out_len) input)
      ≡ (if leb out_len 64 then some (blake2b input out_len) else none)
unfolding blake2b
blake2b_digest input out_len bytes short lt = sym (
    (λ i.
      within out_len
        (b2b_out (b2b_blocks (count i) 0 (count_from i) input (first out_len lt) 0 0) 0 out_len))
    ∙ blocks-final k 0 input (first out_len lt) (replicate 128 0) 0 0 out_len
        (first-IsArray out_len lt) bytes enough (omega arith) refl (omega arith) (omega arith)
    ∙ ap (λ ctx. final (update ctx input)) (first_words out_len lt))
  where
    k : ℕ
    k = (length input + 127) / 128 - 1

    count : block_count_of (length input) ≡ suc k
    count = omega arith

    count_from : block_count_of (length input) ≡ 0 + suc k
    count_from = omega arith

    enough : (k * 128 < length input) ⊎ (k ≡ 0)
    enough = elim (dec_lt 0 (length input)) [
      | yes pos ↦ inl (omega arith)
      | no empty ↦ inr (omega arith)
    ]
