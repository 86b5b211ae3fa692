-- ===== src/Blake2b/Equal.antt =====
-- The two implementations of BLAKE2b give the same digests.
use mathlib.Core.Path.{subst}
use maspassword.Base.{
  ℕ, zero, suc, ◌+◌, ◌-◌, ◌*◌, ◌^◌, ◌<◌, ◌≤◌, Bool, true, false, ◌≡◌, refl, sym, ap, ◌∙◌, ◌⊎◌, inl,
  inr, List, [], ◌∷◌, ◌++◌, take, drop, take-append-drop, length, length-take, length-drop,
  append-nil, replicate, ◌==◌, arith,
}
use maspassword.Blake2b.Context.{compress_words, update, out_bytes, final}
use maspassword.Blake2b.Pairs.{b2b_compress, b2b_blocks, fill_words, b2b_out}
use maspassword.Blake2b.Words.{value, IsPair}
use maspassword.Blake2b.Arrays.{words, length-words}
use maspassword.Blake2b.PairMix.{IsArray}
use maspassword.Blake2b.Compress.{counter, b2b_compress-Compressed}
use maspassword.Blake2b.Load.{Bytes}
use maspassword.Blake2b.Chunk.{
  within, chunk_message, out_bytes-words, carry_lo, carry_hi, counter_step,
}
use maspassword.Blake2b.Stream.{context, final-last, update-block}

take-Bytes : (n : ℕ) (b : List ℕ) → Bytes b → Bytes (take n b)
take-Bytes zero b h = tt
take-Bytes (suc n) [] h = tt
take-Bytes (suc n) (x ∷ b) h = (h.0, take-Bytes n b h.1)

drop-Bytes : (n : ℕ) (b : List ℕ) → Bytes b → Bytes (drop n b)
drop-Bytes zero b h = h
drop-Bytes (suc n) [] h = tt
drop-Bytes (suc n) (x ∷ b) h = drop-Bytes n b h.1

drop-nil : (m : ℕ) → drop {A = ℕ} m [] ≡ []
drop-nil zero = refl
drop-nil (suc m) = refl

drop-drop : (m n : ℕ) (b : List ℕ) → drop m (drop n b) ≡ drop (n + m) b
drop-drop m zero b = let e : m ≡ 0 + m = omega arith in ap (λ k. drop k b) e
drop-drop m (suc n) [] = drop-nil m ∙ sym (drop-nil (suc n + m))
drop-drop m (suc n) (x ∷ b) =
    let e : suc (n + m) ≡ suc n + m = omega arith in drop-drop m n b ∙ ap (λ k. drop k (x ∷ b)) e

take_all : (n : ℕ) (b : List ℕ) → length b ≤ n → take n b ≡ b
take_all zero [] h = refl
take_all zero (x ∷ b) h = absurd (omega arith)
take_all (suc n) [] h = refl
take_all (suc n) (x ∷ b) h = ap (λ t. x ∷ t) (take_all n b (omega arith))

-- One turn of the block loop on a chunk: the pairs behind it are the words that the BigInt version
-- has, and the counter is the one behind the chunk.
module _ (h chunk : List ℕ) (t_lo t_hi : ℕ) (last : Bool) where
  abbrev lo : ℕ
  lo = carry_lo (t_lo + length chunk)

  abbrev hi : ℕ
  hi = carry_hi (t_lo + length chunk) t_hi

  abbrev total : ℕ
  total = t_hi * 2 ^ 32 + t_lo + length chunk

  abbrev after : List ℕ
  after = b2b_compress h (fill_words 0 chunk (replicate 32 0)) lo hi last

  record Turn : Type 0 where
    pair : IsPair (counter lo hi)
    counts : value (counter lo hi) ≡ total
    array : IsArray 8 after
    eq :
        words after
        ≡ compress_words (words h) (chunk ++ replicate (128 - length chunk) 0) total last

  turn : IsArray 8 h → Bytes chunk → length chunk ≤ 128 → t_lo < 2 ^ 32 → total < 2 ^ 64 → Turn
  turn array bytes le lo_lt lt =
      let (small, same) = chunk_message chunk bytes le in
      let (pair, counts) = counter_step t_lo t_hi (length chunk) lo_lt le lt in
      let c = b2b_compress-Compressed h _ _ lo hi last array small same pair in
      record {
        pair = pair;
        counts = counts;
        array = c.array;
        eq =
            c.eq
            ∙ ap (λ t. compress_words (words h) (chunk ++ replicate (128 - length chunk) 0) t last)
                counts;
      }

-- The bytes from block `bi` on.
abbrev from_block : List ℕ → ℕ → List ℕ
from_block input bi = drop (bi * 128) input

b2b_blocks-one :
    (bi count : ℕ) (input h : List ℕ) (t_lo t_hi : ℕ)
    → (bi == count - 1) ≡ true
    → b2b_blocks 1 bi count input h t_lo t_hi
      ≡ after h (take 128 (from_block input bi)) t_lo t_hi true
unfolding b2b_blocks
b2b_blocks-one bi count input h t_lo t_hi e =
    ap (λ last. after h (take 128 (from_block input bi)) t_lo t_hi last) e

blocks-last :
    (bi : ℕ) (input h b : List ℕ) (t_lo t_hi o : ℕ)
    → IsArray 8 h
    → Bytes (from_block input bi)
    → length (from_block input bi) ≤ 128
    → length b ≡ 128
    → t_lo < 2 ^ 32
    → t_hi * 2 ^ 32 + t_lo + length (from_block input bi) < 2 ^ 64
    → within o (b2b_out (b2b_blocks 1 bi (suc bi) input h t_lo t_hi) 0 o)
      ≡ final (update (context (words h) (t_hi * 2 ^ 32 + t_lo) o b 0) (from_block input bi))
blocks-last bi input h b t_lo t_hi o array bytes le full lo_lt lt =
    ap (λ w. within o (b2b_out w 0 o)) (b2b_blocks-one bi (suc bi) input h t_lo t_hi is_last)
    ∙ ap (λ c. within o (b2b_out (after h c t_lo t_hi true) 0 o))
        (take_all 128 (from_block input bi) le)
    ∙ out_bytes-words (after h (from_block input bi) t_lo t_hi true) o t.array.small eight
    ∙ ap (λ w. out_bytes w 0 o) t.eq
    ∙ sym (final-last (words h) b (from_block input bi) (t_hi * 2 ^ 32 + t_lo) o full le)
  where
    is_last : (bi == suc bi - 1) ≡ true
    is_last = ground arith

    t : Turn h (from_block input bi) t_lo t_hi true
    t = turn h (from_block input bi) t_lo t_hi true array bytes le lo_lt lt

    eight : length (words (after h (from_block input bi) t_lo t_hi true)) ≡ 8
    eight = length-words _ 8 t.array.size

-- A list that is longer than a block is the block and more behind it.
record Longer (b : List ℕ) : Type 0 where
  byte : ℕ
  rest : List ℕ
  rest_is : drop 128 b ≡ byte ∷ rest

longer : (b : List ℕ) → 128 < length b → Longer b
longer b h = of_drop (drop 128 b) refl
  where
    of_drop : (d : List ℕ) → drop 128 b ≡ d → Longer b
    of_drop [] e = absurd (omega (arith, length-drop 128 b, ap length e))
    of_drop (byte ∷ rest) e = record { byte = byte; rest = rest; rest_is = e }

b2b_blocks-suc :
    (n bi count : ℕ) (input h : List ℕ) (t_lo t_hi : ℕ)
    → (bi == count - 1) ≡ false
    → b2b_blocks (suc n) bi count input h t_lo t_hi
      ≡ b2b_blocks n
          (suc bi)
          count
          input
          (after h (take 128 (from_block input bi)) t_lo t_hi false)
          (lo h (take 128 (from_block input bi)) t_lo t_hi false)
          (hi h (take 128 (from_block input bi)) t_lo t_hi false)
unfolding b2b_blocks
b2b_blocks-suc n bi count input h t_lo t_hi e =
    ap
      (λ last.
        b2b_blocks n (suc bi) count input (after h (take 128 (from_block input bi)) t_lo t_hi last)
          (lo h (take 128 (from_block input bi)) t_lo t_hi false)
          (hi h (take 128 (from_block input bi)) t_lo t_hi false))
      e

-- The loop with `suc k` blocks left, and the context that has taken no byte of them.
pub blocks-final :
    (k bi : ℕ) (input h b : List ℕ) (t_lo t_hi o : ℕ)
    → IsArray 8 h
    → Bytes (from_block input bi)
    → (k * 128 < length (from_block input bi)) ⊎ (k ≡ 0)
    → length (from_block input bi) ≤ suc k * 128
    → length b ≡ 128
    → t_lo < 2 ^ 32
    → t_hi * 2 ^ 32 + t_lo + length (from_block input bi) < 2 ^ 64
    → within o (b2b_out (b2b_blocks (suc k) bi (bi + suc k) input h t_lo t_hi) 0 o)
      ≡ final (update (context (words h) (t_hi * 2 ^ 32 + t_lo) o b 0) (from_block input bi))
blocks-final zero bi input h b t_lo t_hi o array bytes more le full lo_lt lt =
    ap (λ n. within o (b2b_out (b2b_blocks 1 bi n input h t_lo t_hi) 0 o)) (omega arith)
    ∙ blocks-last bi input h b t_lo t_hi o array bytes (omega arith) full lo_lt lt
blocks-final (suc k) bi input h b t_lo t_hi o array bytes (inr none_left) le full lo_lt lt =
    absurd (omega arith)
blocks-final (suc k) bi input h b t_lo t_hi o array bytes (inl more) le full lo_lt lt =
    ap (within o) step
    ∙ blocks-final k (suc bi) input h' block (lo h block t_lo t_hi false)
        (hi h block t_lo t_hi false) o t.array (subst Bytes (sym next) (drop-Bytes 128 here bytes))
        more_left (omega (arith, left)) block_size t.pair.lo_lt
        (omega (arith, left, t.counts, block_size))
    ∙ back
  where
    here : List ℕ
    here = from_block input bi

    block : List ℕ
    block = take 128 here

    block_size : length block ≡ 128
    block_size = omega (arith, length-take 128 here)

    t : Turn h block t_lo t_hi false
    t =
        turn h block t_lo t_hi false array (take-Bytes 128 here bytes) (omega (arith, block_size))
          lo_lt (omega (arith, block_size))

    h' : List ℕ
    h' = after h block t_lo t_hi false

    next : from_block input (suc bi) ≡ drop 128 here
    next = ap (λ k. drop k input) (omega arith) ∙ sym (drop-drop 128 (bi * 128) input)

    left : length (from_block input (suc bi)) + 128 ≡ length here
    left = omega (arith, ap length next, length-drop 128 here)

    more_left : (k * 128 < length (from_block input (suc bi))) ⊎ (k ≡ 0)
    more_left = inl (omega (arith, left))

    step :
        b2b_out (b2b_blocks (suc (suc k)) bi (bi + suc (suc k)) input h t_lo t_hi) 0 o
        ≡ b2b_out
            (b2b_blocks
              (suc k)
              (suc bi)
              (suc bi + suc k)
              input
              h'
              (lo h block t_lo t_hi false)
              (hi h block t_lo t_hi false))
            0
            o
    step =
        let not_last : (bi == suc bi + suc k - 1) ≡ false = ground arith in
        let count : bi + suc (suc k) ≡ suc bi + suc k = omega arith in
        ap (λ n. b2b_out (b2b_blocks (suc (suc k)) bi n input h t_lo t_hi) 0 o) count
        ∙ ap (λ w. b2b_out w 0 o)
            (b2b_blocks-suc (suc k) bi (suc bi + suc k) input h t_lo t_hi not_last)

    back :
        final (
          update
            (context
              (words h')
              (hi h block t_lo t_hi false * 2 ^ 32 + lo h block t_lo t_hi false)
              o
              block
              0)
            (from_block input (suc bi)))
        ≡ final (update (context (words h) (t_hi * 2 ^ 32 + t_lo) o b 0) here)
    back =
        (λ i. final (update (context (compressed i) (counts i) o block 0) ((next ∙ l.rest_is) i)))
        ∙ sym (
            ap final (
              update-block (words h) b block l.byte l.rest (t_hi * 2 ^ 32 + t_lo) o full
                block_size))
        ∙ ap (λ d. final (update (context (words h) (t_hi * 2 ^ 32 + t_lo) o b 0) d)) whole
      where
        l : Longer here
        l = longer here (omega arith)

        counts :
            hi h block t_lo t_hi false * 2 ^ 32 + lo h block t_lo t_hi false
            ≡ t_hi * 2 ^ 32 + t_lo + 128
        counts = t.counts ∙ ap (λ n. t_hi * 2 ^ 32 + t_lo + n) block_size

        no_zeros : block ++ replicate (128 - length block) 0 ≡ block
        no_zeros = ap (λ n. block ++ replicate (128 - n) 0) block_size ∙ append-nil block

        compressed : words h' ≡ compress_words (words h) block (t_hi * 2 ^ 32 + t_lo + 128) false
        compressed = t.eq ∙ λ i.
            compress_words (words h) (no_zeros i) (t_hi * 2 ^ 32 + t_lo + block_size i) false

        whole : block ++ l.byte ∷ l.rest ≡ here
        whole = ap (λ r. block ++ r) (sym l.rest_is) ∙ take-append-drop 128 here
