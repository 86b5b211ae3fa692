-- ===== src/Blake2b/Compress.antt =====
-- One compression on pairs is the one on BigInts.
use Prim.Native.Nat.{bit_xor, bit_and}
use mathlib.Core.Path.{subst}
use maspassword.Base.{
  ℕ, zero, suc, ◌+◌, ◌*◌, ◌/◌, ◌^◌, ◌<◌, ◌≤◌, Bool, true, false, ◌≡◌, refl, sym, ap, ◌∙◌, List, [],
  ◌∷◌, ◌++◌, get_or, set, length, length-append, length-drop, drop, arith,
}
use maspassword.Base.Bits.{bit_and_mask, bit_xor-zero, bit_xor-lt, bit_xor_assoc, bit_xor_fields}
use maspassword.Blake2b.Wide.{mask64, not64, iv_halves, iv_words, rounds, twelve, fold_in}
use maspassword.Blake2b.Context.{start, message, compress_words}
use maspassword.Blake2b.Pairs.{
  Pair, read, write, xor_pair, b2b_iv, b2b_start, b2b_rounds, b2b_compress, not32, set_not,
  fold_halves,
}
use maspassword.Blake2b.Words.{value, IsPair, xor_pair-IsPair, value-xor_pair}
use maspassword.Blake2b.Arrays.{
  words, Small, get_or-words, words-write, read-IsPair, words-append, words-drop, Small-append,
  Small-drop,
}
use maspassword.Blake2b.Registers.{get_or-set_ne, set_same}
use maspassword.Blake2b.PairMix.{IsArray, write-IsArray}
use maspassword.Blake2b.Rounds.{Same, twelve-Same}

pub iv_same : words b2b_iv ≡ iv_words iv_halves
unfolding words b2b_iv iv_words iv_halves
iv_same = refl

pub iv-IsArray : IsArray 8 b2b_iv
unfolding b2b_iv
iv-IsArray = record { size = refl; small = omega arith }

-- The counter, in two halves.
abbrev pub counter : ℕ → ℕ → Pair
counter t_lo t_hi = record { lo = t_lo; hi = t_hi }

module _ (h : List ℕ) (array : IsArray 8 h) where
  abbrev both : List ℕ
  both = h ++ b2b_iv

  both-IsArray : IsArray 16 both
  both-IsArray = record {
    size = omega (arith, length-append h b2b_iv, array.size, iv-IsArray.size);
    small = Small-append h b2b_iv array.small iv-IsArray.small;
  }

  words-both : words both ≡ words h ++ iv_words iv_halves
  words-both = words-append 8 h b2b_iv array.size ∙ ap (λ t. words h ++ t) iv_same

-- `v[24] ^= tLo; v[25] ^= tHi`
xor_at_12 :
    (p : List ℕ) (t_lo t_hi : ℕ)
    → set
        (set p 24 (bit_xor (get_or p 24 0) t_lo))
        25
        (bit_xor (get_or (set p 24 (bit_xor (get_or p 24 0) t_lo)) 25 0) t_hi)
      ≡ write p 12 (xor_pair (read p 12) (counter t_lo t_hi))
xor_at_12 p t_lo t_hi = rw (get_or-set_ne p 24 25 (bit_xor (get_or p 24 0) t_lo) (omega arith))

-- `v[28] = ~v[28]; v[29] = ~v[29]`
abbrev not_pair : Pair → Pair
not_pair x = record { lo = not32 x.lo; hi = not32 x.hi }

not_at_14 : (p : List ℕ) → set_not (set_not p 28) 29 ≡ write p 14 (not_pair (read p 14))
not_at_14 p = rw (get_or-set_ne p 28 29 (not32 (get_or p 28 0)) (omega arith))

value-not_pair : (x : Pair) → IsPair x → value (not_pair x) ≡ not64 (value x)
value-not_pair x h = omega (arith, h.lo_lt, h.hi_lt)

counted :
    (v : List ℕ) (t : ℕ)
    → t < 2 ^ 64
    → set (set v 12 (bit_xor (get_or v 12 0) (bit_and t mask64))) 13 (
        bit_xor
          (get_or (set v 12 (bit_xor (get_or v 12 0) (bit_and t mask64))) 13 0)
          (bit_and (t / 2 ^ 64) mask64))
      ≡ set v 12 (bit_xor (get_or v 12 0) t)
counted v t lt =
    rw (low, high, bit_xor-zero (get_or (set v 12 (bit_xor (get_or v 12 0) t)) 13 0))
      (set_same (set v 12 (bit_xor (get_or v 12 0) t)) 13)
  where
    low : bit_and t mask64 ≡ t
    low = omega (arith, bit_and_mask 64 t)

    high : bit_and (t / 2 ^ 64) mask64 ≡ 0
    high = omega (arith, bit_and_mask 64 (t / 2 ^ 64))

-- A pair is written where the words get its value.
write-Same :
    {p v : List ℕ} (i : ℕ) (x : Pair)
    → i < 16
    → IsPair x
    → Same p v
    → Same (write p i x) (set v i (value x))
write-Same {p} i x lt pair h = record {
  array = write-IsArray 16 p i x h.array pair;
  eq = words-write p i x (omega (arith, h.array.size)) ∙ ap (λ t. set t i (value x)) h.eq;
}

read-Same : {p v : List ℕ} (i : ℕ) → Same p v → value (read p i) ≡ get_or v i 0
read-Same {p} i h = sym (get_or-words p i) ∙ ap (λ t. get_or t i 0) h.eq

module _ (h : List ℕ) (array : IsArray 8 h) (t_lo t_hi : ℕ)
    (pair : IsPair (counter t_lo t_hi)) where
  both-Same : Same (both h array) (words h ++ iv_words iv_halves)
  both-Same = record { array = both-IsArray h array; eq = words-both h array }

  counted_pairs : List ℕ
  counted_pairs = write (both h array) 12 (xor_pair (read (both h array) 12) (counter t_lo t_hi))

  counted_words : List ℕ
  counted_words =
      set (words h ++ iv_words iv_halves) 12
        (bit_xor (get_or (words h ++ iv_words iv_halves) 12 0) (value (counter t_lo t_hi)))

  counted-Same : Same counted_pairs counted_words
  unfolding counted_pairs counted_words
  counted-Same =
      let r = read-IsPair (both h array) 12 (both-IsArray h array).small in
      subst (λ x. Same counted_pairs (set (words h ++ iv_words iv_halves) 12 x))
        (value-xor_pair (read (both h array) 12) (counter t_lo t_hi) r pair
          ∙ ap (λ x. bit_xor x (value (counter t_lo t_hi))) (read-Same 12 both-Same))
        (write-Same 12 _ (omega arith)
          (xor_pair-IsPair (read (both h array) 12) (counter t_lo t_hi) r pair) both-Same)

  inverted-Same :
      Same
        (write counted_pairs 14 (not_pair (read counted_pairs 14)))
        (set counted_words 14 (not64 (get_or counted_words 14 0)))
  inverted-Same =
      let r = read-IsPair counted_pairs 14 counted-Same.array.small in
      subst
        (λ x.
          Same (write counted_pairs 14 (not_pair (read counted_pairs 14))) (set counted_words 14 x))
        (value-not_pair (read counted_pairs 14) r ∙ ap not64 (read-Same 14 counted-Same))
        (write-Same 14 _ (omega arith) (record { lo_lt = omega arith; hi_lt = omega arith })
          counted-Same)

  b2b_start-Same :
      (last : Bool)
      → Same (b2b_start h t_lo t_hi last) (start (words h) (value (counter t_lo t_hi)) last)
  unfolding b2b_start start counted_pairs counted_words
  b2b_start-Same true =
      rw
        (
          xor_at_12 (both h array) t_lo t_hi,
          not_at_14 counted_pairs,
          counted (words h ++ iv_words iv_halves) (value (counter t_lo t_hi))
              (omega (arith, pair.lo_lt, pair.hi_lt)),
        )
        inverted-Same
  b2b_start-Same false =
      rw
        (
          xor_at_12 (both h array) t_lo t_hi,
          counted (words h ++ iv_words iv_halves) (value (counter t_lo t_hi))
              (omega (arith, pair.lo_lt, pair.hi_lt)),
        )
        counted-Same

-- The words of the hash are folded in, half by half.
words-fold_halves :
    (n : ℕ) (h low high : List ℕ)
    → length h ≡ 2 * n
    → 2 * n ≤ length low
    → 2 * n ≤ length high
    → Small h
    → Small low
    → Small high
    → words (fold_halves h low high) ≡ fold_in (words h) (words low) (words high)
unfolding words fold_in
words-fold_halves n [] low high e l1 l2 s s1 s2 = refl
words-fold_halves n (a ∷ []) low high e l1 l2 s s1 s2 = absurd (omega arith)
words-fold_halves zero (a ∷ b ∷ h) low high e l1 l2 s s1 s2 = absurd (omega arith)
words-fold_halves (suc n) (a ∷ b ∷ h) (c ∷ d ∷ low) (f ∷ g ∷ high) e l1 l2 s s1 s2 = λ i.
    word i
    ∷ words-fold_halves n h low high (omega arith) (omega arith) (omega arith) s.1.1 s1.1.1 s2.1.1 i
  where
    word :
        bit_xor b (bit_xor d g) * 2 ^ 32 + bit_xor a (bit_xor c f)
        ≡ bit_xor (bit_xor (b * 2 ^ 32 + a) (d * 2 ^ 32 + c)) (g * 2 ^ 32 + f)
    word = sym (
        ap (λ x. bit_xor x (g * 2 ^ 32 + f)) (bit_xor_fields 32 b a d c s.0 s1.0)
        ∙ bit_xor_fields 32 (bit_xor b d) (bit_xor a c) g f (bit_xor-lt 32 a c s.0 s1.0) s2.0
        ∙ λ i. bit_xor_assoc b d g i * 2 ^ 32 + bit_xor_assoc a c f i)
words-fold_halves (suc n) (a ∷ b ∷ h) [] high e l1 l2 s s1 s2 = absurd (omega arith)
words-fold_halves (suc n) (a ∷ b ∷ h) (c ∷ []) high e l1 l2 s s1 s2 = absurd (omega arith)
words-fold_halves (suc n) (a ∷ b ∷ h) (c ∷ d ∷ low) [] e l1 l2 s s1 s2 = absurd (omega arith)
words-fold_halves (suc n) (a ∷ b ∷ h) (c ∷ d ∷ low) (f ∷ []) e l1 l2 s s1 s2 = absurd (omega arith)

fold_halves-IsArray :
    (n : ℕ) (h low high : List ℕ)
    → length h ≡ 2 * n
    → 2 * n ≤ length low
    → 2 * n ≤ length high
    → Small h
    → Small low
    → Small high
    → IsArray n (fold_halves h low high)
fold_halves-IsArray n h low high e l1 l2 s s1 s2 = record {
  size = size h low high (2 * n) e l1 l2;
  small = in_range h low high s s1 s2;
}
  where
    size :
        (h low high : List ℕ) (n : ℕ)
        → length h ≡ n
        → n ≤ length low
        → n ≤ length high
        → length (fold_halves h low high) ≡ n
    size [] low high n e l1 l2 = e
    size (a ∷ h) [] high n e l1 l2 = absurd (omega arith)
    size (a ∷ h) (c ∷ low) [] n e l1 l2 = absurd (omega arith)
    size (a ∷ h) (c ∷ low) (f ∷ high) zero e l1 l2 = absurd (omega arith)
    size (a ∷ h) (c ∷ low) (f ∷ high) (suc n) e l1 l2 =
        ap suc (size h low high n (omega arith) (omega arith) (omega arith))

    in_range :
        (h low high : List ℕ) → Small h → Small low → Small high → Small (fold_halves h low high)
    in_range [] low high s s1 s2 = tt
    in_range (a ∷ h) [] high s s1 s2 = tt
    in_range (a ∷ h) (c ∷ low) [] s s1 s2 = tt
    in_range (a ∷ h) (c ∷ low) (f ∷ high) s s1 s2 = (
      bit_xor-lt 32 a (bit_xor c f) s.0 (bit_xor-lt 32 c f s1.0 s2.0),
      in_range h low high s.1 s1.1 s2.1,
    )

-- A compression on pairs gives an array of pairs again, whose words are those that the compression
-- on BigInts gives.
pub record Compressed (h m b : List ℕ) (t_lo t_hi : ℕ) (last : Bool) : Type 0 where
  pub array : IsArray 8 (b2b_compress h m t_lo t_hi last)
  pub eq :
      words (b2b_compress h m t_lo t_hi last)
      ≡ compress_words (words h) b (value (counter t_lo t_hi)) last

pub b2b_compress-Compressed :
    (h m b : List ℕ) (t_lo t_hi : ℕ) (last : Bool)
    → IsArray 8 h
    → Small m
    → words m ≡ message b
    → IsPair (counter t_lo t_hi)
    → Compressed h m b t_lo t_hi last
unfolding b2b_compress compress_words
b2b_compress-Compressed h m b t_lo t_hi last array small same_message pair = record {
  array =
      fold_halves-IsArray 8 h v (drop 16 v) array.size long_low long_high array.small
        out.array.small (Small-drop 16 v out.array.small);
  eq =
      words-fold_halves 8 h v (drop 16 v) array.size long_low long_high array.small out.array.small
        (Small-drop 16 v out.array.small)
      ∙ (λ i. fold_in (words h) (out.eq i) (words-drop 8 v i))
      ∙ (λ i. fold_in (words h) (wide (words m)) (drop 8 (out.eq i)))
      ∙ ap (λ ws. fold_in (words h) (wide ws) (drop 8 (wide ws))) same_message;
}
  where
    v : List ℕ
    v = b2b_rounds twelve m (b2b_start h t_lo t_hi last)

    wide : List ℕ → List ℕ
    wide ws = rounds twelve ws (start (words h) (value (counter t_lo t_hi)) last)

    out : Same v (wide (words m))
    out = twelve-Same m small (b2b_start-Same h array t_lo t_hi pair last)

    long_low : 2 * 8 ≤ length v
    long_low = omega (arith, out.array.size)

    long_high : 2 * 8 ≤ length (drop 16 v)
    long_high = omega (arith, out.array.size, length-drop 16 v)
