-- ===== src/Blake2b/Fill.antt =====
-- b2b fills its array of message words with the little-endian words of a chunk.
use Prim.Native.Nat.{bit_or}
use native.Mathlib.Numerals.{unary_clauses}
use maspassword.Base.{
  ℕ, zero, suc, ◌+◌, ◌*◌, ◌/◌, ◌%◌, ◌^◌, ◌<◌, ◌≤◌, ◌≡◌, refl, sym, ap, ◌∙◌, List, [], ◌∷◌, ◌++◌,
  append_assoc, get_or, set, length, length-append, replicate, arith,
}
use maspassword.Base.Bits.{bit_or_fields, bit_or_comm}
use maspassword.Blake2b.Pairs.{left, fill_words}
use maspassword.Blake2b.Load.{Bytes, le_word, le_words}

get_or-append :
    (front : List ℕ) (w : ℕ) (rest : List ℕ) → get_or (front ++ w ∷ rest) (length front) 0 ≡ w
get_or-append [] w rest = refl
get_or-append (x ∷ front) w rest = get_or-append front w rest

pub set-append :
    (front : List ℕ) (w x : ℕ) (rest : List ℕ)
    → set (front ++ w ∷ rest) (length front) x ≡ front ++ x ∷ rest
set-append [] w x rest = refl
set-append (y ∷ front) w x rest = ap (λ t. y ∷ t) (set-append front w x rest)

-- A byte is put above the `r` bytes that the word has.
or_byte :
    (r w byte : ℕ)
    → w < 2 ^ (r * 8)
    → left byte (r * 8) ≡ byte * 2 ^ (r * 8)
    → bit_or w (left byte (r * 8)) ≡ byte * 2 ^ (r * 8) + w
or_byte r w byte lt e =
    ap (bit_or w) e ∙ bit_or_comm w (byte * 2 ^ (r * 8)) ∙ bit_or_fields (r * 8) byte w lt

-- One turn of the loop, for byte `r` of the word behind `front`.
fill_step :
    (front : List ℕ) (r w byte : ℕ) (chunk rest : List ℕ)
    → r < 4
    → w < 2 ^ (r * 8)
    → left byte (r * 8) ≡ byte * 2 ^ (r * 8)
    → fill_words (4 * length front + r) (byte ∷ chunk) (front ++ w ∷ rest)
      ≡ fill_words (4 * length front + suc r) chunk (front ++ (byte * 2 ^ (r * 8) + w) ∷ rest)
unfolding fill_words
fill_step front r w byte chunk rest hr lt e =
    let next : suc (4 * length front + r) ≡ 4 * length front + suc r = omega arith in
    let word : (4 * length front + r) / 4 ≡ length front = omega arith in
    let digit : (4 * length front + r) % 4 ≡ r = omega arith in
    rw (next, word, digit, get_or-append front w rest, or_byte r w byte lt e)
      (ap (fill_words (4 * length front + suc r) chunk)
        (set-append front w (byte * 2 ^ (r * 8) + w) rest))

le_words-shift :
    (n o : ℕ) (a b c d : ℕ) (xs : List ℕ)
    → le_words n (o + 4) (a ∷ b ∷ c ∷ d ∷ xs) ≡ le_words n o xs
unfolding le_words
le_words-shift zero o a b c d xs = refl
le_words-shift (suc n) o a b c d xs = λ i. word i ∷ le_words-shift n (o + 4) a b c d xs i
  where
    deep : (k : ℕ) → get_or (a ∷ b ∷ c ∷ d ∷ xs) (k + 4) 0 ≡ get_or xs k 0
    deep k = simp unary_clauses refl

    e3 : o + 4 + 3 ≡ o + 3 + 4
    e3 = omega arith

    e2 : o + 4 + 2 ≡ o + 2 + 4
    e2 = omega arith

    e1 : o + 4 + 1 ≡ o + 1 + 4
    e1 = omega arith

    word : le_word (a ∷ b ∷ c ∷ d ∷ xs) (o + 4) ≡ le_word xs o
    word = rw (e3, e2, e1, deep (o + 3), deep (o + 2), deep (o + 1), deep o) refl

get_or-past : (b : List ℕ) (i : ℕ) → length b ≤ i → get_or b i 0 ≡ 0
get_or-past [] i h = refl
get_or-past (x ∷ b) zero h = absurd (omega arith)
get_or-past (x ∷ b) (suc i) h = get_or-past b i (omega arith)

-- Behind the last byte the words are 0.
le_words-past : (n o : ℕ) (b : List ℕ) → length b ≤ o → le_words n o b ≡ replicate n 0
unfolding le_words
le_words-past zero o b h = refl
le_words-past (suc n) o b h = λ i. word i ∷ le_words-past n (o + 4) b (omega arith) i
  where
    word : le_word b o ≡ 0
    word = omega (
      arith,
      get_or-past b (o + 3) (omega arith),
      get_or-past b (o + 2) (omega arith),
      get_or-past b (o + 1) (omega arith),
      get_or-past b o h,
    )

module _ (front rest : List ℕ) where
  base : ℕ
  base = 4 * length front

  -- The first one, two, three and four bytes of a word.
  one_byte :
      (a : ℕ) (chunk : List ℕ)
      → a < 0x100
      → fill_words base (a ∷ chunk) (front ++ 0 ∷ rest)
        ≡ fill_words (base + 1) chunk (front ++ a ∷ rest)
  unfolding base
  one_byte a chunk h =
      let from_start : 4 * length front ≡ 4 * length front + 0 = omega arith in
      let word : a * 2 ^ (0 * 8) + 0 ≡ a = omega arith in
      ap (λ i. fill_words i (a ∷ chunk) (front ++ 0 ∷ rest)) from_start
      ∙ fill_step front 0 0 a chunk rest (omega arith) (omega arith) (omega arith)
      ∙ ap (λ w. fill_words (4 * length front + 1) chunk (front ++ w ∷ rest)) word

  two_bytes :
      (a b : ℕ) (chunk : List ℕ)
      → a < 0x100
      → b < 0x100
      → fill_words base (a ∷ b ∷ chunk) (front ++ 0 ∷ rest)
        ≡ fill_words (base + 2) chunk (front ++ (b * 2 ^ 8 + a) ∷ rest)
  unfolding base
  two_bytes a b chunk ha hb =
      one_byte a (b ∷ chunk) ha
      ∙ fill_step front 1 a b chunk rest (omega arith) (omega arith) (omega arith)

  three_bytes :
      (a b c : ℕ) (chunk : List ℕ)
      → a < 0x100
      → b < 0x100
      → c < 0x100
      → fill_words base (a ∷ b ∷ c ∷ chunk) (front ++ 0 ∷ rest)
        ≡ fill_words (base + 3) chunk (front ++ ((c * 2 ^ 8 + b) * 2 ^ 8 + a) ∷ rest)
  unfolding base
  three_bytes a b c chunk ha hb hc =
      let word : c * 2 ^ 16 + (b * 2 ^ 8 + a) ≡ (c * 2 ^ 8 + b) * 2 ^ 8 + a = omega arith in
      two_bytes a b (c ∷ chunk) ha hb
      ∙ fill_step front 2 (b * 2 ^ 8 + a) c chunk rest (omega arith) (omega arith) (omega arith)
      ∙ ap (λ w. fill_words (4 * length front + 3) chunk (front ++ w ∷ rest)) word

  four_bytes :
      (a b c d : ℕ) (chunk : List ℕ)
      → a < 0x100
      → b < 0x100
      → c < 0x100
      → d < 0x100
      → fill_words base (a ∷ b ∷ c ∷ d ∷ chunk) (front ++ 0 ∷ rest)
        ≡ fill_words (base + 4) chunk (front ++ (((d * 2 ^ 8 + c) * 2 ^ 8 + b) * 2 ^ 8 + a) ∷ rest)
  unfolding base
  four_bytes a b c d chunk ha hb hc hd =
      let word : d * 2 ^ 24 + ((c * 2 ^ 8 + b) * 2 ^ 8 + a)
          ≡ ((d * 2 ^ 8 + c) * 2 ^ 8 + b) * 2 ^ 8 + a =
        omega arith in
      three_bytes a b c (d ∷ chunk) ha hb hc
      ∙ fill_step front 3 ((c * 2 ^ 8 + b) * 2 ^ 8 + a) d chunk rest (omega arith) (omega arith)
          (omega arith)
      ∙ ap (λ w. fill_words (4 * length front + 4) chunk (front ++ w ∷ rest)) word

fill-le_words :
    (n : ℕ) (front chunk : List ℕ)
    → Bytes chunk
    → length chunk ≤ 4 * n
    → fill_words (4 * length front) chunk (front ++ replicate n 0) ≡ front ++ le_words n 0 chunk
unfolding fill_words le_words base
fill-le_words n front [] h le = ap (λ t. front ++ t) (sym (le_words-past n 0 [] (omega arith)))
fill-le_words zero front (a ∷ chunk) h le = absurd (omega arith)
fill-le_words (suc n) front (a ∷ []) h le =
    let word : a ≡ le_word (a ∷ []) 0 = omega arith in
    one_byte front (replicate n 0) a [] h.0 ∙ λ i.
    front ++ (word i ∷ sym (le_words-past n 4 (a ∷ []) (omega arith)) i)
fill-le_words (suc n) front (a ∷ b ∷ []) h le =
    let word : b * 2 ^ 8 + a ≡ le_word (a ∷ b ∷ []) 0 = omega arith in
    two_bytes front (replicate n 0) a b [] h.0 h.1.0 ∙ λ i.
    front ++ (word i ∷ sym (le_words-past n 4 (a ∷ b ∷ []) (omega arith)) i)
fill-le_words (suc n) front (a ∷ b ∷ c ∷ []) h le =
    let word : (c * 2 ^ 8 + b) * 2 ^ 8 + a ≡ le_word (a ∷ b ∷ c ∷ []) 0 = omega arith in
    three_bytes front (replicate n 0) a b c [] h.0 h.1.0 h.1.1.0 ∙ λ i.
    front ++ (word i ∷ sym (le_words-past n 4 (a ∷ b ∷ c ∷ []) (omega arith)) i)
fill-le_words (suc n) front (a ∷ b ∷ c ∷ d ∷ chunk) h le =
    four_bytes front (replicate n 0) a b c d chunk h.0 h.1.0 h.1.1.0 h.1.1.1.0
    ∙ (λ i. fill_words (place i) chunk (sym (append_assoc front (w ∷ []) (replicate n 0)) i))
    ∙ fill-le_words n (front ++ w ∷ []) chunk h.1.1.1.1 (omega arith)
    ∙ append_assoc front (w ∷ []) (le_words n 0 chunk)
    ∙ ap (λ ws. front ++ w ∷ ws) (sym (le_words-shift n 0 a b c d chunk))
  where
    w : ℕ
    w = ((d * 2 ^ 8 + c) * 2 ^ 8 + b) * 2 ^ 8 + a

    place : 4 * length front + 4 ≡ 4 * length (front ++ w ∷ [])
    place = omega (arith, length-append front (w ∷ []))

-- The array of message words behind the loop.
pub fill_words-le_words :
    (chunk : List ℕ)
    → Bytes chunk
    → length chunk ≤ 128
    → fill_words 0 chunk (replicate 32 0) ≡ le_words 32 0 chunk
fill_words-le_words chunk h le = fill-le_words 32 [] chunk h le
