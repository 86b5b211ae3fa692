-- ===== src/Blake2b/Stream.antt =====
-- The context of web/blake2b.js, block by block: what its buffer holds, and that the parts in which an
-- input is given do not matter.
use maspassword.Base.{
  ℕ, zero, suc, ◌+◌, ◌-◌, ◌≤◌, true, false, ◌≡◌, refl, sym, ap, ◌∙◌, List, [], ◌∷◌, ◌++◌,
  append_assoc, append-nil, drop, length, length-append, length-drop, replicate, ◌==◌, arith, join,
}
use maspassword.Blake2b.Context.{
  Context, compress_words, compress, init, flush, put_byte, update, pad, out_bytes, final,
  update_all, blake2b256, blake2b256_multi,
}
use maspassword.Blake2b.Fill.{set-append}

pub update-append :
    (ctx : Context) (xs ys : List ℕ) → update ctx (xs ++ ys) ≡ update (update ctx xs) ys
unfolding update
update-append ctx [] ys = refl
update-append ctx (x ∷ xs) ys = update-append (put_byte (flush ctx) x) xs ys

update_all-join :
    (ctx : Context) (inputs : List (List ℕ)) → update_all ctx inputs ≡ update ctx (join [] inputs)
unfolding update_all join update
update_all-join ctx [] = refl
update_all-join ctx (x ∷ []) = refl
update_all-join ctx (x ∷ y ∷ inputs) =
    update_all-join (update ctx x) (y ∷ inputs) ∙ sym (update-append ctx x (join [] (y ∷ inputs)))

-- blake2b256Multi is the digest of its inputs put one behind the other.
blake2b256_multi-join :
    (inputs : List (List ℕ)) → blake2b256_multi inputs ≡ blake2b256 (join [] inputs)
unfolding blake2b256_multi blake2b256
blake2b256_multi-join inputs = ap final (update_all-join (init 32) inputs)

module _ (h : List ℕ) (t o : ℕ) where
  abbrev pub context : List ℕ → ℕ → Context
  context b c = record { h = h; b = b; c = c; t = t; outlen = o }

  -- Bytes for which the buffer has room are put into it.
  absorb :
      (front rest xs : List ℕ)
      → length front + length xs ≤ 128
      → length xs ≤ length rest
      → update (context (front ++ rest) (length front)) xs
        ≡ context (front ++ (xs ++ drop (length xs) rest)) (length front + length xs)
  unfolding update
  absorb front rest [] h1 h2 = ap (context (front ++ rest)) (omega arith)
  absorb front [] (x ∷ xs) h1 h2 = absurd (omega arith)
  absorb front (y ∷ rest) (x ∷ xs) h1 h2 =
      ap (λ ctx. update (put_byte ctx x) xs) no_flush
      ∙ ap (λ b. update (context b (suc (length front))) xs) (set-append front y x rest)
      ∙ (λ i. update (context (sym (append_assoc front (x ∷ []) rest) i) (size i)) xs)
      ∙ absorb (front ++ x ∷ []) rest xs (omega (arith, size)) (omega arith)
      ∙ λ i. context (append_assoc front (x ∷ []) (xs ++ drop (length xs) rest) i) (total i)
    where
      size : suc (length front) ≡ length (front ++ x ∷ [])
      size = omega (arith, length-append front (x ∷ []))

      total : length (front ++ x ∷ []) + length xs ≡ length front + length (x ∷ xs)
      total = omega (arith, size)

      no_flush :
          flush (context (front ++ y ∷ rest) (length front))
          ≡ context (front ++ y ∷ rest) (length front)
      no_flush = let not_full : (length front == 128) ≡ false = ground arith in rw not_full

  absorb_first :
      (b xs : List ℕ)
      → length xs ≤ 128
      → length xs ≤ length b
      → update (context b 0) xs ≡ context (xs ++ drop (length xs) b) (length xs)
  absorb_first b xs h1 h2 =
      absorb [] b xs (omega arith) h2 ∙ ap (context (xs ++ drop (length xs) b)) (omega arith)

  pad-zeros :
      (front rest : List ℕ) (n : ℕ)
      → length rest ≡ n
      → pad n (context (front ++ rest) (length front))
        ≡ context (front ++ replicate n 0) (length front + n)
  pad-zeros front [] zero e = ap (context (front ++ [])) (omega arith)
  pad-zeros front (y ∷ rest) zero e = absurd (omega arith)
  pad-zeros front [] (suc n) e = absurd (omega arith)
  pad-zeros front (y ∷ rest) (suc n) e =
      ap (λ b. pad n (context b (suc (length front)))) (set-append front y 0 rest)
      ∙ (λ i. pad n (context (sym (append_assoc front (0 ∷ []) rest) i) (size i)))
      ∙ pad-zeros (front ++ 0 ∷ []) rest n (omega arith)
      ∙ λ i. context (append_assoc front (0 ∷ []) (replicate n 0) i) (total i)
    where
      size : suc (length front) ≡ length (front ++ 0 ∷ [])
      size = omega (arith, length-append front (0 ∷ []))

      total : length (front ++ 0 ∷ []) + n ≡ length front + suc n
      total = omega (arith, size)

-- What a digest is when the rest of the input fits in a block.
pub final-last :
    (h b input : List ℕ) (t o : ℕ)
    → length b ≡ 128
    → length input ≤ 128
    → final (update (context h t o b 0) input)
      ≡ out_bytes
          (compress_words h (input ++ replicate (128 - length input) 0) (t + length input) true)
          0
          o
unfolding final compress
final-last h b input t o full le =
    ap final (absorb_first h t o b input le (omega arith))
    ∙ ap (λ ctx. out_bytes (compress ctx true).h 0 (compress ctx true).outlen)
        (pad-zeros h (t + length input) o input (drop (length input) b) (128 - length input)
          (omega (arith, length-drop (length input) b)))

nothing : (n : ℕ) (b : List ℕ) → length b ≤ n → drop n b ≡ []
nothing zero [] h = refl
nothing (suc n) [] h = refl
nothing zero (x ∷ b) h = absurd (omega arith)
nothing (suc n) (x ∷ b) h = nothing n b (omega arith)

-- A block with more input behind it is compressed before the next byte.
pub update-block :
    (h b block : List ℕ) (x : ℕ) (rest : List ℕ) (t o : ℕ)
    → length b ≡ 128
    → length block ≡ 128
    → update (context h t o b 0) (block ++ x ∷ rest)
      ≡ update (context (compress_words h block (t + 128) false) (t + 128) o block 0) (x ∷ rest)
unfolding update compress
update-block h b block x rest t o full size =
    update-append (context h t o b 0) block (x ∷ rest)
    ∙ ap (λ ctx. update ctx (x ∷ rest))
        (absorb_first h t o b block (omega arith) (omega arith) ∙ whole)
    ∙ flushed
  where
    whole : context h t o (block ++ drop (length block) b) (length block) ≡ context h t o block 128
    whole = λ i.
        context h t o
          ((ap (λ r. block ++ r) (nothing (length block) b (omega arith)) ∙ append-nil block) i)
          (size i)

    flushed :
        update (context h t o block 128) (x ∷ rest)
        ≡ update (context (compress_words h block (t + 128) false) (t + 128) o block 0) (x ∷ rest)
    flushed = refl
